-- ===== src/Strings/Tests.antt =====
-- libc/string on a small memory.
use chao_s_os.Prelude.{◌+◌, ◌-◌, ◌≡◌, refl, some, if◌then◌else◌, ltb}
use chao_s_os.Strings.{Memory, memmove, copy_up, copy_down, strlen, strlen_loop}
use chao_s_os.Strings.Moves.{Moved, memmove_lem}

-- The bytes at 100 to 104 are 1 to 5.
abbrev digits : Memory
digits a = if ltb a 100 then 0 else if ltb a 105 then a + 1 - 100 else 0

moves_up : memmove 101 100 3 digits 103 ≡ 3
unfolding memmove copy_up copy_down
moves_up = refl

length_5 : strlen 9 100 digits ≡ some 5
unfolding strlen strlen_loop
length_5 = refl

memmove_lem_example : Moved 101 100 3 digits (memmove 101 100 3 digits)
memmove_lem_example = memmove_lem 101 100 3 digits
