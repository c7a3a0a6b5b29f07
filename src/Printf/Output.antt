-- ===== src/Printf/Output.antt =====
-- What `printf` prints (libc/stdio/printf.c): ordinary text, and a `%c` behind another directive.
use chao_s_os.Prelude.{
  ℕ, suc, ◌+◌, ◌-◌, ◌%◌, ◌^◌, ◌≤◌, ◌<◌, ◌≡◌, refl, ap, ◌∙◌, false, some, [], ◌∷◌, ◌++◌, arith, ◌==◌,
  ltb, length, drop, take,
}
use chao_s_os.Printf.{Text, HexFormat, int2string}
use chao_s_os.Printf.Format.{
  word, Printing, Outcome, finished, int_max, emit, perform, directive, run_length, rest_of_format,
  printf_loop, start, printf, puts,
}

-- No `%` in the text.
abbrev pub IsOrdinary : Text → Type 0
IsOrdinary [] = Unit
IsOrdinary (c ∷ t) = ((c == b'%') ≡ false) × IsOrdinary t

run_length-ordinary : (t : Text) → IsOrdinary t → run_length t ≡ length t
unfolding run_length
run_length-ordinary [] o = refl
run_length-ordinary (c ∷ t) o = rw o.0 (ap suc (run_length-ordinary t o.1))

take_all : (t : Text) → take (length t) t ≡ t
take_all [] = refl
take_all (c ∷ t) = ap (λ r. c ∷ r) (take_all t)

drop_all : (t : Text) → drop (length t) t ≡ []
drop_all [] = refl
drop_all (c ∷ t) = drop_all t

emit-fits :
    (t : Text) (s : Printing) (next : Printing → Outcome)
    → length t ≤ int_max - s.written
    → emit t s next ≡ next (record s { written = s.written + length t; out = s.out ++ t })
unfolding emit
emit-fits t s next l =
    let room : ltb (int_max - s.written) (length t) ≡ false = ground arith in rw room

-- A run of ordinary bytes up to the end of the format.
last_run :
    (f c : ℕ) (t : Text) (s : Printing)
    → IsOrdinary (c ∷ t)
    → length (c ∷ t) ≤ int_max - s.written
    → printf_loop (suc (suc f)) (c ∷ t) s
      ≡ finished (record s { written = s.written + length (c ∷ t); out = s.out ++ c ∷ t })
unfolding printf_loop
last_run f c t s o l =
    rw (o.0, run_length-ordinary t o.1, take_all t)
      (emit-fits (c ∷ t) s _ l ∙ rw (o.0, run_length-ordinary t o.1, drop_all t))

-- `printf` prints a format without `%` as it stands, and returns its length.
pub printf-ordinary :
    (g : HexFormat) (c : ℕ) (t : Text)
    → IsOrdinary (c ∷ t)
    → length (c ∷ t) ≤ int_max
    → printf g (c ∷ t) []
      ≡ finished (record { args = []; written = length (c ∷ t); str = []; hex = g; out = c ∷ t })
unfolding printf start
printf-ordinary g c t o l =
    last_run (length t) c t (start g []) o l
    ∙ ap (λ n. finished (record { args = []; written = n; str = []; hex = g; out = c ∷ t }))
        (omega arith)

-- `%d` behind nothing, and then `%c`: what `%d` printed stands behind the character once more, since
-- the branch of `%c` leaves `str` as the branch of `%d` has set it.
pub printf-repeats :
    (g : HexFormat) (w c i : ℕ) (t : Text)
    → int2string w 100 ≡ some (i, t)
    → length t ≤ 100
    → printf g (b'%' ∷ b'd' ∷ b'%' ∷ b'c' ∷ []) (word w ∷ word c ∷ [])
      ≡ finished (record {
        args = [];
        written = length t + 1 + length t;
        str = t;
        hex = g;
        out = (t ++ (c % 2 ^ 8) ∷ []) ++ t;
      })
unfolding printf printf_loop start perform directive rest_of_format emit
printf-repeats g w c i t e l = rw e (ground arith)

-- `puts` prints the string and a newline.
pub puts-line :
    (g : HexFormat) (line : Text)
    → length line < int_max
    → puts g line
      ≡ finished (record {
        args = [];
        written = length line + 1;
        str = line;
        hex = g;
        out = line ++ 10 ∷ [];
      })
unfolding puts printf_loop start perform directive rest_of_format emit run_length
puts-line g line l = ground arith
