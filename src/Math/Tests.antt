-- ===== src/Math/Tests.antt =====
-- kernel/kernel/math.c at numbers.
use chao_s_os.Prelude.{◌≡◌, refl, some}
use chao_s_os.Math.{is_power_of_2, next_power_of_2, power_of_2}

next_of_3 : next_power_of_2 3 ≡ 4
unfolding next_power_of_2 is_power_of_2
next_of_3 = refl

level_of_1024 : power_of_2 1024 ≡ some 10
unfolding power_of_2
level_of_1024 = refl
