-- ===== src/Printf/Count.antt =====
-- The number that `printf` returns (libc/stdio/printf.c), over every format and argument list.
use chao_s_os.Prelude.{
  ℕ, zero, suc, ◌+◌, ◌-◌, ◌%◌, ◌^◌, ◌≤◌, ◌<◌, ◌≡◌, refl, inl, inr, true, none, some, List, [], ◌∷◌,
  ◌++◌, arith, ◌==◌, ltb, length, length-append, length-drop, drop, take, Bool-cases,
}
use chao_s_os.Printf.{Text, HexFormat, Converted, int2string, hex2string}
use chao_s_os.Printf.Format.{
  Arg, word, text, Printing, Outcome, finished, too_long, undefined, out_of_fuel, int_max,
  Directive, character, string, decimal, other, hexadecimal, at, directive, emit, convert,
  print_character, perform, run_length, run_amount, rest_of_format, printf_loop, start, printf,
}

-- `written` counts what has been printed, and fits an `int`.
pub record Counted (s : Printing) : Type 0 where
  pub counts : s.written ≡ length s.out
  pub fits : s.written ≤ int_max

-- The run ends, and its count is right where it ends by a `return`.
abbrev pub EndsCounted : Outcome → Type 0
EndsCounted (finished s) = Counted s
EndsCounted (too_long s) = Counted s
EndsCounted undefined = Unit
EndsCounted out_of_fuel = ⊥

module _ (next : Printing → Outcome)
    (goes_on : (s : Printing) → Counted s → EndsCounted (next s)) where
  emit-Counted : (t : Text) (s : Printing) → Counted s → EndsCounted (emit t s next)
  unfolding emit
  emit-Counted t s c = elim (Bool-cases (ltb (int_max - s.written) (length t))) [
    | inl full ↦ rw full c
    | inr room ↦
        let s' : Printing = record s { written = s.written + length t; out = s.out ++ t } in
        rw room (
          goes_on s' (record {
            counts = omega (arith, length-append s.out t, c.counts);
            fits = ground (arith, c.fits);
          }))
  ]

  convert-Counted : (r : Converted) (s : Printing) → Counted s → EndsCounted (convert r s next)
  unfolding convert
  convert-Counted none s c = tt
  convert-Counted (some (i, t)) s c =
      goes_on (record s { str = t }) (record { counts = c.counts; fits = c.fits })

  print_character-Counted :
      (w : ℕ) (s : Printing) → Counted s → EndsCounted (print_character w s next)
  unfolding print_character
  print_character-Counted w s c = elim (Bool-cases (int_max - s.written == 0)) [
    | inl full ↦ rw full c
    | inr room ↦
        let s' : Printing = record s { written = s.written + 1; out = s.out ++ (w % 2 ^ 8) ∷ [] } in
        rw room (
          goes_on s' (record {
            counts = omega (arith, length-append s.out ((w % 2 ^ 8) ∷ []), c.counts);
            fits = ground (arith, c.fits);
          }))
  ]

  perform-Counted :
      (d : Directive) (whole : Text) (args : List Arg) (s : Printing)
      → Counted s
      → EndsCounted (perform d whole args s next)
  unfolding perform
  perform-Counted character whole (word w ∷ args) s c =
      print_character-Counted w (record s { args = args })
        (record { counts = c.counts; fits = c.fits })
  perform-Counted string whole (text t ∷ args) s c =
      goes_on (record s { args = args; str = t }) (record { counts = c.counts; fits = c.fits })
  perform-Counted decimal whole (word w ∷ args) s c =
      convert-Counted (int2string w 100) (record s { args = args })
        (record { counts = c.counts; fits = c.fits })
  perform-Counted (hexadecimal g) whole (word w ∷ args) s c =
      convert-Counted (hex2string g w 100) (record s { args = args; hex = g })
        (record { counts = c.counts; fits = c.fits })
  perform-Counted other whole args s c =
      goes_on (record s { str = whole }) (record { counts = c.counts; fits = c.fits })
  perform-Counted character whole [] s c = tt
  perform-Counted character whole (text t ∷ args) s c = tt
  perform-Counted string whole [] s c = tt
  perform-Counted string whole (word w ∷ args) s c = tt
  perform-Counted decimal whole [] s c = tt
  perform-Counted decimal whole (text t ∷ args) s c = tt
  perform-Counted (hexadecimal g) whole [] s c = tt
  perform-Counted (hexadecimal g) whole (text t ∷ args) s c = tt

rest_of_format-le : (d : Directive) (k : ℕ) (t : Text) → length (rest_of_format d k t) ≤ length t
unfolding rest_of_format
rest_of_format-le other k t = omega arith
rest_of_format-le character k t = omega (arith, length-drop k t)
rest_of_format-le string k t = omega (arith, length-drop k t)
rest_of_format-le decimal k t = omega (arith, length-drop k t)
rest_of_format-le (hexadecimal g) k t = omega (arith, length-drop k t)

drop_run-lt : (t : Text) (k : ℕ) → 0 < length t → length (drop (suc k) t) < length t
drop_run-lt t k l = omega (arith, length-drop (suc k) t)

-- One round, given the rest of the rounds.
module _ (f : ℕ)
    (rest : (format : Text) (s : Printing)
      → length format < f
      → Counted s
      → EndsCounted (printf_loop f format s)) where
  literal-Counted :
      (body : Text) (s : Printing)
      → 0 < length body
      → length body ≤ f
      → Counted s
      → EndsCounted
          (emit (take (run_amount body) body) s (printf_loop f (drop (run_amount body) body)))
  literal-Counted body s p l k =
      emit-Counted (printf_loop f (drop (run_amount body) body))
        (λ s' k'.
          rest (drop (run_amount body) body) s'
            (omega (arith, drop_run-lt body (run_length (drop 1 body)) p)) k')
        (take (run_amount body) body) s k

  directive-Counted :
      (d : Directive) (n : ℕ) (whole t : Text) (s : Printing)
      → length t < f
      → Counted s
      → EndsCounted
          (perform d whole s.args s (λ s'. emit s'.str s' (printf_loop f (rest_of_format d n t))))
  directive-Counted d n whole t s l k =
      perform-Counted (λ s'. emit s'.str s' (printf_loop f (rest_of_format d n t)))
        (λ s' k'.
          emit-Counted (printf_loop f (rest_of_format d n t))
            (λ s'' k''.
              rest (rest_of_format d n t) s'' (omega (arith, rest_of_format-le d n t)) k'')
            s'.str s' k')
        d whole s.args s k

printf_loop-Counted :
    (f : ℕ) (format : Text) (s : Printing)
    → length format < f
    → Counted s
    → EndsCounted (printf_loop f format s)
unfolding printf_loop
printf_loop-Counted zero format s l k = absurd (omega arith)
printf_loop-Counted (suc f) [] s l k = k
printf_loop-Counted (suc f) (c ∷ t) s l k = elim (Bool-cases (c == b'%')) [
  | inl percent ↦ elim (Bool-cases (at t 0 == b'%')) [
    | inl twice ↦
        rw (percent, twice)
          (literal-Counted f (printf_loop-Counted f) t s (one_byte t twice) (omega arith) k)
    | inr single ↦
        rw (percent, single)
          (directive-Counted f (printf_loop-Counted f) (directive s.hex t).0 (directive s.hex t).1
            (c ∷ t) t s (omega arith) k)
  ]
  | inr ordinary ↦
      rw ordinary
        (literal-Counted f (printf_loop-Counted f) (c ∷ t) s (omega arith) (omega arith) k)
]
  where
    one_byte : (t : Text) → (at t 0 == b'%') ≡ true → 0 < length t
    one_byte [] h = cc
    one_byte (c ∷ t) h = omega arith

-- The loop of `printf` comes to an end on every format and every argument list, and whenever it ends
-- by a `return`, of `written` or of -1, `written` is the number of bytes that were printed, and that
-- number fits an `int`. (The other end is an argument that is missing or of another type, or a
-- conversion that leaves its buffer.)
pub printf-counted :
    (g : HexFormat) (format : Text) (args : List Arg) → EndsCounted (printf g format args)
unfolding printf start
printf-counted g format args =
    printf_loop-Counted (suc (length format)) format (start g args) (omega arith)
      (record { counts = refl; fits = omega arith })
