-- ===== src/Printf/Format.antt =====
-- `printf` and `puts` (libc/stdio/printf.c, puts.c): the interpreter of a format over the arguments.
-- `print` hands each byte to `putchar`, which returns it, never EOF: so it always succeeds, and what
-- it writes is collected in `out`.
use chao_s_os.Prelude.{
  ℕ, zero, suc, ◌+◌, ◌-◌, ◌%◌, ◌^◌, Bool, ◌&&◌, ◌||◌, not, none, some, List, [], ◌∷◌, ◌++◌, ◌==◌,
  ltb, if◌then◌else◌, length, get_or, take, drop,
}
use chao_s_os.Printf.{Text, HexFormat, int2string, hex2string, Converted}

-- A variadic argument: an `int` or `unsigned int` as its bit pattern, or a string.
pub data Arg : Type 0 where
  word : ℕ → Arg
  text : Text → Arg

-- The locals of `printf`, its globals, and what has been printed. `str` is empty for the null
-- pointer, for which `strlen` returns 0.
pub record Printing : Type 0 where
  pub args : List Arg
  pub written : ℕ
  pub str : Text
  pub hex : HexFormat
  pub out : Text

-- `return written`; `return -1`; an argument that is missing or of another type, or a write in front
-- of the buffer; and the end of the fuel.
pub data Outcome : Type 0 where
  finished : Printing → Outcome
  too_long : Printing → Outcome
  undefined : Outcome
  out_of_fuel : Outcome

abbrev pub int_max : ℕ
int_max = 2 ^ 31 - 1

-- A directive, with what it sets of the globals for `hex2string`.
pub data Directive : Type 0 where
  character string decimal other : Directive
  hexadecimal : HexFormat → Directive

-- `*(format + k)`, which is the NUL at the end.
abbrev pub at : Text → ℕ → ℕ
at t k = get_or t k 0

abbrev pub is_x : ℕ → Bool
is_x c = c == b'x' || c == b'X'

-- The directive at the byte behind `%`, and the number of bytes that it takes.
unfoldable pub directive : HexFormat → Text → Directive × ℕ
directive g t =
    if at t 0 == b'c'
    then (character, 1)
    else if at t 0 == b's'
    then (string, 1)
    else if at t 0 == b'd'
    then (decimal, 1)
    else if is_x (at t 0)
    then (hexadecimal (record g { hex_flag = at t 0; hex_digits_max = 0; format_sign = b' ' }), 1)
    else if at t 0 == b'0' && is_x (at t 1)
    then (hexadecimal (record g { hex_flag = at t 1; hex_digits_max = 0; format_sign = b' ' }), 2)
    else if at t 0 == b'0' && (at t 1 == b'8' && is_x (at t 2))
    then (
      hexadecimal (record {
        hex_flag = at t 2;
        hex_digits_max = 8;
        format_sign = b' ';
        hex_complement = b'0';
      }),
      3,
    )
    else if at t 0 == b'8' && is_x (at t 1)
    then (
      hexadecimal (record {
        hex_flag = at t 1;
        hex_digits_max = 8;
        format_sign = b' ';
        hex_complement = b' ';
      }),
      2,
    )
    else if at t 0 == b'#' && is_x (at t 1)
    then (hexadecimal (record g { hex_flag = at t 1; hex_digits_max = 0; format_sign = b'#' }), 2)
    else if at t 0 == b'#' && (at t 1 == b'0' && is_x (at t 2))
    then (hexadecimal (record g { hex_flag = at t 2; hex_digits_max = 0; format_sign = b'#' }), 3)
    else if at t 0 == b'#' && (at t 1 == b'0' && (at t 2 == b'8' && is_x (at t 3)))
    then (
      hexadecimal (record {
        hex_flag = at t 3;
        hex_digits_max = 8;
        format_sign = b'#';
        hex_complement = b'0';
      }),
      4,
    )
    else if at t 0 == b'#' && (at t 1 == b'8' && is_x (at t 2))
    then (
      hexadecimal (record {
        hex_flag = at t 2;
        hex_digits_max = 8;
        format_sign = b'#';
        hex_complement = b' ';
      }),
      3,
    )
    else (other, 0)

-- `if (maxrem < len) return -1; if (!print(str, len)) return -1; written += len;`
unfoldable pub emit : Text → Printing → (Printing → Outcome) → Outcome
emit t s next =
    if ltb (int_max - s.written) (length t)
    then too_long s
    else next (record s { written = s.written + length t; out = s.out ++ t })

-- A conversion's text becomes `str`.
unfoldable pub convert : Converted → Printing → (Printing → Outcome) → Outcome
convert none s next = undefined
convert (some (i, t)) s next = next (record s { str = t })

-- `if (!maxrem) return -1;` and the one byte
unfoldable pub print_character : ℕ → Printing → (Printing → Outcome) → Outcome
print_character w s next =
    if int_max - s.written == 0
    then too_long s
    else next (record s { written = s.written + 1; out = s.out ++ (w % 2 ^ 8) ∷ [] })

-- The branches of the directives. The branch of `%c` leaves `str` as it was.
unfoldable pub perform : Directive → Text → List Arg → Printing → (Printing → Outcome) → Outcome
unfolding convert print_character
perform character whole (word w ∷ args) s next = print_character w (record s { args = args }) next
perform string whole (text t ∷ args) s next = next (record s { args = args; str = t })
perform decimal whole (word w ∷ args) s next =
    convert (int2string w 100) (record s { args = args }) next
perform (hexadecimal g) whole (word w ∷ args) s next =
    convert (hex2string g w 100) (record s { args = args; hex = g }) next
perform other whole args s next = next (record s { str = whole })
perform d whole args s next = undefined

-- `while (format[amount] && format[amount] != '%') amount++;`
unfoldable pub run_length : Text → ℕ
run_length [] = 0
run_length (c ∷ t) = let rest = run_length t in if c == b'%' then 0 else suc rest

-- The text that a run of ordinary bytes prints, and the format behind it.
abbrev pub run_amount : Text → ℕ
run_amount body = suc (run_length (drop 1 body))

-- The format behind a directive; the last branch goes to its end.
unfoldable pub rest_of_format : Directive → ℕ → Text → Text
rest_of_format other k t = []
rest_of_format d k t = drop k t

unfoldable pub printf_loop : ℕ → Text → Printing → Outcome
printf_loop zero format s = out_of_fuel
printf_loop (suc f) [] s = finished s
printf_loop (suc f) (c ∷ t) s =
    let loop = printf_loop f in
    if not (c == b'%') || at t 0 == b'%'
    then (let body = if c == b'%' then t else c ∷ t in
        emit (take (run_amount body) body) s (loop (drop (run_amount body) body)))
    else (let (d, k) = directive s.hex t in
        perform d (c ∷ t) s.args s (λ s'. emit s'.str s' (loop (rest_of_format d k t))))

unfoldable pub start : HexFormat → List Arg → Printing
start g args = record { args = args; written = 0; str = []; hex = g; out = [] }

-- Each round takes at least one byte of the format.
unfoldable pub printf : HexFormat → Text → List Arg → Outcome
unfolding printf_loop start
printf g format args = printf_loop (suc (length format)) format (start g args)

unfoldable pub puts : HexFormat → Text → Outcome
unfolding printf
puts g line = printf g (b'%' ∷ b's' ∷ 10 ∷ []) (text line ∷ [])
