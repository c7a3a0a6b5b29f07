-- ===== src/Keyboard/Handler.antt =====
-- The states of the modifier keys (kernel/kernel/keyboard.c).
use chao_s_os.Prelude.{
  ℕ, ◌≤◌, ◌≡◌, ◌⊎◌, inl, inr, refl, Bool, true, false, arith, List, [], ◌∷◌, ◌==◌, if◌then◌else◌,
}
use chao_s_os.Keyboard.{
  Keyboard, init_keyboard, keyboard_input_handler, extended, plain, character, output, toggle_caps,
  interrupts, extend_code_prefix, l_shift_pressed, l_shift_released, r_shift_pressed,
  r_shift_released, alt_pressed, alt_released, ctrl_pressed, ctrl_released, caps_lock_pressed,
}

-- The states are KEY_PRESSED or KEY_RELEASED, and `extend_flag` is EXTEND_CODE_PREFIX or
-- EXTEND_CODE_FLUSH.
pub record IsValid (k : Keyboard) : Type 0 where
  pub crtl : k.crtl_status ≤ 1
  pub shift : k.shift_status ≤ 1
  pub alt : k.alt_status ≤ 1
  pub caps : k.caps_lock_status ≤ 1
  pub extend : (k.extend_flag ≡ 0) ⊎ (k.extend_flag ≡ 0xE0)

-- What a character leaves alone.
record SameStates (k k' : Keyboard) : Type 0 where
  pub crtl : k'.crtl_status ≡ k.crtl_status
  pub shift : k'.shift_status ≡ k.shift_status
  pub alt : k'.alt_status ≡ k.alt_status
  pub caps : k'.caps_lock_status ≡ k.caps_lock_status
  pub extend : k'.extend_flag ≡ k.extend_flag

SameStates-refl : (k : Keyboard) → SameStates k k
SameStates-refl k = record { crtl = refl; shift = refl; alt = refl; caps = refl; extend = refl }

output-SameStates : (c : ℕ) (k : Keyboard) → SameStates k (output c k)
unfolding output
output-SameStates c k = record { crtl = refl; shift = refl; alt = refl; caps = refl; extend = refl }

choose-SameStates :
    (b : Bool) (k p q : Keyboard)
    → SameStates k p
    → SameStates k q
    → SameStates k (if b then p else q)
choose-SameStates true k p q s t = s
choose-SameStates false k p q s t = t

character-SameStates : (c : ℕ) (k : Keyboard) → SameStates k (character c k)
unfolding character
character-SameStates c k = choose-SameStates _ k _ _ (SameStates-refl k) (
    choose-SameStates _ k _ _ (output-SameStates _ k)
      (choose-SameStates _ k _ _ (SameStates-refl k) (output-SameStates _ k)))

SameStates-IsValid : (k k' : Keyboard) → SameStates k k' → IsValid k → IsValid k'
SameStates-IsValid k k' s v = record {
  crtl = omega (arith, s.crtl, v.crtl);
  shift = omega (arith, s.shift, v.shift);
  alt = omega (arith, s.alt, v.alt);
  caps = omega (arith, s.caps, v.caps);
  extend = omega (arith, s.extend, v.extend);
}

choose-IsValid : (b : Bool) (p q : Keyboard) → IsValid p → IsValid q → IsValid (if b then p else q)
choose-IsValid true p q s t = s
choose-IsValid false p q s t = t

toggle_caps-IsValid : (k : Keyboard) → IsValid k → IsValid (toggle_caps k)
unfolding toggle_caps
toggle_caps-IsValid k v = record {
  crtl = v.crtl;
  shift = v.shift;
  alt = v.alt;
  caps = ground arith;
  extend = v.extend;
}

with_shift : (n : ℕ) (k : Keyboard) → n ≤ 1 → IsValid k → IsValid (record k { shift_status = n })
with_shift n k l v = record {
  crtl = v.crtl;
  shift = l;
  alt = v.alt;
  caps = v.caps;
  extend = v.extend;
}

with_alt : (n : ℕ) (k : Keyboard) → n ≤ 1 → IsValid k → IsValid (record k { alt_status = n })
with_alt n k l v = record {
  crtl = v.crtl;
  shift = v.shift;
  alt = l;
  caps = v.caps;
  extend = v.extend;
}

with_crtl : (n : ℕ) (k : Keyboard) → n ≤ 1 → IsValid k → IsValid (record k { crtl_status = n })
with_crtl n k l v = record {
  crtl = l;
  shift = v.shift;
  alt = v.alt;
  caps = v.caps;
  extend = v.extend;
}

with_extend :
    (n : ℕ) (k : Keyboard)
    → (n ≡ 0) ⊎ (n ≡ 0xE0)
    → IsValid k
    → IsValid (record k { extend_flag = n })
with_extend n k o v = record {
  crtl = v.crtl;
  shift = v.shift;
  alt = v.alt;
  caps = v.caps;
  extend = o;
}

extended-IsValid : (c : ℕ) (k : Keyboard) → IsValid k → IsValid (extended c k)
unfolding extended
extended-IsValid c k v = choose-IsValid (c == alt_pressed) _ _ (with_alt 1 k (omega arith) v) (
    choose-IsValid (c == alt_released) _ _ (with_alt 0 k (omega arith) v) (
      choose-IsValid (c == ctrl_pressed) _ _ (with_crtl 1 k (omega arith) v)
        (choose-IsValid (c == ctrl_released) _ _ (with_crtl 0 k (omega arith) v) v)))

plain-IsValid : (c : ℕ) (k : Keyboard) → IsValid k → IsValid (plain c k)
unfolding plain
plain-IsValid c k v =
    let pressed : 1 ≤ 1 = omega arith in
    let released : 0 ≤ 1 = omega arith in
    choose-IsValid (c == extend_code_prefix) _ _ (with_extend 0xE0 k (inr refl) v) (
      choose-IsValid (c == l_shift_pressed) _ _ (with_shift 1 k pressed v) (
        choose-IsValid (c == l_shift_released) _ _ (with_shift 0 k released v) (
          choose-IsValid (c == r_shift_pressed) _ _ (with_shift 1 k pressed v) (
            choose-IsValid (c == r_shift_released) _ _ (with_shift 0 k released v) (
              choose-IsValid (c == alt_pressed) _ _ (with_alt 1 k pressed v) (
                choose-IsValid (c == alt_released) _ _ (with_alt 0 k released v) (
                  choose-IsValid (c == ctrl_pressed) _ _ (with_crtl 1 k pressed v) (
                    choose-IsValid (c == ctrl_released) _ _ (with_crtl 0 k released v) (
                      choose-IsValid (c == caps_lock_pressed) _ _ (toggle_caps-IsValid k v)
                        (SameStates-IsValid k _ (character-SameStates c k) v))))))))))

handler-IsValid : (c : ℕ) (k : Keyboard) → IsValid k → IsValid (keyboard_input_handler c k)
unfolding keyboard_input_handler
handler-IsValid c k v =
    choose-IsValid (k.extend_flag == extend_code_prefix) _ _
      (extended-IsValid c _ (with_extend 0 k (inl refl) v)) (plain-IsValid c k v)

interrupts-IsValid : (cs : List ℕ) (k : Keyboard) → IsValid k → IsValid (interrupts cs k)
unfolding interrupts
interrupts-IsValid [] k v = v
interrupts-IsValid (c ∷ cs) k v = interrupts-IsValid cs _ (handler-IsValid c k v)

-- From `init_keyboard` on, whatever scan codes come, the states of shift, control, alt and caps lock are
-- 0 or 1 and `extend_flag` is 0 or 0xE0.
pub keyboard-IsValid :
    (buffer : ℕ → ℕ) (cs : List ℕ) → IsValid (interrupts cs (init_keyboard buffer))
unfolding init_keyboard
keyboard-IsValid buffer cs = interrupts-IsValid cs (init_keyboard buffer) (record {
  crtl = omega arith;
  shift = omega arith;
  alt = omega arith;
  caps = omega arith;
  extend = inl refl;
})
