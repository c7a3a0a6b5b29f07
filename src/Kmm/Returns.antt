-- ===== src/Kmm/Returns.antt =====
-- Slices that come back (kernel/kernel/kmm.c): kfree of a slice, and the next slice that is then taken
-- from its page, in both modes.
use chao_s_os.Prelude.{
  ℕ, suc, ◌+◌, ◌-◌, ◌*◌, ◌/◌, ◌%◌, ◌^◌, ◌≤◌, ◌<◌, ◌≡◌, refl, sym, Bool, true, false, arith, ◌==◌,
  below, below_sound, ltb, ◌&&◌, ◌||◌, not, bit_and, bit_or, bit_xor,
}
use native.Mathlib.Nat.{mul-le-mul_right, mod-eq_of_lt, div-eq_of_lt-le}
use chao_s_os.Buddy.{page_frame_size}
use chao_s_os.Kmm.{take_linked, take_bitmap, clear_bit, slice_at, slice_end, Taken}
use chao_s_os.Kmm.Slices.{place, slice_at-place}
use chao_s_os.Kmm.Release.{put_linked, put_bitmap}

-- The index that kfree computes from the address of a slice in linked mode.
put_linked-index :
    (q s x first : ℕ) (bytes : ℕ → ℕ)
    → 0 < s
    → x < 256
    → x * (s + 1) + s < 4092
    → (put_linked (place (q * 4096) s x + 1) s first bytes).0 ≡ x
unfolding put_linked
put_linked-index q s x first bytes p l b =
    let o = x * (s + 1) in
    let offset : (place (q * 4096) s x + 1) % 4096 ≡ o + 5 = omega (arith, b, p) in
    let behind : (o + 5 + 65536 - 4) % 65536 ≡ o + 1 = omega (arith, b) in
    let index : (o + 1) / (s + 1) ≡ x = div-eq_of_lt-le (s + 1) (omega arith) (omega (arith, p)) in
    rw (offset, behind, index) (mod-eq_of_lt l)

-- In linked mode kfree writes the old head of the free list into the slice instead of the byte in
-- front of it: whatever that head was, the next get_slice_addr returns the freed slice, reports it
-- as the page's last one, and leaves the free list at its end mark. This holds of a slice inside a
-- page whose byte holds the end mark.
pub put_linked-take_linked :
    (q s x first : ℕ) (bytes : ℕ → ℕ)
    → 0 < s
    → x < 256
    → x * (s + 1) + s < 4092
    → q * 4096 + page_frame_size ≤ 2 ^ 32
    → bytes (place (q * 4096) s x) ≡ slice_end
    → let r = put_linked (place (q * 4096) s x + 1) s first bytes in
      let t = take_linked (q * 4096) s r.0 r.1 in
      (t.addr ≡ place (q * 4096) s x + 1) × (t.is_last ≡ true) × (t.first_avai ≡ slice_end)
unfolding put_linked take_linked
put_linked-take_linked q s x first bytes p l b m e =
    let at : slice_at (q * 4096) s x ≡ place (q * 4096) s x =
      slice_at-place (q * 4096) s x (omega (arith, b, m)) in
    rw (put_linked-index q s x first bytes p l b, at)
      (mod-eq_of_lt (omega (arith, b, m)), ground (arith, e), ground (arith, e))

-- Slot `i` of a page is free when bit 7 - i is clear.
abbrev pub is_clear : ℕ → ℕ → Bool
is_clear map i = bit_and (map / 2 ^ (7 - i)) 1 == 0

-- No slot of the first `n` is free.
abbrev pub is_full : ℕ → ℕ → Bool
is_full n map = below n (λ j. not (is_clear map j))

abbrev pub agree : Bool → Bool → Bool
agree true b = b
agree false b = not b

-- Of every bitmap, by evaluation: the slot that is found is the first free one, flipping its bit twice
-- gives the bitmap back, and the test for the last slot is that of a full bitmap.
takes_slot : ℕ → ℕ → Bool
takes_slot n map =
    let i = clear_bit n 0 map in
    let map' = bit_or map (2 ^ (7 - i)) % 256 in
    ltb i n
    && (is_clear map i
        && (below i (λ j. not (is_clear map j))
            && ((bit_xor map' (2 ^ (7 - i)) % 256 == map)
                && agree (map' / 2 ^ (8 - n) == 0xFF / 2 ^ (8 - n)) (is_full n map'))))

takes_slot-or_full : ℕ → ℕ → Bool
takes_slot-or_full n map = is_full n map || takes_slot n map

all_2 : below 256 (takes_slot-or_full 2) ≡ true
unfolding takes_slot takes_slot-or_full clear_bit
all_2 = refl

all_4 : below 256 (takes_slot-or_full 4) ≡ true
unfolding takes_slot takes_slot-or_full clear_bit
all_4 = refl

all_8 : below 256 (takes_slot-or_full 8) ≡ true
unfolding takes_slot takes_slot-or_full clear_bit
all_8 = refl

-- What taking a slice of a page with a bitmap of `n` slots does, and that giving it back undoes it.
pub record TakesSlot (page s n map : ℕ) (t : Taken) : Type 0 where
  pub slot : ℕ
  pub in_range : slot < n
  pub was_clear : is_clear map slot ≡ true
  pub lowest : (j : ℕ) → j < slot → is_clear map j ≡ false
  pub addr : t.addr ≡ page + slot * s
  pub is_last : t.is_last ≡ is_full n t.first_avai
  pub undone : put_bitmap t.addr s t.first_avai ≡ map

not-false : (b : Bool) → not b ≡ true → b ≡ false
not-false true e = sym e
not-false false e = refl

all_hold :
    (a b c d e : Bool)
    → (a && (b && (c && (d && e)))) ≡ true
    → (a ≡ true) × (b ≡ true) × (c ≡ true) × (d ≡ true) × (e ≡ true)
all_hold true true true true e h = (refl, refl, refl, refl, h)
all_hold true true true false e h = absurd (ground (arith, h))
all_hold true true false d e h = absurd (ground (arith, h))
all_hold true false c d e h = absurd (ground (arith, h))
all_hold false b c d e h = absurd (ground (arith, h))

agree→≡ : (a b : Bool) → agree a b ≡ true → a ≡ b
agree→≡ true b e = sym e
agree→≡ false b e = sym (not-false b e)

==→≡ : (a b : ℕ) → (a == b) ≡ true → a ≡ b
==→≡ a b e = ground (arith, e)

takes_slot-TakesSlot :
    (q s n map : ℕ) (bytes : ℕ → ℕ)
    → 0 < s
    → n * s ≡ 4096
    → page_frame_size / s ≡ n
    → q * 4096 + page_frame_size ≤ 2 ^ 32
    → takes_slot n map ≡ true
    → TakesSlot (q * 4096) s n map (take_bitmap (q * 4096) s map bytes)
unfolding takes_slot take_bitmap put_bitmap
takes_slot-TakesSlot q s n map bytes p size count b h =
    let i = clear_bit n 0 map in
    let map' = bit_or map (2 ^ (7 - i)) % 256 in
    let (low, clear, lowest, undone, last) =
      all_hold (ltb i n) (is_clear map i) (below i (λ j. not (is_clear map j)))
        (bit_xor map' (2 ^ (7 - i)) % 256 == map)
        (agree (map' / 2 ^ (8 - n) == 0xFF / 2 ^ (8 - n)) (is_full n map')) h in
    let l : i < n = ground (arith, low) in
    let room : suc i * s ≤ n * s = mul-le-mul_right s l in
    let addr : (q * 4096 + i * s) % 2 ^ 32 ≡ q * 4096 + i * s =
      mod-eq_of_lt (omega (arith, room, size, b, p)) in
    let offset : (q * 4096 + i * s) % 4096 ≡ i * s = omega (arith, room, size, p) in
    let index : i * s / s ≡ i = div-eq_of_lt-le s (omega arith) (omega (arith, p)) in
    record {
      slot = i;
      in_range = l;
      was_clear = clear;
      lowest = λ j m. not-false _ (below_sound i (λ j. not (is_clear map j)) j lowest m);
      addr = rw (count) addr;
      is_last = rw (count) (agree→≡ _ _ last);
      undone = rw (count, addr, offset, index) (==→≡ _ map undone);
    }

pub data IsBitmapSize : ℕ → ℕ → Type 0 where
  halves : IsBitmapSize 2048 2
  quarters : IsBitmapSize 1024 4
  eighths : IsBitmapSize 512 8

or_else : (a b : Bool) → (a || b) ≡ true → a ≡ false → b ≡ true
or_else true b h e = absurd (ground (arith, e))
or_else false b h e = h

-- In bitmap mode, for each of its three sizes and every bitmap with a free slot, get_slice_addr
-- takes the lowest free slot, returns its address in the page, and reports the last slot exactly
-- when no slot is free afterwards; kfree of the address gives the bitmap back.
pub take_bitmap-TakesSlot :
    (q s n map : ℕ) (bytes : ℕ → ℕ)
    → IsBitmapSize s n
    → map < 256
    → is_full n map ≡ false
    → q * 4096 + page_frame_size ≤ 2 ^ 32
    → TakesSlot (q * 4096) s n map (take_bitmap (q * 4096) s map bytes)
unfolding takes_slot-or_full
take_bitmap-TakesSlot q _ _ map bytes halves l f b =
    takes_slot-TakesSlot q 2048 2 map bytes (omega arith) refl refl b
      (or_else (is_full 2 map) _ (below_sound 256 (takes_slot-or_full 2) map all_2 l) f)
take_bitmap-TakesSlot q _ _ map bytes quarters l f b =
    takes_slot-TakesSlot q 1024 4 map bytes (omega arith) refl refl b
      (or_else (is_full 4 map) _ (below_sound 256 (takes_slot-or_full 4) map all_4 l) f)
take_bitmap-TakesSlot q _ _ map bytes eighths l f b =
    takes_slot-TakesSlot q 512 8 map bytes (omega arith) refl refl b
      (or_else (is_full 8 map) _ (below_sound 256 (takes_slot-or_full 8) map all_8 l) f)
