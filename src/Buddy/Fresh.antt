-- ===== src/Buddy/Fresh.antt =====
-- The free lists that `init_normal_mem_zone` makes (kernel/kernel/pmm.c) are well formed.
use chao_s_os.Prelude.{
  ℕ, zero, suc, ◌+◌, ◌-◌, ◌^◌, ◌<◌, ◌≤◌, ◌≡◌, ◌≢◌, inl, inr, refl, sym, ap, subst, ◌∙◌, true,
  Bool-cases, List, [], ◌∷◌, arith, ltb, update,
}
use native.Mathlib.Nat.{one-le-pow}
use chao_s_os.Links.Ring.{has}
use chao_s_os.Buddy.{Zone, max_level, allocated, block_head}
use chao_s_os.Buddy.Init.{Sizes, blank_zone, shrink, add_block, carve, add_blocks, zone_of}
use chao_s_os.Buddy.Threads.{Segment, Pushed}
use chao_s_os.Buddy.Lists.{FreeLists, InHand, FreeLists-InHand}
use chao_s_os.Buddy.Push.{Front, pushed-FreeLists}

shrink-le : (n i level : ℕ) → shrink n i level ≤ level
unfolding shrink
shrink-le n i zero = omega arith
shrink-le n i (suc level) = ground (arith, shrink-le n i level)

add_block-Front :
    (level i : ℕ) (z : Zone)
    → (z.frames i).prev_frame ≡ z.frames_number
    → Front z i level (add_block level i z)
unfolding add_block
add_block-Front level i z p = record {
  links = λ l d. record {
    next = ground arith;
    prev = ground (arith, p, d);
    behind = λ n. ground (arith, n, d);
    nexts = λ j n. ground (arith, n);
    prevs = λ j n m. ground (arith, n, m);
  };
  other = λ j n. ground (arith, n);
  own = ground arith;
  lists = λ j. ground arith;
  number = refl;
}

-- Frames from `i` on that no block has reached.
record Untouched (i n : ℕ) (z : Zone) : Type 0 where
  flags : (j : ℕ) → i ≤ j → j < n → (z.frames j).flags ≡ allocated
  prev : (j : ℕ) → i ≤ j → j < n → (z.frames j).prev_frame ≡ n

-- The head of a list is the end mark or a free head.
first-flags :
    (z : Zone) (p f : ℕ) (xs : List ℕ)
    → Segment z.frames_number z.frames p f xs
    → ((x : ℕ) → has x xs ≡ true → (z.frames x).flags ≡ block_head)
    → f ≢ z.frames_number
    → (z.frames f).flags ≡ block_head
first-flags z p f [] h b n = absurd (n h)
first-flags z p f (x ∷ xs) (e, l, q, h) b n =
    subst (λ x. (z.frames x).flags ≡ block_head) (sym e) (b x (ground arith))

module _ (n i level : ℕ) (z : Zone) (ls : ℕ → List ℕ) (number : z.frames_number ≡ n)
    (f : FreeLists z ls) (b : level < max_level) (u : Untouched i n z) (l : i < n) where
  front : Front z i level (add_block level i z)
  front = add_block-Front level i z (u.prev i (omega arith) l ∙ sym number)

  in_hand : InHand z i ls
  in_hand = FreeLists-InHand z i ls f (λ e. omega (arith, e, u.flags i (omega arith) l))

  added-FreeLists : FreeLists (add_block level i z) (update ls level (i ∷ ls level))
  added-FreeLists =
      pushed-FreeLists z (add_block level i z) i level ls front in_hand b (omega (arith, number))

  not_head : (j : ℕ) → i ≤ j → j < n → j ≢ z.free_lists level
  not_head j a c e =
      let flags =
        first-flags z z.frames_number (z.free_lists level) (ls level) (f.threaded.segment level b)
          (λ x y. (f.threaded.head level x b y).0) (λ e'. omega (arith, e, e', number, c)) in
      omega (arith, u.flags j a c, ap (λ x. (z.frames x).flags) e, flags)

  links : Pushed z.frames_number z.frames (add_block level i z).frames i (z.free_lists level)
  links =
      front.links (first-bound (ls level) (f.threaded.segment level b)) (not_head i (omega arith) l)
    where
      first-bound :
          (xs : List ℕ)
          → Segment z.frames_number z.frames z.frames_number (z.free_lists level) xs
          → z.free_lists level ≤ z.frames_number
      first-bound [] h = omega (arith, h)
      first-bound (x ∷ xs) (e, k, q, h) = omega (arith, e, k)

  added-Untouched : (i' : ℕ) → i < i' → Untouched i' n (add_block level i z)
  added-Untouched i' k = record {
    flags = λ j a c. (front.other j (λ e. omega (arith, e))).0 ∙ u.flags j (omega arith) c;
    prev = λ j a c.
        links.prevs j (λ e. omega (arith, e)) (not_head j (omega arith) c)
        ∙ u.prev j (omega arith) c;
  }

carve-FreeLists :
    (k n i level : ℕ) (z : Zone) (ls : ℕ → List ℕ)
    → z.frames_number ≡ n
    → FreeLists z ls
    → level < max_level
    → Untouched i n z
    → (ls' : ℕ → List ℕ) × FreeLists (add_blocks (carve k n i level) z) ls'
unfolding carve add_blocks
carve-FreeLists zero n i level z ls e f b u = (ls, f)
carve-FreeLists (suc k) n i level z ls e f b u = elim (Bool-cases (ltb i n)) [
  | inl y ↦
      let smaller = shrink n i level in
      let l : i < n = ground arith in
      let b' : smaller < max_level = omega (arith, b, shrink-le n i level) in
      let on : i < i + 2 ^ smaller = omega (arith, one-le-pow smaller 2 (omega arith)) in
      let (ls', f') =
        carve-FreeLists k n (i + 2 ^ smaller) smaller (add_block smaller i z) _
          ((front n i smaller z ls e f b' u l).number ∙ e)
          (added-FreeLists n i smaller z ls e f b' u l) b'
          (added-Untouched n i smaller z ls e f b' u l (i + 2 ^ smaller) on) in
      (ls', rw y f')
  | inr y ↦ (ls, rw y f)
]

blank-FreeLists : (s : Sizes) → FreeLists (blank_zone s) (λ l. [])
unfolding blank_zone
blank-FreeLists s = record {
  threaded = record {
    segment = λ l b. refl;
    distinct = λ l b. tt;
    head = λ l i b y. absurd (ground (arith, y));
  };
  listed = λ l i b f e. absurd (omega (arith, f));
}

-- The zone that init_normal_mem_zone sets up has well formed free lists, for every size of the zone.
pub zone_of-FreeLists : (s : Sizes) → (ls : ℕ → List ℕ) × FreeLists (zone_of s) ls
unfolding zone_of blank_zone
zone_of-FreeLists s =
    let n = s.frames_number in
    carve-FreeLists (suc n) n 0 (max_level - 1) (blank_zone s) (λ l. []) refl (blank-FreeLists s)
      (omega arith) (record { flags = λ j a c. refl; prev = λ j a c. refl })
