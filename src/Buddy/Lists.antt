-- ===== src/Buddy/Lists.antt =====
-- The free lists of the zone (kernel/kernel/pmm.c) as sequences, and what unlinking a buddy, joining it
-- and pushing a block make of them.
use chao_s_os.Prelude.{
  ℕ, ◌≤◌, ◌<◌, ◌≡◌, ◌≢◌, inl, inr, refl, sym, ap, true, Bool-cases, List, [], ◌∷◌, ◌++◌, arith,
  ◌==◌, ◌&&◌, if◌then◌else◌,
}
use chao_s_os.Links.Ring.{has, ◌∉◌, Distinct}
use chao_s_os.Buddy.{Zone, max_level, block_head, unlink_buddy, join, is_free_at}
use chao_s_os.Buddy.Threads.{Segment, Same, Unlinked}

-- A list without its first `x`.
unfoldable pub without : ℕ → List ℕ → List ℕ
without x [] = []
without x (y ∷ ys) = let rest = without x ys in if x == y then ys else y ∷ rest

-- Where `x` stands in a list.
pub record Splits (x : ℕ) (zs : List ℕ) : Type 0 where
  pub ws : List ℕ
  pub xs : List ℕ
  pub whole : zs ≡ ws ++ x ∷ xs
  pub less : without x zs ≡ ws ++ xs

pub has-Splits : (x : ℕ) (zs : List ℕ) → has x zs ≡ true → Splits x zs
unfolding without
has-Splits x [] h = absurd (ground (arith, h))
has-Splits x (y ∷ zs) h = elim (Bool-cases (x == y)) [
  | inl e ↦
      let same : x ≡ y = ground arith in
      record { ws = []; xs = zs; whole = ap (λ v. v ∷ zs) (sym same); less = rw e refl }
  | inr n ↦
      let s = has-Splits x zs (ground (arith, h, n)) in
      record {
        ws = y ∷ s.ws;
        xs = s.xs;
        whole = ap (λ v. y ∷ v) s.whole;
        less = rw n (ap (λ v. y ∷ v) s.less);
      }
]

-- The lists that thread through the frames: of each level below the last, with its free heads.
pub record Threaded (z : Zone) (ls : ℕ → List ℕ) : Type 0 where
  pub segment :
      (l : ℕ)
      → l < max_level
      → Segment z.frames_number z.frames z.frames_number (z.free_lists l) (ls l)
  pub distinct : (l : ℕ) → l < max_level → Distinct (ls l)
  pub head :
      (l i : ℕ)
      → l < max_level
      → has i (ls l) ≡ true
      → ((z.frames i).flags ≡ block_head) × ((z.frames i).level ≡ l)

-- The free lists of the zone are `ls`, and every frame that is flagged as a free head is in them.
pub record FreeLists (z : Zone) (ls : ℕ → List ℕ) : Type 0 where
  pub threaded : Threaded z ls
  pub listed :
      (l i : ℕ)
      → l < max_level
      → (z.frames i).flags ≡ block_head
      → (z.frames i).level ≡ l
      → has i (ls l) ≡ true

-- The same with a block in hand, whose frame is in no list.
pub record InHand (z : Zone) (page : ℕ) (ls : ℕ → List ℕ) : Type 0 where
  pub threaded : Threaded z ls
  pub listed :
      (l i : ℕ)
      → l < max_level
      → i ≢ page
      → (z.frames i).flags ≡ block_head
      → (z.frames i).level ≡ l
      → has i (ls l) ≡ true
  pub outside : (l : ℕ) → l < max_level → page ∉ ls l

pub FreeLists-InHand :
    (z : Zone) (page : ℕ) (ls : ℕ → List ℕ)
    → FreeLists z ls
    → (z.frames page).flags ≢ block_head
    → InHand z page ls
FreeLists-InHand z page ls f n = record {
  threaded = f.threaded;
  listed = λ l i b d. f.listed l i b;
  outside = λ l b. elim (Bool-cases (has page (ls l))) [
    | inl y ↦ absurd (n (f.threaded.head l page b y).0)
    | inr o ↦ o
  ];
}

-- The test of the loop is membership in the list of the level.
pub is_free_at-has :
    (level i page : ℕ) (z : Zone) (ls : ℕ → List ℕ)
    → InHand z page ls
    → level < max_level
    → i ≢ page
    → is_free_at level i z ≡ has i (ls level)
unfolding is_free_at
is_free_at-has level i page z ls h b n = elim (Bool-cases (has i (ls level))) [
  | inl y ↦ let (flags, size) = h.threaded.head level i b y in rw y (ground (arith, flags, size))
  | inr o ↦ rw o (ground (arith, o, h.listed level i b n))
]

-- Taking the buddy out of its list changes no more than the links around it.
pub unlink_buddy-Unlinked :
    (level x : ℕ) (z : Zone)
    → (z.frames x).next_frame ≤ z.frames_number
    → (z.frames x).next_frame ≢ x
    → Unlinked z.frames_number z.frames (unlink_buddy level x z).frames x
unfolding unlink_buddy
unlink_buddy-Unlinked level x z l d = record {
  before = λ n. ground (arith, n);
  behind = λ n. ground (arith, n, l);
  nexts = λ y n. ground (arith, n);
  prevs = λ y n. ground (arith, n);
}

pub unlink_buddy-list :
    (level x j : ℕ) (z : Zone)
    → (unlink_buddy level x z).free_lists j ≡ (
        if (j == level) && ((z.frames x).prev_frame == z.frames_number)
        then (z.frames x).next_frame
        else z.free_lists j)
unfolding unlink_buddy
unlink_buddy-list level x j z = ground arith

pub unlink_buddy-number :
    (level x : ℕ) (z : Zone) → (unlink_buddy level x z).frames_number ≡ z.frames_number
unfolding unlink_buddy
unlink_buddy-number level x z = ground arith

pub unlink_buddy-kept :
    (level x i : ℕ) (z : Zone)
    → (((unlink_buddy level x z).frames i).flags ≡ (z.frames i).flags)
      × (((unlink_buddy level x z).frames i).level ≡ (z.frames i).level)
unfolding unlink_buddy
unlink_buddy-kept level x i z = ground arith

-- Joining changes no links and no lists.
pub join-kept :
    (level low high i : ℕ) (z : Zone)
    → Same z.frames_number z.frames (join level low high z).frames i
unfolding join
join-kept level low high i z = ground arith
