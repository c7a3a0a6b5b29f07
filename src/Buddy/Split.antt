-- ===== src/Buddy/Split.antt =====
-- The two loops of `buddy_system_get_frame_page_block` (kernel/kernel/pmm.c): the search for a level,
-- and the splitting of a block.
use chao_s_os.Prelude.{
  ℕ, zero, suc, ◌+◌, ◌^◌, ◌≤◌, ◌<◌, ◌≡◌, ◌≢◌, refl, ◌∙◌, bit_xor, true, inl, inr, arith, ◌==◌,
  if◌then◌else◌, Bool-cases,
}
use native.Mathlib.Decide.{ℕ_discrete}
use chao_s_os.Buddy.{Frame, Zone, find_level, split_once, block_head}

-- The level found: the lists in front of it are empty, and its own is not, unless the search has
-- come to the end.
pub record Found (k current : ℕ) (z : Zone) (r : ℕ) : Type 0 where
  pub no_earlier : current ≤ r
  pub no_later : r ≤ current + k
  pub passed : (j : ℕ) → current ≤ j → j < r → z.free_lists j ≡ z.frames_number
  pub stopped : r < current + k → z.free_lists r ≢ z.frames_number

pub find_level-Found : (k current : ℕ) (z : Zone) → Found k current z (find_level k current z)
unfolding find_level
find_level-Found zero current z = record {
  no_earlier = omega arith;
  no_later = omega arith;
  passed = λ j a b. absurd (omega arith);
  stopped = λ l. absurd (omega arith);
}
find_level-Found (suc k) current z = elim (Bool-cases (z.free_lists current == z.frames_number)) [
  | inl empty ↦
      let f = find_level-Found k (current + 1) z in
      rw empty (record {
        no_earlier = omega (arith, f.no_earlier);
        no_later = omega (arith, f.no_later);
        passed = λ j a b. passed_one j a b empty f;
        stopped = λ l. f.stopped (omega arith);
      })
  | inr some_block ↦ rw some_block (record {
    no_earlier = omega arith;
    no_later = omega arith;
    passed = λ j a b. absurd (omega arith);
    stopped = λ l. ground arith;
  })
]
  where
    passed_one :
        (j : ℕ)
        → current ≤ j
        → j < find_level k (current + 1) z
        → (z.free_lists current == z.frames_number) ≡ true
        → Found k (current + 1) z (find_level k (current + 1) z)
        → z.free_lists j ≡ z.frames_number
    passed_one j a b e f = elim (ℕ_discrete current j) [
      | yes same ↦ rw (← same) (ground arith)
      | no later ↦ f.passed j (omega arith) b
    ]

-- Two frames that agree on all but the index of the previous block.
pub record SameButPrev (p p' : Frame) : Type 0 where
  pub flags : p'.flags ≡ p.flags
  pub level : p'.level ≡ p.level
  pub physic_addr : p'.physic_addr ≡ p.physic_addr
  pub index : p'.index ≡ p.index
  pub next_frame : p'.next_frame ≡ p.next_frame
  pub allocator : p'.allocator ≡ p.allocator

pub SameButPrev-refl : (p : Frame) → SameButPrev p p
SameButPrev-refl p = record {
  flags = refl;
  level = refl;
  physic_addr = refl;
  index = refl;
  next_frame = refl;
  allocator = refl;
}

pub SameButPrev-trans : {p q r : Frame} → SameButPrev p q → SameButPrev q r → SameButPrev p r
SameButPrev-trans a b = record {
  flags = b.flags ∙ a.flags;
  level = b.level ∙ a.level;
  physic_addr = b.physic_addr ∙ a.physic_addr;
  index = b.index ∙ a.index;
  next_frame = b.next_frame ∙ a.next_frame;
  allocator = b.allocator ∙ a.allocator;
}

-- One split changes no more than the upper half's frame and the index of the previous block in the
-- frame that headed the list.
pub split_once-frame :
    (page current i : ℕ) (z : Zone)
    → i ≢ bit_xor page (2 ^ current)
    → SameButPrev (z.frames i) ((split_once page current z).frames i)
unfolding split_once
split_once-frame page current i z n = ground arith

pub split_once-right :
    (page current : ℕ) (z : Zone)
    → let p = (split_once page current z).frames (bit_xor page (2 ^ current)) in
      (p.flags ≡ block_head) × (p.level ≡ current) × (p.next_frame ≡ z.free_lists current)
unfolding split_once
split_once-right page current z = ground arith

pub split_once-list :
    (page current j : ℕ) (z : Zone)
    → (split_once page current z).free_lists j
      ≡ (if j == current then bit_xor page (2 ^ current) else z.free_lists j)
unfolding split_once
split_once-list page current j z = refl

pub split_once-number :
    (page current : ℕ) (z : Zone) → (split_once page current z).frames_number ≡ z.frames_number
unfolding split_once
split_once-number page current z = refl
