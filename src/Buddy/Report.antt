-- ===== src/Buddy/Report.antt =====
-- show_memory_map and print_free_buddy_blocks (kernel/kernel/pmm.c): the numbers that they print. The text
-- around them is left out.
use chao_s_os.Prelude.{
  ℕ, zero, suc, ◌+◌, ◌*◌, ◌%◌, ◌^◌, ◌<◌, ◌≡◌, ◌≢◌, subst, refl, false, true, ap, ◌∙◌, Option, none,
  some, List, [], ◌∷◌, arith, ◌==◌, if◌then◌else◌, length,
}
use chao_s_os.Buddy.{Zone, max_level}
use chao_s_os.Buddy.Init.{MmapEntry}

-- A line of show_memory_map: base_addr_high, base_addr_low, length_high, length_low and type
unfoldable pub show_memory_map : List MmapEntry → List (ℕ × ℕ × ℕ × ℕ × ℕ)
show_memory_map [] = []
show_memory_map (e ∷ entries) =
    (e.base_addr_high, e.base_addr_low, e.length_high, e.length_low, e.kind)
    ∷ show_memory_map entries

-- A block in front of the ones behind it, if these come to an end.
unfoldable pub in_front : ℕ → Option (List ℕ) → Option (List ℕ)
in_front cur none = none
in_front cur (some rest) = some (cur ∷ rest)

-- The inner loop: the blocks of a list from `cur` on; `none` where the list has more than the fuel.
unfoldable pub free_blocks : ℕ → ℕ → Zone → Option (List ℕ)
free_blocks zero cur z = none
free_blocks (suc f) cur z =
    let rest = free_blocks f (z.frames cur).next_frame z in
    if cur == z.frames_number then some [] else in_front cur rest

-- `total_pages_count += (1 << i)` for each block of a list
unfoldable pub count_pages : ℕ → List ℕ → ℕ → ℕ
count_pages i [] total = total
count_pages i (x ∷ xs) total = count_pages i xs ((total + 2 ^ i) % 2 ^ 32)

-- A printed level in front of the later ones.
unfoldable pub level_in_front : List ℕ → Option (List (List ℕ) × ℕ) → Option (List (List ℕ) × ℕ)
level_in_front blocks none = none
level_in_front blocks (some (levels, total)) = some (blocks ∷ levels, total)

-- What follows the printing of a level, if its loop ends.
unfoldable pub after_level :
    Option (List ℕ) → (List ℕ → Option (List (List ℕ) × ℕ)) → Option (List (List ℕ) × ℕ)
after_level none next = none
after_level (some blocks) next = level_in_front blocks (next blocks)

-- The outer loop, `k` levels before its end.
unfoldable pub print_levels : ℕ → ℕ → ℕ → ℕ → Zone → Option (List (List ℕ) × ℕ)
print_levels zero f i total z = some ([], total)
print_levels (suc k) f i total z =
    after_level (free_blocks f (z.free_lists i) z)
      (λ blocks. print_levels k f (i + 1) (count_pages i blocks total) z)

-- `print_free_buddy_blocks`: the blocks of each level, and the number of pages.
unfoldable pub print_free_buddy_blocks : ℕ → Zone → Option (List (List ℕ) × ℕ)
print_free_buddy_blocks f z = print_levels max_level f 0 0 z

-- The free list from `cur` on is `xs`.
unfoldable pub FreeFrom : Zone → ℕ → List ℕ → Type 0
FreeFrom z cur [] = cur ≡ z.frames_number
FreeFrom z cur (x ∷ xs) =
    (cur ≡ x) × (cur ≢ z.frames_number) × FreeFrom z (z.frames cur).next_frame xs

-- A list is printed whole, given more steps than it has blocks.
free_blocks-FreeFrom :
    (f cur : ℕ) (z : Zone) (xs : List ℕ)
    → FreeFrom z cur xs
    → length xs < f
    → free_blocks f cur z ≡ some xs
unfolding free_blocks FreeFrom in_front
free_blocks-FreeFrom zero cur z xs e l = absurd (omega arith)
free_blocks-FreeFrom (suc f) cur z [] e l =
    let end : (cur == z.frames_number) ≡ true = ground (arith, e) in rw end refl
free_blocks-FreeFrom (suc f) cur z (x ∷ xs) (e, n, rest) l =
    let going : (cur == z.frames_number) ≡ false = ground (arith, n) in
    rw (going, free_blocks-FreeFrom f (z.frames cur).next_frame z xs rest (omega arith))
      (ap (λ y. some (y ∷ xs)) e)

count_pages_lem :
    (i : ℕ) (xs : List ℕ) (total : ℕ)
    → count_pages i xs total % 2 ^ 32 ≡ (total + length xs * 2 ^ i) % 2 ^ 32
unfolding count_pages
count_pages_lem i [] total = omega arith
count_pages_lem i (x ∷ xs) total = count_pages_lem i xs ((total + 2 ^ i) % 2 ^ 32) ∙ omega arith

-- The free lists of the levels from `i` on, each shorter than the fuel, and the pages of their blocks.
unfoldable pub ListsEnd : Zone → ℕ → ℕ → List (List ℕ) → Type 0
ListsEnd z f i [] = Unit
ListsEnd z f i (xs ∷ levels) =
    FreeFrom z (z.free_lists i) xs × (length xs < f) × ListsEnd z f (i + 1) levels

unfoldable pub pages_of : ℕ → List (List ℕ) → ℕ
pages_of i [] = 0
pages_of i (xs ∷ levels) = length xs * 2 ^ i + pages_of (i + 1) levels

print_levels-ListsEnd :
    (f i total : ℕ) (z : Zone) (levels : List (List ℕ))
    → ListsEnd z f i levels
    → (t : ℕ) × (print_levels (length levels) f i total z ≡ some (levels, t))
      × (t % 2 ^ 32 ≡ (total + pages_of i levels) % 2 ^ 32)
unfolding print_levels ListsEnd pages_of level_in_front after_level
print_levels-ListsEnd f i total z [] e = (total, refl, omega arith)
print_levels-ListsEnd f i total z (xs ∷ levels) (e, l, rest) =
    let (t, runs, sum) = print_levels-ListsEnd f (i + 1) (count_pages i xs total) z levels rest in
    (
      t,
      rw (print_levels, free_blocks-FreeFrom f (z.free_lists i) z xs e l, runs) refl,
      sum ∙ omega (arith, count_pages_lem i xs total),
    )

-- Where the free lists of the eleven levels come to an end within the fuel, print_free_buddy_blocks
-- prints their blocks level by level, and in the end the number of the pages that they cover, in 32
-- bits.
pub print_free_buddy_blocks_lem :
    (f : ℕ) (z : Zone) (levels : List (List ℕ))
    → ListsEnd z f 0 levels
    → length levels ≡ max_level
    → (t : ℕ) × (print_free_buddy_blocks f z ≡ some (levels, t))
      × (t % 2 ^ 32 ≡ pages_of 0 levels % 2 ^ 32)
unfolding print_free_buddy_blocks
print_free_buddy_blocks_lem f z levels e n =
    let (t, runs, sum) = print_levels-ListsEnd f 0 0 z levels e in
    (t, subst (λ k. print_levels k f 0 0 z ≡ some (levels, t)) n runs, sum ∙ omega arith)
