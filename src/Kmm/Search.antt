-- ===== src/Kmm/Search.antt =====
-- kmalloc (kernel/kernel/kmm.c) over the list of managers of a size: the recursion of kmalloc_helper is a
-- search for the first manager that has a slice.
use chao_s_os.Prelude.{
  ℕ, zero, suc, ◌+◌, ◌%◌, ◌^◌, ◌<◌, ◌≡◌, ◌≢◌, inl, inr, refl, sym, ap, subst, ◌∙◌, Bool, true,
  false, not, ◌&&◌, Option, none, some, List, [], ◌∷◌, arith, ◌==◌, if◌then◌else◌, Bool-cases,
  length, get_or, update_self,
}
use chao_s_os.Buddy.{Zone, physic_alloc, page_frame_size}
use chao_s_os.Kmm.{Mode, end_flag, slice_sizes, new_manager}
use chao_s_os.Vmm.{page_offset}
use chao_s_os.Kmm.Heap.{
  Heap, add_manager, from_partial, from_free, serve, ensure_manager, kmalloc_helper, place_manager,
}

-- From `p` the managers `ps` are linked up to the null pointer.
unfoldable pub Managers : Heap → ℕ → List ℕ → Type 0
Managers h p [] = p ≡ 0
Managers h p (q ∷ ps) = (p ≡ q) × (q ≢ 0) × Managers h (h.managers q).next ps

-- The first of some managers with an allocator that is not full.
abbrev pub has_slice : Heap → ℕ → Bool
has_slice h p = not ((h.managers p).p_full == end_flag && (h.managers p).free == end_flag)

unfoldable pub first_with_slice : Heap → List ℕ → Option ℕ
first_with_slice h [] = none
first_with_slice h (p ∷ ps) = if has_slice h p then some p else first_with_slice h ps

-- A slice of a manager that has one.
unfoldable pub take_at : Mode → ℕ → Heap → Option (ℕ × Heap)
take_at mode p h =
    if (h.managers p).p_full == end_flag then from_free mode p h else from_partial mode p h

-- What kmalloc_helper does, said with no recursion.
unfoldable pub search_managers : Mode → ℕ → List ℕ → Heap → Option (ℕ × Heap)
search_managers mode level ps h = elim (first_with_slice h ps) [
  | some p ↦ take_at mode p h
  | none ↦ elim (add_manager level (h.alloc_ms level) h) [
    | none ↦ none
    | some (p, h') ↦ from_free mode p h'
  ]
]

serve-has_slice :
    (mode : Mode) (p : ℕ) (h : Heap) (rest : Option (ℕ × Heap))
    → has_slice h p ≡ true
    → serve mode p h rest ≡ take_at mode p h
unfolding serve take_at
serve-has_slice mode p h rest e = elim (Bool-cases ((h.managers p).p_full == end_flag)) [
  | inl y ↦
      let n : ((h.managers p).free == end_flag) ≡ false = ground (arith, e, y) in rw (y, n) refl
  | inr n ↦ rw (n) refl
]

serve-rest :
    (mode : Mode) (p : ℕ) (h : Heap) (rest : Option (ℕ × Heap))
    → has_slice h p ≡ false
    → serve mode p h rest ≡ rest
unfolding serve
serve-rest mode p h rest e =
    let y : ((h.managers p).p_full == end_flag) ≡ true = ground (arith, e) in
    let y' : ((h.managers p).free == end_flag) ≡ true = ground (arith, e) in rw (y, y') refl

serve-new_manager :
    (mode : Mode) (p slice_size next : ℕ) (h : Heap)
    → h.managers p ≡ new_manager slice_size next
    → (rest : Option (ℕ × Heap)) → serve mode p h rest ≡ from_free mode p h
unfolding serve new_manager
serve-new_manager mode p slice_size next h e rest =
    let y : ((h.managers p).p_full == end_flag) ≡ true =
      subst (λ m. (m.p_full == end_flag) ≡ true) (sym e) refl in
    let y' : ((h.managers p).free == end_flag) ≡ false =
      subst (λ m. (m.free == end_flag) ≡ false) (sym e) refl in
    rw (y, y') refl

-- A new manager gives the slice.
abbrev from_new : Mode → Option (ℕ × Heap) → Option (ℕ × Heap)
from_new mode none = none
from_new mode (some (p, h)) = from_free mode p h

abbrev serve_new : Mode → (ℕ → Heap → Option (ℕ × Heap)) → Option (ℕ × Heap) → Option (ℕ × Heap)
serve_new mode rest none = none
serve_new mode rest (some (p, h)) = serve mode p h (rest p h)

serve-place_manager :
    (mode : Mode) (level next : ℕ) (h : Heap) (o : Option (ℕ × Zone))
    (rest : ℕ → Heap → Option (ℕ × Heap))
    → serve_new mode rest (place_manager level next h o)
      ≡ from_new mode (place_manager level next h o)
unfolding place_manager
serve-place_manager mode level next h none rest = refl
serve-place_manager mode level next h (some (a, z)) rest =
    let p = (a + page_offset) % 2 ^ 32 in
    serve-new_manager mode p (get_or slice_sizes level 0) next _
      (update_self h.managers p (new_manager (get_or slice_sizes level 0) next)) _

-- The two eliminations of the code, by clauses.
elim-serve_new :
    (mode : Mode) (rest : ℕ → Heap → Option (ℕ × Heap)) (o : Option (ℕ × Heap))
    → (elim o [ none ↦ none | some (p, h) ↦ serve mode p h (rest p h) ]) ≡ serve_new mode rest o
elim-serve_new mode rest none = refl
elim-serve_new mode rest (some (p, h)) = refl

elim-from_new :
    (mode : Mode) (o : Option (ℕ × Heap))
    → from_new mode o ≡ (elim o [ none ↦ none | some (p, h) ↦ from_free mode p h ])
elim-from_new mode none = refl
elim-from_new mode (some (p, h)) = refl

kmalloc_helper-new :
    (k : ℕ) (mode : Mode) (level : ℕ) (h : Heap)
    → kmalloc_helper (suc k) mode 0 level h ≡ from_new mode (add_manager level (h.alloc_ms level) h)
unfolding kmalloc_helper ensure_manager add_manager
kmalloc_helper-new k mode level h =
    elim-serve_new mode (λ p h. kmalloc_helper k mode (h.managers p).next level h)
      (place_manager level (h.alloc_ms level) h (physic_alloc page_frame_size h.zone))
    ∙ serve-place_manager mode level (h.alloc_ms level) h (physic_alloc page_frame_size h.zone)
        (λ p h. kmalloc_helper k mode (h.managers p).next level h)

kmalloc_helper-old :
    (k : ℕ) (mode : Mode) (p level : ℕ) (h : Heap)
    → p ≢ 0
    → kmalloc_helper (suc k) mode p level h
      ≡ serve mode p h (kmalloc_helper k mode (h.managers p).next level h)
unfolding kmalloc_helper ensure_manager
kmalloc_helper-old k mode p level h n =
    let e : (p == 0) ≡ false = ground (arith, n) in rw (kmalloc_helper, ensure_manager, e) refl

-- More calls than there are managers are enough, and the result is that of the search.
pub kmalloc_helper-search_managers :
    (k : ℕ) (mode : Mode) (p level : ℕ) (ps : List ℕ) (h : Heap)
    → Managers h p ps
    → length ps < k
    → kmalloc_helper k mode p level h ≡ search_managers mode level ps h
unfolding Managers search_managers first_with_slice
kmalloc_helper-search_managers zero mode p level ps h c l = absurd (omega (arith, l))
kmalloc_helper-search_managers (suc k) mode p level [] h c l =
    ap (λ p. kmalloc_helper (suc k) mode p level h) c
    ∙ kmalloc_helper-new k mode level h
    ∙ elim-from_new mode (add_manager level (h.alloc_ms level) h)
kmalloc_helper-search_managers (suc k) mode p level (q ∷ ps) h (e, n, c) l =
    let ih =
      kmalloc_helper-search_managers k mode (h.managers q).next level ps h c (omega (arith, l)) in
    let step = kmalloc_helper-old k mode q level h n in
    ap (λ p. kmalloc_helper (suc k) mode p level h) e ∙ step ∙ elim (Bool-cases (has_slice h q)) [
      | inl y ↦ serve-has_slice mode q h _ y ∙ sym (rw (search_managers, first_with_slice, y) refl)
      | inr m ↦ serve-rest mode q h _ m ∙ ih ∙ sym (rw (search_managers, first_with_slice, m) refl)
    ]
