-- ===== src/Kmm/Freeing.antt =====
-- kfree (kernel/kernel/kmm.c) from the address of a slice's allocator on: how it finds the manager, and
-- what it does to the manager's lists.
use chao_s_os.Prelude.{
  ℕ, ◌+◌, ◌-◌, ◌*◌, ◌/◌, ◌%◌, ◌^◌, ◌≤◌, ◌<◌, ◌≡◌, ◌≢◌, refl, sym, ap, subst, ◌∙◌, true, false, none,
  List, ◌∷◌, ◌++◌, arith, ◌==◌, update_self,
}
use native.Mathlib.Nat.{mod-eq_of_lt, div-eq_of_lt-le}
use chao_s_os.Vmm.Entries.{mask-eq}
use chao_s_os.Kmm.{end_flag, free_list, p_full_list, full_list, set_alloc}
use chao_s_os.Kmm.Moves.{View, put, Represents}
use chao_s_os.Kmm.Pushing.{relink-Represents}
use chao_s_os.Kmm.Serving.{Alike-Represents, set_alloc-Alike}
use chao_s_os.Kmm.Heap.{Heap, allocator_address, set_manager}
use chao_s_os.Kmm.Release.{
  manager_of, index_of, put_slice, give_up_page, classify, free_slice, free_at,
}

-- The manager and the index of an allocator, from its address.
pub allocator_address-manager_of :
    (q i : ℕ)
    → q * 4096 + 4096 ≤ 2 ^ 32
    → i < end_flag
    → (manager_of (allocator_address (q * 4096) i) ≡ q * 4096)
      × (index_of (allocator_address (q * 4096) i) ≡ i)
unfolding allocator_address manager_of index_of
allocator_address-manager_of q i b l =
    let a = q * 4096 + 12 + i * 10 in
    let page : a / 4096 ≡ q = div-eq_of_lt-le 4096 (omega arith) (omega (arith, l)) in
    let e = mask-eq a (omega (arith, l, b)) ∙ ap (λ n. n * 4096) page in
    let offset : (a + 2 ^ 32 - (q * 4096 + 12)) % 2 ^ 32 ≡ i * 10 = omega (arith, l) in
    let index : i * 10 / 10 ≡ i = omega arith in
    (e, rw (e, offset, index) (mod-eq_of_lt (omega (arith, l))))

-- The step that the lists make when a slice of allocator `i` comes back, where its page has `sum` slices
-- and `avai` of them are then free.
pub data Freed (sum avai : ℕ) (v : View) (i : ℕ) : View → Type 0 where
  empties :
      (ws xs : List ℕ)
      → sum ≡ avai
      → v p_full_list ≡ ws ++ i ∷ xs
      → Freed sum avai v i (
          put free_list (i ∷ put p_full_list (ws ++ xs) v free_list) (put p_full_list (ws ++ xs) v))
  reopens :
      (ws xs : List ℕ)
      → sum ≢ avai
      → avai ≡ 1
      → v full_list ≡ ws ++ i ∷ xs
      → Freed sum avai v i (
          put p_full_list (i ∷ put full_list (ws ++ xs) v p_full_list) (put full_list (ws ++ xs) v))
  stays : sum ≢ avai → avai ≢ 1 → Freed sum avai v i v

give_up_page-Represents :
    (page f p i : ℕ) (h : Heap) (v : View) (ws xs : List ℕ)
    → Represents (h.managers p) v
    → v p_full_list ≡ ws ++ i ∷ xs
    → Represents
        ((give_up_page page f p i h).managers p)
        (put free_list (i ∷ put p_full_list (ws ++ xs) v free_list) (put p_full_list (ws ++ xs) v))
unfolding give_up_page
give_up_page-Represents page f p i h v ws xs r e =
    let m = h.managers p in
    let a = record (m.allocs i) { target_page = none; avai_num = 0 } in
    let r₁ = Alike-Represents m (set_alloc i a m) v (set_alloc-Alike i a m refl refl) r in
    let v' = put p_full_list (ws ++ xs) v in
    subst (λ m. Represents m (put free_list (i ∷ v' free_list) v'))
      (sym (update_self h.managers p _))
      (relink-Represents (set_alloc i a m) v r₁ p_full_list free_list i xs ws e)

classify-Represents :
    (sum page f p i : ℕ) (h : Heap) (v v' : View)
    → Represents (h.managers p) v
    → Freed sum ((h.managers p).allocs i).avai_num v i v'
    → Represents ((classify sum page f p i h).managers p) v'
unfolding classify
classify-Represents sum page f p i h v _ r (Freed.empties ws xs e l) =
    let t : (sum == ((h.managers p).allocs i).avai_num) ≡ true = ground (arith, e) in
    rw (classify, t) (give_up_page-Represents page f p i h v ws xs r l)
classify-Represents sum page f p i h v _ r (Freed.reopens ws xs n e l) =
    let t : (sum == ((h.managers p).allocs i).avai_num) ≡ false = ground (arith, n) in
    let t' : (((h.managers p).allocs i).avai_num == 1) ≡ true = ground (arith, e) in
    let v' = put full_list (ws ++ xs) v in
    rw (classify, t, t')
      (subst (λ m. Represents m (put p_full_list (i ∷ v' p_full_list) v'))
        (sym (update_self h.managers p _))
        (relink-Represents (h.managers p) v r full_list p_full_list i xs ws l))
classify-Represents sum page f p i h v _ r (Freed.stays n o) =
    let t : (sum == ((h.managers p).allocs i).avai_num) ≡ false = ground (arith, n) in
    let t' : (((h.managers p).allocs i).avai_num == 1) ≡ false = ground (arith, o) in
    rw (classify, t, t') r

free_at-Represents :
    (addr page f p i : ℕ) (h : Heap) (v v' : View)
    → Represents (h.managers p) v
    → Freed
        (put_slice addr (h.managers p).slice_size ((h.managers p).allocs i).first_avai h.bytes).0
        ((((h.managers p).allocs i).avai_num + 1) % 256)
        v
        i
        v'
    → Represents ((free_at addr page f p i h).managers p) v'
unfolding free_at
free_at-Represents addr page f p i h v v' r s =
    let m = h.managers p in
    let a = m.allocs i in
    let put = put_slice addr m.slice_size a.first_avai h.bytes in
    let a' = record a { first_avai = put.1; avai_num = (a.avai_num + 1) % 256 } in
    let m₁ = set_alloc i a' m in
    let h₁ = record (set_manager p m₁ h) { bytes = put.2 } in
    let e = update_self h.managers p m₁ in
    let n : ((h₁.managers p).allocs i).avai_num ≡ (a.avai_num + 1) % 256 =
      ap (λ m. (m.allocs i).avai_num) e ∙ ap (λ a. a.avai_num) (update_self m.allocs i a') in
    let r₁ = Alike-Represents m m₁ v (set_alloc-Alike i a' m refl refl) r in
    classify-Represents put.0 page f p i h₁ v v' (subst (λ m. Represents m v) (sym e) r₁)
      (subst (λ n. Freed put.0 n v i v') (sym n) s)

-- kfree of a slice, from the address of its allocator on, finds the manager and the index that
-- belong to the address, and makes on the array of allocators the step of three plain lists: an
-- allocator with no slice left in use goes from the middle of the partially full list to the front
-- of the free one, one that was full to the front of the partially full one, and any other stays.
pub free_slice-Represents :
    (addr page f q i : ℕ) (h : Heap) (v v' : View)
    → q * 4096 + 4096 ≤ 2 ^ 32
    → i < end_flag
    → Represents (h.managers (q * 4096)) v
    → Freed
        (put_slice addr
          (h.managers (q * 4096)).slice_size
          ((h.managers (q * 4096)).allocs i).first_avai
          h.bytes).0
        ((((h.managers (q * 4096)).allocs i).avai_num + 1) % 256)
        v
        i
        v'
    → Represents
        ((free_slice addr page f (allocator_address (q * 4096) i) h).managers (q * 4096))
        v'
unfolding free_slice
free_slice-Represents addr page f q i h v v' b l r s =
    let (e, e') = allocator_address-manager_of q i b l in
    let same =
      ap (λ p. free_at addr page f p (index_of (allocator_address (q * 4096) i)) h) e
      ∙ ap (λ i. free_at addr page f (q * 4096) i h) e' in
    subst (λ h. Represents (h.managers (q * 4096)) v') (sym same)
      (free_at-Represents addr page f (q * 4096) i h v v' r s)
