-- ===== src/Kmm/Serving.antt =====
-- kmalloc and kfree at one manager (kernel/kernel/kmm.c): the moves of the three lists that each makes.
use chao_s_os.Prelude.{
  ℕ, zero, suc, ◌+◌, ◌-◌, ◌≡◌, inl, inr, refl, sym, ap, subst, ◌∙◌, Bool, true, false, Option, none,
  some, List, [], ◌∷◌, arith, ◌==◌, if◌then◌else◌, Option-cases, update_self,
}
use chao_s_os.Buddy.{Zone, frame_alloc}
use chao_s_os.Kmm.{
  Mode, Allocator, Manager, end_flag, ListName, free_list, p_full_list, full_list, first,
  new_manager, init_allocator, get_slice_addr, set_alloc,
}
use chao_s_os.Kmm.Lists.{Segment, Same, Segment-same}
use chao_s_os.Links.Ring.{has, ◌∉◌, Distinct}
use chao_s_os.Kmm.Moves.{same, View, put, Represents}
use chao_s_os.Kmm.Pushing.{push_first-Represents}
use chao_s_os.Kmm.Laying.{from, from-∉}
use chao_s_os.Kmm.Heap.{
  Heap, page_address, take_from, from_partial, from_free, ensure_page, give_page, assign_page,
  first_slice, take_partial, take_free,
}

-- Managers with the same lists.
pub record Alike (m m' : Manager) : Type 0 where
  pub links : (z : ℕ) → Same m.allocs m'.allocs z
  pub firsts : (l : ListName) → first l m' ≡ first l m

pub Alike-Represents : (m m' : Manager) (v : View) → Alike m m' → Represents m v → Represents m' v
Alike-Represents m m' v a r = record {
  segment = λ l.
      rw (a.firsts l) (
        Segment-same m.allocs m'.allocs end_flag (first l m) (v l) (λ z h. a.links z)
          (r.segment l));
  distinct = r.distinct;
  apart = r.apart;
}

first-allocs :
    (l : ListName) (i : ℕ) (c : Allocator) (m : Manager) → first l (set_alloc i c m) ≡ first l m
unfolding first
first-allocs free_list i c m = refl
first-allocs p_full_list i c m = refl
first-allocs full_list i c m = refl

-- A write to the other fields of an allocator.
pub set_alloc-Alike :
    (i : ℕ) (c : Allocator) (m : Manager)
    → c.prev_allocator ≡ (m.allocs i).prev_allocator
    → c.next_allocator ≡ (m.allocs i).next_allocator
    → Alike m (set_alloc i c m)
set_alloc-Alike i c m p n = record {
  links = λ z. (ground (arith, p), ground (arith, n));
  firsts = λ l. first-allocs l i c m;
}

take_from-Represents :
    (i first_avai : ℕ) (m : Manager) (v : View)
    → Represents m v
    → Represents (take_from i first_avai m) v
unfolding take_from
take_from-Represents i first_avai m v r = Alike-Represents m _ v (set_alloc-Alike i _ m refl refl) r

-- The lists of a new manager: all allocators are free.
abbrev pub all_free : View
all_free free_list = from end_flag 0
all_free p_full_list = []
all_free full_list = []

from-Segment :
    (k i : ℕ)
    → k + i ≡ end_flag
    → Segment init_allocator (if i == 0 then end_flag else i - 1) i (from k i)
unfolding init_allocator
from-Segment zero i e = omega (arith, e)
from-Segment (suc zero) i e =
    let l : i ≡ 407 = omega (arith, e) in (refl, omega (arith, l), refl, ground (arith, l))
from-Segment (suc (suc k)) i e =
    let rest = from-Segment (suc k) (i + 1) (omega (arith, e)) in
    let p : (if i + 1 == 0 then end_flag else i + 1 - 1) ≡ i = ground arith in
    let n : (if i == end_flag - 1 then end_flag else i + 1) ≡ i + 1 = ground (arith, e) in
    (
      refl,
      omega (arith, e),
      refl,
      subst (λ f. Segment init_allocator i f (from (suc k) (i + 1))) (sym n)
          (subst (λ q. Segment init_allocator q (i + 1) (from (suc k) (i + 1))) p rest),
    )

from-Distinct : (k i : ℕ) → Distinct (from k i)
from-Distinct zero i = tt
from-Distinct (suc k) i = (from-∉ k (i + 1) i (omega arith), from-Distinct k (i + 1))

new_manager-segment :
    (slice_size next : ℕ) (l : ListName)
    → Segment
        (new_manager slice_size next).allocs
        end_flag
        (first l (new_manager slice_size next))
        (all_free l)
unfolding new_manager first
new_manager-segment slice_size next free_list = from-Segment end_flag 0 refl
new_manager-segment slice_size next p_full_list = refl
new_manager-segment slice_size next full_list = refl

all_free-Distinct : (l : ListName) → Distinct (all_free l)
all_free-Distinct free_list = from-Distinct end_flag 0
all_free-Distinct p_full_list = tt
all_free-Distinct full_list = tt

all_free-apart :
    (l k : ListName) (z : ℕ) → same l k ≡ false → has z (all_free l) ≡ true → z ∉ all_free k
all_free-apart l p_full_list z d h = refl
all_free-apart l full_list z d h = refl
all_free-apart free_list free_list z d h = absurd (ground (arith, d))
all_free-apart p_full_list free_list z d h = absurd (ground (arith, h))
all_free-apart full_list free_list z d h = absurd (ground (arith, h))

pub new_manager-Represents :
    (slice_size next : ℕ) → Represents (new_manager slice_size next) all_free
new_manager-Represents slice_size next = record {
  segment = new_manager-segment slice_size next;
  distinct = all_free-Distinct;
  apart = all_free-apart;
}

from_partial-take_partial :
    (mode : Mode) (p f i : ℕ) (h : Heap)
    → (h.managers p).p_full ≡ i
    → ((h.managers p).allocs i).target_page ≡ some f
    → from_partial mode p h ≡ some (take_partial mode p f i h)
unfolding from_partial
from_partial-take_partial mode p f i h e t =
    let t' = subst (λ i. ((h.managers p).allocs i).target_page ≡ some f) (sym e) t in
    rw (from_partial, t') (ap (λ i. some (take_partial mode p f i h)) e)

moved-Represents :
    (b : Bool) (m m' : Manager) (v v' : View)
    → Represents m v
    → Represents m' v'
    → Represents (if b then m' else m) (if b then v' else v)
moved-Represents true m m' v v' r r' = r'
moved-Represents false m m' v v' r r' = r

-- Where the partially full list of a manager is not empty and its first allocator has a page,
-- kmalloc takes a slice of that allocator, and the array of allocators then represents the same
-- three lists, but with the allocator in front of the full ones if the slice was its last.
pub from_partial-Represents :
    (mode : Mode) (p f x : ℕ) (xs : List ℕ) (h : Heap) (v : View)
    → Represents (h.managers p) v
    → v p_full_list ≡ x ∷ xs
    → ((h.managers p).allocs x).target_page ≡ some f
    → let m = h.managers p in
      let t =
        get_slice_addr mode (page_address f h.zone) m.slice_size (m.allocs x).first_avai h.bytes in
      let v' = put p_full_list xs v in
      (h' : Heap) × (from_partial mode p h ≡ some (t.addr, h'))
      × Represents (h'.managers p) (if t.is_last then put full_list (x ∷ v' full_list) v' else v)
unfolding take_partial first
from_partial-Represents mode p f x xs h v r e t =
    let m = h.managers p in
    let i : m.p_full ≡ x =
      (subst (λ ys. Segment m.allocs end_flag m.p_full ys) e (r.segment p_full_list)).0 in
    let taken =
      get_slice_addr mode (page_address f h.zone) m.slice_size (m.allocs x).first_avai h.bytes in
    let v' = put p_full_list xs v in
    let v'' = if taken.is_last then put full_list (x ∷ v' full_list) v' else v in
    let moved = push_first-Represents m v r p_full_list full_list x xs e in
    (
      (take_partial mode p f x h).1,
      from_partial-take_partial mode p f x h i t,
      subst (λ m. Represents m v'') (sym (update_self h.managers p _))
          (take_from-Represents x taken.first_avai _ v''
            (moved-Represents taken.is_last m _ v _ r moved)),
    )

-- A page for an allocator changes no list.
assign_page-Represents :
    (mode : Mode) (p i f : ℕ) (h : Heap) (v : View)
    → Represents (h.managers p) v
    → Represents ((assign_page mode p i f h).managers p) v
unfolding assign_page
assign_page-Represents mode p i f h v r =
    subst (λ m. Represents m v) (sym (update_self h.managers p _))
      (Alike-Represents (h.managers p) _ v (set_alloc-Alike i _ (h.managers p) refl refl) r)

abbrev heap_of : Heap → Option (ℕ × Heap) → Heap
heap_of h none = h
heap_of h (some (f, h')) = h'

give_page-Represents :
    (mode : Mode) (p i f : ℕ) (h h' : Heap) (o : Option (Option ℕ × Zone)) (v : View)
    → Represents (h.managers p) v
    → give_page mode p i h o ≡ some (f, h')
    → Represents (h'.managers p) v
unfolding give_page
give_page-Represents mode p i f h h' none v r e = absurd (ground (arith, e))
give_page-Represents mode p i f h h' (some (none, z)) v r e = absurd (ground (arith, e))
give_page-Represents mode p i f h h' (some (some g, z)) v r e =
    subst (λ h. Represents (h.managers p) v) (ap (heap_of h) e)
      (assign_page-Represents mode p i g (record h { zone = z }) v r)

ensure_page-Represents :
    (mode : Mode) (p f : ℕ) (h h' : Heap) (v : View)
    → Represents (h.managers p) v
    → ensure_page mode p h ≡ some (f, h')
    → Represents (h'.managers p) v
unfolding ensure_page
ensure_page-Represents mode p f h h' v r e =
    elim (Option-cases ((h.managers p).allocs (h.managers p).free).target_page) [
      | inl n ↦
          let new : ensure_page mode p h
              ≡ give_page mode p (h.managers p).free h (frame_alloc 1 h.zone) =
            rw (ensure_page, n) refl in
          give_page-Represents mode p (h.managers p).free f h h' (frame_alloc 1 h.zone) v r
            (sym new ∙ e)
      | inr (g, y) ↦
          let old : ensure_page mode p h ≡ some (g, h) = rw (ensure_page, y) refl in
          subst (λ h. Represents (h.managers p) v) (ap (heap_of h) (sym old ∙ e)) r
    ]

from_free-take_free :
    (mode : Mode) (p f i : ℕ) (h h' : Heap)
    → (h.managers p).free ≡ i
    → ensure_page mode p h ≡ some (f, h')
    → from_free mode p h ≡ some (take_free mode p f i h')
unfolding from_free
from_free-take_free mode p f i h h' e t =
    rw (from_free, t) (ap (λ i. some (take_free mode p f i h')) e)

-- Where the free list of a manager is not empty and its first allocator has a page or is given
-- one, kmalloc takes the first slice of that page, and the array of allocators then represents the
-- lists in which the allocator has gone from the front of the free ones to the front of the
-- partially full ones.
pub from_free-Represents :
    (mode : Mode) (p f x : ℕ) (xs : List ℕ) (h h₁ : Heap) (v : View)
    → Represents (h.managers p) v
    → v free_list ≡ x ∷ xs
    → ensure_page mode p h ≡ some (f, h₁)
    → let v' = put free_list xs v in
      (h' : Heap) × (from_free mode p h
        ≡ some ((first_slice mode (page_address f h₁.zone) h₁.bytes).0, h'))
      × Represents (h'.managers p) (put p_full_list (x ∷ v' p_full_list) v')
unfolding take_free first
from_free-Represents mode p f x xs h h₁ v r e t =
    let m = h.managers p in
    let i : m.free ≡ x =
      (subst (λ ys. Segment m.allocs end_flag m.free ys) e (r.segment free_list)).0 in
    let r₁ = ensure_page-Represents mode p f h h₁ v r t in
    let v' = put free_list xs v in
    let taken = first_slice mode (page_address f h₁.zone) h₁.bytes in
    (
      (take_free mode p f x h₁).1,
      from_free-take_free mode p f x h h₁ i t,
      subst (λ m. Represents m (put p_full_list (x ∷ v' p_full_list) v'))
          (sym (update_self h₁.managers p _))
          (take_from-Represents x taken.1 _ _
            (push_first-Represents (h₁.managers p) v r₁ free_list p_full_list x xs e)),
    )
