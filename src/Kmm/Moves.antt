-- ===== src/Kmm/Moves.antt =====
-- How kmalloc and kfree move an allocator from one list of its manager to another (kernel/kernel/kmm.c):
-- the array of allocators carries out the moves of three plain lists.
use chao_s_os.Prelude.{ℕ, ◌≡◌, ◌≢◌, refl, Bool, true, false, List, arith, ◌==◌, if◌then◌else◌}
use chao_s_os.Links.Ring.{has, ◌∉◌, Distinct}
use chao_s_os.Kmm.{
  Manager, end_flag, ListName, free_list, p_full_list, full_list, first, set_first, set_prev,
  set_next, pop_first, push_first, unlink, relink,
}
use chao_s_os.Kmm.Lists.{Segment, Unlinked, Pushed}

abbrev pub same : ListName → ListName → Bool
same free_list free_list = true
same p_full_list p_full_list = true
same full_list full_list = true
same _ _ = false

pub same_sound : (l k : ListName) → same l k ≡ true → l ≡ k
same_sound free_list free_list h = refl
same_sound p_full_list p_full_list h = refl
same_sound full_list full_list h = refl
same_sound free_list p_full_list h = absurd (ground (arith, h))
same_sound free_list full_list h = absurd (ground (arith, h))
same_sound p_full_list free_list h = absurd (ground (arith, h))
same_sound p_full_list full_list h = absurd (ground (arith, h))
same_sound full_list free_list h = absurd (ground (arith, h))
same_sound full_list p_full_list h = absurd (ground (arith, h))

-- The three lists as sequences, and one of them replaced.
abbrev pub View : Type 0
View = ListName → List ℕ

abbrev pub put : ListName → List ℕ → View → View
put l xs v k = if same l k then xs else v k

pub record Represents (m : Manager) (v : View) : Type 0 where
  pub segment : (l : ListName) → Segment m.allocs end_flag (first l m) (v l)
  pub distinct : (l : ListName) → Distinct (v l)
  pub apart : (l k : ListName) (z : ℕ) → same l k ≡ false → has z (v l) ≡ true → z ∉ v k

first-set_first :
    (l k : ListName) (i : ℕ) (m : Manager)
    → first k (set_first l i m) ≡ (if same l k then i else first k m)
unfolding first set_first
first-set_first free_list free_list i m = refl
first-set_first free_list p_full_list i m = refl
first-set_first free_list full_list i m = refl
first-set_first p_full_list free_list i m = refl
first-set_first p_full_list p_full_list i m = refl
first-set_first p_full_list full_list i m = refl
first-set_first full_list free_list i m = refl
first-set_first full_list p_full_list i m = refl
first-set_first full_list full_list i m = refl

set_first-allocs : (l : ListName) (i : ℕ) (m : Manager) → (set_first l i m).allocs ≡ m.allocs
unfolding set_first
set_first-allocs free_list i m = refl
set_first-allocs p_full_list i m = refl
set_first-allocs full_list i m = refl

-- The links do not depend on the list's name.
unlink-allocs :
    (l : ListName) (x z : ℕ) (m : Manager)
    → (unlink l x m).allocs z ≡ (unlink free_list x m).allocs z
unfolding unlink set_first
unlink-allocs free_list x z m = refl
unlink-allocs p_full_list x z m = ground arith
unlink-allocs full_list x z m = ground arith

unlink_free-Unlinked : (x : ℕ) (m : Manager) → Unlinked m.allocs (unlink free_list x m).allocs x
unfolding unlink set_first
unlink_free-Unlinked x m = record {
  before = λ n. ground (arith, n);
  behind = λ n. ground (arith, n);
  nexts = λ z n. ground (arith, n);
  prevs = λ z n. ground (arith, n);
}

pub unlink-Unlinked :
    (l : ListName) (x : ℕ) (m : Manager) → Unlinked m.allocs (unlink l x m).allocs x
unlink-Unlinked l x m =
    let u = unlink_free-Unlinked x m in
    record {
      before = λ n. rw (unlink-allocs l x (m.allocs x).prev_allocator m) (u.before n);
      behind = λ n. rw (unlink-allocs l x (m.allocs x).next_allocator m) (u.behind n);
      nexts = λ z n. rw (unlink-allocs l x z m) (u.nexts z n);
      prevs = λ z n. rw (unlink-allocs l x z m) (u.prevs z n);
    }

pub unlink-first_self :
    (l : ListName) (x : ℕ) (m : Manager)
    → first l (unlink l x m)
      ≡ (if (m.allocs x).prev_allocator == end_flag then (m.allocs x).next_allocator else first l m)
unfolding unlink set_first first
unlink-first_self free_list x m = ground arith
unlink-first_self p_full_list x m = ground arith
unlink-first_self full_list x m = ground arith

pub unlink-first_other :
    (l k : ListName) (x : ℕ) (m : Manager) → same l k ≡ false → first k (unlink l x m) ≡ first k m
unfolding unlink set_first first
unlink-first_other free_list free_list x m h = absurd (ground (arith, h))
unlink-first_other free_list p_full_list x m h = ground arith
unlink-first_other free_list full_list x m h = ground arith
unlink-first_other p_full_list p_full_list x m h = absurd (ground (arith, h))
unlink-first_other p_full_list free_list x m h = ground arith
unlink-first_other p_full_list full_list x m h = ground arith
unlink-first_other full_list full_list x m h = absurd (ground (arith, h))
unlink-first_other full_list p_full_list x m h = ground arith
unlink-first_other full_list free_list x m h = ground arith

-- The links after relink and after push_first, for the first index of the list.
pub relinked : ℕ → ℕ → Manager → Manager
relinked i head m =
    let m₁ = set_prev i end_flag (set_next i head m) in
    if head == end_flag then m₁ else set_prev head i m₁

pub relink-relinked :
    (l : ListName) (i : ℕ) (m : Manager) → (relink l i m).allocs ≡ (relinked i (first l m) m).allocs
unfolding relink relinked
relink-relinked l i m = set_first-allocs l i _

pub relinked-Pushed :
    (i head : ℕ) (m : Manager) → i ≢ head → Pushed m.allocs (relinked i head m).allocs i head
unfolding relinked
relinked-Pushed i head m n = record {
  next = ground (arith, n);
  prev = ground (arith, n);
  behind = λ e. ground (arith, n, e);
  nexts = λ z e. ground (arith, e);
  prevs = λ z e o. ground (arith, e, o);
}

pub relink-first :
    (l k : ListName) (i : ℕ) (m : Manager)
    → first k (relink l i m) ≡ (if same l k then i else first k m)
unfolding relink set_first first
relink-first free_list free_list i m = refl
relink-first free_list p_full_list i m = ground arith
relink-first free_list full_list i m = ground arith
relink-first p_full_list free_list i m = ground arith
relink-first p_full_list p_full_list i m = refl
relink-first p_full_list full_list i m = ground arith
relink-first full_list free_list i m = ground arith
relink-first full_list p_full_list i m = ground arith
relink-first full_list full_list i m = refl

pub push_linked : ℕ → ℕ → Manager → Manager
push_linked i head m =
    let m₁ = set_next i head m in
    if head == end_flag then m₁ else set_prev head i (set_prev i (m₁.allocs head).prev_allocator m₁)

pub push_first-push_linked :
    (l : ListName) (i : ℕ) (m : Manager)
    → (push_first l i m).allocs ≡ (push_linked i (first l m) m).allocs
unfolding push_first push_linked
push_first-push_linked l i m = set_first-allocs l i _

pub push_linked-Pushed :
    (i head : ℕ) (m : Manager)
    → i ≢ head
    → (m.allocs i).prev_allocator ≡ end_flag
    → (head ≢ end_flag → (m.allocs head).prev_allocator ≡ end_flag)
    → Pushed m.allocs (push_linked i head m).allocs i head
unfolding push_linked
push_linked-Pushed i head m n p q = record {
  next = ground (arith, n);
  prev = ground (arith, n, p, q);
  behind = λ e. ground (arith, n, e);
  nexts = λ z e. ground (arith, e);
  prevs = λ z e o. ground (arith, e, o);
}

pub push_first-first :
    (l k : ListName) (i : ℕ) (m : Manager)
    → first k (push_first l i m) ≡ (if same l k then i else first k m)
unfolding push_first set_first first
push_first-first free_list free_list i m = refl
push_first-first free_list p_full_list i m = ground arith
push_first-first free_list full_list i m = ground arith
push_first-first p_full_list free_list i m = ground arith
push_first-first p_full_list p_full_list i m = refl
push_first-first p_full_list full_list i m = ground arith
push_first-first full_list free_list i m = ground arith
push_first-first full_list p_full_list i m = ground arith
push_first-first full_list full_list i m = refl

pub pop_first-unlink :
    (l : ListName) (x : ℕ) (m : Manager)
    → (m.allocs x).prev_allocator ≡ end_flag
    → pop_first l x m ≡ unlink l x m
unfolding pop_first unlink
pop_first-unlink l x m e = rw (e) refl
