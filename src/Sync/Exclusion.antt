-- ===== src/Sync/Exclusion.antt =====
-- Mutual exclusion of a mutex (kernel/include/kernel/sync.h), for tasks that release it only when they
-- hold it, in every order of their steps and of clock interrupts. Each statement of mutex_acquire is a
-- step; mutex_release, which runs with interrupts off, is one step.
use chao_s_os.Prelude.{
  ◌≡◌, ◌≢◌, refl, sym, ap, ◌∙◌, inl, inr, Bool, true, false, arith, ◌==◌, Bool-cases, if◌then◌else◌,
  update, update_self, subst,
}
use chao_s_os.Links.{Ptr}
use chao_s_os.Sync.{World, Mutex, test_and_set, set_holder, mutex_release, park, doze, give_way}

-- Where a task stands: outside; in front of the test; behind a test that found the mutex free, with the
-- holder still to be set; between mutex_acquire and mutex_release; and behind a test that found it
-- held, with all, two or one of the statements of the loop's body to come.
pub data Phase : Type 0 where
  outside testing taken inside waiting parked dozing : Phase

-- The task has made the test that found the mutex free, and has not released it.
unfoldable pub owns : Phase → Bool
owns taken = true
owns inside = true
owns outside = false
owns testing = false
owns waiting = false
owns parked = false
owns dozing = false

pub record Machine : Type 0 where
  pub lock : Mutex
  pub world : World
  pub phase : Ptr → Phase

abbrev pub current : Machine → Ptr
current m = m.world.scheduler.current_task

-- The current task comes to another phase, with the lock and the world that its step makes.
abbrev pub comes_to : Phase → Mutex → World → Machine → Machine
comes_to p lock world m = record {
  lock = lock;
  world = world;
  phase = update m.phase (current m) p;
}

-- The test of the loop.
unfoldable pub after_test : Machine → Machine
after_test m =
    let (free, lock) = test_and_set m.lock in
    comes_to (if free then taken else waiting) lock m.world m

pub data Step (tasks : Ptr) (m : Machine) : Machine → Type 0 where
  calls : m.phase (current m) ≡ outside → Step tasks m (comes_to testing m.lock m.world m)
  tests : m.phase (current m) ≡ testing → Step tasks m (after_test m)
  enters :
      m.phase (current m) ≡ taken
      → Step tasks m (comes_to inside (set_holder m.lock m.world) m.world m)
  parks :
      m.phase (current m) ≡ waiting
      → Step tasks m (comes_to parked m.lock (park m.lock.waiting_list m.world) m)
  dozes : m.phase (current m) ≡ parked → Step tasks m (comes_to dozing m.lock (doze m.world) m)
  gives_way :
      m.phase (current m) ≡ dozing
      → Step tasks m (comes_to testing m.lock (give_way tasks m.world) m)
  leaves :
      m.phase (current m) ≡ inside
      → Step tasks m
          (comes_to outside (mutex_release m.lock m.world).0 (mutex_release m.lock m.world).1 m)
  ticks : Step tasks m (record m { world = give_way tasks m.world })

pub data Run (tasks : Ptr) (start : Machine) : Machine → Type 0 where
  still : Run tasks start start
  onward : {m n : Machine} → Run tasks start m → Step tasks m n → Run tasks start n

-- At most one task owns the mutex; its value says whether there is one; and a task inside is the holder.
pub record Exclusive (m : Machine) : Type 0 where
  pub one : (t u : Ptr) → owns (m.phase t) ≡ true → owns (m.phase u) ≡ true → t ≡ u
  pub set : (t : Ptr) → owns (m.phase t) ≡ true → m.lock.value ≡ 1
  pub held : (t : Ptr) → m.phase t ≡ inside → m.lock.holder ≡ m.world.pid t
  pub owned : m.lock.value ≢ 0 → (t : Ptr) × (owns (m.phase t) ≡ true)

-- A task that does not own the mutex takes a step that leaves it as it is.
module _ (m : Machine) (p : Phase) (lock : Mutex) (w : World)
    (before : owns (m.phase (current m)) ≡ false) (after : owns p ≡ false)
    (value : lock.value ≡ m.lock.value) (holder : lock.holder ≡ m.lock.holder)
    (pid : w.pid ≡ m.world.pid) (x : Exclusive m) where
  owner-kept :
      (t : Ptr)
      → owns (update m.phase (current m) p t) ≡ true
      → (m.phase t ≡ update m.phase (current m) p t)
  owner-kept t a = elim (Bool-cases (t == current m)) [
    | inl y ↦
        absurd (ground (arith, after, subst (λ b. owns (if b then p else m.phase t) ≡ true) y a))
    | inr n ↦ rw n refl
  ]

  owner : (t : Ptr) → owns (update m.phase (current m) p t) ≡ true → owns (m.phase t) ≡ true
  owner t a = ap owns (owner-kept t a) ∙ a

  still_owner : (t : Ptr) → owns (m.phase t) ≡ true → owns (update m.phase (current m) p t) ≡ true
  still_owner t a = elim (Bool-cases (t == current m)) [
    | inl y ↦ absurd (ground (arith, before, a))
    | inr n ↦ rw n a
  ]

  quiet-Exclusive : Exclusive (comes_to p lock w m)
  unfolding owns
  quiet-Exclusive = record {
    one = λ t u a b. x.one t u (owner t a) (owner u b);
    set = λ t a. value ∙ x.set t (owner t a);
    held = λ t a. holder ∙ x.held t (owner-kept t (ap owns a) ∙ a) ∙ ap (λ f. f t) (sym pid);
    owned = λ n. let (t, a) = x.owned (λ z. n (value ∙ z)) in (t, still_owner t a);
  }

-- The test that finds the mutex free, when nobody owns it.
free_test-Exclusive :
    (m : Machine)
    → m.lock.value ≡ 0
    → Exclusive m
    → Exclusive (comes_to taken (record m.lock { value = 1 }) m.world m)
unfolding owns
free_test-Exclusive m z x =
    let nobody : (t : Ptr) → owns (m.phase t) ≡ false = λ t. elim (Bool-cases (owns (m.phase t))) [
      | inl y ↦ absurd (omega (arith, z, x.set t y))
      | inr n ↦ n
    ] in
    let only : (t : Ptr) → owns (update m.phase (current m) taken t) ≡ true → t ≡ current m = λ t a.
      elim (Bool-cases (t == current m)) [
        | inl y ↦ ground arith
        | inr n ↦ absurd (
            ground (arith, nobody t, subst (λ b. owns (if b then taken else m.phase t) ≡ true) n a))
      ] in
    record {
      one = λ t u a b. only t a ∙ sym (only u b);
      set = λ t a. refl;
      held = λ t a. elim (Bool-cases (t == current m)) [
        | inl y ↦
            absurd (ground (arith, subst (λ b. (if b then taken else m.phase t) ≡ inside) y a))
        | inr n ↦ x.held t (subst (λ b. (if b then taken else m.phase t) ≡ inside) n a)
      ];
      owned = λ n. (current m, ap owns (update_self m.phase (current m) taken));
    }

-- The owner sets the holder.
enter-Exclusive :
    (m : Machine)
    → m.phase (current m) ≡ taken
    → Exclusive m
    → Exclusive (comes_to inside (set_holder m.lock m.world) m.world m)
unfolding owns set_holder
enter-Exclusive m e x =
    let own : owns (m.phase (current m)) ≡ true = ap owns e in
    let before : (t : Ptr)
        → owns (update m.phase (current m) inside t) ≡ true
        → owns (m.phase t) ≡ true =
      λ t a. elim (Bool-cases (t == current m)) [
        | inl y ↦ let same : t ≡ current m = ground arith in ap (λ t. owns (m.phase t)) same ∙ own
        | inr n ↦ subst (λ b. owns (if b then inside else m.phase t) ≡ true) n a
      ] in
    record {
      one = λ t u a b. x.one t u (before t a) (before u b);
      set = λ t a. x.set t (before t a);
      held = λ t a. ap m.world.pid (sym (x.one t (current m) (before t (ap owns a)) own));
      owned = λ n. (current m, ap owns (update_self m.phase (current m) inside));
    }

-- The owner, and so the only one, releases the mutex.
leave-Exclusive :
    (m : Machine)
    → m.phase (current m) ≡ inside
    → Exclusive m
    → Exclusive
        (comes_to outside (mutex_release m.lock m.world).0 (mutex_release m.lock m.world).1 m)
unfolding owns mutex_release
leave-Exclusive m e x =
    let own : owns (m.phase (current m)) ≡ true = ap owns e in
    let nobody : (t : Ptr) → owns (update m.phase (current m) outside t) ≡ true → ⊥ = λ t a.
      elim (Bool-cases (t == current m)) [
        | inl y ↦ ground (arith, subst (λ b. owns (if b then outside else m.phase t) ≡ true) y a)
        | inr n ↦
            let b = subst (λ b. owns (if b then outside else m.phase t) ≡ true) n a in
            ground (arith, x.one t (current m) b own)
      ] in
    record {
      one = λ t u a b. absurd (nobody t a);
      set = λ t a. absurd (nobody t a);
      held = λ t a. absurd (nobody t (ap owns a));
      owned = λ n. absurd (n refl);
    }

test-Exclusive :
    (m : Machine) → m.phase (current m) ≡ testing → Exclusive m → Exclusive (after_test m)
unfolding after_test test_and_set owns
test-Exclusive m e x = elim (Bool-cases (m.lock.value == 0)) [
  | inl y ↦ rw (after_test, test_and_set, y) (free_test-Exclusive m (ground arith) x)
  | inr n ↦
      let (t, a) = x.owned (ground arith) in
      rw (after_test, test_and_set, n)
        (quiet-Exclusive m waiting (record m.lock { value = 1 }) m.world (ap owns e) refl
          (sym (x.set t a)) refl refl x)
]

Step-Exclusive : (tasks : Ptr) {m n : Machine} → Step tasks m n → Exclusive m → Exclusive n
unfolding owns park doze give_way
Step-Exclusive tasks (Step.calls e) x =
    quiet-Exclusive _ testing _ _ (ap owns e) refl refl refl refl x
Step-Exclusive tasks (Step.tests e) x = test-Exclusive _ e x
Step-Exclusive tasks (Step.enters e) x = enter-Exclusive _ e x
Step-Exclusive tasks (Step.parks e) x =
    quiet-Exclusive _ parked _ _ (ap owns e) refl refl refl refl x
Step-Exclusive tasks (Step.dozes e) x =
    quiet-Exclusive _ dozing _ _ (ap owns e) refl refl refl refl x
Step-Exclusive tasks (Step.gives_way e) x =
    quiet-Exclusive _ testing _ _ (ap owns e) refl refl refl refl x
Step-Exclusive tasks (Step.leaves e) x = leave-Exclusive _ e x
Step-Exclusive tasks Step.ticks x = record {
  one = x.one;
  set = x.set;
  held = x.held;
  owned = x.owned;
}

-- In every run of tasks that call mutex_acquire only outside the mutex and mutex_release only
-- inside, with clock interrupts between any two statements of mutex_acquire, the test and the
-- assignment of the holder included: if it is so at the start, at most one task has passed the
-- test and not yet released the mutex, the value of the mutex is 1 while there is one and 0 while
-- there is none, and a task inside is the holder.
pub Run-Exclusive :
    (tasks : Ptr) {start m : Machine} → Exclusive start → Run tasks start m → Exclusive m
Run-Exclusive tasks x Run.still = x
Run-Exclusive tasks x (Run.onward r s) = Step-Exclusive tasks s (Run-Exclusive tasks x r)
