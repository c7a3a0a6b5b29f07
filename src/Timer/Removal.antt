-- ===== src/Timer/Removal.antt =====
-- `unregister_timer` (kernel/kernel/timer.c) on the fields that link the timers.
use chao_s_os.Prelude.{
  ℕ, zero, suc, ◌<◌, ◌≡◌, ◌≢◌, refl, sym, ap, subst, ◌∙◌, true, false, ◌||◌, none, some, List, [],
  ◌∷◌, ◌++◌, arith, ◌==◌, length, update, update_self, update_other, Option, length-append,
}
use chao_s_os.Links.Ring.{has, ◌∉◌, Distinct, last_of}
use chao_s_os.Kmm.Lists.{last_of-ne, ∉-append}
use chao_s_os.Kmm.Views.{middle-has}
use chao_s_os.Timer.{TimerLinks, find_timer, unlink_timer, remove_found, unregister_timer}

-- From `a` the fields `next` lead through `xs` to the null pointer.
abbrev pub Leads : (ℕ → ℕ) → ℕ → List ℕ → Type 0
Leads next a [] = a ≡ 0
Leads next a (x ∷ xs) = (a ≡ x) × (x ≢ 0) × Leads next (next x) xs

Leads-same :
    (next next' : ℕ → ℕ) (a : ℕ) (xs : List ℕ)
    → ((x : ℕ) → has x xs ≡ true → next' x ≡ next x)
    → Leads next a xs
    → Leads next' a xs
Leads-same next next' a [] s h = h
Leads-same next next' a (x ∷ xs) s (e, n, h) = (
  e,
  n,
  subst (λ b. Leads next' b xs) (sym (s x (ground arith)))
      (Leads-same next next' (next x) xs (λ y i. s y (ground (arith, i))) h),
)

-- The field in front of `t` skips it.
Leads-unlinked :
    (next : ℕ → ℕ) (a x t : ℕ) (ws zs : List ℕ)
    → Distinct (x ∷ ws ++ t ∷ zs)
    → Leads next a (x ∷ ws ++ t ∷ zs)
    → Leads (update next (last_of x ws) (next t)) a (x ∷ ws ++ zs)
Leads-unlinked next a x t [] zs (d, _) (e, n, (e', n', h)) = (
  e,
  n,
  subst (λ b. Leads (update next x (next t)) b zs) (sym (update_self next x (next t)))
      (Leads-same next (update next x (next t)) (next t) zs
        (λ y i. update_other next x y (next t) (ground (arith, d, i))) h),
)
Leads-unlinked next a x t (w ∷ ws) zs (d, ds) (e, n, h) =
    let apart = last_of-ne x w ws (∉-append x (w ∷ ws) (t ∷ zs) d).0 in
    let next' = update next (last_of w ws) (next t) in
    (
      e,
      n,
      subst (λ b. Leads next' b (w ∷ ws ++ zs))
          (sym (update_other next (last_of w ws) x (next t) apart))
          (Leads-unlinked next (next x) w t ws zs ds h),
    )

find_timer-at :
    (f t p a : ℕ) (ws zs : List ℕ) (h : TimerLinks)
    → t ∉ ws
    → length ws < f
    → Leads h.next a (ws ++ t ∷ zs)
    → find_timer f t p a h ≡ some (last_of p ws, t)
unfolding find_timer
find_timer-at zero t p a ws zs h n l k = absurd (omega arith)
find_timer-at (suc f) t p a [] zs h n l (e, n', k) =
    let here : (a == 0 || a == t) ≡ true = ground (arith, e) in rw here (ap (λ c. some (p, c)) e)
find_timer-at (suc f) t p a (w ∷ ws) zs h n l (e, n', k) =
    let on : (a == 0 || a == t) ≡ false = ground (arith, e, n', n) in
    rw on (
      subst (λ b. find_timer f t b (h.next b) h ≡ some (last_of w ws, t)) (sym e)
        (find_timer-at f t w (h.next w) ws zs h (ground (arith, n)) (omega arith) k))

find_timer-none :
    (f t p a : ℕ) (ws : List ℕ) (h : TimerLinks)
    → t ∉ ws
    → length ws < f
    → Leads h.next a ws
    → find_timer f t p a h ≡ some (last_of p ws, 0)
unfolding find_timer
find_timer-none zero t p a ws h n l k = absurd (omega arith)
find_timer-none (suc f) t p a [] h n l e =
    let here : (a == 0 || a == t) ≡ true = ground (arith, e) in rw here (ap (λ c. some (p, c)) e)
find_timer-none (suc f) t p a (w ∷ ws) h n l (e, n', k) =
    let on : (a == 0 || a == t) ≡ false = ground (arith, e, n', n) in
    rw on (
      subst (λ b. find_timer f t b (h.next b) h ≡ some (last_of w ws, 0)) (sym e)
        (find_timer-none f t w (h.next w) ws h (ground (arith, n)) (omega arith) k))

-- A call that returns, with the timers that are linked afterwards and the address that it frees.
pub record Ends (r : Option (TimerLinks × Option ℕ)) (xs : List ℕ) (freed : Option ℕ) : Type 0 where
  pub links : TimerLinks
  pub returns : r ≡ some (links, freed)
  pub leads : Leads links.next links.timers xs

Leads-first-ne : (next : ℕ → ℕ) (a x : ℕ) (xs : List ℕ) → Leads next a (x ∷ xs) → a ≢ 0
Leads-first-ne next a x xs (e, n, h) z = n (sym e ∙ z)

last_of-ne_null :
    (next : ℕ → ℕ) (a p : ℕ) (ws zs : List ℕ) → p ≢ 0 → Leads next a (ws ++ zs) → last_of p ws ≢ 0
last_of-ne_null next a p [] zs n h = n
last_of-ne_null next a p (w ∷ ws) zs n (e, n', h) = last_of-ne_null next (next w) w ws zs n' h

unlink_timer-behind :
    (prev current : ℕ) (h : TimerLinks)
    → prev ≢ 0
    → unlink_timer prev current h ≡ record h { next = update h.next prev (h.next current) }
unfolding unlink_timer
unlink_timer-behind prev current h n = let test : (prev == 0) ≡ false = ground arith in rw test refl

module _ (f first : ℕ) (xs : List ℕ) (h : TimerLinks) (leads : Leads h.next h.timers (first ∷ xs))
    (distinct : Distinct (first ∷ xs)) (enough : length (first ∷ xs) < f) where
  -- `prev` starts at the first timer, so that it is never null.
  prev_start : h.timers ≢ 0
  prev_start = Leads-first-ne h.next h.timers first xs leads

  unregister-first : Ends (unregister_timer f first h) (first ∷ xs) (some first)
  unfolding unregister_timer remove_found
  unregister-first =
      let found =
        find_timer-at f first h.timers h.timers [] xs h refl (omega (arith, enough)) leads in
      let own : (first == first) ≡ true = ground arith in
      let e : h.timers ≡ first = leads.0 in
      record {
        links = record h { next = update h.next h.timers (h.next first) };
        returns = rw (found, own, unlink_timer-behind h.timers first h prev_start) refl;
        leads =
            Leads-same h.next (update h.next h.timers (h.next first)) h.timers (first ∷ xs)
              (λ y i. ground (arith, e)) leads;
      }

  unregister-absent :
      (t : ℕ) → t ∉ (first ∷ xs) → t ≢ 0 → Ends (unregister_timer f t h) (first ∷ xs) none
  unfolding unregister_timer remove_found
  unregister-absent t n z =
      let found = find_timer-none f t h.timers h.timers (first ∷ xs) h n enough leads in
      let other : (0 == t) ≡ false = ground arith in
      record { links = h; returns = rw (found, other) refl; leads = leads }

unregister-behind :
    (f first t : ℕ) (before after : List ℕ) (h : TimerLinks)
    → Leads h.next h.timers (first ∷ before ++ t ∷ after)
    → Distinct (first ∷ before ++ t ∷ after)
    → t ∉ (first ∷ before)
    → length (first ∷ before) < f
    → Ends (unregister_timer f t h) (first ∷ before ++ after) (some t)
unfolding unregister_timer remove_found
unregister-behind f first t before after h leads d n l =
    let found = find_timer-at f t h.timers h.timers (first ∷ before) after h n l leads in
    let own : (t == t) ≡ true = ground arith in
    let prev = last_of first before in
    let some_prev =
      last_of-ne_null h.next (h.next first) first before (t ∷ after) leads.1 leads.2 in
    record {
      links = record h { next = update h.next prev (h.next t) };
      returns = rw (found, own, unlink_timer-behind prev t h some_prev) refl;
      leads = Leads-unlinked h.next h.timers first t before after d leads;
    }

-- unregister_timer, with more steps than there are timers: of a timer behind the first one, it
-- unlinks it, keeps the others in their order and frees it; of the first timer, it frees it and
-- yet leaves it linked, in front of all others; of a timer that is not linked, it changes and
-- frees nothing.
pub unregister_timer-Ends :
    (f first t other : ℕ) (before after : List ℕ) (h : TimerLinks)
    → Leads h.next h.timers (first ∷ before ++ t ∷ after)
    → Distinct (first ∷ before ++ t ∷ after)
    → other ∉ (first ∷ before ++ t ∷ after)
    → other ≢ 0
    → length (first ∷ before ++ t ∷ after) < f
    → Ends (unregister_timer f t h) (first ∷ before ++ after) (some t)
      × Ends (unregister_timer f first h) (first ∷ before ++ t ∷ after) (some first)
      × Ends (unregister_timer f other h) (first ∷ before ++ t ∷ after) none
unregister_timer-Ends f first t other before after h leads d n z l = (
  unregister-behind f first t before after h leads d (Distinct-∉ t (first ∷ before) after d)
      (omega (arith, l, length-append before (t ∷ after))),
  unregister-first f first (before ++ t ∷ after) h leads d l,
  unregister-absent f first (before ++ t ∷ after) h leads d l other n z,
)
  where
    Distinct-∉ : (t : ℕ) (ws zs : List ℕ) → Distinct (ws ++ t ∷ zs) → t ∉ ws
    Distinct-∉ t [] zs d = refl
    Distinct-∉ t (w ∷ ws) zs (a, d) = ground (arith, a, Distinct-∉ t ws zs d, middle-has t ws zs)
