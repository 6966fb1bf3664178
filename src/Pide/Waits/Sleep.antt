-- ===== src/Pide/Waits/Sleep.antt =====
-- final/server.c: states in which nobody is left who would signal, so that whoever sleeps, sleeps on.
use cse_344_homeworks.Prelude.{
  ℕ, zero, suc, ◌≡◌, ◌≢◌, ◌⊎◌, inl, inr, refl, ◌∙◌, subst, arith, List, [], ◌∷◌, none, some,
  get_elem?, set, All, some_injective,
}
use cse_344_homeworks.Pide.Shop.{first_in_state, Courier, placed, idle, loading}
use cse_344_homeworks.Pide.Signals.{
  Nap, awake, asleep, to_signal, MainAt, Waits, first_wait, second_wait, waiting,
}

-- A courier who has nothing to deliver, or is asleep.
abbrev pub Resting : Courier → Nap → Type 0
Resting c nap = (c.at ≡ loading) × ((nap ≡ asleep) ⊎ ((nap ≡ awake) × (c.bag ≡ [])))

abbrev pub AllResting : List Courier → List Nap → Type 0
AllResting (c ∷ cs) (nap ∷ naps) = Resting c nap × AllResting cs naps
AllResting _ _ = Unit

-- No cook works or owes a signal, no order waits for a cook, no courier is on the way or could go, and
-- none that is awake finds an order.
pub record Quiet (s : Waits) : Type 0 where
  pub cooks : All (λ at. at ≡ idle) s.shop.cooks
  pub cook_naps : All (λ nap. nap ≢ to_signal) s.cook_naps
  pub no_new : (s.shop.active_orders ≡ 0) ⊎ (first_in_state 0 (placed s.shop) ≡ none)
  pub couriers : AllResting s.shop.couriers s.courier_naps
  pub no_ready :
      (s.shop.active_orders ≡ 0)
      ⊎ (first_in_state 3 (placed s.shop) ≡ none)
      ⊎ All (λ nap. nap ≡ asleep) s.courier_naps

-- Threads may fall asleep, and none wakes.
abbrev pub Sleepier : List Nap → List Nap → Type 0
Sleepier (n ∷ ns) (m ∷ ms) = ((m ≡ n) ⊎ (m ≡ asleep)) × Sleepier ns ms
Sleepier [] [] = Unit
Sleepier _ _ = ⊥

abbrev pub IsUp : MainAt → Type 0
IsUp at = (at ≢ first_wait) × (at ≢ second_wait)

pub record SleepsOn (s t : Waits) : Type 0 where
  pub cook_naps : Sleepier s.cook_naps t.cook_naps
  pub courier_naps : Sleepier s.courier_naps t.courier_naps
  pub bags : t.shop.couriers ≡ s.shop.couriers
  pub main_at : (t.main_at ≡ s.main_at) ⊎ IsUp s.main_at
  pub completion_at : (t.completion_at ≡ s.completion_at) ⊎ (s.completion_at ≢ waiting)

pub Sleepier-refl : (ns : List Nap) → Sleepier ns ns
Sleepier-refl [] = tt
Sleepier-refl (n ∷ ns) = (inl refl, Sleepier-refl ns)

pub Sleepier-set : (ns : List Nap) (k : ℕ) → Sleepier ns (set ns k asleep)
Sleepier-set [] k = tt
Sleepier-set (n ∷ ns) zero = (inr refl, Sleepier-refl ns)
Sleepier-set (n ∷ ns) (suc k) = (inl refl, Sleepier-set ns k)

pub Sleepier-trans : (l m n : List Nap) → Sleepier l m → Sleepier m n → Sleepier l n
Sleepier-trans [] [] n h k = k
Sleepier-trans [] (y ∷ m) n h k = absurd h
Sleepier-trans (x ∷ l) [] n h k = absurd h
Sleepier-trans (x ∷ l) (y ∷ m) [] h k = absurd k
Sleepier-trans (x ∷ l) (y ∷ m) (z ∷ n) (h, hs) (k, ks) = (go h k, Sleepier-trans l m n hs ks)
  where
    go : (y ≡ x) ⊎ (y ≡ asleep) → (z ≡ y) ⊎ (z ≡ asleep) → (z ≡ x) ⊎ (z ≡ asleep)
    go h (inr e) = inr e
    go (inl d) (inl e) = inl (e ∙ d)
    go (inr d) (inl e) = inr (e ∙ d)

pub Resting-get :
    (cs : List Courier) (ns : List Nap) (k : ℕ) (c : Courier) (n : Nap)
    → AllResting cs ns
    → get_elem? cs k ≡ some c
    → get_elem? ns k ≡ some n
    → Resting c n
Resting-get [] ns k c n h e f = ground (arith, e)
Resting-get (c' ∷ cs) [] k c n h e f = ground (arith, f)
Resting-get (c' ∷ cs) (n' ∷ ns) zero c n h e f =
    subst (λ n. Resting c n) (some_injective f) (subst (λ c. Resting c n') (some_injective e) h.0)
Resting-get (c' ∷ cs) (n' ∷ ns) (suc k) c n h e f = Resting-get cs ns k c n h.1 e f

pub AllResting-set :
    (cs : List Courier) (ns : List Nap) (k : ℕ) → AllResting cs ns → AllResting cs (set ns k asleep)
AllResting-set [] ns k h = tt
AllResting-set (c ∷ cs) [] k h = tt
AllResting-set (c ∷ cs) (n ∷ ns) zero h = ((h.0.0, inl refl), h.1)
AllResting-set (c ∷ cs) (n ∷ ns) (suc k) h = (h.0, AllResting-set cs ns k h.1)

pub stays : (s : Waits) → SleepsOn s s
stays s = record {
  cook_naps = Sleepier-refl s.cook_naps;
  courier_naps = Sleepier-refl s.courier_naps;
  bags = refl;
  main_at = inl refl;
  completion_at = inl refl;
}

pub SleepsOn-trans : (s t u : Waits) → SleepsOn s t → SleepsOn t u → SleepsOn s u
SleepsOn-trans s t u a b = record {
  cook_naps = Sleepier-trans s.cook_naps t.cook_naps u.cook_naps a.cook_naps b.cook_naps;
  courier_naps =
      Sleepier-trans s.courier_naps t.courier_naps u.courier_naps a.courier_naps b.courier_naps;
  bags = b.bags ∙ a.bags;
  main_at = main a.main_at b.main_at;
  completion_at = completion a.completion_at b.completion_at;
}
  where
    main :
        (t.main_at ≡ s.main_at) ⊎ IsUp s.main_at
        → (u.main_at ≡ t.main_at) ⊎ IsUp t.main_at
        → (u.main_at ≡ s.main_at) ⊎ IsUp s.main_at
    main (inr up) y = inr up
    main (inl e) (inl f) = inl (f ∙ e)
    main (inl e) (inr up) = inr (subst IsUp e up)

    completion :
        (t.completion_at ≡ s.completion_at) ⊎ (s.completion_at ≢ waiting)
        → (u.completion_at ≡ t.completion_at) ⊎ (t.completion_at ≢ waiting)
        → (u.completion_at ≡ s.completion_at) ⊎ (s.completion_at ≢ waiting)
    completion (inr up) y = inr up
    completion (inl e) (inl f) = inl (f ∙ e)
    completion (inl e) (inr up) = inr (subst (λ at. at ≢ waiting) e up)
