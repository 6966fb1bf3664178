-- ===== src/Pide/Waits/Quiet.antt =====
-- final/server.c: from a state in which nobody is left who would signal, no move wakes a thread.
use cse_344_homeworks.Prelude.{
  ℕ, ◌≡◌, ◌≢◌, ◌⊎◌, inl, inr, refl, sym, ◌∙◌, ap, subst, arith, none, some, get_elem?, All, All-get,
  All-set, length,
}
use cse_344_homeworks.Pide.Shop.{
  first_in_state, Courier, placed, idle, preparing, baking, reset_counters,
}
use cse_344_homeworks.Pide.Signals.{awake, asleep, to_signal, MainAt, Waits, waiting}
use cse_344_homeworks.Pide.Waits.{Cook, Delivery, Main, Completion, Move, Moves}
use cse_344_homeworks.Pide.Waits.Sleep.{
  AllResting, Quiet, Sleepier, IsUp, SleepsOn, Sleepier-refl, Sleepier-set, Resting-get,
  AllResting-set, stays, SleepsOn-trans,
}

-- What a move from a quiet state comes to.
abbrev After : Waits → Waits → Type 0
After s t = Quiet t × SleepsOn s t

Cook-After : {s t : Waits} (k : ℕ) → Cook k s t → Quiet s → After s t
Cook-After {s} k (Cook.waits a b c e) q = subst (After s) (sym e) (
  record {
    cooks = q.cooks;
    cook_naps = All-set (λ nap. nap ≢ to_signal) s.cook_naps k asleep q.cook_naps (ground arith);
    no_new = q.no_new;
    couriers = q.couriers;
    no_ready = q.no_ready;
  },
  record {
    cook_naps = Sleepier-set s.cook_naps k;
    courier_naps = Sleepier-refl s.courier_naps;
    bags = refl;
    main_at = inl refl;
    completion_at = inl refl;
  },
)
Cook-After {s} k (Cook.takes i a b c f e) q = absurd (ground (arith, q.no_new, c, f))
Cook-After {s} k (Cook.waits_for_oven i a b c e) q =
    absurd (ground (arith, All-get _ s.shop.cooks k (preparing i) q.cooks a))
Cook-After {s} k (Cook.bakes i a b c d e) q =
    absurd (ground (arith, All-get _ s.shop.cooks k (preparing i) q.cooks a))
Cook-After {s} k (Cook.finishes i a g) q =
    absurd (ground (arith, All-get _ s.shop.cooks k (baking i) q.cooks a))
Cook-After {s} k (Cook.signals a g) q =
    absurd (All-get _ s.cook_naps k to_signal q.cook_naps a refl)

Delivery-After :
    {s t : Waits} (k : ℕ) (c : Courier)
    → get_elem? s.shop.couriers k ≡ some c
    → Delivery k c s t
    → Quiet s
    → After s t
Delivery-After {s} k c g (Delivery.loads i o n a r p f h e) q = absurd (elim q.no_ready [
  | inl x ↦ omega (arith, x, p)
  | inr (inl x) ↦ ground (arith, x, f)
  | inr (inr x) ↦ ground (arith, All-get _ s.courier_naps k awake x n)
])
Delivery-After {s} k c g (Delivery.waits n a r p f e) q = subst (After s) (sym e) (
  record {
    cooks = q.cooks;
    cook_naps = q.cook_naps;
    no_new = q.no_new;
    couriers = AllResting-set s.shop.couriers s.courier_naps k q.couriers;
    no_ready = inr (inl f);
  },
  record {
    cook_naps = Sleepier-refl s.cook_naps;
    courier_naps = Sleepier-set s.courier_naps k;
    bags = refl;
    main_at = inl refl;
    completion_at = inl refl;
  },
)
Delivery-After {s} k c g (Delivery.sets_off n a b r e) q =
    let (at, rest) = Resting-get s.shop.couriers s.courier_naps k c awake q.couriers g n in
    absurd (elim rest [
      | inl x ↦ ground (arith, x)
      | inr (x, empty) ↦ let none_left = ap length empty in omega (arith, none_left, b)
    ])
Delivery-After {s} k c g (Delivery.delivers d n a b e) q =
    let (at, rest) = Resting-get s.shop.couriers s.courier_naps k c awake q.couriers g n in
    absurd (ground (arith, at, a))
Delivery-After {s} k c g (Delivery.signals d n a b w) q =
    let (at, rest) = Resting-get s.shop.couriers s.courier_naps k c awake q.couriers g n in
    absurd (ground (arith, at, a))
Delivery-After {s} k c g (Delivery.returns d n a b w) q =
    let (at, rest) = Resting-get s.shop.couriers s.courier_naps k c to_signal q.couriers g n in
    absurd (ground (arith, at, a))

-- Quiet is about the cooks, the couriers and the orders.
moved :
    (s t : Waits)
    → t.shop.cooks ≡ s.shop.cooks
    → t.shop.couriers ≡ s.shop.couriers
    → t.cook_naps ≡ s.cook_naps
    → t.courier_naps ≡ s.courier_naps
    → (t.shop.active_orders ≡ 0)
      ⊎ ((t.shop.active_orders ≡ s.shop.active_orders) × (placed t.shop ≡ placed s.shop))
    → (t.main_at ≡ s.main_at) ⊎ IsUp s.main_at
    → (t.completion_at ≡ s.completion_at) ⊎ (s.completion_at ≢ waiting)
    → Quiet s
    → After s t
moved s t c d n m o a b q = (
  record {
    cooks = subst (All (λ at. at ≡ idle)) (sym c) q.cooks;
    cook_naps = subst (All (λ nap. nap ≢ to_signal)) (sym n) q.cook_naps;
    no_new = still_no_new o q.no_new;
    couriers =
        subst (λ cs. AllResting cs t.courier_naps) (sym d)
          (subst (AllResting s.shop.couriers) (sym m) q.couriers);
    no_ready = still_no_ready o q.no_ready;
  },
  record {
    cook_naps = subst (Sleepier s.cook_naps) (sym n) (Sleepier-refl s.cook_naps);
    courier_naps = subst (Sleepier s.courier_naps) (sym m) (Sleepier-refl s.courier_naps);
    bags = d;
    main_at = a;
    completion_at = b;
  },
)
  where
    Same : Type 0
    Same =
        (t.shop.active_orders ≡ 0)
        ⊎ ((t.shop.active_orders ≡ s.shop.active_orders) × (placed t.shop ≡ placed s.shop))

    still_no_new :
        Same
        → (s.shop.active_orders ≡ 0) ⊎ (first_in_state 0 (placed s.shop) ≡ none)
        → (t.shop.active_orders ≡ 0) ⊎ (first_in_state 0 (placed t.shop) ≡ none)
    still_no_new (inl z) x = inl z
    still_no_new (inr (f, p)) (inl x) = inl (f ∙ x)
    still_no_new (inr (f, p)) (inr x) = inr (ap (first_in_state 0) p ∙ x)

    still_no_ready :
        Same
        → (s.shop.active_orders ≡ 0)
          ⊎ (first_in_state 3 (placed s.shop) ≡ none)
          ⊎ All (λ nap. nap ≡ asleep) s.courier_naps
        → (t.shop.active_orders ≡ 0)
          ⊎ (first_in_state 3 (placed t.shop) ≡ none)
          ⊎ All (λ nap. nap ≡ asleep) t.courier_naps
    still_no_ready (inl z) x = inl z
    still_no_ready (inr (f, p)) (inl x) = inl (f ∙ x)
    still_no_ready (inr (f, p)) (inr (inl x)) = inr (inl (ap (first_in_state 3) p ∙ x))
    still_no_ready (inr (f, p)) (inr (inr x)) =
        inr (inr (subst (All (λ nap. nap ≡ asleep)) (sym m) x))

-- `main` moves, which is not asleep then.
main_moved :
    (s t : Waits) (at : MainAt)
    → s.main_at ≡ at
    → IsUp at
    → t.shop.cooks ≡ s.shop.cooks
    → t.shop.couriers ≡ s.shop.couriers
    → t.cook_naps ≡ s.cook_naps
    → t.courier_naps ≡ s.courier_naps
    → (t.shop.active_orders ≡ 0)
      ⊎ ((t.shop.active_orders ≡ s.shop.active_orders) × (placed t.shop ≡ placed s.shop))
    → t.completion_at ≡ s.completion_at
    → Quiet s
    → After s t
main_moved s t at a u c d n m o b q = moved s t c d n m o (inr (subst IsUp (sym a) u)) (inl b) q

Main-After : {s t : Waits} → Main s t → Quiet s → After s t
unfolding reset_counters
Main-After {s} (Main.waits a b e) q =
    subst (After s) (sym e) (
      main_moved s _ _ a (ground arith, ground arith) refl refl refl refl (inr (refl, refl)) refl q)
Main-After {s} (Main.goes_on a b e) q =
    subst (After s) (sym e) (
      main_moved s _ _ a (ground arith, ground arith) refl refl refl refl (inr (refl, refl)) refl q)
Main-After {s} (Main.waits_for_all a b e) q =
    subst (After s) (sym e) (
      main_moved s _ _ a (ground arith, ground arith) refl refl refl refl (inr (refl, refl)) refl q)
Main-After {s} (Main.closes a b c e) q =
    subst (After s) (sym e) (
      main_moved s _ _ a (ground arith, ground arith) refl refl refl refl (inr (refl, refl)) refl q)
Main-After {s} (Main.resets a b e) q =
    subst (After s) (sym e)
      (main_moved s _ _ a (ground arith, ground arith) refl refl refl refl (inl refl) refl q)

Completion-After : {s t : Waits} → Completion s t → Quiet s → After s t
Completion-After {s} (Completion.accepts a e) q =
    subst (After s) (sym e)
      (moved s _ refl refl refl refl (inr (refl, refl)) (inl refl) (inr (ground (arith, a))) q)
Completion-After {s} (Completion.waits a b e) q =
    subst (After s) (sym e)
      (moved s _ refl refl refl refl (inr (refl, refl)) (inl refl) (inr (ground (arith, a))) q)
Completion-After {s} (Completion.tells a b e) q =
    subst (After s) (sym e)
      (moved s _ refl refl refl refl (inr (refl, refl)) (inl refl) (inr (ground (arith, a))) q)

Move-After : {s t : Waits} → Move s t → Quiet s → After s t
Move-After (Move.cook k st) q = Cook-After k st q
Move-After (Move.courier k c g st) q = Delivery-After k c g st q
Move-After (Move.main st) q = Main-After st q
Move-After (Move.completion st) q = Completion-After st q

-- Once the cooks are idle and owe no signal, no order waits for a cook, no courier is on the way or
-- awake with a bag, and none that is awake finds an order: whatever the threads do from then on, as
-- long as no client comes and no wait ends for no reason, this stays so, no thread that sleeps wakes,
-- neither a cook, a courier, `main` nor the completion thread, and the couriers keep their bags.
pub sleeps_on : {s t : Waits} → Quiet s → Moves s t → Quiet t × SleepsOn s t
sleeps_on {s} q Moves.here = (q, stays s)
sleeps_on {s} {t} q (Moves.next {t = r} ms st) =
    let (before, on) = sleeps_on q ms in
    let (after, on') = Move-After st before in (after, SleepsOn-trans s r t on on')
