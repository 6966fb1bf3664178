-- ===== src/Pide/Waits/Work.antt =====
-- final/server.c: what the cooks can do in a calm run.
use cse_344_homeworks.Prelude.{
  ℕ, suc, ◌<◌, ◌≡◌, ◌≢◌, ◌⊎◌, inl, inr, refl, arith, List, [], ◌∷◌, some, get_elem?, All,
}
use cse_344_homeworks.Pide.Shop.{
  Courier, placed, CookAt, idle, preparing, baking, cook_finishes, first_in_state,
}
use cse_344_homeworks.Pide.Signals.{
  Nap, awake, asleep, to_signal, MainAt, CompletionAt, waiting, Waits, first_wait, second_wait,
  SignalOrder, SignalDelivery, SignalCompletion, cook_nap,
}
use cse_344_homeworks.Pide.Waits.{Cook, Delivery}
use cse_344_homeworks.Pide.Waits.Naps.{is_up, is_owing, naps_at, CookFits}
use cse_344_homeworks.Pide.Waits.Calm.{oven_free}
use cse_344_homeworks.Pide.Waits.CalmSteps.{Facts}

-- Steps of cooks and couriers that are not waits.
abbrev pub CookWorks : {k : ℕ} {s t : Waits} → Cook k s t → Type 0
CookWorks (Cook.waits a b c e) = ⊥
CookWorks (Cook.waits_for_oven i a b c e) = ⊥
CookWorks _ = Unit

abbrev pub CourierWorks : {k : ℕ} {c : Courier} {s t : Waits} → Delivery k c s t → Type 0
CourierWorks (Delivery.waits a l r p q e) = ⊥
CourierWorks _ = Unit

-- A cook or a courier can go on with his work.
pub data CanWork (s : Waits) : Type 0 where
  cook : (k : ℕ) (t : Waits) (st : Cook k s t) → CookWorks st → CanWork s
  courier :
      (k : ℕ) (c : Courier) (t : Waits)
      → get_elem? s.shop.couriers k ≡ some c
      → (st : Delivery k c s t) → CourierWorks st
      → CanWork s

-- A signal always finds its way.
sleeper : (ns : List Nap) → ((k : ℕ) × (get_elem? ns k ≡ some asleep)) ⊎ All (λ n. n ≢ asleep) ns
sleeper [] = inr tt
sleeper (asleep ∷ ns) = inl (0, refl)
sleeper (awake ∷ ns) = elim (sleeper ns) [
  | inl (k, e) ↦ inl (suc k, e)
  | inr h ↦ inr (ground arith, h)
]
sleeper (to_signal ∷ ns) = elim (sleeper ns) [
  | inl (k, e) ↦ inl (suc k, e)
  | inr h ↦ inr (ground arith, h)
]

pub signal_order : (s : Waits) → (t : Waits) × SignalOrder s t
signal_order s = elim (sleeper s.cook_naps) [
  | inl (k, e) ↦ (_, SignalOrder.cook_wakes k e refl)
  | inr h ↦ (s, SignalOrder.no_cook h refl)
]

pub signal_delivery : (s : Waits) → s.main_at ≢ second_wait → (t : Waits) × SignalDelivery s t
signal_delivery s u = elim (sleeper s.courier_naps) [
  | inl (k, e) ↦ (_, SignalDelivery.courier_wakes k e refl)
  | inr h ↦ (s, SignalDelivery.nobody h u refl)
]

main_cases : (at : MainAt) → (at ≡ first_wait) ⊎ (at ≢ first_wait)
main_cases at = ground arith

completion_cases : (at : CompletionAt) → (at ≡ waiting) ⊎ (at ≢ waiting)
completion_cases at = ground arith

pub signal_completion : (s : Waits) → (t : Waits) × SignalCompletion s t
signal_completion s = elim (main_cases s.main_at) [
  | inl e ↦ (_, SignalCompletion.main_wakes e refl)
  | inr u ↦ elim (completion_cases s.completion_at) [
    | inl e ↦ (_, SignalCompletion.completion_wakes e refl)
    | inr w ↦ (s, SignalCompletion.nobody u w refl)
  ]
]

-- A cook who is not asleep, in a shop with an order for him.
module _ {n : ℕ} (s : Waits) (f : Facts n s) where
  pub owing_works : (k : ℕ) → get_elem? s.cook_naps k ≡ some to_signal → CanWork s
  owing_works k e =
      let (t, g) = signal_delivery (cook_nap k awake s) f.calm in
      CanWork.cook k t (Cook.signals e g) tt

  pub baking_works : (k i : ℕ) → get_elem? s.shop.cooks k ≡ some (baking i) → CanWork s
  baking_works k i e =
      let (t, g) =
        signal_order (cook_nap k to_signal (record s { shop = cook_finishes k i s.shop })) in
      CanWork.cook k t (Cook.finishes i e g) tt

  pub preparing_works :
      (k i : ℕ)
      → get_elem? s.shop.cooks k ≡ some (preparing i)
      → (m : Nap) → get_elem? s.cook_naps k ≡ some m
      → m ≢ asleep
      → CanWork s
  preparing_works k i e awake g u =
      let (apparatus_free, room) = oven_free s.shop k i e f.small f.oven in
      CanWork.cook k _ (Cook.bakes i e g apparatus_free room refl) tt
  preparing_works k i e asleep g u = absurd (u refl)
  preparing_works k i e to_signal g u = owing_works k g

  -- A cook who is up, while an order waits in state 0.
  pub up_works :
      (i : ℕ)
      → 0 < s.shop.active_orders
      → first_in_state 0 (placed s.shop) ≡ some i
      → (k : ℕ) (at : CookAt) → get_elem? s.shop.cooks k ≡ some at
      → (m : Nap) → get_elem? s.cook_naps k ≡ some m
      → m ≢ asleep
      → CanWork s
  up_works i p q k idle e awake g u = CanWork.cook k _ (Cook.takes i e g p q refl) tt
  up_works i p q k (preparing j) e m g u = preparing_works k j e m g u
  up_works i p q k (baking j) e m g u = baking_works k j e
  up_works i p q k idle e asleep g u = absurd (u refl)
  up_works i p q k idle e to_signal g u = owing_works k g

pub find_up :
    (cs : List CookAt) (ns : List Nap)
    → CookFits cs ns
    → 0 < naps_at is_up ns
    → (k : ℕ) × (c : CookAt) × (m : Nap) × (get_elem? cs k ≡ some c)
      × (get_elem? ns k ≡ some m)
      × (m ≢ asleep)
find_up [] [] h p = absurd (omega arith)
find_up [] (n ∷ ns) h p = absurd h
find_up (c ∷ cs) [] h p = absurd h
find_up (c ∷ cs) (awake ∷ ns) h p = (0, c, awake, refl, refl, ground arith)
find_up (c ∷ cs) (to_signal ∷ ns) h p = (0, c, to_signal, refl, refl, ground arith)
find_up (c ∷ cs) (asleep ∷ ns) h p =
    let (k, d, m, e, g, u) = find_up cs ns h.1 (omega (arith, p)) in (suc k, d, m, e, g, u)

pub find_owing :
    (ns : List Nap) → 0 < naps_at is_owing ns → (k : ℕ) × (get_elem? ns k ≡ some to_signal)
find_owing [] p = absurd (omega arith)
find_owing (to_signal ∷ ns) p = (0, refl)
find_owing (awake ∷ ns) p = let (k, e) = find_owing ns (omega (arith, p)) in (suc k, e)
find_owing (asleep ∷ ns) p = let (k, e) = find_owing ns (omega (arith, p)) in (suc k, e)
