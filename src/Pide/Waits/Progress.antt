-- ===== src/Pide/Waits/Progress.antt =====
-- final/server.c: with one courier and at most three cooks, and as long as `main` does not wait in
-- `wait_for_all_deliveries`, the first batch does not get stuck.
use cse_344_homeworks.Prelude.{
  ℕ, ◌+◌, ◌≤◌, ◌<◌, ◌≡◌, ◌⊎◌, inl, inr, refl, ◌∙◌, ap, arith, false, some, get_elem?, Bool-cases,
  length, dec_lt,
}
use cse_344_homeworks.Pide.Shop.{
  CourierAt, placed, CookAt, idle, preparing, baking, loading, away, courier_returns, has_room,
}
use cse_344_homeworks.Pide.Shop.Counts.{carried, left, left_loading}
use cse_344_homeworks.Pide.Shop.Tally.{
  total_of, is_in, TallyInv, FirstBatch-TallyInv, cook_found, is_preparing, is_baking,
  first_in_state-found, open_split, known_split,
}
use cse_344_homeworks.Pide.Signals.{Nap, awake, asleep, to_signal, Waits, courier_nap}
use cse_344_homeworks.Pide.Waits.{Delivery}
use cse_344_homeworks.Pide.Waits.Naps.{
  Calm, is_up, is_owing, naps_at, CookFits-get, CourierFits, InvOf, ready_orders,
}
use cse_344_homeworks.Pide.Waits.CalmSteps.{Facts}
use cse_344_homeworks.Pide.Waits.CalmRuns.{Calm-FirstBatch, Calm-Facts, Calm-Known}
use cse_344_homeworks.Pide.Waits.Work.{
  CanWork, signal_delivery, signal_completion, find_up, find_owing, owing_works, baking_works,
  preparing_works, up_works,
}

at_cases : (at : CourierAt) → (at ≡ loading) ⊎ ((d : ℕ) × (at ≡ away d))
at_cases loading = inl refl
at_cases (away d) = inr (d, refl)

module _ {n : ℕ} (s : Waits) (f : Facts n s) (v : InvOf n s) where
  at_0 : get_elem? s.shop.couriers 0 ≡ some v.courier
  at_0 = ap (λ l. get_elem? l 0) v.one

  nap_0 : get_elem? s.courier_naps 0 ≡ some v.nap
  nap_0 = ap (λ l. get_elem? l 0) v.his

  back_works :
      (d : ℕ) → v.nap ≡ to_signal → v.courier.at ≡ away d → length v.courier.bag ≤ d → CanWork s
  back_works d e l b =
      let (t, g) =
        signal_delivery
          (courier_nap 0 awake (record s { shop = courier_returns 0 v.courier s.shop })) f.calm in
      CanWork.courier 0 v.courier t at_0 (Delivery.returns d (nap_0 ∙ ap some e) l b g) tt

  away_works : (d : ℕ) → v.nap ≡ awake → v.courier.at ≡ away d → CanWork s
  away_works d e l = elim (dec_lt d (length v.courier.bag)) [
    | yes more ↦
        CanWork.courier 0 v.courier _ at_0 (Delivery.delivers d (nap_0 ∙ ap some e) l more refl) tt
    | no done ↦
        let (t, g) = signal_completion (courier_nap 0 to_signal s) in
        CanWork.courier 0 v.courier t at_0
          (Delivery.signals d (nap_0 ∙ ap some e) l (omega (arith, done)) g) tt
  ]

  full : has_room v.courier ≡ false → 0 < length v.courier.bag
  full e = ground (arith, e)

  -- An order is ready.
  ready_works : 0 < s.shop.active_orders → 0 < ready_orders s.shop → CanWork s
  ready_works p r = by_nap v.nap refl v.careful
    where
      room : v.nap ≡ awake → v.courier.at ≡ loading → CanWork s
      room e l = elim (Bool-cases (has_room v.courier)) [
        | inl free ↦
            let (i, o, g, h) = first_in_state-found 3 (placed s.shop) r in
            CanWork.courier 0 v.courier _ at_0
              (Delivery.loads i o (nap_0 ∙ ap some e) l free p g h refl) tt
        | inr none_free ↦
            CanWork.courier 0 v.courier _ at_0
              (Delivery.sets_off (nap_0 ∙ ap some e) l (full none_free) (inl none_free) refl) tt
      ]

      by_nap :
          (m : Nap)
          → v.nap ≡ m
          → CourierFits s.shop.active_orders
              (ready_orders s.shop)
              (naps_at is_owing s.cook_naps)
              v.courier
              m
          → CanWork s
      by_nap awake e h = elim (at_cases v.courier.at) [
        | inl l ↦ room e l
        | inr (d, l) ↦ away_works d e l
      ]
      by_nap asleep e (l, q, inl z) = absurd (omega (arith, z, r))
      by_nap asleep e (l, q, inr w) = let (k, g) = find_owing s.cook_naps w in owing_works s f k g
      by_nap to_signal e (d, l, b) = back_works d e l b

  -- No order is active, and the courier has one to deliver.
  bag_works : s.shop.active_orders ≡ 0 → 0 < left v.courier → CanWork s
  bag_works z h = by_nap v.nap refl v.careful
    where
      by_nap :
          (m : Nap)
          → v.nap ≡ m
          → CourierFits s.shop.active_orders
              (ready_orders s.shop)
              (naps_at is_owing s.cook_naps)
              v.courier
              m
          → CanWork s
      by_nap awake e w = elim (at_cases v.courier.at) [
        | inl l ↦
            CanWork.courier 0 v.courier _ at_0
              (Delivery.sets_off (nap_0 ∙ ap some e) l (omega (arith, left_loading v.courier l, h))
                (inr z) refl)
              tt
        | inr (d, l) ↦ away_works d e l
      ]
      by_nap asleep e (l, q, w) = absurd (omega (arith, q, z))
      by_nap to_signal e (d, l, b) = back_works d e l b

  -- An order is active.
  active_works :
      TallyInv s.shop
      → 0 < s.shop.active_orders
      → (s.shop.active_orders ≡ 0) ⊎ (0 < naps_at is_up s.cook_naps)
      → CanWork s
  active_works y p (inl z) = absurd (omega (arith, z, p))
  active_works y p (inr up) = elim (dec_lt 0 (total_of (is_in 0) (placed s.shop))) [
    | yes new ↦
        let (i, o, g, h) = first_in_state-found 0 (placed s.shop) new in
        let (k, c, m, e, e', u) = find_up s.shop.cooks s.cook_naps v.fits up in
        up_works s f i p g k c e m e' u
    | no no_new ↦ elim (dec_lt 0 (total_of (is_in 1) (placed s.shop))) [
      | yes one ↦
          let (k, c, e, w) = cook_found is_preparing s.shop.cooks (omega (arith, y.first, one)) in
          prepares k c e w
      | no none_one ↦ elim (dec_lt 0 (total_of (is_in 2) (placed s.shop))) [
        | yes two ↦
            let (k, c, e, w) = cook_found is_baking s.shop.cooks (omega (arith, y.second, two)) in
            bakes k c e w
        | no none_two ↦
            ready_works p
              (omega (arith, y.active, open_split (placed s.shop), no_new, none_one, none_two, p))
      ]
    ]
  ]
    where
      prepares :
          (k : ℕ) (c : CookAt) → get_elem? s.shop.cooks k ≡ some c → 0 < is_preparing c → CanWork s
      prepares k idle e w = absurd (omega (arith, w))
      prepares k (baking i) e w = absurd (omega (arith, w))
      prepares k (preparing i) e w =
          let (m, g, h) = CookFits-get s.shop.cooks s.cook_naps k (preparing i) v.fits e in
          preparing_works s f k i e m g (elim h [ inl u ↦ u | inr x ↦ absurd (ground (arith, x)) ])

      bakes : (k : ℕ) (c : CookAt) → get_elem? s.shop.cooks k ≡ some c → 0 < is_baking c → CanWork s
      bakes k idle e w = absurd (omega (arith, w))
      bakes k (preparing i) e w = absurd (omega (arith, w))
      bakes k (baking i) e w = baking_works s f k i e

-- With one courier and one to three cooks, in every state of the first batch that the threads reach in
-- a run in which no section of the courier, under `delivery_mutex`, overlaps with one of another thread,
-- under `order_mutex`, so that no update of `active_orders` is lost, and before `main` has gone into
-- the wait of `wait_for_all_deliveries`; waits that end for no reason are included: as long as an order
-- is not completed, some cook or courier can take a step that is not a wait.
pub one_courier_works :
    {n : ℕ} (s : Waits)
    → Calm n s
    → 0 < n
    → n ≤ 3
    → s.shop.completed_orders < s.shop.total_orders
    → CanWork s
one_courier_works {n} s r h k p =
    let (v, someone) = Calm-Known s r h k in
    let f = Calm-Facts s r h k v in
    let y = FirstBatch-TallyInv s.shop (Calm-FirstBatch s r) in
    elim (dec_lt 0 s.shop.active_orders) [
      | yes some_active ↦ active_works s f v y some_active someone
      | no none_active ↦
          let his : carried s.shop.couriers ≡ left v.courier + 0 = ap carried v.one in
          bag_works s f v (omega (arith, none_active)) (
            omega (
              arith,
              p,
              his,
              none_active,
              f.batch.delivered,
              y.known,
              y.active,
              known_split (placed s.shop),
            ))
    ]
