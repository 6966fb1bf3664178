-- ===== src/Pide/Waits/CalmSteps.antt =====
-- final/server.c: no step of a calm run breaks what is known of the sleepers.
use cse_344_homeworks.Prelude.{
  ℕ, ◌+◌, ◌-◌, ◌≤◌, ◌<◌, ◌≡◌, ◌≢◌, inl, inr, refl, sym, ◌∙◌, ap, subst, arith, List, [], ◌∷◌, none,
  some, get_elem?, set, length, length-set, dec_lt,
}
use cse_344_homeworks.Pide.Queue.{Order}
use cse_344_homeworks.Pide.Shop.{
  first_in_state, Courier, placed, idle, preparing, baking, handle_client, taken_by, with_state,
  cook_takes, cook_bakes, cook_finishes, courier_loads, courier_sets_off, courier_delivers,
  courier_returns,
}
use cse_344_homeworks.Pide.Shop.Orders.{first_in_state-state_at}
use cse_344_homeworks.Pide.Shop.Oven.{OvenInv}
use cse_344_homeworks.Pide.Shop.Crew.{job_at-get, CrewInv}
use cse_344_homeworks.Pide.Shop.Batch.{BatchInv}
use cse_344_homeworks.Pide.Shop.Tally.{total_of, is_in, client-total, first_in_state-found}
use cse_344_homeworks.Pide.Signals.{Nap, awake, asleep, to_signal, Waits, second_wait}
use cse_344_homeworks.Pide.Waits.{Cook, Delivery, Client}
use cse_344_homeworks.Pide.Waits.Refine.{SignalDelivery-shop}
use cse_344_homeworks.Pide.Waits.Naps.{
  is_up, is_owing, naps_at, naps_at-set_owing, naps_at-set_up, CookFits-get, CookFits-set_nap,
  CookFits-set_cook, CourierFits, Someone, ready_orders, InvOf,
}
use cse_344_homeworks.Pide.Waits.Calm.{
  careful_more, nap_changes, single_get, set_alone, courier_changes, SignalOrder-Inv,
  SignalDelivery-Inv, unless_asleep, Known, SignalCompletion-Known, ready_same, cook_changes,
  oven_free,
}

-- What is known of the shop, and that there are cooks, but at most three.
pub record Facts (n : ℕ) (s : Waits) : Type 0 where
  pub crew : CrewInv s.shop.cooks (placed s.shop)
  pub batch : BatchInv s.shop
  pub oven : OvenInv s.shop
  pub small : length s.shop.cooks ≤ 3
  pub some_cook : 0 < n
  pub calm : s.main_at ≢ second_wait

careful_owed :
    (a r r' o o' : ℕ) (c : Courier) (n : Nap)
    → 0 < o'
    → CourierFits a r o c n
    → CourierFits a r' o' c n
careful_owed a r r' o o' c awake w h = tt
careful_owed a r r' o o' c asleep w (l, p, e) = (l, p, inr w)
careful_owed a r r' o o' c to_signal w h = h

pub Client-Known : {n : ℕ} {s t : Waits} → Client s t → Facts n s → Known n s → Known n t
Client-Known {n} {s} (Client.client junk order g) f (v, w) =
    let s' : Waits = record s { shop = handle_client junk order s.shop } in
    let ready = client-total (is_in 3) s.shop junk order f.batch in
    let v' : InvOf n s' =
      unfold handle_client in
      record {
        crew = v.crew;
        fits = v.fits;
        courier = v.courier;
        nap = v.nap;
        one = v.one;
        his = v.his;
        careful =
            subst
              (λ r.
                CourierFits (s.shop.active_orders + 1) r (naps_at is_owing s.cook_naps) v.courier
                  v.nap)
              (omega (arith, ready))
              (careful_more s.shop.active_orders (s.shop.active_orders + 1) (ready_orders s.shop)
                (naps_at is_owing s.cook_naps) (naps_at is_owing s.cook_naps) v.courier v.nap
                (omega arith) (omega arith) v.careful);
      } in
    let (after, up) = SignalOrder-Inv g f.some_cook v' in (after, inr up)

pub Cook-Known : {n : ℕ} {s t : Waits} (k : ℕ) → Cook k s t → Facts n s → Known n s → Known n t
unfolding cook_takes cook_bakes cook_finishes
Cook-Known {n} {s} k (Cook.waits a b c e) f (v, w) = subst (Known n) (sym e) (
  nap_changes n s.shop.cooks s.shop.couriers s.shop.active_orders (ready_orders s.shop) s.cook_naps
      s.courier_naps k awake asleep b refl (inr a) v,
  inl c,
)
Cook-Known {n} {s} k (Cook.takes i a b c g e) f (v, w) =
    let known = first_in_state-state_at 0 (placed s.shop) i g in
    subst (Known n) (sym e) (
      cook_changes n s.shop.cooks s.shop.couriers s.shop.active_orders (ready_orders s.shop) _
          s.cook_naps s.courier_naps k (preparing i) awake b (ground arith)
          (ready_same s.shop (taken_by k) 1 0 i (λ o. refl) known refl) v,
      w,
    )
Cook-Known {n} {s} k (Cook.waits_for_oven i a b c e) f (v, w) =
    let (apparatus_free, room) = oven_free s.shop k i a f.small f.oven in
    absurd (elim c [ inl x ↦ omega (arith, x, apparatus_free) | inr x ↦ room x ])
Cook-Known {n} {s} k (Cook.bakes i a b c g e) f (v, w) =
    let known = f.crew.fits k i 1 (job_at-get s.shop.cooks k (preparing i) a) in
    subst (Known n) (sym e) (
      cook_changes n s.shop.cooks s.shop.couriers s.shop.active_orders (ready_orders s.shop) _
          s.cook_naps s.courier_naps k (baking i) awake b (ground arith)
          (ready_same s.shop (with_state 2) 2 1 i (λ o. refl) known refl) v,
      w,
    )
Cook-Known {n} {s} k (Cook.finishes i a g) f (v, w) =
    let (m, there, idle_asleep) = CookFits-get s.shop.cooks s.cook_naps k (baking i) v.fits a in
    let s' : Waits = record s {
      shop = cook_finishes k i s.shop;
      cook_naps = set s.cook_naps k to_signal;
    } in
    let v' : InvOf n s' = record {
      crew = length-set s.cook_naps k to_signal ∙ v.crew;
      fits =
          CookFits-set_nap (set s.shop.cooks k idle) s.cook_naps k to_signal
            (CookFits-set_cook s.shop.cooks s.cook_naps k idle m v.fits there (inr refl))
            (inl (ground arith));
      courier = v.courier;
      nap = v.nap;
      one = v.one;
      his = v.his;
      careful =
          careful_owed s.shop.active_orders (ready_orders s.shop) (ready_orders s'.shop)
            (naps_at is_owing s.cook_naps) (naps_at is_owing s'.cook_naps) v.courier v.nap
            (naps_at-set_owing s.cook_naps k m there) v.careful;
    } in
    let (after, up) = SignalOrder-Inv g f.some_cook v' in (after, inr up)
Cook-Known {n} {s} k (Cook.signals a g) f (v, w) =
    let (after, same) =
      SignalDelivery-Inv g f.calm (length-set s.cook_naps k awake ∙ v.crew)
        (CookFits-set_nap s.shop.cooks s.cook_naps k awake v.fits (inl (ground arith))) v.courier
        v.nap v.one v.his
        (unless_asleep s.shop.active_orders (ready_orders s.shop) (naps_at is_owing s.cook_naps)
          v.courier v.nap v.careful) in
    (
      after,
      inr (
          subst (λ ns. 0 < naps_at is_up ns) (sym same)
            (naps_at-set_up s.cook_naps k to_signal awake a refl)),
    )

none_ready : (l : List Order) → first_in_state 3 l ≡ none → total_of (is_in 3) l ≡ 0
none_ready l e = elim (dec_lt 0 (total_of (is_in 3) l)) [
  | yes some_left ↦
      let (i, o, g, h) = first_in_state-found 3 l some_left in
      let clash : none ≡ some i = sym e ∙ g in ground (arith, clash)
  | no empty ↦ omega (arith, empty)
]

pub Delivery-Known :
    {n : ℕ} {s t : Waits} (k : ℕ) (c : Courier)
    → get_elem? s.shop.couriers k ≡ some c
    → Delivery k c s t
    → Facts n s
    → Known n s
    → Known n t
unfolding courier_loads courier_sets_off courier_delivers courier_returns
Delivery-Known {n} {s} k c g (Delivery.loads i o a l r p q h e) f (v, w) = subst (Known n) (sym e) (
  courier_changes n s.shop.cooks s.shop.couriers _ s.shop.active_orders _ (ready_orders s.shop) _
      s.cook_naps s.courier_naps s.courier_naps _ awake
      (set_alone s.shop.couriers v.courier c _ k v.one g) (alone v.his a) tt v,
  fewer w,
)
  where
    alone :
        s.courier_naps ≡ v.nap ∷ []
        → get_elem? s.courier_naps k ≡ some awake
        → s.courier_naps ≡ awake ∷ []
    alone e a = e ∙ ap (λ m. m ∷ []) (single_get s.courier_naps v.nap awake k e a).1

    fewer :
        Someone s.shop.active_orders s.cook_naps → Someone (s.shop.active_orders - 1) s.cook_naps
    fewer (inl z) = inl (omega (arith, z))
    fewer (inr u) = inr u
Delivery-Known {n} {s} k c g (Delivery.waits a l r p q e) f (v, w) = subst (Known n) (sym e) (
  courier_changes n s.shop.cooks s.shop.couriers s.shop.couriers s.shop.active_orders
      s.shop.active_orders (ready_orders s.shop) (ready_orders s.shop) s.cook_naps s.courier_naps _
      v.courier asleep v.one (set_alone s.courier_naps v.nap awake asleep k v.his a)
      (
        ap (λ c. c.at) (single_get s.shop.couriers v.courier c k v.one g).1 ∙ l,
        p,
        inl (none_ready (placed s.shop) q),
      )
      v,
  w,
)
Delivery-Known {n} {s} k c g (Delivery.sets_off a l b r e) f (v, w) = subst (Known n) (sym e) (
  courier_changes n s.shop.cooks s.shop.couriers _ s.shop.active_orders s.shop.active_orders
      (ready_orders s.shop) (ready_orders s.shop) s.cook_naps s.courier_naps s.courier_naps _ awake
      (set_alone s.shop.couriers v.courier c _ k v.one g)
      (v.his ∙ ap (λ m. m ∷ []) (single_get s.courier_naps v.nap awake k v.his a).1) tt v,
  w,
)
Delivery-Known {n} {s} k c g (Delivery.delivers d a l b e) f (v, w) = subst (Known n) (sym e) (
  courier_changes n s.shop.cooks s.shop.couriers _ s.shop.active_orders s.shop.active_orders
      (ready_orders s.shop) (ready_orders s.shop) s.cook_naps s.courier_naps s.courier_naps _ awake
      (set_alone s.shop.couriers v.courier c _ k v.one g)
      (v.his ∙ ap (λ m. m ∷ []) (single_get s.courier_naps v.nap awake k v.his a).1) tt v,
  w,
)
Delivery-Known {n} {s} k c g (Delivery.signals d a l b z) f (v, w) =
    let same = (single_get s.shop.couriers v.courier c k v.one g).1 in
    SignalCompletion-Known z (
      courier_changes n s.shop.cooks s.shop.couriers s.shop.couriers s.shop.active_orders
          s.shop.active_orders (ready_orders s.shop) (ready_orders s.shop) s.cook_naps
          s.courier_naps _ c to_signal (v.one ∙ ap (λ c. c ∷ []) same)
          (set_alone s.courier_naps v.nap awake to_signal k v.his a) (d, l, b) v,
      w,
    )
Delivery-Known {n} {s} {t} k c g (Delivery.returns d a l b z) f (v, w) =
    let (after, same) =
      SignalDelivery-Inv z f.calm v.crew v.fits _ awake
        (set_alone s.shop.couriers v.courier c _ k v.one g)
        (set_alone s.courier_naps v.nap to_signal awake k v.his a) (inr tt) in
    let active = ap (λ shop. shop.active_orders) (SignalDelivery-shop z) in
    (
      after,
      subst (λ a. Someone a t.cook_naps) (sym active)
          (subst (Someone s.shop.active_orders) (sym same) w),
    )
