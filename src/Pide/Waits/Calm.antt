-- ===== src/Pide/Waits/Calm.antt =====
-- final/server.c: what a signal, a wait and a section of a cook or a courier do to what is known of the
-- sleepers.
use cse_344_homeworks.Prelude.{
  ℕ, zero, suc, ◌≤◌, ◌<◌, ◌≡◌, ◌≢◌, ◌⊎◌, inl, inr, refl, sym, ◌∙◌, ap, subst, arith, List, [], ◌∷◌,
  some, get_elem?, set, All-get, some_injective, length, length-set, take,
}
use cse_344_homeworks.Pide.Queue.{Order}
use cse_344_homeworks.Pide.Shop.{
  Courier, Shop, placed, CookAt, idle, preparing, modify, oven_capacity,
}
use cse_344_homeworks.Pide.Shop.Orders.{state_at}
use cse_344_homeworks.Pide.Shop.Oven.{in_oven, orders_in_oven, OvenInv}
use cse_344_homeworks.Pide.Shop.Tally.{total_of, is_in, total_of-written}
use cse_344_homeworks.Pide.Signals.{
  Nap, awake, asleep, to_signal, Waits, second_wait, SignalOrder, SignalDelivery, SignalCompletion,
}
use cse_344_homeworks.Pide.Waits.Naps.{
  is_up, is_owing, naps_at, naps_at-set, naps_at-set_up, none_sleeps, CookFits, CookFits-set_nap,
  CookFits-set_cook, CourierFits, NapInv, Someone, ready_orders, InvOf,
}

-- A courier who does not sleep does not care for the orders.
pub careful_up :
    (a a' r r' o o' : ℕ) (c : Courier) (n : Nap)
    → n ≢ asleep
    → CourierFits a r o c n
    → CourierFits a' r' o' c n
careful_up a a' r r' o o' c awake u h = tt
careful_up a a' r r' o o' c asleep u h = absurd (u refl)
careful_up a a' r r' o o' c to_signal u h = h

pub careful_more :
    (a a' r o o' : ℕ) (c : Courier) (n : Nap)
    → a ≤ a'
    → o ≤ o'
    → CourierFits a r o c n
    → CourierFits a' r o' c n
careful_more a a' r o o' c awake p q h = tt
careful_more a a' r o o' c asleep p q (l, k, e) = (l, omega (arith, p, k), owed e)
  where
    owed : (r ≡ 0) ⊎ (0 < o) → (r ≡ 0) ⊎ (0 < o')
    owed (inl z) = inl z
    owed (inr w) = inr (omega (arith, q, w))
careful_more a a' r o o' c to_signal p q h = h

-- A cook falls asleep or wakes; the cooks who owe a signal stay the same.
pub nap_changes :
    (n : ℕ) (cs : List CookAt) (co : List Courier) (a r : ℕ) (ns ms : List Nap) (k : ℕ)
    (old new : Nap)
    → get_elem? ns k ≡ some old
    → is_owing old ≡ is_owing new
    → (new ≢ asleep) ⊎ (get_elem? cs k ≡ some idle)
    → NapInv n cs co a r ns ms
    → NapInv n cs co a r (set ns k new) ms
nap_changes n cs co a r ns ms k old new e w u v = record {
  crew = length-set ns k new ∙ v.crew;
  fits = CookFits-set_nap cs ns k new v.fits u;
  courier = v.courier;
  nap = v.nap;
  one = v.one;
  his = v.his;
  careful =
      careful_more a a r (naps_at is_owing ns) (naps_at is_owing (set ns k new)) v.courier v.nap
        (omega arith) (omega (arith, naps_at-set is_owing ns k old new e, w)) v.careful;
}

pub single_get {ℓ} :
    {A : Type ℓ} (xs : List A) (x y : A) (k : ℕ)
    → xs ≡ x ∷ []
    → get_elem? xs k ≡ some y
    → (k ≡ 0) × (x ≡ y)
single_get xs x y k e g = go k (subst (λ xs. get_elem? xs k ≡ some y) e g)
  where
    go : (k : ℕ) → get_elem? (x ∷ []) k ≡ some y → (k ≡ 0) × (x ≡ y)
    go zero g = (refl, some_injective g)
    go (suc k) g = ground (arith, g)

pub set_alone {ℓ} :
    {A : Type ℓ} (xs : List A) (x y z : A) (k : ℕ)
    → xs ≡ x ∷ []
    → get_elem? xs k ≡ some y
    → set xs k z ≡ z ∷ []
set_alone xs x y z k e g =
    ap (λ xs. set xs k z) e ∙ ap (λ k. set (x ∷ []) k z) (single_get xs x y k e g).0

-- The courier comes to another place.
pub courier_changes :
    (n : ℕ) (cs : List CookAt) (co co' : List Courier) (a a' r r' : ℕ) (ns ms ms' : List Nap)
    (c : Courier) (m : Nap)
    → co' ≡ c ∷ []
    → ms' ≡ m ∷ []
    → CourierFits a' r' (naps_at is_owing ns) c m
    → NapInv n cs co a r ns ms
    → NapInv n cs co' a' r' ns ms'
courier_changes n cs co co' a a' r r' ns ms ms' c m e f h v = record {
  crew = v.crew;
  fits = v.fits;
  courier = c;
  nap = m;
  one = e;
  his = f;
  careful = h;
}

pub SignalOrder-Inv :
    {n : ℕ} {s t : Waits}
    → SignalOrder s t
    → 0 < n
    → InvOf n s
    → InvOf n t × (0 < naps_at is_up t.cook_naps)
SignalOrder-Inv {n} {s} (SignalOrder.cook_wakes k a e) h v =
    subst (λ t. InvOf n t × (0 < naps_at is_up t.cook_naps)) (sym e)
      (
        nap_changes n s.shop.cooks s.shop.couriers s.shop.active_orders (ready_orders s.shop)
            s.cook_naps s.courier_naps k asleep awake a refl (inl (ground arith)) v,
        naps_at-set_up s.cook_naps k asleep awake a refl,
      )
SignalOrder-Inv {n} {s} (SignalOrder.no_cook a e) h v =
    subst (λ t. InvOf n t × (0 < naps_at is_up t.cook_naps)) (sym e)
      (v, none_sleeps s.cook_naps a (omega (arith, v.crew, h)))

-- A signal to the courier, from a state in which nothing is known of him if he sleeps.
pub SignalDelivery-Inv :
    {n : ℕ} {s t : Waits}
    → SignalDelivery s t
    → s.main_at ≢ second_wait
    → length s.cook_naps ≡ n
    → CookFits s.shop.cooks s.cook_naps
    → (c : Courier) (m : Nap) → s.shop.couriers ≡ c ∷ []
    → s.courier_naps ≡ m ∷ []
    → (m ≡ asleep) ⊎ CourierFits 0 0 0 c m
    → InvOf n t × (t.cook_naps ≡ s.cook_naps)
SignalDelivery-Inv {n} {s} (SignalDelivery.courier_wakes k a e) u crew fits c m one his h =
    subst (λ t. InvOf n t × (t.cook_naps ≡ s.cook_naps)) (sym e)
      (
        record {
          crew = crew;
          fits = fits;
          courier = c;
          nap = awake;
          one = one;
          his = set_alone s.courier_naps m asleep awake k his a;
          careful = tt;
        },
        refl,
      )
SignalDelivery-Inv (SignalDelivery.main_wakes a e) u crew fits c m one his h = absurd (u a)
SignalDelivery-Inv {n} {s} (SignalDelivery.nobody a b e) u crew fits c m one his h =
    let up : m ≢ asleep =
      All-get (λ n. n ≢ asleep) s.courier_naps 0 m a (ap (λ l. get_elem? l 0) his) in
    subst (λ t. InvOf n t × (t.cook_naps ≡ s.cook_naps)) (sym e)
      (
        record {
          crew = crew;
          fits = fits;
          courier = c;
          nap = m;
          one = one;
          his = his;
          careful = careful m up h;
        },
        refl,
      )
  where
    careful :
        (m : Nap)
        → m ≢ asleep
        → (m ≡ asleep) ⊎ CourierFits 0 0 0 c m
        → CourierFits s.shop.active_orders (ready_orders s.shop) (naps_at is_owing s.cook_naps) c m
    careful m u (inl e) = absurd (u e)
    careful m u (inr h) =
        careful_up 0 s.shop.active_orders 0 (ready_orders s.shop) 0 (naps_at is_owing s.cook_naps) c
          m u h

-- What is known as far as it matters if he does not sleep.
pub unless_asleep :
    (a r o : ℕ) (c : Courier) (m : Nap)
    → CourierFits a r o c m
    → (m ≡ asleep) ⊎ CourierFits 0 0 0 c m
unless_asleep a r o c awake h = inr tt
unless_asleep a r o c asleep h = inl refl
unless_asleep a r o c to_signal h = inr h

abbrev pub Known : ℕ → Waits → Type 0
Known n s = InvOf n s × Someone s.shop.active_orders s.cook_naps

pub SignalCompletion-Known : {n : ℕ} {s t : Waits} → SignalCompletion s t → Known n s → Known n t
SignalCompletion-Known {n} (SignalCompletion.main_wakes a e) v = subst (Known n) (sym e) v
SignalCompletion-Known {n} (SignalCompletion.completion_wakes a e) v = subst (Known n) (sym e) v
SignalCompletion-Known {n} (SignalCompletion.nobody a b e) v = subst (Known n) (sym e) v

-- A write to an order that leaves those in state 3 alone.
pub ready_same :
    (s : Shop) (f : Order → Order) (st old i : ℕ)
    → ((o : Order) → (f o).state ≡ st)
    → state_at (placed s) i ≡ some old
    → is_in 3 old ≡ is_in 3 st
    → total_of (is_in 3) (take s.total_orders (modify f i s.orders)) ≡ ready_orders s
ready_same s f st old i h known e =
    omega (arith, e, total_of-written (is_in 3) f st old s.total_orders i s.orders h known)

-- A cook who is not asleep comes to another place.
pub cook_changes :
    (n : ℕ) (cs : List CookAt) (co : List Courier) (a r r' : ℕ) (ns ms : List Nap) (k : ℕ)
    (new : CookAt) (m : Nap)
    → get_elem? ns k ≡ some m
    → m ≢ asleep
    → r' ≡ r
    → NapInv n cs co a r ns ms
    → NapInv n (set cs k new) co a r' ns ms
cook_changes n cs co a r r' ns ms k new m g u e v = record {
  crew = v.crew;
  fits = CookFits-set_cook cs ns k new m v.fits g (inl u);
  courier = v.courier;
  nap = v.nap;
  one = v.one;
  his = v.his;
  careful = subst (λ r. CourierFits a r (naps_at is_owing ns) v.courier v.nap) (sym e) v.careful;
}

-- At most three cooks never wait for the oven.
pub oven_free :
    (s : Shop) (k i : ℕ)
    → get_elem? s.cooks k ≡ some (preparing i)
    → length s.cooks ≤ 3
    → OvenInv s
    → (0 < s.apparatus_available) × (s.oven_occupancy ≢ oven_capacity)
oven_free s k i g h v =
    let some_left = fewer_in_oven s.cooks k i g in
    (omega (arith, some_left, v.counted, v.conserved, h), omega (arith, v.conserved))
  where
    in_oven_le : (cooks : List CookAt) → orders_in_oven cooks ≤ length cooks
    in_oven_le [] = omega arith
    in_oven_le (c ∷ cooks) = ground (arith, in_oven_le cooks)

    fewer_in_oven :
        (cooks : List CookAt) (k i : ℕ)
        → get_elem? cooks k ≡ some (preparing i)
        → orders_in_oven cooks < length cooks
    fewer_in_oven [] k i g = ground (arith, g)
    fewer_in_oven (c ∷ cooks) zero i g =
        let out : c ≡ preparing i = some_injective g in
        let none_in : in_oven c ≡ 0 = ap in_oven out in omega (arith, none_in, in_oven_le cooks)
    fewer_in_oven (c ∷ cooks) (suc k) i g = ground (arith, fewer_in_oven cooks k i g)
