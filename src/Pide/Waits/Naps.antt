-- ===== src/Pide/Waits/Naps.antt =====
-- final/server.c: the first batch with one courier and at most three cooks, without a race for
-- `active_orders`, as long as `main` has not gone into the wait of `wait_for_all_deliveries`: who sleeps, and who will wake him.
use cse_344_homeworks.Prelude.{
  ℕ, zero, suc, ◌+◌, ◌≤◌, ◌<◌, ◌≡◌, ◌≢◌, ◌⊎◌, inl, inr, refl, sym, ap, subst, arith, List, [], ◌∷◌,
  none, some, get_elem?, set, All, some_injective, length,
}
use cse_344_homeworks.Pide.Shop.{Courier, Shop, placed, CookAt, idle, loading, away}
use cse_344_homeworks.Pide.Shop.Tally.{total_of, is_in}
use cse_344_homeworks.Pide.Signals.{
  Nap, awake, asleep, to_signal, Waits, second_wait, resetting, opened,
}
use cse_344_homeworks.Pide.Waits.{Step}

pub data Calm (cooks : ℕ) : Waits → Type 0 where
  start : Calm cooks (opened cooks 1)
  next :
      {s t : Waits}
      → Calm cooks s
      → Step s t
      → t.main_at ≢ second_wait
      → s.main_at ≢ resetting
      → Calm cooks t

abbrev pub is_up : Nap → ℕ
is_up n = elim n [ awake ↦ 1 | asleep ↦ 0 | to_signal ↦ 1 ]

abbrev pub is_owing : Nap → ℕ
is_owing n = elim n [ awake ↦ 0 | asleep ↦ 0 | to_signal ↦ 1 ]

abbrev pub naps_at : (Nap → ℕ) → List Nap → ℕ
naps_at w [] = 0
naps_at w (n ∷ ns) = w n + naps_at w ns

pub naps_at-set :
    (w : Nap → ℕ) (ns : List Nap) (k : ℕ) (old new : Nap)
    → get_elem? ns k ≡ some old
    → naps_at w (set ns k new) + w old ≡ naps_at w ns + w new
naps_at-set w [] k old new e = ground (arith, e)
naps_at-set w (n ∷ ns) zero old new e =
    let was : w n ≡ w old = ap (λ o. elim o [ none ↦ 0 | some d ↦ w d ]) e in omega (arith, was)
naps_at-set w (n ∷ ns) (suc k) old new e = omega (arith, naps_at-set w ns k old new e)

pub naps_at-set_owing :
    (ns : List Nap) (k : ℕ) (old : Nap)
    → get_elem? ns k ≡ some old
    → 0 < naps_at is_owing (set ns k to_signal)
naps_at-set_owing [] k old e = ground (arith, e)
naps_at-set_owing (n ∷ ns) zero old e = omega arith
naps_at-set_owing (n ∷ ns) (suc k) old e = omega (arith, naps_at-set_owing ns k old e)

pub naps_at-set_up :
    (ns : List Nap) (k : ℕ) (old new : Nap)
    → get_elem? ns k ≡ some old
    → is_up new ≡ 1
    → 0 < naps_at is_up (set ns k new)
naps_at-set_up [] k old new e h = ground (arith, e)
naps_at-set_up (n ∷ ns) zero old new e h = omega (arith, h)
naps_at-set_up (n ∷ ns) (suc k) old new e h = omega (arith, naps_at-set_up ns k old new e h)

pub none_sleeps : (ns : List Nap) → All (λ n. n ≢ asleep) ns → 0 < length ns → 0 < naps_at is_up ns
none_sleeps [] h k = absurd (omega arith)
none_sleeps (awake ∷ ns) h k = omega arith
none_sleeps (asleep ∷ ns) h k = absurd (h.0 refl)
none_sleeps (to_signal ∷ ns) h k = omega arith

-- Each cook has a nap, and one who sleeps has no order.
abbrev pub CookFits : List CookAt → List Nap → Type 0
CookFits (c ∷ cs) (n ∷ ns) = ((n ≢ asleep) ⊎ (c ≡ idle)) × CookFits cs ns
CookFits [] [] = Unit
CookFits _ _ = ⊥

pub CookFits-get :
    (cs : List CookAt) (ns : List Nap) (k : ℕ) (c : CookAt)
    → CookFits cs ns
    → get_elem? cs k ≡ some c
    → (n : Nap) × (get_elem? ns k ≡ some n) × ((n ≢ asleep) ⊎ (c ≡ idle))
CookFits-get [] ns k c h e = ground (arith, e)
CookFits-get (c' ∷ cs) [] k c h e = absurd h
CookFits-get (c' ∷ cs) (n ∷ ns) zero c h e =
    (n, refl, subst (λ c. (n ≢ asleep) ⊎ (c ≡ idle)) (some_injective e) h.0)
CookFits-get (c' ∷ cs) (n ∷ ns) (suc k) c h e = CookFits-get cs ns k c h.1 e

pub CookFits-set_nap :
    (cs : List CookAt) (ns : List Nap) (k : ℕ) (n : Nap)
    → CookFits cs ns
    → (n ≢ asleep) ⊎ (get_elem? cs k ≡ some idle)
    → CookFits cs (set ns k n)
CookFits-set_nap [] [] k n h e = tt
CookFits-set_nap [] (n' ∷ ns) k n h e = absurd h
CookFits-set_nap (c ∷ cs) [] k n h e = absurd h
CookFits-set_nap (c ∷ cs) (n' ∷ ns) zero n h (inl u) = (inl u, h.1)
CookFits-set_nap (c ∷ cs) (n' ∷ ns) zero n h (inr e) = (inr (some_injective e), h.1)
CookFits-set_nap (c ∷ cs) (n' ∷ ns) (suc k) n h e = (h.0, CookFits-set_nap cs ns k n h.1 e)

pub CookFits-set_cook :
    (cs : List CookAt) (ns : List Nap) (k : ℕ) (c : CookAt) (n : Nap)
    → CookFits cs ns
    → get_elem? ns k ≡ some n
    → (n ≢ asleep) ⊎ (c ≡ idle)
    → CookFits (set cs k c) ns
CookFits-set_cook [] [] k c n h e u = tt
CookFits-set_cook [] (n' ∷ ns) k c n h e u = absurd h
CookFits-set_cook (c' ∷ cs) [] k c n h e u = absurd h
CookFits-set_cook (c' ∷ cs) (n' ∷ ns) zero c n h e u =
    (subst (λ n. (n ≢ asleep) ⊎ (c ≡ idle)) (sym (some_injective e)) u, h.1)
CookFits-set_cook (c' ∷ cs) (n' ∷ ns) (suc k) c n h e u =
    (h.0, CookFits-set_cook cs ns k c n h.1 e u)

-- A courier who sleeps waits for an order that no cook has finished, or a cook is about to signal;
-- `ready` is the number of orders in state 3, `owing` that of these cooks.
abbrev pub CourierFits : (active ready owing : ℕ) → Courier → Nap → Type 0
CourierFits active ready owing c n = elim n [
  | awake ↦ Unit
  | asleep ↦ (c.at ≡ loading) × (0 < active) × ((ready ≡ 0) ⊎ (0 < owing))
  | to_signal ↦ (d : ℕ) × (c.at ≡ away d) × (length c.bag ≤ d)
]

pub record NapInv (n : ℕ) (cooks : List CookAt) (couriers : List Courier) (active ready : ℕ)
    (cook_naps courier_naps : List Nap) : Type 0 where
  pub crew : length cook_naps ≡ n
  pub fits : CookFits cooks cook_naps
  pub courier : Courier
  pub nap : Nap
  pub one : couriers ≡ courier ∷ []
  pub his : courier_naps ≡ nap ∷ []
  pub careful : CourierFits active ready (naps_at is_owing cook_naps) courier nap

-- With an active order some cook is not asleep.
abbrev pub Someone : ℕ → List Nap → Type 0
Someone active naps = (active ≡ 0) ⊎ (0 < naps_at is_up naps)

abbrev pub ready_orders : Shop → ℕ
ready_orders s = total_of (is_in 3) (placed s)

abbrev pub InvOf : ℕ → Waits → Type 0
InvOf n s =
    NapInv n s.shop.cooks s.shop.couriers s.shop.active_orders (ready_orders s.shop) s.cook_naps
      s.courier_naps
