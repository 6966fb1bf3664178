-- ===== src/Pide/Waits/CalmRuns.antt =====
-- final/server.c: with one courier and at most three cooks, and as long as `main` does not wait in
-- `wait_for_all_deliveries`, the first batch does not get stuck.
use cse_344_homeworks.Prelude.{
  ℕ, zero, suc, ◌≤◌, ◌<◌, ◌≡◌, ◌≢◌, inl, inr, refl, sym, ap, subst, arith, List, [], ◌∷◌, replicate,
  length, length-replicate,
}
use cse_344_homeworks.Pide.Shop.{Shop, CookAt, idle}
use cse_344_homeworks.Pide.Shop.Runs.{Serve, FirstBatch, opening, new_courier, copies}
use cse_344_homeworks.Pide.Shop.Oven.{FirstBatch-OvenInv}
use cse_344_homeworks.Pide.Shop.Crew.{FirstBatch-CrewInv}
use cse_344_homeworks.Pide.Shop.Batch.{FirstBatch-Inv}
use cse_344_homeworks.Pide.Signals.{Nap, awake, asleep, Waits, second_wait, resetting, opened}
use cse_344_homeworks.Pide.Waits.{Step, Client, Main, Completion, Move}
use cse_344_homeworks.Pide.Waits.Refine.{
  Serves, Cook-Serves, Delivery-Serves, Completion-Serves, SignalOrder-shop,
}
use cse_344_homeworks.Pide.Waits.Naps.{Calm, naps_at-set_up, CookFits, ready_orders, InvOf}
use cse_344_homeworks.Pide.Waits.Calm.{nap_changes, set_alone, courier_changes, Known}
use cse_344_homeworks.Pide.Waits.CalmSteps.{Facts, Client-Known, Cook-Known, Delivery-Known}

Main-Known : {n : ℕ} {s t : Waits} → Main s t → s.main_at ≢ resetting → Known n s → Known n t
Main-Known {n} (Main.waits a b e) u v = subst (Known n) (sym e) v
Main-Known {n} (Main.goes_on a b e) u v = subst (Known n) (sym e) v
Main-Known {n} (Main.waits_for_all a b e) u v = subst (Known n) (sym e) v
Main-Known {n} (Main.closes a b c e) u v = subst (Known n) (sym e) v
Main-Known (Main.resets a b e) u v = absurd (u a)

Completion-Known : {n : ℕ} {s t : Waits} → Completion s t → Known n s → Known n t
Completion-Known {n} (Completion.accepts a e) v = subst (Known n) (sym e) v
Completion-Known {n} (Completion.waits a b e) v = subst (Known n) (sym e) v
Completion-Known {n} (Completion.tells a b e) v = subst (Known n) (sym e) v

Move-Known :
    {n : ℕ} {s t : Waits} → Move s t → s.main_at ≢ resetting → Facts n s → Known n s → Known n t
Move-Known (Move.cook k st) u f v = Cook-Known k st f v
Move-Known (Move.courier k c g st) u f v = Delivery-Known k c g st f v
Move-Known (Move.main st) u f v = Main-Known st u v
Move-Known (Move.completion st) u f v = Completion-Known st v

Step-Known :
    {n : ℕ} {s t : Waits} → Step s t → s.main_at ≢ resetting → Facts n s → Known n s → Known n t
Step-Known (Step.arrives st) u f v = Client-Known st f v
Step-Known (Step.moves st) u f v = Move-Known st u f v
Step-Known {n} {s} (Step.cook_spurious k a e) u f (v, w) = subst (Known n) (sym e) (
  nap_changes n s.shop.cooks s.shop.couriers s.shop.active_orders (ready_orders s.shop) s.cook_naps
      s.courier_naps k asleep awake a refl (inl (ground arith)) v,
  inr (naps_at-set_up s.cook_naps k asleep awake a refl),
)
Step-Known {n} {s} (Step.courier_spurious k a e) u f (v, w) = subst (Known n) (sym e) (
  courier_changes n s.shop.cooks s.shop.couriers s.shop.couriers s.shop.active_orders
      s.shop.active_orders (ready_orders s.shop) (ready_orders s.shop) s.cook_naps s.courier_naps _
      v.courier awake v.one (set_alone s.courier_naps v.nap asleep awake k v.his a) tt v,
  w,
)
Step-Known {n} (Step.main_spurious a e) u f v = subst (Known n) (sym e) v
Step-Known {n} (Step.main_spurious' a e) u f v = subst (Known n) (sym e) v
Step-Known {n} (Step.completion_spurious a e) u f v = subst (Known n) (sym e) v

-- The shop of a calm run is in its first batch.
Main-Serves : {s t : Waits} → Main s t → s.main_at ≢ resetting → Serves s.shop t.shop
Main-Serves (Main.waits a b e) u = inl (ap (λ s. s.shop) e)
Main-Serves (Main.goes_on a b e) u = inl (ap (λ s. s.shop) e)
Main-Serves (Main.waits_for_all a b e) u = inl (ap (λ s. s.shop) e)
Main-Serves (Main.closes a b c e) u = inr (Serve.checks b c (ap (λ s. s.shop) e))
Main-Serves (Main.resets a b e) u = absurd (u a)

Step-Serves : {s t : Waits} → Step s t → s.main_at ≢ resetting → Serves s.shop t.shop
Step-Serves (Step.arrives (Client.client junk order g)) u =
    inr (Serve.client junk order (SignalOrder-shop g))
Step-Serves (Step.moves (Move.cook k st)) u = Cook-Serves k st
Step-Serves (Step.moves (Move.courier k c g st)) u = Delivery-Serves k c g st
Step-Serves (Step.moves (Move.main st)) u = Main-Serves st u
Step-Serves (Step.moves (Move.completion st)) u = Completion-Serves st
Step-Serves (Step.cook_spurious k a e) u = inl (ap (λ s. s.shop) e)
Step-Serves (Step.courier_spurious k a e) u = inl (ap (λ s. s.shop) e)
Step-Serves (Step.main_spurious a e) u = inl (ap (λ s. s.shop) e)
Step-Serves (Step.main_spurious' a e) u = inl (ap (λ s. s.shop) e)
Step-Serves (Step.completion_spurious a e) u = inl (ap (λ s. s.shop) e)

served :
    {cooks couriers : ℕ} (s t : Shop)
    → Serves s t
    → FirstBatch cooks couriers s
    → FirstBatch cooks couriers t
served {cooks} {couriers} s t (inl e) b = subst (λ u. FirstBatch cooks couriers u) (sym e) b
served s t (inr st) b = FirstBatch.next b st

pub Calm-FirstBatch : {n : ℕ} (s : Waits) → Calm n s → FirstBatch n 1 s.shop
unfolding opened
Calm-FirstBatch s Calm.start = FirstBatch.start
Calm-FirstBatch t (Calm.next {s} r st u w) =
    served s.shop t.shop (Step-Serves st w) (Calm-FirstBatch s r)

Calm-not_second : {n : ℕ} (s : Waits) → Calm n s → s.main_at ≢ second_wait
unfolding opened
Calm-not_second s Calm.start = ground arith
Calm-not_second t (Calm.next r st u w) = u

same_lengths : (cs : List CookAt) (ns : List Nap) → CookFits cs ns → length cs ≡ length ns
same_lengths [] [] h = refl
same_lengths [] (n ∷ ns) h = absurd h
same_lengths (c ∷ cs) [] h = absurd h
same_lengths (c ∷ cs) (n ∷ ns) h = ap suc (same_lengths cs ns h.1)

pub Calm-Facts : {n : ℕ} (s : Waits) → Calm n s → 0 < n → n ≤ 3 → InvOf n s → Facts n s
Calm-Facts {n} s r h k v =
    let b = Calm-FirstBatch s r in
    record {
      crew = FirstBatch-CrewInv s.shop b;
      batch = FirstBatch-Inv s.shop b;
      oven = FirstBatch-OvenInv s.shop b;
      small = omega (arith, same_lengths s.shop.cooks s.cook_naps v.fits, v.crew, k);
      some_cook = h;
      calm = Calm-not_second s r;
    }

fresh_crew : (n : ℕ) → CookFits (copies n idle) (replicate n awake)
fresh_crew zero = tt
fresh_crew (suc n) = (inl (ground arith), fresh_crew n)

pub Calm-Known : {n : ℕ} (s : Waits) → Calm n s → 0 < n → n ≤ 3 → Known n s
unfolding opened opening
Calm-Known {n} s Calm.start h k = (
  record {
    crew = length-replicate n awake;
    fits = fresh_crew n;
    courier = new_courier;
    nap = awake;
    one = refl;
    his = refl;
    careful = tt;
  },
  inl refl,
)
Calm-Known t (Calm.next {s} r st u w) h k =
    let known = Calm-Known s r h k in Step-Known st w (Calm-Facts s r h k known.0) known
