-- ===== src/Pide/Shop/Batch.antt =====
-- When all orders of a batch are delivered.
use cse_344_homeworks.Prelude.{
  ℕ, zero, suc, ◌+◌, ◌≤◌, ◌≡◌, refl, sym, ap, ◌∙◌, subst, [], ◌∷◌, ◌++◌, length, length-append,
  length-take, take, All, arith,
}
use cse_344_homeworks.Pide.Queue.{Order}
use cse_344_homeworks.Pide.Shop.{
  modify, preparing, baking, loading, away, Courier, Shop, placed, placed_over, handle_client,
  with_state, taken_by, cook_takes, cook_bakes, cook_finishes, courier_loads, courier_sets_off,
  courier_delivers, courier_returns,
}
use cse_344_homeworks.Pide.Shop.Runs.{
  Serve, client, takes, bakes, finishes, loads, sets_off, delivers, returns, checks, copies,
  new_courier, opening, FirstBatch, start, next,
}
use cse_344_homeworks.Pide.Shop.Orders.{first_in_state-state_at}
use cse_344_homeworks.Pide.Shop.Crew.{job_at-get, CrewInv, FirstBatch-CrewInv}
use cse_344_homeworks.Pide.Shop.Counts.{
  picked_up, picked_up-client, carried, carried-set, length-modify, roomy, length-roomy, take-roomy,
  left_loading, left_away, written, picked_up-length, All-picked_up,
}

-- The orders in state 4 are those delivered and those that couriers still carry; the array is long
-- enough.
pub record BatchInv (s : Shop) : Type 0 where
  pub delivered : picked_up (placed s) ≡ s.completed_orders + carried s.couriers
  pub within : s.total_orders ≤ length s.orders

client-BatchInv :
    (s : Shop) (junk : ℕ → Order) (order : Order)
    → BatchInv s
    → BatchInv (handle_client junk order s)
unfolding handle_client
client-BatchInv s junk order v =
    let n = s.total_orders in
    let more : suc n ≡ n + 1 = omega arith in
    let slots = roomy junk n s.orders in
    let same : picked_up (take (n + 1) (modify (placed_over order) n slots))
        ≡ picked_up (placed s) =
      ap (λ k. picked_up (take k (modify (placed_over order) n slots))) (sym more)
      ∙ picked_up-client (placed_over order) n slots (λ o. refl)
      ∙ ap picked_up (take-roomy junk n s.orders v.within) in
    record {
      delivered = same ∙ v.delivered;
      within =
          omega (
            arith,
            length-modify (placed_over order) n slots,
            length-roomy junk n s.orders v.within,
          );
    }

Serve-BatchInv : {s t : Shop} → Serve s t → CrewInv s.cooks (placed s) → BatchInv s → BatchInv t
unfolding cook_takes cook_bakes cook_finishes courier_loads courier_sets_off courier_delivers
    courier_returns
Serve-BatchInv {s} (client junk order e) w v =
    subst BatchInv (sym e) (client-BatchInv s junk order v)
Serve-BatchInv {s} (takes k i c a f e) w v =
    let known = first_in_state-state_at 0 (placed s) i f in
    let wrote = written (taken_by k) 1 0 s.total_orders i s.orders (λ o. refl) known in
    subst BatchInv (sym e) (record {
      delivered = omega (arith, v.delivered, wrote);
      within = omega (arith, v.within, length-modify (taken_by k) i s.orders);
    })
Serve-BatchInv {s} (bakes k i c a o e) w v =
    let known = w.fits k i 1 (job_at-get s.cooks k (preparing i) c) in
    let wrote = written (with_state 2) 2 1 s.total_orders i s.orders (λ o. refl) known in
    subst BatchInv (sym e) (record {
      delivered = omega (arith, v.delivered, wrote);
      within = omega (arith, v.within, length-modify (with_state 2) i s.orders);
    })
Serve-BatchInv {s} (finishes k i c e) w v =
    let known = w.fits k i 2 (job_at-get s.cooks k (baking i) c) in
    let wrote = written (with_state 3) 3 2 s.total_orders i s.orders (λ o. refl) known in
    subst BatchInv (sym e) (record {
      delivered = omega (arith, v.delivered, wrote);
      within = omega (arith, v.within, length-modify (with_state 3) i s.orders);
    })
Serve-BatchInv {s} (loads k i c order g l r a f h e) w v =
    let known = first_in_state-state_at 3 (placed s) i f in
    let wrote = written (with_state 4) 4 3 s.total_orders i s.orders (λ o. refl) known in
    let c' : Courier = record c {
      bag = c.bag ++ (with_state 4 order ∷ []);
      work_count = c.work_count + 1;
    } in
    subst BatchInv (sym e) (record {
      delivered = omega (
        arith,
        v.delivered,
        wrote,
        carried-set s.couriers k c c' g,
        left_loading c l,
        left_loading c' l,
        length-append c.bag (with_state 4 order ∷ []),
      );
      within = omega (arith, v.within, length-modify (with_state 4) i s.orders);
    })
Serve-BatchInv {s} (sets_off k c g l b r e) w v =
    let c' : Courier = record c { at = away 0 } in
    subst BatchInv (sym e) (record {
      delivered = omega (arith, v.delivered, carried-set s.couriers k c c' g, left_loading c l);
      within = v.within;
    })
Serve-BatchInv {s} (delivers k d c g l b e) w v =
    let c' : Courier = record c { at = away (d + 1); delivery_count = c.delivery_count + 1 } in
    subst BatchInv (sym e) (record {
      delivered = omega (arith, v.delivered, carried-set s.couriers k c c' g, left_away c d l, b);
      within = v.within;
    })
Serve-BatchInv {s} (returns k d c g l b e) w v =
    let c' : Courier = record c { at = loading; bag = [] } in
    subst BatchInv (sym e) (record {
      delivered = omega (arith, v.delivered, carried-set s.couriers k c c' g, left_away c d l, b);
      within = v.within;
    })
Serve-BatchInv (checks a b e) w v =
    subst BatchInv (sym e) (record { delivered = v.delivered; within = v.within })

carried-copies : (n : ℕ) → carried (copies n new_courier) ≡ 0
carried-copies zero = refl
carried-copies (suc n) = omega (arith, carried-copies n)

pub FirstBatch-Inv : {cooks couriers : ℕ} (s : Shop) → FirstBatch cooks couriers s → BatchInv s
unfolding opening
FirstBatch-Inv {couriers} s start = record {
  delivered = omega (arith, carried-copies couriers);
  within = omega arith;
}
FirstBatch-Inv s (next {s = r} b st) =
    Serve-BatchInv st (FirstBatch-CrewInv r b) (FirstBatch-Inv r b)

length-placed : (s : Shop) → BatchInv s → length (placed s) ≡ s.total_orders
length-placed s v = omega (arith, length-take s.total_orders s.orders, v.within)

-- In the first batch the array has a place for each order, and no more orders are completed than
-- were placed.
pub FirstBatch-bounded :
    {cooks couriers : ℕ} (s : Shop)
    → FirstBatch cooks couriers s
    → (s.total_orders ≤ length s.orders) × (s.completed_orders ≤ s.total_orders)
FirstBatch-bounded s b =
    let v = FirstBatch-Inv s b in
    (v.within, omega (arith, v.delivered, picked_up-length (placed s), length-placed s v))

-- When, in the first batch, the condition of the waits of `main` holds, that no fewer orders are
-- completed than were placed, then every order of the batch is in state 4, and no courier carries
-- an order that is not delivered.
pub FirstBatch-delivered :
    {cooks couriers : ℕ} (s : Shop)
    → FirstBatch cooks couriers s
    → s.total_orders ≤ s.completed_orders
    → All (λ o. o.state ≡ 4) (placed s) × (carried s.couriers ≡ 0)
FirstBatch-delivered s b h =
    let v = FirstBatch-Inv s b in
    let most = picked_up-length (placed s) in
    let all = length-placed s v in
    (
      All-picked_up (placed s) (omega (arith, v.delivered, all, h)),
      omega (arith, v.delivered, most, all, h),
    )
