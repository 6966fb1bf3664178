-- ===== src/Pide/Waits/Tests.antt =====
-- final/server.c: a run with one order, one cook and one courier, after which `main` sleeps for ever.
use cse_344_homeworks.Prelude.{◌≢◌, refl, inl, inr, arith, List, [], ◌∷◌}
use cse_344_homeworks.Prelude.Int.{pos}
use cse_344_homeworks.Pide.Queue.{Order}
use cse_344_homeworks.Pide.Shop.{
  Shop, Courier, away, handle_client, cook_takes, cook_bakes, cook_finishes, courier_loads,
  courier_sets_off, courier_delivers, courier_returns, first_in_state, new_capacity,
  expand_order_array,
}
use cse_344_homeworks.Pide.Shop.Runs.{opening, new_courier}
use cse_344_homeworks.Pide.Signals.{
  Waits, NotAsleep, awake, to_signal, first_test, first_wait, second_wait, testing, waiting,
  accepting, opened, SignalOrder, SignalDelivery, SignalCompletion,
}
use cse_344_homeworks.Pide.Waits.{
  Client, Cook, Delivery, Main, Completion, Move, Moves, Step, Reach,
}
use cse_344_homeworks.Pide.Waits.Sleep.{Quiet, SleepsOn}
use cse_344_homeworks.Pide.Waits.Quiet.{sleeps_on}
use cse_344_homeworks.Pide.Waits.Naps.{Calm}
use cse_344_homeworks.Pide.Waits.Work.{CanWork}
use cse_344_homeworks.Pide.Waits.Progress.{one_courier_works}

abbrev order : Order
order = record {
  order_id = pos 1;
  customer_x = pos 3;
  customer_y = pos 4;
  state = 0;
  cook_id = pos 0;
  pid = pos 77;
}

abbrev bag : List Order
bag = record order { state = 4 } ∷ []

abbrev ready : Shop
unfolding opening handle_client cook_takes cook_bakes cook_finishes expand_order_array new_capacity
ready =
    cook_finishes 0 0
      (cook_bakes 0 0 (cook_takes 0 0 (handle_client (λ n. order) order (opening 1 1))))

abbrev delivered : Shop
unfolding courier_loads courier_sets_off courier_delivers courier_returns ready
delivered =
    let loaded : Courier = record new_courier { bag = bag; work_count = 1 } in
    courier_returns 0 (record loaded { at = away 1; delivery_count = 1 })
      (courier_delivers 0 (record loaded { at = away 0 }) 0
        (courier_sets_off 0 loaded
          (courier_loads 0 new_courier 0 (record order { state = 3 }) ready)))

abbrev main_sleeps : Waits
main_sleeps = record {
  shop = delivered;
  cook_naps = awake ∷ [];
  courier_naps = awake ∷ [];
  main_at = first_wait;
  completion_at = testing;
  told = 0;
}

awake_up : NotAsleep awake
awake_up = ground arith

to_signal_up : NotAsleep to_signal
to_signal_up = ground arith

first_not_second : first_wait ≢ second_wait
first_not_second = ground arith

abbrev at_ready : Waits
at_ready = record main_sleeps { shop = ready; completion_at = waiting }

at_ready-Reach : Reach 1 1 at_ready
unfolding opened opening handle_client cook_takes cook_bakes cook_finishes expand_order_array
    new_capacity ready first_in_state
at_ready-Reach =
    let ordered =
      Reach.next Reach.start (
        Step.arrives
          (Client.client (λ n. order) order (SignalOrder.no_cook (awake_up, tt) refl))) in
    let main_waits =
      Reach.next ordered (Step.moves (Move.main (Main.waits refl (omega arith) refl))) in
    let connected =
      Reach.next main_waits (Step.moves (Move.completion (Completion.accepts refl refl))) in
    let told_later =
      Reach.next connected
        (Step.moves (Move.completion (Completion.waits refl (omega arith) refl))) in
    let taken =
      Reach.next told_later
        (Step.moves (Move.cook 0 (Cook.takes 0 refl refl (omega arith) refl refl))) in
    let baking =
      Reach.next taken
        (Step.moves (Move.cook 0 (Cook.bakes 0 refl refl (omega arith) (omega arith) refl))) in
    let baked = Reach.next baking (
      Step.moves
        (Move.cook 0 (Cook.finishes 0 refl (SignalOrder.no_cook (to_signal_up, tt) refl)))) in
    Reach.next baked (
      Step.moves (
        Move.cook 0
          (Cook.signals refl (SignalDelivery.nobody (awake_up, tt) first_not_second refl))))

abbrev bagged : Courier
bagged = record new_courier { bag = bag; work_count = 1 }

-- The courier's signal wakes the completion thread, not `main`.
main_sleeps-Reach : Reach 1 1 main_sleeps
unfolding opening handle_client cook_takes cook_bakes cook_finishes expand_order_array new_capacity
    ready first_in_state courier_loads courier_sets_off courier_delivers courier_returns delivered
main_sleeps-Reach =
    let loaded = Reach.next at_ready-Reach (
      Step.moves (
        Move.courier 0 new_courier refl (
          Delivery.loads 0 (record order { state = 3 }) refl refl refl (omega arith) refl refl
            refl))) in
    let away_now = Reach.next loaded (
      Step.moves
        (Move.courier 0 bagged refl (Delivery.sets_off refl refl (omega arith) (inr refl) refl))) in
    let arrived = Reach.next away_now (
      Step.moves (
        Move.courier 0 (record bagged { at = away 0 }) refl
          (Delivery.delivers 0 refl refl (omega arith) refl))) in
    let at_end : Courier = record bagged { at = away 1; delivery_count = 1 } in
    let signalled = Reach.next arrived (
      Step.moves (
        Move.courier 0 at_end refl (
          Delivery.signals 1 refl refl (omega arith)
            (SignalCompletion.completion_wakes refl refl)))) in
    Reach.next signalled (
      Step.moves (
        Move.courier 0 at_end refl (
          Delivery.returns 1 refl refl (omega arith)
            (SignalDelivery.nobody (awake_up, tt) first_not_second refl))))

main_sleeps-Quiet : Quiet main_sleeps
unfolding opening handle_client cook_takes cook_bakes cook_finishes courier_loads courier_sets_off
    courier_delivers courier_returns delivered ready expand_order_array new_capacity
main_sleeps-Quiet = record {
  cooks = (refl, tt);
  cook_naps = (ground arith, tt);
  no_new = inl refl;
  couriers = ((refl, inr (refl, refl)), tt);
  no_ready = inl refl;
}

-- The client is told that its orders are completed, and `main` accepts no client any more.
abbrev client_told : Waits
client_told = record main_sleeps { completion_at = accepting; told = 1 }

sleeps_on_example : Quiet client_told × SleepsOn main_sleeps client_told
unfolding delivered
sleeps_on_example = sleeps_on main_sleeps-Quiet (Moves.next Moves.here told)
  where
    told : Move main_sleeps client_told
    told = Move.completion (Completion.tells refl (omega arith) refl)

-- One order has come, and everybody is awake.
abbrev ordered : Waits
unfolding opening handle_client expand_order_array new_capacity
ordered = record main_sleeps {
  shop = handle_client (λ n. order) order (opening 1 1);
  main_at = first_test;
  completion_at = accepting;
}

ordered-Calm : Calm 1 ordered
unfolding opened opening handle_client expand_order_array new_capacity
ordered-Calm =
    Calm.next Calm.start
      (Step.arrives (Client.client (λ n. order) order (SignalOrder.no_cook (awake_up, tt) refl)))
      (ground arith) (ground arith)

one_courier_works_example : CanWork ordered
unfolding opening handle_client expand_order_array new_capacity
one_courier_works_example =
    one_courier_works ordered ordered-Calm (omega arith) (omega arith) (omega arith)
