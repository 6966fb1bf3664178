-- ===== src/Pide/Tests.antt =====
-- final/server.c: an order from the client to the door, and the queue, with the theorems about them.
use cse_344_homeworks.Prelude.{
  ℕ, ◌+◌, ◌≤◌, ◌<◌, ◌≡◌, refl, List, [], ◌∷◌, none, some, length, All, arith, inr,
}
use cse_344_homeworks.Prelude.Int.{pos, negsuc}
use cse_344_homeworks.Pide.Queue.{
  Order, Heap, Queue, free, init_queue, enqueue, Dequeued, dequeue, get_queue_size,
}
use cse_344_homeworks.Pide.Queue.Calls.{Called, orders_of, Gives, Frees, queue_in_order}
use cse_344_homeworks.Pide.Shop.{
  Shop, Courier, away, handle_client, cook_takes, cook_bakes, cook_finishes, courier_loads,
  courier_sets_off, courier_delivers, expand_order_array, new_capacity, oven_capacity, apparatus,
  placed, first_in_state,
}
use cse_344_homeworks.Pide.Shop.Runs.{
  new_courier, client, takes, bakes, finishes, loads, sets_off, delivers, serves, opening, Reach,
  FirstBatch, start, next,
}
use cse_344_homeworks.Pide.Shop.Oven.{orders_in_oven, Reach-OvenInv}
use cse_344_homeworks.Pide.Shop.Crew.{CrewInv, FirstBatch-CrewInv}
use cse_344_homeworks.Pide.Shop.Counts.{carried}
use cse_344_homeworks.Pide.Shop.Batch.{FirstBatch-bounded, FirstBatch-delivered}
use cse_344_homeworks.Pide.Statistics.{IsBusiest, busiest_cook, busiest_cook-IsBusiest}

abbrev order : Order
order = record {
  order_id = pos 1;
  customer_x = pos 3;
  customer_y = pos 4;
  state = 0;
  cook_id = pos 0;
  pid = pos 77;
}

abbrev later_order : Order
later_order = record order { order_id = pos 2 }

-- The queue.
abbrev empty_queue : Heap × Queue
unfolding init_queue
empty_queue = (λ a. none, init_queue)

abbrev two_orders : Heap × Queue
unfolding enqueue
two_orders = enqueue 8 later_order (enqueue 5 order empty_queue)

-- `dequeue` takes the order that went in first.
abbrev one_order : Heap × Queue
unfolding two_orders enqueue init_queue empty_queue
one_order = (free 5 two_orders.0, record { front = some 8; rear = some 8; count = 1 })

one_order-Called : Called (order ∷ later_order ∷ []) (order ∷ []) one_order
unfolding enqueue init_queue empty_queue two_orders dequeue
one_order-Called =
    Called.dequeues order
      (Called.enqueues 8 later_order (Called.enqueues 5 order (Called.start (λ a. none)) refl) refl)
      refl

queue_in_order_example :
    (kept : List (ℕ × Order)) × ((order ∷ later_order ∷ []) ≡ order ∷ orders_of kept)
    × Gives kept one_order
    × (get_queue_size one_order.1 + 1 ≡ 2)
    × Frees 8 kept one_order
queue_in_order_example = queue_in_order one_order 8 one_order-Called

-- `handle_client_queue` waits in an empty queue.
idle_queue : dequeue empty_queue ≡ Dequeued.waiting
unfolding dequeue init_queue empty_queue
idle_queue = refl

-- One order, one cook and one courier.
abbrev ordered : Shop
unfolding handle_client opening
ordered = handle_client (λ n. order) order (opening 1 1)

abbrev in_preparation : Shop
unfolding cook_takes ordered
in_preparation = cook_takes 0 0 ordered

abbrev in_the_oven : Shop
unfolding cook_bakes
in_the_oven = cook_bakes 0 0 in_preparation

abbrev ready : Shop
unfolding cook_finishes
ready = cook_finishes 0 0 in_the_oven

abbrev ready_order : Order
ready_order = record order { state = 3 }

abbrev in_the_bag : Shop
unfolding courier_loads
in_the_bag = courier_loads 0 new_courier 0 ready_order ready

abbrev with_bag : Courier
with_bag = record new_courier { bag = record order { state = 4 } ∷ []; work_count = 1 }

abbrev on_the_way : Shop
unfolding courier_sets_off
on_the_way = courier_sets_off 0 with_bag in_the_bag

at_the_oven : FirstBatch 1 1 in_the_oven
unfolding handle_client opening cook_takes cook_bakes first_in_state new_capacity
at_the_oven =
    next
      (next (next start (client (λ n. order) order refl)) (takes 0 0 refl (omega arith) refl refl))
      (bakes 0 0 refl (omega arith) (omega arith) refl)

Reach-OvenInv_example :
    (in_the_oven.oven_occupancy ≡ orders_in_oven in_the_oven.cooks)
    × (in_the_oven.oven_occupancy + in_the_oven.apparatus_available ≡ apparatus)
    × (in_the_oven.oven_occupancy < oven_capacity)
Reach-OvenInv_example = Reach-OvenInv in_the_oven (first_batch at_the_oven)
  where
    first_batch : {s : Shop} → FirstBatch 1 1 s → Reach 1 1 s
    first_batch start = start
    first_batch (next b st) = next (first_batch b) (serves st)

FirstBatch-CrewInv_example : CrewInv in_the_oven.cooks (placed in_the_oven)
FirstBatch-CrewInv_example = FirstBatch-CrewInv in_the_oven at_the_oven

FirstBatch-bounded_example :
    (in_the_oven.total_orders ≤ length in_the_oven.orders)
    × (in_the_oven.completed_orders ≤ in_the_oven.total_orders)
FirstBatch-bounded_example = FirstBatch-bounded in_the_oven at_the_oven

abbrev at_the_door : Shop
unfolding courier_delivers on_the_way
at_the_door = courier_delivers 0 (record with_bag { at = away 0 }) 0 on_the_way

delivered_run : FirstBatch 1 1 at_the_door
unfolding handle_client opening cook_takes cook_bakes cook_finishes courier_loads courier_sets_off
    courier_delivers first_in_state new_capacity expand_order_array ordered in_preparation
    in_the_oven ready in_the_bag on_the_way at_the_door
delivered_run =
    next
      (next
        (next (next at_the_oven (finishes 0 0 refl refl))
          (loads 0 0 new_courier ready_order refl refl refl (omega arith) refl refl refl))
        (sets_off 0 with_bag refl refl (omega arith) (inr refl) refl))
      (delivers 0 0 (record with_bag { at = away 0 }) refl refl (omega arith) refl)

FirstBatch-delivered_example :
    All (λ o. o.state ≡ 4) (placed at_the_door) × (carried at_the_door.couriers ≡ 0)
unfolding at_the_door in_the_bag ready in_the_oven in_preparation
FirstBatch-delivered_example = FirstBatch-delivered at_the_door delivered_run (omega arith)

second_cook_wins :
    IsBusiest (2 ∷ 5 ∷ 1 ∷ []) 0 (0, negsuc 0) (busiest_cook (2 ∷ 5 ∷ 1 ∷ []) 0 (0, negsuc 0))
second_cook_wins = busiest_cook-IsBusiest (2 ∷ 5 ∷ 1 ∷ [])
