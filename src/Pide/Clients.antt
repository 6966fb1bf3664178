-- ===== src/Pide/Clients.antt =====
-- final/server.c: the queues of the clients, the threads of `handle_client_queue`, of which `main`
-- starts one for each batch, and what else `main` does with the queues: `check_and_expand_order_array`
-- and `cleanup`. A thread whose index lies behind the array of queues takes no step here: what it does is
-- undefined, and nothing is claimed of more than `max_clients` batches.
pub mod Idle
mod Tests
use cse_344_homeworks.Prelude.{
  ℕ, zero, suc, ◌+◌, ◌-◌, ◌<◌, ◌≡◌, ◌≢◌, Bool, List, [], ◌∷◌, ◌++◌, Option, none, some, ltb, length,
  get_elem?, set, replicate, if◌then◌else◌,
}
use cse_344_homeworks.Prelude.Int.{ℤ, negsuc, eq_ℤ}
use cse_344_homeworks.Pide.Queue.{
  Order, Heap, Queue, init_queue, enqueue, Dequeued, dequeue, free_queue, get_queue_size,
}
use cse_344_homeworks.Pide.Shop.{expand_order_array, with_state, oven_capacity, apparatus}

abbrev pub max_clients : ℕ
max_clients = 100

-- In `dequeue`, or with an order that is being prepared, is in the oven, or has been baked.
pub data QueueThreadAt : Type 0 where
  dequeuing : QueueThreadAt
  preparing : Order → QueueThreadAt
  baking : Order → QueueThreadAt
  baked : Order → QueueThreadAt

pub record QueueThread : Type 0 where
  pub client_index : ℕ
  pub at : QueueThreadAt

pub record Clients : Type 0 where
  pub heap : Heap
  pub client_queues : List Queue
  pub client_count : ℕ
  pub threads : List QueueThread
  pub orders : List Order
  pub apparatus_available : ℕ
  pub oven_occupancy : ℕ

-- `main`, before its loop.
unfoldable pub opening : Clients
unfolding init_queue
opening = record {
  heap = λ a. none;
  client_queues = replicate max_clients init_queue;
  client_count = 0;
  threads = [];
  orders = [];
  apparatus_available = apparatus;
  oven_occupancy = 0;
}

-- `main`, a batch: the thread of the next client index.
unfoldable pub start_thread : Clients → Clients
start_thread s = record s {
  client_count = s.client_count + 1;
  threads = s.threads ++ (record { client_index = s.client_count; at = dequeuing } ∷ []);
}

-- `handle_client_queue`, its four sections, for thread k.
unfoldable pub takes_order : ℕ → QueueThread → Order → Heap × Queue → Clients → Clients
takes_order k th order (heap', q') s = record s {
  heap = heap';
  client_queues = set s.client_queues th.client_index q';
  threads = set s.threads k (record th { at = preparing order });
}

unfoldable pub puts_in : ℕ → QueueThread → Order → Clients → Clients
puts_in k th order s = record s {
  apparatus_available = s.apparatus_available - 1;
  oven_occupancy = s.oven_occupancy + 1;
  threads = set s.threads k (record th { at = baking (with_state 2 order) });
}

unfoldable pub takes_out : ℕ → QueueThread → Order → Clients → Clients
takes_out k th order s = record s {
  apparatus_available = s.apparatus_available + 1;
  oven_occupancy = s.oven_occupancy - 1;
  threads = set s.threads k (record th { at = baked (with_state 3 order) });
}

unfoldable pub puts_back : (temp : ℕ) → ℕ → QueueThread → Order → Queue → Clients → Clients
unfolding enqueue
puts_back temp k th order q s =
    let (heap', q') = enqueue temp order (s.heap, q) in
    record s {
      heap = heap';
      client_queues = set s.client_queues th.client_index q';
      threads = set s.threads k (record th { at = dequeuing });
    }

-- The loop of `check_and_expand_order_array`.
unfoldable pub check_and_expand_order_array : (ℕ → Order) → List Queue → List Order → List Order
unfolding expand_order_array get_queue_size
check_and_expand_order_array junk [] orders = orders
check_and_expand_order_array junk (q ∷ qs) orders =
    let orders' =
      if ltb (length orders) (get_queue_size q) then expand_order_array junk orders else orders in
    check_and_expand_order_array junk qs orders'

-- All steps. `others` is what clients, cooks and couriers do to the state that is shared with them.
pub data Step (s t : Clients) : Type 0 where
  starts : t ≡ start_thread s → Step s t
  checks :
      (junk : ℕ → Order)
      → t ≡ record s { orders = check_and_expand_order_array junk s.client_queues s.orders }
      → Step s t
  takes :
      (k : ℕ) (th : QueueThread) (q : Queue) (order : Order) (rest : Heap × Queue)
      → get_elem? s.threads k ≡ some th
      → th.at ≡ dequeuing
      → get_elem? s.client_queues th.client_index ≡ some q
      → dequeue (s.heap, q) ≡ Dequeued.taken order rest
      → t ≡ takes_order k th order rest s
      → Step s t
  bakes :
      (k : ℕ) (th : QueueThread) (order : Order)
      → get_elem? s.threads k ≡ some th
      → th.at ≡ preparing order
      → 0 < s.apparatus_available
      → s.oven_occupancy ≢ oven_capacity
      → t ≡ puts_in k th order s
      → Step s t
  finishes :
      (k : ℕ) (th : QueueThread) (order : Order)
      → get_elem? s.threads k ≡ some th
      → th.at ≡ baking order
      → t ≡ takes_out k th order s
      → Step s t
  delivers :
      (temp k : ℕ) (th : QueueThread) (order : Order) (q : Queue)
      → get_elem? s.threads k ≡ some th
      → th.at ≡ baked order
      → get_elem? s.client_queues th.client_index ≡ some q
      → t ≡ puts_back temp k th order q s
      → Step s t
  others :
      (orders : List Order) (apparatus oven : ℕ)
      → t ≡ record s { orders = orders; apparatus_available = apparatus; oven_occupancy = oven }
      → Step s t

pub data Reach : Clients → Type 0 where
  start : Reach opening
  next : {s t : Clients} → Reach s → Step s t → Reach t

-- The loop of `cleanup` over the queues; `none` is a read of memory that is not allocated.
unfoldable pub free_queues : List Queue → Heap → Option Heap
unfolding free_queue get_queue_size
free_queues [] heap = some heap
free_queues (q ∷ qs) heap = elim (free_queue (get_queue_size q) (heap, q)) [
  | none ↦ none
  | some s ↦ free_queues qs s.0
]

-- if (socket != -1) close(socket);
abbrev pub close_socket : ℤ → List ℤ
close_socket socket = if eq_ℤ socket (negsuc 0) then [] else socket ∷ []

-- The heap of the nodes, and the sockets that are closed.
unfoldable pub cleanup : (status_socket completion_socket : ℤ) → Clients → Option (Heap × List ℤ)
unfolding free_queues
cleanup status_socket completion_socket s = elim (free_queues s.client_queues s.heap) [
  | none ↦ none
  | some heap' ↦ some (heap', close_socket status_socket ++ close_socket completion_socket)
]
