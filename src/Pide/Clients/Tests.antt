-- ===== src/Pide/Clients/Tests.antt =====
-- final/server.c: threads of `handle_client_queue` that wait, and one that has an order.
use cse_344_homeworks.Prelude.{◌≡◌, refl, [], ◌∷◌, ◌++◌, none, some, get_elem?, length, All, arith}
use cse_344_homeworks.Prelude.Int.{pos, negsuc}
use cse_344_homeworks.Pide.Queue.{Order, init_queue, enqueue, get_queue_size}
use cse_344_homeworks.Pide.Shop.{expand_order_array, new_capacity}
use cse_344_homeworks.Pide.Clients.{
  QueueThread, dequeuing, Clients, opening, start_thread, takes_order, puts_in, takes_out,
  puts_back, check_and_expand_order_array, starts, start, next, close_socket, cleanup,
}
use cse_344_homeworks.Pide.Clients.Idle.{WaitsIn, queues_stay_empty}

abbrev order : Order
order = record {
  order_id = pos 1;
  customer_x = pos 3;
  customer_y = pos 4;
  state = 0;
  cook_id = pos 0;
  pid = pos 77;
}

abbrev one_thread : Clients
one_thread = start_thread opening

queues_stay_empty_example :
    All (λ q. q ≡ init_queue) one_thread.client_queues
    × All (WaitsIn one_thread) one_thread.threads
    × (check_and_expand_order_array (λ n. order) one_thread.client_queues one_thread.orders
        ≡ one_thread.orders)
    × (cleanup (pos 4) (negsuc 0) one_thread
        ≡ some (one_thread.heap, close_socket (pos 4) ++ close_socket (negsuc 0)))
unfolding start_thread opening
queues_stay_empty_example =
    queues_stay_empty one_thread (λ n. order) (pos 4) (negsuc 0) (next start (starts refl))
      (omega arith)

-- Were there an order in the queue, the thread would bake it and put it back.
abbrev thread : QueueThread
thread = record { client_index = 0; at = dequeuing }

abbrev after_round : Clients
after_round =
    let s0 = takes_order 0 thread order ((λ a. none), init_queue) (start_thread opening) in
    let s1 = puts_in 0 thread order s0 in
    let s2 = takes_out 0 thread (record order { state = 2 }) s1 in
    puts_back 9 0 thread (record order { state = 3 }) init_queue s2

round_puts_back :
    (get_elem? after_round.client_queues 0
      ≡ some (record { front = some 9; rear = some 9; count = 1 }))
    × (after_round.heap 9 ≡ some (record { order = record order { state = 3 }; next = none }))
    × (after_round.apparatus_available ≡ 3)
unfolding opening start_thread takes_order puts_in takes_out puts_back enqueue init_queue
round_puts_back = (refl, refl, refl)

-- An array of one order, and a queue of two.
expanded :
    length (
      check_and_expand_order_array
        (λ n. order)
        (record { front = some 1; rear = some 2; count = 2 } ∷ [])
        (order ∷ []))
    ≡ 2
unfolding check_and_expand_order_array expand_order_array new_capacity get_queue_size
expanded = refl
