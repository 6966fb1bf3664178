-- ===== src/Pide/Clients/Idle.antt =====
-- final/server.c: no order ever comes into the queue of a client.
use cse_344_homeworks.Prelude.{
  ℕ, zero, suc, ◌+◌, ◌<◌, ◌≤◌, ◌≡◌, refl, sym, ap, subst, arith, false, List, [], ◌∷◌, ◌++◌, some,
  ltb, length, All-get, All-append, replicate, All, get_elem?, length-replicate,
}
use cse_344_homeworks.Prelude.Int.{ℤ}
use cse_344_homeworks.Pide.Queue.{
  Order, Heap, Queue, init_queue, Dequeued, dequeue, free_queue, free_nodes, get_queue_size,
}
use cse_344_homeworks.Pide.Clients.{
  max_clients, dequeuing, QueueThread, Clients, opening, start_thread, check_and_expand_order_array,
  Step, starts, checks, takes, bakes, finishes, delivers, others, Reach, start, next, free_queues,
  close_socket, cleanup,
}

abbrev IsDequeuing : QueueThread → Type 0
IsDequeuing th = th.at ≡ dequeuing

-- All queues are as `init_queue` left them, and all threads wait in `dequeue`; each has the index of a
-- batch.
pub record IsIdle (s : Clients) : Type 0 where
  pub queues : All (λ q. q ≡ init_queue) s.client_queues
  pub threads : All (λ th. th.at ≡ dequeuing) s.threads
  pub indexed : All (λ th. th.client_index < s.client_count) s.threads
  pub all_queues : length s.client_queues ≡ max_clients

below_next :
    (n : ℕ) (ths : List QueueThread)
    → All (λ th. th.client_index < n) ths
    → All (λ th. th.client_index < n + 1) ths
below_next n [] h = tt
below_next n (th ∷ ths) (below, h) = (omega (arith, below), below_next n ths h)

-- Thread th waits in the queue of its client, which is empty.
abbrev pub WaitsIn : Clients → QueueThread → Type 0
WaitsIn s th =
    (th.at ≡ dequeuing)
    × (get_elem? s.client_queues th.client_index ≡ some init_queue)
    × (dequeue (s.heap, init_queue) ≡ Dequeued.waiting)

dequeue-init_queue : (heap : Heap) → dequeue (heap, init_queue) ≡ Dequeued.waiting
unfolding dequeue init_queue
dequeue-init_queue heap = refl

All-replicate : (n : ℕ) → All (λ q. q ≡ init_queue) (replicate n init_queue)
All-replicate zero = tt
All-replicate (suc n) = (refl, All-replicate n)

Step-IsIdle : {s t : Clients} → Step s t → IsIdle s → IsIdle t
unfolding start_thread
Step-IsIdle (starts e) v = subst IsIdle (sym e) (record {
  queues = v.queues;
  threads = All-append IsDequeuing _ _ v.threads (refl, tt);
  indexed = All-append (λ th. th.client_index < _) _ _ (below_next _ _ v.indexed) (omega arith, tt);
  all_queues = v.all_queues;
})
Step-IsIdle (checks junk e) v = subst IsIdle (sym e) (record {
  queues = v.queues;
  threads = v.threads;
  indexed = v.indexed;
  all_queues = v.all_queues;
})
Step-IsIdle {s} (takes k th q order rest g a gq d e) v =
    let fresh : q ≡ init_queue = All-get _ s.client_queues th.client_index q v.queues gq in
    absurd (ground (arith, dequeue-init_queue s.heap, fresh, d))
Step-IsIdle {s} (bakes k th order g a room free e) v =
    absurd (ground (arith, All-get IsDequeuing s.threads k th v.threads g, a))
Step-IsIdle {s} (finishes k th order g a e) v =
    absurd (ground (arith, All-get IsDequeuing s.threads k th v.threads g, a))
Step-IsIdle {s} (delivers temp k th order q g a gq e) v =
    absurd (ground (arith, All-get IsDequeuing s.threads k th v.threads g, a))
Step-IsIdle (others orders apparatus oven e) v = subst IsIdle (sym e) (record {
  queues = v.queues;
  threads = v.threads;
  indexed = v.indexed;
  all_queues = v.all_queues;
})

pub Reach-IsIdle : (s : Clients) → Reach s → IsIdle s
unfolding opening
Reach-IsIdle s start = record {
  queues = All-replicate max_clients;
  threads = tt;
  indexed = tt;
  all_queues = length-replicate max_clients init_queue;
}
Reach-IsIdle t (next {s} r st) = Step-IsIdle st (Reach-IsIdle s r)

-- No queue is longer than the array, so that the array is never expanded on their account.
never_expanded :
    (junk : ℕ → Order) (qs : List Queue) (orders : List Order)
    → All (λ q. q ≡ init_queue) qs
    → check_and_expand_order_array junk qs orders ≡ orders
unfolding check_and_expand_order_array get_queue_size init_queue
never_expanded junk [] orders h = refl
never_expanded junk (q ∷ qs) orders (e, h) =
    let size : get_queue_size q ≡ 0 = ap get_queue_size e in
    let short : ltb (length orders) (get_queue_size q) ≡ false = ground (arith, size) in
    rw (check_and_expand_order_array, short) (never_expanded junk qs orders h)

nothing_to_free :
    (qs : List Queue) (heap : Heap) → All (λ q. q ≡ init_queue) qs → free_queues qs heap ≡ some heap
unfolding free_queues init_queue free_queue free_nodes
nothing_to_free [] heap h = refl
nothing_to_free (q ∷ qs) heap (e, h) =
    subst (λ q. free_queues (q ∷ qs) heap ≡ some heap) (sym e) (nothing_to_free qs heap h)

queue_there :
    (qs : List Queue) (i : ℕ)
    → All (λ q. q ≡ init_queue) qs
    → i < length qs
    → get_elem? qs i ≡ some init_queue
queue_there [] i h lt = absurd (omega (arith, lt))
queue_there (q ∷ qs) zero h lt = ap some h.0
queue_there (q ∷ qs) (suc i) h lt = queue_there qs i h.1 (omega (arith, lt))

every_thread_waits :
    (s : Clients) (ths : List QueueThread)
    → All (λ q. q ≡ init_queue) s.client_queues
    → s.client_count ≤ length s.client_queues
    → All (λ th. th.at ≡ dequeuing) ths
    → All (λ th. th.client_index < s.client_count) ths
    → All (WaitsIn s) ths
every_thread_waits s [] queues room at below = tt
every_thread_waits s (th ∷ ths) queues room at below = (
  (
    at.0,
    queue_there s.client_queues th.client_index queues (omega (arith, below.0, room)),
    dequeue-init_queue s.heap,
  ),
  every_thread_waits s ths queues room at.1 below.1,
)

-- As long as there have been at most 100 batches, for which the array of queues has room, whatever the
-- threads of `handle_client_queue` and all others do, and in whatever order: every one of these threads
-- waits in its first call of `dequeue`, on a queue of the array that is as it was at the start, because
-- only such a thread puts an order into a queue, behind one that it has taken out. So the check before a
-- batch never expands the array of orders, and `cleanup` frees no node, and closes the sockets that
-- are not -1.
pub queues_stay_empty :
    (s : Clients) (junk : ℕ → Order) (status_socket completion_socket : ℤ)
    → Reach s
    → s.client_count ≤ max_clients
    → All (λ q. q ≡ init_queue) s.client_queues
      × All (WaitsIn s) s.threads
      × (check_and_expand_order_array junk s.client_queues s.orders ≡ s.orders)
      × (cleanup status_socket completion_socket s
          ≡ some (s.heap, close_socket status_socket ++ close_socket completion_socket))
unfolding cleanup
queues_stay_empty s junk status_socket completion_socket r room =
    let v = Reach-IsIdle s r in
    (
      v.queues,
      every_thread_waits s s.threads v.queues (omega (arith, room, v.all_queues)) v.threads
          v.indexed,
      never_expanded junk s.client_queues s.orders v.queues,
      rw (cleanup, nothing_to_free s.client_queues s.heap v.queues) refl,
    )
