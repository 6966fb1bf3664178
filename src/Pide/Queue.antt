-- ===== src/Pide/Queue.antt =====
-- final/server.c: `Queue`, a linked list of nodes in the heap. An address is a number and a pointer
-- an address or NULL, which is `none`.
pub mod Links
pub mod Laws
pub mod Calls
use cse_344_homeworks.Prelude.{ℕ, zero, suc, ◌+◌, ◌-◌, Option, none, some, if◌then◌else◌, ◌==◌}
use cse_344_homeworks.Prelude.Int.{ℤ}

pub record Order : Type 0 where
  pub order_id : ℤ
  pub customer_x : ℤ
  pub customer_y : ℤ
  pub state : ℕ
  pub cook_id : ℤ
  pub pid : ℤ

abbrev pub Pointer : Type 0
Pointer = Option ℕ

pub record QueueNode : Type 0 where
  pub order : Order
  pub next : Pointer

abbrev pub node : Order → Pointer → QueueNode
node order next = record { order = order; next = next }

-- `none` is memory that is not allocated.
abbrev pub Heap : Type 0
Heap = ℕ → Option QueueNode

abbrev pub allocate : ℕ → QueueNode → Heap → Heap
allocate temp n heap = λ a. if a == temp then some n else heap a

abbrev pub free : ℕ → Heap → Heap
free temp heap = λ a. if a == temp then none else heap a

abbrev pub with_next : Pointer → Option QueueNode → Option QueueNode
with_next next none = none
with_next next (some n) = some (node n.order next)

-- rear->next = temp
abbrev pub set_next : ℕ → Pointer → Heap → Heap
set_next rear next heap = λ a. if a == rear then with_next next (heap a) else heap a

pub record Queue : Type 0 where
  pub front : Pointer
  pub rear : Pointer
  pub count : ℕ

unfoldable pub init_queue : Queue
init_queue = record { front = none; rear = none; count = 0 }

-- `temp` is what `malloc` returns.
unfoldable pub enqueue : ℕ → Order → Heap × Queue → Heap × Queue
enqueue temp order (heap, q) =
    let heap' = allocate temp (node order none) heap in
    elim q.rear [
      | none ↦ (heap', record q { front = some temp; rear = some temp; count = q.count + 1 })
      | some r ↦ (set_next r (some temp) heap', record q { rear = some temp; count = q.count + 1 })
    ]

-- `waiting` is the wait for `cond`; `dangling` would be a read of memory that is not allocated.
pub data Dequeued : Type 0 where
  taken : Order → Heap × Queue → Dequeued
  waiting : Dequeued
  dangling : Dequeued

abbrev pub unlink : QueueNode → Queue → Queue
unlink n q = record q {
  front = n.next;
  rear = elim n.next [ none ↦ none | some a ↦ q.rear ];
  count = q.count - 1;
}

unfoldable pub dequeue : Heap × Queue → Dequeued
dequeue (heap, q) = elim q.front [
  | none ↦ Dequeued.waiting
  | some temp ↦ elim (heap temp) [
    | none ↦ Dequeued.dangling
    | some n ↦ Dequeued.taken n.order (free temp heap, unlink n q)
  ]
]

-- The loop over the nodes; `none` is a read of memory that is not allocated, or a list that is
-- longer than the bound.
unfoldable pub free_nodes : ℕ → Pointer → Heap → Option Heap
free_nodes bound none heap = some heap
free_nodes zero (some current) heap = none
free_nodes (suc bound) (some current) heap = elim (heap current) [
  | none ↦ none
  | some n ↦ free_nodes bound n.next (free current heap)
]

unfoldable pub free_queue : ℕ → Heap × Queue → Option (Heap × Queue)
unfolding free_nodes
free_queue bound (heap, q) = elim (free_nodes bound q.front heap) [
  | none ↦ none
  | some heap' ↦ some (heap', record q { front = none; rear = none; count = 0 })
]

unfoldable pub get_queue_size : Queue → ℕ
get_queue_size q = q.count
