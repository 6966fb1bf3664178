-- ===== src/Pide/Queue/Calls.antt =====
-- final/server.c: a queue from `init_queue` on, under any calls of `enqueue` and `dequeue`.
use cse_344_homeworks.Prelude.{
  ℕ, ◌+◌, ◌≡◌, ◌⊎◌, inl, inr, refl, sym, ◌∙◌, ap, List, [], ◌∷◌, ◌++◌, none, some, length,
  length-append, All, append_assoc, map, arith, length-map, ◌≢◌, subst,
}
use cse_344_homeworks.Pide.Queue.{
  Order, Heap, Queue, init_queue, enqueue, Dequeued, dequeue, free_queue, get_queue_size,
}
use cse_344_homeworks.Pide.Queue.Links.{Avoids, Holds}
use cse_344_homeworks.Pide.Queue.Laws.{enqueue-Holds, dequeue-Holds, free_queue-Holds}

-- The orders that went in, those that came out, and what is left; `malloc` returns memory that is
-- not allocated.
pub data Called : List Order → List Order → Heap × Queue → Type 0 where
  start : (h : Heap) → Called [] [] (h, init_queue)
  enqueues :
      {ins outs : List Order} {s : Heap × Queue} (temp : ℕ) (order : Order)
      → Called ins outs s
      → s.0 temp ≡ none
      → Called (ins ++ (order ∷ [])) outs (enqueue temp order s)
  dequeues :
      {ins outs : List Order} {s t : Heap × Queue} (order : Order)
      → Called ins outs s
      → dequeue s ≡ Dequeued.taken order t
      → Called ins (outs ++ (order ∷ [])) t

abbrev pub orders_of : List (ℕ × Order) → List Order
orders_of = map (λ x. x.1)

-- What `dequeue` does on a queue that holds these orders.
abbrev pub Gives : List (ℕ × Order) → Heap × Queue → Type 0
Gives [] s = dequeue s ≡ Dequeued.waiting
Gives (x ∷ xs) s = (t : Heap × Queue) × (dequeue s ≡ Dequeued.taken x.1 t) × Holds xs t

-- What `free_queue` does to a queue that holds these orders, and to the memory at `a`.
abbrev pub Frees : ℕ → List (ℕ × Order) → Heap × Queue → Type 0
Frees a xs s =
    (t : Heap × Queue) × (free_queue (get_queue_size s.1) s ≡ some t)
    × Holds [] t
    × All (λ x. t.0 x.0 ≡ none) xs
    × ((¬ Avoids a xs) ⊎ (t.0 a ≡ s.0 a))

same_or_not : (m n : ℕ) → (m ≡ n) ⊎ (m ≢ n)
same_or_not m n = ground arith

on_or_off : (a : ℕ) (xs : List (ℕ × Order)) → Avoids a xs ⊎ (¬ Avoids a xs)
on_or_off a [] = inl tt
on_or_off a (x ∷ xs) = elim (same_or_not x.0 a) [
  | inl e ↦ inr (λ h. h.0 e)
  | inr ne ↦ elim (on_or_off a xs) [ inl h ↦ inl (ne, h) | inr u ↦ inr (λ h. u h.1) ]
]

gives : (xs : List (ℕ × Order)) (s : Heap × Queue) → Holds xs s → Gives xs s
unfolding dequeue
gives [] (h, q) (c, d, k) = rw (dequeue, c.0) refl
gives (x ∷ xs) s h = let (t, run, holds, gone) = dequeue-Holds x.0 x.1 xs s h in (t, run, holds)

frees : (a : ℕ) (xs : List (ℕ × Order)) (s : Heap × Queue) → Holds xs s → Frees a xs s
frees a xs s h =
    let (t, run, empty, gone, same) = free_queue-Holds xs s h in
    (t, run, empty, gone, elim (on_or_off a xs) [ inl off ↦ inr (same a off) | inr u ↦ inl u ])

orders_of-append : (xs ys : List (ℕ × Order)) → orders_of (xs ++ ys) ≡ orders_of xs ++ orders_of ys
orders_of-append [] ys = refl
orders_of-append (x ∷ xs) ys = ap (λ l. x.1 ∷ l) (orders_of-append xs ys)

module _ {ins : List Order} where
  taken_order :
      (outs : List Order) (order : Order) (xs : List (ℕ × Order)) (s t : Heap × Queue)
      → ins ≡ outs ++ orders_of xs
      → Gives xs s
      → dequeue s ≡ Dequeued.taken order t
      → (kept : List (ℕ × Order)) × Holds kept t × (ins ≡ (outs ++ (order ∷ [])) ++ orders_of kept)
  taken_order outs order [] s t e g run = ground (arith, g, run)
  taken_order outs order (x ∷ xs) s t e (t', run', holds) run =
      let same : Dequeued.taken x.1 t' ≡ Dequeued.taken order t = sym run' ∙ run in
      let (one, two) : (x.1 ≡ order) × (t' ≡ t) = ground (arith, same) in
      (
        xs,
        subst (λ u. Holds xs u) two holds,
        e ∙ ap (λ o. outs ++ (o ∷ orders_of xs)) one ∙ sym (append_assoc outs (order ∷ []) _),
      )

held :
    {ins outs : List Order} (s : Heap × Queue)
    → Called ins outs s
    → (kept : List (ℕ × Order)) × Holds kept s × (ins ≡ outs ++ orders_of kept)
unfolding init_queue
held s (Called.start h) = ([], ((refl, refl), tt, refl), refl)
held s (Called.enqueues {ins} {outs} {s = r} temp order c e) =
    let (kept, holds, split) = held r c in
    (
      kept ++ ((temp, order) ∷ []),
      enqueue-Holds kept temp order r e holds,
      ap (λ l. l ++ (order ∷ [])) split
          ∙ append_assoc outs (orders_of kept) (order ∷ [])
          ∙ ap (λ l. outs ++ l) (sym (orders_of-append kept ((temp, order) ∷ []))),
    )
held t (Called.dequeues {outs = outs} {s = r} order c run) =
    let (kept, holds, split) = held r c in
    taken_order outs order kept r t split (gives kept r holds) run

-- From `init_queue` on, under any calls of `enqueue`, with a node of memory that was not allocated, and
-- of `dequeue` that do not wait: the orders come out in the order in which they went in, and the queue
-- holds the others. `dequeue` takes the first of them and waits only when there is none, so it never
-- reads memory that is not allocated. `get_queue_size` is the number of the others. `free_queue` ends,
-- frees their nodes, leaves memory at any other address as it was, and leaves an empty queue.
pub queue_in_order :
    {ins outs : List Order} (s : Heap × Queue) (a : ℕ)
    → Called ins outs s
    → (kept : List (ℕ × Order)) × (ins ≡ outs ++ orders_of kept)
      × Gives kept s
      × (get_queue_size s.1 + length outs ≡ length ins)
      × Frees a kept s
unfolding get_queue_size
queue_in_order {ins} {outs} s a c =
    let (kept, holds, split) = held s c in
    let total : length ins ≡ length outs + length (orders_of kept) =
      ap length split ∙ length-append outs (orders_of kept) in
    (
      kept,
      split,
      gives kept s holds,
      omega (arith, total, length-map kept (λ x. x.1), holds.2),
      frees a kept s holds,
    )
