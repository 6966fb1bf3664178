-- ===== src/Pide/Queue/Laws.antt =====
-- The linked list is a queue.
use cse_344_homeworks.Prelude.{
  ℕ, zero, suc, ◌+◌, ◌-◌, ◌≤◌, ◌≡◌, ◌≢◌, refl, sym, ◌∙◌, subst, List, [], ◌∷◌, ◌++◌, none, some,
  length, length-append, All, arith,
}
use cse_344_homeworks.Pide.Queue.{
  Order, Pointer, node, Heap, free, Queue, enqueue, Dequeued, dequeue, free_nodes, free_queue,
  get_queue_size,
}
use cse_344_homeworks.Pide.Queue.Links.{
  Chain, Avoids, Distinct, Holds, Chain-frame, rear-Avoids, Chain-snoc, Distinct-snoc, fresh-Avoids,
  Chain-rear, linked_heap, linked_new, linked_last, linked_other,
}

enqueue_behind :
    (temp r : ℕ) (order : Order) (h : Heap) (q : Queue)
    → q.rear ≡ some r
    → enqueue temp order (h, q)
      ≡ (linked_heap h r temp order, record q { rear = some temp; count = q.count + 1 })
unfolding enqueue linked_heap
enqueue_behind temp r order h q l = rw (enqueue, l) refl

-- `enqueue` puts an order behind those that the queue holds, in a node at the fresh address that
-- `malloc` returned.
pub enqueue-Holds :
    (xs : List (ℕ × Order)) (temp : ℕ) (order : Order) (s : Heap × Queue)
    → s.0 temp ≡ none
    → Holds xs s
    → Holds (xs ++ ((temp, order) ∷ [])) (enqueue temp order s)
unfolding enqueue
enqueue-Holds [] temp order (h, q) e (c, d, k) =
    rw (enqueue, c.1) ((refl, ground arith, refl), (tt, tt), omega (arith, k))
enqueue-Holds (x ∷ xs) temp order (h, q) e (c, d, k) =
    let (r, l) = Chain-rear h q.front q.rear x xs c in
    let c' : Chain h q.front (some r) (x ∷ xs) = subst (λ p. Chain h q.front p (x ∷ xs)) l c in
    let a = fresh-Avoids h temp q.front q.rear (x ∷ xs) e c in
    let off = rear-Avoids h temp r q.front x xs c' a in
    subst (Holds ((x ∷ xs) ++ ((temp, order) ∷ []))) (sym (enqueue_behind temp r order h q l)) (
      Chain-snoc h (linked_heap h r temp order) r temp order (linked_new h r temp order off)
          (linked_last h r temp order off) (linked_other h r temp order) q.front x xs c' d a,
      Distinct-snoc (x ∷ xs) temp order d a,
      omega (arith, k, length-append xs ((temp, order) ∷ [])),
    )

freed_self : (h : Heap) (a : ℕ) → free a h a ≡ none
freed_self h a = ground arith

freed_other : (h : Heap) (a b : ℕ) → b ≢ a → free a h b ≡ h b
freed_other h a b p = ground arith

freed_same :
    (h : Heap) (a : ℕ) (xs : List (ℕ × Order)) → Avoids a xs → All (λ x. free a h x.0 ≡ h x.0) xs
freed_same h a [] p = tt
freed_same h a (x ∷ xs) p = (freed_other h a x.0 p.0, freed_same h a xs p.1)

-- `dequeue` takes the first order of a queue that is not empty, gives its node back to the heap,
-- and leaves a queue with the others.
pub dequeue-Holds :
    (a : ℕ) (o : Order) (xs : List (ℕ × Order)) (s : Heap × Queue)
    → Holds ((a, o) ∷ xs) s
    → (t : Heap × Queue) × (dequeue s ≡ Dequeued.taken o t) × Holds xs t × (t.0 a ≡ none)
unfolding dequeue
dequeue-Holds a o [] (h, q) (c, d, k) = (
  (free a h, record q { front = none; rear = none; count = q.count - 1 }),
  rw (dequeue, c.0, c.1) refl,
  ((refl, refl), tt, omega (arith, k)),
  ground arith,
)
dequeue-Holds a o (x ∷ xs) (h, q) (c, d, k) = (
  (free a h, record q { front = some x.0; count = q.count - 1 }),
  rw (dequeue, c.0, c.1) refl,
  (
    Chain-frame h (free a h) (some x.0) q.rear (x ∷ xs) (freed_same h a (x ∷ xs) d.0) c.2,
    d.1,
    omega (arith, k),
  ),
  ground arith,
)

Chain-tail :
    (h : Heap) (front rear : Pointer) (x : ℕ × Order) (xs : List (ℕ × Order))
    → Chain h front rear (x ∷ xs)
    → (n : Pointer) × (rear' : Pointer) × (front ≡ some x.0)
      × (h x.0 ≡ some (node x.1 n))
      × Chain h n rear' xs
Chain-tail h front rear x [] c = (none, none, c.0, c.1, (refl, refl))
Chain-tail h front rear x (y ∷ xs) c = (some y.0, rear, c.0, c.1, c.2)

free_nodes-Chain :
    (xs : List (ℕ × Order)) (bound : ℕ) (h : Heap) (front rear : Pointer)
    → Chain h front rear xs
    → Distinct xs
    → length xs ≤ bound
    → (g : Heap) × (free_nodes bound front h ≡ some g)
      × All (λ x. g x.0 ≡ none) xs
      × ((a : ℕ) → Avoids a xs → g a ≡ h a)
unfolding free_nodes
free_nodes-Chain [] bound h front rear c d b = (h, rw (c.0, free_nodes) refl, tt, λ a p. refl)
free_nodes-Chain (x ∷ xs) zero h front rear c d b = absurd (omega arith)
free_nodes-Chain (x ∷ xs) (suc bound) h front rear c d b =
    let (n, rear', f, e, c') = Chain-tail h front rear x xs c in
    let kept = Chain-frame h (free x.0 h) n rear' xs (freed_same h x.0 xs d.0) c' in
    let (g, run, gone, same) =
      free_nodes-Chain xs bound (free x.0 h) n rear' kept d.1 (omega arith) in
    (
      g,
      rw (f, free_nodes, e) run,
      (same x.0 d.0 ∙ freed_self h x.0, gone),
      λ a p. same a p.1 ∙ freed_other h x.0 a (λ w. p.0 (sym w)),
    )

-- `free_queue` gives the nodes of a queue back to the heap, leaves memory at any other address as it
-- was, and leaves an empty queue; the loop over the nodes ends.
pub free_queue-Holds :
    (xs : List (ℕ × Order)) (s : Heap × Queue)
    → Holds xs s
    → (t : Heap × Queue) × (free_queue (get_queue_size s.1) s ≡ some t)
      × Holds [] t
      × All (λ x. t.0 x.0 ≡ none) xs
      × ((a : ℕ) → Avoids a xs → t.0 a ≡ s.0 a)
unfolding free_queue get_queue_size
free_queue-Holds xs (h, q) (c, d, k) =
    let (g, run, gone, same) = free_nodes-Chain xs q.count h q.front q.rear c d (omega arith) in
    (
      (g, record { front = none; rear = none; count = 0 }),
      rw (free_queue, run) refl,
      ((refl, refl), tt, refl),
      gone,
      same,
    )
