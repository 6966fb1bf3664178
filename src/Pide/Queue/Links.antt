-- ===== src/Pide/Queue/Links.antt =====
-- final/server.c: the list of nodes behind a queue.
use cse_344_homeworks.Prelude.{
  ℕ, ◌≡◌, ◌≢◌, refl, sym, ◌∙◌, subst, List, [], ◌∷◌, ◌++◌, none, some, length, All, arith,
}
use cse_344_homeworks.Pide.Queue.{Order, Pointer, node, Heap, allocate, set_next, Queue}

-- The nodes from `front` to `rear`, each with its address.
abbrev pub Chain : Heap → Pointer → Pointer → List (ℕ × Order) → Type 0
Chain heap front rear [] = (front ≡ none) × (rear ≡ none)
Chain heap front rear (x ∷ []) =
    (front ≡ some x.0) × (heap x.0 ≡ some (node x.1 none)) × (rear ≡ some x.0)
Chain heap front rear (x ∷ y ∷ xs) =
    (front ≡ some x.0)
    × (heap x.0 ≡ some (node x.1 (some y.0)))
    × Chain heap (some y.0) rear (y ∷ xs)

abbrev pub Avoids : ℕ → List (ℕ × Order) → Type 0
Avoids a = All (λ x. x.0 ≢ a)

abbrev pub Distinct : List (ℕ × Order) → Type 0
Distinct [] = Unit
Distinct (x ∷ xs) = Avoids x.0 xs × Distinct xs

-- A queue that holds these orders at these addresses.
abbrev pub Holds : List (ℕ × Order) → Heap × Queue → Type 0
Holds xs (heap, q) = Chain heap q.front q.rear xs × Distinct xs × (q.count ≡ length xs)

-- Memory outside the list does not matter.
pub Chain-frame :
    (h g : Heap) (front rear : Pointer) (xs : List (ℕ × Order))
    → All (λ x. g x.0 ≡ h x.0) xs
    → Chain h front rear xs
    → Chain g front rear xs
Chain-frame h g front rear [] p c = c
Chain-frame h g front rear (x ∷ []) p c = (c.0, p.0 ∙ c.1, c.2)
Chain-frame h g front rear (x ∷ y ∷ xs) p c =
    (c.0, p.0 ∙ c.1, Chain-frame h g (some y.0) rear (y ∷ xs) p.1 c.2)

pub rear-Avoids :
    (h : Heap) (a r : ℕ) (front : Pointer) (x : ℕ × Order) (xs : List (ℕ × Order))
    → Chain h front (some r) (x ∷ xs)
    → Avoids a (x ∷ xs)
    → r ≢ a
rear-Avoids h a r front x [] c p = λ e. p.0 (ground (arith, c.2, e))
rear-Avoids h a r front x (y ∷ xs) c p = rear-Avoids h a r (some y.0) y xs c.2 p.1

Avoids-symm : (a : ℕ) (x : ℕ × Order) → x.0 ≢ a → a ≢ x.0
Avoids-symm a x p = λ e. p (sym e)

-- `rear->next = temp` for a fresh node: what the heap must be like.
module _ (h g : Heap) (r t : ℕ) (o : Order) (new : g t ≡ some (node o none))
    (linked : (n : Pointer) (o' : Order) → h r ≡ some (node o' n) → g r ≡ some (node o' (some t)))
    (other : (a : ℕ) → a ≢ t → a ≢ r → g a ≡ h a) where
  pub Chain-snoc :
      (front : Pointer) (x : ℕ × Order) (xs : List (ℕ × Order))
      → Chain h front (some r) (x ∷ xs)
      → Distinct (x ∷ xs)
      → Avoids t (x ∷ xs)
      → Chain g front (some t) (x ∷ (xs ++ ((t, o) ∷ [])))
  Chain-snoc front x [] c d a =
      let e : x.0 ≡ r = ground (arith, c.2) in
      (
        c.0,
        subst (λ b. g b ≡ some (node x.1 (some t))) (sym e)
            (linked none x.1 (subst (λ b. h b ≡ some (node x.1 none)) e c.1)),
        (refl, new, refl),
      )
  Chain-snoc front x (y ∷ xs) c d a =
      let off : r ≢ x.0 = rear-Avoids h x.0 r (some y.0) y xs c.2 d.0 in
      (c.0, other x.0 a.0 (λ e. off (sym e)) ∙ c.1, Chain-snoc (some y.0) y xs c.2 d.1 a.1)

Avoids-append : (a : ℕ) (xs ys : List (ℕ × Order)) → Avoids a xs → Avoids a ys → Avoids a (xs ++ ys)
Avoids-append a [] ys p q = q
Avoids-append a (x ∷ xs) ys p q = (p.0, Avoids-append a xs ys p.1 q)

pub Distinct-snoc :
    (xs : List (ℕ × Order)) (t : ℕ) (o : Order)
    → Distinct xs
    → Avoids t xs
    → Distinct (xs ++ ((t, o) ∷ []))
Distinct-snoc [] t o d a = (tt, tt)
Distinct-snoc (x ∷ xs) t o d a =
    (Avoids-append x.0 xs ((t, o) ∷ []) d.0 ((λ e. a.0 (sym e)), tt), Distinct-snoc xs t o d.1 a.1)

-- `malloc` returns memory that is not in use.
pub fresh-Avoids :
    (h : Heap) (t : ℕ) (front rear : Pointer) (xs : List (ℕ × Order))
    → h t ≡ none
    → Chain h front rear xs
    → Avoids t xs
fresh-Avoids h t front rear [] e c = tt
fresh-Avoids h t front rear (x ∷ []) e c =
    (λ f. absurd (used (subst (λ b. h b ≡ some (node x.1 none)) f c.1)), tt)
  where
    used : h t ≡ some (node x.1 none) → ⊥
    used f = ground (arith, e, f)
fresh-Avoids h t front rear (x ∷ y ∷ xs) e c = (
  λ f. absurd (used (subst (λ b. h b ≡ some (node x.1 (some y.0))) f c.1)),
  fresh-Avoids h t (some y.0) rear (y ∷ xs) e c.2,
)
  where
    used : h t ≡ some (node x.1 (some y.0)) → ⊥
    used f = ground (arith, e, f)

pub Chain-rear :
    (h : Heap) (front rear : Pointer) (x : ℕ × Order) (xs : List (ℕ × Order))
    → Chain h front rear (x ∷ xs)
    → (r : ℕ) × (rear ≡ some r)
Chain-rear h front rear x [] c = (x.0, c.2)
Chain-rear h front rear x (y ∷ xs) c = Chain-rear h (some y.0) rear y xs c.2

-- The heap that `enqueue` leaves behind a last node.
module _ (h : Heap) (r t : ℕ) (o : Order) where
  unfoldable pub linked_heap : Heap
  linked_heap = set_next r (some t) (allocate t (node o none) h)

  pub linked_new : r ≢ t → linked_heap t ≡ some (node o none)
  unfolding linked_heap
  linked_new p = ground arith

  pub linked_last :
      r ≢ t
      → (n : Pointer) (o' : Order) → h r ≡ some (node o' n)
      → linked_heap r ≡ some (node o' (some t))
  unfolding linked_heap
  linked_last p n o' e = ground (arith, e)

  pub linked_other : (a : ℕ) → a ≢ t → a ≢ r → linked_heap a ≡ h a
  unfolding linked_heap
  linked_other a p q = ground arith
