-- ===== src/Students/Bubble/Laws.antt =====
-- The bubble sort sorts, if the test is one for the wrong order.
use mathlib.Core.List.{Perm}
use mathlib.Core.List.Perm
use cse_344_homeworks.Prelude.{
  ℕ, zero, suc, ◌-◌, ◌≡◌, refl, sym, ap, ◌∙◌, Bool, true, false, List, [], ◌∷◌, ◌++◌, length, All,
  arith, Bool-cases, inl, inr, append-nil, subst,
}
use cse_344_homeworks.Students.Bubble.{lower, upper, bubble_pass, bubble_rounds, bubble_sort}

-- Each element stands in the relation to all that come behind it.
abbrev pub Sorted {ℓ κ} : {A : Type ℓ} → (A → A → Type κ) → List A → Type κ
Sorted R [] = Unit
Sorted R (x ∷ xs) = All (R x) xs × Sorted R xs

module _ {ℓ κ} {A : Type ℓ} (P : A → Type κ) where
  All-everywhere : (l : List A) → ((x : A) → P x) → All P l
  All-everywhere [] f = tt
  All-everywhere (x ∷ l) f = (f x, All-everywhere l f)

  All-pair {μ} : (Q : A → Type μ) (l : List A) → All P l → All Q l → All (λ x. P x × Q x) l
  All-pair Q [] p q = tt
  All-pair Q (x ∷ l) p q = ((p.0, q.0), All-pair Q l p.1 q.1)

module _ {ℓ} {A : Type ℓ} (swap : A → A → Bool) where
  -- In order: no exchange is asked for.
  abbrev pub InOrder : A → A → Type 0
  InOrder x y = swap x y ≡ false

  carry : A → List A → List A × A
  carry x [] = ([], x)
  carry x (y ∷ p) = let r = carry (upper swap x y) p in (lower swap x y ∷ r.0, r.1)

  bubble_pass-carry :
      (p : List A) (x : A) (s : List A)
      → bubble_pass swap (length p) (x ∷ (p ++ s)) ≡ (carry x p).0 ++ ((carry x p).1 ∷ s)
  unfolding bubble_pass carry
  bubble_pass-carry [] x s = refl
  bubble_pass-carry (y ∷ p) x s =
      ap (λ l. lower swap x y ∷ l) (bubble_pass-carry p (upper swap x y) s)

  length-carry : (p : List A) (x : A) → length (carry x p).0 ≡ length p
  unfolding carry
  length-carry [] x = refl
  length-carry (y ∷ p) x = ap suc (length-carry p (upper swap x y))

  exchange-perm : (x y : A) (l : List A) → Perm (lower swap x y ∷ upper swap x y ∷ l) (x ∷ y ∷ l)
  exchange-perm x y l = elim (Bool-cases (swap x y)) [
    | inl e ↦ rw e (Perm.swap x y l)
    | inr e ↦ rw e Perm.rfl
  ]

  carry-perm :
      (p : List A) (x : A) (s : List A) → Perm ((carry x p).0 ++ ((carry x p).1 ∷ s)) (x ∷ (p ++ s))
  unfolding carry
  carry-perm [] x s = Perm.rfl
  carry-perm (y ∷ p) x s =
      Perm.trans (Perm.cons (lower swap x y) (carry-perm p (upper swap x y) s))
        (exchange-perm x y (p ++ s))

  exchange-All {κ} :
      (P : A → Type κ) (x y : A) → P x → P y → P (lower swap x y) × P (upper swap x y)
  exchange-All P x y p q = elim (Bool-cases (swap x y)) [
    | inl e ↦ rw e (q, p)
    | inr e ↦ rw e (p, q)
  ]

  carry-All {κ} :
      (P : A → Type κ) (p : List A) (x : A) → P x → All P p → All P (carry x p).0 × P (carry x p).1
  unfolding carry
  carry-All P [] x h k = (tt, h)
  carry-All P (y ∷ p) x h k =
      let e = exchange-All P x y h k.0 in
      let r = carry-All P p (upper swap x y) e.1 k.1 in ((e.0, r.0), r.1)

  module _ (in_order_refl : (x : A) → InOrder x x)
      (in_order_of_swap : (x y : A) → swap x y ≡ true → InOrder y x)
      (in_order_trans : (x y z : A) → InOrder x y → InOrder y z → InOrder x z) where
    exchange-InOrder :
        (x y : A) → InOrder (lower swap x y) (upper swap x y) × InOrder x (upper swap x y)
    exchange-InOrder x y = elim (Bool-cases (swap x y)) [
      | inl e ↦ rw e (in_order_of_swap x y e, in_order_refl x)
      | inr e ↦ rw e (e, e)
    ]

    carry-InOrder :
        (p : List A) (x : A)
        → InOrder x (carry x p).1 × All (λ y. InOrder y (carry x p).1) (carry x p).0
    unfolding carry
    carry-InOrder [] x = (in_order_refl x, tt)
    carry-InOrder (y ∷ p) x =
        let e = exchange-InOrder x y in
        let r = carry-InOrder p (upper swap x y) in
        (in_order_trans _ _ _ e.1 r.0, (in_order_trans _ _ _ e.0 r.0, r.1))

    round :
        (k : ℕ) (l : List A) {m : List A}
        → bubble_pass swap (suc k) l ≡ m
        → bubble_rounds swap (suc k) l ≡ bubble_rounds swap k m
    unfolding bubble_rounds
    round k l e = ap (bubble_rounds swap k) e

    -- What is left to sort, and behind it what is in its place.
    bubble_rounds-Sorted :
        (k : ℕ) (p s : List A)
        → length p ≡ suc k
        → Sorted InOrder s
        → All (λ x. All (InOrder x) s) p
        → Sorted InOrder (bubble_rounds swap k (p ++ s))
          × Perm (bubble_rounds swap k (p ++ s)) (p ++ s)
    bubble_rounds-Sorted k [] s e sorted below = absurd (omega arith)
    bubble_rounds-Sorted zero (x ∷ []) s e sorted below =
        unfold bubble_rounds in ((below.0, sorted), Perm.rfl)
    bubble_rounds-Sorted zero (x ∷ y ∷ p) s e sorted below = absurd (omega arith)
    bubble_rounds-Sorted (suc k) (x ∷ p) s e sorted below =
        let n : length p ≡ suc k = omega arith in
        let q = carry x p in
        let over = carry-All (λ y. All (InOrder y) s) p x below.0 below.1 in
        let pass : bubble_pass swap (suc k) (x ∷ (p ++ s)) ≡ q.0 ++ (q.1 ∷ s) =
          subst (λ m. bubble_pass swap m (x ∷ (p ++ s)) ≡ q.0 ++ (q.1 ∷ s)) n
            (bubble_pass-carry p x s) in
        let (done, same) =
          bubble_rounds-Sorted k q.0 (q.1 ∷ s) (length-carry p x ∙ n) (over.1, sorted)
            (All-pair _ _ q.0 (carry-InOrder p x).1 over.0) in
        (
          subst (Sorted InOrder) (sym (round k (x ∷ (p ++ s)) pass)) done,
          subst (λ l. Perm l (x ∷ (p ++ s))) (sym (round k (x ∷ (p ++ s)) pass))
              (Perm.trans same (carry-perm p x s)),
        )

    bubble_sort-cons :
        (x : A) (p : List A) → bubble_sort swap (x ∷ p) ≡ bubble_rounds swap (length p) (x ∷ p)
    unfolding bubble_sort
    bubble_sort-cons x p =
        let e : suc (length p) - 1 ≡ length p = omega arith in
        ap (λ n. bubble_rounds swap n (x ∷ p)) e

    -- The result is in order, and it is the input rearranged.
    pub bubble_sort-Sorted :
        (lines : List A)
        → Sorted InOrder (bubble_sort swap lines) × Perm (bubble_sort swap lines) lines
    bubble_sort-Sorted [] = unfold bubble_sort bubble_rounds in (tt, Perm.rfl)
    bubble_sort-Sorted (x ∷ p) = rw bubble_sort-cons (
        rw append-nil at
          (bubble_rounds-Sorted (length p) (x ∷ p) [] refl tt (All-everywhere _ (x ∷ p) (λ y. tt))))
