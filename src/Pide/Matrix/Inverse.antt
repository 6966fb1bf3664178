-- ===== src/Pide/Matrix/Inverse.antt =====
-- final/server.c: `matrix_inverse` in exact arithmetic.
use cse_344_homeworks.Prelude.{
  ℕ, zero, suc, ◌+◌, ◌*◌, ◌<◌, ◌≤◌, ◌≡◌, ◌≢◌, ◌∙◌, refl, sym, ap, subst, arith, Bool, true, false,
  Option, none, some, ◌==◌, if◌then◌else◌, lt→ltb, ℕ_discrete, Bool-cases, inl, inr, some_injective,
}
use cse_344_homeworks.Pide.Matrix.{
  Arithmetic, Matrix, for_or_return, augment, eliminate, scale_rows, extract, matrix_inverse,
}
use cse_344_homeworks.Pide.Matrix.Cells.{sum}
use cse_344_homeworks.Pide.Matrix.Rows.{augment_cell, scale_rows_cell, extract_cell, eliminate_cell}
use cse_344_homeworks.Pide.Matrix.Exact.{
  IsField, sub-zero, sub_self, mul-zero, zero-mul, sub-mul, div-eq-mul, sum_congr, mul-sum, sum-sub,
  sum_single,
}

bind_some {ℓ} :
    {A : Type ℓ} (o : Option A) (f : A → Option A) (z : A)
    → elim o [ none ↦ none | some y ↦ f y ] ≡ some z
    → (y : A) × (o ≡ some y) × (f y ≡ some z)
bind_some none f z h = absurd (ground (arith, h))
bind_some (some y) f z h = (y, refl, h)

-- The right half times X is the left half.
abbrev Solves {ℓ} : {A : Type ℓ} → Arithmetic A → ℕ → Matrix A → Matrix A → Type ℓ
Solves ops n X M =
    (a b : ℕ) → a < n → b < n → sum ops n (λ k. ops.mul (M a (k + n)) (X k b)) ≡ M a b

-- The first `m` columns have a diagonal that is not zero, and zeros elsewhere.
abbrev Cleared {ℓ} : {A : Type ℓ} → Arithmetic A → ℕ → ℕ → Matrix A → Type ℓ
Cleared ops n m M =
    (c : ℕ)
    → c < m
    → c < n
    → (ops.is_zero (M c c) ≡ false) × ((a : ℕ) → a < n → a ≢ c → M a c ≡ ops.zero)

pub ==_refl : (i : ℕ) → (i == i) ≡ true
==_refl i = ground arith

module _ {ℓ} {A : Type ℓ} {ops : Arithmetic A} (F : IsField ops) where
  pub unit_row :
      (n a b : ℕ) (X : Matrix A)
      → a < n
      → sum ops n (λ k. ops.mul (if a == k then ops.one else ops.zero) (X k b)) ≡ X a b
  unit_row n a b X h =
      sum_congr ops n _ _ (λ k _. term (a == k) (X k b))
      ∙ sum_single F n a (λ k. X k b)
      ∙ rw (lt→ltb a n h) refl
    where
      term :
          (t : Bool) (x : A)
          → ops.mul (if t then ops.one else ops.zero) x ≡ (if t then x else ops.zero)
      term true x = F.mul_comm ops.one x ∙ F.mul-one x
      term false x = zero-mul F x

  augment-Solves : (n : ℕ) (X M : Matrix A) → Solves ops n X (augment ops n X M)
  augment-Solves n X M a b ha hb =
      sum_congr ops n _ _ (λ k hk. let (_, e) = augment_cell ops n X M a k ha hk in rw e refl)
      ∙ unit_row n a b X ha
      ∙ (let (e, _) = augment_cell ops n X M a b ha hb in sym e)

  eliminate-Solves :
      (n i : ℕ) (X M N : Matrix A)
      → eliminate ops n i M ≡ some N
      → i < n
      → Solves ops n X M
      → Solves ops n X N
  eliminate-Solves n i X M N h hi s a b ha hb =
      let (pivot, cell) = eliminate_cell ops n i M N h in
      elim (Bool-cases (i == a)) [
        | inl e ↦
            let same : (c : ℕ) → c < 2 * n → N a c ≡ M a c = λ c lt. cell a c ha lt ∙ rw e refl in
            sum_congr ops n _ _ (λ k hk. ap (λ x. ops.mul x (X k b)) (same (k + n) (omega arith)))
            ∙ s a b ha hb
            ∙ sym (same b (omega arith))
        | inr e ↦
            let ratio = ops.div (M a i) (M i i) in
            let less : (c : ℕ) → c < 2 * n → N a c ≡ ops.sub (M a c) (ops.mul ratio (M i c)) =
              λ c lt. cell a c ha lt ∙ rw e refl in
            sum_congr ops n _ _ (λ k hk.
              ap (λ x. ops.mul x (X k b)) (less (k + n) (omega arith))
              ∙ sub-mul F (M a (k + n)) (ops.mul ratio (M i (k + n))) (X k b)
              ∙ ap (ops.sub _) (F.mul_assoc ratio (M i (k + n)) (X k b)))
            ∙ sum-sub F n _ _
            ∙ ap (ops.sub _) (sym (mul-sum F n ratio _))
            ∙ rw (s a b ha hb, s i b hi hb) (sym (less b (omega arith)))
      ]

  eliminate-Cleared :
      (n i : ℕ) (M N : Matrix A)
      → eliminate ops n i M ≡ some N
      → i < n
      → Cleared ops n i M
      → Cleared ops n (suc i) N
  eliminate-Cleared n i M N h hi cl c lt hc =
      let (pivot, cell) = eliminate_cell ops n i M N h in
      elim (ℕ_discrete i c) [
        | yes e ↦
            subst
              (λ d. (ops.is_zero (N d d) ≡ false) × ((a : ℕ) → a < n → a ≢ d → N a d ≡ ops.zero)) e
              (
                rw (cell i i hi (omega arith), ==_refl i) pivot,
                λ a ha ne.
                    let apart : (i == a) ≡ false = ground arith in
                    cell a i ha (omega arith)
                    ∙ rw (apart, F.div-mul (M a i) (M i i) pivot) (sub_self F (M a i)),
              )
        | no e ↦
            let (diagonal, zeros) = cl c (omega arith) hc in
            let row : M i c ≡ ops.zero = zeros i hi e in
            let keep : (a : ℕ) → a < n → N a c ≡ M a c = λ a ha. elim (Bool-cases (i == a)) [
              | inl t ↦ cell a c ha (omega arith) ∙ rw t refl
              | inr t ↦ cell a c ha (omega arith) ∙ rw (t, row, mul-zero F) (sub-zero F (M a c))
            ] in
            (rw (keep c hc) diagonal, λ a ha ne. keep a ha ∙ zeros a ha ne)
      ]

  -- The rounds of the elimination.
  rounds :
      (n m : ℕ) (X M N : Matrix A)
      → m ≤ n
      → Solves ops n X M
      → for_or_return m (λ i M. eliminate ops n i M) M ≡ some N
      → Cleared ops n m N × Solves ops n X N
  unfolding for_or_return
  rounds n zero X M N h s e = rw (sym (some_injective e)) (λ c lt. absurd (omega arith), s)
  rounds n (suc m) X M N h s e =
      let (P, before, last) = bind_some (for_or_return m (λ i M. eliminate ops n i M) M) _ N e in
      let (cleared, solves) = rounds n m X M P (omega arith) s before in
      (eliminate-Cleared n m P N last h cleared, eliminate-Solves n m X P N last h solves)

  finish :
      (n : ℕ) (X M B : Matrix A) (a b : ℕ)
      → Cleared ops n n M
      → Solves ops n X M
      → a < n
      → b < n
      → sum ops n (λ k. ops.mul (extract ops n (scale_rows ops n M) B a k) (X k b))
        ≡ (if a == b then ops.one else ops.zero)
  finish n X M B a b cleared solves ha hb =
      let (diagonal, _) = cleared a ha ha in
      let inverse = ops.div ops.one (M a a) in
      let entry : (k : ℕ)
          → k < n
          → extract ops n (scale_rows ops n M) B a k ≡ ops.mul inverse (M a (k + n)) =
        λ k hk.
          rw
            (
              extract_cell ops n (scale_rows ops n M) B a k,
              lt→ltb a n ha,
              lt→ltb k n hk,
              scale_rows_cell ops n M a (k + n) ha (omega arith),
            )
            (div-eq-mul F (M a (k + n)) (M a a) diagonal ∙ F.mul_comm _ inverse) in
      sum_congr ops n _ _ (λ k hk. ap (λ x. ops.mul x (X k b)) (entry k hk) ∙ F.mul_assoc _ _ _)
      ∙ sym (mul-sum F n inverse _)
      ∙ ap (ops.mul inverse) (solves a b ha hb)
      ∙ elim (ℕ_discrete a b) [
        | yes e ↦
            ap (λ c. ops.mul inverse (M a c)) (sym e)
            ∙ F.div-mul ops.one (M a a) diagonal
            ∙ sym (rw (e, ==_refl b) refl)
        | no h ↦
            let (_, zeros) = cleared b hb hb in
            let apart : (a == b) ≡ false = ground arith in
            rw (zeros a ha h, apart) (mul-zero F inverse)
      ]

  -- In exact arithmetic, whenever `matrix_inverse` returns 1, what it has written to `B` is a left
  -- inverse of its argument: in each cell of the product of `B` and the argument stands 1 on the
  -- diagonal and 0 elsewhere, whatever the local array and `B` held before.
  pub matrix_inverse-left :
      (n : ℕ) (local X B C : Matrix A) (a b : ℕ)
      → matrix_inverse ops n local X B ≡ some C
      → a < n
      → b < n
      → sum ops n (λ k. ops.mul (C a k) (X k b)) ≡ (if a == b then ops.one else ops.zero)
  unfolding matrix_inverse
  matrix_inverse-left n local X B C a b e ha hb =
      let (M, done, last) =
        bind_some (for_or_return n (λ i M. eliminate ops n i M) (augment ops n X local)) _ C e in
      let (cleared, solves) =
        rounds n n X (augment ops n X local) M (omega arith) (augment-Solves n X local) done in
      rw (sym (some_injective last)) (finish n X M B a b cleared solves ha hb)
