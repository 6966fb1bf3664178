-- ===== src/Pide/Matrix/Pseudo.antt =====
-- final/server.c: `calculate_pseudo_inverse` against the formula in its comments, for any arithmetic.
use cse_344_homeworks.Prelude.{
  ℕ, ◌<◌, ◌≡◌, ◌∙◌, refl, ap, Option, none, some, ltb, lt→ltb, ◌&&◌, if◌then◌else◌, Bool-cases, inl,
  inr, ltb→lt, false, true, Bool,
}
use cse_344_homeworks.Pide.Matrix.{
  Arithmetic, Matrix, multiply, matrix_multiply_alt, matrix_transpose, matrix_inverse,
  calculate_pseudo_inverse,
}
use cse_344_homeworks.Pide.Matrix.Cells.{sum, multiply_cell, transpose_cell}
use cse_344_homeworks.Pide.Matrix.Exact.{sum_congr}

outside {ℓ} :
    {A : Type ℓ} (p q : Bool) (x y z : A)
    → q ≡ false
    → (if p && q then x else z) ≡ (if p && q then y else z)
outside true q x y z e = rw e refl
outside false q x y z e = refl

module _ {ℓ} {A : Type ℓ} (ops : Arithmetic A) (rows cols : ℕ)
    (local_T local_product local_inverse augmented X inverse : Matrix A) where
  -- What `matrix_inverse` is asked to invert.
  abbrev pub gram : Matrix A
  gram =
      matrix_multiply_alt ops rows cols (matrix_transpose ops rows cols X local_T) X local_product

  -- The result for what `matrix_inverse` gives: none, or the product with the transpose of X.
  abbrev pub IsPseudo : (a b : ℕ) → Option (Matrix A) → Option (Matrix A) → Type ℓ
  IsPseudo a b none result = result ≡ none
  IsPseudo a b (some B) result =
      (P : Matrix A) × (result ≡ some P)
      × (P a b ≡ (
          if ltb a cols && ltb b rows
          then sum ops cols (λ k. ops.mul (B a k) (X b k))
          else inverse a b))

  transposed :
      (a b : ℕ) → a < cols → b < rows → matrix_transpose ops rows cols X local_T a b ≡ X b a
  transposed a b la lb =
      rw (transpose_cell ops rows cols X local_T a b, lt→ltb a cols la, lt→ltb b rows lb) refl

  gram_cell :
      (a b : ℕ) → a < cols → b < cols → gram a b ≡ sum ops rows (λ k. ops.mul (X k a) (X k b))
  unfolding matrix_multiply_alt
  gram_cell a b la lb =
      multiply_cell ops cols rows cols (matrix_transpose ops rows cols X local_T) X local_product a
        b
      ∙ rw (lt→ltb a cols la, lt→ltb b cols lb)
          (sum_congr ops rows _ _ (λ k hk. ap (λ x. ops.mul x (X k b)) (transposed a k la hk)))

  product_row :
      (B : Matrix A) (a b : ℕ)
      → multiply ops cols cols rows B (matrix_transpose ops rows cols X local_T) inverse a b ≡ (
          if ltb a cols && ltb b rows
          then sum ops cols (λ k. ops.mul (B a k) (X b k))
          else inverse a b)
  product_row B a b =
      multiply_cell ops cols cols rows B (matrix_transpose ops rows cols X local_T) inverse a b
      ∙ elim (Bool-cases (ltb b rows)) [
        | inl lb ↦
            ap (λ s. if ltb a cols && ltb b rows then s else inverse a b)
              (sum_congr ops cols _ _
                (λ k hk. ap (ops.mul (B a k)) (transposed k b hk (ltb→lt b rows lb))))
        | inr out ↦ outside (ltb a cols) (ltb b rows) _ _ _ out
      ]

  -- For any arithmetic: `calculate_pseudo_inverse` hands to `matrix_inverse` the product of the
  -- transpose of its argument and the argument, each cell of which is the sum of the products over the
  -- rows. If `matrix_inverse` gives up, it leaves `inverse` alone, with its message; if `matrix_inverse`
  -- writes B, each cell of `inverse` within its bounds becomes the sum of the products of B and the
  -- transpose, and all other cells stay. This is so whatever the local arrays held.
  pub calculate_pseudo_inverse_cell :
      (i j a b : ℕ) (inverted : Option (Matrix A))
      → i < cols
      → j < cols
      → matrix_inverse ops cols augmented gram local_inverse ≡ inverted
      → (gram i j ≡ sum ops rows (λ k. ops.mul (X k i) (X k j)))
        × IsPseudo a b inverted (
            calculate_pseudo_inverse ops rows cols local_T local_product local_inverse augmented X
              inverse)
  unfolding calculate_pseudo_inverse
  calculate_pseudo_inverse_cell i j a b none li lj e =
      (gram_cell i j li lj, rw (calculate_pseudo_inverse, e) refl)
  calculate_pseudo_inverse_cell i j a b (some B) li lj e = (
    gram_cell i j li lj,
    (
      multiply ops cols cols rows B (matrix_transpose ops rows cols X local_T) inverse,
      rw (calculate_pseudo_inverse, e) refl,
      product_row B a b,
    ),
  )
