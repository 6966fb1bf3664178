-- ===== src/Pide/Matrix.antt =====
-- final/server.c: the matrices. An array of C is a function of its two indices that `put` changes
-- at one cell; the numbers are the parameter `A`, with the operations of `complex double`.
pub mod Cells
pub mod Rows
pub mod Exact
pub mod Inverse
pub mod Pseudo
mod Tests
use mathlib.Core.Option.{Option, none, some}
use cse_344_homeworks.Prelude.{ℕ, zero, suc, ◌+◌, ◌*◌, Bool, ◌&&◌, ◌==◌, if◌then◌else◌}

-- The operations on the entries. `is_zero x` is the test `cabs(x) == 0.0`.
pub record Arithmetic {ℓ} (A : Type ℓ) : Type ℓ where
  pub zero : A
  pub one : A
  pub add : A → A → A
  pub sub : A → A → A
  pub mul : A → A → A
  pub div : A → A → A
  pub is_zero : A → Bool

-- for (i = 0; i < n; i++)
unfoldable pub for {ℓ} : {S : Type ℓ} → ℕ → (ℕ → S → S) → S → S
for zero f s = s
for (suc n) f s = f n (for n f s)

-- The same loop with a `return 0` in its body.
unfoldable pub for_or_return {ℓ} : {S : Type ℓ} → ℕ → (ℕ → S → Option S) → S → Option S
for_or_return zero f s = some s
for_or_return (suc n) f s = elim (for_or_return n f s) [ none ↦ none | some s' ↦ f n s' ]

abbrev pub Matrix {ℓ} : Type ℓ → Type ℓ
Matrix A = ℕ → ℕ → A

abbrev pub put {ℓ} : {A : Type ℓ} → Matrix A → ℕ → ℕ → A → Matrix A
put M i j v a b = if (a == i) && (b == j) then v else M a b

module _ {ℓ} {A : Type ℓ} (ops : Arithmetic A) where
  -- The three nested loops of `matrix_multiply`, with their bounds. `X`, `Y` and `Z` are its A, B and C.
  unfoldable pub multiply : (r n c : ℕ) → Matrix A → Matrix A → Matrix A → Matrix A
  unfolding for
  multiply r n c X Y Z =
      for r
        (λ i C.
          for c
            (λ j C.
              for n (λ k C. put C i j (ops.add (C i j) (ops.mul (X i k) (Y k j))))
                (put C i j ops.zero))
            C)
        Z

  -- The augmented matrix, written over what the local array holds.
  unfoldable pub augment : (cols : ℕ) → Matrix A → Matrix A → Matrix A
  unfolding for
  augment cols X augmented =
      for cols
        (λ i M.
          for cols
            (λ j M. put (put M i j (X i j)) i (j + cols) (if i == j then ops.one else ops.zero)) M)
        augmented

  -- for (k = 0; k < 2 * COLS; k++) augmented[j][k] -= ratio * augmented[i][k];
  unfoldable pub subtract_row : (cols i j : ℕ) (ratio : A) → Matrix A → Matrix A
  unfolding for
  subtract_row cols i j ratio M =
      for (2 * cols) (λ k M. put M j k (ops.sub (M j k) (ops.mul ratio (M i k)))) M

  -- One round of the elimination; `none` is `return 0`, after the message "Mathematical Error!".
  unfoldable pub eliminate : (cols i : ℕ) → Matrix A → Option (Matrix A)
  unfolding for subtract_row
  eliminate cols i M =
      if ops.is_zero (M i i)
      then none
      else some (
          for cols (λ j M. if i == j then M else subtract_row cols i j (ops.div (M j i) (M i i)) M)
            M)

  -- The principal diagonal to 1.
  unfoldable pub scale_rows : (cols : ℕ) → Matrix A → Matrix A
  unfolding for
  scale_rows cols M =
      for cols
        (λ i M. let temp = M i i in for (2 * cols) (λ j M. put M i j (ops.div (M i j) temp)) M) M

  unfoldable pub extract : (cols : ℕ) → Matrix A → Matrix A → Matrix A
  unfolding for
  extract cols M B = for cols (λ i B. for cols (λ j B. put B i j (M i (j + cols))) B) B

  -- `none` is the return value 0, with `B` as it was; `augmented` is what the local array holds.
  unfoldable pub matrix_inverse : (cols : ℕ) (augmented X B : Matrix A) → Option (Matrix A)
  unfolding augment for_or_return eliminate scale_rows extract
  matrix_inverse cols augmented X B =
      elim (for_or_return cols (λ i M. eliminate cols i M) (augment cols X augmented)) [
        | none ↦ none
        | some M ↦ some (extract cols (scale_rows cols M) B)
      ]

module _ {ℓ} {A : Type ℓ} (ops : Arithmetic A) (rows cols : ℕ) where
  unfoldable pub matrix_multiply : Matrix A → Matrix A → Matrix A → Matrix A
  unfolding multiply
  matrix_multiply X Y Z = multiply ops rows cols rows X Y Z

  unfoldable pub matrix_multiply_alt : Matrix A → Matrix A → Matrix A → Matrix A
  unfolding multiply
  matrix_multiply_alt X Y Z = multiply ops cols rows cols X Y Z

  unfoldable pub matrix_transpose : Matrix A → Matrix A → Matrix A
  unfolding for
  matrix_transpose X Y = for rows (λ i Y. for cols (λ j Y. put Y j i (X i j)) Y) Y

  -- The first four are what the local arrays hold: `matrix_T`, `matrix_T_mul_matrix`,
  -- `inverse_matrix_T_mul_matrix`, and `augmented` of `matrix_inverse`. `none` is the message "Matrix inversion failed!", with
  -- `inverse` as it was.
  unfoldable pub calculate_pseudo_inverse :
      (local_T local_product local_inverse augmented matrix inverse : Matrix A) → Option (Matrix A)
  unfolding matrix_transpose matrix_multiply_alt matrix_inverse multiply
  calculate_pseudo_inverse local_T local_product local_inverse augmented matrix inverse =
      let matrix_T = matrix_transpose matrix local_T in
      let matrix_T_mul_matrix = matrix_multiply_alt matrix_T matrix local_product in
      elim (matrix_inverse ops cols augmented matrix_T_mul_matrix local_inverse) [
        | none ↦ none
        | some inverse_matrix_T_mul_matrix ↦
            some (multiply ops cols cols rows inverse_matrix_T_mul_matrix matrix_T inverse)
      ]
