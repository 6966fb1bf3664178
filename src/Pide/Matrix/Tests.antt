-- ===== src/Pide/Matrix/Tests.antt =====
-- final/server.c, the matrices: runs in the field of two elements, and the witnesses.
use cse_344_homeworks.Prelude.{
  ◌≡◌, refl, arith, Bool, true, false, not, ◌&&◌, none, some, ◌==◌, leb,
}
use cse_344_homeworks.Pide.Matrix.{
  Arithmetic, Matrix, for, for_or_return, augment, subtract_row, eliminate, scale_rows, extract,
  matrix_inverse, matrix_multiply, matrix_multiply_alt, matrix_transpose, multiply,
  calculate_pseudo_inverse,
}
use cse_344_homeworks.Pide.Matrix.Cells.{sum, products_cell}
use cse_344_homeworks.Pide.Matrix.Exact.{IsField}
use cse_344_homeworks.Pide.Matrix.Inverse.{matrix_inverse-left}
use cse_344_homeworks.Pide.Matrix.Pseudo.{gram, IsPseudo, calculate_pseudo_inverse_cell}

abbrev xor : Bool → Bool → Bool
xor true b = not b
xor false b = b

abbrev two : Arithmetic Bool
two = record {
  zero = false;
  one = true;
  add = xor;
  sub = xor;
  mul = ◌&&◌;
  div = ◌&&◌;
  is_zero = not;
}

two-IsField : IsField two
two-IsField = record {
  add_assoc = λ a b c. ground arith;
  add_comm = λ a b. ground arith;
  add-zero = λ a. ground arith;
  add-sub = λ a b. ground arith;
  sub-add = λ a b. ground arith;
  mul_assoc = λ a b c. ground arith;
  mul_comm = λ a b. ground arith;
  mul-one = λ a. ground arith;
  mul-add = λ a b c. ground arith;
  div-mul = λ a b h. ground (arith, h);
  is_zero_iff = λ a. ground arith;
  one_nonzero = refl;
}

-- 1 1
-- 0 1
abbrev upper : Matrix Bool
upper i j = leb i j

-- 0 1
-- 1 0
abbrev swap : Matrix Bool
swap i j = not (i == j)

abbrev blank : Matrix Bool
blank i j = true

abbrev inverse_of_upper : Matrix Bool
inverse_of_upper = elim (matrix_inverse two 2 blank upper blank) [ none ↦ blank | some C ↦ C ]

upper_inverse : matrix_inverse two 2 blank upper blank ≡ some inverse_of_upper
unfolding matrix_inverse for for_or_return augment eliminate subtract_row scale_rows extract
upper_inverse = refl

-- No rows are exchanged: this matrix is its own inverse, but its first pivot is zero.
swap_fails : matrix_inverse two 2 blank swap blank ≡ none
unfolding matrix_inverse for for_or_return augment eliminate
swap_fails = refl

products_cell_example :
    (matrix_multiply two 2 3 upper swap blank 0 1 ≡ sum two 3 (λ k. upper 0 k && swap k 1))
    × (matrix_multiply_alt two 2 3 upper swap blank 0 1 ≡ sum two 2 (λ k. upper 0 k && swap k 1))
products_cell_example = products_cell two 2 3 upper swap blank 0 1

matrix_inverse-left_example : sum two 2 (λ k. inverse_of_upper 0 k && upper k 1) ≡ false
matrix_inverse-left_example =
    matrix_inverse-left two-IsField 2 blank upper blank inverse_of_upper 0 1 upper_inverse
      (omega arith) (omega arith)

-- The product of its transpose and itself has no inverse, as that of any matrix with more columns than rows.
wide_fails : calculate_pseudo_inverse two 1 2 blank blank blank blank upper blank ≡ none
unfolding calculate_pseudo_inverse matrix_transpose matrix_multiply_alt multiply matrix_inverse for
    for_or_return augment eliminate subtract_row
wide_fails = refl

-- A row of one: the product is 1, and so is its inverse.
abbrev inverse_of_one : Matrix Bool
unfolding matrix_multiply_alt matrix_transpose multiply matrix_inverse for for_or_return augment
    eliminate subtract_row scale_rows extract
inverse_of_one =
    elim (matrix_inverse two 1 blank (gram two 1 1 blank blank blank blank upper blank) blank) [
      | none ↦ blank
      | some B ↦ B
    ]

one_inverse :
    matrix_inverse two 1 blank (gram two 1 1 blank blank blank blank upper blank) blank
    ≡ some inverse_of_one
unfolding matrix_multiply_alt matrix_transpose multiply matrix_inverse for for_or_return augment
    eliminate subtract_row scale_rows extract inverse_of_one
one_inverse = refl

calculate_pseudo_inverse_cell_example :
    (gram two 1 1 blank blank blank blank upper blank 0 0 ≡ sum two 1 (λ k. upper k 0 && upper k 0))
    × IsPseudo two 1 1 blank blank blank blank upper blank 0 0
        (some inverse_of_one)
        (calculate_pseudo_inverse two 1 1 blank blank blank blank upper blank)
calculate_pseudo_inverse_cell_example =
    calculate_pseudo_inverse_cell two 1 1 blank blank blank blank upper blank 0 0 0 0
      (some inverse_of_one) (omega arith) (omega arith) one_inverse
