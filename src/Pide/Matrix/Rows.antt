-- ===== src/Pide/Matrix/Rows.antt =====
-- final/server.c: what the steps of `matrix_inverse` leave in each cell of the augmented matrix.
use mathlib.Core.Bool
use cse_344_homeworks.Prelude.{
  ℕ, zero, suc, ◌+◌, ◌*◌, ◌<◌, ◌≤◌, ◌≡◌, ◌≢◌, refl, sym, arith, Bool, true, false, some, none, inl,
  inr, Bool-cases, not, ℕ_discrete, ltb, lt→ltb, ◌==◌, ◌&&◌, if◌then◌else◌, some_injective,
}
use cse_344_homeworks.Pide.Matrix.{
  Arithmetic, Matrix, for, put, augment, subtract_row, scale_rows, extract, eliminate,
}
use cse_344_homeworks.Pide.Matrix.Cells.{write_row, fill_row, fill_block}

module _ {ℓ} {A : Type ℓ} (ops : Arithmetic A) where
  pub subtract_row_cell :
      (cols i j : ℕ) (ratio : A) (M : Matrix A) (a b : ℕ)
      → i ≢ j
      → subtract_row ops cols i j ratio M a b
        ≡ (if (a == j) && ltb b (2 * cols) then ops.sub (M j b) (ops.mul ratio (M i b)) else M a b)
  unfolding subtract_row
  subtract_row_cell cols i j ratio M a b h =
      write_row (λ x y. ops.sub x (ops.mul ratio y)) (2 * cols) i j a b M h

  next_cell :
      (f : ℕ → A) (i m a b : ℕ) (x y : A)
      → x ≡ (if (a == i) && ltb b m then f b else y)
      → (if (a == i) && (b == m) then f m else x) ≡ (if (a == i) && ltb b (suc m) then f b else y)
  next_cell f i m a b x y h = ground arith

  -- A row of two halves, of which the loop writes a cell each.
  augment_row :
      (f g : ℕ → A) (cols i m a b : ℕ) (M : Matrix A)
      → m ≤ cols
      → b < cols
      → (for m (λ j M. put (put M i j (f j)) i (j + cols) (g j)) M a b
          ≡ (if (a == i) && ltb b m then f b else M a b))
        × (for m (λ j M. put (put M i j (f j)) i (j + cols) (g j)) M a (b + cols)
            ≡ (if (a == i) && ltb b m then g b else M a (b + cols)))
  unfolding for
  augment_row f g cols i zero a b M h hb = ground arith
  augment_row f g cols i (suc m) a b M h hb =
      let apart : (b + cols == m) ≡ false = ground arith in
      let apart' : (b == m + cols) ≡ false = ground arith in
      let right : (b + cols == m + cols) ≡ (b == m) = ground arith in
      let (l, r) = augment_row f g cols i m a b M (omega arith) hb in
      rw (apart, apart', right, Bool.and-false)
        (next_cell f i m a b _ _ l, next_cell g i m a b _ _ r)

  augment_rows :
      (f g : ℕ → ℕ → A) (cols n a b : ℕ) (M : Matrix A)
      → b < cols
      → let N : Matrix A =
          for n (λ i M. for cols (λ j M. put (put M i j (f i j)) i (j + cols) (g i j)) M) M in
        (N a b ≡ (if ltb a n then f a b else M a b))
        × (N a (b + cols) ≡ (if ltb a n then g a b else M a (b + cols)))
  unfolding for
  augment_rows f g cols zero a b M hb = ground arith
  augment_rows f g cols (suc n) a b M hb =
      let (left, right) =
        augment_row (f n) (g n) cols n cols a b
          (for n (λ i M. for cols (λ j M. put (put M i j (f i j)) i (j + cols) (g i j)) M) M)
          (omega arith) hb in
      rw (left, right) (ground (arith, augment_rows f g cols n a b M hb))

  -- The matrix and, to its right, the identity.
  pub augment_cell :
      (cols : ℕ) (X M : Matrix A) (a b : ℕ)
      → a < cols
      → b < cols
      → (augment ops cols X M a b ≡ X a b)
        × (augment ops cols X M a (b + cols) ≡ (if a == b then ops.one else ops.zero))
  unfolding augment
  augment_cell cols X M a b ha hb =
      let (left, right) =
        augment_rows X (λ i j. if i == j then ops.one else ops.zero) cols cols a b M hb in
      rw (left, right, lt→ltb a cols ha) (refl, refl)

  abbrev scale_rounds_of : ℕ → ℕ → Matrix A → Matrix A
  scale_rounds_of cols n M =
      for n (λ i M. let temp = M i i in for (2 * cols) (λ j M. put M i j (ops.div (M i j) temp)) M)
        M

  abbrev eliminate_rows_of : (cols i n : ℕ) → Matrix A → Matrix A
  eliminate_rows_of cols i n M =
      for n (λ j M. if i == j then M else subtract_row ops cols i j (ops.div (M j i) (M i i)) M) M

  scale_row :
      (cols i a b : ℕ) (temp : A) (M : Matrix A)
      → for (2 * cols) (λ j M. put M i j (ops.div (M i j) temp)) M a b
        ≡ (if (a == i) && ltb b (2 * cols) then ops.div (M i b) temp else M a b)
  scale_row cols i a b temp M =
      write_row (λ x _. ops.div x temp) (2 * cols) (suc i) i a b M (omega arith)

  scale_rounds :
      (cols n a b : ℕ) (M : Matrix A)
      → scale_rounds_of cols n M a b
        ≡ (if ltb a n && ltb b (2 * cols) then ops.div (M a b) (M a a) else M a b)
  unfolding for
  scale_rounds cols zero a b M = ground arith
  scale_rounds cols (suc n) a b M =
      rw (scale_row cols n a b (scale_rounds_of cols n M n n) (scale_rounds_of cols n M)) (
        ground
          (arith, scale_rounds cols n a b M, scale_rounds cols n n b M, scale_rounds cols n n n M))

  -- Each row is divided by its own diagonal entry.
  pub scale_rows_cell :
      (cols : ℕ) (M : Matrix A) (a b : ℕ)
      → a < cols
      → b < 2 * cols
      → scale_rows ops cols M a b ≡ ops.div (M a b) (M a a)
  unfolding scale_rows
  scale_rows_cell cols M a b ha hb =
      rw (scale_rounds cols cols a b M, lt→ltb a cols ha, lt→ltb b (2 * cols) hb) refl

  pub extract_cell :
      (cols : ℕ) (M B : Matrix A) (a b : ℕ)
      → extract ops cols M B a b ≡ (if ltb a cols && ltb b cols then M a (b + cols) else B a b)
  unfolding extract
  extract_cell cols M B a b =
      fill_block _ (λ i j. M i (j + cols)) cols
        (λ i N a b. fill_row _ (λ j. M i (j + cols)) i (λ j N a b. refl) cols a b N) cols a b B

  -- The rounds over the other rows of an elimination.
  eliminate_rows :
      (cols i n a b : ℕ) (M : Matrix A)
      → eliminate_rows_of cols i n M a b ≡ (
          if ltb a n && not (i == a) && ltb b (2 * cols)
          then ops.sub (M a b) (ops.mul (ops.div (M a i) (M i i)) (M i b))
          else M a b)
  unfolding for
  eliminate_rows cols i zero a b M = ground arith
  eliminate_rows cols i (suc n) a b M = elim (ℕ_discrete i n) [
    | yes e ↦ ground (arith, eliminate_rows cols i n a b M)
    | no h ↦
        let apart : (i == n) ≡ false = ground arith in
        let X = eliminate_rows_of cols i n M in
        rw (apart, subtract_row_cell cols i n (ops.div (X n i) (X i i)) X a b h)
          (ground (
            arith,
            eliminate_rows cols i n a b M,
            eliminate_rows cols i n n b M,
            eliminate_rows cols i n n i M,
            eliminate_rows cols i n i i M,
            eliminate_rows cols i n i b M,
          ))
  ]

  else_some :
      (t : Bool) (x y : Matrix A) → (if t then none else some x) ≡ some y → (t ≡ false) × (x ≡ y)
  else_some true x y h = absurd (ground (arith, h))
  else_some false x y h = (refl, some_injective h)

  -- A round that does not return leaves its own row alone and changes the other rows at once.
  pub eliminate_cell :
      (cols i : ℕ) (M N : Matrix A)
      → eliminate ops cols i M ≡ some N
      → (ops.is_zero (M i i) ≡ false)
        × ((a b : ℕ)
            → a < cols
            → b < 2 * cols
            → N a b ≡ (
                if i == a
                then M a b
                else ops.sub (M a b) (ops.mul (ops.div (M a i) (M i i)) (M i b))))
  unfolding eliminate
  eliminate_cell cols i M N h =
      let (pivot, e) = else_some (ops.is_zero (M i i)) (eliminate_rows_of cols i cols M) N h in
      (
        pivot,
        λ a b ha hb.
            rw (sym e, eliminate_rows cols i cols a b M, lt→ltb a cols ha, lt→ltb b (2 * cols) hb)
              (elim (Bool-cases (i == a)) [ inl t ↦ rw t refl | inr f ↦ rw f refl ]),
      )
