-- ===== src/Pide/Matrix/Cells.antt =====
-- final/server.c: what the loops over arrays leave in each cell. Nothing is asked of the arithmetic,
-- so this holds of floating point numbers too.
use cse_344_homeworks.Prelude.{
  ℕ, zero, suc, ◌≡◌, ◌≢◌, ◌∙◌, refl, arith, ltb, ◌==◌, ◌&&◌, if◌then◌else◌,
}
use cse_344_homeworks.Pide.Matrix.{
  Arithmetic, Matrix, for, put, multiply, matrix_multiply, matrix_multiply_alt, matrix_transpose,
}

-- The sum that a loop `s += f(k)` leaves, from zero and from the left.
unfoldable pub sum {ℓ} : {A : Type ℓ} → Arithmetic A → ℕ → (ℕ → A) → A
unfolding for
sum ops n f = for n (λ k s. ops.add s (f k)) ops.zero

module _ {ℓ} {A : Type ℓ} where
  -- A loop that writes the row `j` from left to right, with the row `i` at hand.
  pub write_row :
      (g : A → A → A) (m i j a b : ℕ) (M : Matrix A)
      → i ≢ j
      → for m (λ k M. put M j k (g (M j k) (M i k))) M a b
        ≡ (if (a == j) && ltb b m then g (M j b) (M i b) else M a b)
  unfolding for
  write_row g zero i j a b M h = ground arith
  write_row g (suc m) i j a b M h =
      ground
        (arith, write_row g m i j a b M h, write_row g m i j j m M h, write_row g m i j i m M h)

  -- A loop whose rounds set one cell of a row each, and a loop whose rounds set one row each.
  pub fill_row :
      (step : ℕ → Matrix A → Matrix A) (f : ℕ → A) (i : ℕ)
      → ((j : ℕ) (M : Matrix A) (a b : ℕ)
          → step j M a b ≡ (if (a == i) && (b == j) then f j else M a b))
      → (m a b : ℕ) (M : Matrix A) → for m step M a b ≡ (if (a == i) && ltb b m then f b else M a b)
  unfolding for
  fill_row step f i h zero a b M = ground arith
  fill_row step f i h (suc m) a b M =
      rw (h m (for m step M) a b) (ground (arith, fill_row step f i h m a b M))

  pub fill_block :
      (step : ℕ → Matrix A → Matrix A) (f : ℕ → ℕ → A) (m : ℕ)
      → ((i : ℕ) (M : Matrix A) (a b : ℕ)
          → step i M a b ≡ (if (a == i) && ltb b m then f i b else M a b))
      → (n a b : ℕ) (M : Matrix A)
      → for n step M a b ≡ (if ltb a n && ltb b m then f a b else M a b)
  unfolding for
  fill_block step f m h zero a b M = ground arith
  fill_block step f m h (suc n) a b M =
      rw (h n (for n step M) a b) (ground (arith, fill_block step f m h n a b M))

module _ {ℓ} {A : Type ℓ} (ops : Arithmetic A) where
  -- `C[i][j]` after its initialisation and `m` rounds of `+=`.
  accumulate_cell :
      (f : ℕ → A) (m i j a b : ℕ) (M : Matrix A)
      → for m (λ k M. put M i j (ops.add (M i j) (f k))) (put M i j ops.zero) a b
        ≡ (if (a == i) && (b == j) then sum ops m f else M a b)
  unfolding for sum
  accumulate_cell f zero i j a b M = refl
  accumulate_cell f (suc m) i j a b M =
      ground (arith, accumulate_cell f m i j a b M, accumulate_cell f m i j i j M)

  pub multiply_cell :
      (r n c : ℕ) (X Y Z : Matrix A) (a b : ℕ)
      → multiply ops r n c X Y Z a b
        ≡ (if ltb a r && ltb b c then sum ops n (λ k. ops.mul (X a k) (Y k b)) else Z a b)
  unfolding multiply
  multiply_cell r n c X Y Z a b =
      fill_block _ (λ i j. sum ops n (λ k. ops.mul (X i k) (Y k j))) c
        (λ i M a b.
          fill_row _ (λ j. sum ops n (λ k. ops.mul (X i k) (Y k j))) i
            (λ j M a b. accumulate_cell (λ k. ops.mul (X i k) (Y k j)) n i j a b M) c a b M)
        r a b Z

  pub transpose_cell :
      (rows cols : ℕ) (X Y : Matrix A) (a b : ℕ)
      → matrix_transpose ops rows cols X Y a b ≡ (if ltb a cols && ltb b rows then X b a else Y a b)
  unfolding matrix_transpose for
  transpose_cell zero cols X Y a b = ground arith
  transpose_cell (suc rows) cols X Y a b =
      column cols (matrix_transpose ops rows cols X Y)
      ∙ ground (arith, transpose_cell rows cols X Y a b)
    where
      column :
          (m : ℕ) (M : Matrix A)
          → for m (λ j M. put M j rows (X rows j)) M a b
            ≡ (if ltb a m && (b == rows) then X rows a else M a b)
      column zero M = ground arith
      column (suc m) M = ground (arith, column m M)

  -- `matrix_multiply` and `matrix_multiply_alt` leave in each cell within the bounds of the result
  -- the sum of the products over the inner dimension, added up from zero and from the left, whatever
  -- the result held before, and leave all other cells alone. No law of arithmetic is needed.
  pub products_cell :
      (rows cols : ℕ) (X Y Z : Matrix A) (a b : ℕ)
      → (matrix_multiply ops rows cols X Y Z a b ≡ (
          if ltb a rows && ltb b rows then sum ops cols (λ k. ops.mul (X a k) (Y k b)) else Z a b))
        × (matrix_multiply_alt ops rows cols X Y Z a b ≡ (
            if ltb a cols && ltb b cols
            then sum ops rows (λ k. ops.mul (X a k) (Y k b))
            else Z a b))
  unfolding matrix_multiply matrix_multiply_alt
  products_cell rows cols X Y Z a b =
      (multiply_cell rows cols rows X Y Z a b, multiply_cell cols rows cols X Y Z a b)
