-- ===== src/Pide/Matrix/Exact.antt =====
-- final/server.c: exact arithmetic, the laws that the inverse of `matrix_inverse` rests on. Floating
-- point numbers meet them up to rounding only.
use cse_344_homeworks.Prelude.{
  ℕ, zero, suc, ◌<◌, ◌≡◌, ◌∙◌, ◌↔◌, refl, sym, ap, arith, true, false, ltb, ◌==◌, if◌then◌else◌,
}
use cse_344_homeworks.Pide.Matrix.{Arithmetic, Matrix, for}
use cse_344_homeworks.Pide.Matrix.Cells.{sum}

pub record IsField {ℓ} {A : Type ℓ} (ops : Arithmetic A) : Type ℓ where
  pub add_assoc : (a b c : A) → ops.add (ops.add a b) c ≡ ops.add a (ops.add b c)
  pub add_comm : (a b : A) → ops.add a b ≡ ops.add b a
  pub add-zero : (a : A) → ops.add a ops.zero ≡ a
  pub add-sub : (a b : A) → ops.sub (ops.add a b) b ≡ a
  pub sub-add : (a b : A) → ops.add (ops.sub a b) b ≡ a
  pub mul_assoc : (a b c : A) → ops.mul (ops.mul a b) c ≡ ops.mul a (ops.mul b c)
  pub mul_comm : (a b : A) → ops.mul a b ≡ ops.mul b a
  pub mul-one : (a : A) → ops.mul a ops.one ≡ a
  pub mul-add : (a b c : A) → ops.mul a (ops.add b c) ≡ ops.add (ops.mul a b) (ops.mul a c)
  pub div-mul : (a b : A) → ops.is_zero b ≡ false → ops.mul (ops.div a b) b ≡ a
  pub is_zero_iff : (a : A) → (ops.is_zero a ≡ true) ↔ (a ≡ ops.zero)
  pub one_nonzero : ops.is_zero ops.one ≡ false

module _ {ℓ} {A : Type ℓ} {ops : Arithmetic A} (F : IsField ops) where
  pub add_cancel : (a b c : A) → ops.add a c ≡ ops.add b c → a ≡ b
  add_cancel a b c h = sym (F.add-sub a c) ∙ ap (λ x. ops.sub x c) h ∙ F.add-sub b c

  pub eq-sub : (a b c : A) → ops.add a b ≡ c → a ≡ ops.sub c b
  eq-sub a b c h = sym (F.add-sub a b) ∙ ap (λ x. ops.sub x b) h

  pub zero-add : (a : A) → ops.add ops.zero a ≡ a
  zero-add a = F.add_comm ops.zero a ∙ F.add-zero a

  pub sub_self : (a : A) → ops.sub a a ≡ ops.zero
  sub_self a = sym (eq-sub ops.zero a a (zero-add a))

  pub sub-zero : (a : A) → ops.sub a ops.zero ≡ a
  sub-zero a = sym (eq-sub a ops.zero a (F.add-zero a))

  pub mul-zero : (a : A) → ops.mul a ops.zero ≡ ops.zero
  mul-zero a = sym (
      add_cancel ops.zero (ops.mul a ops.zero) (ops.mul a ops.zero)
        (zero-add _ ∙ ap (ops.mul a) (sym (F.add-zero ops.zero)) ∙ F.mul-add a ops.zero ops.zero))

  pub zero-mul : (a : A) → ops.mul ops.zero a ≡ ops.zero
  zero-mul a = F.mul_comm ops.zero a ∙ mul-zero a

  pub mul-sub : (a b c : A) → ops.mul a (ops.sub b c) ≡ ops.sub (ops.mul a b) (ops.mul a c)
  mul-sub a b c = eq-sub _ _ _ (sym (F.mul-add a (ops.sub b c) c) ∙ ap (ops.mul a) (F.sub-add b c))

  pub sub-mul : (a b c : A) → ops.mul (ops.sub a b) c ≡ ops.sub (ops.mul a c) (ops.mul b c)
  sub-mul a b c = rw (F.mul_comm (ops.sub a b) c, F.mul_comm a c, F.mul_comm b c) (mul-sub c a b)

  pub mul_cancel : (a b c : A) → ops.is_zero c ≡ false → ops.mul a c ≡ ops.mul b c → a ≡ b
  mul_cancel a b c h e = back a ∙ ap (λ x. ops.mul x (ops.div ops.one c)) e ∙ sym (back b)
    where
      back : (x : A) → x ≡ ops.mul (ops.mul x c) (ops.div ops.one c)
      back x = sym (
          F.mul_assoc x c _ ∙ ap (ops.mul x) (F.mul_comm c _ ∙ F.div-mul ops.one c h) ∙ F.mul-one x)

  pub div_self : (a : A) → ops.is_zero a ≡ false → ops.div a a ≡ ops.one
  div_self a h = mul_cancel _ _ a h (F.div-mul a a h ∙ sym (F.mul_comm ops.one a ∙ F.mul-one a))

  pub zero-div : (a : A) → ops.is_zero a ≡ false → ops.div ops.zero a ≡ ops.zero
  zero-div a h = mul_cancel _ _ a h (F.div-mul ops.zero a h ∙ sym (zero-mul a))

  pub div-eq-mul : (a b : A) → ops.is_zero b ≡ false → ops.div a b ≡ ops.mul a (ops.div ops.one b)
  div-eq-mul a b h = mul_cancel _ _ b h (
      F.div-mul a b h
      ∙ sym (F.mul_assoc a _ b ∙ ap (ops.mul a) (F.div-mul ops.one b h) ∙ F.mul-one a))

  pub add_interchange :
      (a b c d : A) → ops.add (ops.add a b) (ops.add c d) ≡ ops.add (ops.add a c) (ops.add b d)
  add_interchange a b c d =
      F.add_assoc a b _
      ∙ ap (ops.add a)
          (sym (F.add_assoc b c d) ∙ ap (λ x. ops.add x d) (F.add_comm b c) ∙ F.add_assoc c b d)
      ∙ sym (F.add_assoc a c _)

-- Sums.
module _ {ℓ} {A : Type ℓ} (ops : Arithmetic A) where
  pub sum_congr : (n : ℕ) (f g : ℕ → A) → ((k : ℕ) → k < n → f k ≡ g k) → sum ops n f ≡ sum ops n g
  unfolding sum for
  sum_congr zero f g h = refl
  sum_congr (suc n) f g h = rw (h n (omega arith), sum_congr n f g (λ k lt. h k (omega arith))) refl

module _ {ℓ} {A : Type ℓ} {ops : Arithmetic A} (F : IsField ops) where
  pub sum-zero : (n : ℕ) → sum ops n (λ _. ops.zero) ≡ ops.zero
  unfolding sum for
  sum-zero zero = refl
  sum-zero (suc n) = rw (sum-zero n) (F.add-zero ops.zero)

  pub sum-add :
      (n : ℕ) (f g : ℕ → A)
      → sum ops n (λ k. ops.add (f k) (g k)) ≡ ops.add (sum ops n f) (sum ops n g)
  unfolding sum for
  sum-add zero f g = sym (F.add-zero ops.zero)
  sum-add (suc n) f g = rw (sum-add n f g) (add_interchange F _ _ _ _)

  pub mul-sum :
      (n : ℕ) (a : A) (f : ℕ → A) → ops.mul a (sum ops n f) ≡ sum ops n (λ k. ops.mul a (f k))
  unfolding sum for
  mul-sum zero a f = mul-zero F a
  mul-sum (suc n) a f = F.mul-add a _ _ ∙ ap (λ x. ops.add x (ops.mul a (f n))) (mul-sum n a f)

  pub sum-mul :
      (n : ℕ) (f : ℕ → A) (a : A) → ops.mul (sum ops n f) a ≡ sum ops n (λ k. ops.mul (f k) a)
  sum-mul n f a = F.mul_comm _ a ∙ mul-sum n a f ∙ sum_congr ops n _ _ (λ k _. F.mul_comm a (f k))

  pub sum-sub :
      (n : ℕ) (f g : ℕ → A)
      → sum ops n (λ k. ops.sub (f k) (g k)) ≡ ops.sub (sum ops n f) (sum ops n g)
  sum-sub n f g = eq-sub F _ _ _ (
      sym (sum-add n (λ k. ops.sub (f k) (g k)) g)
      ∙ sum_congr ops n _ _ (λ k _. F.sub-add (f k) (g k)))

  -- Only the term at `i` survives.
  pub sum_single :
      (n i : ℕ) (f : ℕ → A)
      → sum ops n (λ k. if i == k then f k else ops.zero) ≡ (if ltb i n then f i else ops.zero)
  unfolding sum for
  sum_single zero i f = ground arith
  sum_single (suc n) i f =
      ground (arith, sum_single n i f, F.add-zero (f i), zero-add F (f n), F.add-zero ops.zero)

  pub sum_comm :
      (m n : ℕ) (f : ℕ → ℕ → A)
      → sum ops m (λ i. sum ops n (λ j. f i j)) ≡ sum ops n (λ j. sum ops m (λ i. f i j))
  unfolding sum for
  sum_comm zero n f = sym (sum-zero n)
  sum_comm (suc m) n f =
      ap (λ x. ops.add x (sum ops n (f m))) (sum_comm m n f)
      ∙ sym (sum-add n (λ j. sum ops m (λ i. f i j)) (f m))

  -- (P Q) v = P (Q v), in one row of P.
  pub product_apply :
      (m n : ℕ) (p : ℕ → A) (Q : Matrix A) (v : ℕ → A)
      → sum ops n (λ b. ops.mul (sum ops m (λ k. ops.mul (p k) (Q k b))) (v b))
        ≡ sum ops m (λ k. ops.mul (p k) (sum ops n (λ b. ops.mul (Q k b) (v b))))
  product_apply m n p Q v =
      sum_congr ops n _ _
        (λ b _. sum-mul m _ (v b) ∙ sum_congr ops m _ _ (λ k _. F.mul_assoc (p k) (Q k b) (v b)))
      ∙ sum_comm n m (λ b k. ops.mul (p k) (ops.mul (Q k b) (v b)))
      ∙ sum_congr ops m _ _ (λ k _. sym (mul-sum n (p k) _))
