-- ===== src/Students/Bubble.antt =====
-- hw1/gtuStudentManagemetSystem.c: the bubble sorts of `sort_by_student_name_ascending` and
-- `sort_by_student_name_descending`, for any test `swap` that asks for an exchange.
pub mod Laws
use cse_344_homeworks.Prelude.{ℕ, zero, suc, ◌-◌, Bool, List, [], ◌∷◌, if◌then◌else◌, length}

module _ {ℓ} {A : Type ℓ} (swap : A → A → Bool) where
  -- The pair, exchanged if the test asks for it.
  abbrev pub lower : A → A → A
  lower x y = if swap x y then y else x

  abbrev pub upper : A → A → A
  upper x y = if swap x y then x else y

  -- The inner loop, from the front, for that many values of `j`.
  unfoldable pub bubble_pass : ℕ → List A → List A
  bubble_pass zero lines = lines
  bubble_pass (suc n) (x ∷ y ∷ lines) = lower x y ∷ bubble_pass n (upper x y ∷ lines)
  bubble_pass (suc n) lines = lines

  -- The outer loop: lines_number - i - 1 goes down from lines_number - 1 to 1.
  unfoldable pub bubble_rounds : ℕ → List A → List A
  unfolding bubble_pass
  bubble_rounds zero lines = lines
  bubble_rounds (suc n) lines = bubble_rounds n (bubble_pass (suc n) lines)

  unfoldable pub bubble_sort : List A → List A
  unfolding bubble_rounds
  bubble_sort lines = bubble_rounds (length lines - 1) lines
