-- ===== src/Students/Grades/Ranks.antt =====
-- The ranks of grades, and what the comparison functions say of them.
use mathlib.Core.List.{Perm}
use cse_344_homeworks.Prelude.{
  ℕ, ◌+◌, ◌≤◌, ◌≡◌, refl, sym, subst, ◌⊎◌, ◌↔◌, inl, inr, false, List, [], ◌∷◌, All, arith,
  Bool-cases,
}
use cse_344_homeworks.Prelude.Text.{Text, str_eq, eq_of_str_eq}
use cse_344_homeworks.Prelude.Int.{ℤ, pos, ◌≤ℤ◌, ◌-ℤ◌}
use cse_344_homeworks.Students.Bubble.Laws.{Sorted}
use cse_344_homeworks.Students.Grades.{
  grade_order, grade_of, first_index, last_index, compare_grades_ascending,
  compare_grades_descending,
}

-- The place of a line's grade in the order from the lowest to the highest.
abbrev pub rank : Text → ℕ
rank line = first_index (grade_of line) grade_order 0

last_index_miss :
    (grade : Text) (l : List Text) (i index : ℕ)
    → All (λ g. str_eq grade g ≡ false) l
    → last_index grade l i index ≡ index
last_index_miss grade [] i index p = refl
last_index_miss grade (g ∷ l) i index p = rw p.0 (last_index_miss grade l (i + 1) index p.1)

-- No two of the grades are equal, so the last hit is the first.
abbrev pub Distinct : List Text → Type 0
Distinct = Sorted (λ g h. str_eq g h ≡ false)

last_index_first :
    (grade : Text) (l : List Text) (i : ℕ)
    → Distinct l
    → last_index grade l i 0 ≡ first_index grade l i
last_index_first grade [] i p = refl
last_index_first grade (g ∷ l) i p = elim (Bool-cases (str_eq grade g)) [
  | inl hit ↦
      let same : grade ≡ g = eq_of_str_eq grade g hit in
      rw hit (
        last_index_miss grade l (i + 1) i
          (subst (λ x. All (λ h. str_eq x h ≡ false) l) (sym same) p.0))
  | inr miss ↦ rw miss (last_index_first grade l (i + 1) p.1)
]

grade_order-Distinct : Distinct grade_order
unfolding str_eq
grade_order-Distinct = ground arith

descending_ranks : (a b : Text) → compare_grades_descending a b ≡ pos (rank a) -ℤ pos (rank b)
unfolding compare_grades_descending
descending_ranks a b =
    rw
      (
        last_index_first (grade_of a) grade_order 0 grade_order-Distinct,
        last_index_first (grade_of b) grade_order 0 grade_order-Distinct,
      )
      refl

-- What `qsort` asks of a comparison function.
abbrev pub IsComparison : (Text → Text → ℤ) → Type 0
IsComparison cmp =
    ((a b : Text) → (cmp a b ≤ℤ pos 0) ⊎ (cmp b a ≤ℤ pos 0))
    × ((a b c : Text) → cmp a b ≤ℤ pos 0 → cmp b c ≤ℤ pos 0 → cmp a c ≤ℤ pos 0)

-- The contract of `qsort`.
abbrev pub IsQsort : ((Text → Text → ℤ) → List Text → List Text) → Type 0
IsQsort qsort =
    (cmp : Text → Text → ℤ) (ls : List Text)
    → IsComparison cmp
    → Sorted (λ a b. cmp a b ≤ℤ pos 0) (qsort cmp ls) × Perm (qsort cmp ls) ls

le_of_diff : (m n : ℕ) → pos m -ℤ pos n ≤ℤ pos 0 → m ≤ n
unfolding ◌-ℤ◌
le_of_diff m n h = ground arith

diff_of_le : (m n : ℕ) → m ≤ n → pos m -ℤ pos n ≤ℤ pos 0
unfolding ◌-ℤ◌
diff_of_le m n h = ground arith

-- What the two comparison functions say.
pub descending_le : (a b : Text) → (compare_grades_descending a b ≤ℤ pos 0) ↔ (rank a ≤ rank b)
descending_le a b = (
  λ h. le_of_diff (rank a) (rank b) (subst (λ d. d ≤ℤ pos 0) (descending_ranks a b) h),
  λ h. subst (λ d. d ≤ℤ pos 0) (sym (descending_ranks a b)) (diff_of_le (rank a) (rank b) h),
)

pub ascending_le : (a b : Text) → (compare_grades_ascending a b ≤ℤ pos 0) ↔ (rank b ≤ rank a)
unfolding compare_grades_ascending
ascending_le a b = (le_of_diff (rank b) (rank a), diff_of_le (rank b) (rank a))

total : (m n : ℕ) → (m ≤ n) ⊎ (n ≤ m)
total m n = omega arith

pub IsComparison-descending : IsComparison compare_grades_descending
IsComparison-descending = (
  λ a b. elim (total (rank a) (rank b)) [
    | inl h ↦ inl ((descending_le a b).1 h)
    | inr h ↦ inr ((descending_le b a).1 h)
  ],
  λ a b c h k.
      let up = (descending_le a b).0 h in
      let on = (descending_le b c).0 k in (descending_le a c).1 (omega arith),
)

pub IsComparison-ascending : IsComparison compare_grades_ascending
IsComparison-ascending = (
  λ a b. elim (total (rank b) (rank a)) [
    | inl h ↦ inl ((ascending_le a b).1 h)
    | inr h ↦ inr ((ascending_le b a).1 h)
  ],
  λ a b c h k.
      let up = (ascending_le a b).0 h in
      let on = (ascending_le b c).0 k in (ascending_le a c).1 (omega arith),
)
