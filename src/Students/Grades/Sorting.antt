-- ===== src/Students/Grades/Sorting.antt =====
-- The order in which the sorts by grade print the lines.
use mathlib.Core.List.{Perm}
use cse_344_homeworks.Prelude.{
  ℕ, ◌-◌, ◌≤◌, ◌<◌, ◌≡◌, refl, ◌↔◌, inl, inr, Bool, true, false, List, [], ◌∷◌, ◌++◌, some, length,
  All, arith,
}
use cse_344_homeworks.Prelude.Text.{Text, codes}
use cse_344_homeworks.Prelude.Int.{ℤ, pos, ltb_ℤ, ◌≤ℤ◌}
use cse_344_homeworks.Students.Lines.{lines, unlines}
use cse_344_homeworks.Prelude.{take_all}
use cse_344_homeworks.Students.Bubble.{bubble_sort}
use cse_344_homeworks.Students.Bubble.Laws.{Sorted, bubble_sort-Sorted}
use cse_344_homeworks.Students.Grades.{
  compare_grades_ascending, compare_grades_descending, Outcome, all_have_space,
  sort_by_grade_ascending, sort_by_grade_descending,
}
use cse_344_homeworks.Students.World.{World, say, log_message}
use cse_344_homeworks.Students.Grades.Ranks.{
  rank, IsQsort, descending_le, ascending_le, IsComparison-descending, IsComparison-ascending,
}

All-weaken {ℓ κ μ} :
    {A : Type ℓ} (P : A → Type κ) (Q : A → Type μ)
    → ((a : A) → P a → Q a)
    → (ls : List A) → All P ls
    → All Q ls
All-weaken P Q f [] p = tt
All-weaken P Q f (x ∷ ls) p = (f x p.0, All-weaken P Q f ls p.1)

Sorted-map {ℓ κ μ} :
    {A : Type ℓ} (R : A → A → Type κ) (S : A → A → Type μ)
    → ((a b : A) → R a b → S a b)
    → (ls : List A) → Sorted R ls
    → Sorted S ls
Sorted-map R S f [] s = tt
Sorted-map R S f (x ∷ ls) s = (All-weaken (R x) (S x) (f x) ls s.0, Sorted-map R S f ls s.1)

-- The run prints these lines in another order, one in which each stands in the relation to all
-- behind it.
abbrev pub PrintsBy : (Text → Text → Type 0) → List Text → World → Outcome → Type 0
PrintsBy R ls w result =
    (sorted : List Text) × Sorted R sorted
    × Perm sorted ls
    × (v : World) × (result ≡ Outcome.returned v)
    × (v.out ≡ w.out ++ unlines sorted)

module _ (size students : ℕ) (qsort : (Text → Text → ℤ) → List Text → List Text)
    (filename content : Text) (w : World) where
  ascending_run :
      w.file filename ≡ some content
      → length content < size
      → length (lines content) ≤ students
      → all_have_space (lines content) ≡ true
      → sort_by_grade_ascending size students qsort filename w
        ≡ Outcome.returned (
            say (unlines (qsort compare_grades_ascending (lines content))) (
              log_message
                (codes "Sorted by grade ascending successfully in sort_by_grade_ascending.")
                w))
  unfolding sort_by_grade_ascending
  ascending_run e h k s =
      rw (sort_by_grade_ascending, e, take_all (size - 1) content (omega arith)) (ground arith)

  descending_run :
      w.file filename ≡ some content
      → length content < size
      → length (lines content) ≤ students
      → all_have_space (lines content) ≡ true
      → sort_by_grade_descending size students qsort filename w
        ≡ Outcome.returned (
            say (unlines (qsort compare_grades_descending (lines content))) (
              log_message
                (codes "Sorted by grade descending successfully in sort_by_grade_descending.")
                w))
  unfolding sort_by_grade_descending
  descending_run e h k s =
      rw (sort_by_grade_descending, e, take_all (size - 1) content (omega arith)) (ground arith)

sort_ascending-PrintsBy :
    (size students : ℕ) (qsort : (Text → Text → ℤ) → List Text → List Text)
    → IsQsort qsort
    → (filename content : Text) (w : World) → w.file filename ≡ some content
    → length content < size
    → length (lines content) ≤ students
    → all_have_space (lines content) ≡ true
    → PrintsBy
        (λ a b. rank b ≤ rank a)
        (lines content)
        w
        (sort_by_grade_ascending size students qsort filename w)
sort_ascending-PrintsBy size students qsort contract filename content w e h k s =
    let (sorted, same) = contract compare_grades_ascending (lines content) IsComparison-ascending in
    (
      _,
      Sorted-map _ _ (λ a b. (ascending_le a b).0) _ sorted,
      same,
      _,
      ascending_run size students qsort filename content w e h k s,
      unfold say log_message in refl,
    )

sort_descending-PrintsBy :
    (size students : ℕ) (qsort : (Text → Text → ℤ) → List Text → List Text)
    → IsQsort qsort
    → (filename content : Text) (w : World) → w.file filename ≡ some content
    → length content < size
    → length (lines content) ≤ students
    → all_have_space (lines content) ≡ true
    → PrintsBy
        (λ a b. rank a ≤ rank b)
        (lines content)
        w
        (sort_by_grade_descending size students qsort filename w)
sort_descending-PrintsBy size students qsort contract filename content w e h k s =
    let (sorted, same) =
      contract compare_grades_descending (lines content) IsComparison-descending in
    (
      _,
      Sorted-map _ _ (λ a b. (descending_le a b).0) _ sorted,
      same,
      _,
      descending_run size students qsort filename content w e h k s,
      unfold say log_message in refl,
    )

-- With a `qsort` that keeps its contract, and a file that is read whole, has at most MAX_STUDENTS
-- lines and a space in each of them: `sort_by_grade_ascending` prints all lines, from the highest
-- grade to the lowest, and `sort_by_grade_descending` prints all lines, from the lowest grade to the
-- highest.
pub sorts_by_grade-PrintsBy :
    (size students : ℕ) (qsort : (Text → Text → ℤ) → List Text → List Text)
    → IsQsort qsort
    → (filename content : Text) (w : World) → w.file filename ≡ some content
    → length content < size
    → length (lines content) ≤ students
    → all_have_space (lines content) ≡ true
    → PrintsBy
        (λ a b. rank b ≤ rank a)
        (lines content)
        w
        (sort_by_grade_ascending size students qsort filename w)
      × PrintsBy
          (λ a b. rank a ≤ rank b)
          (lines content)
          w
          (sort_by_grade_descending size students qsort filename w)
sorts_by_grade-PrintsBy size students qsort contract filename content w e h k s = (
  sort_ascending-PrintsBy size students qsort contract filename content w e h k s,
  sort_descending-PrintsBy size students qsort contract filename content w e h k s,
)

-- A `qsort` that keeps the contract: the bubble sort.
unfoldable pub qsort_by_bubbles : (Text → Text → ℤ) → List Text → List Text
qsort_by_bubbles cmp = bubble_sort (λ a b. ltb_ℤ (pos 0) (cmp a b))

le_iff : (d : ℤ) → (ltb_ℤ (pos 0) d ≡ false) ↔ (d ≤ℤ pos 0)
le_iff d = ground arith

pub qsort_by_bubbles-IsQsort : IsQsort qsort_by_bubbles
unfolding qsort_by_bubbles
qsort_by_bubbles-IsQsort cmp ls (either, trans) =
    let swap : Text → Text → Bool = λ a b. ltb_ℤ (pos 0) (cmp a b) in
    let (sorted, same) =
      bubble_sort-Sorted swap
        (λ a. (le_iff (cmp a a)).1 (elim (either a a) [ inl h ↦ h | inr h ↦ h ]))
        (λ a b h. (le_iff (cmp b a)).1 (elim (either b a) [
          | inl k ↦ k
          | inr k ↦ absurd (ground (arith, (le_iff (cmp a b)).1 k))
        ]))
        (λ a b c h k.
          (le_iff (cmp a c)).1 (trans a b c ((le_iff (cmp a b)).0 h) ((le_iff (cmp b c)).0 k)))
        ls in
    (Sorted-map _ _ (λ a b. (le_iff (cmp a b)).0) _ sorted, same)
