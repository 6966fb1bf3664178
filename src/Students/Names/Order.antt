-- ===== src/Students/Names/Order.antt =====
-- `strcmp` orders the lines, so the bubble sorts sort by it.
use mathlib.Core.List.{Perm}
use cse_344_homeworks.Prelude.{
  ℕ, ◌-◌, ◌/◌, ◌≤◌, ◌<◌, ◌≡◌, refl, sym, ◌∙◌, Bool, true, List, [], ◌∷◌, ◌++◌, Option, some, length,
  arith,
}
use cse_344_homeworks.Prelude.Text.{Text, codes}
use cse_344_homeworks.Students.Lines.{lines, unlines}
use cse_344_homeworks.Students.Bubble.{bubble_sort}
use cse_344_homeworks.Students.Bubble.Laws.{Sorted, InOrder, bubble_sort-Sorted}
use cse_344_homeworks.Students.Names.{
  strcmp, greater, less, sort_by_student_name_ascending, sort_by_student_name_descending,
}
use cse_344_homeworks.Prelude.{take_all}
use cse_344_homeworks.Students.World.{World, say, log_message}

less-greater : (a b : Text) → less a b ≡ greater b a
unfolding less greater strcmp
less-greater [] [] = refl
less-greater [] (y ∷ b) = refl
less-greater (x ∷ a) [] = refl
less-greater (x ∷ a) (y ∷ b) = ground (arith, less-greater a b)

not_after_refl : (a : Text) → InOrder greater a a
unfolding greater strcmp
not_after_refl [] = refl
not_after_refl (x ∷ a) = ground (arith, not_after_refl a)

not_after_of_after : (a b : Text) → greater a b ≡ true → InOrder greater b a
unfolding greater strcmp
not_after_of_after [] [] h = ground arith
not_after_of_after [] (y ∷ b) h = ground arith
not_after_of_after (x ∷ a) [] h = ground arith
not_after_of_after (x ∷ a) (y ∷ b) h = ground (arith, not_after_of_after a b)

not_after_trans : (a b c : Text) → InOrder greater a b → InOrder greater b c → InOrder greater a c
unfolding greater strcmp
not_after_trans [] b [] h k = ground arith
not_after_trans [] b (z ∷ c) h k = ground arith
not_after_trans (x ∷ a) [] c h k = ground arith
not_after_trans (x ∷ a) (y ∷ b) [] h k = ground arith
not_after_trans (x ∷ a) (y ∷ b) (z ∷ c) h k = ground (arith, not_after_trans a b c)

-- The run prints these lines in another order, one in which no line stands in the relation `after`
-- to one behind it.
abbrev pub PrintsSorted : (Text → Text → Bool) → List Text → World → Option World → Type 0
PrintsSorted after ls w result =
    (sorted : List Text) × Sorted (InOrder after) sorted
    × Perm sorted ls
    × (v : World) × (result ≡ some v)
    × (v.out ≡ w.out ++ unlines sorted)

bubble_sort-greater :
    (ls : List Text)
    → Sorted (InOrder greater) (bubble_sort greater ls) × Perm (bubble_sort greater ls) ls
bubble_sort-greater = bubble_sort-Sorted greater not_after_refl not_after_of_after not_after_trans

bubble_sort-less :
    (ls : List Text) → Sorted (InOrder less) (bubble_sort less ls) × Perm (bubble_sort less ls) ls
bubble_sort-less =
    bubble_sort-Sorted less (λ a. less-greater a a ∙ not_after_refl a)
      (λ a b h. less-greater b a ∙ not_after_of_after b a (sym (less-greater a b) ∙ h))
      (λ a b c h k.
        less-greater a c
        ∙ not_after_trans c b a (sym (less-greater b c) ∙ k) (sym (less-greater a b) ∙ h))

module _ (size : ℕ) (filename content : Text) (w : World) where
  ascending_run :
      w.file filename ≡ some content
      → length content < size
      → length (lines content) ≤ size / 30
      → sort_by_student_name_ascending size filename w
        ≡ some (
            say
              (unlines (bubble_sort greater (lines content)))
              (log_message (codes "Sorted by student name ascending successfully.") w))
  unfolding sort_by_student_name_ascending
  ascending_run e h k =
      rw (sort_by_student_name_ascending, e, take_all (size - 1) content (omega arith))
        (ground arith)

  descending_run :
      w.file filename ≡ some content
      → length content < size
      → length (lines content) ≤ size / 20
      → sort_by_student_name_descending size filename w
        ≡ some (
            say
              (unlines (bubble_sort less (lines content)))
              (log_message (codes "Sorted by student name descending successfully.") w))
  unfolding sort_by_student_name_descending
  descending_run e h k =
      rw (sort_by_student_name_descending, e, take_all (size - 1) content (omega arith))
        (ground arith)

-- A file that is read whole and has at most MAX_SIZE / 30 lines: `sort_by_student_name_ascending`
-- prints all its lines, sorted by `strcmp`.
pub sort_ascending-PrintsSorted :
    (size : ℕ) (filename content : Text) (w : World)
    → w.file filename ≡ some content
    → length content < size
    → length (lines content) ≤ size / 30
    → PrintsSorted greater (lines content) w (sort_by_student_name_ascending size filename w)
sort_ascending-PrintsSorted size filename content w e h k =
    let (sorted, same) = bubble_sort-greater (lines content) in
    (
      _,
      sorted,
      same,
      _,
      ascending_run size filename content w e h k,
      unfold say log_message in refl,
    )

-- A file that is read whole and has at most MAX_SIZE / 20 lines: `sort_by_student_name_descending`
-- prints all its lines, sorted by `strcmp` from the last to the first.
pub sort_descending-PrintsSorted :
    (size : ℕ) (filename content : Text) (w : World)
    → w.file filename ≡ some content
    → length content < size
    → length (lines content) ≤ size / 20
    → PrintsSorted less (lines content) w (sort_by_student_name_descending size filename w)
sort_descending-PrintsSorted size filename content w e h k =
    let (sorted, same) = bubble_sort-less (lines content) in
    (
      _,
      sorted,
      same,
      _,
      descending_run size filename content w e h k,
      unfold say log_message in refl,
    )
