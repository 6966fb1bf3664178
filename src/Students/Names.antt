-- ===== src/Students/Names.antt =====
-- hw1/gtuStudentManagemetSystem.c: `sort_by_student_name_ascending` and
-- `sort_by_student_name_descending`.
pub mod Order
use Prim.Native.Nat.{compare, Ordering}
use cse_344_homeworks.Prelude.{
  ℕ, ◌-◌, ◌/◌, Bool, true, false, List, [], ◌∷◌, Option, none, some, if◌then◌else◌, leb, length,
  take,
}
use cse_344_homeworks.Prelude.Text.{Text, codes}
use cse_344_homeworks.Students.Lines.{lines, unlines}
use cse_344_homeworks.Students.Bubble.{bubble_sort}
use cse_344_homeworks.Students.World.{World, say, log_message}

-- The sign of strcmp(a, b).
unfoldable pub strcmp : Text → Text → Ordering
strcmp [] [] = Ordering.eq
strcmp [] (y ∷ b) = Ordering.lt
strcmp (x ∷ a) [] = Ordering.gt
strcmp (x ∷ a) (y ∷ b) = elim (compare x y) [
  | Ordering.eq ↦ strcmp a b
  | Ordering.lt ↦ Ordering.lt
  | Ordering.gt ↦ Ordering.gt
]

-- strcmp(a, b) > 0
unfoldable pub greater : Text → Text → Bool
unfolding strcmp
greater a b = elim (strcmp a b) [ Ordering.gt ↦ true | _ ↦ false ]

-- strcmp(a, b) < 0
unfoldable pub less : Text → Text → Bool
unfolding strcmp
less a b = elim (strcmp a b) [ Ordering.lt ↦ true | _ ↦ false ]

-- `none` is a write behind the end of `lines`, an array of `capacity` pointers.
abbrev pub stored : ℕ → List Text → Option (List Text)
stored capacity ls = if leb (length ls) capacity then some ls else none

-- `size` is MAX_SIZE.
module _ (size : ℕ) where
  unfoldable pub sort_by_student_name_ascending : Text → World → Option World
  unfolding lines unlines bubble_sort greater say log_message
  sort_by_student_name_ascending filename w = elim (w.file filename) [
    | none ↦ some (log_message (codes "Error opening file in sort_by_student_name_ascending.") w)
    | some content ↦ elim (stored (size / 30) (lines (take (size - 1) content))) [
      | none ↦ none
      | some ls ↦ some (
          say (unlines (bubble_sort greater ls))
            (log_message (codes "Sorted by student name ascending successfully.") w))
    ]
  ]

  unfoldable pub sort_by_student_name_descending : Text → World → Option World
  unfolding lines unlines bubble_sort less say log_message
  sort_by_student_name_descending filename w = elim (w.file filename) [
    | none ↦ some (log_message (codes "Error opening file in sort_by_student_name_descending.") w)
    | some content ↦ elim (stored (size / 20) (lines (take (size - 1) content))) [
      | none ↦ none
      | some ls ↦ some (
          say (unlines (bubble_sort less ls))
            (log_message (codes "Sorted by student name descending successfully.") w))
    ]
  ]
