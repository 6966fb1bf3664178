-- ===== src/Students/Grades.antt =====
-- hw1/gtuStudentManagemetSystem.c: grades, their two comparison functions and the sorts that hand
-- these to `qsort`, which is a parameter.
pub mod Ranks
pub mod Sorting
use cse_344_homeworks.Prelude.{
  ℕ, suc, ◌+◌, ◌-◌, Bool, true, false, List, [], ◌∷◌, Option, none, some, if◌then◌else◌, leb,
  length, take, ◌==◌,
}
use cse_344_homeworks.Prelude.Text.{Text, codes, str_eq}
use cse_344_homeworks.Prelude.Int.{ℤ, pos, ◌-ℤ◌}
use cse_344_homeworks.Students.Lines.{lines, unlines}
use cse_344_homeworks.Students.World.{World, say, log_message}

abbrev pub grade_order : List Text
grade_order =
    codes "NA"
    ∷ codes "VF"
    ∷ codes "FF"
    ∷ codes "DD"
    ∷ codes "DC"
    ∷ codes "CC"
    ∷ codes "CB"
    ∷ codes "BB"
    ∷ codes "BA"
    ∷ codes "AA"
    ∷ []

abbrev pub any_equal : Text → List Text → Bool
any_equal grade [] = false
any_equal grade (g ∷ order) = if str_eq grade g then true else any_equal grade order

unfoldable pub is_valid_grade : Text → Bool
unfolding str_eq
is_valid_grade grade = any_equal grade grade_order

-- strrchr(line, ' ') + 1. Without a space strrchr returns NULL, and the comparison reads from
-- address 1.
unfoldable pub after_last_space : Text → Option Text
after_last_space [] = none
after_last_space (c ∷ line) = elim (after_last_space line) [
  | some grade ↦ some grade
  | none ↦ if c == b' ' then some line else none
]

-- The loop of `compare_grades_ascending`, which leaves at the first hit; the index stays 0 without
-- one.
abbrev pub first_index : Text → List Text → ℕ → ℕ
first_index grade [] i = 0
first_index grade (g ∷ order) i = if str_eq grade g then i else first_index grade order (i + 1)

-- The loop of `compare_grades_descending`, which goes through to the end.
abbrev pub last_index : Text → List Text → ℕ → ℕ → ℕ
last_index grade [] i index = index
last_index grade (g ∷ order) i index =
    last_index grade order (i + 1) (if str_eq grade g then i else index)

-- What the two indices of a comparison are, of lines that have a space.
abbrev pub grade_of : Text → Text
grade_of line = elim (after_last_space line) [ some grade ↦ grade | none ↦ [] ]

unfoldable pub compare_grades_ascending : Text → Text → ℤ
unfolding after_last_space str_eq ◌-ℤ◌
compare_grades_ascending a b =
    pos (first_index (grade_of b) grade_order 0) -ℤ pos (first_index (grade_of a) grade_order 0)

unfoldable pub compare_grades_descending : Text → Text → ℤ
unfolding after_last_space str_eq ◌-ℤ◌
compare_grades_descending a b =
    pos (last_index (grade_of a) grade_order 0 0) -ℤ pos (last_index (grade_of b) grade_order 0 0)

-- `exited` is exit(EXIT_FAILURE) of the program itself, since these two functions do not fork;
-- `undefined` a write behind the end of `lines` or a comparison of a line without a space.
pub data Outcome : Type 0 where
  returned : World → Outcome
  exited : World → Outcome
  undefined : Outcome

abbrev pub all_have_space : List Text → Bool
all_have_space [] = true
all_have_space (line ∷ rest) = elim (after_last_space line) [
  | some grade ↦ all_have_space rest
  | none ↦ false
]

-- Sorting two lines or more compares each of them.
abbrev pub comparable : List Text → Bool
comparable ls = if leb (length ls) 1 then true else all_have_space ls

-- `size` is MAX_SIZE and `students` MAX_STUDENTS.
module _ (size students : ℕ) (qsort : (Text → Text → ℤ) → List Text → List Text) where
  unfoldable pub sort_by_grade_ascending : Text → World → Outcome
  unfolding lines unlines after_last_space say log_message
  sort_by_grade_ascending filename w = elim (w.file filename) [
    | none ↦ exited (log_message (codes "Error opening file in sort_by_grade_ascending.") w)
    | some content ↦
        let ls = lines (take (size - 1) content) in
        if leb (length ls) students
        then if comparable ls
          then returned (
              say (unlines (qsort compare_grades_ascending ls)) (
                log_message
                  (codes "Sorted by grade ascending successfully in sort_by_grade_ascending.") w))
          else undefined
        else undefined
  ]

  unfoldable pub sort_by_grade_descending : Text → World → Outcome
  unfolding lines unlines after_last_space say log_message
  sort_by_grade_descending filename w = elim (w.file filename) [
    | none ↦ exited (log_message (codes "Error opening file in sort_by_grade_descending.") w)
    | some content ↦
        let ls = lines (take (size - 1) content) in
        if leb (length ls) students
        then if comparable ls
          then returned (
              say (unlines (qsort compare_grades_descending ls)) (
                log_message
                  (codes "Sorted by grade descending successfully in sort_by_grade_descending.") w))
          else undefined
        else undefined
  ]
