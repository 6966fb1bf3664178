-- ===== src/Students/Search.antt =====
-- hw1/gtuStudentManagemetSystem.c: `search_student`.
pub mod Laws
use cse_344_homeworks.Prelude.{
  ℕ, ◌-◌, Bool, true, false, ◌||◌, List, [], ◌∷◌, ◌++◌, Option, none, some, if◌then◌else◌, ltb,
  ◌==◌, length,
}
use cse_344_homeworks.Prelude.Text.{Text, codes, starts_with}
use cse_344_homeworks.Students.Lines.{newline, c_string}
use cse_344_homeworks.Students.World.{World, say_line, log_message}

-- strstr(text, part) != NULL
unfoldable pub contains : Text → Text → Bool
contains [] part = starts_with [] part
contains (c ∷ text) part = starts_with (c ∷ text) part || contains text part

module _ (size : ℕ) (name_surname : Text) where
  -- The loop over the characters of the file; `line` is the buffer up to `i`. The result is the
  -- line that is printed.
  unfoldable pub search_loop : Text → Text → Option Text
  unfolding c_string contains
  search_loop [] line = none
  search_loop (c ∷ rest) line =
      let restart = search_loop rest [] in
      let go_on =
        search_loop rest (if ltb (length line) (size - 1) then line ++ (c ∷ []) else line) in
      if c == newline
      then if contains (c_string line) name_surname then some (c_string line) else restart
      else go_on

  unfoldable pub search_student : Text → World → World
  unfolding say_line log_message
  search_student filename w = elim (w.file filename) [
    | none ↦ log_message (codes "An error occurred in parent process of search_student.") (
        say_line (codes "An error occurred while searching for the student.")
          (log_message (codes "Failed to open file in search_student.") w))
    | some content ↦ elim (search_loop content []) [
      | some line ↦
          log_message (codes "Student found in search_student.")
            (say_line (codes "Student found: " ++ line) w)
      | none ↦
          log_message (codes "Student not found in search_student.")
            (say_line (codes "Student not found.") w)
    ]
  ]
