-- ===== src/Students/Add.antt =====
-- hw1/gtuStudentManagemetSystem.c: `gtu_student_grades`, which creates a file, and
-- `add_student_grade`, which rewrites it with one student's grade.
pub mod Records
pub mod Laws
use cse_344_homeworks.Prelude.{
  ℕ, ◌-◌, Bool, true, false, List, [], ◌∷◌, ◌++◌, Option, none, some, if◌then◌else◌, length, take,
}
use cse_344_homeworks.Prelude.Text.{Text, codes, starts_with}
use cse_344_homeworks.Students.Lines.{newline, lines}
use cse_344_homeworks.Students.World.{World, say_line, log_message, write_file}

-- `open` with O_CREAT | O_EXCL in the child; the parent reports how that went.
unfoldable pub gtu_student_grades : Text → World → World
unfolding say_line log_message write_file
gtu_student_grades filename w = elim (w.file filename) [
  | none ↦
      log_message (codes "File created successfully.")
        (say_line (codes "File created.") (write_file filename [] w))
  | some content ↦
      log_message (codes "Failed to create file in parent process of gtu_student_grades.") (
        say_line (codes "Failed to create file.")
          (log_message (codes "Failed to open file in gtu_student_grades.") w))
]

-- "%s, %s\n"
abbrev pub entry_line : Text → Text → Text
entry_line name_surname grade = name_surname ++ (b',' ∷ b' ' ∷ (grade ++ (newline ∷ [])))

-- `size` is MAX_SIZE, 1000000 in the source: the size of each buffer.
module _ (size : ℕ) where
  -- snprintf(space + strlen(space), sizeof(space) - strlen(space), "%s", text), and the bounded
  -- strncat.
  unfoldable pub append_bounded : Text → Text → Text
  append_bounded space text = space ++ take (size - length space - 1) text

  -- One line of the old file: replaced if it begins with the name, copied otherwise.
  unfoldable pub add_line : Text → Text → Text → Bool × Text → Bool × Text
  unfolding append_bounded
  add_line name_surname grade line (found, space) =
      if starts_with line name_surname
      then (true, append_bounded space (entry_line name_surname grade))
      else (found, append_bounded space line ++ (newline ∷ []))

  unfoldable pub add_lines : Text → Text → List Text → Bool × Text → Bool × Text
  unfolding add_line
  add_lines name_surname grade [] state = state
  add_lines name_surname grade (line ∷ rest) state =
      add_lines name_surname grade rest (add_line name_surname grade line state)

  -- The new contents of a file, and whether the student was found in it.
  unfoldable pub updated_file : Text → Text → Text → Bool × Text
  unfolding add_lines
  updated_file name_surname grade content =
      let (found, space) =
        add_lines name_surname grade (lines (take (size - 1) content)) (false, []) in
      (found, if found then space else append_bounded space (entry_line name_surname grade))

  unfoldable pub add_student_grade : Text → Text → Text → World → World
  unfolding say_line log_message write_file
  add_student_grade filename name_surname grade w = elim (w.file filename) [
    | some content ↦
        let (found, space) = updated_file name_surname grade content in
        let v = write_file filename space w in
        if found
        then log_message (codes "Student grade updated successfully.")
            (say_line (codes "Student grade updated successfully.") v)
        else log_message (codes "New student grade added successfully.")
            (say_line (codes "New student grade added successfully.") v)
    | none ↦ write_file filename (take (size - 1) (entry_line name_surname grade)) w
  ]
