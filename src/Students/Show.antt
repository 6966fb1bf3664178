-- ===== src/Students/Show.antt =====
-- hw1/gtuStudentManagemetSystem.c: `show_all`, `list_grades` and `list_some`.
pub mod Laws
use cse_344_homeworks.Prelude.{
  ℕ, ◌+◌, ◌-◌, ◌%◌, ◌^◌, Bool, true, false, not, ◌&&◌, List, [], ◌∷◌, ◌++◌, Option, none, some,
  if◌then◌else◌, ltb, ◌==◌,
}
use cse_344_homeworks.Prelude.Int.{ℤ, pos, negsuc, ltb_ℤ, ◌+ℤ◌, ◌-ℤ◌, ◌*ℤ◌}
use cse_344_homeworks.Prelude.Text.{Text, codes}
use cse_344_homeworks.Students.Lines.{newline}
use cse_344_homeworks.Students.World.{World, say, say_line, log_message}

unfoldable pub show_all : Text → World → World
unfolding say say_line log_message
show_all filename w =
    log_message (codes "Displayed all contents successfully in show_all.") (elim (w.file filename) [
      | none ↦ log_message (codes "Failed to open file in show_all.") w
      | some [] ↦
          log_message (codes "Attempted to show an empty file in show_all.")
            (say_line (codes "The file is empty.") w)
      | some (c ∷ content) ↦ say (c ∷ content) w
    ])

-- while (read(fd, &ch, 1) > 0 && line_counter < 5)
unfoldable pub print_grades : Text → ℕ → Text
print_grades [] line_counter = []
print_grades (ch ∷ rest) line_counter =
    if ltb line_counter 5
    then ch ∷ print_grades rest (if ch == newline then line_counter + 1 else line_counter)
    else []

unfoldable pub list_grades : Text → World → World
unfolding print_grades say say_line log_message
list_grades filename w =
    log_message (codes "Displayed the first 5 grades successfully in list_grades.")
      (elim (w.file filename) [
        | none ↦ log_message (codes "Failed to open file in list_grades.") w
        | some [] ↦
            log_message (codes "Attempted to list grades from an empty file in list_grades.")
              (say_line (codes "The file is empty.") w)
        | some (c ∷ content) ↦ say (print_grades (c ∷ content) 0) w
      ])

abbrev pub low_bits : ℤ → ℕ
low_bits (pos n) = n % 2 ^ 32
low_bits (negsuc n) = 2 ^ 32 - 1 - n % 2 ^ 32

-- An `int`, with the wrap that the processor makes of an overflow.
abbrev pub int_of : ℤ → ℤ
int_of z = if ltb (low_bits z) (2 ^ 31) then pos (low_bits z) else negsuc (2 ^ 32 - 1 - low_bits z)

unfoldable pub first_line : ℤ → ℤ → ℤ
unfolding ◌+ℤ◌ ◌-ℤ◌ ◌*ℤ◌
first_line num_of_entries page_number =
    int_of (int_of (num_of_entries *ℤ int_of (page_number -ℤ pos 1)) +ℤ pos 1)

unfoldable pub last_line : ℤ → ℤ → ℤ
unfolding first_line ◌+ℤ◌ ◌-ℤ◌
last_line num_of_entries page_number =
    int_of (int_of (first_line num_of_entries page_number +ℤ num_of_entries) -ℤ pos 1)

module _ (start_line end_line : ℤ) where
  abbrev pub in_page : ℕ → Bool
  in_page current_line =
      not (ltb_ℤ (pos current_line) start_line) && not (ltb_ℤ end_line (pos current_line))

  -- The loop: what it prints, and the last value of `current_line`.
  unfoldable pub print_page : Text → ℕ → Text × ℕ
  print_page [] current_line = ([], current_line)
  print_page (ch ∷ rest) current_line =
      let printed : Text = if in_page current_line then ch ∷ [] else [] in
      let next = print_page rest (if ch == newline then current_line + 1 else current_line) in
      if ltb_ℤ end_line (pos current_line)
      then (printed, current_line)
      else (printed ++ next.0, next.1)

  abbrev pub page_end : ℕ → World → World
  page_end current_line w =
      if ltb_ℤ (pos current_line) start_line
      then log_message (codes "Attempted to access a page beyond the file content in list_some.")
          (say_line (codes "The requested page is beyond the file content.") w)
      else w

unfoldable pub list_some : Text → ℤ → ℤ → World → World
unfolding print_page first_line last_line say say_line log_message
list_some filename num_of_entries page_number w =
    let start_line = first_line num_of_entries page_number in
    let end_line = last_line num_of_entries page_number in
    log_message (codes "Displayed requested entries successfully in list_some.")
      (elim (w.file filename) [
        | none ↦ log_message (codes "Failed to open file in list_some.") w
        | some [] ↦
            log_message (codes "Attempted to list some entries from an empty file in list_some.")
              (say_line (codes "The file is empty.") w)
        | some (c ∷ content) ↦
            let (printed, current_line) = print_page start_line end_line (c ∷ content) 1 in
            page_end start_line end_line current_line (say printed w)
      ])
