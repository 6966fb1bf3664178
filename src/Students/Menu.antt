-- ===== src/Students/Menu.antt =====
-- hw1/gtuStudentManagemetSystem.c: `menu`, `commands`, `sort_all` and `remove_quotes`.
pub mod Input
pub mod Files
use cse_344_homeworks.Prelude.{
  ℕ, Bool, true, false, List, [], ◌∷◌, ◌++◌, Option, none, some, if◌then◌else◌, ◌==◌,
}
use cse_344_homeworks.Prelude.Text.{Text, codes, str_eq}
use cse_344_homeworks.Prelude.Int.{ℤ, pos, eq_ℤ}
use cse_344_homeworks.Students.Scan.{scan_word, scan_quoted, scan_int}
use cse_344_homeworks.Students.World.{World, say, say_line, log_message}
use cse_344_homeworks.Students.Add.{gtu_student_grades, add_student_grade}
use cse_344_homeworks.Students.Search.{search_student}
use cse_344_homeworks.Students.Show.{show_all, list_grades, list_some}
use cse_344_homeworks.Students.Names.{
  sort_by_student_name_ascending, sort_by_student_name_descending,
}
use cse_344_homeworks.Students.Grades.{
  Outcome, is_valid_grade, sort_by_grade_ascending, sort_by_grade_descending,
}

unfoldable pub remove_quotes : Text → Text
remove_quotes [] = []
remove_quotes (c ∷ s) = if c == b'"' then remove_quotes s else c ∷ remove_quotes s

unfoldable pub commands : World → World
unfolding say_line
commands w = say_line (codes "8. listSome \"filename\" numOfEntries pageNumber") (
    say_line (codes "7. listGrades \"filename\"") (
      say_line (codes "6. showAll \"filename\"") (
        say_line (codes "5. sortAll \"filename\"") (
          say_line (codes "4. searchStudent \"filename\" \"Name Surname\"") (
            say_line (codes "3. addStudentGrade \"filename\" \"Name Surname\" \"Grade\"") (
              say_line (codes "2. gtuStudentGrades \"filename\"") (
                say_line (codes "1. help")
                  (say_line [] (say_line (codes "Available Commands:") w)))))))))

-- The sorts by name run in a child: undefined behaviour there is undefined behaviour of the
-- program.
abbrev pub of_child : Option World → Outcome
of_child none = Outcome.undefined
of_child (some w) = Outcome.returned w

-- `stdin` is what is left to read, `command` the buffer of that name.
pub record State : Type 0 where
  pub stdin : Text
  pub command : Text
  pub world : World

abbrev pub state : Text → Text → World → State
state stdin command world = record { stdin = stdin; command = command; world = world }

pub data Turn : Type 0 where
  again : State → Turn
  quit : World → Turn
  stopped : World → Turn
  lost : Turn

abbrev pub after_sort : Text → Text → Outcome → Turn
after_sort input command (Outcome.returned w) = Turn.again (state input command w)
after_sort input command (Outcome.exited w) = Turn.stopped w
after_sort input command Outcome.undefined = Turn.lost

-- printf and log_message with the same text.
abbrev pub report : Text → World → World
report message w = log_message message (say_line message w)

module _ (size students : ℕ) (qsort : (Text → Text → ℤ) → List Text → List Text) where
  unfoldable pub chosen_sort : ℤ → Text → World → Outcome
  unfolding say_line sort_by_student_name_ascending sort_by_student_name_descending
      sort_by_grade_ascending sort_by_grade_descending
  chosen_sort choice filename w =
      if eq_ℤ choice (pos 1)
      then of_child (sort_by_student_name_ascending size filename w)
      else if eq_ℤ choice (pos 2)
      then of_child (sort_by_student_name_descending size filename w)
      else if eq_ℤ choice (pos 3)
      then sort_by_grade_ascending size students qsort filename w
      else if eq_ℤ choice (pos 4)
      then sort_by_grade_descending size students qsort filename w
      else Outcome.returned (say_line (codes "Invalid choice. Returning to main menu.") w)

  -- Without a number in the input `choice` has no value.
  unfoldable pub sort_all : Text → Text → Text → World → Turn
  unfolding say say_line scan_int chosen_sort
  sort_all input command filename w =
      let v = say (codes "Enter choice: ") (
        say_line (codes "4. Sort by Grade Descending") (
          say_line (codes "3. Sort by Grade Ascending") (
            say_line (codes "2. Sort by Name Descending")
              (say_line (codes "1. Sort by Name Ascending") (say_line (codes "Sort Menu") w))))) in
      let (choice, rest) = scan_int input in
      elim choice [ none ↦ Turn.lost | some n ↦ after_sort rest command (chosen_sort n filename v) ]

  -- A command with a file name.
  abbrev pub with_filename : Text → State → (Text → Text → World → Turn) → Turn
  with_filename missing s run =
      let (filename, rest) = scan_word s.stdin in
      elim filename [
        | none ↦ Turn.again (state rest s.command (report missing s.world))
        | some f ↦ run (remove_quotes f) rest s.world
      ]

  abbrev pub add_command : State → Turn
  add_command s =
      let missing = codes "Error: Incorrect number of arguments for addStudentGrade." in
      let (filename, input) = scan_quoted s.stdin in
      elim filename [
        | none ↦ Turn.again (state input s.command (report missing s.world))
        | some f ↦
            let (name_surname, input') = scan_quoted input in
            elim name_surname [
              | none ↦ Turn.again (state input' s.command (report missing s.world))
              | some n ↦
                  let (grade, rest) = scan_quoted input' in
                  elim grade [
                    | none ↦ Turn.again (state rest s.command (report missing s.world))
                    | some g ↦ Turn.again (
                        state rest s.command (
                          if is_valid_grade g
                          then add_student_grade size f n g s.world
                          else log_message (codes "Attempted to add an invalid grade.") (
                              say_line
                                (codes
                                  "Invalid grade value. Please enter one of the following grades: NA, VF, FF, DD, DC, CC, CB, BB, BA, AA.")
                                s.world)))
                  ]
            ]
      ]

  abbrev pub search_command : State → Turn
  search_command s =
      let missing = codes "Error: Incorrect number of arguments for searchStudent." in
      let (filename, input) = scan_quoted s.stdin in
      elim filename [
        | none ↦ Turn.again (state input s.command (report missing s.world))
        | some f ↦
            let (name_surname, rest) = scan_quoted input in
            elim name_surname [
              | none ↦ Turn.again (state rest s.command (report missing s.world))
              | some n ↦ Turn.again (state rest s.command (search_student size n f s.world))
            ]
      ]

  abbrev pub list_some_command : State → Turn
  list_some_command s =
      let missing = codes "Error: Incorrect number of arguments for listSome." in
      let (filename, input) = scan_word s.stdin in
      elim filename [
        | none ↦ Turn.again (state input s.command (report missing s.world))
        | some f ↦
            let (entries, input') = scan_int input in
            elim entries [
              | none ↦ Turn.again (state input' s.command (report missing s.world))
              | some n ↦
                  let (page, rest) = scan_int input' in
                  elim page [
                    | none ↦ Turn.again (state rest s.command (report missing s.world))
                    | some p ↦
                        Turn.again (state rest s.command (list_some (remove_quotes f) n p s.world))
                  ]
            ]
      ]

  -- The chain of tests, once `command` is set.
  unfoldable pub run_command : State → Turn
  unfolding say_line log_message remove_quotes commands scan_word scan_quoted scan_int
      gtu_student_grades add_student_grade search_student show_all list_grades list_some
      is_valid_grade sort_all str_eq
  run_command s =
      if str_eq s.command (codes "q")
      then Turn.quit (
          log_message (codes "Exiting program")
            (say_line (codes "Exiting program. Goodbye!!!") s.world))
      else if str_eq s.command (codes "gtuStudentGrades")
      then with_filename (codes "Error: Incorrect number of arguments for gtuStudentGrades.") s
          (λ f rest w. Turn.again (state rest s.command (gtu_student_grades f w)))
      else if str_eq s.command (codes "help")
      then Turn.again (state s.stdin s.command (commands s.world))
      else if str_eq s.command (codes "addStudentGrade")
      then add_command s
      else if str_eq s.command (codes "searchStudent")
      then search_command s
      else if str_eq s.command (codes "showAll")
      then with_filename (codes "Error: Incorrect number of arguments for showAll.") s
          (λ f rest w. Turn.again (state rest s.command (show_all f w)))
      else if str_eq s.command (codes "listGrades")
      then with_filename (codes "Error: Incorrect number of arguments for listGrades.") s
          (λ f rest w. Turn.again (state rest s.command (list_grades f w)))
      else if str_eq s.command (codes "listSome")
      then list_some_command s
      else if str_eq s.command (codes "sortAll")
      then with_filename (codes "Error: Incorrect number of arguments for sortAll.") s
          (λ f rest w. sort_all rest s.command f w)
      else Turn.again (
          state s.stdin s.command (
            log_message (codes "Unknown command received in menu")
              (say_line (codes "Unknown command.") s.world)))

  -- One round of the loop. At the end of the input `command` stays as it is.
  unfoldable pub menu_turn : State → Turn
  unfolding say scan_word run_command
  menu_turn s =
      let w =
        say (codes "Enter command(\"q\" for quit and \"help\" for available commands): ") s.world in
      let (word, rest) = scan_word s.stdin in
      run_command (state rest (elim word [ some c ↦ c | none ↦ s.command ]) w)
