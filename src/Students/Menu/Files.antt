-- ===== src/Students/Menu/Files.antt =====
-- Which commands leave the files alone.
use cse_344_homeworks.Prelude.{
  ℕ, ◌≡◌, refl, false, List, [], ◌∷◌, none, some, arith, Bool-cases, Option-cases, inl, inr,
}
use cse_344_homeworks.Prelude.Text.{Text, codes, str_eq}
use cse_344_homeworks.Prelude.Int.{ℤ, pos, ltb_ℤ, eq_ℤ}
use cse_344_homeworks.Students.Scan.{scan_word, scan_quoted, scan_int}
use cse_344_homeworks.Students.World.{World, say, say_line, log_message}
use cse_344_homeworks.Students.Search.{search_student}
use cse_344_homeworks.Students.Show.{
  show_all, list_grades, list_some, page_end, first_line, last_line,
}
use cse_344_homeworks.Students.Names.{
  sort_by_student_name_ascending, sort_by_student_name_descending,
}
use cse_344_homeworks.Students.Grades.{Outcome, sort_by_grade_ascending, sort_by_grade_descending}
use cse_344_homeworks.Students.Menu.{
  State, state, Turn, after_sort, of_child, chosen_sort, sort_all, commands, run_command, menu_turn,
  with_filename, search_command, list_some_command, remove_quotes,
}

-- The files are the same, if the program goes on or ends.
abbrev pub SameFiles : World → Turn → Type 0
SameFiles w (Turn.again s) = s.world.file ≡ w.file
SameFiles w (Turn.quit v) = v.file ≡ w.file
SameFiles w (Turn.stopped v) = v.file ≡ w.file
SameFiles w Turn.lost = Unit

abbrev pub KeepsFiles : World → Outcome → Type 0
KeepsFiles w (Outcome.returned v) = v.file ≡ w.file
KeepsFiles w (Outcome.exited v) = v.file ≡ w.file
KeepsFiles w Outcome.undefined = Unit

show_all-file : (filename : Text) (w : World) → (show_all filename w).file ≡ w.file
unfolding show_all
show_all-file filename w = ground arith

list_grades-file : (filename : Text) (w : World) → (list_grades filename w).file ≡ w.file
unfolding list_grades
list_grades-file filename w = ground arith

page_end-file :
    (start_line end_line : ℤ) (current_line : ℕ) (w : World)
    → (page_end start_line end_line current_line w).file ≡ w.file
unfolding log_message say_line
page_end-file start_line end_line current_line w =
    elim (Bool-cases (ltb_ℤ (pos current_line) start_line)) [
      | inl beyond ↦ rw beyond refl
      | inr within ↦ rw within refl
    ]

list_some-file : (filename : Text) (n p : ℤ) (w : World) → (list_some filename n p w).file ≡ w.file
unfolding list_some
list_some-file filename n p w = elim (Option-cases (w.file filename)) [
  | inl e ↦ rw (list_some, e) refl
  | inr ([], e) ↦ rw (list_some, e) refl
  | inr ((c ∷ content), e) ↦
      rw (list_some, e) (page_end-file (first_line n p) (last_line n p) _ (say _ w))
]

search_student-file :
    (size : ℕ) (name_surname filename : Text) (w : World)
    → (search_student size name_surname filename w).file ≡ w.file
unfolding search_student
search_student-file size name_surname filename w = ground arith

ascending-KeepsFiles :
    (size : ℕ) (filename : Text) (w : World)
    → KeepsFiles w (of_child (sort_by_student_name_ascending size filename w))
unfolding sort_by_student_name_ascending
ascending-KeepsFiles size filename w = ground arith

descending-KeepsFiles :
    (size : ℕ) (filename : Text) (w : World)
    → KeepsFiles w (of_child (sort_by_student_name_descending size filename w))
unfolding sort_by_student_name_descending
descending-KeepsFiles size filename w = ground arith

module _ (size students : ℕ) (qsort : (Text → Text → ℤ) → List Text → List Text) where
  grade_ascending-KeepsFiles :
      (filename : Text) (w : World)
      → KeepsFiles w (sort_by_grade_ascending size students qsort filename w)
  unfolding sort_by_grade_ascending
  grade_ascending-KeepsFiles filename w = ground arith

  grade_descending-KeepsFiles :
      (filename : Text) (w : World)
      → KeepsFiles w (sort_by_grade_descending size students qsort filename w)
  unfolding sort_by_grade_descending
  grade_descending-KeepsFiles filename w = ground arith

  chosen_sort-KeepsFiles :
      (choice : ℤ) (filename : Text) (w : World)
      → KeepsFiles w (chosen_sort size students qsort choice filename w)
  unfolding chosen_sort
  chosen_sort-KeepsFiles choice filename w = elim (Bool-cases (eq_ℤ choice (pos 1))) [
    | inl e ↦ rw (chosen_sort, e) (ascending-KeepsFiles size filename w)
    | inr e ↦ elim (Bool-cases (eq_ℤ choice (pos 2))) [
      | inl f ↦ rw (chosen_sort, e, f) (descending-KeepsFiles size filename w)
      | inr f ↦ elim (Bool-cases (eq_ℤ choice (pos 3))) [
        | inl g ↦ rw (chosen_sort, e, f, g) (grade_ascending-KeepsFiles filename w)
        | inr g ↦ elim (Bool-cases (eq_ℤ choice (pos 4))) [
          | inl h ↦ rw (chosen_sort, e, f, g, h) (grade_descending-KeepsFiles filename w)
          | inr h ↦ rw (chosen_sort, e, f, g, h) refl
        ]
      ]
    ]
  ]

  after_sort-SameFiles :
      (input command : Text) (r : Outcome) (w : World)
      → KeepsFiles w r
      → SameFiles w (after_sort input command r)
  after_sort-SameFiles input command (Outcome.returned v) w h = h
  after_sort-SameFiles input command (Outcome.exited v) w h = h
  after_sort-SameFiles input command Outcome.undefined w h = tt

  sort_all-SameFiles :
      (input command filename : Text) (w : World)
      → SameFiles w (sort_all size students qsort input command filename w)
  unfolding sort_all say say_line
  sort_all-SameFiles input command filename w = elim (Option-cases (scan_int input).0) [
    | inl e ↦ rw (sort_all, e) tt
    | inr (n, e) ↦
        rw (sort_all, e) (after_sort-SameFiles _ command _ w (chosen_sort-KeepsFiles n filename _))
  ]

  with_filename-SameFiles :
      (missing : Text) (s : State) (run : Text → Text → World → Turn)
      → ((f rest : Text) → SameFiles s.world (run f rest s.world))
      → SameFiles s.world (with_filename size students qsort missing s run)
  unfolding say_line log_message
  with_filename-SameFiles missing s run h = elim (Option-cases (scan_word s.stdin).0) [
    | inl e ↦ rw (SameFiles, with_filename, e) refl
    | inr (f, e) ↦ rw (SameFiles, with_filename, e) (h (remove_quotes f) (scan_word s.stdin).1)
  ]

  search_command-SameFiles : (s : State) → SameFiles s.world (search_command size students qsort s)
  unfolding say_line log_message
  search_command-SameFiles s = elim (Option-cases (scan_quoted s.stdin).0) [
    | inl e ↦ rw (SameFiles, search_command, e) refl
    | inr (f, e) ↦ elim (Option-cases (scan_quoted (scan_quoted s.stdin).1).0) [
      | inl g ↦ rw (SameFiles, search_command, e, g) refl
      | inr (n, g) ↦ rw (SameFiles, search_command, e, g) (search_student-file size n f s.world)
    ]
  ]

  list_some_command-SameFiles :
      (s : State) → SameFiles s.world (list_some_command size students qsort s)
  unfolding say_line log_message
  list_some_command-SameFiles s = elim (Option-cases (scan_word s.stdin).0) [
    | inl e ↦ rw (SameFiles, list_some_command, e) refl
    | inr (f, e) ↦ elim (Option-cases (scan_int (scan_word s.stdin).1).0) [
      | inl g ↦ rw (SameFiles, list_some_command, e, g) refl
      | inr (n, g) ↦ elim (Option-cases (scan_int (scan_int (scan_word s.stdin).1).1).0) [
        | inl h ↦ rw (SameFiles, list_some_command, e, g, h) refl
        | inr (p, h) ↦
            rw (SameFiles, list_some_command, e, g, h)
              (list_some-file (remove_quotes f) n p s.world)
      ]
    ]
  ]

  run_command-SameFiles :
      (s : State)
      → str_eq s.command (codes "gtuStudentGrades") ≡ false
      → str_eq s.command (codes "addStudentGrade") ≡ false
      → SameFiles s.world (run_command size students qsort s)
  unfolding run_command say_line log_message commands
  run_command-SameFiles s create add = elim (Bool-cases (str_eq s.command (codes "q"))) [
    | inl q ↦ rw (run_command, q) refl
    | inr q ↦ elim (Bool-cases (str_eq s.command (codes "help"))) [
      | inl h ↦ rw (run_command, q, create, h) refl
      | inr h ↦ elim (Bool-cases (str_eq s.command (codes "searchStudent"))) [
        | inl f ↦ rw (run_command, q, create, h, add, f) (search_command-SameFiles s)
        | inr f ↦ elim (Bool-cases (str_eq s.command (codes "showAll"))) [
          | inl g ↦
              rw (run_command, q, create, h, add, f, g)
                (with_filename-SameFiles (codes "Error: Incorrect number of arguments for showAll.")
                  s (λ f rest w. Turn.again (state rest s.command (show_all f w)))
                  (λ n rest. show_all-file n s.world))
          | inr g ↦ elim (Bool-cases (str_eq s.command (codes "listGrades"))) [
            | inl k ↦
                rw (run_command, q, create, h, add, f, g, k)
                  (with_filename-SameFiles
                    (codes "Error: Incorrect number of arguments for listGrades.") s
                    (λ f rest w. Turn.again (state rest s.command (list_grades f w)))
                    (λ n rest. list_grades-file n s.world))
            | inr k ↦ elim (Bool-cases (str_eq s.command (codes "listSome"))) [
              | inl l ↦
                  rw (run_command, q, create, h, add, f, g, k, l) (list_some_command-SameFiles s)
              | inr l ↦ elim (Bool-cases (str_eq s.command (codes "sortAll"))) [
                | inl m ↦
                    rw (run_command, q, create, h, add, f, g, k, l, m)
                      (with_filename-SameFiles
                        (codes "Error: Incorrect number of arguments for sortAll.") s
                        (λ f rest w. sort_all size students qsort rest s.command f w)
                        (λ n rest. sort_all-SameFiles rest s.command n s.world))
                | inr m ↦ rw (run_command, q, create, h, add, f, g, k, l, m) refl
              ]
            ]
          ]
        ]
      ]
    ]
  ]

-- The command of a round: the next word, or the last command at the end of the input.
abbrev pub next_command : State → Text
next_command s = elim (scan_word s.stdin).0 [ some c ↦ c | none ↦ s.command ]

-- A round of the menu for any command but "gtuStudentGrades" and "addStudentGrade" changes no file
-- apart from the log, whether it succeeds or not.
pub menu_turn-SameFiles :
    (size students : ℕ) (qsort : (Text → Text → ℤ) → List Text → List Text) (s : State)
    → str_eq (next_command s) (codes "gtuStudentGrades") ≡ false
    → str_eq (next_command s) (codes "addStudentGrade") ≡ false
    → SameFiles s.world (menu_turn size students qsort s)
unfolding menu_turn say
menu_turn-SameFiles size students qsort s create add =
    run_command-SameFiles size students qsort
      (state (scan_word s.stdin).1 (next_command s)
        (say (codes "Enter command(\"q\" for quit and \"help\" for available commands): ") s.world))
      create add
