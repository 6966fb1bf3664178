-- ===== src/Students/Tests.antt =====
-- hw1/gtuStudentManagemetSystem.c: its operations and theorems on a small grade file.
use cse_344_homeworks.Prelude.{
  ◌≡◌, refl, inl, inr, List, [], ◌∷◌, ◌++◌, none, some, if◌then◌else◌, take, ◌≤◌, arith,
}
use cse_344_homeworks.Prelude.Text.{Text, codes, str_eq, starts_with}
use cse_344_homeworks.Students.Lines.{lines, unlines, newline, c_string}
use cse_344_homeworks.Students.World.{World, contents, log_file_path, say, say_line, log_message}
use cse_344_homeworks.Students.Add.{add_student_grade, updated_file}
use cse_344_homeworks.Students.Add.Records.{with_grade}
use cse_344_homeworks.Students.Add.Laws.{add_student_grade_lem}
use cse_344_homeworks.Students.Search.{search_student, search_loop, contains}
use cse_344_homeworks.Students.Search.Laws.{search-add_student_grade}
use cse_344_homeworks.Students.Show.{print_grades}
use cse_344_homeworks.Students.Show.Laws.{print_grades-first_five}
use cse_344_homeworks.Students.Names.{
  greater, less, sort_by_student_name_ascending, sort_by_student_name_descending,
}
use cse_344_homeworks.Students.Names.Order.{
  PrintsSorted, sort_ascending-PrintsSorted, sort_descending-PrintsSorted,
}
use cse_344_homeworks.Students.Grades.{
  sort_by_grade_ascending, sort_by_grade_descending, after_last_space, Outcome,
  compare_grades_ascending,
}
use cse_344_homeworks.Students.Bubble.{bubble_sort}
use cse_344_homeworks.Students.Grades.Ranks.{rank}
use cse_344_homeworks.Students.Grades.Sorting.{
  PrintsBy, sorts_by_grade-PrintsBy, qsort_by_bubbles, qsort_by_bubbles-IsQsort,
}
use cse_344_homeworks.Students.Menu.{state, Turn, menu_turn}
use cse_344_homeworks.Students.Menu.Input.{repeated, turns, menu_never_returns}
use cse_344_homeworks.Students.Menu.Files.{SameFiles, menu_turn-SameFiles}
use cse_344_homeworks.Students.Scan.{skip_space, scan_word, split_while}

abbrev records : List Text
records = codes "Bo Li, CB" ∷ codes "Al Fa, AA" ∷ codes "Cy Go, NA" ∷ []

abbrev grades : Text
unfolding unlines
grades = unlines records

-- One file "g" with the three records.
abbrev world : World
unfolding str_eq
world = record {
  file = λ name. if str_eq (codes "g") name then some grades else none;
  out = [];
  log = [];
}

add_student_grade_lem_example :
    let v = add_student_grade 100 (codes "g") (codes "Al Fa") (codes "DD") world in
    (content' : Text) × (contents (codes "g") v ≡ some content')
    × (lines content' ≡ with_grade (codes "Al Fa") (codes "DD") (lines grades))
    × (contents (codes "h") v ≡ contents (codes "h") world)
    × (contents log_file_path v
        ≡ some (codes "Student grade updated successfully." ++ (newline ∷ [])))
unfolding lines unlines str_eq starts_with contents
add_student_grade_lem_example =
    add_student_grade_lem 100 (codes "g") (codes "Al Fa") (codes "DD") grades (codes "h") world refl
      refl (ground arith) (ground arith) (omega arith) (omega arith) refl refl

search-add_student_grade_example :
    let v = add_student_grade 100 (codes "g") (codes "Al Fa") (codes "DD") world in
    search_student 100 (codes "Al Fa") (codes "g") v
    ≡ log_message
        (codes "Student found in search_student.")
        (say_line (codes "Student found: Al Fa, DD") v)
unfolding lines unlines str_eq starts_with contains c_string contents
search-add_student_grade_example =
    search-add_student_grade 100 (codes "g") (codes "Al Fa") (codes "DD") grades world refl refl
      (ground arith) (ground arith) ((inr refl, (inl refl, (inr refl, tt)))) (omega arith)
      (omega arith)

first_five_of_six :
    print_grades (unlines (records ++ records)) 0 ≡ unlines (take 5 (records ++ records))
first_five_of_six = print_grades-first_five (records ++ records) (ground arith)

sort_ascending-PrintsSorted_example :
    PrintsSorted greater (lines grades) world (sort_by_student_name_ascending 100 (codes "g") world)
unfolding lines unlines str_eq
sort_ascending-PrintsSorted_example =
    sort_ascending-PrintsSorted 100 (codes "g") grades world refl (omega arith) (omega arith)

sort_descending-PrintsSorted_example :
    PrintsSorted less (lines grades) world (sort_by_student_name_descending 100 (codes "g") world)
unfolding lines unlines str_eq
sort_descending-PrintsSorted_example =
    sort_descending-PrintsSorted 100 (codes "g") grades world refl (omega arith) (omega arith)

sorts_by_grade-PrintsBy_example :
    PrintsBy
      (λ a b. rank b ≤ rank a)
      (lines grades)
      world
      (sort_by_grade_ascending 100 10 qsort_by_bubbles (codes "g") world)
    × PrintsBy
        (λ a b. rank a ≤ rank b)
        (lines grades)
        world
        (sort_by_grade_descending 100 10 qsort_by_bubbles (codes "g") world)
unfolding lines unlines str_eq after_last_space
sorts_by_grade-PrintsBy_example =
    sorts_by_grade-PrintsBy 100 10 qsort_by_bubbles qsort_by_bubbles-IsQsort (codes "g") grades
      world refl (omega arith) (omega arith) refl

menu_never_returns_example :
    turns 100 10 qsort_by_bubbles 3 (state (newline ∷ []) (codes "help") world)
    ≡ Turn.again (state [] (codes "help") (repeated 3 (codes "help") world))
unfolding skip_space str_eq
menu_never_returns_example =
    menu_never_returns 100 10 qsort_by_bubbles 2 (state (newline ∷ []) (codes "help") world) refl
      refl

menu_turn-SameFiles_example :
    SameFiles world
      (menu_turn 100 10 qsort_by_bubbles (state (codes "showAll \"g\"") (codes "help") world))
unfolding skip_space str_eq scan_word split_while
menu_turn-SameFiles_example =
    menu_turn-SameFiles 100 10 qsort_by_bubbles (state (codes "showAll \"g\"") (codes "help") world)
      refl refl

-- "Sort by Grade Ascending" prints the highest grade first.
abbrev sorted_records : List Text
sorted_records = codes "Al Fa, AA" ∷ codes "Bo Li, CB" ∷ codes "Cy Go, NA" ∷ []

ascending_test :
    sort_by_grade_ascending 100 10 qsort_by_bubbles (codes "g") world
    ≡ Outcome.returned (
        say (unlines sorted_records) (
          log_message
            (codes "Sorted by grade ascending successfully in sort_by_grade_ascending.")
            world))
unfolding sort_by_grade_ascending qsort_by_bubbles lines unlines str_eq bubble_sort
    compare_grades_ascending
ascending_test = refl

-- A name that begins another student's name takes that student's record.
prefix_test :
    (add_student_grade 100 (codes "g") (codes "Al") (codes "DD") world).file (codes "g")
    ≡ some (unlines (codes "Bo Li, CB" ∷ codes "Al, DD" ∷ codes "Cy Go, NA" ∷ []))
unfolding add_student_grade updated_file lines unlines str_eq starts_with
prefix_test = refl

-- A record without a newline at its end is not found.
unterminated_test : search_loop 100 (codes "Al") (codes "Al Fa, AA") [] ≡ none
unfolding search_loop
unterminated_test = refl
