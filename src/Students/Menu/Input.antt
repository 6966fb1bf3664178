-- ===== src/Students/Menu/Input.antt =====
-- The menu at the end of its input, and which commands leave the files alone.
use cse_344_homeworks.Prelude.{
  ℕ, zero, suc, ◌≡◌, refl, ap, ◌∙◌, Bool, true, false, List, [], Option, none, some, if◌then◌else◌,
}
use cse_344_homeworks.Prelude.Text.{Text, codes, str_eq}
use cse_344_homeworks.Prelude.Int.{ℤ}
use cse_344_homeworks.Students.Scan.{skip_space, split_while, scan_word, scan_quoted, scan_int}
use cse_344_homeworks.Students.World.{World, say, say_line, log_message}
use cse_344_homeworks.Students.Menu.{State, state, Turn, report, commands, run_command, menu_turn}

-- The rounds of the loop, as long as it goes on.
abbrev pub next_turn : (State → Turn) → Turn → Turn
next_turn turn (Turn.again s) = turn s
next_turn turn other = other

module _ (size students : ℕ) (qsort : (Text → Text → ℤ) → List Text → List Text) where
  unfoldable pub turns : ℕ → State → Turn
  unfolding menu_turn
  turns zero s = Turn.again s
  turns (suc n) s = next_turn (menu_turn size students qsort) (turns n s)

abbrev prompt : Text
prompt = codes "Enter command(\"q\" for quit and \"help\" for available commands): "

-- What a command does when nothing is left to read: its name decides.
unfoldable pub at_end : Text → World → World
unfolding str_eq commands say_line log_message
at_end command w =
    if str_eq command (codes "gtuStudentGrades")
    then report (codes "Error: Incorrect number of arguments for gtuStudentGrades.") w
    else if str_eq command (codes "help")
    then commands w
    else if str_eq command (codes "addStudentGrade")
    then report (codes "Error: Incorrect number of arguments for addStudentGrade.") w
    else if str_eq command (codes "searchStudent")
    then report (codes "Error: Incorrect number of arguments for searchStudent.") w
    else if str_eq command (codes "showAll")
    then report (codes "Error: Incorrect number of arguments for showAll.") w
    else if str_eq command (codes "listGrades")
    then report (codes "Error: Incorrect number of arguments for listGrades.") w
    else if str_eq command (codes "listSome")
    then report (codes "Error: Incorrect number of arguments for listSome.") w
    else if str_eq command (codes "sortAll")
    then report (codes "Error: Incorrect number of arguments for sortAll.") w
    else log_message (codes "Unknown command received in menu")
        (say_line (codes "Unknown command.") w)

-- The prompt, and the command once more, n times.
unfoldable pub repeated : ℕ → Text → World → World
unfolding at_end say
repeated zero command w = w
repeated (suc n) command w = at_end command (say prompt (repeated n command w))

either :
    (command : Text) (b : Bool) (x y : Turn) (u v : World)
    → x ≡ Turn.again (state [] command u)
    → y ≡ Turn.again (state [] command v)
    → (if b then x else y) ≡ Turn.again (state [] command (if b then u else v))
either command true x y u v p q = p
either command false x y u v p q = q

no_word : (stdin : Text) → skip_space stdin ≡ [] → scan_word stdin ≡ (none, [])
unfolding scan_word split_while
no_word stdin e = rw (scan_word, e) refl

skip_nothing : skip_space [] ≡ []
unfolding skip_space
skip_nothing = refl

module _ (size students : ℕ) (qsort : (Text → Text → ℤ) → List Text → List Text) where
  run_at_end :
      (command : Text) (w : World)
      → str_eq command (codes "q") ≡ false
      → run_command size students qsort (state [] command w)
        ≡ Turn.again (state [] command (at_end command w))
  unfolding run_command at_end scan_word scan_quoted scan_int skip_space split_while
  run_at_end command w h = rw h (
      either command (str_eq command (codes "gtuStudentGrades")) _ _ _ _ refl (
        either command (str_eq command (codes "help")) _ _ _ _ refl (
          either command (str_eq command (codes "addStudentGrade")) _ _ _ _ refl (
            either command (str_eq command (codes "searchStudent")) _ _ _ _ refl (
              either command (str_eq command (codes "showAll")) _ _ _ _ refl (
                either command (str_eq command (codes "listGrades")) _ _ _ _ refl (
                  either command (str_eq command (codes "listSome")) _ _ _ _ refl
                    (either command (str_eq command (codes "sortAll")) _ _ _ _ refl refl))))))))

  turn_at_end :
      (stdin command : Text) (w : World)
      → skip_space stdin ≡ []
      → str_eq command (codes "q") ≡ false
      → menu_turn size students qsort (state stdin command w)
        ≡ Turn.again (state [] command (at_end command (say prompt w)))
  unfolding menu_turn
  turn_at_end stdin command w e h =
      ap
        (λ (p : Option Text × Text).
          run_command size students qsort
            (state p.1 (elim p.0 [ some c ↦ c | none ↦ command ]) (say prompt w)))
        (no_word stdin e)
      ∙ run_at_end command (say prompt w) h

  -- At the end of the input, unless the last command was "q", `menu` goes round for ever: any number of
  -- rounds come back, and in each the prompt is printed and the last command carried out once more,
  -- which is a message that its arguments are missing, the help, or a message that it is unknown.
  pub menu_never_returns :
      (n : ℕ) (s : State)
      → skip_space s.stdin ≡ []
      → str_eq s.command (codes "q") ≡ false
      → turns size students qsort (suc n) s
        ≡ Turn.again (state [] s.command (repeated (suc n) s.command s.world))
  unfolding turns repeated
  menu_never_returns zero s e h = turn_at_end s.stdin s.command s.world e h
  menu_never_returns (suc n) s e h =
      ap (next_turn (menu_turn size students qsort)) (menu_never_returns n s e h)
      ∙ turn_at_end [] s.command (repeated (suc n) s.command s.world) skip_nothing h
