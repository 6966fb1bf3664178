-- ===== src/Students/Show/Laws.antt =====
-- Which lines `list_grades` and `list_some` print.
use cse_344_homeworks.Prelude.{
  ℕ, zero, suc, ◌+◌, ◌≤◌, ◌<◌, ◌≡◌, refl, ◌∙◌, ap, false, List, [], ◌∷◌, ◌++◌, ◌==◌, All, arith,
  take,
}
use cse_344_homeworks.Prelude.Int.{pos}
use cse_344_homeworks.Prelude.Text.{Text}
use cse_344_homeworks.Students.Lines.{newline, unlines}
use cse_344_homeworks.Students.Show.{print_grades, print_page}

-- A line of a text, empty ones included.
abbrev pub NoNewline : Text → Type 0
NoNewline = All (λ c. (c == newline) ≡ false)

print_grades_line :
    (l s : Text) (n : ℕ)
    → NoNewline l
    → n < 5
    → print_grades (l ++ (newline ∷ s)) n ≡ l ++ (newline ∷ print_grades s (n + 1))
unfolding print_grades
print_grades_line [] s n p h = ground arith
print_grades_line (c ∷ l) s n p h = ground (arith, print_grades_line l s n p.1 h)

print_grades_end : (s : Text) (n : ℕ) → 5 ≤ n → print_grades s n ≡ []
unfolding print_grades
print_grades_end [] n h = refl
print_grades_end (c ∷ s) n h = ground arith

print_grades_from :
    (ls : List Text) (k n : ℕ)
    → All NoNewline ls
    → n + k ≡ 5
    → print_grades (unlines ls) n ≡ unlines (take k ls)
unfolding unlines
print_grades_from ls zero n p h = print_grades_end (unlines ls) n (omega arith)
print_grades_from [] (suc k) n p h = unfold print_grades in refl
print_grades_from (l ∷ ls) (suc k) n p h =
    print_grades_line l (unlines ls) n p.0 (omega arith)
    ∙ ap (λ t. l ++ (newline ∷ t)) (print_grades_from ls k (n + 1) p.1 (omega arith))

-- `list_grades` prints the first five lines of a file of lines, or all if there are fewer.
pub print_grades-first_five :
    (ls : List Text) → All NoNewline ls → print_grades (unlines ls) 0 ≡ unlines (take 5 ls)
print_grades-first_five ls p = print_grades_from ls 5 0 p refl

module _ (start stop : ℕ) where
  page : Text → ℕ → Text
  page s n = (print_page (pos start) (pos stop) s n).0
