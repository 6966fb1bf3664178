-- ===== src/Students/Scan.antt =====
-- The formats of `scanf` that hw1/gtuStudentManagemetSystem.c uses, and `atoi`, on a list of bytes. Words are
-- taken to be shorter than the buffers, and numbers to fit into an `int`.
pub mod Printed
use cse_344_homeworks.Prelude.{
  ℕ, ◌+◌, ◌-◌, ◌*◌, Bool, true, false, not, ◌&&◌, ◌||◌, [], ◌∷◌, Option, none, some, if◌then◌else◌,
  leb, ◌==◌,
}
use cse_344_homeworks.Prelude.Text.{Text}
use cse_344_homeworks.Prelude.Int.{ℤ, pos, sub_ℕ}

abbrev pub is_space : ℕ → Bool
is_space c = c == b' ' || (leb 9 c && leb c 13)

abbrev pub is_digit : ℕ → Bool
is_digit c = leb b'0' c && leb c b'9'

unfoldable pub skip_space : Text → Text
skip_space [] = []
skip_space (c ∷ s) = if is_space c then skip_space s else c ∷ s

-- The longest prefix whose characters pass a test, and what follows.
unfoldable pub split_while : (ℕ → Bool) → Text → Text × Text
split_while test [] = ([], [])
split_while test (c ∷ s) =
    let (taken, rest) = split_while test s in if test c then (c ∷ taken, rest) else ([], c ∷ s)

-- A conversion: its value, if it succeeds, and the input that is left.
abbrev pub Scanned : Type 0 → Type 0
Scanned A = Option A × Text

abbrev pub is_empty : Text → Bool
is_empty [] = true
is_empty (c ∷ s) = false

-- A conversion of a text needs a character.
abbrev pub some_text : Text → Option Text
some_text s = if is_empty s then none else some s

-- "%s"
unfoldable pub scan_word : Text → Scanned Text
unfolding skip_space split_while
scan_word input =
    let (word, rest) = split_while (λ c. not (is_space c)) (skip_space input) in
    (some_text word, rest)

-- The text between quotes; the closing one is passed over if it is there.
abbrev pub closed : Text → Text
closed [] = []
closed (c ∷ s) = if c == b'"' then s else c ∷ s

-- " \"%[^\"]\""
unfoldable pub scan_quoted : Text → Scanned Text
unfolding skip_space split_while
scan_quoted input = elim (skip_space input) [
  | [] ↦ (none, [])
  | c ∷ s ↦
      if c == b'"'
      then (let (text, rest) = split_while (λ d. not (d == b'"')) s in
          (some_text text, if is_empty text then rest else closed rest))
      else (none, c ∷ s)
]

abbrev pub value : Text → ℕ → ℕ
value [] n = n
value (d ∷ ds) n = value ds (10 * n + (d - b'0'))

-- The digits, behind a sign.
unfoldable pub scan_digits : Bool → Text → Scanned ℤ
unfolding split_while
scan_digits negative input =
    let (digits, rest) = split_while is_digit input in
    let number : ℤ = if negative then sub_ℕ 0 (value digits 0) else pos (value digits 0) in
    (if is_empty digits then none else some number, rest)

-- "%d"
unfoldable pub scan_int : Text → Scanned ℤ
unfolding skip_space scan_digits
scan_int input = elim (skip_space input) [
  | [] ↦ (none, [])
  | c ∷ s ↦
      if c == b'-'
      then scan_digits true s
      else if c == b'+'
      then scan_digits false s
      else scan_digits false (c ∷ s)
]

-- A text without a number counts as 0.
unfoldable pub atoi : Text → ℤ
unfolding scan_int
atoi s = let (converted, rest) = scan_int s in elim converted [ none ↦ pos 0 | some z ↦ z ]
