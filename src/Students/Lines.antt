-- ===== src/Students/Lines.antt =====
-- hw1/gtuStudentManagemetSystem.c: the lines of a file, as `strtok(…, "\n")` and the loops over
-- single characters find them.
use cse_344_homeworks.Prelude.{
  ℕ, ◌≡◌, refl, ap, ◌∙◌, false, List, [], ◌∷◌, ◌++◌, ◌==◌, if◌then◌else◌, All, arith, Bool-cases,
  inl, inr,
}
use cse_344_homeworks.Prelude.Text.{Text}

abbrev pub newline : ℕ
newline = 10

-- What the string functions see of a buffer: the bytes before the first 0.
unfoldable pub c_string : Text → Text
c_string [] = []
c_string (c ∷ s) = if c == 0 then [] else c ∷ c_string s

abbrev pub cons_head : ℕ → List Text → List Text
cons_head c [] = (c ∷ []) ∷ []
cons_head c (l ∷ ls) = (c ∷ l) ∷ ls

-- The pieces between newlines; behind the last newline comes one more.
unfoldable pub segments : Text → List Text
segments [] = [] ∷ []
segments (c ∷ s) = if c == newline then [] ∷ segments s else cons_head c (segments s)

abbrev pub drop_empty : List Text → List Text
drop_empty [] = []
drop_empty ([] ∷ ls) = drop_empty ls
drop_empty ((c ∷ l) ∷ ls) = (c ∷ l) ∷ drop_empty ls

-- strtok(buffer, "\n") until it returns NULL: empty lines are passed over.
unfoldable pub lines : Text → List Text
unfolding c_string segments
lines buffer = drop_empty (segments (c_string buffer))

abbrev pub but_last : List Text → List Text
but_last [] = []
but_last (l ∷ []) = []
but_last (l ∷ m ∷ ls) = l ∷ but_last (m ∷ ls)

-- The lines that end in a newline, as a loop over the characters of the file meets them.
unfoldable pub terminated_lines : Text → List Text
unfolding segments
terminated_lines file = but_last (segments file)

-- The file that holds a list of lines, each with its newline.
unfoldable pub unlines : List Text → Text
unlines [] = []
unlines (l ∷ ls) = l ++ (newline ∷ unlines ls)

-- A character that neither ends a line nor a string.
abbrev pub Plain : ℕ → Type 0
Plain c = ((c == 0) ≡ false) × ((c == newline) ≡ false)

-- A line that `strtok` can yield.
abbrev pub IsLine : Text → Type 0
IsLine [] = ⊥
IsLine (c ∷ l) = Plain c × All Plain l

segments_line : (l s : Text) → All Plain l → segments (l ++ (newline ∷ s)) ≡ l ∷ segments s
unfolding segments
segments_line [] s p = refl
segments_line (c ∷ l) s p = ground (arith, segments_line l s p.1)

IsLine-Plain : (l : Text) → IsLine l → All Plain l
IsLine-Plain [] p = absurd p
IsLine-Plain (c ∷ l) p = p

segments-unlines : (ls : List Text) → All IsLine ls → segments (unlines ls) ≡ ls ++ ([] ∷ [])
unfolding unlines segments
segments-unlines [] p = refl
segments-unlines (l ∷ ls) p =
    segments_line l (unlines ls) (IsLine-Plain l p.0) ∙ ap (λ m. l ∷ m) (segments-unlines ls p.1)

drop_empty-snoc : (ls : List Text) → All IsLine ls → drop_empty (ls ++ ([] ∷ [])) ≡ ls
drop_empty-snoc [] p = refl
drop_empty-snoc ([] ∷ ls) p = absurd p.0
drop_empty-snoc ((c ∷ l) ∷ ls) p = ap (λ m. (c ∷ l) ∷ m) (drop_empty-snoc ls p.1)

but_last-snoc : (ls : List Text) (l : Text) → but_last (ls ++ (l ∷ [])) ≡ ls
but_last-snoc [] l = refl
but_last-snoc (m ∷ []) l = refl
but_last-snoc (m ∷ n ∷ ls) l = ap (λ k. m ∷ k) (but_last-snoc (n ∷ ls) l)

c_string_line :
    (l s : Text) → All Plain l → c_string (l ++ (newline ∷ s)) ≡ l ++ (newline ∷ c_string s)
unfolding c_string
c_string_line [] s p = refl
c_string_line (c ∷ l) s p = ground (arith, c_string_line l s p.1)

c_string-unlines : (ls : List Text) → All IsLine ls → c_string (unlines ls) ≡ unlines ls
unfolding unlines c_string
c_string-unlines [] p = refl
c_string-unlines (l ∷ ls) p =
    c_string_line l (unlines ls) (IsLine-Plain l p.0)
    ∙ ap (λ m. l ++ (newline ∷ m)) (c_string-unlines ls p.1)

-- Lines that are written out one by one are read back by `strtok`.
pub lines-unlines : (ls : List Text) → All IsLine ls → lines (unlines ls) ≡ ls
unfolding lines
lines-unlines ls p =
    ap (λ s. drop_empty (segments s)) (c_string-unlines ls p)
    ∙ ap drop_empty (segments-unlines ls p)
    ∙ drop_empty-snoc ls p

pub terminated_lines-unlines : (ls : List Text) → All IsLine ls → terminated_lines (unlines ls) ≡ ls
unfolding terminated_lines
terminated_lines-unlines ls p = ap but_last (segments-unlines ls p) ∙ but_last-snoc ls []

-- What `strtok` yields are lines.
cons_head-Plain :
    (c : ℕ) (ls : List Text) → Plain c → All (All Plain) ls → All (All Plain) (cons_head c ls)
cons_head-Plain c [] p q = ((p, tt), tt)
cons_head-Plain c (l ∷ ls) p q = ((p, q.0), q.1)

segments-Plain : (s : Text) → All (All Plain) (segments (c_string s))
unfolding segments c_string
segments-Plain [] = (tt, tt)
segments-Plain (c ∷ s) = elim (Bool-cases (c == 0)) [
  | inl nul ↦ rw nul (tt, tt)
  | inr char ↦ elim (Bool-cases (c == newline)) [
    | inl end ↦ rw (char, segments, end) (tt, segments-Plain s)
    | inr on ↦
        rw (char, segments, on)
          (cons_head-Plain c (segments (c_string s)) (char, on) (segments-Plain s))
  ]
]

drop_empty-IsLine : (ls : List Text) → All (All Plain) ls → All IsLine (drop_empty ls)
drop_empty-IsLine [] p = tt
drop_empty-IsLine ([] ∷ ls) p = drop_empty-IsLine ls p.1
drop_empty-IsLine ((c ∷ l) ∷ ls) p = (p.0, drop_empty-IsLine ls p.1)

pub lines-IsLine : (s : Text) → All IsLine (lines s)
unfolding lines
lines-IsLine s = drop_empty-IsLine (segments (c_string s)) (segments-Plain s)
