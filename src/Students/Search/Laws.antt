-- ===== src/Students/Search/Laws.antt =====
-- What `search_student` finds.
use cse_344_homeworks.Prelude.{
  ℕ, ◌+◌, ◌<◌, ◌≡◌, ◌⊎◌, false, ap, sym, refl, ◌∙◌, true, List, [], ◌∷◌, ◌++◌, map, if◌then◌else◌,
  length, length-append, ◌==◌, All, arith, Bool-cases, inl, inr, append_assoc, append-nil, some,
  none, Option,
}
use cse_344_homeworks.Prelude.Text.{Text, codes, str_eq, starts_with, starts_with-append}
use cse_344_homeworks.Students.Lines.{
  newline, c_string, segments, but_last, terminated_lines, Plain, unlines, lines,
  terminated_lines-unlines, lines-IsLine,
}
use cse_344_homeworks.Students.World.{
  World, contents, contents-file, log_file_path, say_line, log_message,
}
use cse_344_homeworks.Students.Search.{contains, search_loop, search_student}
use cse_344_homeworks.Students.Add.{add_student_grade}
use cse_344_homeworks.Students.Add.Laws.{add_student_grade_file}
use cse_344_homeworks.Students.Add.Records.{
  entry, renew, is_known, with_grade, entry-Plain, with_grade-IsLine,
}

module _ (name_surname : Text) where
  -- The first of the lines that contains the text.
  abbrev pub first_match : List Text → Option Text
  first_match [] = none
  first_match (line ∷ rest) =
      if contains (c_string line) name_surname then some (c_string line) else first_match rest

abbrev prepend : Text → List Text → List Text
prepend line [] = line ∷ []
prepend line (l ∷ ls) = (line ++ l) ∷ ls

segments_cases : (s : Text) → (l : Text) × (ls : List Text) × (segments s ≡ l ∷ ls)
unfolding segments
segments_cases [] = ([], [], refl)
segments_cases (c ∷ s) =
    let (l, ls, e) = segments_cases s in
    elim (Bool-cases (c == newline)) [
      | inl end ↦ ([], segments s, rw end)
      | inr on ↦ (c ∷ l, ls, rw (on, e))
    ]

module _ (size : ℕ) (name_surname : Text) where
  search_loop_step :
      (s line : Text)
      → length line + length s < size
      → search_loop size name_surname s line
        ≡ first_match name_surname (but_last (prepend line (segments s)))
  unfolding search_loop segments
  search_loop_step [] line h = refl
  search_loop_step (c ∷ s) line h =
      let (l, ls, e) = segments_cases s in
      elim (Bool-cases (c == newline)) [
        | inl end ↦ ground (arith, end, e, append-nil line, search_loop_step s [] (omega arith))
        | inr on ↦ ground (
          arith,
          on,
          e,
          append_assoc line (c ∷ []) l,
          length-append line (c ∷ []),
          search_loop_step s (line ++ (c ∷ [])),
        )
      ]

  -- In a file that fits into the line buffer, `search_student` prints the first line that contains
  -- the text, of those that end in a newline, and none if there is none: a last line without its
  -- newline is never found.
  pub search_loop-first_match :
      (content : Text)
      → length content < size
      → search_loop size name_surname content []
        ≡ first_match name_surname (terminated_lines content)
  unfolding terminated_lines
  search_loop-first_match content h =
      let (l, ls, e) = segments_cases content in search_loop_step content [] (omega arith) ∙ rw e

c_string-Plain : (s : Text) → All Plain s → c_string s ≡ s
unfolding c_string
c_string-Plain [] p = refl
c_string-Plain (c ∷ s) p = ground (arith, c_string-Plain s p.1)

contains-append : (part rest : Text) → contains (part ++ rest) part ≡ true
unfolding contains
contains-append [] [] = starts_with-append [] []
contains-append [] (c ∷ rest) = ground (arith, starts_with-append [] (c ∷ rest))
contains-append (c ∷ part) rest = ground (arith, starts_with-append (c ∷ part) rest)

-- A line with the name in it begins with the name.
abbrev pub IsOwn : Text → Text → Type 0
IsOwn name_surname line =
    (starts_with line name_surname ≡ true) ⊎ (contains (c_string line) name_surname ≡ false)

module _ (name_surname grade : Text) (name_plain : All Plain name_surname)
    (grade_plain : All Plain grade) where
  entry_whole : c_string (entry name_surname grade) ≡ entry name_surname grade
  entry_whole =
      c_string-Plain (entry name_surname grade)
        (entry-Plain name_surname grade name_plain grade_plain)

  entry_found : contains (c_string (entry name_surname grade)) name_surname ≡ true
  entry_found = rw entry_whole (contains-append name_surname (b',' ∷ b' ' ∷ grade))

  first_match-renew :
      (records behind : List Text)
      → All (IsOwn name_surname) records
      → (is_known name_surname grade records ≡ true) ⊎ (behind ≡ entry name_surname grade ∷ [])
      → first_match name_surname (map (renew name_surname grade) records ++ behind)
        ≡ some (entry name_surname grade)
  first_match-renew [] behind h (inl known) = ground (arith, known)
  first_match-renew [] behind h (inr e) = rw (e, entry_found) (ap some entry_whole)
  first_match-renew (line ∷ rest) behind (inl old, h) k =
      rw (old, entry_found) (ap some entry_whole)
  first_match-renew (line ∷ rest) behind (inr miss, h) k =
      elim (Bool-cases (starts_with line name_surname)) [
        | inl old ↦ rw (old, entry_found) (ap some entry_whole)
        | inr new ↦
            rw (new, miss)
              (first_match-renew rest behind h
                (elim k [ inl known ↦ inl (rw new at known) | inr e ↦ inr e ]))
      ]

  first_match-with_grade :
      (records : List Text)
      → All (IsOwn name_surname) records
      → first_match name_surname (with_grade name_surname grade records)
        ≡ some (entry name_surname grade)
  first_match-with_grade records h = elim (Bool-cases (is_known name_surname grade records)) [
    | inl old ↦ rw old (first_match-renew records [] h (inl old))
    | inr new ↦ rw new (first_match-renew records (entry name_surname grade ∷ []) h (inr refl))
  ]

-- On a file that exists and is not the log file, with a name and a grade without newlines, with the old and the new file
-- within the buffers, and if each line of the old file with the name in it begins with the name: after
-- `add_student_grade`, `search_student` for the same name prints the record with the new grade,
-- whether or not the file had a record of the student before.
pub search-add_student_grade :
    (size : ℕ) (filename name_surname grade content : Text) (w : World)
    → contents filename w ≡ some content
    → str_eq filename log_file_path ≡ false
    → All Plain name_surname
    → All Plain grade
    → All (IsOwn name_surname) (lines content)
    → length content < size
    → length (unlines (with_grade name_surname grade (lines content))) < size
    → let v = add_student_grade size filename name_surname grade w in
      search_student size name_surname filename v
      ≡ log_message
          (codes "Student found in search_student.")
          (say_line (codes "Student found: " ++ (name_surname ++ (codes ", " ++ grade))) v)
unfolding search_student
search-add_student_grade size filename name_surname grade content w e u n g own l h =
    let records = with_grade name_surname grade (lines content) in
    let all = with_grade-IsLine name_surname grade n g (lines content) (lines-IsLine content) in
    let found : search_loop size name_surname (unlines records) []
        ≡ some (entry name_surname grade) =
      search_loop-first_match size name_surname (unlines records) h
      ∙ ap (first_match name_surname) (terminated_lines-unlines records all)
      ∙ first_match-with_grade name_surname grade n g (lines content) own in
    rw
      (
        search_student,
        add_student_grade_file size filename name_surname grade content w
            (sym (contents-file filename w u) ∙ e) l h,
        found,
      )
      refl
