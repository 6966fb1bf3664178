-- ===== src/Students/Add/Laws.antt =====
-- `add_student_grade` against the records of the file.
use cse_344_homeworks.Prelude.{
  take_all, ℕ, ◌+◌, ◌-◌, ◌<◌, ◌≡◌, refl, ◌∙◌, ap, sym, Bool, true, false, if◌then◌else◌, ◌||◌, List,
  [], ◌∷◌, ◌++◌, map, length, length-append, take, All, arith, Bool-cases, inl, inr, append_assoc,
  append-nil, some,
}
use cse_344_homeworks.Prelude.Text.{Text, codes, starts_with, str_eq, str_eq_refl, str_eq_refl}
use cse_344_homeworks.Students.Lines.{Plain, lines, unlines, newline, lines-unlines, lines-IsLine}
use cse_344_homeworks.Students.World.{World, contents, contents-file, log_file_path}
use cse_344_homeworks.Students.Add.{
  append_bounded, entry_line, add_line, add_lines, updated_file, add_student_grade,
}
use cse_344_homeworks.Students.Add.Records.{entry, renew, is_known, with_grade, with_grade-IsLine}

unlines-append : (l m : List Text) → unlines (l ++ m) ≡ unlines l ++ unlines m
unfolding unlines
unlines-append [] m = refl
unlines-append (x ∷ l) m =
    ap (λ k. x ++ (newline ∷ k)) (unlines-append l m)
    ∙ sym (append_assoc x (newline ∷ unlines l) (unlines m))

module _ (size : ℕ) (name_surname grade : Text) where
  append_bounded_fits :
      (space text : Text)
      → length space + length text < size
      → append_bounded size space text ≡ space ++ text
  unfolding append_bounded
  append_bounded_fits space text h =
      ap (λ t. space ++ t) (take_all (size - length space - 1) text (omega arith))

  abbrev renewed : List Text → Text
  renewed records = unlines (map (renew name_surname grade) records)

  entry_line-entry : entry_line name_surname grade ≡ entry name_surname grade ++ (newline ∷ [])
  entry_line-entry = sym (append_assoc name_surname (b',' ∷ b' ' ∷ grade) (newline ∷ []))

  add_line_fits :
      (line : Text) (found : Bool) (space : Text)
      → length space + length (renew name_surname grade line) + 1 < size
      → add_line size name_surname grade line (found, space) ≡ (
        found || starts_with line name_surname,
        space ++ (renew name_surname grade line ++ (newline ∷ [])),
      )
  unfolding add_line
  add_line_fits line found space h = elim (Bool-cases (starts_with line name_surname)) [
    | inl old ↦ ground (
      arith,
      old,
      entry_line-entry,
      append_bounded_fits space (entry_line name_surname grade),
      length-append (entry name_surname grade) (newline ∷ []),
    )
    | inr new ↦
        ground (arith, new, append_bounded_fits space line, append_assoc space line (newline ∷ []))
  ]

  add_lines_fits :
      (records : List Text) (found : Bool) (space : Text)
      → length space + length (renewed records) < size
      → add_lines size name_surname grade records (found, space)
        ≡ (found || is_known name_surname grade records, space ++ renewed records)
  unfolding add_lines unlines
  add_lines_fits [] found space h = ground (arith, append-nil space)
  add_lines_fits (line ∷ rest) found space h =
      let one = renew name_surname grade line ++ (newline ∷ []) in
      let here =
        add_line_fits line found space
          (omega (arith, length-append (renew name_surname grade line) (newline ∷ renewed rest))) in
      let others = add_lines_fits rest (found || starts_with line name_surname) (space ++ one) (
        omega (
          arith,
          length-append space one,
          length-append (renew name_surname grade line) (newline ∷ []),
          length-append (renew name_surname grade line) (newline ∷ renewed rest),
        )) in
      ap (add_lines size name_surname grade rest) here
      ∙ others
      ∙ ground (
        arith,
        append_assoc space one (renewed rest),
        append_assoc (renew name_surname grade line) (newline ∷ []) (renewed rest),
      )

  abbrev records_of : Text → List Text
  records_of content = lines (take (size - 1) content)

  added_last :
      (records : List Text)
      → let line = entry name_surname grade in
        unlines (records ++ (line ∷ [])) ≡ unlines records ++ (line ++ (newline ∷ []))
  unfolding unlines
  added_last records = unlines-append records (entry name_surname grade ∷ [])

  updated_file_fits :
      (content : Text)
      → length (unlines (with_grade name_surname grade (records_of content))) < size
      → updated_file size name_surname grade content ≡ (
        is_known name_surname grade (records_of content),
        unlines (with_grade name_surname grade (records_of content)),
      )
  unfolding updated_file
  updated_file_fits content h =
      elim (Bool-cases (is_known name_surname grade (records_of content))) [
        | inl old ↦
            let whole : unlines (with_grade name_surname grade (records_of content))
                ≡ renewed (records_of content) =
              rw old
                (ap unlines (append-nil (map (renew name_surname grade) (records_of content)))) in
            let fits : 0 + length (renewed (records_of content)) < size =
              omega (arith, ap length whole) in
            ground (arith, old, whole, add_lines_fits (records_of content) false [] fits)
        | inr new ↦
            let last = entry name_surname grade ++ (newline ∷ []) in
            let whole : unlines (with_grade name_surname grade (records_of content))
                ≡ renewed (records_of content) ++ last =
              rw new (added_last (map (renew name_surname grade) (records_of content))) in
            let fits : 0 + length (renewed (records_of content)) < size =
              omega (arith, ap length whole, length-append (renewed (records_of content)) last) in
            ground (
              arith,
              new,
              whole,
              ap length whole,
              entry_line-entry,
              length-append (renewed (records_of content)) last,
              append_bounded_fits (renewed (records_of content)) (entry_line name_surname grade),
              add_lines_fits (records_of content) false [] fits,
            )
      ]

module _ (size : ℕ) (name_surname grade content : Text) where
  updated :
      length content < size
      → length (unlines (with_grade name_surname grade (lines content))) < size
      → (updated_file size name_surname grade content).1
        ≡ unlines (with_grade name_surname grade (lines content))
  updated l h =
      let whole : take (size - 1) content ≡ content = take_all (size - 1) content (omega arith) in
      let fits : length (unlines (with_grade name_surname grade (lines (take (size - 1) content))))
          < size =
        rw whole h in
      ap (λ p. p.1) (updated_file_fits size name_surname grade content fits)
      ∙ ap (λ t. unlines (with_grade name_surname grade (lines t))) whole

module _ (size : ℕ) (filename name_surname grade content : Text) (w : World) where
  add_file_self :
      w.file filename ≡ some content
      → (add_student_grade size filename name_surname grade w).file filename
        ≡ some (updated_file size name_surname grade content).1
  unfolding add_student_grade
  add_file_self e = ground (arith, e, str_eq_refl filename)

  add_file_other :
      (other : Text)
      → w.file filename ≡ some content
      → str_eq filename other ≡ false
      → (add_student_grade size filename name_surname grade w).file other ≡ w.file other
  unfolding add_student_grade
  add_file_other other e o = ground (arith, e, o)

-- What is written to the log file.
abbrev pub added_message : Text → Text → Text → Text
added_message name_surname grade content =
    if is_known name_surname grade (lines content)
    then codes "Student grade updated successfully."
    else codes "New student grade added successfully."

module _ (size : ℕ) (filename name_surname grade content : Text) (w : World) where
  logged :
      (known : Bool)
      → w.file filename ≡ some content
      → (updated_file size name_surname grade content).0 ≡ known
      → (add_student_grade size filename name_surname grade w).log
        ≡ w.log
          ++ ((if known
                then codes "Student grade updated successfully."
                else codes "New student grade added successfully.")
              ++ (newline ∷ []))
  unfolding add_student_grade
  logged true e f = ground (arith, e, f)
  logged false e f = ground (arith, e, f)

  add_logged :
      w.file filename ≡ some content
      → length content < size
      → length (unlines (with_grade name_surname grade (lines content))) < size
      → (add_student_grade size filename name_surname grade w).log
        ≡ w.log ++ (added_message name_surname grade content ++ (newline ∷ []))
  add_logged e l h =
      let whole : take (size - 1) content ≡ content = take_all (size - 1) content (omega arith) in
      let fits : length (unlines (with_grade name_surname grade (lines (take (size - 1) content))))
          < size =
        rw whole h in
      logged (is_known name_surname grade (lines content)) e (
        ap (λ p. p.0) (updated_file_fits size name_surname grade content fits)
        ∙ ap (λ t. is_known name_surname grade (lines t)) whole)

pub add_student_grade_file :
    (size : ℕ) (filename name_surname grade content : Text) (w : World)
    → w.file filename ≡ some content
    → length content < size
    → length (unlines (with_grade name_surname grade (lines content))) < size
    → (add_student_grade size filename name_surname grade w).file filename
      ≡ some (unlines (with_grade name_surname grade (lines content)))
add_student_grade_file size filename name_surname grade content w e l h =
    add_file_self size filename name_surname grade content w e
    ∙ ap some (updated size name_surname grade content l h)

-- A file that is not the log file, exists and fits into the buffer, a name and a grade without
-- newlines, and a new file that fits too: `add_student_grade` leaves a file whose lines are the old
-- ones, with every record that begins with the name replaced by the new one, and with the new record
-- behind them if there was none. No other file changes but the log file, to which one line is added.
pub add_student_grade_lem :
    (size : ℕ) (filename name_surname grade content other : Text) (w : World)
    → contents filename w ≡ some content
    → str_eq filename log_file_path ≡ false
    → All Plain name_surname
    → All Plain grade
    → length content < size
    → length (unlines (with_grade name_surname grade (lines content))) < size
    → str_eq filename other ≡ false
    → str_eq other log_file_path ≡ false
    → let v = add_student_grade size filename name_surname grade w in
      (content' : Text) × (contents filename v ≡ some content')
      × (lines content' ≡ with_grade name_surname grade (lines content))
      × (contents other v ≡ contents other w)
      × (contents log_file_path v
          ≡ some (w.log ++ (added_message name_surname grade content ++ (newline ∷ []))))
unfolding contents str_eq
add_student_grade_lem size filename name_surname grade content other w e u n g l h o p =
    let e' = sym (contents-file filename w u) ∙ e in
    let v = add_student_grade size filename name_surname grade w in
    (
      unlines (with_grade name_surname grade (lines content)),
      contents-file filename v u
          ∙ add_student_grade_file size filename name_surname grade content w e' l h,
      lines-unlines _
          (with_grade-IsLine name_surname grade n g (lines content) (lines-IsLine content)),
      contents-file other v p
          ∙ add_file_other size filename name_surname grade content w other e' o
          ∙ sym (contents-file other w p),
      ap some (add_logged size filename name_surname grade content w e' l h),
    )
