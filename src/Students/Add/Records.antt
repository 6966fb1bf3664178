-- ===== src/Students/Add/Records.antt =====
-- What adding a grade does to the records of a file, apart from buffers.
use cse_344_homeworks.Prelude.{
  All-append, refl, Bool, false, ◌||◌, List, [], ◌∷◌, ◌++◌, map, if◌then◌else◌, All, Bool-cases,
  inl, inr,
}
use cse_344_homeworks.Prelude.Text.{Text, starts_with}
use cse_344_homeworks.Students.Lines.{IsLine, Plain}

module _ (name_surname grade : Text) where
  -- "Name Surname, GR"
  abbrev pub entry : Text
  entry = name_surname ++ (b',' ∷ b' ' ∷ grade)

  abbrev pub renew : Text → Text
  renew line = if starts_with line name_surname then entry else line

  abbrev pub is_known : List Text → Bool
  is_known [] = false
  is_known (line ∷ rest) = starts_with line name_surname || is_known rest

  -- Every record that begins with the name is replaced; without one a record is added at the end.
  abbrev pub with_grade : List Text → List Text
  with_grade records = map renew records ++ (if is_known records then [] else entry ∷ [])

not_empty_entry :
    (name_surname grade : Text)
    → All Plain (entry name_surname grade)
    → IsLine (entry name_surname grade)
not_empty_entry [] grade p = p
not_empty_entry (c ∷ name) grade p = p

module _ (name_surname grade : Text) (name_plain : All Plain name_surname)
    (grade_plain : All Plain grade) where
  pub entry-Plain : All Plain (entry name_surname grade)
  entry-Plain =
      All-append Plain name_surname (b',' ∷ b' ' ∷ grade) name_plain
        ((refl, refl), ((refl, refl), grade_plain))

  pub entry-IsLine : IsLine (entry name_surname grade)
  entry-IsLine = not_empty_entry name_surname grade entry-Plain

  renewed-IsLine :
      (records : List Text)
      → All IsLine records
      → All IsLine (map (renew name_surname grade) records)
  renewed-IsLine [] p = tt
  renewed-IsLine (line ∷ rest) p = elim (Bool-cases (starts_with line name_surname)) [
    | inl old ↦ rw old (entry-IsLine, renewed-IsLine rest p.1)
    | inr new ↦ rw new (p.0, renewed-IsLine rest p.1)
  ]

  pub with_grade-IsLine :
      (records : List Text)
      → All IsLine records
      → All IsLine (with_grade name_surname grade records)
  with_grade-IsLine records p =
      All-append IsLine (map (renew name_surname grade) records) _ (renewed-IsLine records p)
        (elim (Bool-cases (is_known name_surname grade records)) [
          | inl old ↦ rw old tt
          | inr new ↦ rw new (entry-IsLine, tt)
        ])
