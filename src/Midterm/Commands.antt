-- ===== src/Midterm/Commands.antt =====
-- midterm/server/server.c: what the process of a client does with a command that it reads.
use cse_344_homeworks.Prelude.{
  ℕ, ◌+◌, ◌-◌, ◌&&◌, ltb, length, get_elem?, Bool, not, List, [], ◌∷◌, ◌++◌, Option, none, some,
  ◌==◌, take, drop, if◌then◌else◌,
}
use cse_344_homeworks.Prelude.Text.{Text, codes, starts_with}
use cse_344_homeworks.Prelude.Decimal.{print_int}
use cse_344_homeworks.Prelude.Int.{pos, ltb_ℤ, eq_ℤ}
use cse_344_homeworks.Students.Scan.{split_while, atoi}

-- strtok(s, delimiter): the token, and what the next call goes on with.
unfoldable pub skip_delimiter : (delimiter : ℕ) → Text → Text
skip_delimiter delimiter [] = []
skip_delimiter delimiter (c ∷ s) = if c == delimiter then skip_delimiter delimiter s else c ∷ s

abbrev pub token_of : (delimiter : ℕ) → Text → Option (Text × Text)
token_of delimiter [] = none
token_of delimiter (c ∷ s) =
    let (token, rest) = split_while (λ d. not (d == delimiter)) (c ∷ s) in some (token, drop 1 rest)

unfoldable pub strtok : (delimiter : ℕ) → Text → Option (Text × Text)
unfolding skip_delimiter split_while
strtok delimiter s = token_of delimiter (skip_delimiter delimiter s)

-- A further call, after one that may have found nothing.
abbrev pub next_token : (delimiter : ℕ) → Option (Text × Text) → Option (Text × Text)
next_token delimiter none = none
next_token delimiter (some (token, rest)) = strtok delimiter rest

abbrev pub text_of : Option (Text × Text) → Option Text
text_of none = none
text_of (some (token, rest)) = some token

-- What the child does: it becomes a program, hands a line to the shell, prints a message, uses a
-- pointer that is NULL (or a string that is not ended), or just exits.
pub data Action : Type 0 where
  execute : (path : Text) (args : List Text) → Action
  shell : (command : Text) → Action
  message : Text → Action
  undefined : Action
  nothing : Action

-- The arguments of `execv` end at the first NULL.
abbrev pub until_null : List (Option Text) → List Text
until_null [] = []
until_null (none ∷ args) = []
until_null (some a ∷ args) = a ∷ until_null args

-- The branch for readF.
unfoldable pub read_f : Text → Action
unfolding strtok atoi
read_f second_buffer =
    let filename = next_token b' ' (strtok b' ' second_buffer) in
    let line_number = next_token 10 filename in
    elim (text_of filename) [
      | none ↦ message (codes "Filename is required.\n")
      | some name ↦ elim (text_of line_number) [
        | none ↦ shell (take 255 (codes "cat " ++ name))
        | some number ↦
            if ltb_ℤ (pos 0) (atoi number)
            then shell
                (take 255 (codes "sed -n '" ++ (print_int (atoi number) ++ (codes "p' " ++ name))))
            else message (codes "Invalid line number.\n")
      ]
    ]

-- copy[0] = 'c'; copy[1] = '\\'; a copy of one character is not ended any more.
abbrev pub as_change : Text → Option Text
as_change [] = none
as_change (x ∷ []) = none
as_change (x ∷ y ∷ copy) = some (b'c' ∷ b'\\' ∷ copy)

-- `number_str != "0"` compares two addresses, which differ.
unfoldable pub write_t : Text → Action
unfolding strtok atoi
write_t second_buffer =
    let file = next_token b' ' (strtok b' ' second_buffer) in
    let last_arg = next_token 10 file in
    let sed : Text → Action = λ script.
      execute (codes "/bin/sed")
        (until_null (some (codes "sed") ∷ some (codes "-i") ∷ some script ∷ text_of file ∷ [])) in
    elim (text_of last_arg) [
      | none ↦ undefined
      | some copy ↦ elim (text_of (strtok b' ' copy)) [
        | none ↦ undefined
        | some number_str ↦
            if eq_ℤ (atoi number_str) (pos 0)
            then sed (codes "$ a\\" ++ copy)
            else elim (as_change copy) [
              | none ↦ undefined
              | some change ↦ sed (number_str ++ change)
            ]
      ]
    ]

unfoldable pub download : Text → Action
unfolding strtok
download second_buffer =
    let source = next_token b' ' (strtok b' ' second_buffer) in
    let target = next_token b' ' source in
    execute (codes "/bin/cp")
      (until_null (some (codes "cp") ∷ text_of source ∷ text_of target ∷ []))

abbrev pub rest_of : Option (Text × Text) → Text
rest_of none = []
rest_of (some (token, rest)) = rest

-- Where a token with this rest behind it ends in the buffer: a space behind it belongs to neither.
abbrev pub token_end : (second_buffer rest : Text) → ℕ
token_end second_buffer rest =
    let e = length second_buffer - length rest in
    elim (get_elem? second_buffer (e - 1)) [ none ↦ e | some c ↦ if c == b' ' then e - 1 else e ]

-- So many characters and a byte 0 fit into an array.
abbrev pub fits_array : (size n : ℕ) → Bool
fits_array size n = ltb n size

-- strcat(strtok(NULL, " "), strtok(NULL, " ")): C leaves open which of the two calls comes first.
-- Both results lie in `second_buffer`, of 1024 bytes, and the result is copied into 256 bytes; the
-- copy is taken to go from front to back where they overlap.
unfoldable pub upload : (left_first : Bool) → Text → Action
unfolding strtok
upload left_first second_buffer =
    let first = next_token b' ' (strtok b' ' second_buffer) in
    let second = next_token b' ' first in
    elim (text_of first) [
      | none ↦ undefined
      | some a ↦ elim (text_of second) [
        | none ↦ undefined
        | some b ↦
            let joined = if left_first then a ++ b else b ++ a in
            let target = token_end second_buffer (rest_of (if left_first then first else second)) in
            if fits_array 1024 (target + length (if left_first then b else a))
              && fits_array 256 (length joined)
            then execute (codes "/bin/cp") (codes "cp" ∷ joined ∷ codes "." ∷ [])
            else undefined
      ]
    ]

-- The chain of tests in the child.
unfoldable pub serve : (left_first : Bool) → Text → Action
unfolding starts_with read_f write_t download upload
serve left_first second_buffer =
    if starts_with second_buffer (codes "list")
    then execute (codes "/bin/ls") (codes "ls" ∷ [])
    else if starts_with second_buffer (codes "readF")
    then read_f second_buffer
    else if starts_with second_buffer (codes "writeT")
    then write_t second_buffer
    else if starts_with second_buffer (codes "download")
    then download second_buffer
    else if starts_with second_buffer (codes "upload")
    then upload left_first second_buffer
    else nothing

-- read(client_fd, second_buffer, sizeof(second_buffer)), into a buffer that was cleared.
abbrev pub received : Text → Text
received sent = take 1024 sent
