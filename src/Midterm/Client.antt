-- ===== src/Midterm/Client.antt =====
-- midterm/client/client.c: the loop over the lines of the user.
use cse_344_homeworks.Prelude.{
  ℕ, ltb, length, Bool, false, ◌||◌, List, [], ◌∷◌, ◌++◌, Option, none, some, take, if◌then◌else◌,
}
use cse_344_homeworks.Prelude.Text.{Text, codes, str_eq, starts_with}

abbrev pub valid_commands : List Text
valid_commands =
    codes "upload"
    ∷ codes "download"
    ∷ codes "quit"
    ∷ codes "list"
    ∷ codes "readF"
    ∷ codes "writeT"
    ∷ codes "help"
    ∷ codes "killServer"
    ∷ codes "archServer"
    ∷ []

unfoldable pub is_valid_among : List Text → Text → Bool
unfolding starts_with
is_valid_among [] command = false
is_valid_among (valid ∷ others) command = starts_with command valid || is_valid_among others command

abbrev pub is_valid_command : Text → Bool
is_valid_command command = is_valid_among valid_commands command

-- line[strlen(line) - 1] = '\0'. A line that `fgets` gives is not empty.
abbrev pub cut_last : Text → Text
cut_last [] = []
cut_last (c ∷ []) = []
cut_last (c ∷ d ∷ s) = c ∷ cut_last (d ∷ s)

-- One round of the loop: a line that cannot be read, or is no command, or needs a working directory
-- that cannot be had, is left with a message; "quit" is sent and ends the loop; anything else is sent,
-- and the answer awaited.
pub data Round : Type 0 where
  unread invalid_command no_directory : Round
  sent_last : Text → Round
  sent : Text → Round

-- `getcwd`, which fails if the path with its byte 0 does not fit into the array.
abbrev pub getcwd : (size : ℕ) → Option Text → Option Text
getcwd size none = none
getcwd size (some dir) = if ltb (length dir) size then some dir else none

-- `line` is what `fgets` gives, and `cwd` the working directory, if there is one.
unfoldable pub client_round : (line cwd : Option Text) → Round
unfolding str_eq starts_with is_valid_among
client_round none cwd = unread
client_round (some input) cwd =
    let line = cut_last input in
    if str_eq line (codes "quit")
    then sent_last line
    else if is_valid_command line
    then (if starts_with line (codes "upload") || starts_with line (codes "download")
        then elim (getcwd 100 cwd) [
          | none ↦ no_directory
          | some dir ↦ sent (take 65535 (line ++ (b' ' ∷ dir ++ (b'/' ∷ []))))
        ]
        else sent (take 65535 line))
    else invalid_command
