-- ===== src/Students/World.antt =====
-- hw1/gtuStudentManagemetSystem.c: what its operations read and change. The file names that users
-- give are taken to be other than that of the log file. A file that exists can be
-- opened and read, and writing succeeds; `fork` succeeds, and the parent waits for its child.
use cse_344_homeworks.Prelude.{◌≡◌, refl, false, [], ◌∷◌, ◌++◌, Option, some, if◌then◌else◌, arith}
use cse_344_homeworks.Prelude.Text.{Text, codes, str_eq, str_eq_refl}
use cse_344_homeworks.Students.Lines.{newline}

-- `file` is all files but the log file, whose contents are `log`, and `out` what the processes have
-- written to the terminal.
pub record World : Type 0 where
  pub file : Text → Option Text
  pub out : Text
  pub log : Text

-- LOG_FILE_PATH
abbrev pub log_file_path : Text
log_file_path = codes "gtuStudentManagemetSystem.log"

-- Any file of the directory; a log file that is not there yet counts as empty.
unfoldable pub contents : Text → World → Option Text
contents name w = if str_eq name log_file_path then some w.log else w.file name

pub contents-file :
    (name : Text) (w : World) → str_eq name log_file_path ≡ false → contents name w ≡ w.file name
unfolding contents
contents-file name w h = rw h refl

unfoldable pub say : Text → World → World
say message w = record w { out = w.out ++ message }

-- printf("…\n")
unfoldable pub say_line : Text → World → World
unfolding say
say_line message w = say (message ++ (newline ∷ [])) w

unfoldable pub log_message : Text → World → World
log_message message w = record w { log = w.log ++ (message ++ (newline ∷ [])) }

-- The file now has these contents.
unfoldable pub write_file : Text → Text → World → World
write_file filename content w = record w {
  file = λ other. if str_eq filename other then some content else w.file other;
}

pub file-write_file :
    (filename content : Text) (w : World)
    → (write_file filename content w).file filename ≡ some content
unfolding write_file
file-write_file filename content w = ground (arith, str_eq_refl filename)

pub file-write_file_ne :
    (filename other content : Text) (w : World)
    → str_eq filename other ≡ false
    → (write_file filename content w).file other ≡ w.file other
unfolding write_file
file-write_file_ne filename other content w h = ground arith
