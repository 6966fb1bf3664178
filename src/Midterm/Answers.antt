-- ===== src/Midterm/Answers.antt =====
-- midterm/server/server.c: what the server answers to a command.
use Prim.Native.String.{String}
use cse_344_homeworks.Prelude.{Bool, ◌||◌, [], ◌∷◌, ◌++◌, Option, none, some, take, if◌then◌else◌}
use cse_344_homeworks.Prelude.Text.{Text, codes, starts_with}
use cse_344_homeworks.Students.Scan.{is_space}
use cse_344_homeworks.Midterm.Commands.{strtok, next_token, text_of}

-- The marks around "string" in the answer on writeT are three bytes each in UTF-8.
abbrev open_mark : Text
open_mark = 226 ∷ 128 ∷ 156 ∷ []

abbrev close_mark : Text
close_mark = 226 ∷ 128 ∷ 157 ∷ []

unfoldable pub help : Option Text → Text
unfolding starts_with
help none =
    codes
      "\nAvailable commands are:\nhelp, list, readF, writeT, upload, download, archServer, killServer, quit\n"
help (some second_help) =
    if starts_with second_help (codes "list")
    then codes "\nlist\nDisplay the list of files in servers directory.\n"
    else if starts_with second_help (codes "readF")
    then codes
        "\nreadF <file> <line #>\n\tRequests to display the # line of the <file>, if no line number is given the whole contents of the file is requested. (and displayed on the client side)\n"
    else if starts_with second_help (codes "writeT")
    then codes "\nwriteT <file> <line #> <string>\nRequest to write the content of "
      ++ (open_mark
          ++ (codes "string"
              ++ (close_mark
                  ++ codes
                      " to the #th line the <file>, if the line # is not given writes to the end of file. If the file does not exists in Servers directory creates and edits the file at the same time\n")))
    else if starts_with second_help (codes "upload")
    then codes
        "\nupload <file>\nUploads the file from the current working directory of client to the servers directory.\n"
    else if starts_with second_help (codes "download")
    then codes
        "\ndownload <file>\nRequest to receive <file> from servers directory to client side\n"
    else if starts_with second_help (codes "archServer")
    then codes
        "\narchServer <fileName>.tar\nUsing fork, exec and tar utilities create a child process that will collect all the files currently available on the the Server side and store them in the <filename>.tar archive\n"
    else if starts_with second_help (codes "killServer")
    then codes "\nkillServer\nSends a kill request to the Server.\n"
    else if starts_with second_help (codes "quit")
    then codes "\nquit\nSend write request to Server side log file and quits.\n"
    else codes "\nInvalid command. Please use 'help' to see the list of available commands.\n"

-- The loop that cuts white space off the end.
unfoldable pub trim : Text → Text
trim [] = []
trim (c ∷ s) =
    let rest = trim s in elim rest [ [] ↦ if is_space c then [] else c ∷ [] | d ∷ t ↦ c ∷ d ∷ t ]

-- `none` is strlen(NULL), which comes before the test of `file_name`. `archived` tells whether tar
-- succeeds.
unfoldable pub arch_server : (archived : Bool) → Option Text → Option Text
unfolding trim
arch_server archived none = none
arch_server archived (some file_name) = some (
    if archived
    then codes "SUCCESS: Server side files are archived in \""
      ++ (trim file_name ++ codes ".tar\"\n ")
    else codes "ERROR in archiving process.\n")

-- The response that is written to the client, up to its first byte 0: `piped` is what the child has
-- printed, and `none` a crash.
unfoldable pub respond : (archived : Bool) (piped second_buffer : Text) → Option Text
unfolding starts_with strtok help arch_server
respond archived piped second_buffer =
    let is : String → Bool = λ command. starts_with second_buffer (codes command) in
    let argument = text_of (next_token 10 (strtok b' ' second_buffer)) in
    if is "writeT" || is "download" || is "upload"
    then some (codes "Task completed successfully.\n")
    else if is "killServer"
    then some []
    else if is "quit"
    then some (codes "Sending write request to server log file\nwaiting for log file...\n")
    else if is "help"
    then some (help argument)
    else if is "archServer"
    then arch_server archived argument
    else some (take 10240 piped)
