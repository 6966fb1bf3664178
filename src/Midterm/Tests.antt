-- ===== src/Midterm/Tests.antt =====
-- midterm: clients at a server with two slots, commands, and the witnesses.
use cse_344_homeworks.Prelude.{
  ℕ, ◌≡◌, refl, inr, Bool, true, false, [], ◌∷◌, ◌++◌, set, arith, ◌==◌, if◌then◌else◌,
}
use cse_344_homeworks.Prelude.{some, none}
use cse_344_homeworks.Prelude.Text.{codes, starts_with, str_eq}
use cse_344_homeworks.Prelude.Decimal.{digits}
use cse_344_homeworks.Students.Scan.{split_while, scan_int, skip_space, scan_digits, atoi}
use cse_344_homeworks.Midterm.Commands.{
  serve, execute, shell, message, undefined, received, read_f, write_t, strtok, skip_delimiter,
}
use cse_344_homeworks.Midterm.Answers.{respond, help, arch_server, trim}
use cse_344_homeworks.Midterm.Client.{
  client_round, is_valid_among, sent, sent_last, invalid_command,
}
use cse_344_homeworks.Midterm.Requests.{transfers}
use cse_344_homeworks.Midterm.Slots.{
  connect_client, Connection, connect_client-assigned, connect_client-queue_full,
}

-- All processes are there; later the one with PID 20 is gone.
abbrev everybody : ℕ → Bool
everybody pid = true

abbrev one_gone : ℕ → Bool
one_gone pid = if pid == 20 then false else true

connect_client-assigned_example :
    connect_client ((everybody ∷ []) ++ (one_gone ∷ [])) (codes "connect") 30 (10 ∷ 20 ∷ [])
    ≡ Connection.assigned 1 (set (10 ∷ 20 ∷ []) 1 30)
unfolding starts_with
connect_client-assigned_example =
    connect_client-assigned (everybody ∷ []) one_gone [] (codes "connect") 30 1 (10 ∷ 20 ∷ []) refl
      (ground arith) ((ground arith, 20, refl, inr refl))

hello_refused :
    connect_client (everybody ∷ []) (codes "hello") 30 (10 ∷ 20 ∷ [])
    ≡ Connection.queue_full (10 ∷ 20 ∷ [])
unfolding starts_with
hello_refused =
    connect_client-queue_full everybody [] (codes "hello") 30 (10 ∷ 20 ∷ []) refl (ground arith)

-- The server reads and writes files through the shell and sed.
read_whole : serve true (codes "readF a.txt") ≡ shell (codes "cat a.txt")
unfolding serve starts_with read_f strtok skip_delimiter split_while
read_whole = refl

read_line : serve true (codes "readF a.txt 12") ≡ shell (codes "sed -n '12p' a.txt")
unfolding serve starts_with read_f strtok skip_delimiter split_while atoi scan_int skip_space
    scan_digits digits
read_line = refl

read_line_zero : serve true (codes "readF a.txt x") ≡ message (codes "Invalid line number.\n")
unfolding serve starts_with read_f strtok skip_delimiter split_while atoi scan_int skip_space
    scan_digits
read_line_zero = refl

read_nothing : serve true (codes "readF") ≡ message (codes "Filename is required.\n")
unfolding serve starts_with read_f strtok skip_delimiter split_while
read_nothing = refl

write_line :
    serve true (codes "writeT a.txt 3 hello")
    ≡ execute (codes "/bin/sed") (codes "sed" ∷ codes "-i" ∷ codes "3c\\hello" ∷ codes "a.txt" ∷ [])
unfolding serve starts_with write_t strtok skip_delimiter split_while atoi scan_int skip_space
    scan_digits
write_line = refl

-- A line number of two digits leaves its second digit's place to a space.
write_line_twelve :
    serve true (codes "writeT a.txt 123 hello")
    ≡ execute
        (codes "/bin/sed")
        (codes "sed" ∷ codes "-i" ∷ codes "123c\\3 hello" ∷ codes "a.txt" ∷ [])
unfolding serve starts_with write_t strtok skip_delimiter split_while atoi scan_int skip_space
    scan_digits
write_line_twelve = refl

append_line :
    serve true (codes "writeT a.txt hello")
    ≡ execute
        (codes "/bin/sed")
        (codes "sed" ∷ codes "-i" ∷ codes "$ a\\hello" ∷ codes "a.txt" ∷ [])
unfolding serve starts_with write_t strtok skip_delimiter split_while atoi scan_int skip_space
    scan_digits
append_line = refl

write_nothing : serve true (codes "writeT a.txt") ≡ undefined
unfolding serve starts_with write_t strtok skip_delimiter split_while
write_nothing = refl

help_for_quit :
    respond true [] (codes "help quit")
    ≡ some (codes "\nquit\nSend write request to Server side log file and quits.\n")
unfolding respond starts_with help strtok skip_delimiter split_while
help_for_quit = refl

archive_without_name : respond true [] (codes "archServer") ≡ none
unfolding respond starts_with arch_server strtok skip_delimiter split_while
archive_without_name = refl

archive :
    respond true [] (codes "archServer all  ")
    ≡ some (codes "SUCCESS: Server side files are archived in \"all.tar\"\n ")
unfolding respond starts_with arch_server trim strtok skip_delimiter split_while
archive = refl

client_quits : client_round (some (codes "quit\n")) none ≡ sent_last (codes "quit")
unfolding client_round str_eq
client_quits = refl

client_refuses : client_round (some (codes "remove a\n")) none ≡ invalid_command
unfolding client_round str_eq is_valid_among starts_with
client_refuses = refl

transfers_example :
    (client_round (some (codes "upload a.txt\n")) (some (codes "/home"))
      ≡ sent (codes "upload a.txt /home/"))
    × (serve false (received (codes "upload a.txt /home/"))
        ≡ execute (codes "/bin/cp") (codes "cp" ∷ codes "/home/a.txt" ∷ codes "." ∷ []))
    × (respond true [] (received (codes "upload a.txt /home/"))
        ≡ some (codes "Task completed successfully.\n"))
    × (client_round (some (codes "download a.txt\n")) (some (codes "/home"))
        ≡ sent (codes "download a.txt /home/"))
    × (serve false (received (codes "download a.txt /home/"))
        ≡ execute (codes "/bin/cp") (codes "cp" ∷ codes "a.txt" ∷ codes "/home/" ∷ []))
    × (respond true [] (received (codes "download a.txt /home/"))
        ≡ some (codes "Task completed successfully.\n"))
transfers_example =
    transfers (codes "a.txt") (codes "/home")
      (λ e. absurd (cc), (refl, (refl, (refl, (refl, (refl, tt))))))
      (λ e. absurd (cc), (refl, (refl, (refl, (refl, (refl, tt)))))) (omega arith) (omega arith)
      false true []
