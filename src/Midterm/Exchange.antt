-- ===== src/Midterm/Exchange.antt =====
-- midterm/client/client.c and midterm/server/server.c: how a client and the process of the server that
-- serves it take turns. Both read from and write to one FIFO, which each has opened for both, and one
-- semaphore, `semid2`, carries the signals of both directions. A thread whose next call has to wait
-- cannot move; a schedule tells whose turn it is.
pub mod Outcomes
pub mod Phases
pub mod Runs
mod Tests
use cse_344_homeworks.Prelude.{
  ℕ, ◌+◌, ◌-◌, Bool, true, false, List, [], ◌∷◌, ◌++◌, Option, none, some, ◌==◌, take, drop,
  replicate, ltb, length, if◌then◌else◌,
}
use cse_344_homeworks.Prelude.Text.{Text}

-- The next call of `handle_client` of the client: the prompt with the write of the command,
-- `semaphore_signal`, `semaphore_wait`, `read`.
pub data ClientAt : Type 0 where
  at_prompt to_signal to_wait to_read : ClientAt

-- The next call of the server: the wait, the read of a command, the write of the response, the
-- signal; `blocked` is a wait that never ends: in `waitpid` for a child that has more to print than the
-- pipe holds, since the server reads from the pipe behind it, or in the read from the pipe of a child
-- that has printed nothing, of which the server itself holds the end for writing.
pub data ServerAt : Type 0 where
  awaiting reading : ServerAt
  responding : Text → ServerAt
  signalling blocked : ServerAt

-- `typed` is what the client has yet to write for the commands of the user: valid ones, neither "quit"
-- nor "killServer". `executed` is what the server has read as commands, `shown` what the client has
-- read as responses.
pub record Link : Type 0 where
  pub semid2 : ℕ
  pub fifo : Text
  pub client : ClientAt
  pub server : ServerAt
  pub typed : List Text
  pub executed : List Text
  pub shown : List Text

abbrev pub connected : List Text → Link
connected commands = record {
  semid2 = 0;
  fifo = [];
  client = at_prompt;
  server = awaiting;
  typed = commands;
  executed = [];
  shown = [];
}

abbrev pub write_next : List Text → Link → Option Link
write_next [] s = none
write_next (command ∷ more) s =
    some (record s { fifo = s.fifo ++ command; client = to_signal; typed = more })

-- `read` waits while the FIFO is empty. The client reads again only if its buffer has been filled.
abbrev pub show : Text → Link → Option Link
show [] s = none
show (c ∷ cs) s = some (record s {
  fifo = drop 65535 (c ∷ cs);
  client = at_prompt;
  shown = s.shown ++ (take 65535 (c ∷ cs) ∷ []);
})

-- `handle_client`.
abbrev pub client_at : ClientAt → Link → Option Link
client_at at_prompt s = write_next s.typed s
client_at to_signal s = some (record s { semid2 = s.semid2 + 1; client = to_wait })
client_at to_wait s =
    if s.semid2 == 0 then none else some (record s { semid2 = s.semid2 - 1; client = to_read })
client_at to_read s = show s.fifo s

unfoldable pub client_move : Link → Option Link
client_move s = client_at s.client s

abbrev pub response_of : Option Text → ServerAt
response_of none = blocked
response_of (some response) = responding response

abbrev pub or_stay : Link → Option Link → Link
or_stay s none = s
or_stay s (some t) = t

-- What a command comes to: a text of the server itself, whose child prints nothing, or what the child
-- prints.
pub data Answer : Type 0 where
  responds prints : Text → Answer

-- The array `response`, which is cleared first and written as a whole.
abbrev pub filled : Text → Text
filled text = take 10240 (text ++ replicate 10240 0)

-- The response to a command, or none for a wait that never ends; `pipe_size` is what a pipe holds.
unfoldable pub reply_of : (pipe_size : ℕ) → Answer → Option Text
reply_of pipe_size (responds response) = some (filled response)
reply_of pipe_size (prints []) = none
reply_of pipe_size (prints (c ∷ output)) =
    if ltb pipe_size (length (c ∷ output)) then none else some (filled (c ∷ output))

module _ (reply : Text → Option Text) where
  -- `reply` is the response to a command, as `reply_of` gives it. The handling of the command has no part
  -- in the exchange otherwise.
  abbrev pub obey : Text → Link → Option Link
  obey [] s = none
  obey (c ∷ cs) s = some (record s {
    fifo = drop 1024 (c ∷ cs);
    server = response_of (reply (take 1024 (c ∷ cs)));
    executed = s.executed ++ (take 1024 (c ∷ cs) ∷ []);
  })

  -- The loop of the server over the commands of one client.
  abbrev pub server_at : ServerAt → Link → Option Link
  server_at awaiting s =
      if s.semid2 == 0 then none else some (record s { semid2 = s.semid2 - 1; server = reading })
  server_at reading s = obey s.fifo s
  server_at (responding response) s =
      some (record s { fifo = s.fifo ++ response; server = signalling })
  server_at signalling s = some (record s { semid2 = s.semid2 + 1; server = awaiting })
  server_at blocked s = none

  unfoldable pub server_move : Link → Option Link
  server_move s = server_at s.server s

  -- The turns of a schedule: the client's where it is true.
  unfoldable pub run : List Bool → Link → Link
  unfolding client_move server_move
  run [] s = s
  run (true ∷ turns) s = run turns (or_stay s (client_move s))
  run (false ∷ turns) s = run turns (or_stay s (server_move s))
