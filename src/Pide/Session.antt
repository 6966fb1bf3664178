-- ===== src/Pide/Session.antt =====
-- final/client.c and final/server.c: a batch, from `main` of the client to the orders of the server. A
-- connection is the sequence of the bytes that the client sends over it, and the server accepts
-- connections in the order in which they were made. A read hands over as many bytes as it asks for, or
-- what is left. An `int` is its bit pattern, below 2 ^ 32.
pub mod Arrives
mod Tests
use cse_344_homeworks.Prelude.{
  ℕ, zero, suc, ◌^◌, Bool, true, false, List, [], ◌∷◌, ◌++◌, map, Option, none, some, take, length,
  ltb, if◌then◌else◌,
}
use cse_344_homeworks.Prelude.Text.{Text, codes, str_eq}
use cse_344_homeworks.Prelude.Int.{pos}
use cse_344_homeworks.Fifos.{Bytes, bytes_of, read_int}
use cse_344_homeworks.Students.Lines.{c_string}
use cse_344_homeworks.Pide.Queue.{Order}
use cse_344_homeworks.Pide.Message.{place_orders, read_order}

-- The connections that `main` of the client makes for these values of `rand`.
unfoldable pub client_connections : (p q client_pid : ℕ) → List (ℕ × ℕ) → Option (List Bytes)
unfolding place_orders
client_connections p q client_pid rands = elim (place_orders p q (pos client_pid) 0 rands) [
  | none ↦ none
  | some messages ↦ some (
      (bytes_of (length rands) ++ bytes_of p ++ bytes_of q)
      ∷ map (λ m. bytes_of client_pid ++ m) messages)
]

-- read(new_socket, &n, sizeof(int)), whose result is not looked at.
unfoldable pub take_int : (n : ℕ) → Bytes → ℕ × Bytes
unfolding read_int
take_int n connection = elim (read_int n connection) [ none ↦ (n, connection) | some r ↦ r ]

-- A negative number of clients ends the loop at once.
abbrev pub client_rounds : ℕ → ℕ
client_rounds number_of_clients = if ltb number_of_clients (2 ^ 31) then number_of_clients else 0

-- The loop over the clients: each pid with the connection, and the connections that are left. `none`
-- is a wait in `accept`, and `junk` what stands in the memory of `malloc`.
unfoldable pub accept_clients :
    (left junk : ℕ) → List Bytes → Option (List (ℕ × Bytes) × List Bytes)
unfolding take_int
accept_clients zero junk waiting = some ([], waiting)
accept_clients (suc left) junk [] = none
accept_clients (suc left) junk (c ∷ waiting) = elim (accept_clients left junk waiting) [
  | none ↦ none
  | some (others, later) ↦ some (take_int junk c ∷ others, later)
]

-- What the server knows of a batch. The threads of `handle_client` place the orders in any order.
pub record Batch : Type 0 where
  pub p : ℕ
  pub q : ℕ
  pub client_pids : List ℕ
  pub orders : List Order

-- The number of clients, p and q, from the first connection.
unfoldable pub read_header : (number_of_clients p q : ℕ) → Bytes → ℕ × ℕ × ℕ
unfolding take_int
read_header number_of_clients p q first =
    let (number_of_clients', rest) = take_int number_of_clients first in
    let (p', rest') = take_int p rest in (number_of_clients', p', (take_int q rest').0)

-- The threads of `handle_client` read from the connections that `main` has accepted.
abbrev pub read_batch :
    ℕ × ℕ × ℕ → Order → Option (List (ℕ × Bytes) × List Bytes) → Option (Batch × List Bytes)
read_batch header uninitialised none = none
read_batch header uninitialised (some (clients, later)) = some (
  record {
    p = header.1;
    q = header.2;
    client_pids = map (λ c. c.0) clients;
    orders = map (λ c. read_order (take 1024 c.1) uninitialised) clients;
  },
  later,
)

-- One round of `main` of the server up to its waits. `p` and `q` are globals.
unfoldable pub serve_batch :
    (number_of_clients p q junk : ℕ) → Order → List Bytes → Option (Batch × List Bytes)
unfolding read_header accept_clients
serve_batch number_of_clients p q junk uninitialised [] = none
serve_batch number_of_clients p q junk uninitialised (first ∷ waiting) =
    let header = read_header number_of_clients p q first in
    read_batch header uninitialised (accept_clients (client_rounds header.0) junk waiting)

-- What `handle_completion_updates` sends.
abbrev pub completion_message : Text
completion_message = codes "All orders completed"

-- The loop of `receive_completion_status`, for what its reads give, nothing at the end of the
-- connection; whether it ends within these reads.
unfoldable pub receive_completion_status : List Text → Bool
unfolding c_string
receive_completion_status [] = false
receive_completion_status (buffer ∷ reads) =
    let later = receive_completion_status reads in
    if ltb 0 (length buffer)
    then if str_eq (c_string buffer) completion_message then true else later
    else later
