-- ===== src/Pide/Session/Tests.antt =====
-- final: batches over connections, and the end of the client.
use cse_344_homeworks.Prelude.{
  ℕ, ◌≡◌, refl, arith, true, false, List, [], ◌∷◌, ◌++◌, some, replicate,
}
use cse_344_homeworks.Prelude.Text.{codes, str_eq}
use cse_344_homeworks.Prelude.Int.{pos, negsuc}
use cse_344_homeworks.Students.Lines.{c_string}
use cse_344_homeworks.Students.Scan.{scan_int, scan_digits, skip_space, split_while}
use cse_344_homeworks.Fifos.{Bytes, bytes_of, read_int}
use cse_344_homeworks.Pide.Queue.{Order}
use cse_344_homeworks.Pide.Message.{scan_ints, read_order}
use cse_344_homeworks.Pide.Message.RoundTrip.{meant}
use cse_344_homeworks.Pide.Session.{
  client_connections, take_int, read_header, accept_clients, serve_batch, receive_completion_status,
}
use cse_344_homeworks.Pide.Session.Arrives.{batch_arrives}

abbrev blank : Order
blank = record {
  order_id = pos 0;
  customer_x = pos 0;
  customer_y = pos 0;
  state = 0;
  cook_id = negsuc 0;
  pid = pos 0;
}

abbrev rands : List (ℕ × ℕ)
rands = (17, 25) ∷ (30, 4) ∷ []

batch_arrives_example :
    (connections : List Bytes) × (client_connections 10 20 4711 rands ≡ some connections)
    × (serve_batch 0 0 0 0 blank (connections ++ ((7 ∷ []) ∷ []))
        ≡ some (
          record {
            p = 10;
            q = 20;
            client_pids = replicate 2 4711;
            orders = meant 10 20 (pos 4711) 0 blank rands;
          },
          (7 ∷ []) ∷ [],
        ))
batch_arrives_example =
    batch_arrives 10 20 4711 rands 0 0 0 0 blank ((7 ∷ []) ∷ []) (omega arith) (omega arith)
      (omega arith) (omega arith) (omega arith) (omega arith)

-- Two clients with one order each, whose connections alternate: the server takes the header of the
-- second for the order of the first, and nothing of it is a number in digits.
abbrev header : ℕ → Bytes
header number = bytes_of number ++ bytes_of 10 ++ bytes_of 20

clients_mixed :
    serve_batch 0 0 0 0 blank (header 1 ∷ header 1 ∷ (bytes_of 7 ++ codes "1 2 3 7") ∷ [])
    ≡ some (
      record { p = 10; q = 20; client_pids = 1 ∷ []; orders = blank ∷ [] },
      (bytes_of 7 ++ codes "1 2 3 7") ∷ [],
    )
unfolding serve_batch read_header take_int read_int accept_clients read_order scan_ints scan_int
    scan_digits skip_space split_while
clients_mixed = refl

told_at_once : receive_completion_status ([] ∷ codes "All orders completed" ∷ []) ≡ true
unfolding receive_completion_status c_string str_eq
told_at_once = refl

-- The same message in two pieces is not seen.
told_in_pieces :
    receive_completion_status (codes "All orders " ∷ codes "completed" ∷ [] ∷ []) ≡ false
unfolding receive_completion_status c_string str_eq
told_in_pieces = refl
