-- ===== src/Pide/Session/Arrives.antt =====
-- final: the orders of a client reach the server.
use cse_344_homeworks.Prelude.{
  ℕ, suc, ◌^◌, ◌<◌, ◌≡◌, ◌∙◌, refl, sym, ap, arith, List, [], ◌∷◌, ◌++◌, map, none, some, take,
  length, length-map, replicate,
}
use cse_344_homeworks.Prelude.Int.{ℤ, pos}
use cse_344_homeworks.Fifos.{Bytes, bytes_of, read_int}
use cse_344_homeworks.Fifos.Ints.{read_int-bytes_of, word_bytes}
use cse_344_homeworks.Pide.Queue.{Order}
use cse_344_homeworks.Pide.Message.{read_order}
use cse_344_homeworks.Pide.Message.RoundTrip.{meant, orders_arrive}
use cse_344_homeworks.Pide.Session.{
  client_connections, take_int, client_rounds, accept_clients, read_header, read_batch, serve_batch,
}

take_int-bytes_of :
    (n w : ℕ) (rest : Bytes) → w < 2 ^ 32 → take_int n (bytes_of w ++ rest) ≡ (w, rest)
unfolding take_int
take_int-bytes_of n w rest h =
    ap (λ r. elim r [ none ↦ (n, bytes_of w ++ rest) | some r ↦ r ]) (read_int-bytes_of n w rest h)

accept_clients-messages :
    (junk client_pid : ℕ) (messages later : List Bytes)
    → client_pid < 2 ^ 32
    → accept_clients (length messages) junk (map (λ m. bytes_of client_pid ++ m) messages ++ later)
      ≡ some (map (λ m. (client_pid, m)) messages, later)
unfolding accept_clients
accept_clients-messages junk client_pid [] later h = refl
accept_clients-messages junk client_pid (m ∷ messages) later h =
    rw
      (
        accept_clients-messages junk client_pid messages later h,
        take_int-bytes_of junk client_pid m h,
      )
      refl

map-pid :
    (client_pid : ℕ) (messages : List Bytes)
    → map {A = ℕ × Bytes} (λ c. c.0) (map (λ m. (client_pid, m)) messages)
      ≡ replicate (length messages) client_pid
map-pid client_pid [] = refl
map-pid client_pid (m ∷ messages) = ap (λ l. client_pid ∷ l) (map-pid client_pid messages)

map-messages :
    (client_pid : ℕ) (o : Order) (messages : List Bytes)
    → map {A = ℕ × Bytes} (λ c. read_order (take 1024 c.1) o) (map (λ m. (client_pid, m)) messages)
      ≡ map (λ m. read_order (take 1024 m) o) messages
map-messages client_pid o [] = refl
map-messages client_pid o (m ∷ messages) =
    ap (λ l. read_order (take 1024 m) o ∷ l) (map-messages client_pid o messages)

length-meant :
    (p q : ℕ) (client_pid : ℤ) (i : ℕ) (o : Order) (rands : List (ℕ × ℕ))
    → length (meant p q client_pid i o rands) ≡ length rands
length-meant p q client_pid i o [] = refl
length-meant p q client_pid i o (r ∷ more) = ap suc (length-meant p q client_pid (suc i) o more)

header_read :
    (n p' q' number p q : ℕ)
    → number < 2 ^ 32
    → p < 2 ^ 32
    → q < 2 ^ 32
    → read_header n p' q' (bytes_of number ++ bytes_of p ++ bytes_of q) ≡ (number, p, q)
unfolding read_header take_int read_int
header_read n p' q' number p q hn hp hq =
    rw (word_bytes number hn, word_bytes p hp, word_bytes q hq) refl

client_rounds_of : (n : ℕ) → n < 2 ^ 31 → client_rounds n ≡ n
client_rounds_of n h = ground arith

batch_read :
    (p q client_pid number : ℕ) (o : Order) (orders : List Order) (messages later : List Bytes)
    → length messages ≡ number
    → map (λ m. read_order (take 1024 m) o) messages ≡ orders
    → read_batch (number, p, q) o (some (map (λ m. (client_pid, m)) messages, later))
      ≡ some (
        record { p = p; q = q; client_pids = replicate number client_pid; orders = orders },
        later,
      )
batch_read p q client_pid number o orders messages later count same =
    ap
      (λ (l : List ℕ). some (
        record {
          p = p;
          q = q;
          client_pids = l;
          orders =
              map {A = ℕ × Bytes} (λ c. read_order (take 1024 c.1) o)
                (map (λ m. (client_pid, m)) messages);
        },
        later,
      ))
      (map-pid client_pid messages ∙ ap (λ n. replicate n client_pid) count)
    ∙ ap
        (λ (l : List Order).
          some
            (record { p = p; q = q; client_pids = replicate number client_pid; orders = l }, later))
        (map-messages client_pid o messages ∙ same)

-- For any values of `rand`, positive p and q, and a pid, all of which fit into an int: the client makes
-- its connections, and the server, if it accepts them in this order, takes from them exactly what the
-- client means, whatever its variables held before: p, q, the pid once for each order, and the orders,
-- whose numbers count up and whose places lie within p and q. It reads no connection that comes
-- behind them.
pub batch_arrives :
    (p q client_pid : ℕ) (rands : List (ℕ × ℕ))
    → (number p' q' junk : ℕ) (o : Order) (later : List Bytes) → 0 < p
    → p < 2 ^ 31
    → 0 < q
    → q < 2 ^ 31
    → client_pid < 2 ^ 31
    → length rands < 2 ^ 31
    → (connections : List Bytes) × (client_connections p q client_pid rands ≡ some connections)
      × (serve_batch number p' q' junk o (connections ++ later)
          ≡ some (
            record {
              p = p;
              q = q;
              client_pids = replicate (length rands) client_pid;
              orders = meant p q (pos client_pid) 0 o rands;
            },
            later,
          ))
unfolding client_connections serve_batch
batch_arrives p q client_pid rands number p' q' junk o later hp hp' hq hq' hc hr =
    let (messages, sent, same) =
      orders_arrive p q (pos client_pid) 0 rands o hp hp' hq hq' hc (omega (arith, hr)) in
    let count : length messages ≡ length rands =
      sym (length-map messages (λ m. read_order (take 1024 m) o))
      ∙ ap length same
      ∙ length-meant p q (pos client_pid) 0 o rands in
    (
      (bytes_of (length rands) ++ bytes_of p ++ bytes_of q)
          ∷ map (λ m. bytes_of client_pid ++ m) messages,
      rw (client_connections, sent) refl,
      ap (λ h. read_batch h o (accept_clients (client_rounds h.0) junk (sent_by messages ++ later)))
            (header_read number p' q' (length rands) p q (omega (arith, hr)) (omega (arith, hp'))
              (omega (arith, hq')))
          ∙ ap
              (λ n.
                read_batch (length rands, p, q) o
                  (accept_clients n junk (sent_by messages ++ later)))
              (client_rounds_of (length rands) hr ∙ sym count)
          ∙ ap (read_batch (length rands, p, q) o)
              (accept_clients-messages junk client_pid messages later (omega (arith, hc)))
          ∙ batch_read p q client_pid (length rands) o _ messages later count same,
    )
  where
    sent_by : List Bytes → List Bytes
    sent_by messages = map (λ m. bytes_of client_pid ++ m) messages
