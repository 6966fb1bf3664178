-- ===== src/Pide/Message.antt =====
-- final/client.c and final/server.c: the message that carries an order.
mod Tests
pub mod RoundTrip
use cse_344_homeworks.Prelude.{
  ℕ, zero, suc, ◌+◌, ◌%◌, Bool, ◌||◌, List, [], ◌∷◌, ◌++◌, Option, none, some, ◌==◌, take,
  if◌then◌else◌,
}
use cse_344_homeworks.Prelude.Text.{Text}
use cse_344_homeworks.Prelude.Decimal.{print_int, digits}
use cse_344_homeworks.Prelude.Int.{ℤ, pos}
use cse_344_homeworks.Students.Scan.{scan_int}
use cse_344_homeworks.Pide.Queue.{Order}

-- snprintf(buffer, sizeof(buffer), "%d %d %d %d", …)
unfoldable pub order_message : (order_id customer_x customer_y client_pid : ℤ) → Text
unfolding digits
order_message order_id customer_x customer_y client_pid = take 2047 (
    print_int order_id
    ++ (b' ' ∷ print_int customer_x
        ++ (b' ' ∷ print_int customer_y ++ (b' ' ∷ print_int client_pid))))

-- The loop of the client: for each pair of values of `rand` a message, from number `i` on. `p` and `q`
-- are not negative; `none` is the division by zero.
unfoldable pub place_orders : (p q : ℕ) (client_pid : ℤ) (i : ℕ) → List (ℕ × ℕ) → Option (List Text)
unfolding order_message
place_orders p q client_pid i [] = some []
place_orders p q client_pid i ((r, s) ∷ more) =
    let later = place_orders p q client_pid (suc i) more in
    if (p == 0) || (q == 0) then none else elim later [
      | none ↦ none
      | some messages ↦
          some (order_message (pos (i + 1)) (pos (r % p)) (pos (s % q)) client_pid ∷ messages)
    ]

-- `sscanf` stops at the first "%d" that fails; white space in the format is passed over by the next
-- "%d" all the same.
unfoldable pub scan_ints : ℕ → Text → List ℤ
unfolding scan_int
scan_ints zero input = []
scan_ints (suc n) input =
    let (converted, rest) = scan_int input in
    elim converted [ none ↦ [] | some z ↦ z ∷ scan_ints n rest ]

-- The local variables of `handle_client` that no conversion has assigned stay as they are.
abbrev pub assign : List ℤ → Order → Order
assign [] o = o
assign (a ∷ []) o = record o { order_id = a }
assign (a ∷ b ∷ []) o = record o { order_id = a; customer_x = b }
assign (a ∷ b ∷ c ∷ []) o = record o { order_id = a; customer_x = b; customer_y = c }
assign (a ∷ b ∷ c ∷ d ∷ _) o = record o { order_id = a; customer_x = b; customer_y = c; pid = d }

-- What `handle_client` reads from the socket, as the order that it places.
unfoldable pub read_order : (buffer : Text) (uninitialised : Order) → Order
unfolding scan_ints
read_order buffer uninitialised = assign (scan_ints 4 buffer) uninitialised
