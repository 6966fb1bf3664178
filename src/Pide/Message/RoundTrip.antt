-- ===== src/Pide/Message/RoundTrip.antt =====
-- final: what the client has printed is what the server reads.
use native.Mathlib.Nat.{mod-lt}
use cse_344_homeworks.Prelude.{
  take, take_all, ℕ, suc, ◌+◌, ◌%◌, ◌^◌, ◌<◌, ◌≤◌, ◌≡◌, ◌∙◌, refl, sym, ap, arith, false, List, [],
  ◌∷◌, ◌++◌, none, some, ◌==◌, ◌||◌, length, length-append, append-nil, map,
}
use cse_344_homeworks.Prelude.Text.{Text}
use cse_344_homeworks.Prelude.Decimal.{print_int, length-digits}
use cse_344_homeworks.Prelude.Int.{ℤ, pos, negsuc}
use cse_344_homeworks.Pide.Queue.{Order}
use cse_344_homeworks.Pide.Message.{order_message, place_orders, scan_ints, read_order, assign}
use cse_344_homeworks.Students.Scan.Printed.{Ends, InRange, scan_int-print_int, scan_int-space}

scan_one :
    (n : ℕ) (z : ℤ) (rest : Text)
    → InRange z
    → Ends rest
    → scan_ints (suc n) (print_int z ++ rest) ≡ z ∷ scan_ints n rest
unfolding scan_ints
scan_one n z rest h e =
    ap (λ p. let (c, r) = p in elim c [ none ↦ [] | some z ↦ z ∷ scan_ints n r ])
      (scan_int-print_int z rest h e)

scan_ints-zero : (s : Text) → scan_ints 0 s ≡ []
unfolding scan_ints
scan_ints-zero s = refl

scan_ints-space : (n : ℕ) (s : Text) → scan_ints (suc n) (b' ' ∷ s) ≡ scan_ints (suc n) s
unfolding scan_ints
scan_ints-space n s = rw (scan_ints, scan_int-space s) refl

length-print_int : (z : ℤ) → length (print_int z) ≤ 11
length-print_int (pos n) = omega (arith, length-digits 10 n)
length-print_int (negsuc n) = omega (arith, length-digits 10 (suc n))

abbrev fields : ℤ → ℤ → ℤ → ℤ → Text
fields a b c d = print_int a ++ (b' ' ∷ print_int b ++ (b' ' ∷ print_int c ++ (b' ' ∷ print_int d)))

fields_fit : (a b c d : ℤ) → length (fields a b c d) ≤ 47
fields_fit a b c d = omega (
  arith,
  length-print_int a,
  length-print_int b,
  length-print_int c,
  length-print_int d,
  length-append (print_int a) (b' ' ∷ print_int b ++ (b' ' ∷ print_int c ++ (b' ' ∷ print_int d))),
  length-append (print_int b) (b' ' ∷ print_int c ++ (b' ' ∷ print_int d)),
  length-append (print_int c) (b' ' ∷ print_int d),
)

scan_ints-order_message :
    (a b c d : ℤ)
    → InRange a
    → InRange b
    → InRange c
    → InRange d
    → scan_ints 4 (order_message a b c d) ≡ a ∷ b ∷ c ∷ d ∷ []
unfolding order_message
scan_ints-order_message a b c d ha hb hc hd =
    ap (scan_ints 4) (take_all 2047 (fields a b c d) (omega (arith, fields_fit a b c d)))
    ∙ scan_one 3 a _ ha refl
    ∙ ap (◌∷◌ a) (scan_ints-space 2 _ ∙ scan_one 2 b _ hb refl)
    ∙ ap (λ l. a ∷ b ∷ l) (scan_ints-space 1 _ ∙ scan_one 1 c _ hc refl)
    ∙ ap (λ l. a ∷ b ∷ c ∷ l)
        (scan_ints-space 0 _
          ∙ ap (scan_ints 1) (sym (append-nil (print_int d)))
          ∙ scan_one 0 d [] hd tt
          ∙ ap (◌∷◌ d) (scan_ints-zero []))

-- The buffer of `handle_client` has room for a message.
take-order_message : (a b c d : ℤ) → take 1024 (order_message a b c d) ≡ order_message a b c d
unfolding order_message
take-order_message a b c d =
    let whole = take_all 2047 (fields a b c d) (omega (arith, fields_fit a b c d)) in
    ap (take 1024) whole
    ∙ take_all 1024 (fields a b c d) (omega (arith, fields_fit a b c d))
    ∙ sym whole

-- The orders that the client means, from number `i` on, in the places of an array.
abbrev pub meant : (p q : ℕ) (client_pid : ℤ) (i : ℕ) → Order → List (ℕ × ℕ) → List Order
meant p q client_pid i o [] = []
meant p q client_pid i o ((r, s) ∷ more) =
    record o {
      order_id = pos (i + 1);
      customer_x = pos (r % p);
      customer_y = pos (s % q);
      pid = client_pid;
    }
    ∷ meant p q client_pid (suc i) o more

read_order-order_message :
    (a b c d : ℤ) (o : Order)
    → InRange a
    → InRange b
    → InRange c
    → InRange d
    → read_order (take 1024 (order_message a b c d)) o
      ≡ record o { order_id = a; customer_x = b; customer_y = c; pid = d }
unfolding read_order
read_order-order_message a b c d o ha hb hc hd =
    ap (λ m. read_order m o) (take-order_message a b c d)
    ∙ ap (λ l. assign l o) (scan_ints-order_message a b c d ha hb hc hd)

-- For any values of `rand`, if neither p nor q is 0, the client sends one message for each order, and
-- from them the server reads exactly these orders: the numbers count up, the places lie within p and q,
-- and the pid is that of the client. The numbers must fit into an int.
pub orders_arrive :
    (p q : ℕ) (client_pid : ℤ) (i : ℕ) (rands : List (ℕ × ℕ)) (o : Order)
    → 0 < p
    → p < 2 ^ 31
    → 0 < q
    → q < 2 ^ 31
    → InRange client_pid
    → i + length rands < 2 ^ 31
    → (messages : List Text) × (place_orders p q client_pid i rands ≡ some messages)
      × (map (λ m. read_order (take 1024 m) o) messages ≡ meant p q client_pid i o rands)
unfolding place_orders
orders_arrive p q client_pid i [] o hp hp' hq hq' hc hi = ([], refl, refl)
orders_arrive p q client_pid i ((r, s) ∷ more) o hp hp' hq hq' hc hi =
    let (messages, sent, read) =
      orders_arrive p q client_pid (suc i) more o hp hp' hq hq' hc (omega arith) in
    let safe : ((p == 0) || (q == 0)) ≡ false = ground arith in
    (
      order_message (pos (i + 1)) (pos (r % p)) (pos (s % q)) client_pid ∷ messages,
      rw (sent, safe) refl,
      rw
          (
            read_order-order_message (pos (i + 1)) (pos (r % p)) (pos (s % q)) client_pid o
                (omega arith) (omega (arith, mod-lt r hp)) (omega (arith, mod-lt s hq)) hc,
            read,
          )
          refl,
    )
