-- ===== src/Midterm/Exchange/Tests.antt =====
-- midterm: a client and the server in step, and the two ways in which one takes its own signal.
use cse_344_homeworks.Prelude.{
  ℕ, ◌≡◌, refl, ap, sym, arith, Bool, true, false, List, [], ◌∷◌, ◌++◌, Option, none, some, ◌==◌,
  if◌then◌else◌, length, take, replicate, length-replicate, Bool-cases, inl, inr, some_injective,
}
use cse_344_homeworks.Prelude.Text.{Text, codes}
use cse_344_homeworks.Midterm.Exchange.{
  Link, Answer, prints, filled, reply_of, at_prompt, connected, client_move, server_move, run,
}
use cse_344_homeworks.Midterm.Exchange.Outcomes.{Settled}
use cse_344_homeworks.Midterm.Exchange.Runs.{AtEnd, exchange, exchange_stuck}

-- A server that lists one file, and knows no other command.
abbrev listing : Text
listing = b'a' ∷ replicate 10239 0

abbrev reply : Text → Option Text
reply [] = none
reply (c ∷ cs) = if c == b'l' then some listing else none

reply-listing : (r a : Text) → reply r ≡ some a → listing ≡ a
reply-listing [] a h = ground (arith, h)
reply-listing (c ∷ cs) a h = elim (Bool-cases (c == b'l')) [
  | inl hit ↦ some_injective (rw hit at h)
  | inr miss ↦ let nothing : none ≡ some a = rw miss at h in ground (arith, nothing)
]

reply-sized : (r a : Text) → reply r ≡ some a → length a ≡ 10240
reply-sized r a h = omega (arith, ap length (reply-listing r a h), length-replicate {A = ℕ} 10239 0)

reply-no_command : (r a : Text) → reply r ≡ some a → reply (take 1024 a) ≡ none
reply-no_command r a h = ap (λ a. reply (take 1024 a)) (sym (reply-listing r a h))

abbrev commands : List Text
commands = codes "list" ∷ codes "list" ∷ []

-- The client reads the first command back itself; the second is answered.
abbrev one_lost : List Bool
one_lost =
    (true ∷ true ∷ true ∷ true ∷ [])
    ++ (true ∷ true ∷ false ∷ false ∷ false ∷ false ∷ true ∷ true ∷ [])

at_prompt_again : (run reply one_lost (connected commands)).client ≡ at_prompt
unfolding run client_move server_move
at_prompt_again = refl

exchange_example : Settled reply commands (run reply one_lost (connected commands))
exchange_example =
    exchange reply reply-sized reply-no_command commands one_lost (omega arith) at_prompt_again

one_lost-executed : (run reply one_lost (connected commands)).executed ≡ codes "list" ∷ []
unfolding run client_move server_move
one_lost-executed = refl

-- The server takes the signal that was meant for the client, and its own response for a command.
abbrev server_confused : List Bool
server_confused = true ∷ true ∷ false ∷ false ∷ false ∷ false ∷ false ∷ false ∷ []

-- A child that lists one file, and one that prints nothing.
abbrev answer : Text → Answer
answer [] = prints []
answer (c ∷ cs) = if c == b'l' then prints (b'a' ∷ []) else prints []

answer-listing : (r a : Text) → reply_of 65536 (answer r) ≡ some a → filled (b'a' ∷ []) ≡ a
unfolding reply_of
answer-listing [] a h = ground (arith, h)
answer-listing (c ∷ cs) a h = elim (Bool-cases (c == b'l')) [
  | inl hit ↦ some_injective (rw hit at h)
  | inr miss ↦ let nothing : none ≡ some a = rw miss at h in ground (arith, nothing)
]

answer-no_command :
    (r a : Text) → reply_of 65536 (answer r) ≡ some a → reply_of 65536 (answer (take 1024 a)) ≡ none
unfolding reply_of
answer-no_command r a h =
    ap (λ a. reply_of 65536 (answer (take 1024 a))) (sym (answer-listing r a h))

abbrev confused_end : Link
confused_end = run (λ r. reply_of 65536 (answer r)) server_confused (connected commands)

no_client_move : client_move confused_end ≡ none
unfolding run client_move server_move reply_of
no_client_move = refl

no_server_move : server_move (λ r. reply_of 65536 (answer r)) confused_end ≡ none
unfolding run client_move server_move reply_of
no_server_move = refl

exchange_stuck_example : AtEnd 65536 answer confused_end
exchange_stuck_example =
    exchange_stuck 65536 answer answer-no_command commands server_confused (omega arith)
      no_client_move no_server_move

-- A file of readF that does not fit into the pipe.
too_large : reply_of 3 (prints (codes "abcd")) ≡ none
unfolding reply_of
too_large = refl
