-- ===== src/Midterm/Exchange/Outcomes.antt =====
-- midterm: what can become of the commands of a client.
use cse_344_homeworks.Prelude.{
  ◌<◌, ◌≤◌, ◌≡◌, refl, ap, arith, List, [], ◌∷◌, ◌++◌, map, Option, some, length, take_all,
  drop_all, All,
}
use cse_344_homeworks.Prelude.Text.{Text}
use cse_344_homeworks.Midterm.Exchange.{Link, at_prompt, show, obey, response_of}

-- A command that was answered, and one that the client read back itself.
pub data Outcome : Type 0 where
  answered : (command response : Text) → Outcome
  echoed : (command : Text) → Outcome

abbrev pub command_of : Outcome → Text
command_of (answered command response) = command
command_of (echoed command) = command

abbrev pub shown_of : Outcome → Text
shown_of (answered command response) = response
shown_of (echoed command) = command

abbrev pub executed_of : List Outcome → List Text
executed_of [] = []
executed_of (answered command response ∷ log) = command ∷ executed_of log
executed_of (echoed command ∷ log) = executed_of log

pub executed_of-snoc_answered :
    (log : List Outcome) (r a : Text)
    → executed_of (log ++ (answered r a ∷ [])) ≡ executed_of log ++ (r ∷ [])
executed_of-snoc_answered [] r a = refl
executed_of-snoc_answered (answered r' a' ∷ log) r a =
    ap (◌∷◌ r') (executed_of-snoc_answered log r a)
executed_of-snoc_answered (echoed r' ∷ log) r a = executed_of-snoc_answered log r a

pub executed_of-snoc_echoed :
    (log : List Outcome) (r : Text) → executed_of (log ++ (echoed r ∷ [])) ≡ executed_of log
executed_of-snoc_echoed [] r = refl
executed_of-snoc_echoed (answered r' a' ∷ log) r = ap (◌∷◌ r') (executed_of-snoc_echoed log r)
executed_of-snoc_echoed (echoed r' ∷ log) r = executed_of-snoc_echoed log r

pub map-snoc :
    {A : Type 0} (f : Outcome → A) (log : List Outcome) (o : Outcome)
    → map f (log ++ (o ∷ [])) ≡ map f log ++ (f o ∷ [])
map-snoc f [] o = refl
map-snoc f (x ∷ log) o = ap (◌∷◌ (f x)) (map-snoc f log o)

-- The two calls of `read` take a text that fits in whole.
pub show_whole :
    (c : Text) (s : Link)
    → 0 < length c
    → length c ≤ 65535
    → show c s ≡ some (record s { fifo = []; client = at_prompt; shown = s.shown ++ (c ∷ []) })
show_whole [] s h k = absurd (omega arith)
show_whole (x ∷ c) s h k = rw (take_all 65535 (x ∷ c) k, drop_all 65535 (x ∷ c) k) refl

pub obey_whole :
    (reply : Text → Option Text) (c : Text) (s : Link)
    → 0 < length c
    → length c ≤ 1024
    → obey reply c s
      ≡ some (record s {
        fifo = [];
        server = response_of (reply c);
        executed = s.executed ++ (c ∷ []);
      })
obey_whole reply [] s h k = absurd (omega arith)
obey_whole reply (x ∷ c) s h k = rw (take_all 1024 (x ∷ c) k, drop_all 1024 (x ∷ c) k) refl

abbrev pub IsRight : (Text → Option Text) → Outcome → Type 0
IsRight reply (answered command response) = reply command ≡ some response
IsRight reply (echoed command) = Unit

abbrev pub IsCommand : Text → Type 0
IsCommand r = (0 < length r) × (length r ≤ 1024)

-- The outcomes of the commands typed so far, when the client is at its prompt.
pub record Settled (reply : Text → Option Text) (cs : List Text) (s : Link) : Type 0 where
  pub log : List Outcome
  pub commands : map command_of log ++ s.typed ≡ cs
  pub right : All (IsRight reply) log
  pub run_by_server : s.executed ≡ executed_of log
  pub printed_by_client : s.shown ≡ map shown_of log
