-- ===== src/Midterm/Exchange/Runs.antt =====
-- midterm: what the commands of a client come to, however the two processes take turns.
use cse_344_homeworks.Prelude.{
  ◌≡◌, ◌⊎◌, refl, sym, ◌∙◌, subst, arith, Bool, List, [], ◌∷◌, append-nil, Option, none, some, take,
  length, All, inl, inr, ℕ, ◌<◌, ◌++◌, ap, replicate, length-take, length-append, length-replicate,
  some_injective, Bool-cases, ltb, ltb→lt,
}
use cse_344_homeworks.Prelude.Text.{Text}
use cse_344_homeworks.Midterm.Exchange.{
  Link, at_prompt, blocked, connected, client_move, server_move, run, Answer, responds, prints,
  filled, reply_of,
}
use cse_344_homeworks.Midterm.Exchange.Outcomes.{
  executed_of, show_whole, obey_whole, IsCommand, Settled,
}
use cse_344_homeworks.Midterm.Exchange.Phases.{
  Phase, idle, written, posted, accepted, answering, told, ready, received, caught, confused, dead,
  state, Fits, Starved, run-InPhase, start-InPhase,
}

module _ (reply : Text → Option Text) (sized : (r a : Text) → reply r ≡ some a → length a ≡ 10240)
    (no_command : (r a : Text) → reply r ≡ some a → reply (take 1024 a) ≡ none) where
  idle_log :
      (cs : List Text) (p : Phase reply sized no_command)
      → (state reply sized no_command p).client ≡ at_prompt
      → Fits reply sized no_command cs p
      → Settled reply cs (state reply sized no_command p)
  idle_log cs (idle log typed) h (all, right, valid) = record {
    log = log;
    commands = all;
    right = right;
    run_by_server = append-nil (executed_of log);
    printed_by_client = refl;
  }
  idle_log cs (written log r typed) h f = ground (arith, h)
  idle_log cs (posted log r typed) h f = ground (arith, h)
  idle_log cs (accepted log r typed) h f = ground (arith, h)
  idle_log cs (answering log r a typed) h f = ground (arith, h)
  idle_log cs (told log r a typed) h f = ground (arith, h)
  idle_log cs (ready log r a typed) h f = ground (arith, h)
  idle_log cs (received log r a typed) h f = ground (arith, h)
  idle_log cs (caught log r typed) h f = ground (arith, h)
  idle_log cs (confused log r a typed) h f = ground (arith, h)
  idle_log cs (dead fifo executed shown typed) h f = ground (arith, h)

  -- For commands of 1 to 1024 bytes, and responses of 10240 bytes of which none begins with something
  -- that the server responds to; however the two processes take turns: whenever the client is back at
  -- its prompt, each command typed so far was either read and answered by the server, with the client
  -- reading the response to it, or read back by the client itself as if it were the response; the
  -- server has read the answered ones and no other, in the order in which they were typed, and the
  -- client has read one text for each command, in this order too.
  pub exchange :
      (cs : List Text) (turns : List Bool)
      → All IsCommand cs
      → (run reply turns (connected cs)).client ≡ at_prompt
      → Settled reply cs (run reply turns (connected cs))
  exchange cs turns h k =
      let (p, e, f) =
        run-InPhase reply sized no_command cs turns (connected cs)
          (start-InPhase reply sized no_command cs h) in
      subst (Settled reply cs) (sym e) (idle_log cs p (subst (λ s. s.client ≡ at_prompt) e k) f)

  -- Both processes have come to rest: all commands are done with, or the server never comes to answer
  -- the last one that it has read.
  abbrev AtRest : Link → Type 0
  AtRest s =
      ((s.client ≡ at_prompt) × (s.typed ≡ []))
      ⊎ ((s.server ≡ blocked) × Starved reply sized no_command s.executed)

  stuck :
      (cs : List Text) (p : Phase reply sized no_command)
      → client_move (state reply sized no_command p) ≡ none
      → server_move reply (state reply sized no_command p) ≡ none
      → Fits reply sized no_command cs p
      → AtRest (state reply sized no_command p)
  unfolding client_move server_move
  stuck cs (idle log []) h k f = inl (refl, refl)
  stuck cs (idle log (r ∷ typed)) h k f = ground (arith, h)
  stuck cs (written log r typed) h k f = ground (arith, h)
  stuck cs (posted log r typed) h k f = ground (arith, h)
  stuck cs (accepted log r typed) h k (all, right, valid) =
      ground (arith, sym (obey_whole reply r _ valid.0.0 valid.0.1) ∙ k)
  stuck cs (answering log r a typed) h k f = ground (arith, k)
  stuck cs (told log r a typed) h k f = ground (arith, k)
  stuck cs (ready log r a typed) h k f = ground (arith, h)
  stuck cs (received log r a typed) h k (all, e) =
      let long = sized r a e in
      ground (arith, sym (show_whole a _ (omega (arith, long)) (omega (arith, long))) ∙ h)
  stuck cs (caught log r typed) h k (all, right, valid) =
      ground (arith, sym (show_whole r _ valid.0.0 (omega (arith, valid.0.1))) ∙ h)
  stuck cs (confused log r [] typed) h k (all, e) = absurd (omega (arith, sized r [] e))
  stuck cs (confused log r (c ∷ a) typed) h k f = ground (arith, k)
  stuck cs (dead fifo executed shown typed) h k f = inr (refl, f)

  at_rest :
      (cs : List Text) (turns : List Bool)
      → All IsCommand cs
      → client_move (run reply turns (connected cs)) ≡ none
      → server_move reply (run reply turns (connected cs)) ≡ none
      → AtRest (run reply turns (connected cs))
  at_rest cs turns valid h k =
      let (p, e, f) =
        run-InPhase reply sized no_command cs turns (connected cs)
          (start-InPhase reply sized no_command cs valid) in
      subst AtRest (sym e) (
        stuck cs p (subst (λ s. client_move s ≡ none) e h)
          (subst (λ s. server_move reply s ≡ none) e k) f)

length-filled : (text : Text) → length (filled text) ≡ 10240
length-filled text = omega (
  arith,
  length-take 10240 (text ++ replicate 10240 0),
  length-append text (replicate 10240 0),
  length-replicate {A = ℕ} 10240 0,
)

reply_of-length :
    (pipe_size : ℕ) (answer : Answer) (a : Text)
    → reply_of pipe_size answer ≡ some a
    → length a ≡ 10240
unfolding reply_of
reply_of-length pipe_size (responds response) a e =
    ap length (sym (some_injective e)) ∙ length-filled response
reply_of-length pipe_size (prints []) a e = ground (arith, e)
reply_of-length pipe_size (prints (c ∷ output)) a e =
    elim (Bool-cases (ltb pipe_size (length (c ∷ output)))) [
      | inl large ↦ let nothing : none ≡ some a = rw large at e in ground (arith, nothing)
      | inr small ↦ ap length (sym (some_injective (rw small at e))) ∙ length-filled (c ∷ output)
    ]

-- A child for which the server waits for ever.
abbrev pub Starves : ℕ → Answer → Type 0
Starves pipe_size (responds response) = ⊥
Starves pipe_size (prints output) = (output ≡ []) ⊎ (pipe_size < length output)

starves :
    (pipe_size : ℕ) (answer : Answer) → reply_of pipe_size answer ≡ none → Starves pipe_size answer
unfolding reply_of
starves pipe_size (responds response) e = ground (arith, e)
starves pipe_size (prints []) e = inl refl
starves pipe_size (prints (c ∷ output)) e =
    elim (Bool-cases (ltb pipe_size (length (c ∷ output)))) [
      | inl large ↦ inr (ltb→lt pipe_size (length (c ∷ output)) large)
      | inr small ↦
          let nothing : some (filled (c ∷ output)) ≡ none = rw small at e in ground (arith, nothing)
    ]

module _ (pipe_size : ℕ) (answer : Text → Answer) where
  abbrev pub reply : Text → Option Text
  reply command = reply_of pipe_size (answer command)

  -- All commands are done with, or the server waits for ever for the child of the last command that it
  -- has read.
  abbrev pub AtEnd : Link → Type 0
  AtEnd s =
      ((s.client ≡ at_prompt) × (s.typed ≡ []))
      ⊎ ((s.server ≡ blocked)
          × ((before : List Text) × (command : Text) × (s.executed ≡ before ++ (command ∷ []))
              × Starves pipe_size (answer command)))

  at_end :
      (s : Link)
      → ((s.client ≡ at_prompt) × (s.typed ≡ []))
        ⊎ ((s.server ≡ blocked)
            × ((before : List Text) × (r : Text) × (s.executed ≡ before ++ (r ∷ []))
                × (reply r ≡ none)))
      → AtEnd s
  at_end s (inl done) = inl done
  at_end s (inr (e, (before, r, last, none_yet))) =
      inr (e, (before, r, last, starves pipe_size (answer r) none_yet))

  -- For commands of 1 to 1024 bytes, and if no response begins with something that the server responds
  -- to; however the two processes have taken turns: if neither can move any more, either all
  -- commands are done with and the client waits for the user, or the server waits for ever for the child
  -- of the last command that it has read, which prints nothing, or more than a pipe holds.
  pub exchange_stuck :
      ((r a : Text) → reply r ≡ some a → reply (take 1024 a) ≡ none)
      → (cs : List Text) (turns : List Bool) → All IsCommand cs
      → client_move (run reply turns (connected cs)) ≡ none
      → server_move reply (run reply turns (connected cs)) ≡ none
      → AtEnd (run reply turns (connected cs))
  exchange_stuck no_command cs turns valid h k = at_end (run reply turns (connected cs)) (
      at_rest reply (λ r a e. reply_of-length pipe_size (answer r) a e) no_command cs turns valid h
        k)
