-- ===== src/Midterm/Exchange/Phases.antt =====
-- midterm: where the client and the server can stand, and that their moves lead from one such state to
-- another.
use cse_344_homeworks.Prelude.{
  ℕ, ◌≡◌, refl, sym, ◌∙◌, ap, subst, arith, Bool, true, false, List, [], ◌∷◌, ◌++◌, append_assoc,
  append-nil, map, Option, none, some, take, drop, length, All, All-append, Option-cases, inl, inr,
}
use cse_344_homeworks.Prelude.Text.{Text}
use cse_344_homeworks.Midterm.Exchange.{
  Link, ClientAt, at_prompt, to_signal, to_wait, to_read, ServerAt, awaiting, reading, responding,
  signalling, blocked, connected, response_of, client_move, server_move, or_stay, run,
}
use cse_344_homeworks.Midterm.Exchange.Outcomes.{
  Outcome, answered, echoed, command_of, shown_of, executed_of, executed_of-snoc_answered,
  executed_of-snoc_echoed, map-snoc, show_whole, obey_whole, IsRight, IsCommand,
}

module _ (reply : Text → Option Text) (sized : (r a : Text) → reply r ≡ some a → length a ≡ 10240)
    (no_command : (r a : Text) → reply r ≡ some a → reply (take 1024 a) ≡ none) where
  -- Where both processes stand, with the outcomes so far and the commands to come.
  pub data Phase : Type 0 where
    idle : List Outcome → List Text → Phase
    written posted accepted : List Outcome → Text → List Text → Phase
    answering told ready received : List Outcome → (r a : Text) → List Text → Phase
    caught : List Outcome → Text → List Text → Phase
    confused : List Outcome → (r a : Text) → List Text → Phase
    dead : (fifo : Text) → (executed shown : List Text) → List Text → Phase

  abbrev pub link : List Outcome → List Text → ℕ → Text → ClientAt → ServerAt → List Text → Link
  link log more sem fifo client server typed = record {
    semid2 = sem;
    fifo = fifo;
    client = client;
    server = server;
    typed = typed;
    executed = executed_of log ++ more;
    shown = map shown_of log;
  }

  abbrev pub state : Phase → Link
  state (idle log typed) = link log [] 0 [] at_prompt awaiting typed
  state (written log r typed) = link log [] 0 r to_signal awaiting typed
  state (posted log r typed) = link log [] 1 r to_wait awaiting typed
  state (accepted log r typed) = link log [] 0 r to_wait reading typed
  state (answering log r a typed) = link log (r ∷ []) 0 [] to_wait (responding a) typed
  state (told log r a typed) = link log (r ∷ []) 0 a to_wait signalling typed
  state (ready log r a typed) = link log (r ∷ []) 1 a to_wait awaiting typed
  state (received log r a typed) = link log (r ∷ []) 0 a to_read awaiting typed
  state (caught log r typed) = link log [] 0 r to_read awaiting typed
  state (confused log r a typed) = link log (r ∷ []) 0 a to_wait reading typed
  state (dead fifo executed shown typed) = record {
    semid2 = 0;
    fifo = fifo;
    client = to_wait;
    server = blocked;
    typed = typed;
    executed = executed;
    shown = shown;
  }

  -- What the client has been given, in a phase of that kind.
  abbrev pub HasAll : List Text → List Outcome → List Text → Type 0
  HasAll commands log rest =
      (map command_of log ++ rest ≡ commands) × All (IsRight reply) log × All IsCommand rest

  -- The last command read is one that the server never comes to answer.
  abbrev pub Starved : List Text → Type 0
  Starved executed =
      (before : List Text) × (r : Text) × (executed ≡ before ++ (r ∷ [])) × (reply r ≡ none)

  abbrev pub Fits : List Text → Phase → Type 0
  Fits cs (idle log typed) = HasAll cs log typed
  Fits cs (written log r typed) = HasAll cs log (r ∷ typed)
  Fits cs (posted log r typed) = HasAll cs log (r ∷ typed)
  Fits cs (accepted log r typed) = HasAll cs log (r ∷ typed)
  Fits cs (answering log r a typed) = HasAll cs log (r ∷ typed) × (reply r ≡ some a)
  Fits cs (told log r a typed) = HasAll cs log (r ∷ typed) × (reply r ≡ some a)
  Fits cs (ready log r a typed) = HasAll cs log (r ∷ typed) × (reply r ≡ some a)
  Fits cs (received log r a typed) = HasAll cs log (r ∷ typed) × (reply r ≡ some a)
  Fits cs (caught log r typed) = HasAll cs log (r ∷ typed)
  Fits cs (confused log r a typed) = HasAll cs log (r ∷ typed) × (reply r ≡ some a)
  Fits cs (dead fifo executed shown typed) = Starved executed

  abbrev pub InPhase : List Text → Link → Type 0
  InPhase cs s = (p : Phase) × (s ≡ state p) × Fits cs p

  -- A command is done with.
  HasAll-snoc :
      (cs : List Text) (log : List Outcome) (o : Outcome) (rest : List Text)
      → HasAll cs log (command_of o ∷ rest)
      → IsRight reply o
      → HasAll cs (log ++ (o ∷ [])) rest
  HasAll-snoc cs log o rest (all, right, valid) h = (
    ap (λ l. l ++ rest) (map-snoc command_of log o)
        ∙ append_assoc (map command_of log) (command_of o ∷ []) rest
        ∙ all,
    All-append (IsRight reply) log (o ∷ []) right (h, tt),
    valid.1,
  )

  at_rest :
      (log : List Outcome) (o : Outcome) (executed shown typed : List Text)
      → executed ≡ executed_of (log ++ (o ∷ []))
      → shown ≡ map shown_of log ++ (shown_of o ∷ [])
      → record {
        semid2 = 0;
        fifo = [];
        client = at_prompt;
        server = awaiting;
        typed = typed;
        executed = executed;
        shown = shown;
      }
        ≡ state (idle (log ++ (o ∷ [])) typed)
  at_rest log o executed shown typed e h =
      let e' : executed ≡ executed_of (log ++ (o ∷ [])) ++ [] = e ∙ sym (append-nil _) in
      let h' : shown ≡ map shown_of (log ++ (o ∷ [])) = h ∙ sym (map-snoc shown_of log o) in
      rw (e', h') refl

  client-InPhase :
      (cs : List Text) (p : Phase)
      → Fits cs p
      → InPhase cs (or_stay (state p) (client_move (state p)))
  unfolding client_move
  client-InPhase cs (idle log []) f = (idle log [], refl, f)
  client-InPhase cs (idle log (r ∷ typed)) f = (written log r typed, refl, f)
  client-InPhase cs (written log r typed) f = (posted log r typed, refl, f)
  client-InPhase cs (posted log r typed) f = (caught log r typed, refl, f)
  client-InPhase cs (accepted log r typed) f = (accepted log r typed, refl, f)
  client-InPhase cs (answering log r a typed) f = (answering log r a typed, refl, f)
  client-InPhase cs (told log r a typed) f = (told log r a typed, refl, f)
  client-InPhase cs (ready log r a typed) f = (received log r a typed, refl, f)
  client-InPhase cs (received log r a typed) (all, e) =
      let long = sized r a e in
      (
        idle (log ++ (answered r a ∷ [])) typed,
        ap (or_stay _) (show_whole a _ (omega (arith, long)) (omega (arith, long)))
            ∙ at_rest log (answered r a) _ _ typed (sym (executed_of-snoc_answered log r a)) refl,
        HasAll-snoc cs log (answered r a) typed all e,
      )
  client-InPhase cs (caught log r typed) all =
      let (filled, short) = all.2.0 in
      (
        idle (log ++ (echoed r ∷ [])) typed,
        ap (or_stay _) (show_whole r _ filled (omega (arith, short)))
            ∙ at_rest log (echoed r) _ _ typed
                (append-nil (executed_of log) ∙ sym (executed_of-snoc_echoed log r)) refl,
        HasAll-snoc cs log (echoed r) typed all tt,
      )
  client-InPhase cs (confused log r a typed) f = (confused log r a typed, refl, f)
  client-InPhase cs (dead fifo executed shown typed) f = (dead fifo executed shown typed, refl, f)

  -- The server has read a command.
  after_read :
      (cs : List Text) (log : List Outcome) (r : Text) (executed typed : List Text)
      → executed ≡ executed_of log ++ (r ∷ [])
      → HasAll cs log (r ∷ typed)
      → InPhase cs
          (record (link log [] 0 [] to_wait (response_of (reply r)) typed) { executed = executed })
  after_read cs log r executed typed same all = elim (Option-cases (reply r)) [
    | inl silent ↦ (
      dead [] executed (map shown_of log) typed,
      rw silent refl,
      (executed_of log, r, same, silent),
    )
    | inr (a, e) ↦ (answering log r a typed, rw (e, same) refl, (all, e))
  ]

  server-InPhase :
      (cs : List Text) (p : Phase)
      → Fits cs p
      → InPhase cs (or_stay (state p) (server_move reply (state p)))
  unfolding server_move
  server-InPhase cs (idle log typed) f = (idle log typed, refl, f)
  server-InPhase cs (written log r typed) f = (written log r typed, refl, f)
  server-InPhase cs (posted log r typed) f = (accepted log r typed, refl, f)
  server-InPhase cs (accepted log r typed) all =
      let (filled, short) = all.2.0 in
      let s = state (accepted log r typed) in
      let same : (executed_of log ++ []) ++ (r ∷ []) ≡ executed_of log ++ (r ∷ []) =
        ap (λ l. l ++ (r ∷ [])) (append-nil (executed_of log)) in
      subst (InPhase cs) (sym (ap (or_stay s) (obey_whole reply r s filled short)))
        (after_read cs log r _ typed same all)
  server-InPhase cs (answering log r a typed) f = (told log r a typed, refl, f)
  server-InPhase cs (told log r a typed) f = (ready log r a typed, refl, f)
  server-InPhase cs (ready log r a typed) f = (confused log r a typed, refl, f)
  server-InPhase cs (received log r a typed) f = (received log r a typed, refl, f)
  server-InPhase cs (caught log r typed) f = (caught log r typed, refl, f)
  server-InPhase cs (confused log r [] typed) (all, e) = absurd (omega (arith, sized r [] e))
  server-InPhase cs (confused log r (c ∷ a) typed) (all, e) = (
    dead (drop 1024 (c ∷ a)) ((executed_of log ++ (r ∷ [])) ++ (take 1024 (c ∷ a) ∷ []))
        (map shown_of log) typed,
    rw (no_command r (c ∷ a) e) refl,
    (executed_of log ++ (r ∷ []), take 1024 (c ∷ a), refl, no_command r (c ∷ a) e),
  )
  server-InPhase cs (dead fifo executed shown typed) f = (dead fifo executed shown typed, refl, f)

  pub run-InPhase :
      (cs : List Text) (turns : List Bool) (s : Link)
      → InPhase cs s
      → InPhase cs (run reply turns s)
  unfolding run
  run-InPhase cs [] s v = v
  run-InPhase cs (true ∷ turns) s (p, e, f) =
      run-InPhase cs turns _
        (subst (λ s. InPhase cs (or_stay s (client_move s))) (sym e) (client-InPhase cs p f))
  run-InPhase cs (false ∷ turns) s (p, e, f) =
      run-InPhase cs turns _
        (subst (λ s. InPhase cs (or_stay s (server_move reply s))) (sym e) (server-InPhase cs p f))

  pub start-InPhase : (cs : List Text) → All IsCommand cs → InPhase cs (connected cs)
  start-InPhase cs h = (idle [] cs, refl, (refl, tt, h))
