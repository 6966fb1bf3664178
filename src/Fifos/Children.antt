-- ===== src/Fifos/Children.antt =====
-- hw2/main.c: the SIGCHLD handler and the loop of `proceeding`.
use native.Mathlib.Nat.{zero-add}
use cse_344_homeworks.Prelude.{
  ℕ, suc, ◌+◌, ◌%◌, ◌≤◌, ◌≡◌, ◌∙◌, inl, inr, refl, ap, arith, false, Bool-cases, List, [], ◌∷◌,
  ◌++◌, none, some, ltb, ◌==◌, if◌then◌else◌,
}
use cse_344_homeworks.Fifos.{
  Reaped, exited, killed, Globals, signal_handler, initial, proceeding, concat,
}

-- The children that have ended by exit.
abbrev exits : List Reaped → ℕ
exits [] = 0
exits (exited pid status ∷ more) = suc (exits more)
exits (killed pid ∷ more) = exits more

-- One run of the handler over two batches is a run over the first, and one over the second.
signal_handler-append :
    (xs ys : List Reaped) (g : Globals)
    → signal_handler (xs ++ ys) g ≡ signal_handler ys (signal_handler xs g)
unfolding signal_handler
signal_handler-append [] ys g = refl
signal_handler-append (exited pid status ∷ xs) ys g = signal_handler-append xs ys _
signal_handler-append (killed pid ∷ xs) ys g = signal_handler-append xs ys g

child_count-signal_handler :
    (xs : List Reaped) (g : Globals) → (signal_handler xs g).child_count ≡ g.child_count + exits xs
unfolding signal_handler
child_count-signal_handler [] g = omega arith
child_count-signal_handler (exited pid status ∷ xs) g = elim (Bool-cases (pid % 2 == 0)) [
  | inl e ↦ rw (signal_handler, e) (omega (arith, child_count-signal_handler xs _))
  | inr e ↦ rw (signal_handler, e) (omega (arith, child_count-signal_handler xs _))
]
child_count-signal_handler (killed pid ∷ xs) g = child_count-signal_handler xs g

exits-append : (xs ys : List Reaped) → exits (xs ++ ys) ≡ exits xs + exits ys
exits-append [] ys = omega arith
exits-append (exited pid status ∷ xs) ys = omega (arith, exits-append xs ys)
exits-append (killed pid ∷ xs) ys = exits-append xs ys

-- A child that a signal has killed leaves no trace.
signal_handler-no_exits : (xs : List Reaped) (g : Globals) → exits xs ≡ 0 → signal_handler xs g ≡ g
unfolding signal_handler
signal_handler-no_exits [] g h = refl
signal_handler-no_exits (exited pid status ∷ xs) g h = absurd (omega arith)
signal_handler-no_exits (killed pid ∷ xs) g h = signal_handler-no_exits xs g h

proceeding_from :
    (batches : List (List Reaped)) (g : Globals)
    → g.child_count + exits (concat batches) ≤ 2
    → proceeding batches g ≡ (
        if ltb (g.child_count + exits (concat batches)) 2
        then none
        else some (signal_handler (concat batches) g))
unfolding proceeding
proceeding_from [] g h = ap (λ n. if ltb n 2 then none else some g) (omega arith)
proceeding_from (batch ∷ later) g h = elim (Bool-cases (ltb g.child_count 2)) [
  | inl e ↦
      let after = signal_handler batch g in
      let sums : g.child_count + exits (batch ++ concat later)
          ≡ after.child_count + exits (concat later) =
        omega (arith, child_count-signal_handler batch g, exits-append batch (concat later)) in
      rw (e, sums, signal_handler-append batch (concat later) g)
        (proceeding_from later after (omega (arith, sums)))
  | inr e ↦
      let all = batch ++ concat later in
      let two : 2 ≤ g.child_count = ground (arith, e) in
      let past : ltb (g.child_count + exits all) 2 ≡ false = ground arith in
      rw (e, past, signal_handler-no_exits all g (omega arith)) refl
]

-- The parent gets past `proceeding` if both children exit, whichever runs of the handler find them,
-- alone or together, and then the globals are those of one run of the handler that finds them all.
-- With fewer exits, as when a signal kills a child, it waits for ever.
pub proceeding-batches :
    (batches : List (List Reaped))
    → exits (concat batches) ≤ 2
    → proceeding batches initial ≡ (
        if ltb (exits (concat batches)) 2
        then none
        else some (signal_handler (concat batches) initial))
proceeding-batches batches h =
    proceeding_from batches initial (omega arith)
    ∙ ap (λ n. if ltb n 2 then none else some (signal_handler (concat batches) initial))
        (zero-add (exits (concat batches)))
