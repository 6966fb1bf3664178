-- ===== src/Mvcp/Threads/Stuck.antt =====
-- The runs in which the threads wait for ever: a thread has returned past the barrier, or the flag
-- of the buffer was set while descriptors were still to come.
use cse_344_homeworks.Prelude.{
  ℕ, ◌-◌, ◌<◌, ◌≡◌, ◌⊎◌, inl, refl, false, List, [], ◌∷◌, arith, subst, sym,
}
use cse_344_homeworks.Mvcp.Buffer.{buffer_add, buffer_remove, buffer_set_done}
use cse_344_homeworks.Mvcp.Threads.{
  Task, submit, set_done_early, awake, asleep, returned, System, perform, signal_not_empty,
  set_done, manager_turn, remove_turn, worker_turn, woken_turn, Step, manager_moves, worker_moves,
  woken_moves, write_fails, spurious_worker, spurious_manager, interrupt, handler_returns, Reach,
  here, next, barrier_opens,
}

-- Somebody will not come to the barrier.
abbrev pub Missing : System → Type 0
Missing s = (0 < s.failed) ⊎ (s.manager ≡ returned)

perform-Missing :
    (s : System) (tasks : List Task) → s.manager ≡ awake → Missing s → Missing (perform s tasks)
unfolding set_done buffer_set_done buffer_add signal_not_empty
perform-Missing s [] e m = ground arith
perform-Missing s (submit src dst ∷ rest) e m = ground arith
perform-Missing s (set_done_early ∷ rest) e m = ground arith

remove_turn-Missing : (s : System) → Missing s → Missing (remove_turn s)
unfolding remove_turn buffer_remove
remove_turn-Missing s m = ground arith

Step-Missing : {s t : System} → Step s t → Missing s → Missing t
unfolding worker_turn woken_turn set_done
Step-Missing {s} (manager_moves g e) m =
    subst Missing (sym e) (unfold manager_turn in perform-Missing s s.todo g m)
Step-Missing {s} (worker_moves g e) m =
    subst Missing (sym e) (ground (arith, remove_turn-Missing (record s { busy = s.busy - 1 }) m))
Step-Missing {s} (woken_moves g e) m =
    subst Missing (sym e) (remove_turn-Missing (record s { woken = s.woken - 1 }) m)
Step-Missing {s} (write_fails g e) m = subst Missing (sym e) (inl (omega arith))
Step-Missing {s} (spurious_worker g e) m = subst Missing (sym e) m
Step-Missing {s} (spurious_manager g e) m = subst Missing (sym e) (ground arith)
Step-Missing {s} (interrupt e) m = subst Missing (sym e) m
Step-Missing {s} (handler_returns g e) m = subst Missing (sym e) (ground arith)

Reach-Missing : {s t : System} → Missing s → Reach s t → Missing t
Reach-Missing m here = m
Reach-Missing m (next r st) = Step-Missing st (Reach-Missing m r)

-- Once a worker has returned after a failed write, or the manager by an early return, the barrier
-- does not open in any state that is reached from there: the other threads wait at it for ever.
pub barrier_never_opens : {s t : System} → Missing s → Reach s t → barrier_opens t ≡ false
barrier_never_opens m r = let m' = Reach-Missing m r in ground arith

-- Every worker is at the barrier, the buffer is full, and the manager still has a file to add.
pub record Blocked (s : System) : Type 0 where
  pub nobody : (s.busy ≡ 0) × (s.sleeping ≡ 0) × (s.woken ≡ 0)
  pub full : s.buffer.count ≡ s.buffer.size
  pub next_task : (src : ℕ) × (dst : ℕ) × (rest : List Task) × (s.todo ≡ submit src dst ∷ rest)
  pub trying : (s.manager ≡ awake) ⊎ (s.manager ≡ asleep)
  pub quiet : (s.stop ≡ false) × (s.in_handler ≡ false)

perform-Blocked :
    (s : System) (src dst : ℕ) (rest : List Task)
    → s.todo ≡ submit src dst ∷ rest
    → Blocked s
    → Blocked (perform s (submit src dst ∷ rest))
unfolding buffer_add signal_not_empty
perform-Blocked s src dst rest q b = record {
  nobody = ground arith;
  full = ground arith;
  next_task = (src, dst, rest, ground arith);
  trying = ground arith;
  quiet = ground arith;
}

-- A step that is not the arrival of SIGINT.
abbrev pub Uninterrupted : {s t : System} → Step s t → Type 0
Uninterrupted (interrupt _) = ⊥
Uninterrupted _ = Unit

pub Step-Blocked : {s t : System} (st : Step s t) → Uninterrupted st → Blocked s → Blocked t
Step-Blocked {s} (manager_moves g e) u b =
    let (src, dst, rest, q) = b.next_task in
    subst Blocked (sym e) (
      unfold manager_turn in
      subst (λ l. Blocked (perform s l)) (sym q) (perform-Blocked s src dst rest q b))
Step-Blocked {s} (worker_moves g e) u b = absurd (omega (arith, b.nobody))
Step-Blocked {s} (woken_moves g e) u b = absurd (omega (arith, b.nobody))
Step-Blocked {s} (write_fails g e) u b = absurd (omega (arith, b.nobody))
Step-Blocked {s} (spurious_worker g e) u b = absurd (omega (arith, b.nobody))
Step-Blocked {s} (spurious_manager g e) u b = subst Blocked (sym e) (record {
  nobody = b.nobody;
  full = b.full;
  next_task = b.next_task;
  trying = inl refl;
  quiet = b.quiet;
})
Step-Blocked {s} (interrupt e) u b = absurd u
Step-Blocked {s} (handler_returns g e) u b = absurd (ground (arith, b.quiet))

pub data QuietReach (s : System) : System → Type 0 where
  stay : QuietReach s s
  go : {t u : System} → QuietReach s t → (st : Step t u) → Uninterrupted st → QuietReach s u

-- From a blocked state on, no run without SIGINT ends: in every state of it the buffer is full,
-- every worker is at the barrier or gone after a failed write, the manager still has its file to add, and the barrier is closed.
pub no_way_on : {s t : System} → Blocked s → QuietReach s t → Blocked t × (barrier_opens t ≡ false)
no_way_on b stay = (b, ground (arith, b.full))
no_way_on b (go r st u) =
    let (c, closed) = no_way_on b r in let d = Step-Blocked st u c in (d, ground (arith, d.full))
