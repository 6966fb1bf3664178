-- ===== src/Mvcp/Threads/Inv.antt =====
-- What holds in every state of the system.
use cse_344_homeworks.Prelude.{
  ℕ, ◌+◌, ◌-◌, ◌≤◌, ◌<◌, ◌≡◌, ◌⊎◌, inl, inr, refl, Bool, true, false, List, [], ◌∷◌, arith,
  Bool-cases, subst, sym, length,
}
use cse_344_homeworks.Mvcp.Buffer.{
  FileDescriptor, buffer_init, buffer_add, buffer_remove, buffer_set_done,
}
use cse_344_homeworks.Mvcp.Buffer.Calls.{opened}
use cse_344_homeworks.Mvcp.Buffer.Inv.{int_max}
use cse_344_homeworks.Mvcp.Buffer.Holds.{
  Holds, buffer_init-Holds, buffer_add-Holds, buffer_remove-Holds, buffer_set_done-Holds,
  Holds-next,
}
use cse_344_homeworks.Mvcp.Threads.{
  Task, submit, set_done_early, awake, asleep, at_barrier, returned, System, num_workers, start,
  after_add, perform, signal_not_empty, set_done, manager_turn, remove_turn, worker_turn,
  woken_turn, Step, manager_moves, worker_moves, woken_moves, write_fails, spurious_worker,
  spurious_manager, interrupt, handler_returns, Reach, here, next,
}

-- `n` workers in all. No wake-up is lost: while a worker sleeps, for each descriptor in the buffer
-- there is a worker whose wait has ended; and the manager sleeps only at a full buffer.
pub record Inv (n : ℕ) (s : System) : Type 0 where
  pub holds : Holds s.buffer
  pub all : num_workers s ≡ n
  pub no_lost_wakeup : 0 < s.sleeping → s.buffer.count ≤ s.woken
  pub sleeper_open : 0 < s.sleeping → s.buffer.done ≡ false
  pub sleeper_runs : 0 < s.sleeping → s.stop ≡ true → s.in_handler ≡ true
  pub manager_full : s.manager ≡ asleep → s.buffer.count ≡ s.buffer.size
  pub manager_runs : s.manager ≡ asleep → s.stop ≡ true → s.in_handler ≡ true
  pub leavers : 0 < s.arrived → (s.stop ≡ true) ⊎ (s.buffer.done ≡ true)
  pub barrier_done : s.manager ≡ at_barrier → s.buffer.done ≡ true
  pub joined : s.manager ≡ returned → s.joins ≡ false

pub start-Inv :
    (junk : List FileDescriptor) (size workers : ℕ) (joins : Bool) (todo : List Task)
    → length junk ≡ size
    → 0 < size
    → size ≤ int_max
    → Inv workers (start junk size workers joins todo)
unfolding buffer_init
start-Inv junk size workers joins todo l p h = record {
  holds = buffer_init-Holds junk size l p h;
  all = omega arith;
  no_lost_wakeup = λ q. omega arith;
  sleeper_open = λ q. refl;
  sleeper_runs = λ q e. cc;
  manager_full = λ e. cc;
  manager_runs = λ e f. cc;
  leavers = λ q. absurd (omega arith);
  barrier_done = λ e. cc;
  joined = λ e. cc;
}

set_done-Inv : {n : ℕ} (s : System) → Inv n s → Inv n (set_done s)
unfolding set_done buffer_set_done
set_done-Inv s inv = ground (arith, inv.holds.represents, buffer_set_done-Holds inv.holds)

handler-Inv : {n : ℕ} (s : System) → Inv n s → Inv n (record (set_done s) { in_handler = false })
unfolding set_done buffer_set_done
handler-Inv s inv = ground (arith, inv.holds.represents, buffer_set_done-Holds inv.holds)

module _ {n : ℕ} (s : System) (rest : List Task) (src dst : ℕ) where
  submit-Inv :
      s.manager ≡ awake
      → Inv n s
      → Inv n (after_add s rest (buffer_add s.stop s.buffer (opened src dst)))
  unfolding buffer_add signal_not_empty
  submit-Inv e inv = ground (arith, inv.holds.represents, buffer_add-Holds s.stop src dst inv.holds)

perform-Inv :
    {n : ℕ} (s : System) (tasks : List Task) → s.manager ≡ awake → Inv n s → Inv n (perform s tasks)
unfolding set_done buffer_set_done
perform-Inv s [] e inv = ground (arith, inv.holds.represents, buffer_set_done-Holds inv.holds)
perform-Inv s (submit src dst ∷ rest) e inv = submit-Inv s rest src dst e inv
perform-Inv s (set_done_early ∷ rest) e inv =
    ground (arith, inv.holds.represents, buffer_set_done-Holds inv.holds)

-- A worker that is in no count enters `buffer_remove`.
remove_turn-Inv :
    {n : ℕ} (s : System)
    → Inv n (record s { busy = s.busy + 1 }) ⊎ Inv n (record s { woken = s.woken + 1 })
    → Inv n (remove_turn s)
unfolding remove_turn buffer_remove
remove_turn-Inv s (inl inv) =
    ground (arith, inv.holds.represents, Holds-next inv.holds, buffer_remove-Holds s.stop inv.holds)
remove_turn-Inv s (inr inv) =
    ground (arith, inv.holds.represents, Holds-next inv.holds, buffer_remove-Holds s.stop inv.holds)

worker_turn-Inv : {n : ℕ} (s : System) → 0 < s.busy → Inv n s → Inv n (worker_turn s)
unfolding worker_turn
worker_turn-Inv {n} s h inv = elim (Bool-cases s.stop) [
  | inl stops ↦ ground (arith, inv.holds)
  | inr runs ↦ ground (
    arith,
    remove_turn-Inv {n = n} (record s { busy = s.busy - 1 }) (inl (ground (arith, inv.holds))),
  )
]

woken_turn-Inv : {n : ℕ} (s : System) → 0 < s.woken → Inv n s → Inv n (woken_turn s)
unfolding woken_turn
woken_turn-Inv s h inv =
    remove_turn-Inv (record s { woken = s.woken - 1 }) (inr (ground (arith, inv.holds)))

-- Every step of the manager, of a worker or of the signal handler keeps the invariant.
pub Step-Inv : {n : ℕ} {s t : System} → Step s t → Inv n s → Inv n t
Step-Inv {n} {s} (manager_moves g e) inv =
    subst (Inv n) (sym e) (unfold manager_turn in perform-Inv s s.todo g inv)
Step-Inv {n} {s} (worker_moves g e) inv = subst (Inv n) (sym e) (worker_turn-Inv s g inv)
Step-Inv {n} {s} (woken_moves g e) inv = subst (Inv n) (sym e) (woken_turn-Inv s g inv)
Step-Inv {n} {s} (write_fails g e) inv = subst (Inv n) (sym e) (ground (arith, inv.holds))
Step-Inv {n} {s} (spurious_worker g e) inv = subst (Inv n) (sym e) (ground (arith, inv.holds))
Step-Inv {n} {s} (spurious_manager g e) inv = subst (Inv n) (sym e) (ground (arith, inv.holds))
Step-Inv {n} {s} (interrupt e) inv = subst (Inv n) (sym e) (ground (arith, inv.holds))
Step-Inv {n} {s} (handler_returns g e) inv = subst (Inv n) (sym e) (handler-Inv s inv)

pub Reach-Inv : {n : ℕ} {s t : System} → Inv n s → Reach s t → Inv n t
Reach-Inv inv here = inv
Reach-Inv inv (next r st) = Step-Inv st (Reach-Inv inv r)
