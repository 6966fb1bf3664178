-- ===== src/Copier/Progress.antt =====
-- hw4: the threads do not deadlock as long as one worker has not failed and no directory is refused.
use cse_344_homeworks.Prelude.{
  ℕ, ◌-◌, ◌≤◌, ◌<◌, ◌≡◌, ◌⊎◌, inl, inr, refl, true, false, List, [], ◌∷◌, arith, Bool-cases, subst,
  sym, length,
}
use cse_344_homeworks.Mvcp.Buffer.{
  FileDescriptor, buffer_add, buffer_init, buffer_remove, buffer_set_done,
}
use cse_344_homeworks.Mvcp.Buffer.Inv.{int_max}
use cse_344_homeworks.Mvcp.Threads.{Task, submit, set_done_early}
use cse_344_homeworks.Mvcp.Threads.Progress.{NoEarly}
use cse_344_homeworks.Copier.{
  awake, returned, System, start, perform, signal_not_empty, set_done, manager_turn, remove_turn,
  worker_turn, woken_turn, Step, manager_moves, worker_moves, woken_moves, write_fails,
  spurious_worker, spurious_manager, interrupt, handler_returns, Reach, here, next, all_joined,
}
use cse_344_homeworks.Copier.Inv.{Inv, start-Inv, Reach-Inv}

-- Then the flag of the buffer tells that the run is interrupted or that the manager is done.
record Clean (s : System) : Type 0 where
  tasks : NoEarly s.todo
  reason : s.buffer.done ≡ true → (s.stop ≡ true) ⊎ (s.manager ≡ returned)
  handling : s.in_handler ≡ true → s.stop ≡ true

perform-Clean :
    (s : System) (tasks : List Task)
    → s.todo ≡ tasks
    → NoEarly tasks
    → s.manager ≡ awake
    → Clean s
    → Clean (perform s tasks)
unfolding set_done buffer_set_done buffer_add signal_not_empty
perform-Clean s [] q m e c = ground arith
perform-Clean s (submit src dst ∷ rest) q m e c = ground arith
perform-Clean s (set_done_early ∷ rest) q m e c = absurd m

remove_turn-Clean : (s : System) → Clean s → Clean (remove_turn s)
unfolding remove_turn buffer_remove
remove_turn-Clean s c = ground (arith, c.tasks)

worker_turn-Clean : (s : System) → Clean s → Clean (worker_turn s)
unfolding worker_turn
worker_turn-Clean s c = elim (Bool-cases s.stop) [
  | inl stops ↦ ground (arith, c.tasks)
  | inr runs ↦
      ground (arith, remove_turn-Clean (record s { busy = s.busy - 1 }) (ground (arith, c.tasks)))
]

woken_turn-Clean : (s : System) → Clean s → Clean (woken_turn s)
unfolding woken_turn
woken_turn-Clean s c =
    remove_turn-Clean (record s { woken = s.woken - 1 }) (ground (arith, c.tasks))

handler-Clean :
    (s : System)
    → s.in_handler ≡ true
    → Clean s
    → Clean (record (set_done s) { in_handler = false })
unfolding set_done buffer_set_done
handler-Clean s h c = ground (arith, c.tasks)

Step-Clean : {s t : System} → Step s t → Clean s → Clean t
Step-Clean {s} (manager_moves g e) c =
    subst Clean (sym e) (unfold manager_turn in perform-Clean s s.todo refl c.tasks g c)
Step-Clean {s} (worker_moves g e) c = subst Clean (sym e) (worker_turn-Clean s c)
Step-Clean {s} (woken_moves g e) c = subst Clean (sym e) (woken_turn-Clean s c)
Step-Clean {s} (write_fails g e) c = subst Clean (sym e) (ground (arith, c.tasks))
Step-Clean {s} (spurious_worker g e) c = subst Clean (sym e) (ground (arith, c.tasks))
Step-Clean {s} (spurious_manager g e) c = subst Clean (sym e) (ground (arith, c.tasks))
Step-Clean {s} (interrupt e) c = subst Clean (sym e) (ground (arith, c.tasks))
Step-Clean {s} (handler_returns g e) c = subst Clean (sym e) (handler-Clean s g c)

Reach-Clean : {s t : System} → Clean s → Reach s t → Clean t
Reach-Clean c here = c
Reach-Clean c (next r st) = Step-Clean st (Reach-Clean c r)

start-Clean :
    (junk : List FileDescriptor) (size workers : ℕ) (todo : List Task)
    → NoEarly todo
    → Clean (start junk size workers todo)
unfolding buffer_init
start-Clean junk size workers todo m = record { tasks = m; reason = λ e. cc; handling = λ e. cc }

-- A thread that is not in a wait and has not returned.
abbrev pub CanMove : System → Type 0
CanMove s = (s.manager ≡ awake) ⊎ (0 < s.busy) ⊎ (0 < s.woken)

Inv-moves :
    {n : ℕ} (s : System)
    → Inv n s
    → Clean s
    → s.failed < n
    → s.in_handler ≡ false
    → CanMove s ⊎ (all_joined s ≡ true)
Inv-moves s inv c f h = ground (arith, inv.holds.represents)

-- No deadlock in hw4: in every state that the program reaches from its start, with a source tree in
-- which no directory is refused, as long as one worker at least has met no failed write and no signal
-- handler is under way, some thread can take a step of its own, or the manager and all workers have
-- returned, so that `main` joins them all. Unlike in hw5, failed writes of the other workers do no
-- harm.
pub threads_move :
    (junk : List FileDescriptor) (size workers : ℕ) (todo : List Task) {t : System}
    → length junk ≡ size
    → 0 < size
    → size ≤ int_max
    → NoEarly todo
    → Reach (start junk size workers todo) t
    → t.failed < workers
    → t.in_handler ≡ false
    → CanMove t ⊎ (all_joined t ≡ true)
threads_move junk size workers todo {t} l p h m r f q =
    Inv-moves t (Reach-Inv (start-Inv junk size workers todo l p h) r)
      (Reach-Clean (start-Clean junk size workers todo m) r) f q
