-- ===== src/Copier/Ends.antt =====
-- hw4: the threads come to an end.
use native.Mathlib.Nat.{mul-suc}
use cse_344_homeworks.Prelude.{
  ℕ, zero, suc, ◌+◌, ◌-◌, ◌*◌, ◌≤◌, ◌<◌, ◌≡◌, inl, inr, refl, true, false, List, [], ◌∷◌, arith,
  Bool-cases, get_or, not, ◌&&◌, ◌||◌, ◌==◌, subst, sym, length,
}
use cse_344_homeworks.Mvcp.Buffer.{
  FileDescriptor, invalid, buffer_add, buffer_init, buffer_remove, buffer_set_done,
}
use cse_344_homeworks.Mvcp.Buffer.Inv.{int_max}
use cse_344_homeworks.Mvcp.Buffer.Calls.{is_sentinel}
use cse_344_homeworks.Mvcp.Threads.{Task, submit, set_done_early}
use cse_344_homeworks.Copier.{
  ManagerState, awake, asleep, returned, rouse, System, start, perform, signal_not_empty, set_done,
  manager_turn, remove_turn, worker_turn, woken_turn, Step, manager_moves, worker_moves,
  woken_moves, write_fails,
}
use cse_344_homeworks.Copier.Inv.{Inv, start-Inv, Step-Inv}

-- A step of a thread, with no wait that ends for no reason and no signal.
pub data Move (s t : System) : Type 0 where
  manager_move : s.manager ≡ awake → t ≡ manager_turn s → Move s t
  worker_move : 0 < s.busy → t ≡ worker_turn s → Move s t
  woken_move : 0 < s.woken → t ≡ woken_turn s → Move s t
  failing_move : 0 < s.busy → t ≡ record s { busy = s.busy - 1; failed = s.failed + 1 } → Move s t

pub data Moves (s : System) : ℕ → System → Type 0 where
  none : Moves s 0 s
  more : {k : ℕ} {t u : System} → Moves s k t → Move t u → Moves s (suc k) u

abbrev step_of : {s t : System} → Move s t → Step s t
step_of (manager_move g e) = manager_moves g e
step_of (worker_move g e) = worker_moves g e
step_of (woken_move g e) = woken_moves g e
step_of (failing_move g e) = write_fails g e

abbrev waiting_turns : ℕ → ManagerState → ℕ
waiting_turns n awake = n + 1
waiting_turns n _ = 0

-- With `n` workers, no more than so many moves are left.
abbrev left : ℕ → System → ℕ
left n s =
    (n + 4) * length s.todo
    + (n + 2) * s.buffer.count
    + waiting_turns n s.manager
    + s.busy
    + s.woken

perform-less :
    {n : ℕ} (s : System) (tasks : List Task)
    → s.todo ≡ tasks
    → s.manager ≡ awake
    → Inv n s
    → left n (perform s tasks) < left n s
unfolding set_done rouse buffer_set_done buffer_add signal_not_empty
perform-less s [] q e inv = ground arith
perform-less {n} s (submit src dst ∷ rest) q e inv =
    let one_more : (n + 2) * (s.buffer.count + 1) ≡ (n + 2) * s.buffer.count + n + 2 =
      omega arith in
    let one_less : (n + 4) * length s.todo ≡ (n + 4) * length rest + n + 4 = rw q (omega arith) in
    elim (Bool-cases ((s.buffer.count == s.buffer.size) && not s.stop)) [
      | inl full ↦ rw (full, e) (omega arith)
      | inr room ↦ elim (Bool-cases s.stop) [
        | inl stops ↦ rw (room, stops, e) (omega (arith, one_less))
        | inr runs ↦ elim (Bool-cases (s.sleeping == 0)) [
          | inl nobody ↦ rw (room, runs, nobody, e) (omega (arith, one_less, one_more))
          | inr sleeper ↦ rw (room, runs, sleeper, e) (omega (arith, one_less, one_more))
        ]
      ]
    ]
perform-less {n} s (set_done_early ∷ rest) q e inv =
    let one_less : (n + 4) * length s.todo ≡ (n + 4) * length rest + n + 4 = rw q (omega arith) in
    rw e (omega (arith, one_less, inv.all))

rouse_turns : (n : ℕ) (m : ManagerState) → waiting_turns n (rouse m) ≤ waiting_turns n m + n + 1
unfolding rouse
rouse_turns n awake = omega arith
rouse_turns n asleep = omega arith
rouse_turns n returned = omega arith

mul_pred : (a c : ℕ) → (c == 0) ≡ false → a * c ≡ a * (c - 1) + a
mul_pred a zero h = absurd (ground (arith, h))
mul_pred a (suc c) h = let pred : suc c - 1 ≡ c = omega arith in rw pred (mul-suc a c)

remove_turn-less : (n : ℕ) (s : System) → left n (remove_turn s) < suc (left n s)
unfolding remove_turn buffer_remove
remove_turn-less n s = elim (Bool-cases (s.buffer.count == 0)) [
  | inl empty ↦ elim (Bool-cases (not s.buffer.done && not s.stop)) [
    | inl waits ↦ rw (empty, waits) (omega arith)
    | inr stops ↦
        let leaves : (s.buffer.done || s.stop) ≡ true = ground (arith, stops) in
        rw (empty, stops, leaves) (rw empty (omega arith))
  ]
  | inr stored ↦
      let fd = get_or s.buffer.fds s.buffer.out_pos invalid in
      let less : (n + 2) * s.buffer.count ≡ (n + 2) * (s.buffer.count - 1) + (n + 2) =
        mul_pred (n + 2) s.buffer.count stored in
      elim (Bool-cases (is_sentinel fd)) [
        | inl e ↦ rw (stored, e) (rw stored (omega (arith, less, rouse_turns n s.manager)))
        | inr e ↦ rw (stored, e) (rw stored (omega (arith, less, rouse_turns n s.manager)))
      ]
]

Move-less : {n : ℕ} {s t : System} → Move s t → Inv n s → left n t < left n s
unfolding manager_turn worker_turn woken_turn
Move-less {n} {s} (manager_move g e) inv =
    subst (λ u. left n u < left n s) (sym e) (perform-less s s.todo refl g inv)
Move-less {n} {s} (worker_move g e) inv =
    subst (λ u. left n u < left n s) (sym e)
      (elim (Bool-cases s.stop) [
        | inl stops ↦ rw stops (omega arith)
        | inr runs ↦
            rw runs
              (omega (arith, remove_turn-less n (record s { busy = s.busy - 1; stop = false })))
      ])
Move-less {n} {s} (woken_move g e) inv =
    subst (λ u. left n u < left n s) (sym e)
      (omega (arith, remove_turn-less n (record s { woken = s.woken - 1 })))
Move-less {n} {s} (failing_move g e) inv = subst (λ u. left n u < left n s) (sym e) (omega arith)

Moves-left :
    {n : ℕ} (k : ℕ) {s t : System} → Inv n s → Moves s k t → Inv n t × (k + left n t ≤ left n s)
Moves-left zero inv none = (inv, omega arith)
Moves-left {n} (suc k) {s} inv (more m step) =
    let (inv', le) = Moves-left k inv m in
    (Step-Inv (step_of step) inv', omega (arith, le, Move-less step inv'))

-- The threads of hw4 end: from the start, with `todo` calls on the buffer to be made by the manager,
-- no more than (workers + 4) * length todo + 2 * workers + 1 steps of threads are possible, in
-- whatever order they come and whether or not writes fail, if no wait ends for no reason and no signal
-- comes.
pub Moves-bounded :
    (junk : List FileDescriptor) (size workers : ℕ) (todo : List Task) (k : ℕ) {t : System}
    → length junk ≡ size
    → 0 < size
    → size ≤ int_max
    → Moves (start junk size workers todo) k t
    → k ≤ (workers + 4) * length todo + 2 * workers + 1
unfolding buffer_init
Moves-bounded junk size workers todo k l p h m =
    let (_, le) = Moves-left k (start-Inv junk size workers todo l p h) m in omega (arith, le)
