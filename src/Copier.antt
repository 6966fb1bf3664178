-- ===== src/Copier.antt =====
-- hw4/src/200104004085_{buffer,manager,worker,main}.c: the copier of hw5 before it had a barrier. The
-- functions of its buffer have the text of those of hw5. Its threads are a step relation, as there:
-- the state counts the workers at each place, and a wait may end at any time.
pub mod Inv
pub mod Progress
pub mod Ends
pub mod Walk
pub mod Main
mod Tests
use cse_344_homeworks.Prelude.{
  ℕ, zero, suc, ◌+◌, ◌-◌, ◌≤◌, ◌<◌, ◌≡◌, Bool, true, false, not, ◌&&◌, List, [], ◌∷◌, Option, none,
  some, ◌==◌, if◌then◌else◌,
}
use cse_344_homeworks.Mvcp.Buffer.{FileDescriptor, Buffer, AddStatus, wait_not_full, dropped, added}
use cse_344_homeworks.Mvcp.Buffer
use cse_344_homeworks.Mvcp.Buffer.Calls.{opened, is_sentinel}
use cse_344_homeworks.Mvcp.Threads.{Task, submit, set_done_early}

abbrev pub buffer_init : List FileDescriptor → ℕ → Buffer
buffer_init = Buffer.buffer_init

abbrev pub buffer_add : Bool → Buffer → FileDescriptor → AddStatus × Buffer
buffer_add = Buffer.buffer_add

abbrev pub buffer_remove : Bool → Buffer → Option FileDescriptor × Buffer
buffer_remove = Buffer.buffer_remove

abbrev pub buffer_set_done : Buffer → Buffer
buffer_set_done = Buffer.buffer_set_done

-- `asleep` is the wait of `buffer_add`. All ends of `manager` set the flag of the buffer and return.
pub data ManagerState : Type 0 where
  awake asleep returned : ManagerState

pub record System : Type 0 where
  pub buffer : Buffer
  pub stop : Bool  -- the global `done`
  pub in_handler : Bool  -- between `done = 1` and `buffer_set_done` in `handle_signal`
  pub manager : ManagerState
  pub todo : List Task
  pub busy : ℕ  -- workers at the head of their loop, or copying
  pub sleeping : ℕ  -- workers in the wait of `buffer_remove`
  pub woken : ℕ  -- workers whose wait has ended, before they test again
  pub finished : ℕ  -- workers that returned behind their loop
  pub failed : ℕ  -- workers that returned after a failed write

abbrev pub num_workers : System → ℕ
num_workers s = s.busy + s.sleeping + s.woken + s.finished + s.failed

-- `main`, once every thread is created.
abbrev pub start : List FileDescriptor → ℕ → ℕ → List Task → System
start junk size workers todo = record {
  buffer = buffer_init junk size;
  stop = false;
  in_handler = false;
  manager = awake;
  todo = todo;
  busy = workers;
  sleeping = 0;
  woken = 0;
  finished = 0;
  failed = 0;
}

unfoldable pub signal_not_empty : System → System
signal_not_empty s =
    if s.sleeping == 0 then s else record s { sleeping = s.sleeping - 1; woken = s.woken + 1 }

unfoldable pub rouse : ManagerState → ManagerState
rouse asleep = awake
rouse m = m

-- `buffer_set_done`, with its two broadcasts.
unfoldable pub set_done : System → System
unfolding rouse
set_done s = record s {
  buffer = buffer_set_done s.buffer;
  sleeping = 0;
  woken = s.woken + s.sleeping;
  manager = rouse s.manager;
}

abbrev pub after_add : System → List Task → AddStatus × Buffer → System
after_add s rest (wait_not_full, b) = record s { manager = asleep }
after_add s rest (dropped, b) = record s { buffer = b; todo = rest }
after_add s rest (added, b) = signal_not_empty (record s { buffer = b; todo = rest })

abbrev pub perform : System → List Task → System
perform s [] = record (set_done s) { manager = returned }
perform s (submit src dst ∷ rest) = after_add s rest (buffer_add s.stop s.buffer (opened src dst))
perform s (set_done_early ∷ rest) = set_done (record s { todo = rest })

-- The manager's next call on the buffer; behind the last one it returns.
unfoldable pub manager_turn : System → System
unfolding signal_not_empty set_done
manager_turn s = perform s s.todo

-- `buffer_remove` signals `not_full` if it took something.
abbrev pub after_remove : System → Option FileDescriptor × Buffer → System
after_remove s (none, b) = record s { sleeping = s.sleeping + 1 }
after_remove s (some fd, b) =
    let manager' = if s.buffer.count == 0 then s.manager else rouse s.manager in
    if is_sentinel fd
    then record s { buffer = b; manager = manager'; finished = s.finished + 1 }
    else record s { buffer = b; manager = manager'; busy = s.busy + 1 }

unfoldable pub remove_turn : System → System
unfolding rouse
remove_turn s = after_remove s (buffer_remove s.stop s.buffer)

-- A worker at the head of `while (!done)`.
unfoldable pub worker_turn : System → System
unfolding remove_turn
worker_turn s =
    if s.stop
    then record s { busy = s.busy - 1; finished = s.finished + 1 }
    else remove_turn (record s { busy = s.busy - 1 })

-- A worker whose wait has ended.
unfoldable pub woken_turn : System → System
unfolding remove_turn
woken_turn s = remove_turn (record s { woken = s.woken - 1 })

pub data Step (s t : System) : Type 0 where
  manager_moves : s.manager ≡ awake → t ≡ manager_turn s → Step s t
  worker_moves : 0 < s.busy → t ≡ worker_turn s → Step s t
  woken_moves : 0 < s.woken → t ≡ woken_turn s → Step s t
  write_fails : 0 < s.busy → t ≡ record s { busy = s.busy - 1; failed = s.failed + 1 } → Step s t
  spurious_worker :
      0 < s.sleeping → t ≡ record s { sleeping = s.sleeping - 1; woken = s.woken + 1 } → Step s t
  spurious_manager : s.manager ≡ asleep → t ≡ record s { manager = awake } → Step s t
  interrupt : t ≡ record s { stop = true; in_handler = true } → Step s t
  handler_returns : s.in_handler ≡ true → t ≡ record (set_done s) { in_handler = false } → Step s t

pub data Reach (s : System) : System → Type 0 where
  here : Reach s s
  next : {t u : System} → Reach s t → Step t u → Reach s u

abbrev pub has_returned : ManagerState → Bool
has_returned returned = true
has_returned _ = false

-- Both loops of `pthread_join` in `main` are through.
abbrev pub all_joined : System → Bool
all_joined s = has_returned s.manager && ((s.finished + s.failed) == num_workers s)
