-- ===== src/Mvcp/Threads.antt =====
-- hw5/src/200104004085_{manager,worker,main}.c: the manager, the workers and the signal handler
-- around one buffer, as a step relation. Workers are alike, so the state counts those at each
-- place. A wait on a condition variable may end at any time; a signal ends the wait of one waiter
-- at least, a broadcast that of all.
pub mod Inv
pub mod Progress
pub mod Stuck
use cse_344_homeworks.Prelude.{
  ℕ, zero, suc, ◌+◌, ◌-◌, ◌≤◌, ◌<◌, ◌≡◌, Bool, true, false, not, List, [], ◌∷◌, Option, none, some,
  ◌==◌, if◌then◌else◌,
}
use cse_344_homeworks.Mvcp.Buffer.{
  FileDescriptor, Buffer, AddStatus, wait_not_full, dropped, added, buffer_init, buffer_add,
  buffer_remove, buffer_set_done,
}
use cse_344_homeworks.Mvcp.Buffer.Calls.{opened, is_sentinel}

-- What the walk of the manager asks of the buffer: to queue a pair of descriptors, or to set the
-- flag early, as `process_directory` does where `opendir` fails.
pub data Task : Type 0 where
  submit : (src dst : ℕ) → Task
  set_done_early : Task

-- `asleep` is the wait of `buffer_add`; `returned` is the end of `manager` by one of its early
-- returns, which pass the barrier by.
pub data ManagerState : Type 0 where
  awake asleep at_barrier returned : ManagerState

pub record System : Type 0 where
  pub buffer : Buffer
  pub stop : Bool  -- the global `done`
  pub in_handler : Bool  -- between `done = 1` and `buffer_set_done` in `handle_signal`
  pub manager : ManagerState
  pub joins : Bool  -- `manager` goes on to its barrier
  pub todo : List Task
  pub busy : ℕ  -- workers at the head of their loop, or copying
  pub sleeping : ℕ  -- workers in the wait of `buffer_remove`
  pub woken : ℕ  -- workers whose wait has ended, before they test again
  pub arrived : ℕ  -- workers at the barrier
  pub failed : ℕ  -- workers that returned after a failed write, past the barrier

abbrev pub num_workers : System → ℕ
num_workers s = s.busy + s.sleeping + s.woken + s.arrived + s.failed

-- `main`, once every thread is created.
abbrev pub start : List FileDescriptor → ℕ → ℕ → Bool → List Task → System
start junk size workers joins todo = record {
  buffer = buffer_init junk size;
  stop = false;
  in_handler = false;
  manager = awake;
  joins = joins;
  todo = todo;
  busy = workers;
  sleeping = 0;
  woken = 0;
  arrived = 0;
  failed = 0;
}

-- `pthread_cond_signal(&buffer->not_empty)`
unfoldable pub signal_not_empty : System → System
signal_not_empty s =
    if s.sleeping == 0 then s else record s { sleeping = s.sleeping - 1; woken = s.woken + 1 }

unfoldable pub rouse : ManagerState → ManagerState
rouse asleep = awake
rouse m = m

-- `buffer_set_done`, with its two broadcasts.
unfoldable pub set_done : System → System
unfolding rouse
set_done s = record s {
  buffer = buffer_set_done s.buffer;
  sleeping = 0;
  woken = s.woken + s.sleeping;
  manager = rouse s.manager;
}

abbrev pub after_add : System → List Task → AddStatus × Buffer → System
after_add s rest (wait_not_full, b) = record s { manager = asleep }
after_add s rest (dropped, b) = record s { buffer = b; todo = rest }
after_add s rest (added, b) = signal_not_empty (record s { buffer = b; todo = rest })

abbrev pub perform : System → List Task → System
perform s [] =
    let t = set_done s in
    if s.joins then record t { manager = at_barrier } else record t { manager = returned }
perform s (submit src dst ∷ rest) = after_add s rest (buffer_add s.stop s.buffer (opened src dst))
perform s (set_done_early ∷ rest) = set_done (record s { todo = rest })

-- The manager's next call on the buffer; behind the last one comes the barrier.
unfoldable pub manager_turn : System → System
unfolding signal_not_empty set_done
manager_turn s = perform s s.todo

-- `buffer_remove` signals `not_full` if it took something.
abbrev pub after_remove : System → Option FileDescriptor × Buffer → System
after_remove s (none, b) = record s { sleeping = s.sleeping + 1 }
after_remove s (some fd, b) =
    let manager' = if s.buffer.count == 0 then s.manager else rouse s.manager in
    if is_sentinel fd
    then record s { buffer = b; manager = manager'; arrived = s.arrived + 1 }
    else record s { buffer = b; manager = manager'; busy = s.busy + 1 }

unfoldable pub remove_turn : System → System
unfolding rouse
remove_turn s = after_remove s (buffer_remove s.stop s.buffer)

-- A worker at the head of `while (!done)`.
unfoldable pub worker_turn : System → System
unfolding remove_turn
worker_turn s =
    if s.stop
    then record s { busy = s.busy - 1; arrived = s.arrived + 1 }
    else remove_turn (record s { busy = s.busy - 1 })

-- A worker whose wait has ended.
unfoldable pub woken_turn : System → System
unfolding remove_turn
woken_turn s = remove_turn (record s { woken = s.woken - 1 })

pub data Step (s t : System) : Type 0 where
  manager_moves : s.manager ≡ awake → t ≡ manager_turn s → Step s t
  worker_moves : 0 < s.busy → t ≡ worker_turn s → Step s t
  woken_moves : 0 < s.woken → t ≡ woken_turn s → Step s t
  write_fails : 0 < s.busy → t ≡ record s { busy = s.busy - 1; failed = s.failed + 1 } → Step s t
  spurious_worker :
      0 < s.sleeping → t ≡ record s { sleeping = s.sleeping - 1; woken = s.woken + 1 } → Step s t
  spurious_manager : s.manager ≡ asleep → t ≡ record s { manager = awake } → Step s t
  interrupt : t ≡ record s { stop = true; in_handler = true } → Step s t
  handler_returns : s.in_handler ≡ true → t ≡ record (set_done s) { in_handler = false } → Step s t

pub data Reach (s : System) : System → Type 0 where
  here : Reach s s
  next : {t u : System} → Reach s t → Step t u → Reach s u

-- `pthread_barrier_init(…, num_workers + 1)` lets everybody go once all have come.
abbrev pub has_come : ManagerState → ℕ
has_come at_barrier = 1
has_come _ = 0

abbrev pub barrier_opens : System → Bool
barrier_opens s = (s.arrived + has_come s.manager) == num_workers s + 1
