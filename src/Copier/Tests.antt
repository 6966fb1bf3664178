-- ===== src/Copier/Tests.antt =====
-- hw4: a small run, and the witnesses.
use cse_344_homeworks.Prelude.{
  ◌+◌, ◌*◌, ◌≤◌, ◌≡◌, ◌⊎◌, refl, arith, true, false, List, [], ◌∷◌, length, some, none,
}
use cse_344_homeworks.Mvcp.Buffer.{
  FileDescriptor, invalid, buffer_init, buffer_add, buffer_remove, buffer_set_done,
}
use cse_344_homeworks.Mvcp.Threads.{Task, submit}
use cse_344_homeworks.Copier.{
  System, start, manager_turn, worker_turn, here, next, write_fails, all_joined,
}
use cse_344_homeworks.Copier.Progress.{CanMove}
use cse_344_homeworks.Copier.Walk.{AllOpenable, process_directory, copier_moves}
use cse_344_homeworks.Mvcp.Manager
use cse_344_homeworks.Mvcp.Manager.{Entries, nil, entry, regular, Walk, World, tasks}
use cse_344_homeworks.Prelude.Text.{codes, str_eq}
use cse_344_homeworks.Copier.Ends.{Moves, more, manager_move, worker_move, Moves-bounded}

abbrev junk : List FileDescriptor
junk = invalid ∷ invalid ∷ []

abbrev todo : List Task
todo = submit 3 4 ∷ []

abbrev begun : System
begun = start junk 2 2 todo

abbrev one_failed : System
one_failed = record begun { busy = 1; failed = 1 }

-- The other worker and the manager end the run.
abbrev ended : System
ended = worker_turn (worker_turn (manager_turn (manager_turn one_failed)))

ended_joined : all_joined ended ≡ true
unfolding manager_turn worker_turn buffer_init buffer_add buffer_remove buffer_set_done
ended_joined = refl

-- A source tree with one file, and a destination where everything succeeds.
abbrev easy : World
easy = record {
  available = λ p. true;
  fifo_possible = λ p. true;
  done_at = λ n. false;
  add_returns = λ n. true;
}

abbrev one_file : Entries
one_file = entry (codes "a.txt") (regular (some 3) (some 4)) nil

abbrev fresh : Walk
fresh = record {
  num_regular_files = 0;
  num_fifo_files = 0;
  num_directories = 0;
  tests = 0;
  events = [];
}

abbrev walked : Walk
walked = elim (process_directory easy true one_file (codes "dst") fresh) [
  | none ↦ fresh
  | some v ↦ v
]

walk_ends : process_directory easy true one_file (codes "dst") fresh ≡ some walked
unfolding Manager.process_directory Manager.process_entries Manager.create_directory_if_not_exists
    Manager.copy_regular Manager.ensure_parent_directories_exist Manager.parent str_eq
walk_ends = refl

abbrev one_left : System
one_left = record (start junk 2 2 (tasks walked.events)) { busy = 1; failed = 1 }

copier_moves_example : CanMove one_left ⊎ (all_joined one_left ≡ true)
unfolding AllOpenable
copier_moves_example =
    copier_moves easy one_file (codes "dst") fresh walked junk 2 2 (tt, tt) refl walk_ends refl
      (omega arith) (omega arith) (next here (write_fails (omega arith) refl)) (omega arith) refl

Moves-bounded_example : 2 ≤ (2 + 4) * length todo + 2 * 2 + 1
unfolding manager_turn worker_turn buffer_init buffer_add
Moves-bounded_example =
    Moves-bounded junk 2 2 todo 2 refl (omega arith) (omega arith)
      (more (more Moves.none (manager_move refl refl)) (worker_move (omega arith) refl))
