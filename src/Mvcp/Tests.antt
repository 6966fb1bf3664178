-- ===== src/Mvcp/Tests.antt =====
-- hw5/src: runs of the copier, and its theorems at concrete inputs.
use cse_344_homeworks.Prelude.{
  ◌≡◌, ◌⊎◌, inl, inr, refl, true, false, List, [], ◌∷◌, ◌++◌, none, some, arith,
}
use cse_344_homeworks.Prelude.Text.{codes, str_eq}
use cse_344_homeworks.Mvcp.Buffer.{
  FileDescriptor, invalid, Buffer, added, buffer_init, buffer_add, buffer_remove, buffer_set_done,
}
use cse_344_homeworks.Mvcp.Buffer.Fifo.{Fifo}
use cse_344_homeworks.Mvcp.Buffer.Refine.{Represents}
use cse_344_homeworks.Mvcp.Buffer.Destroy.{buffer_destroy, buffer_destroy_hw4}
use cse_344_homeworks.Mvcp.Buffer.Contract.{buffer_refines}
use cse_344_homeworks.Mvcp.Buffer.Calls.{
  add, remove, set_done, signal, opened, run, started, accepted, delivered, started-Represents,
  call, exactly_once,
}
use cse_344_homeworks.Mvcp.Threads.{
  Task, submit, set_done_early, System, start, manager_turn, worker_turn, manager_moves,
  worker_moves, write_fails, Reach, here, next, barrier_opens,
}
use cse_344_homeworks.Mvcp.Threads.Progress.{CanMove, deadlock_free}
use cse_344_homeworks.Mvcp.Threads.Stuck.{Blocked, stay, barrier_never_opens, no_way_on}
use cse_344_homeworks.Mvcp.Worker.{
  wrote, write_interrupted, write_failed, chunk, copy_loop, copied, gave_up,
}
use cse_344_homeworks.Mvcp.Worker.Copy.{contents, Copied, reads, copy_loop-Copied, copy_loop_total}
use cse_344_homeworks.Mvcp.Manager.{
  Entries, nil, entry, directory, fifo, regular, Walk, World, process_directory,
}
use cse_344_homeworks.Mvcp.Manager.Source.{IsCalm, Walked, files, directories, fifos}
use cse_344_homeworks.Mvcp.Manager.Tree.{process_directory-Walked}

abbrev junk : List FileDescriptor
junk = invalid ∷ invalid ∷ []

abbrev empty : Fifo
empty = record { items = []; closed = false }

abbrev fresh : Buffer
fresh = (started junk 2).buffer

fresh-Represents : Represents fresh empty
fresh-Represents = started-Represents junk 2 refl (omega arith) (omega arith)

-- Three adds go round the two slots.
schedule_reply :
    delivered
      (run
        (started junk 2)
        (add 3 4 ∷ add 5 6 ∷ remove ∷ add 7 8 ∷ set_done ∷ remove ∷ remove ∷ remove ∷ [])).0
    ≡ opened 3 4 ∷ opened 5 6 ∷ opened 7 8 ∷ []
unfolding run call buffer_init buffer_add buffer_remove buffer_set_done
schedule_reply = refl

buffer_refines_example :
    (let (s, b') = buffer_add false fresh (opened 3 4) in
      (s ≡ added) × Represents b' (record { items = opened 3 4 ∷ []; closed = false }))
    × (let (o, b') = buffer_remove false fresh in (o ≡ none) × Represents b' empty)
    × Represents (buffer_set_done fresh) (record { items = []; closed = true })
    × (buffer_destroy fresh ≡ [])
    × (buffer_destroy_hw4 fresh ≡ [])
unfolding buffer_init
buffer_refines_example = buffer_refines false (opened 3 4) fresh-Represents

exactly_once_example :
    let calls = add 3 4 ∷ remove ∷ add 5 6 ∷ signal 2 ∷ [] in
    let (log, t) = run (started junk 2) calls in
    (q : Fifo) × Represents t.buffer q × (accepted log ≡ delivered log ++ q.items)
exactly_once_example =
    exactly_once (add 3 4 ∷ remove ∷ add 5 6 ∷ signal 2 ∷ []) junk 2 refl (omega arith)
      (omega arith)

abbrev todo : List Task
todo = submit 3 4 ∷ []

abbrev begun : System
begun = start junk 2 1 true todo

deadlock_free_example : CanMove (manager_turn begun) ⊎ (barrier_opens (manager_turn begun) ≡ true)
unfolding manager_turn buffer_init buffer_add
deadlock_free_example =
    deadlock_free junk 2 1 todo refl (omega arith) (omega arith) (omega arith) tt
      (next here (manager_moves refl refl)) refl refl

-- The only worker returns after a failed write; the manager goes on to the barrier.
abbrev left_alone : System
left_alone = record begun { busy = 0; failed = 1 }

barrier_never_opens_example : barrier_opens (manager_turn (manager_turn left_alone)) ≡ false
unfolding manager_turn buffer_init buffer_add
barrier_never_opens_example =
    barrier_never_opens {s = left_alone} (inl (omega arith))
      (next (next here (manager_moves refl refl)) (manager_moves refl refl))

left_alone_reached : Reach begun left_alone
left_alone_reached = next here (write_fails (omega arith) refl)

-- One slot and one worker; the manager meets a directory that it cannot open, and then two files.
abbrev refused : System
refused = start (invalid ∷ []) 1 1 true (set_done_early ∷ submit 3 4 ∷ submit 5 6 ∷ [])

abbrev full : System
full = manager_turn (manager_turn (worker_turn (manager_turn refused)))

full_reached : Reach refused full
unfolding manager_turn worker_turn buffer_init buffer_add buffer_remove buffer_set_done
full_reached =
    next
      (next (next (next here (manager_moves refl refl)) (worker_moves (omega arith) refl))
        (manager_moves refl refl))
      (manager_moves refl refl)

full-Blocked : Blocked full
unfolding manager_turn worker_turn buffer_init buffer_add buffer_remove buffer_set_done
full-Blocked = record {
  nobody = (refl, refl, refl);
  full = refl;
  next_task = (5, 6, [], refl);
  trying = inr refl;
  quiet = (refl, refl);
}

no_way_on_example : Blocked full × (barrier_opens full ≡ false)
no_way_on_example = no_way_on full-Blocked stay

copy_loop-Copied_example :
    Copied []
      (1 ∷ 2 ∷ 3 ∷ [])
      0
      (copy_loop (chunk 1 (2 ∷ 3 ∷ []) ∷ []) (wrote 1 ∷ write_interrupted ∷ write_failed ∷ []) [] 0)
unfolding contents
copy_loop-Copied_example =
    copy_loop-Copied (chunk 1 (2 ∷ 3 ∷ []) ∷ []) (wrote 1 ∷ write_interrupted ∷ write_failed ∷ [])
      [] 0

-- That copy gives up after one byte.
copy_gives_up :
    copy_loop (chunk 1 (2 ∷ 3 ∷ []) ∷ []) (wrote 1 ∷ write_interrupted ∷ write_failed ∷ []) [] 0
    ≡ gave_up (1 ∷ []) 0
unfolding copy_loop
copy_gives_up = refl

copy_loop_total_example :
    copy_loop
      (reads ((1, 2 ∷ 3 ∷ []) ∷ []))
      (wrote 1 ∷ write_interrupted ∷ wrote 2 ∷ wrote 4 ∷ [])
      []
      7
    ≡ copied true (1 ∷ 2 ∷ 3 ∷ []) 10
unfolding contents
copy_loop_total_example =
    copy_loop_total ((1, 2 ∷ 3 ∷ []) ∷ []) (wrote 1 ∷ write_interrupted ∷ wrote 2 ∷ wrote 4 ∷ []) 7
      (omega arith) (omega arith)

abbrev open_world : World
open_world = record {
  available = λ p. true;
  fifo_possible = λ p. true;
  done_at = λ n. false;
  add_returns = λ n. true;
}

open_world-IsCalm : IsCalm open_world
open_world-IsCalm = record {
  room = λ p. refl;
  fifos_made = λ p. refl;
  never_done = λ n. refl;
  adds_return = λ n. refl;
}

abbrev sample : Entries
sample = entry (codes ".") (directory true nil) (
    entry (codes "a") (regular (some 3) (some 4)) (
      entry (codes "d") (directory true (entry (codes "p") fifo nil))
        (entry (codes "b") (regular (some 5) none) nil)))

abbrev nothing_yet : Walk
nothing_yet = record {
  num_regular_files = 0;
  num_fifo_files = 0;
  num_directories = 0;
  tests = 0;
  events = [];
}

process_directory-Walked_example :
    Walked nothing_yet
      ((codes "/t/a", 3, 4) ∷ [])
      1
      1
      (process_directory open_world true sample (codes "/t") nothing_yet)
unfolding files directories fifos str_eq
process_directory-Walked_example =
    process_directory-Walked open_world open_world-IsCalm sample (codes "/t") nothing_yet
