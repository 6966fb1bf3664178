-- ===== src/Mvcp/Main.antt =====
-- hw5/src/200104004085_main.c: `main` from the arguments of the command line to the statistics, and
-- the thread of a worker from its start to its end (200104004085_worker.c). `malloc` is taken to
-- succeed. With `barrier` false it is the program of hw4, see Copier/Main.antt.
pub mod Clock
pub mod Report
mod Tests
use cse_344_homeworks.Prelude.{
  ℕ, zero, suc, ◌+◌, ◌-◌, ◌/◌, ◌%◌, ◌^◌, Bool, ◌&&◌, List, [], ◌∷◌, ◌++◌, Option, none, some,
  if◌then◌else◌, length,
}
use cse_344_homeworks.Prelude.Text.{Text, codes}
use cse_344_homeworks.Prelude.Decimal.{digits, print_int}
use cse_344_homeworks.Prelude.Int.{ℤ, pos, negsuc, sub_ℕ, ltb_ℤ, pos_part}
use cse_344_homeworks.Students.Scan.{atoi}
use cse_344_homeworks.Mvcp.Worker.{
  Bytes, ReadResult, WriteResult, copy_loop, CopyEnd, copied, gave_up, blocked,
}

-- What a worker meets at the head of its loop: `done` is set, the buffer answers with -1 and -1, or
-- it hands out a file, for which `read` and `write` return these results.
pub data Turn : Type 0 where
  told_to_stop : Turn
  no_more : Turn
  file : List ReadResult → List WriteResult → Turn

-- Where a worker stands: behind its loop, returned because a write failed, or in a call that has not
-- come back. `outs` is what the destinations of its files have received.
pub data WorkerEnd : Type 0 where
  left_loop : (total_bytes : ℕ) (outs : List Bytes) → WorkerEnd
  returned : (outs : List Bytes) → WorkerEnd
  waiting : WorkerEnd

-- while (!done). Every destination was opened with O_TRUNC, so that it is empty at first.
unfoldable pub worker_loop : List Turn → ℕ → List Bytes → WorkerEnd
unfolding copy_loop
worker_loop [] total outs = waiting
worker_loop (told_to_stop ∷ turns) total outs = left_loop total outs
worker_loop (no_more ∷ turns) total outs = left_loop total outs
worker_loop (file reads writes ∷ turns) total outs = elim (copy_loop reads writes [] total) [
  | copied read_ok out total' ↦ worker_loop turns total' (outs ++ (out ∷ []))
  | gave_up out total' ↦ returned (outs ++ (out ∷ []))
  | blocked out total' ↦ waiting
]

abbrev pub size_t : ℕ
size_t = 2 ^ 64

-- Sums of `size_t` are taken modulo 2 ^ 64 here; a worker's own sum need not be.
-- A worker's part in `total_bytes_copied`, and whether it can be joined: one that has left its loop
-- adds its sum, one that returned early does not, and never comes to the barrier.
abbrev pub add_total : (barrier : Bool) → (total_bytes_copied : ℕ) → WorkerEnd → Option ℕ
add_total barrier total (left_loop total_bytes outs) = some ((total + total_bytes) % size_t)
add_total barrier total (returned outs) = if barrier then none else some total
add_total barrier total waiting = none

-- `total_bytes_copied` behind the loop of `pthread_join`, over the first workers; the workers add
-- their sums under the mutex. `none`: one of them cannot be joined.
unfoldable pub join_workers : (barrier : Bool) → (num_workers : ℕ) → (ℕ → List Turn) → Option ℕ
unfolding worker_loop
join_workers barrier zero turns = some 0
join_workers barrier (suc i) turns =
    let before = join_workers barrier i turns in
    elim before [ none ↦ none | some total ↦ add_total barrier total (worker_loop (turns i) 0 []) ]

-- The division of C on `long`, by a positive number.
abbrev pub quot_ℤ : ℤ → ℕ → ℤ
quot_ℤ (pos n) d = pos (n / d)
quot_ℤ (negsuc n) d = sub_ℕ 0 (suc n / d)

abbrev pub rem_ℤ : ℤ → ℕ → ℤ
rem_ℤ (pos n) d = pos (n % d)
rem_ℤ (negsuc n) d = sub_ℕ 0 (suc n % d)

abbrev pub zeros : ℕ → Text
zeros zero = []
zeros (suc n) = b'0' ∷ zeros n

abbrev pub pad : ℕ → Text → Text
pad width s = zeros (width - length s) ++ s

-- "%0…ld"
unfoldable pub print_long : (width : ℕ) → ℤ → Text
unfolding digits
print_long width (pos n) = pad width (digits 19 n)
print_long width (negsuc n) = b'-' ∷ pad (width - 1) (digits 19 (suc n))

-- "%02ld:%02ld.%03ld"
unfoldable pub print_time : (milliseconds : ℤ) → Text
unfolding print_long
print_time milliseconds =
    let minutes = quot_ℤ milliseconds 60000 in
    let seconds = quot_ℤ (rem_ℤ milliseconds 60000) 1000 in
    print_long 2 minutes
    ++ (b':' ∷ print_long 2 seconds ++ (b'.' ∷ print_long 3 (rem_ℤ milliseconds 1000)))

-- The counters of the walk.
pub record Counters : Type 0 where
  pub num_regular_files : ℕ
  pub num_fifo_files : ℕ
  pub num_directories : ℕ

-- The lines of the statistics, around the numbers that are already printed.
abbrev pub statistics_text : (num_workers buffer_size : ℤ) → Counters → (bytes time : Text) → Text
statistics_text num_workers buffer_size c bytes time =
    codes "\n--------------- STATISTICS ---------------\nConsumers: "
    ++ (print_int num_workers
        ++ (codes " - Buffer Size: "
            ++ (print_int buffer_size
                ++ (codes "\nNumber of Regular Files: "
                    ++ (print_int (pos c.num_regular_files)
                        ++ (codes "\nNumber of FIFO Files: "
                            ++ (print_int (pos c.num_fifo_files)
                                ++ (codes "\nNumber of Directories: "
                                    ++ (print_int (pos c.num_directories)
                                        ++ (codes "\nTOTAL BYTES COPIED: "
                                            ++ (bytes
                                                ++ (codes "\nTOTAL TIME: "
                                                    ++ (time
                                                        ++ codes " (min:sec.milli)\n")))))))))))))

-- `milliseconds` is the product of `elapsed` and 1000, cut to a `long`. A size_t has twenty digits.
unfoldable pub print_statistics :
    (num_workers buffer_size : ℤ) → Counters → (total_bytes_copied : ℕ) → (milliseconds : ℤ) → Text
unfolding digits print_time
print_statistics num_workers buffer_size c total milliseconds =
    statistics_text num_workers buffer_size c (digits 20 total) (print_time milliseconds)

-- `main` leaves with a message on how to use it, waits for a thread for ever, or prints this at its
-- end.
pub data MainEnd : Type 0 where
  usage : Text → MainEnd
  still_joining : MainEnd
  finished : Text → MainEnd

abbrev pub print_usage : Text → Text
print_usage prog_name =
    codes "Usage: " ++ (prog_name ++ codes " <buffer_size> <num_workers> <src_dir> <dst_dir>\n")

abbrev pub goodbye : Text
goodbye = codes "Files are copy operation completed successfully.\nGoodbye!!!\n"

-- Behind the checks of the arguments. The manager is taken to have come to its end.
unfoldable pub run :
    (barrier : Bool)
    → (buffer_size num_workers : ℤ) → Counters
    → (ℕ → List Turn)
    → (milliseconds : ℤ) → MainEnd
unfolding join_workers print_statistics
run barrier buffer_size num_workers c turns milliseconds =
    elim (join_workers barrier (pos_part num_workers) turns) [
      | none ↦ still_joining
      | some total ↦
          finished (print_statistics num_workers buffer_size c total milliseconds ++ goodbye)
    ]

unfoldable pub main :
    (barrier : Bool)
    → (prog_name : Text) (args : List Text) → Counters
    → (ℕ → List Turn)
    → (milliseconds : ℤ) → MainEnd
unfolding atoi run
main barrier prog_name (size_arg ∷ workers_arg ∷ src_dir ∷ dst_dir ∷ []) c turns milliseconds =
    if ltb_ℤ (pos 0) (atoi size_arg) && ltb_ℤ (pos 0) (atoi workers_arg)
    then run barrier (atoi size_arg) (atoi workers_arg) c turns milliseconds
    else usage (print_usage prog_name)
main barrier prog_name _ c turns milliseconds = usage (print_usage prog_name)
