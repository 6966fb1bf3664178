-- ===== src/Mvcp/Main/Tests.antt =====
-- hw5 and hw4: a run of `main` with two workers, and what its arguments can be.
use cse_344_homeworks.Prelude.{ℕ, zero, suc, ◌≡◌, refl, true, List, [], ◌∷◌}
use cse_344_homeworks.Prelude.Text.{Text, codes}
use cse_344_homeworks.Prelude.Decimal.{digits}
use cse_344_homeworks.Prelude.Int.{pos, negsuc}
use cse_344_homeworks.Students.Scan.{atoi, scan_int, scan_digits, split_while, skip_space}
use cse_344_homeworks.Mvcp.Worker.{chunk, end_of_file, wrote, write_failed, copy_loop, write_all}
use cse_344_homeworks.Mvcp.Worker.Copy.{contents}
use cse_344_homeworks.Mvcp.Main.{
  Turn, no_more, file, Counters, main, usage, print_usage, still_joining, print_time, print_long,
  run, join_workers, worker_loop,
}
use cse_344_homeworks.Mvcp.Main.Report.{all_copied, sources}

abbrev found : Counters
found = record { num_regular_files = 3; num_fifo_files = 0; num_directories = 1 }

-- The first worker copies two files, the second fails at its first write.
abbrev two_workers : ℕ → List Turn
two_workers zero =
    file (chunk 1 (2 ∷ []) ∷ end_of_file ∷ []) (wrote 1 ∷ wrote 1 ∷ [])
    ∷ file (chunk 7 [] ∷ end_of_file ∷ []) (wrote 1 ∷ [])
    ∷ no_more
    ∷ []
two_workers (suc i) = file (chunk 5 [] ∷ []) (write_failed ∷ []) ∷ []

two_workers-all_copied : all_copied 2 two_workers ≡ 3
unfolding all_copied worker_loop copy_loop write_all sources contents
two_workers-all_copied = refl

-- With the barrier of hw5 the second worker is never joined.
with_barrier :
    main true
      (codes "MVCp")
      (codes "10" ∷ codes "2" ∷ codes "a" ∷ codes "b" ∷ [])
      found
      two_workers
      (pos 61005)
    ≡ still_joining
unfolding main run join_workers worker_loop copy_loop write_all atoi scan_int scan_digits
    split_while skip_space
with_barrier = refl

no_workers :
    main true
      (codes "MVCp")
      (codes "10" ∷ codes "-2" ∷ codes "a" ∷ codes "b" ∷ [])
      found
      two_workers
      (pos 0)
    ≡ usage (print_usage (codes "MVCp"))
unfolding main atoi scan_int scan_digits split_while skip_space
no_workers = refl

print_time_samples :
    (print_time (pos 61005) ≡ codes "01:01.005") × (print_time (negsuc 1499) ≡ codes "00:-1.-500")
unfolding print_time print_long digits
print_time_samples = (refl, refl)
