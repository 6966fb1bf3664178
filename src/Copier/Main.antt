-- ===== src/Copier/Main.antt =====
-- hw4/src/200104004085_main.c, which has the text of that of hw5, and the whole of a worker of hw4,
-- which differs from one of hw5 in that it does not wait at a barrier.
use cse_344_homeworks.Prelude.{ℕ, false, List}
use cse_344_homeworks.Prelude.Text.{Text}
use cse_344_homeworks.Prelude.Int.{ℤ}
use cse_344_homeworks.Mvcp.Worker.{Bytes, WriteResult, WriteEnd, ReadResult, CopyEnd}
use cse_344_homeworks.Mvcp.Worker
use cse_344_homeworks.Mvcp.Main.{Turn, WorkerEnd, Counters, MainEnd}
use cse_344_homeworks.Mvcp.Main

abbrev pub write_all : List WriteResult → Bytes → Bytes → WriteEnd
write_all = Worker.write_all

abbrev pub copy_loop : List ReadResult → List WriteResult → Bytes → ℕ → CopyEnd
copy_loop = Worker.copy_loop

abbrev pub worker_loop : List Turn → ℕ → List Bytes → WorkerEnd
worker_loop = Main.worker_loop

abbrev pub print_statistics : (num_workers buffer_size : ℤ) → Counters → ℕ → ℤ → Text
print_statistics = Main.print_statistics

abbrev pub main :
    (prog_name : Text) (args : List Text)
    → Counters
    → (ℕ → List Turn)
    → (milliseconds : ℤ) → MainEnd
main = Main.main false
