-- ===== src/Mvcp/Worker.antt =====
-- hw5/src/200104004085_worker.c: the loops of a worker that copy one file. What `read` and `write`
-- return is given by lists, in the order of the calls; a list that runs out is a call that has not
-- come back yet.
pub mod Copy
use cse_344_homeworks.Prelude.{
  ℕ, zero, suc, ◌+◌, List, [], ◌∷◌, ◌++◌, take, drop, length, Bool, true, false,
}

-- A byte is only moved, never computed with.
abbrev pub Bytes : Type 0
Bytes = List ℕ

-- `write`: the number of bytes written, -1 with EINTR, or -1 with another error.
pub data WriteResult : Type 0 where
  wrote : ℕ → WriteResult
  write_interrupted : WriteResult
  write_failed : WriteResult

-- `read`: bytes (one at least), 0, -1 with EINTR, or -1 with another error.
pub data ReadResult : Type 0 where
  chunk : ℕ → Bytes → ReadResult
  end_of_file : ReadResult
  read_interrupted : ReadResult
  read_failed : ReadResult

-- Where the loop over `write` stands, with the bytes that the destination has received and the
-- results of `write` that are not used yet.
pub data WriteEnd : Type 0 where
  written : Bytes → List WriteResult → WriteEnd
  failed : Bytes → WriteEnd
  writing : Bytes → WriteEnd

-- while (bytes_to_write > 0): `left` is what `write_ptr` and `bytes_to_write` still delimit.
unfoldable pub write_all : List WriteResult → Bytes → Bytes → WriteEnd
write_all ws [] out = written out ws
write_all [] (x ∷ left) out = writing out
write_all (wrote k ∷ ws) (x ∷ left) out =
    write_all ws (drop k (x ∷ left)) (out ++ take k (x ∷ left))
write_all (write_interrupted ∷ ws) (x ∷ left) out = write_all ws (x ∷ left) out
write_all (write_failed ∷ ws) (x ∷ left) out = failed out

-- How the copy of one file ends: all read (with `read_ok` false after the message "Failed to read
-- from source file"), the thread returned because a write failed, or a call that is still out.
pub data CopyEnd : Type 0 where
  copied : (read_ok : Bool) (out : Bytes) (total_bytes : ℕ) → CopyEnd
  gave_up : (out : Bytes) (total_bytes : ℕ) → CopyEnd
  blocked : (out : Bytes) (total_bytes : ℕ) → CopyEnd

-- while ((bytes_read = read(…)) > 0), with the test of `errno` behind it. The thread's
-- `total_bytes` runs on from one file to the next.
unfoldable pub copy_loop : List ReadResult → List WriteResult → Bytes → ℕ → CopyEnd
unfolding write_all
copy_loop [] ws out total = blocked out total
copy_loop (chunk x xs ∷ rs) ws out total = elim (write_all ws (x ∷ xs) out) [
  | written out' ws' ↦ copy_loop rs ws' out' (total + length (x ∷ xs))
  | failed out' ↦ gave_up out' total
  | writing out' ↦ blocked out' total
]
copy_loop (end_of_file ∷ rs) ws out total = copied true out total
copy_loop (read_interrupted ∷ rs) ws out total = copied true out total
copy_loop (read_failed ∷ rs) ws out total = copied false out total
