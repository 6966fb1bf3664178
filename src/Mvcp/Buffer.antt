-- ===== src/Mvcp/Buffer.antt =====
-- hw5/src/200104004085_buffer.{h,c}: the bounded buffer of open file descriptors that the manager
-- fills and the workers empty. Each function is what one thread does under `buffer->mutex`, from
-- the test of its `while` on.
pub mod Inv
pub mod Fifo
pub mod Refine
pub mod Calls
pub mod Holds
pub mod Destroy
pub mod Contract
use cse_344_homeworks.Prelude.{
  ℕ, ◌+◌, ◌-◌, ◌%◌, Bool, true, false, not, ◌&&◌, ◌||◌, List, Option, none, some, ◌==◌,
  if◌then◌else◌, get_or, set, replicate,
}
use cse_344_homeworks.Prelude.Int.{ℤ, pos, negsuc}

pub record FileDescriptor : Type 0 where
  pub src_fd : ℤ
  pub dst_fd : ℤ

-- `(file_descriptor){-1, -1}`
abbrev pub invalid : FileDescriptor
invalid = record { src_fd = negsuc 0; dst_fd = negsuc 0 }

-- `buffer_str`; the fields `in` and `out` are `in_pos` and `out_pos`. Its mutex, condition
-- variables and barrier are the business of the modules that interleave threads.
pub record Buffer : Type 0 where
  pub fds : List FileDescriptor
  pub size : ℕ
  pub count : ℕ
  pub in_pos : ℕ
  pub out_pos : ℕ
  pub done : Bool

-- `malloc` leaves the slots undetermined: `junk` is what it hands out.
unfoldable pub buffer_init : List FileDescriptor → ℕ → Buffer
buffer_init junk size = record {
  fds = junk;
  size = size;
  count = 0;
  in_pos = 0;
  out_pos = 0;
  done = false;
}

pub data AddStatus : Type 0 where
  wait_not_full : AddStatus
  dropped : AddStatus
  added : AddStatus

-- The global flag `done` is the first argument. `wait_not_full` is a thread that goes to
-- `pthread_cond_wait`; it comes back to the test.
unfoldable pub buffer_add : Bool → Buffer → FileDescriptor → AddStatus × Buffer
buffer_add stop b fd =
    if (b.count == b.size) && not stop then (wait_not_full, b) else if stop then (dropped, b) else (
      added,
      record b {
        fds = set b.fds b.in_pos fd;
        in_pos = (b.in_pos + 1) % b.size;
        count = b.count + 1;
      },
    )

-- `none` is a thread that goes to `pthread_cond_wait` on `not_empty`.
unfoldable pub buffer_remove : Bool → Buffer → Option FileDescriptor × Buffer
buffer_remove stop b =
    if (b.count == 0) && not b.done && not stop
    then (none, b)
    else if (b.count == 0) && (b.done || stop)
    then (some invalid, b)
    else (
      some (get_or b.fds b.out_pos invalid),
      record b { out_pos = (b.out_pos + 1) % b.size; count = b.count - 1 },
    )

unfoldable pub buffer_set_done : Buffer → Buffer
buffer_set_done b = record b { done = true }
