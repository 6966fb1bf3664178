-- ===== src/Mvcp/Buffer/Fifo.antt =====
-- What the buffer promises: a first-in first-out queue of at most `cap` descriptors that can be
-- closed.
use cse_344_homeworks.Prelude.{
  ℕ, Bool, true, false, ◌||◌, List, [], ◌∷◌, ◌++◌, Option, none, some, ◌==◌, if◌then◌else◌, length,
}
use cse_344_homeworks.Mvcp.Buffer.{
  FileDescriptor, invalid, AddStatus, wait_not_full, dropped, added,
}

pub record Fifo : Type 0 where
  pub items : List FileDescriptor
  pub closed : Bool

-- `stop` is the interruption flag, under which a new descriptor is refused.
abbrev pub put : ℕ → Bool → Fifo → FileDescriptor → AddStatus × Fifo
put cap true q fd = (dropped, q)
put cap false q fd =
    if length q.items == cap
    then (wait_not_full, q)
    else (added, record q { items = q.items ++ (fd ∷ []) })

abbrev pub first : List FileDescriptor → Bool → Bool → Option FileDescriptor × Fifo
first (x ∷ xs) closed stop = (some x, record { items = xs; closed = closed })
first [] closed stop =
    (if closed || stop then some invalid else none, record { items = []; closed = closed })

-- An empty queue answers `invalid` once it is closed or interrupted, and makes its caller wait
-- before.
abbrev pub get : Bool → Fifo → Option FileDescriptor × Fifo
get stop q = first q.items q.closed stop

abbrev pub close : Fifo → Fifo
close q = record q { closed = true }
