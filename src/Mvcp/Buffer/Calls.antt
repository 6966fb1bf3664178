-- ===== src/Mvcp/Buffer/Calls.antt =====
-- The buffer under any interleaving of its callers: the critical sections of all threads, one
-- after the other, with the signal handler of hw5/src/200104004085_main.c among them.
use cse_344_homeworks.Prelude.{
  ℕ, ◌≡◌, refl, ◌∙◌, Bool, true, false, List, [], ◌∷◌, ◌++◌, append_assoc, append-nil, Option, some,
  ◌==◌, if◌then◌else◌, arith, length, ◌&&◌, All, ◌≤◌, ◌<◌, inl, inr, Bool-cases,
}
use cse_344_homeworks.Prelude.Int.{pos, negsuc, eq_ℤ}
use cse_344_homeworks.Mvcp.Buffer.{
  FileDescriptor, Buffer, AddStatus, added, buffer_add, buffer_remove, buffer_set_done, buffer_init,
}
use cse_344_homeworks.Mvcp.Buffer.Inv.{int_max, buffer_init-IsValid}
use cse_344_homeworks.Mvcp.Buffer.Fifo
use cse_344_homeworks.Mvcp.Buffer.Fifo.{Fifo}
use cse_344_homeworks.Mvcp.Buffer.Refine.{
  Represents, buffer_add_refines, buffer_remove_refines, buffer_set_done_refines,
}

abbrev pub sigint : ℕ
sigint = 2

-- The globals `buffer`, `done` and `interrupted`.
pub record Shared : Type 0 where
  pub buffer : Buffer
  pub stop : Bool
  pub interrupted : Bool

-- What a thread asks of the buffer. A descriptor that the manager adds comes from two calls of
-- `open` that did not fail, so it consists of two numbers.
pub data Call : Type 0 where
  add : (src dst : ℕ) → Call
  remove : Call
  set_done : Call
  signal : (sig : ℕ) → Call

pub data Reply : Type 0 where
  add_reply : AddStatus → Reply
  remove_reply : Option FileDescriptor → Reply
  silent : Reply

abbrev pub opened : ℕ → ℕ → FileDescriptor
opened src dst = record { src_fd = pos src; dst_fd = pos dst }

unfoldable pub handle_signal : ℕ → Shared → Shared
handle_signal sig s =
    if sig == sigint
    then record { buffer = buffer_set_done s.buffer; stop = true; interrupted = true }
    else s

unfoldable pub call : Shared → Call → Reply × Shared
call s (add src dst) =
    let (r, b) = buffer_add s.stop s.buffer (opened src dst) in
    (add_reply r, record s { buffer = b })
call s remove =
    let (r, b) = buffer_remove s.stop s.buffer in (remove_reply r, record s { buffer = b })
call s set_done = (silent, record s { buffer = buffer_set_done s.buffer })
call s (signal sig) = (silent, handle_signal sig s)

-- A schedule: the calls in the order in which they get the mutex, with their replies.
unfoldable pub run : Shared → List Call → List (Call × Reply) × Shared
run s [] = ([], s)
run s (c ∷ cs) = let (r, s') = call s c in let (rs, t) = run s' cs in ((c, r) ∷ rs, t)

-- worker.c takes this descriptor for the end of the work.
abbrev pub is_sentinel : FileDescriptor → Bool
is_sentinel fd = eq_ℤ fd.src_fd (negsuc 0) && eq_ℤ fd.dst_fd (negsuc 0)

abbrev pub stored : Call → Reply → List FileDescriptor
stored (add src dst) (add_reply added) = opened src dst ∷ []
stored _ _ = []

-- The descriptors that `buffer_add` stored.
abbrev pub accepted : List (Call × Reply) → List FileDescriptor
accepted [] = []
accepted ((c, r) ∷ l) = stored c r ++ accepted l

abbrev pub taken : Reply → List FileDescriptor
taken (remove_reply (some fd)) = if is_sentinel fd then [] else fd ∷ []
taken _ = []

-- The descriptors that `buffer_remove` returned, without the sentinel.
abbrev pub delivered : List (Call × Reply) → List FileDescriptor
delivered [] = []
delivered ((c, r) ∷ l) = taken r ++ delivered l

abbrev pub IsOpen : FileDescriptor → Type 0
IsOpen fd = is_sentinel fd ≡ false

-- What one call does to the queue, seen from the ledger.
record Moved (s : Shared) (q : Fifo) (c : Call) : Type 0 where
  queue : Fifo
  kept : Represents (call s c).1.buffer queue
  still_open : All IsOpen queue.items
  balance : q.items ++ stored c (call s c).0 ≡ taken (call s c).0 ++ queue.items

All-snoc {ℓ κ} :
    {A : Type ℓ} (P : A → Type κ) (xs : List A) (x : A) → All P xs → P x → All P (xs ++ (x ∷ []))
All-snoc P [] x h p = (p, tt)
All-snoc P (y ∷ xs) x h p = (h.0, All-snoc P xs x h.1 p)

module _ (cap : ℕ) (q : Fifo) (src dst : ℕ) where
  abbrev pub after : Bool → AddStatus × Fifo
  after stop = Fifo.put cap stop q (opened src dst)

  pub put-IsOpen : (stop : Bool) → All IsOpen q.items → All IsOpen (after stop).1.items
  put-IsOpen true o = o
  put-IsOpen false o = ground (arith, All-snoc IsOpen q.items (opened src dst) o (ground arith))

  put_balance :
      (stop : Bool)
      → q.items ++ stored (add src dst) (add_reply (after stop).0) ≡ (after stop).1.items
  put_balance true = append-nil q.items
  put_balance false = ground (arith, append-nil q.items)

pub get-IsOpen :
    (items : List FileDescriptor) (closed stop : Bool)
    → All IsOpen items
    → let (r, q') = Fifo.first items closed stop in
      All IsOpen q'.items × (items ≡ taken (remove_reply r) ++ q'.items)
get-IsOpen [] closed stop o = (tt, ground arith)
get-IsOpen (x ∷ xs) closed stop o = (o.1, ground arith)

call-Moved :
    (s : Shared) (q : Fifo) (c : Call) → Represents s.buffer q → All IsOpen q.items → Moved s q c
unfolding call
call-Moved s q (add src dst) r o = record {
  queue = (Fifo.put s.buffer.size s.stop q (opened src dst)).1;
  kept = (buffer_add_refines s.stop (opened src dst) r).1;
  still_open = put-IsOpen s.buffer.size q src dst s.stop o;
  balance =
      rw ((buffer_add_refines s.stop (opened src dst) r).0)
        (put_balance s.buffer.size q src dst s.stop);
}
call-Moved s q remove r o = record {
  queue = (Fifo.get s.stop q).1;
  kept = (buffer_remove_refines s.stop r).1;
  still_open = (get-IsOpen q.items q.closed s.stop o).0;
  balance =
      rw ((buffer_remove_refines s.stop r).0)
        (append-nil q.items ∙ (get-IsOpen q.items q.closed s.stop o).1);
}
call-Moved s q set_done r o = record {
  queue = Fifo.close q;
  kept = buffer_set_done_refines r;
  still_open = o;
  balance = append-nil q.items;
}
call-Moved s q (signal sig) r o = elim (Bool-cases (sig == sigint)) [
  | inl hit ↦ record {
    queue = Fifo.close q;
    kept = unfold handle_signal in rw (hit, handle_signal) (buffer_set_done_refines r);
    still_open = o;
    balance = append-nil q.items;
  }
  | inr miss ↦ record {
    queue = q;
    kept = unfold handle_signal in rw (miss, handle_signal) r;
    still_open = o;
    balance = append-nil q.items;
  }
]

pub run_delivers :
    (calls : List Call) (s : Shared) (q : Fifo)
    → Represents s.buffer q
    → All IsOpen q.items
    → let (log, t) = run s calls in
      (q' : Fifo) × Represents t.buffer q' × (q.items ++ accepted log ≡ delivered log ++ q'.items)
unfolding run
run_delivers [] s q r o = (q, r, append-nil q.items)
run_delivers (c ∷ calls) s q r o =
    let m = call-Moved s q c r o in
    let (q', kept, rest) = run_delivers calls (call s c).1 m.queue m.kept m.still_open in
    let log = (run (call s c).1 calls).0 in
    (
      q',
      kept,
      cc (
        m.balance,
        rest,
        append_assoc q.items (stored c (call s c).0) (accepted log),
        append_assoc (taken (call s c).0) m.queue.items (accepted log),
        append_assoc (taken (call s c).0) (delivered log) q'.items,
      ),
    )

-- The buffer as `main` sets it up.
abbrev pub started : List FileDescriptor → ℕ → Shared
started junk size = record { buffer = buffer_init junk size; stop = false; interrupted = false }

pub started-Represents :
    (junk : List FileDescriptor) (size : ℕ)
    → length junk ≡ size
    → 0 < size
    → size ≤ int_max
    → Represents (started junk size).buffer (record { items = []; closed = false })
unfolding buffer_init
started-Represents junk size l p h = record {
  valid = buffer_init-IsValid junk size l p h;
  held = refl;
  flag = refl;
  slots = tt;
}

-- Whatever order the manager, the workers and the signal handler get the mutex in, from the buffer
-- that `buffer_init` sets up: the descriptors that `buffer_add` stored are, in their order and each
-- once, those that `buffer_remove` handed out, followed by those that are still in the buffer.
pub exactly_once :
    (calls : List Call) (junk : List FileDescriptor) (size : ℕ)
    → length junk ≡ size
    → 0 < size
    → size ≤ int_max
    → let (log, t) = run (started junk size) calls in
      (q : Fifo) × Represents t.buffer q × (accepted log ≡ delivered log ++ q.items)
exactly_once calls junk size l p h =
    run_delivers calls (started junk size) _ (started-Represents junk size l p h) tt
