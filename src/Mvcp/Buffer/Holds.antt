-- ===== src/Mvcp/Buffer/Holds.antt =====
-- A well-formed buffer that holds open descriptors only, as every buffer of the program does.
use cse_344_homeworks.Prelude.{
  ℕ, ◌<◌, ◌≤◌, ◌≡◌, ◌≢◌, ◌∙◌, Bool, false, List, [], ◌∷◌, arith, length, get_or, All, ap,
}
use cse_344_homeworks.Mvcp.Buffer.{
  FileDescriptor, invalid, Buffer, buffer_init, buffer_add, buffer_remove, buffer_set_done,
}
use cse_344_homeworks.Mvcp.Buffer.Inv.{int_max}
use cse_344_homeworks.Mvcp.Buffer.Fifo
use cse_344_homeworks.Mvcp.Buffer.Fifo.{Fifo}
use cse_344_homeworks.Mvcp.Buffer.Refine.{
  Represents, buffer_add_refines, buffer_remove_refines, buffer_set_done_refines,
  get_or_of_get_elem?,
}
use cse_344_homeworks.Mvcp.Buffer.Calls.{
  opened, is_sentinel, IsOpen, put-IsOpen, get-IsOpen, started-Represents,
}

pub record Holds (b : Buffer) : Type 0 where
  pub queue : Fifo
  pub represents : Represents b queue
  pub all_open : All IsOpen queue.items

pub buffer_init-Holds :
    (junk : List FileDescriptor) (size : ℕ)
    → length junk ≡ size
    → 0 < size
    → size ≤ int_max
    → Holds (buffer_init junk size)
buffer_init-Holds junk size l p h = record {
  queue = _;
  represents = started-Represents junk size l p h;
  all_open = tt;
}

pub buffer_add-Holds :
    {b : Buffer} (stop : Bool) (src dst : ℕ)
    → Holds b
    → Holds (buffer_add stop b (opened src dst)).1
buffer_add-Holds {b} stop src dst h = record {
  queue = (Fifo.put b.size stop h.queue (opened src dst)).1;
  represents = (buffer_add_refines stop (opened src dst) h.represents).1;
  all_open = put-IsOpen b.size h.queue src dst stop h.all_open;
}

pub buffer_remove-Holds : {b : Buffer} (stop : Bool) → Holds b → Holds (buffer_remove stop b).1
buffer_remove-Holds stop h = record {
  queue = (Fifo.get stop h.queue).1;
  represents = (buffer_remove_refines stop h.represents).1;
  all_open = (get-IsOpen h.queue.items h.queue.closed stop h.all_open).0;
}

pub buffer_set_done-Holds : {b : Buffer} → Holds b → Holds (buffer_set_done b)
buffer_set_done-Holds h = record {
  queue = Fifo.close h.queue;
  represents = buffer_set_done_refines h.represents;
  all_open = h.all_open;
}

head_open :
    (b : Buffer) (items : List FileDescriptor) (closed : Bool)
    → Represents b (record { items = items; closed = closed })
    → All IsOpen items
    → b.count ≢ 0
    → is_sentinel (get_or b.fds b.out_pos invalid) ≡ false
head_open b [] closed r o n = absurd (omega arith)
head_open b (x ∷ xs) closed r o n =
    ap is_sentinel (get_or_of_get_elem? b.fds b.out_pos x invalid r.slots.0) ∙ o.0

-- The descriptor that is next is not the sentinel.
pub Holds-next :
    {b : Buffer} → Holds b → b.count ≢ 0 → is_sentinel (get_or b.fds b.out_pos invalid) ≡ false
Holds-next {b} h = head_open b h.queue.items h.queue.closed h.represents h.all_open
