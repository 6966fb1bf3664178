-- ===== src/Mvcp/Buffer/Inv.antt =====
-- The representation invariant of `buffer_str`.
use cse_344_homeworks.Prelude.{
  ℕ, ◌+◌, ◌-◌, ◌%◌, ◌^◌, ◌≤◌, ◌<◌, ◌≡◌, Bool, List, arith, length, length-set,
}
use cse_344_homeworks.Prelude.Wrap.{wrap_next, wrap_shift}
use cse_344_homeworks.Mvcp.Buffer.{
  FileDescriptor, Buffer, buffer_init, buffer_add, buffer_remove, buffer_set_done,
}

abbrev pub int_max : ℕ
int_max = 2 ^ 31 - 1

pub record IsValid (b : Buffer) : Type 0 where
  pub slots : length b.fds ≡ b.size
  pub fits : b.size ≤ int_max
  pub in_range : b.in_pos < b.size
  pub out_range : b.out_pos < b.size
  pub count_range : b.count ≤ b.size
  pub linked : b.in_pos ≡ (b.out_pos + b.count) % b.size

pub buffer_init-IsValid :
    (junk : List FileDescriptor) (size : ℕ)
    → length junk ≡ size
    → 0 < size
    → size ≤ int_max
    → IsValid (buffer_init junk size)
unfolding buffer_init
buffer_init-IsValid junk size l p h = record {
  slots = l;
  fits = h;
  in_range = p;
  out_range = p;
  count_range = omega arith;
  linked = grind arith;
}

pub buffer_set_done-IsValid : {b : Buffer} → IsValid b → IsValid (buffer_set_done b)
unfolding buffer_set_done
buffer_set_done-IsValid v = ground arith

pub buffer_add-IsValid :
    {b : Buffer} (stop : Bool) (fd : FileDescriptor) → IsValid b → IsValid (buffer_add stop b fd).1
unfolding buffer_add
buffer_add-IsValid {b} stop fd v =
    ground (arith, length-set b.fds b.in_pos fd, wrap_next (b.out_pos + b.count) b.size)

pub buffer_remove-IsValid :
    {b : Buffer} (stop : Bool) → IsValid b → IsValid (buffer_remove stop b).1
unfolding buffer_remove
buffer_remove-IsValid {b} stop v = ground (arith, wrap_shift b.out_pos b.count b.size)
