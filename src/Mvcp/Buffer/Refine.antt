-- ===== src/Mvcp/Buffer/Refine.antt =====
-- The circular buffer behaves as the queue of what it holds.
use native.Mathlib.Nat.{mod-eq_of_lt}
use cse_344_homeworks.Prelude.{
  ℕ, zero, suc, ◌+◌, ◌%◌, ◌<◌, ◌≡◌, refl, ◌∙◌, Bool, true, false, List, [], ◌∷◌, ◌++◌, some, arith,
  length, length-append, get_elem?, get_or, set, get_elem?-set_self, get_elem?-set_ne, sym,
  ℕ_discrete,
}
use cse_344_homeworks.Prelude.Wrap.{wrap_suc, wrap_ne}
use cse_344_homeworks.Mvcp.Buffer.{
  FileDescriptor, invalid, Buffer, buffer_add, buffer_remove, buffer_set_done,
}
use cse_344_homeworks.Mvcp.Buffer.Inv.{
  IsValid, buffer_add-IsValid, buffer_remove-IsValid, buffer_set_done-IsValid,
}
use cse_344_homeworks.Mvcp.Buffer.Fifo
use cse_344_homeworks.Mvcp.Buffer.Fifo.{Fifo}

-- The slots from `pos` on, going round at `size`, hold the list.
abbrev pub Slots : List FileDescriptor → ℕ → ℕ → List FileDescriptor → Type 0
Slots fds size pos [] = Unit
Slots fds size pos (x ∷ q) = (get_elem? fds pos ≡ some x) × Slots fds size ((pos + 1) % size) q

pub record Represents (b : Buffer) (q : Fifo) : Type 0 where
  pub valid : IsValid b
  pub held : length q.items ≡ b.count
  pub flag : q.closed ≡ b.done
  pub slots : Slots b.fds b.size b.out_pos q.items

Slots-set :
    (fds : List FileDescriptor) (size : ℕ) (x : FileDescriptor) (q : List FileDescriptor)
    (pos i : ℕ)
    → length fds ≡ size
    → pos < size
    → length q < size
    → i ≡ (pos + length q) % size
    → Slots fds size pos q
    → Slots (set fds i x) size pos (q ++ (x ∷ []))
Slots-set fds size x [] pos i l p h e s =
    let here : i ≡ pos = grind (arith, mod-eq_of_lt p) in
    rw here (get_elem?-set_self fds pos x (omega arith), tt)
Slots-set fds size x (y ∷ q) pos i l p h e s = (
  get_elem?-set_ne fds x (λ c. wrap_ne pos (length q) size p h (sym e ∙ c)) ∙ s.0,
  Slots-set fds size x q ((pos + 1) % size) i l (omega arith) (omega arith)
      (e ∙ wrap_suc pos (length q) size) s.1,
)

-- With an occupied slot at `pos`, a read there yields its descriptor.
pub get_or_of_get_elem? :
    (fds : List FileDescriptor) (pos : ℕ) (x d : FileDescriptor)
    → get_elem? fds pos ≡ some x
    → get_or fds pos d ≡ x
get_or_of_get_elem? [] pos x d e = cc
get_or_of_get_elem? (y ∷ fds) zero x d e = cc
get_or_of_get_elem? (y ∷ fds) (suc pos) x d e = get_or_of_get_elem? fds pos x d e

buffer_add_cases :
    {b : Buffer} {q : Fifo} (stop : Bool) (fd : FileDescriptor)
    → Represents b q
    → let (s, b') = buffer_add stop b fd in
      let (s', q') = Fifo.put b.size stop q fd in
      (s ≡ s')
      × (length q'.items ≡ b'.count)
      × (q'.closed ≡ b'.done)
      × Slots b'.fds b'.size b'.out_pos q'.items
unfolding buffer_add
buffer_add_cases true fd r = ground arith
buffer_add_cases {b} {q} false fd r = elim (ℕ_discrete b.count b.size) [
  | yes full ↦ ground arith
  | no room ↦
      ground (
        arith,
        length-append q.items (fd ∷ []),
        Slots-set b.fds b.size fd q.items b.out_pos b.in_pos,
      )
]

buffer_remove_cases :
    (b : Buffer) (items : List FileDescriptor) (closed stop : Bool)
    → Represents b (record { items = items; closed = closed })
    → let (o, b') = buffer_remove stop b in
      let (o', q') = Fifo.first items closed stop in
      (o ≡ o')
      × (length q'.items ≡ b'.count)
      × (q'.closed ≡ b'.done)
      × Slots b'.fds b'.size b'.out_pos q'.items
unfolding buffer_remove
buffer_remove_cases b [] closed stop r = ground arith
buffer_remove_cases b (x ∷ items) closed stop r =
    ground (arith, r.slots, get_or_of_get_elem? b.fds b.out_pos x invalid r.slots.0)

-- A buffer that represents a queue: under either value of the global `done`, `buffer_add` waits,
-- drops or stores exactly as `Fifo.put` does at the capacity `size`, and leaves a well-formed buffer
-- that represents the queue that `Fifo.put` leaves.
pub buffer_add_refines :
    {b : Buffer} {q : Fifo} (stop : Bool) (fd : FileDescriptor)
    → Represents b q
    → let (s, b') = buffer_add stop b fd in
      let (s', q') = Fifo.put b.size stop q fd in (s ≡ s') × Represents b' q'
buffer_add_refines stop fd r =
    let (same, held, flag, slots) = buffer_add_cases stop fd r in
    (
      same,
      record {
        valid = buffer_add-IsValid stop fd r.valid;
        held = held;
        flag = flag;
        slots = slots;
      },
    )

-- A buffer that represents a queue: under either value of the global `done`, `buffer_remove` waits
-- or returns exactly what `Fifo.get` does, the oldest descriptor or the sentinel, and leaves a
-- well-formed buffer that represents the queue that `Fifo.get` leaves.
pub buffer_remove_refines :
    {b : Buffer} {q : Fifo} (stop : Bool)
    → Represents b q
    → let (o, b') = buffer_remove stop b in
      let (o', q') = Fifo.get stop q in (o ≡ o') × Represents b' q'
buffer_remove_refines {b} {q} stop r =
    let (same, held, flag, slots) = buffer_remove_cases b q.items q.closed stop r in
    (
      same,
      record {
        valid = buffer_remove-IsValid stop r.valid;
        held = held;
        flag = flag;
        slots = slots;
      },
    )

pub buffer_set_done_refines :
    {b : Buffer} {q : Fifo} → Represents b q → Represents (buffer_set_done b) (Fifo.close q)
unfolding buffer_set_done
buffer_set_done_refines r = record {
  valid = unfold buffer_set_done in buffer_set_done-IsValid r.valid;
  held = r.held;
  flag = refl;
  slots = r.slots;
}
