-- ===== src/Mvcp/Buffer/Destroy.antt =====
-- `buffer_destroy` of hw5, and of hw4, which does not test for -1: what is closed, in order.
use native.Mathlib.Nat.{mod-eq_of_lt}
use cse_344_homeworks.Prelude.{
  ℕ, zero, suc, ◌+◌, ◌%◌, ◌≡◌, ◌∙◌, refl, sym, ap, subst, List, [], ◌∷◌, ◌++◌, arith, length,
  get_or, get_elem?, some, if◌then◌else◌,
}
use cse_344_homeworks.Prelude.Int.{ℤ, negsuc, eq_ℤ}
use cse_344_homeworks.Prelude.Wrap.{wrap_next}
use cse_344_homeworks.Mvcp.Buffer.{FileDescriptor, invalid, Buffer}
use cse_344_homeworks.Mvcp.Buffer.Fifo.{Fifo}
use cse_344_homeworks.Mvcp.Buffer.Refine.{Represents, Slots, get_or_of_get_elem?}

-- `if (fd != -1) close(fd);`
abbrev pub close_open : ℤ → List ℤ
close_open fd = if eq_ℤ fd (negsuc 0) then [] else fd ∷ []

abbrev pub close_both : FileDescriptor → List ℤ
close_both fd = close_open fd.src_fd ++ close_open fd.dst_fd

-- The same without the tests, in hw4.
abbrev pub close_any : FileDescriptor → List ℤ
close_any fd = fd.src_fd ∷ fd.dst_fd ∷ []

module _ (close : FileDescriptor → List ℤ) where
  -- for (int i = 0; i < buffer->count; i++), with `left` rounds to go.
  unfoldable pub close_loop : (left i : ℕ) → Buffer → List ℤ
  close_loop zero i b = []
  close_loop (suc left) i b =
      close (get_or b.fds ((b.out_pos + i) % b.size) invalid) ++ close_loop left (i + 1) b

abbrev pub buffer_destroy : Buffer → List ℤ
buffer_destroy b = close_loop close_both b.count 0 b

abbrev pub buffer_destroy_hw4 : Buffer → List ℤ
buffer_destroy_hw4 b = close_loop close_any b.count 0 b

abbrev pub closes : (FileDescriptor → List ℤ) → List FileDescriptor → List ℤ
closes close [] = []
closes close (fd ∷ items) = close fd ++ closes close items

close_loop-Slots :
    (close : FileDescriptor → List ℤ) (b : Buffer) (items : List FileDescriptor) (i pos : ℕ)
    → pos ≡ (b.out_pos + i) % b.size
    → Slots b.fds b.size pos items
    → close_loop close (length items) i b ≡ closes close items
unfolding close_loop
close_loop-Slots close b [] i pos e s = refl
close_loop-Slots close b (x ∷ items) i pos e (here, rest) =
    let slot : get_or b.fds ((b.out_pos + i) % b.size) invalid ≡ x =
      get_or_of_get_elem? b.fds _ x invalid (subst (λ p. get_elem? b.fds p ≡ some x) e here) in
    let onward : (pos + 1) % b.size ≡ (b.out_pos + (i + 1)) % b.size =
      ap (λ p. (p + 1) % b.size) e
      ∙ wrap_next (b.out_pos + i) b.size
      ∙ ap (λ n. n % b.size) (omega arith) in
    rw (slot, close_loop-Slots close b items (i + 1) ((pos + 1) % b.size) onward rest) refl

-- `buffer_destroy` closes the descriptors of each pair that is still in the buffer, in the order of
-- the queue and once, in hw5 those that are not -1 and in hw4 all; what the unused slots hold is not
-- closed.
pub buffer_destroy_lem :
    {b : Buffer} {q : Fifo}
    → Represents b q
    → (buffer_destroy b ≡ closes close_both q.items)
      × (buffer_destroy_hw4 b ≡ closes close_any q.items)
buffer_destroy_lem {b} {q} r =
    let begins : b.out_pos ≡ (b.out_pos + 0) % b.size =
      sym (ap (λ n. n % b.size) (omega arith) ∙ mod-eq_of_lt r.valid.out_range) in
    (
      ap (λ n. close_loop close_both n 0 b) (sym r.held)
          ∙ close_loop-Slots close_both b q.items 0 b.out_pos begins r.slots,
      ap (λ n. close_loop close_any n 0 b) (sym r.held)
          ∙ close_loop-Slots close_any b q.items 0 b.out_pos begins r.slots,
    )
