-- ===== src/Fifos.antt =====
-- hw2/main.c: a parent and two children that talk over two FIFOs. A FIFO is the sequence of bytes
-- that its writers put in, one `write` after the other; `read` takes as many as it asks for, or what
-- is left, and 0 at the end. An `int` is its bit pattern, below 2 ^ 32.
pub mod Ints
pub mod Order
pub mod Children
mod Tests
use cse_344_homeworks.Prelude.{
  ℕ, zero, suc, ◌+◌, ◌*◌, ◌/◌, ◌%◌, ◌^◌, Bool, true, false, List, [], ◌∷◌, ◌++◌, map, Option, none,
  some, take, drop, length, ltb, ◌==◌, if◌then◌else◌,
}
use cse_344_homeworks.Prelude.Text.{codes, str_eq}

abbrev pub Bytes : Type 0
Bytes = List ℕ

-- The four bytes of an int, the lowest first.
abbrev pub bytes_of : ℕ → Bytes
bytes_of w = w % 256 ∷ w / 256 % 256 ∷ w / 65536 % 256 ∷ w / 16777216 % 256 ∷ []

abbrev pub word : ℕ → ℕ → ℕ → ℕ → ℕ
word a b c d = a + 256 * b + 65536 * c + 16777216 * d

-- read(fd, &num, sizeof(num)): fewer bytes than four replace the low bytes of `num`.
unfoldable pub read_int : (num : ℕ) → Bytes → Option (ℕ × Bytes)
read_int num [] = none
read_int num (a ∷ []) = some (a + num / 256 * 256, [])
read_int num (a ∷ b ∷ []) = some (a + 256 * b + num / 65536 * 65536, [])
read_int num (a ∷ b ∷ c ∷ []) = some (word a b c (num / 16777216), [])
read_int num (a ∷ b ∷ c ∷ d ∷ rest) = some (word a b c d, rest)

-- `+=` and `*=` on an int, with the wrap that the processor makes of an overflow.
abbrev pub add32 : ℕ → ℕ → ℕ
add32 a b = (a + b) % 2 ^ 32

abbrev pub mul32 : ℕ → ℕ → ℕ
mul32 a b = (a * b) % 2 ^ 32

-- What `waitpid` tells of exit(result): the low eight bits.
abbrev pub exit_status : ℕ → ℕ
exit_status result = result % 256

-- Child 1, while (read(fd1, &num, sizeof(num)) > 0) child1_result += num. A read takes a byte at
-- least, so the number of bytes is enough fuel.
unfoldable pub sum_loop : (fuel num : ℕ) → Bytes → (child1_result : ℕ) → ℕ
unfolding read_int
sum_loop zero num fifo1 child1_result = child1_result
sum_loop (suc fuel) num fifo1 child1_result = elim (read_int num fifo1) [
  | none ↦ child1_result
  | some (num', rest) ↦ sum_loop fuel num' rest (add32 child1_result num')
]

-- The sum that child 1 writes to the second FIFO and exits with; `num` is not initialised.
unfoldable pub child1 : (num : ℕ) (fifo1 : Bytes) → ℕ
unfolding sum_loop
child1 num fifo1 = sum_loop (length fifo1) num fifo1 0

-- Child 2, while (count < array_size && read(fd2, &num, sizeof(num)) > 0) numbers[count++] = num:
-- the numbers that are read, and what is left. The first argument is array_size - count.
unfoldable pub read_numbers : (left num : ℕ) → Bytes → List ℕ × Bytes
unfolding read_int
read_numbers zero num fifo2 = ([], fifo2)
read_numbers (suc left) num fifo2 = elim (read_int num fifo2) [
  | none ↦ ([], fifo2)
  | some (num', rest) ↦
      let (numbers, rest') = read_numbers left num' rest in (num' ∷ numbers, rest')
]

-- A string ends at its first byte 0.
unfoldable pub c_string : Bytes → Bytes
c_string [] = []
c_string (c ∷ s) = if c == 0 then [] else c ∷ c_string s

unfoldable pub multiply_loop : List ℕ → (child2_result : ℕ) → ℕ
multiply_loop [] child2_result = child2_result
multiply_loop (x ∷ numbers) child2_result = multiply_loop numbers (mul32 child2_result x)

-- What child 2 prints, and exits with.
pub record Child2 : Type 0 where
  pub total_sum : ℕ
  pub command : Bytes
  pub child2_result : ℕ
  pub final_result : ℕ

-- `none` is exit(EXIT_FAILURE) after "Failed to read total sum". `total_sum` and `num` are not
-- initialised.
unfoldable pub child2 : (array_size total_sum num : ℕ) (fifo2 : Bytes) → Option Child2
unfolding read_int read_numbers c_string multiply_loop
child2 array_size total_sum num fifo2 = elim (read_int total_sum fifo2) [
  | none ↦ none
  | some (total_sum', rest) ↦
      let (numbers, rest') = read_numbers array_size num rest in
      let command = c_string (take 9 rest') in
      let result = if str_eq command (codes "multiply") then multiply_loop numbers 1 else 1 in
      some (record {
        total_sum = total_sum';
        command = command;
        child2_result = result;
        final_result = add32 total_sum' result;
      })
]

-- What the parent writes, write by write.
abbrev pub parent_fifo1 : List ℕ → List Bytes
parent_fifo1 numbers = map bytes_of numbers

abbrev pub parent_fifo2 : List ℕ → List Bytes
parent_fifo2 numbers = map bytes_of numbers ++ ((codes "multiply" ++ (0 ∷ [])) ∷ [])

abbrev pub concat : {A : Type 0} → List (List A) → List A
concat [] = []
concat (w ∷ ws) = w ++ concat ws

-- The second FIFO, when the write of child 1 comes after `place` writes of the parent. Each write is
-- shorter than PIPE_BUF, so it is not torn.
unfoldable pub fifo2 : (place sum : ℕ) → List ℕ → Bytes
fifo2 place sum numbers =
    concat (take place (parent_fifo2 numbers) ++ (bytes_of sum ∷ drop place (parent_fifo2 numbers)))

-- A child that `waitpid` returns: its pid, and its exit status, unless a signal has killed it.
pub data Reaped : Type 0 where
  exited : (pid exit_status : ℕ) → Reaped
  killed : (pid : ℕ) → Reaped

pub record Globals : Type 0 where
  pub child_count : ℕ
  pub child1_result : ℕ
  pub child2_result : ℕ

-- The loop of `signal_handler`, over the children that have ended by then.
unfoldable pub signal_handler : List Reaped → Globals → Globals
signal_handler [] g = g
signal_handler (exited pid status ∷ more) g =
    let counted = record g { child_count = g.child_count + 1 } in
    signal_handler more (
      if pid % 2 == 0
      then record counted { child1_result = status }
      else record counted { child2_result = status })
signal_handler (killed pid ∷ more) g = signal_handler more g

-- The parent before any child has ended.
abbrev pub initial : Globals
initial = record { child_count = 0; child1_result = 0; child2_result = 1 }

-- `proceeding`: each element is the batch of children that one run of the handler finds, and the
-- result is none while the loop still waits.
unfoldable pub proceeding : List (List Reaped) → Globals → Option Globals
unfolding signal_handler
proceeding [] g = if ltb g.child_count 2 then none else some g
proceeding (batch ∷ later) g =
    if ltb g.child_count 2 then proceeding later (signal_handler batch g) else some g
