-- ===== src/Fifos/Tests.antt =====
-- hw2/main.c: runs and witnesses.
use cse_344_homeworks.Prelude.{ℕ, ◌+◌, ◌*◌, ◌%◌, ◌^◌, ◌≡◌, refl, arith, List, [], ◌∷◌, some}
use cse_344_homeworks.Prelude.Text.{codes, str_eq}
use cse_344_homeworks.Fifos.{
  Reaped, exited, Child2, signal_handler, initial, proceeding, concat, child1, child2, fifo2,
  parent_fifo1, read_int, read_numbers, c_string, multiply_loop, sum_loop,
}
use cse_344_homeworks.Fifos.Order.{fifos_order}
use cse_344_homeworks.Fifos.Children.{proceeding-batches}

abbrev numbers : List ℕ
numbers = 2 ∷ 3 ∷ 4 ∷ []

sum_of_numbers : child1 7 (concat (parent_fifo1 numbers)) ≡ 9
unfolding child1 sum_loop read_int
sum_of_numbers = refl

abbrev seen : (total_sum child2_result final_result : ℕ) → Child2
seen total_sum child2_result final_result = record {
  total_sum = total_sum;
  command = codes "multiply";
  child2_result = child2_result;
  final_result = final_result;
}

in_order : child2 3 0 0 (fifo2 0 9 numbers) ≡ some (seen 9 24 33)
unfolding child2 fifo2 read_int read_numbers c_string str_eq multiply_loop
in_order = refl

sum_too_late : child2 3 0 0 (fifo2 2 9 numbers) ≡ some (seen 2 108 110)
unfolding child2 fifo2 read_int read_numbers c_string str_eq multiply_loop
sum_too_late = refl

-- After the command even, four of its letters are taken for a number.
sum_after_command :
    child2 3 0 0 (fifo2 4 9 numbers)
    ≡ some (record { total_sum = 2; command = codes "iply"; child2_result = 1; final_result = 3 })
unfolding child2 fifo2 read_int read_numbers c_string str_eq multiply_loop
sum_after_command = refl

-- Two children with even pids: the second result overwrites the first.
both_even :
    signal_handler (exited 10 9 ∷ exited 12 24 ∷ []) initial
    ≡ record { child_count = 2; child1_result = 24; child2_result = 1 }
unfolding signal_handler
both_even = refl

fifos_order_example :
    let sum = child1 7 (concat (parent_fifo1 numbers)) in
    (sum ≡ 9)
    × (child2 3 0 7 (fifo2 0 sum numbers) ≡ some (seen sum 24 ((sum + 24) % 2 ^ 32)))
    × (child2 3 0 7 (fifo2 2 sum numbers)
        ≡ some (seen 2 ((sum * 12) % 2 ^ 32) ((2 + sum * 12) % 2 ^ 32)))
fifos_order_example =
    fifos_order 0 7 2 (3 ∷ 4 ∷ []) 1 (omega arith) (omega arith, (omega arith, tt)) (omega arith)

abbrev batches : List (List Reaped)
batches = (exited 10 9 ∷ []) ∷ [] ∷ (exited 11 24 ∷ []) ∷ []

proceeding-batches_example :
    proceeding batches initial ≡ some (signal_handler (concat batches) initial)
proceeding-batches_example = proceeding-batches batches (omega arith)
