-- ===== src/Fifos/Order.antt =====
-- hw2/main.c: what child 2 reads depends on when the sum of child 1 arrives in the second FIFO.
use native.Mathlib.Nat.{add-mod-mod, one-mul, zero-add}
use cse_344_homeworks.Prelude.{
  ℕ, zero, suc, ◌+◌, ◌*◌, ◌%◌, ◌^◌, ◌<◌, ◌≤◌, ◌≡◌, ◌∙◌, refl, sym, ap, subst, arith, List, [], ◌∷◌,
  ◌++◌, some, map, take, drop, length, All,
}
use cse_344_homeworks.Prelude.Text.{codes, str_eq}
use cse_344_homeworks.Fifos.{
  Bytes, bytes_of, concat, child1, child2, c_string, parent_fifo1, parent_fifo2, fifo2,
  multiply_loop,
}
use cse_344_homeworks.Fifos.Ints.{
  product, total, word_bytes, read_numbers-bytes, sum_loop-bytes, multiply_loop-product,
}

-- The ints in the second FIFO, in their order.
abbrev arrivals : (place sum : ℕ) → List ℕ → List ℕ
arrivals place sum numbers = take place numbers ++ (sum ∷ drop place numbers)

abbrev command_bytes : Bytes
command_bytes = codes "multiply" ++ (0 ∷ [])

concat_last : (xs : List ℕ) → concat (parent_fifo2 xs) ≡ concat (map bytes_of xs) ++ command_bytes
concat_last [] = refl
concat_last (x ∷ xs) = rw (concat_last xs) refl

fifo2-arrivals :
    (place sum : ℕ) (xs : List ℕ)
    → place ≤ length xs
    → fifo2 place sum xs ≡ concat (map bytes_of (arrivals place sum xs)) ++ command_bytes
unfolding fifo2
fifo2-arrivals zero sum xs h = rw (concat_last xs) refl
fifo2-arrivals (suc place) sum [] h = absurd (omega arith)
fifo2-arrivals (suc place) sum (x ∷ xs) h = rw (fifo2-arrivals place sum xs (omega arith)) refl

product-arrivals :
    (place sum : ℕ) (xs : List ℕ) → product (arrivals place sum xs) ≡ sum * product xs
product-arrivals zero sum xs = refl
product-arrivals (suc place) sum [] = refl
product-arrivals (suc place) sum (x ∷ xs) = rw (product-arrivals place sum xs) (grind arith)

arrivals_below :
    (b place sum : ℕ) (xs : List ℕ)
    → sum < b
    → All (λ x. x < b) xs
    → All (λ x. x < b) (arrivals place sum xs)
arrivals_below b zero sum xs hs h = (hs, h)
arrivals_below b (suc place) sum [] hs h = (hs, h)
arrivals_below b (suc place) sum (x ∷ xs) hs (hx, h) = (hx, arrivals_below b place sum xs hs h)

length-arrivals : (place sum : ℕ) (xs : List ℕ) → length (arrivals place sum xs) ≡ suc (length xs)
length-arrivals zero sum xs = refl
length-arrivals (suc place) sum [] = refl
length-arrivals (suc place) sum (x ∷ xs) = ap suc (length-arrivals place sum xs)

multiply_product : (ys : List ℕ) → multiply_loop ys 1 ≡ product ys % 2 ^ 32
multiply_product ys = multiply_loop-product ys 1 ∙ ap (λ n. n % 2 ^ 32) (one-mul (product ys))

-- The first int is taken for the sum, the others for the numbers.
child2-words :
    (t num y : ℕ) (ys : List ℕ)
    → y < 2 ^ 32
    → All (λ x. x < 2 ^ 32) ys
    → child2 (length ys) t num (concat (map bytes_of (y ∷ ys)) ++ command_bytes)
      ≡ some (record {
        total_sum = y;
        command = codes "multiply";
        child2_result = product ys % 2 ^ 32;
        final_result = (y + product ys) % 2 ^ 32;
      })
unfolding child2 c_string str_eq
child2-words t num y ys hy h =
    rw
      (
        word_bytes y hy,
        read_numbers-bytes num ys command_bytes h,
        multiply_product ys,
        add-mod-mod y (product ys) (2 ^ 32),
      )
      refl

length-bytes : (xs : List ℕ) → length xs ≤ length (concat (map bytes_of xs))
length-bytes [] = omega arith
length-bytes (x ∷ xs) = omega (arith, length-bytes xs)

-- Child 1 computes the sum of the numbers that the parent writes to the first FIFO. If this sum is
-- the first thing in the second FIFO, child 2 prints it, the product of the numbers, and their sum
-- as the final result. If it comes after one number of the parent or more, but before the command,
-- child 2 prints the first number as the sum, and the product of the true sum and the other numbers
-- as the product. All of this is modulo 2 ^ 32, and holds for every number of numbers but zero.
pub fifos_order :
    (t num x : ℕ) (xs : List ℕ) (place : ℕ)
    → x < 2 ^ 32
    → All (λ n. n < 2 ^ 32) xs
    → place ≤ length xs
    → let numbers = x ∷ xs in
      let sum = child1 num (concat (parent_fifo1 numbers)) in
      let multiply = codes "multiply" in
      (sum ≡ total numbers % 2 ^ 32)
      × (child2 (length numbers) t num (fifo2 0 sum numbers)
          ≡ some (record {
            total_sum = sum;
            command = multiply;
            child2_result = product numbers % 2 ^ 32;
            final_result = (sum + product numbers) % 2 ^ 32;
          }))
      × (child2 (length numbers) t num (fifo2 (suc place) sum numbers)
          ≡ some (record {
            total_sum = x;
            command = multiply;
            child2_result = (sum * product xs) % 2 ^ 32;
            final_result = (x + sum * product xs) % 2 ^ 32;
          }))
unfolding child1
fifos_order t num x xs place hx h le =
    let numbers = x ∷ xs in
    let sum = child1 num (concat (parent_fifo1 numbers)) in
    let is_sum : sum ≡ total numbers % 2 ^ 32 =
      sum_loop-bytes (length (concat (map bytes_of numbers))) num numbers 0 (hx, h)
        (length-bytes numbers)
      ∙ ap (λ n. n % 2 ^ 32) (zero-add (total numbers)) in
    let sum_lt : sum < 2 ^ 32 = omega (arith, is_sum) in
    (
      is_sum,
      rw (fifo2-arrivals 0 sum numbers (omega arith))
          (child2-words t num sum numbers sum_lt (hx, h)),
      rw (fifo2-arrivals (suc place) sum numbers (omega arith), sym (product-arrivals place sum xs))
          (subst
            (λ n.
              child2 n t num (concat (map bytes_of (x ∷ arrivals place sum xs)) ++ command_bytes)
              ≡ some (record {
                total_sum = x;
                command = codes "multiply";
                child2_result = product (arrivals place sum xs) % 2 ^ 32;
                final_result = (x + product (arrivals place sum xs)) % 2 ^ 32;
              }))
            (length-arrivals place sum xs)
            (child2-words t num x (arrivals place sum xs) hx
              (arrivals_below (2 ^ 32) place sum xs sum_lt h))),
    )
