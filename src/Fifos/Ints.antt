-- ===== src/Fifos/Ints.antt =====
-- hw2/main.c: ints as bytes, and arithmetic that wraps.
use native.Mathlib.Nat.{
  add-mul-mod_self_left, div-add-mod, mul_assoc, mul-one, add-mul, add_comm, mod-add-mod,
}
use cse_344_homeworks.Prelude.{
  ℕ, zero, suc, ◌+◌, ◌*◌, ◌/◌, ◌%◌, ◌^◌, ◌<◌, ◌≤◌, ◌≡◌, ◌∙◌, refl, sym, ap, arith, List, [], ◌∷◌,
  ◌++◌, some, map, length, All,
}
use cse_344_homeworks.Fifos.{
  Bytes, bytes_of, word, concat, read_int, read_numbers, sum_loop, multiply_loop,
}

pub word_bytes :
    (w : ℕ) → w < 2 ^ 32 → word (w % 256) (w / 256 % 256) (w / 65536 % 256) (w / 16777216 % 256) ≡ w
word_bytes w h = omega arith

-- What was written is read back.
pub read_int-bytes_of :
    (num w : ℕ) (rest : Bytes) → w < 2 ^ 32 → read_int num (bytes_of w ++ rest) ≡ some (w, rest)
unfolding read_int
read_int-bytes_of num w rest h = ap (λ v. some (v, rest)) (word_bytes w h)

abbrev pub product : List ℕ → ℕ
product [] = 1
product (x ∷ xs) = x * product xs

abbrev pub total : List ℕ → ℕ
total [] = 0
total (x ∷ xs) = x + total xs

pub mul-mod : (a b m : ℕ) → (a % m * b) % m ≡ (a * b) % m
mul-mod a b m =
    sym (add-mul-mod_self_left (a % m * b) m (a / m * b))
    ∙ ap (λ n. n % m)
        (ap (λ n. a % m * b + n) (sym (mul_assoc m (a / m) b))
          ∙ sym (add-mul (a % m) (m * (a / m)) b)
          ∙ ap (λ n. n * b) (add_comm (a % m) (m * (a / m)) ∙ div-add-mod a m))

pub multiply_loop-product :
    (xs : List ℕ) (r : ℕ) → multiply_loop xs (r % 2 ^ 32) ≡ (r * product xs) % 2 ^ 32
unfolding multiply_loop
multiply_loop-product [] r = ap (λ n. n % 2 ^ 32) (sym (mul-one r))
multiply_loop-product (x ∷ xs) r =
    ap (multiply_loop xs) (mul-mod r x (2 ^ 32))
    ∙ multiply_loop-product xs (r * x)
    ∙ ap (λ n. n % 2 ^ 32) (mul_assoc r x (product xs))

-- The numbers of a list are read back, and the rest is left.
pub read_numbers-bytes :
    (num : ℕ) (xs : List ℕ) (rest : Bytes)
    → All (λ x. x < 2 ^ 32) xs
    → read_numbers (length xs) num (concat (map bytes_of xs) ++ rest) ≡ (xs, rest)
unfolding read_numbers
read_numbers-bytes num [] rest h = refl
read_numbers-bytes num (x ∷ xs) rest (hx, hs) =
    rw (word_bytes x hx, read_numbers-bytes x xs rest hs) refl

-- The loop of child 1 adds up all that was written.
pub sum_loop-bytes :
    (fuel num : ℕ) (xs : List ℕ) (r : ℕ)
    → All (λ x. x < 2 ^ 32) xs
    → length xs ≤ fuel
    → sum_loop fuel num (concat (map bytes_of xs)) (r % 2 ^ 32) ≡ (r + total xs) % 2 ^ 32
unfolding sum_loop
sum_loop-bytes zero num [] r h le = ap (λ n. n % 2 ^ 32) (omega arith)
sum_loop-bytes zero num (x ∷ xs) r h le = absurd (omega arith)
sum_loop-bytes (suc fuel) num [] r h le = ap (λ n. n % 2 ^ 32) (omega arith)
sum_loop-bytes (suc fuel) num (x ∷ xs) r (hx, hs) le = rw (word_bytes x hx) (
    ap (sum_loop fuel x (concat (map bytes_of xs))) (mod-add-mod r (2 ^ 32) x)
    ∙ sum_loop-bytes fuel x xs (r + x) hs (omega arith)
    ∙ ap (λ n. n % 2 ^ 32) (omega arith))
