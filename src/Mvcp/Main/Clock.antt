-- ===== src/Mvcp/Main/Clock.antt =====
-- hw5/src/200104004085_main.c: the time that `print_statistics` prints.
use native.Mathlib.Nat.{pow-suc}
use cse_344_homeworks.Prelude.{
  ℕ, zero, suc, ◌+◌, ◌-◌, ◌*◌, ◌/◌, ◌%◌, ◌^◌, ◌<◌, ◌≤◌, ◌≡◌, ◌∙◌, refl, arith, [], ◌∷◌, ◌++◌, true,
  ltb, Bool-cases, inl, inr, All, length, length-append,
}
use cse_344_homeworks.Prelude.Text.{Text}
use cse_344_homeworks.Prelude.Decimal.{digits, IsDigit, digits-All}
use cse_344_homeworks.Prelude.Int.{pos}
use cse_344_homeworks.Students.Scan.{value}
use cse_344_homeworks.Students.Scan.Printed.{value-digits}
use cse_344_homeworks.Mvcp.Main.{zeros, pad, print_long, print_time}

-- Minutes, two digits of seconds and three of milliseconds, which make up the time.
pub record IsClock (milliseconds : ℕ) (clock : Text) : Type 0 where
  pub minutes : Text
  pub seconds : Text
  pub millis : Text
  pub parts : clock ≡ minutes ++ (b':' ∷ seconds ++ (b'.' ∷ millis))
  pub minutes_digits : All IsDigit minutes × (2 ≤ length minutes)
  pub seconds_digits : All IsDigit seconds × (length seconds ≡ 2)
  pub millis_digits : All IsDigit millis × (length millis ≡ 3)
  pub below_60 : value seconds 0 < 60
  pub time : value minutes 0 * 60000 + value seconds 0 * 1000 + value millis 0 ≡ milliseconds

length-digits_le : (fuel k n : ℕ) → n < 10 ^ suc k → length (digits fuel n) ≤ suc k
unfolding digits
length-digits_le zero k n h = omega arith
length-digits_le (suc fuel) zero n h =
    let small : ltb n 10 ≡ true = ground arith in rw small (omega arith)
length-digits_le (suc fuel) (suc k) n h =
    let shorter = length-digits_le fuel k (n / 10) (omega (arith, pow-suc 10 (suc k))) in
    elim (Bool-cases (ltb n 10)) [
      | inl small ↦ rw small (omega arith)
      | inr big ↦
          rw (big, length-append (digits fuel (n / 10)) ((b'0' + n % 10) ∷ []))
            (omega (arith, shorter))
    ]

length-zeros : (n : ℕ) → length (zeros n) ≡ n
length-zeros zero = refl
length-zeros (suc n) = omega (arith, length-zeros n)

length-pad : (width : ℕ) (s : Text) → length (pad width s) ≡ (width - length s) + length s
length-pad width s =
    omega (arith, length-append (zeros (width - length s)) s, length-zeros (width - length s))

All-zeros : (n : ℕ) (s : Text) → All IsDigit s → All IsDigit (zeros n ++ s)
All-zeros zero s h = h
All-zeros (suc n) s h = ((omega arith, omega arith), All-zeros n s h)

value-zeros : (n : ℕ) (s : Text) → value (zeros n ++ s) 0 ≡ value s 0
value-zeros zero s = refl
value-zeros (suc n) s = value-zeros n s

value-pad : (width n : ℕ) → n < 10 ^ 19 → value (pad width (digits 19 n)) 0 ≡ n
value-pad width n h = value-zeros (width - length (digits 19 n)) (digits 19 n) ∙ value-digits 19 n h

All-pad : (width n : ℕ) → All IsDigit (pad width (digits 19 n))
All-pad width n = All-zeros (width - length (digits 19 n)) (digits 19 n) (digits-All 19 n)

-- A number that has no more digits than the width is printed in exactly this width.
length-pad_fits :
    (width n : ℕ) → n < 10 ^ suc width → length (pad (suc width) (digits 19 n)) ≡ suc width
length-pad_fits width n h =
    omega (arith, length-pad (suc width) (digits 19 n), length-digits_le 19 width n h)

-- A time that is not negative and fits into a `long` is printed as minutes, seconds below 60 and
-- milliseconds that make it up.
pub print_time-IsClock : (n : ℕ) → n < 2 ^ 63 → IsClock n (print_time (pos n))
unfolding print_time print_long
print_time-IsClock n h = record {
  minutes = pad 2 (digits 19 (n / 60000));
  seconds = pad 2 (digits 19 (n % 60000 / 1000));
  millis = pad 3 (digits 19 (n % 1000));
  parts = refl;
  minutes_digits = (All-pad 2 (n / 60000), omega (arith, length-pad 2 (digits 19 (n / 60000))));
  seconds_digits =
      (All-pad 2 (n % 60000 / 1000), length-pad_fits 1 (n % 60000 / 1000) (omega arith));
  millis_digits = (All-pad 3 (n % 1000), length-pad_fits 2 (n % 1000) (omega arith));
  below_60 = omega (arith, value-pad 2 (n % 60000 / 1000) (omega arith));
  time = omega (
    arith,
    value-pad 2 (n / 60000) (omega arith),
    value-pad 2 (n % 60000 / 1000) (omega arith),
    value-pad 3 (n % 1000) (omega arith),
  );
}
