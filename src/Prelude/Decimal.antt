-- ===== src/Prelude/Decimal.antt =====
-- Decimal printing, as "%d" of `printf` does it for an int.
use cse_344_homeworks.Prelude.{
  ℕ, zero, suc, ◌+◌, ◌/◌, ◌%◌, ◌≤◌, arith, [], ◌∷◌, ◌++◌, tests, ltb, if◌then◌else◌, length,
  length-append, Bool-cases, inl, inr, All,
}
use cse_344_homeworks.Prelude.Text.{Text}
use cse_344_homeworks.Prelude.Int.{ℤ, pos, negsuc}

-- The last `fuel` digits, without leading zeros.
unfoldable pub digits : (fuel n : ℕ) → Text
digits zero n = []
digits (suc fuel) n =
    let front = digits fuel (n / 10) in
    if ltb n 10 then (b'0' + n) ∷ [] else front ++ ((b'0' + n % 10) ∷ [])

-- An int has ten digits at most.
abbrev pub print_int : ℤ → Text
print_int (pos n) = digits 10 n
print_int (negsuc n) = b'-' ∷ digits 10 (suc n)

abbrev pub IsDigit : ℕ → Type 0
IsDigit c = (b'0' ≤ c) × (c ≤ b'9')

All-snoc : (s : Text) (c : ℕ) → All IsDigit s → IsDigit c → All IsDigit (s ++ (c ∷ []))
All-snoc [] c h hc = (hc, tt)
All-snoc (x ∷ s) c (hx, h) hc = (hx, All-snoc s c h hc)

pub digits-All : (fuel n : ℕ) → All IsDigit (digits fuel n)
unfolding digits
digits-All zero n = tt
digits-All (suc fuel) n = elim (Bool-cases (ltb n 10)) [
  | inl small ↦ rw small ((omega (tests, small), omega (tests, small)), tt)
  | inr big ↦ rw big (
      All-snoc (digits fuel (n / 10)) (b'0' + n % 10) (digits-All fuel (n / 10))
        (omega arith, omega arith))
]

pub length-digits : (fuel n : ℕ) → length (digits fuel n) ≤ fuel
unfolding digits
length-digits zero n = omega arith
length-digits (suc fuel) n = elim (Bool-cases (ltb n 10)) [
  | inl small ↦ rw small (omega arith)
  | inr big ↦
      rw (big, length-append (digits fuel (n / 10)) ((b'0' + n % 10) ∷ []))
        (omega (arith, length-digits fuel (n / 10)))
]
