-- ===== src/Students/Scan/Printed.antt =====
-- An int that is printed by "%d" is read back by "%d" and by `atoi`.
use native.Mathlib.Nat.{pow-suc}
use cse_344_homeworks.Prelude.{
  ℕ, zero, suc, ◌+◌, ◌-◌, ◌*◌, ◌/◌, ◌%◌, ◌^◌, ◌<◌, ◌≤◌, ◌≡◌, ◌∙◌, refl, sym, ap, subst, arith, Bool,
  true, false, [], ◌∷◌, ◌++◌, append-nil, some, ltb, ◌==◌, if◌then◌else◌, Bool-cases, inl, inr, All,
}
use cse_344_homeworks.Prelude.Text.{Text}
use cse_344_homeworks.Prelude.Decimal.{digits, print_int, IsDigit, digits-All}
use cse_344_homeworks.Prelude.Int.{ℤ, pos, negsuc, sub_ℕ}
use cse_344_homeworks.Students.Scan.{
  value, is_digit, is_space, skip_space, split_while, scan_digits, scan_int, is_empty, atoi,
}

value-snoc : (s : Text) (c n : ℕ) → value (s ++ (c ∷ [])) n ≡ 10 * value s n + (c - b'0')
value-snoc [] c n = refl
value-snoc (d ∷ s) c n = value-snoc s c (10 * n + (d - b'0'))

-- The digits of a number that has so many at most spell it.
pub value-digits : (fuel n : ℕ) → n < 10 ^ fuel → value (digits fuel n) 0 ≡ n
unfolding digits
value-digits zero n h = omega arith
value-digits (suc fuel) n h = elim (Bool-cases (ltb n 10)) [
  | inl small ↦ rw small (omega arith)
  | inr big ↦
      rw
        (
          big,
          value-snoc (digits fuel (n / 10)) (b'0' + n % 10) 0,
          value-digits fuel (n / 10) (omega (arith, pow-suc 10 fuel)),
        )
        (omega arith)
]

-- A text that does not go on with a digit.
abbrev pub Ends : Text → Type 0
Ends [] = Unit
Ends (c ∷ s) = is_digit c ≡ false

split_while-digits :
    (s rest : Text) → All IsDigit s → Ends rest → split_while is_digit (s ++ rest) ≡ (s, rest)
unfolding split_while
split_while-digits [] [] h e = refl
split_while-digits [] (c ∷ rest) h e = rw e refl
split_while-digits (d ∷ s) rest (hd, h) e =
    let digit : is_digit d ≡ true = ground (arith, hd) in
    rw (digit, split_while-digits s rest h e) refl

abbrev pub InRange : ℤ → Type 0
InRange (pos n) = n < 2 ^ 31
InRange (negsuc n) = n < 2 ^ 31

snoc_cons : (s : Text) (c : ℕ) → (d : ℕ) × (t : Text) × (s ++ (c ∷ []) ≡ d ∷ t)
snoc_cons [] c = (c, [], refl)
snoc_cons (x ∷ s) c = (x, s ++ (c ∷ []), refl)

first_digit : (fuel n : ℕ) → (d : ℕ) × (t : Text) × (digits (suc fuel) n ≡ d ∷ t)
unfolding digits
first_digit fuel n = elim (Bool-cases (ltb n 10)) [
  | inl small ↦ (b'0' + n, [], rw small refl)
  | inr big ↦ let (d, t, e) = snoc_cons (digits fuel (n / 10)) (b'0' + n % 10) in (d, t, rw big e)
]

scan_digits-digits :
    (negative : Bool) (n : ℕ) (rest : Text)
    → n ≤ 2 ^ 31
    → Ends rest
    → scan_digits negative (digits 10 n ++ rest)
      ≡ (some (if negative then sub_ℕ 0 n else pos n), rest)
unfolding scan_digits
scan_digits-digits negative n rest h e =
    let (d, t, starts) = first_digit 9 n in
    let filled : is_empty (digits 10 n) ≡ false = rw starts refl in
    rw
      (
        split_while-digits (digits 10 n) rest (digits-All 10 n) e,
        filled,
        value-digits 10 n (omega arith),
      )
      refl

scan_int-digit : (d : ℕ) (s : Text) → IsDigit d → scan_int (d ∷ s) ≡ scan_digits false (d ∷ s)
unfolding scan_int skip_space
scan_int-digit d s h =
    let dense : is_space d ≡ false = ground arith in
    let unsigned : (d == b'-') ≡ false = ground arith in
    let unsigned' : (d == b'+') ≡ false = ground arith in
    let kept : skip_space (d ∷ s) ≡ d ∷ s = rw (skip_space, dense) refl in
    rw (scan_int, kept, unsigned, unsigned') refl

-- A printed int is read back, whatever comes behind it but a digit.
pub scan_int-print_int :
    (z : ℤ) (rest : Text) → InRange z → Ends rest → scan_int (print_int z ++ rest) ≡ (some z, rest)
unfolding scan_int
scan_int-print_int (pos n) rest h e =
    let (d, t, starts) = first_digit 9 n in
    let (digit, _) : All IsDigit (d ∷ t) = subst (All IsDigit) starts (digits-All 10 n) in
    ap (λ s. scan_int (s ++ rest)) starts
    ∙ scan_int-digit d (t ++ rest) digit
    ∙ ap (λ s. scan_digits false (s ++ rest)) (sym starts)
    ∙ scan_digits-digits false n rest (omega arith) e
scan_int-print_int (negsuc n) rest h e =
    scan_digits-digits true (suc n) rest (omega arith) e ∙ ap (λ z. (some z, rest)) (ground arith)

pub scan_int-space : (s : Text) → scan_int (b' ' ∷ s) ≡ scan_int s
unfolding scan_int skip_space
scan_int-space s = refl

pub atoi-print_int : (z : ℤ) → InRange z → atoi (print_int z) ≡ z
unfolding atoi
atoi-print_int z h =
    let read = ap scan_int (sym (append-nil (print_int z))) ∙ scan_int-print_int z [] h tt in
    rw (atoi, read) refl
