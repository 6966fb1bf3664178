-- ===== src/Prelude/Text.antt =====
-- Texts as lists of byte values, with the tests of <string.h> that the programs use.
use Prim.Native.Char.{code}
use Prim.Native.String.{String}
use cse_344_homeworks.Prelude.{
  ℕ, ◌≡◌, ◌↔◌, refl, Bool, true, false, ◌&&◌, List, [], ◌∷◌, ◌++◌, arith, ◌==◌,
}

abbrev pub Text : Type 0
Text = List ℕ

-- The bytes of a literal, if it is ASCII. `String` has its own `[]` and `∷`.
abbrev pub codes : String → Text
codes String.[] = []
codes (String.◌∷◌ c s) = code c ∷ codes s

-- strcmp(a, b) == 0
unfoldable pub str_eq : Text → Text → Bool
str_eq [] [] = true
str_eq (x ∷ a) (y ∷ b) = (x == y) && str_eq a b
str_eq _ _ = false

-- strncmp(a, b, strlen(b)) == 0
unfoldable pub starts_with : Text → Text → Bool
starts_with a [] = true
starts_with [] (y ∷ b) = false
starts_with (x ∷ a) (y ∷ b) = (x == y) && starts_with a b

pub str_eq_refl : (a : Text) → str_eq a a ≡ true
unfolding str_eq
str_eq_refl [] = refl
str_eq_refl (x ∷ a) = ground (arith, str_eq_refl a)

pub eq_of_str_eq : (a b : Text) → str_eq a b ≡ true → a ≡ b
unfolding str_eq
eq_of_str_eq [] [] h = refl
eq_of_str_eq [] (y ∷ b) h = ground arith
eq_of_str_eq (x ∷ a) [] h = ground arith
eq_of_str_eq (x ∷ a) (y ∷ b) h = ground (arith, eq_of_str_eq a b)

pub str_eq_iff : (a b : Text) → (str_eq a b ≡ true) ↔ (a ≡ b)
str_eq_iff a b = (eq_of_str_eq a b, λ e. str_eq_of_eq a b e)
  where
    str_eq_of_eq : (a b : Text) → a ≡ b → str_eq a b ≡ true
    str_eq_of_eq a b e = rw e (str_eq_refl b)

pub starts_with-append : (a b : Text) → starts_with (a ++ b) a ≡ true
unfolding starts_with
starts_with-append [] b = refl
starts_with-append (x ∷ a) b = ground (arith, starts_with-append a b)

pub starts_with_rest : (a b : Text) → starts_with a b ≡ true → (rest : Text) × (a ≡ b ++ rest)
unfolding starts_with
starts_with_rest a [] h = (a, refl)
starts_with_rest [] (y ∷ b) h = ground arith
starts_with_rest (x ∷ a) (y ∷ b) h =
    let (rest, e) = starts_with_rest a b (ground arith) in (rest, ground arith)
