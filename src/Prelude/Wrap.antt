-- ===== src/Prelude/Wrap.antt =====
-- Indices that go round at a size, by `% size`.
use native.Mathlib.Nat.{mod-add-mod, mod-eq_of_lt, mod-eq-sub-mod}
use cse_344_homeworks.Prelude.{ℕ, suc, ◌+◌, ◌-◌, ◌%◌, ◌<◌, ◌≡◌, ◌≢◌, ◌∙◌, sym, ap, arith, dec_lt}

pub wrap_next : (a s : ℕ) → (a % s + 1) % s ≡ (a + 1) % s
wrap_next a s = mod-add-mod a s 1

pub wrap_shift : (o c s : ℕ) → 0 < c → ((o + 1) % s + (c - 1)) % s ≡ (o + c) % s
wrap_shift o c s h = mod-add-mod (o + 1) s (c - 1) ∙ ap (λ n. n % s) (omega arith)

pub wrap_suc : (o k s : ℕ) → (o + suc k) % s ≡ ((o + 1) % s + k) % s
wrap_suc o k s = ap (λ n. n % s) (omega arith) ∙ sym (mod-add-mod (o + 1) s k)

-- Fewer than `s` steps do not lead back.
pub wrap_ne : (o k s : ℕ) → o < s → suc k < s → (o + suc k) % s ≢ o
wrap_ne o k s h g = elim (dec_lt (o + suc k) s) [
  | yes small ↦ omega (arith, mod-eq_of_lt small)
  | no big ↦
      let low : o + suc k - s < s = omega arith in
      omega (arith, mod-eq-sub-mod {n = o + suc k} {m = s} (omega arith), mod-eq_of_lt low)
]
