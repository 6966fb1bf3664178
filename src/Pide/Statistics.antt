-- ===== src/Pide/Statistics.antt =====
-- final/server.c: the loops of `main` that look for the busiest cook and the busiest courier.
use cse_344_homeworks.Prelude.{
  ℕ, suc, ◌+◌, ◌≤◌, ◌≡◌, refl, sym, ap, ◌∙◌, ◌⊎◌, inl, inr, List, [], ◌∷◌, some, get_elem?,
  if◌then◌else◌, ltb, All, arith, false, Bool-cases, ltb→lt,
}
use cse_344_homeworks.Prelude.Int.{ℤ, pos, negsuc}
use cse_344_homeworks.Pide.Shop.{Courier}

-- The loop from cook `i` on, with `max_cook_work` and `max_cook_id` so far; `cooks[i].id` is i.
unfoldable pub busiest_cook : List ℕ → ℕ → ℕ × ℤ → ℕ × ℤ
busiest_cook [] i (max_cook_work, max_cook_id) = (max_cook_work, max_cook_id)
busiest_cook (work_count ∷ cooks) i (max_cook_work, max_cook_id) =
    busiest_cook cooks (i + 1)
      (if ltb max_cook_work work_count then (work_count, pos i) else (max_cook_work, max_cook_id))

-- The test reads `delivery_count`, and `work_count` is kept.
unfoldable pub busiest_courier : List Courier → ℕ → ℕ × ℤ → ℕ × ℤ
busiest_courier [] i (max_delivery_work, max_delivery_id) = (max_delivery_work, max_delivery_id)
busiest_courier (c ∷ couriers) i (max_delivery_work, max_delivery_id) =
    busiest_courier couriers (i + 1) (
      if ltb max_delivery_work c.delivery_count
      then (c.work_count, pos i)
      else (max_delivery_work, max_delivery_id))

-- No cook has done more than the maximum, and it is that of the cook named, or what it was before.
abbrev pub IsBusiest : List ℕ → ℕ → ℕ × ℤ → ℕ × ℤ → Type 0
IsBusiest cooks i before result =
    All (λ n. n ≤ result.0) cooks
    × (before.0 ≤ result.0)
    × ((result ≡ before)
        ⊎ ((k : ℕ) × (get_elem? cooks k ≡ some result.0) × (result.1 ≡ pos (i + k))))

not_more : (m n : ℕ) → ltb m n ≡ false → n ≤ m
not_more m n h = ground arith

-- One round of the loop, which leaves `mid`.
IsBusiest-cons :
    (n i : ℕ) (cooks : List ℕ) (before mid result : ℕ × ℤ)
    → n ≤ mid.0
    → before.0 ≤ mid.0
    → (mid ≡ before) ⊎ (mid ≡ (n, pos i))
    → IsBusiest cooks (i + 1) mid result
    → IsBusiest (n ∷ cooks) i before result
IsBusiest-cons n i cooks before mid result p q which (all, low, from) = (
  (omega (arith, p, low), all),
  omega (arith, q, low),
  elim from [
    | inl same ↦ elim which [
      | inl old ↦ inl (same ∙ old)
      | inr new ↦
          let e = same ∙ new in
          inr (0, ap (λ r. some r.0) (sym e), ap (λ r. r.1) e ∙ ap pos (omega arith))
    ]
    | inr (k, there, id) ↦ inr (suc k, there, id ∙ ap pos (omega arith))
  ],
)

IsBusiest-from :
    (cooks : List ℕ) (i : ℕ) (before : ℕ × ℤ)
    → IsBusiest cooks i before (busiest_cook cooks i before)
unfolding busiest_cook
IsBusiest-from [] i before = (tt, omega arith, inl refl)
IsBusiest-from (n ∷ cooks) i (m, id) = elim (Bool-cases (ltb m n)) [
  | inl more ↦
      IsBusiest-cons n i cooks (m, id) (n, pos i) _ (omega arith) (omega (arith, ltb→lt m n more))
        (inr refl) (rw (busiest_cook, more) (IsBusiest-from cooks (i + 1) (n, pos i)))
  | inr less ↦
      IsBusiest-cons n i cooks (m, id) (m, id) _ (not_more m n less) (omega arith) (inl refl)
        (rw (busiest_cook, less) (IsBusiest-from cooks (i + 1) (m, id)))
]

-- The cook that `main` names as the most hardworking, with that number of orders, is one who has
-- taken so many, and nobody has taken more; with no order taken the number is 0 and the cook -1.
pub busiest_cook-IsBusiest :
    (cooks : List ℕ) → IsBusiest cooks 0 (0, negsuc 0) (busiest_cook cooks 0 (0, negsuc 0))
busiest_cook-IsBusiest cooks = IsBusiest-from cooks 0 (0, negsuc 0)
