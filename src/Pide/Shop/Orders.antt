-- ===== src/Pide/Shop/Orders.antt =====
-- The states of the orders in the array, before and after a write.
use cse_344_homeworks.Prelude.{
  ℕ, zero, suc, ◌+◌, ◌<◌, ◌≡◌, ◌≢◌, refl, ap, ◌∙◌, subst, List, [], ◌∷◌, ◌++◌, Option, none, some,
  length, take, leb, if◌then◌else◌, arith, append-nil, Bool-cases, inl, inr,
}
use cse_344_homeworks.Pide.Queue.{Order}
use cse_344_homeworks.Pide.Shop.{
  modify, first_in_state, Shop, placed, expand_order_array, placed_over, handle_client,
}

abbrev pub state_at : List Order → ℕ → Option ℕ
state_at [] i = none
state_at (o ∷ l) zero = some o.state
state_at (o ∷ l) (suc i) = state_at l i

pub first_in_state-state_at :
    (st : ℕ) (l : List Order) (i : ℕ) → first_in_state st l ≡ some i → state_at l i ≡ some st
unfolding first_in_state
first_in_state-state_at st [] i e = ground arith
first_in_state-state_at st (o ∷ l) zero e = ground (arith, e)
first_in_state-state_at st (o ∷ l) (suc i) e = ground (arith, e, first_in_state-state_at st l i)

module _ {ℓ} {A : Type ℓ} where
  pub take-modify :
      (n i : ℕ) (f : A → A) (l : List A) → take n (modify f i l) ≡ modify f i (take n l)
  take-modify zero i f l = refl
  take-modify (suc n) i f [] = refl
  take-modify (suc n) zero f (x ∷ l) = refl
  take-modify (suc n) (suc i) f (x ∷ l) = ap (λ m. x ∷ m) (take-modify n i f l)

pub state_at-modify :
    (f : Order → Order) (st : ℕ) (i : ℕ) (l : List Order) (old : ℕ)
    → ((o : Order) → (f o).state ≡ st)
    → state_at l i ≡ some old
    → state_at (modify f i l) i ≡ some st
state_at-modify f st i [] old h e = ground arith
state_at-modify f st zero (o ∷ l) old h e = ap some (h o)
state_at-modify f st (suc i) (o ∷ l) old h e = state_at-modify f st i l old h e

pub state_at-modify_ne :
    (f : Order → Order) (i j : ℕ) (l : List Order)
    → i ≢ j
    → state_at (modify f i l) j ≡ state_at l j
state_at-modify_ne f i j [] p = refl
state_at-modify_ne f zero zero (o ∷ l) p = absurd (p refl)
state_at-modify_ne f zero (suc j) (o ∷ l) p = refl
state_at-modify_ne f (suc i) zero (o ∷ l) p = refl
state_at-modify_ne f (suc i) (suc j) (o ∷ l) p = state_at-modify_ne f i j l (λ e. p (ap suc e))

pub state_at-lt : (n j st : ℕ) (l : List Order) → state_at (take n l) j ≡ some st → j < n
state_at-lt zero j st l e = ground arith
state_at-lt (suc n) j st [] e = ground arith
state_at-lt (suc n) zero st (o ∷ l) e = omega arith
state_at-lt (suc n) (suc j) st (o ∷ l) e = omega (arith, state_at-lt n j st l e)

state_at-longer :
    (n j st : ℕ) (l m : List Order)
    → state_at (take n l) j ≡ some st
    → state_at (take (suc n) (l ++ m)) j ≡ some st
state_at-longer zero j st l m e = ground arith
state_at-longer (suc n) j st [] m e = ground arith
state_at-longer (suc n) zero st (o ∷ l) m e = e
state_at-longer (suc n) (suc j) st (o ∷ l) m e = state_at-longer n j st l m e

state_at-room :
    (junk : ℕ → Order) (n j st : ℕ) (l : List Order)
    → state_at (take n l) j ≡ some st
    → state_at (take (n + 1) (if leb (length l) n then expand_order_array junk l else l)) j
      ≡ some st
unfolding expand_order_array
state_at-room junk n j st l e =
    let more : suc n ≡ n + 1 = omega arith in
    let grown : (m : List Order) → state_at (take (n + 1) (l ++ m)) j ≡ some st = λ m.
      subst (λ k. state_at (take k (l ++ m)) j ≡ some st) more (state_at-longer n j st l m e) in
    elim (Bool-cases (leb (length l) n)) [
      | inl full ↦ rw full (grown _)
      | inr fits ↦
          rw fits (subst (λ m. state_at (take (n + 1) m) j ≡ some st) (append-nil l) (grown []))
    ]

-- A new order is put behind those of the batch.
pub state_at-client :
    (s : Shop) (junk : ℕ → Order) (order : Order) (j st : ℕ)
    → state_at (placed s) j ≡ some st
    → state_at (placed (handle_client junk order s)) j ≡ some st
unfolding handle_client
state_at-client s junk order j st e =
    let n = s.total_orders in
    let below : j < s.total_orders = state_at-lt n j st s.orders e in
    ap (λ l. state_at l j) (take-modify (n + 1) n (placed_over order) _)
    ∙ state_at-modify_ne (placed_over order) n j _ (omega arith)
    ∙ state_at-room junk n j st s.orders e
