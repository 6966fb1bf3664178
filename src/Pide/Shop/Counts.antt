-- ===== src/Pide/Shop/Counts.antt =====
-- Counts of orders: those in state 4, and those that couriers carry; and the array that grows.
use cse_344_homeworks.Prelude.{
  ℕ, zero, suc, ◌+◌, ◌-◌, ◌≤◌, ◌<◌, ◌≡◌, refl, sym, ap, subst, false, List, [], ◌∷◌, ◌++◌, none,
  some, length, length-append, set, get_elem?, take, leb, if◌then◌else◌, ◌==◌, All, arith,
  Bool-cases, inl, inr,
}
use cse_344_homeworks.Pide.Queue.{Order}
use cse_344_homeworks.Pide.Shop.{
  modify, loading, away, Courier, new_capacity, junk_slots, expand_order_array,
}
use cse_344_homeworks.Pide.Shop.Orders.{state_at, take-modify}

-- Orders in state 4: in a bag or delivered.
abbrev pub picked_up : List Order → ℕ
picked_up [] = 0
picked_up (o ∷ l) = if o.state == 4 then 1 + picked_up l else picked_up l

abbrev pub is_4 : ℕ → ℕ
is_4 st = if st == 4 then 1 else 0

pub picked_up-modify :
    (f : Order → Order) (st old i : ℕ) (l : List Order)
    → ((o : Order) → (f o).state ≡ st)
    → state_at l i ≡ some old
    → picked_up (modify f i l) + is_4 old ≡ picked_up l + is_4 st
picked_up-modify f st old i [] h e = ground arith
picked_up-modify f st old zero (o ∷ l) h e = ground (arith, h o, e)
picked_up-modify f st old (suc i) (o ∷ l) h e = ground (arith, picked_up-modify f st old i l h e)

-- The orders that a courier still has to deliver.
abbrev pub left : Courier → ℕ
left c = elim c.at [ loading ↦ length c.bag | away d ↦ length c.bag - d ]

abbrev pub carried : List Courier → ℕ
carried [] = 0
carried (c ∷ couriers) = left c + carried couriers

pub carried-set :
    (couriers : List Courier) (k : ℕ) (old new : Courier)
    → get_elem? couriers k ≡ some old
    → carried (set couriers k new) + left old ≡ carried couriers + left new
carried-set [] k old new e = ground arith
carried-set (c ∷ couriers) zero old new e =
    let same : left c ≡ left old = ap (λ o. elim o [ none ↦ 0 | some d ↦ left d ]) e in
    omega (arith, same)
carried-set (c ∷ couriers) (suc k) old new e = omega (arith, carried-set couriers k old new e)

pub picked_up-client :
    (f : Order → Order) (n : ℕ) (l : List Order)
    → ((o : Order) → (f o).state ≡ 0)
    → picked_up (take (suc n) (modify f n l)) ≡ picked_up (take n l)
picked_up-client f zero [] h = refl
picked_up-client f (suc n) [] h = refl
picked_up-client f zero (o ∷ l) h = ground (arith, h o)
picked_up-client f (suc n) (o ∷ l) h = ground (arith, picked_up-client f n l h)

take-append_le {ℓ} : {A : Type ℓ} (n : ℕ) (l m : List A) → n ≤ length l → take n (l ++ m) ≡ take n l
take-append_le zero l m h = refl
take-append_le (suc n) [] m h = absurd (omega arith)
take-append_le (suc n) (x ∷ l) m h = ap (λ k. x ∷ k) (take-append_le n l m (omega arith))

pub length-modify {ℓ} :
    {A : Type ℓ} (f : A → A) (i : ℕ) (l : List A) → length (modify f i l) ≡ length l
length-modify f i [] = refl
length-modify f zero (x ∷ l) = refl
length-modify f (suc i) (x ∷ l) = ap suc (length-modify f i l)

length-junk_slots : (junk : ℕ → Order) (n : ℕ) → length (junk_slots junk n) ≡ n
length-junk_slots junk zero = refl
length-junk_slots junk (suc n) = ap suc (length-junk_slots junk n)

new_capacity_grows : (n : ℕ) → n < new_capacity n
unfolding new_capacity
new_capacity_grows n = ground arith

not_full : (m n : ℕ) → n ≤ m → leb m n ≡ false → n < m
not_full m n h f = ground arith

-- The array has room for the next order.
abbrev pub roomy : (ℕ → Order) → ℕ → List Order → List Order
unfolding expand_order_array
roomy junk n l = if leb (length l) n then expand_order_array junk l else l

pub length-roomy :
    (junk : ℕ → Order) (n : ℕ) (l : List Order) → n ≤ length l → n < length (roomy junk n l)
unfolding expand_order_array new_capacity
length-roomy junk n l h = elim (Bool-cases (leb (length l) n)) [
  | inl full ↦ rw full (
      omega (
        arith,
        length-append l (junk_slots junk (new_capacity (length l) - length l)),
        length-junk_slots junk (new_capacity (length l) - length l),
        new_capacity_grows (length l),
      ))
  | inr fits ↦ rw fits (not_full (length l) n h fits)
]

pub take-roomy :
    (junk : ℕ → Order) (n : ℕ) (l : List Order) → n ≤ length l → take n (roomy junk n l) ≡ take n l
unfolding expand_order_array
take-roomy junk n l h = elim (Bool-cases (leb (length l) n)) [
  | inl full ↦ rw full (take-append_le n l _ h)
  | inr fits ↦ rw fits refl
]

pub left_loading : (c : Courier) → c.at ≡ loading → left c ≡ length c.bag
left_loading c e = rw e refl

pub left_away : (c : Courier) (d : ℕ) → c.at ≡ away d → left c ≡ length c.bag - d
left_away c d e = rw e refl

-- A write of a state.
pub written :
    (f : Order → Order) (st old n i : ℕ) (l : List Order)
    → ((o : Order) → (f o).state ≡ st)
    → state_at (take n l) i ≡ some old
    → picked_up (take n (modify f i l)) + is_4 old ≡ picked_up (take n l) + is_4 st
written f st old n i l h e =
    subst (λ m. picked_up m + is_4 old ≡ picked_up (take n l) + is_4 st) (sym (take-modify n i f l))
      (picked_up-modify f st old i (take n l) h e)

pub picked_up-length : (l : List Order) → picked_up l ≤ length l
picked_up-length [] = omega arith
picked_up-length (o ∷ l) = ground (arith, picked_up-length l)

pub All-picked_up : (l : List Order) → length l ≤ picked_up l → All (λ o. o.state ≡ 4) l
All-picked_up [] h = tt
All-picked_up (o ∷ l) h = ground (arith, picked_up-length l, All-picked_up l)
