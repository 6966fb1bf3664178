-- ===== src/Pide/Shop/Tally.antt =====
-- final/server.c: how many orders of the first batch are in each state.
use cse_344_homeworks.Prelude.{
  ℕ, zero, suc, ◌+◌, ◌<◌, ◌≡◌, refl, sym, ap, ◌∙◌, subst, List, [], ◌∷◌, none, some, length, take,
  set, get_elem?, arith, ltb, ◌==◌, if◌then◌else◌, inl, inr, Bool-cases, dec_lt,
}
use cse_344_homeworks.Pide.Queue.{Order}
use cse_344_homeworks.Pide.Shop.{
  modify, CookAt, idle, preparing, baking, Shop, placed, placed_over, first_in_state, handle_client,
  with_state, taken_by, cook_takes, cook_bakes, cook_finishes, courier_loads, courier_sets_off,
  courier_delivers, courier_returns,
}
use cse_344_homeworks.Pide.Shop.Runs.{
  Serve, client, takes, bakes, finishes, loads, sets_off, delivers, returns, checks, copies,
  opening, FirstBatch, start, next,
}
use cse_344_homeworks.Pide.Shop.Orders.{state_at, first_in_state-state_at, take-modify}
use cse_344_homeworks.Pide.Shop.Crew.{job_at-get, CrewInv, FirstBatch-CrewInv}
use cse_344_homeworks.Pide.Shop.Counts.{picked_up, roomy, length-roomy, take-roomy}
use cse_344_homeworks.Pide.Shop.Batch.{BatchInv, FirstBatch-Inv}

-- A sum over the states of orders.
abbrev pub total_of : (ℕ → ℕ) → List Order → ℕ
total_of w [] = 0
total_of w (o ∷ l) = w o.state + total_of w l

abbrev pub is_in : ℕ → ℕ → ℕ
is_in st st' = if st' == st then 1 else 0

abbrev pub is_open : ℕ → ℕ
is_open st = if ltb st 4 then 1 else 0

total_of-modify :
    (w : ℕ → ℕ) (f : Order → Order) (st old i : ℕ) (l : List Order)
    → ((o : Order) → (f o).state ≡ st)
    → state_at l i ≡ some old
    → total_of w (modify f i l) + w old ≡ total_of w l + w st
total_of-modify w f st old i [] h e = ground (arith, e)
total_of-modify w f st old zero (o ∷ l) h e =
    let new : w (f o).state ≡ w st = ap w (h o) in
    let was : w o.state ≡ w old = ap (λ o. elim o [ none ↦ 0 | some n ↦ w n ]) e in
    omega (arith, new, was)
total_of-modify w f st old (suc i) (o ∷ l) h e = omega (arith, total_of-modify w f st old i l h e)

-- A write of a state within the batch.
pub total_of-written :
    (w : ℕ → ℕ) (f : Order → Order) (st old n i : ℕ) (l : List Order)
    → ((o : Order) → (f o).state ≡ st)
    → state_at (take n l) i ≡ some old
    → total_of w (take n (modify f i l)) + w old ≡ total_of w (take n l) + w st
total_of-written w f st old n i l h e =
    subst (λ m. total_of w m + w old ≡ total_of w (take n l) + w st) (sym (take-modify n i f l))
      (total_of-modify w f st old i (take n l) h e)

total_of-client :
    (w : ℕ → ℕ) (f : Order → Order) (n : ℕ) (l : List Order)
    → ((o : Order) → (f o).state ≡ 0)
    → n < length l
    → total_of w (take (suc n) (modify f n l)) ≡ total_of w (take n l) + w 0
total_of-client w f zero [] h k = absurd (omega arith)
total_of-client w f (suc n) [] h k = absurd (omega arith)
total_of-client w f zero (o ∷ l) h k =
    let new : w (f o).state ≡ w 0 = ap w (h o) in omega (arith, new)
total_of-client w f (suc n) (o ∷ l) h k = omega (arith, total_of-client w f n l h (omega arith))

-- The states that the threads write.
abbrev pub is_known : ℕ → ℕ
is_known st = if ltb st 5 then 1 else 0

-- A sum over the cooks.
abbrev pub cooks_at : (CookAt → ℕ) → List CookAt → ℕ
cooks_at w [] = 0
cooks_at w (c ∷ cs) = w c + cooks_at w cs

cooks_at-set :
    (w : CookAt → ℕ) (cooks : List CookAt) (k : ℕ) (old new : CookAt)
    → get_elem? cooks k ≡ some old
    → cooks_at w (set cooks k new) + w old ≡ cooks_at w cooks + w new
cooks_at-set w [] k old new e = ground (arith, e)
cooks_at-set w (c ∷ cooks) zero old new e =
    let was : w c ≡ w old = ap (λ o. elim o [ none ↦ 0 | some d ↦ w d ]) e in omega (arith, was)
cooks_at-set w (c ∷ cooks) (suc k) old new e = omega (arith, cooks_at-set w cooks k old new e)

abbrev pub is_preparing : CookAt → ℕ
is_preparing c = elim c [ idle ↦ 0 | preparing i ↦ 1 | baking i ↦ 0 ]

abbrev pub is_baking : CookAt → ℕ
is_baking c = elim c [ idle ↦ 0 | preparing i ↦ 0 | baking i ↦ 1 ]

-- The active orders are those that no courier has taken; those in state 1 and 2 have a cook each; and
-- there is no other state than 0 to 4.
pub record TallyInv (s : Shop) : Type 0 where
  pub active : total_of is_open (placed s) ≡ s.active_orders
  pub first : total_of (is_in 1) (placed s) ≡ cooks_at is_preparing s.cooks
  pub second : total_of (is_in 2) (placed s) ≡ cooks_at is_baking s.cooks
  pub known : total_of is_known (placed s) ≡ s.total_orders

pub client-total :
    (w : ℕ → ℕ) (s : Shop) (junk : ℕ → Order) (order : Order)
    → BatchInv s
    → total_of w (placed (handle_client junk order s)) ≡ total_of w (placed s) + w 0
unfolding handle_client
client-total w s junk order v =
    let n = s.total_orders in
    let more : suc n ≡ n + 1 = omega arith in
    let slots = roomy junk n s.orders in
    ap (λ k. total_of w (take k (modify (placed_over order) n slots))) (sym more)
    ∙ total_of-client w (placed_over order) n slots (λ o. refl)
        (length-roomy junk n s.orders v.within)
    ∙ ap (λ l. total_of w l + w 0) (take-roomy junk n s.orders v.within)

-- A write of state `st` over `old`, and a cook who goes from one place to another with it.
module _ (s : Shop) (f : Order → Order) (st old i k : ℕ) (was now : CookAt)
    (sets : (o : Order) → (f o).state ≡ st) (known : state_at (placed s) i ≡ some old)
    (there : get_elem? s.cooks k ≡ some was) (v : TallyInv s)
    (same_active : is_open old ≡ is_open st) (same_known : is_known old ≡ is_known st)
    (one : is_in 1 old + is_preparing now ≡ is_in 1 st + is_preparing was)
    (two : is_in 2 old + is_baking now ≡ is_in 2 st + is_baking was) where
  cook_writes-TallyInv :
      (t : Shop)
      → t.orders ≡ modify f i s.orders
      → t.total_orders ≡ s.total_orders
      → t.active_orders ≡ s.active_orders
      → t.cooks ≡ set s.cooks k now
      → TallyInv t
  cook_writes-TallyInv t o n a c =
      let list : placed t ≡ take s.total_orders (modify f i s.orders) =
        ap (λ m. take m t.orders) n ∙ ap (take s.total_orders) o in
      let wrote : (w : ℕ → ℕ) → total_of w (placed t) + w old ≡ total_of w (placed s) + w st = λ w.
        ap (λ l. total_of w l + w old) list
        ∙ total_of-written w f st old s.total_orders i s.orders sets known in
      let stand : (w : CookAt → ℕ) → cooks_at w t.cooks + w was ≡ cooks_at w s.cooks + w now =
        λ w. ap (λ l. cooks_at w l + w was) c ∙ cooks_at-set w s.cooks k was now there in
      record {
        active = omega (arith, wrote is_open, v.active, a, same_active);
        first = omega (arith, wrote (is_in 1), v.first, stand is_preparing, one);
        second = omega (arith, wrote (is_in 2), v.second, stand is_baking, two);
        known = omega (arith, wrote is_known, v.known, n, same_known);
      }

Serve-TallyInv :
    {s t : Shop} → Serve s t → CrewInv s.cooks (placed s) → BatchInv s → TallyInv s → TallyInv t
unfolding cook_takes cook_bakes cook_finishes courier_loads courier_sets_off courier_delivers
    courier_returns
Serve-TallyInv {s} (client junk order e) w b v = subst TallyInv (sym e) (
    unfold handle_client in
    record {
      active = omega (arith, client-total is_open s junk order b, v.active);
      first = omega (arith, client-total (is_in 1) s junk order b, v.first);
      second = omega (arith, client-total (is_in 2) s junk order b, v.second);
      known = omega (arith, client-total is_known s junk order b, v.known);
    })
Serve-TallyInv {s} (takes k i c a f e) w b v =
    let known = first_in_state-state_at 0 (placed s) i f in
    subst TallyInv (sym e) (
      cook_writes-TallyInv s (taken_by k) 1 0 i k idle (preparing i) (λ o. refl) known c v refl refl
        refl refl (cook_takes k i s) refl refl refl refl)
Serve-TallyInv {s} (bakes k i c a o e) w b v =
    let known = w.fits k i 1 (job_at-get s.cooks k (preparing i) c) in
    subst TallyInv (sym e) (
      cook_writes-TallyInv s (with_state 2) 2 1 i k (preparing i) (baking i) (λ o. refl) known c v
        refl refl refl refl (cook_bakes k i s) refl refl refl refl)
Serve-TallyInv {s} (finishes k i c e) w b v =
    let known = w.fits k i 2 (job_at-get s.cooks k (baking i) c) in
    subst TallyInv (sym e) (
      cook_writes-TallyInv s (with_state 3) 3 2 i k (baking i) idle (λ o. refl) known c v refl refl
        refl refl (cook_finishes k i s) refl refl refl refl)
Serve-TallyInv {s} (loads k i c order g l r a f h e) w b v =
    let known = first_in_state-state_at 3 (placed s) i f in
    let wrote = λ (w : ℕ → ℕ).
      total_of-written w (with_state 4) 4 3 s.total_orders i s.orders (λ o. refl) known in
    subst TallyInv (sym e) (record {
      active = omega (arith, wrote is_open, v.active, a);
      first = omega (arith, wrote (is_in 1), v.first);
      second = omega (arith, wrote (is_in 2), v.second);
      known = omega (arith, wrote is_known, v.known);
    })
Serve-TallyInv (sets_off k c g l b r e) w b' v =
    subst TallyInv (sym e)
      (record { active = v.active; first = v.first; second = v.second; known = v.known })
Serve-TallyInv (delivers k d c g l b e) w b' v =
    subst TallyInv (sym e)
      (record { active = v.active; first = v.first; second = v.second; known = v.known })
Serve-TallyInv (returns k d c g l b e) w b' v =
    subst TallyInv (sym e)
      (record { active = v.active; first = v.first; second = v.second; known = v.known })
Serve-TallyInv (checks a b e) w b' v =
    subst TallyInv (sym e)
      (record { active = v.active; first = v.first; second = v.second; known = v.known })

cooks_at-copies : (w : CookAt → ℕ) (n : ℕ) → w idle ≡ 0 → cooks_at w (copies n idle) ≡ 0
cooks_at-copies w zero h = refl
cooks_at-copies w (suc n) h = omega (arith, h, cooks_at-copies w n h)

pub FirstBatch-TallyInv : {cooks couriers : ℕ} (s : Shop) → FirstBatch cooks couriers s → TallyInv s
unfolding opening
FirstBatch-TallyInv {cooks} s start = record {
  active = refl;
  first = sym (cooks_at-copies is_preparing cooks refl);
  second = sym (cooks_at-copies is_baking cooks refl);
  known = refl;
}
FirstBatch-TallyInv s (next {s = r} b st) =
    Serve-TallyInv st (FirstBatch-CrewInv r b) (FirstBatch-Inv r b) (FirstBatch-TallyInv r b)

-- Finding what the counts say is there.
pub first_in_state-found :
    (st : ℕ) (l : List Order)
    → 0 < total_of (is_in st) l
    → (i : ℕ) × (o : Order) × (first_in_state st l ≡ some i) × (get_elem? l i ≡ some o)
unfolding first_in_state
first_in_state-found st [] h = absurd (omega arith)
first_in_state-found st (o ∷ l) h = elim (Bool-cases (o.state == st)) [
  | inl hit ↦ (0, o, rw (first_in_state, hit) refl, refl)
  | inr miss ↦
      let rest : 0 < total_of (is_in st) l = ground (arith, miss, h) in
      let (i, o', e, g) = first_in_state-found st l rest in (suc i, o', ground (arith, e, miss), g)
]

pub cook_found :
    (w : CookAt → ℕ) (cooks : List CookAt)
    → 0 < cooks_at w cooks
    → (k : ℕ) × (c : CookAt) × (get_elem? cooks k ≡ some c) × (0 < w c)
cook_found w [] h = absurd (omega arith)
cook_found w (c ∷ cooks) h = elim (dec_lt 0 (w c)) [
  | yes here ↦ (0, c, refl, here)
  | no elsewhere ↦
      let (k, d, g, p) = cook_found w cooks (omega (arith, elsewhere, h)) in (suc k, d, g, p)
]

pub known_split : (l : List Order) → total_of is_known l ≡ total_of is_open l + picked_up l
known_split [] = refl
known_split (o ∷ l) = ground (arith, known_split l)

pub open_split :
    (l : List Order)
    → total_of is_open l
      ≡ total_of (is_in 0) l + total_of (is_in 1) l + total_of (is_in 2) l + total_of (is_in 3) l
open_split [] = refl
open_split (o ∷ l) = ground (arith, open_split l)
