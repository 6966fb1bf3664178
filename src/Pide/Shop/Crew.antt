-- ===== src/Pide/Shop/Crew.antt =====
-- Which cook works on which order, within a batch.
use cse_344_homeworks.Prelude.{
  ℕ, zero, suc, ◌≤◌, ◌<◌, ◌≡◌, ◌≢◌, refl, sym, ap, ◌∙◌, subst, List, [], ◌∷◌, Option, none, some,
  set, get_elem?, take, arith, inl, inr, ◌⊎◌, ℕ_discrete,
}
use cse_344_homeworks.Pide.Queue.{Order}
use cse_344_homeworks.Pide.Shop.{
  modify, CookAt, idle, preparing, baking, Shop, placed, handle_client, with_state, taken_by,
  cook_takes, cook_bakes, cook_finishes, courier_loads, courier_sets_off, courier_delivers,
  courier_returns,
}
use cse_344_homeworks.Pide.Shop.Runs.{
  Serve, client, takes, bakes, finishes, loads, sets_off, delivers, returns, checks, copies,
  opening, FirstBatch, start, next,
}
use cse_344_homeworks.Pide.Shop.Orders.{
  state_at, first_in_state-state_at, take-modify, state_at-modify, state_at-modify_ne,
  state_at-client,
}

-- The order that a cook works on, and the state that it has.
abbrev pub job : CookAt → Option (ℕ × ℕ)
job idle = none
job (preparing i) = some (i, 1)
job (baking i) = some (i, 2)

abbrev pub job_at : List CookAt → ℕ → Option (ℕ × ℕ)
job_at [] k = none
job_at (c ∷ cooks) zero = job c
job_at (c ∷ cooks) (suc k) = job_at cooks k

pub job_at-get :
    (cooks : List CookAt) (k : ℕ) (c : CookAt) → get_elem? cooks k ≡ some c → job_at cooks k ≡ job c
job_at-get [] k c e = ground arith
job_at-get (d ∷ cooks) zero c e = ground arith
job_at-get (d ∷ cooks) (suc k) c e = job_at-get cooks k c e

job_at-set :
    (cooks : List CookAt) (k : ℕ) (old c : CookAt)
    → get_elem? cooks k ≡ some old
    → job_at (set cooks k c) k ≡ job c
job_at-set [] k old c e = ground arith
job_at-set (d ∷ cooks) zero old c e = refl
job_at-set (d ∷ cooks) (suc k) old c e = job_at-set cooks k old c e

job_at-set_ne :
    (cooks : List CookAt) (k m : ℕ) (c : CookAt) → k ≢ m → job_at (set cooks k c) m ≡ job_at cooks m
job_at-set_ne [] k m c p = refl
job_at-set_ne (d ∷ cooks) zero zero c p = absurd (p refl)
job_at-set_ne (d ∷ cooks) zero (suc m) c p = refl
job_at-set_ne (d ∷ cooks) (suc k) zero c p = refl
job_at-set_ne (d ∷ cooks) (suc k) (suc m) c p = job_at-set_ne cooks k m c (λ e. p (ap suc e))

-- Each cook's order is in the state that fits, and no two cooks have the same order.
pub record CrewInv (cooks : List CookAt) (orders : List Order) : Type 0 where
  pub fits : (k i st : ℕ) → job_at cooks k ≡ some (i, st) → state_at orders i ≡ some st
  pub alone :
      (k m i st su : ℕ) → job_at cooks k ≡ some (i, st) → job_at cooks m ≡ some (i, su) → k ≡ m

some_injective :
    {i j st su : ℕ} → ◌≡◌ {A = Option (ℕ × ℕ)} (some (i, st)) (some (j, su)) → (i ≡ j) × (st ≡ su)
some_injective {i} {j} {st} {su} e = ground (arith, e)

no_job : {i st : ℕ} → ◌≡◌ {A = Option (ℕ × ℕ)} none (some (i, st)) → ⊥
no_job e = ground (arith, e)

-- One cook goes on, and the state of the order with it; no other cook has that order.
module _ (cooks : List CookAt) (orders : List Order) (k i st old_st : ℕ) (old new : CookAt)
    (f : Order → Order) (v : CrewInv cooks orders) (at_k : get_elem? cooks k ≡ some old)
    (sets : (o : Order) → (f o).state ≡ st) (known : state_at orders i ≡ some old_st)
    (only : (m su : ℕ) → job_at cooks m ≡ some (i, su) → m ≡ k)
    (next_job : (job new ≡ none) ⊎ (job new ≡ some (i, st))) where
  moved_job :
      (m j su : ℕ)
      → job_at (set cooks k new) m ≡ some (j, su)
      → ((m ≡ k) × (j ≡ i) × (su ≡ st)) ⊎ ((j ≢ i) × (job_at cooks m ≡ some (j, su)))
  moved_job m j su e = elim (ℕ_discrete k m) [
    | yes same ↦
        let mine : job new ≡ some (j, su) =
          sym (job_at-set cooks k old new at_k)
          ∙ subst (λ n. job_at (set cooks k new) n ≡ some (j, su)) (sym same) e in
        elim next_job [
          | inl free ↦ absurd (no_job (sym free ∙ mine))
          | inr busy ↦ let (p, q) = some_injective (sym mine ∙ busy) in inl (sym same, p, q)
        ]
    | no differ ↦
        let there = sym (job_at-set_ne cooks k m new differ) ∙ e in
        inr (
          (λ w. differ (sym (only m su (subst (λ n. job_at cooks m ≡ some (n, su)) w there)))),
          there,
        )
  ]

  moved_fits :
      (m j su : ℕ)
      → job_at (set cooks k new) m ≡ some (j, su)
      → state_at (modify f i orders) j ≡ some su
  moved_fits m j su e = elim (moved_job m j su e) [
    | inl (a, p, q) ↦
        subst (λ n. state_at (modify f i orders) n ≡ some su) (sym p)
          (state_at-modify f st i orders old_st sets known ∙ ap some (sym q))
    | inr (p, there) ↦ state_at-modify_ne f i j orders (λ w. p (sym w)) ∙ v.fits m j su there
  ]

  moved_alone :
      (m n j su sv : ℕ)
      → job_at (set cooks k new) m ≡ some (j, su)
      → job_at (set cooks k new) n ≡ some (j, sv)
      → m ≡ n
  moved_alone m n j su sv e g = elim (moved_job m j su e) [
    | inl (a, p, q) ↦ elim (moved_job n j sv g) [
      | inl (b, p', q') ↦ a ∙ sym b
      | inr (p', there) ↦ absurd (p' p)
    ]
    | inr (p, there) ↦ elim (moved_job n j sv g) [
      | inl (b, p', q') ↦ absurd (p p')
      | inr (p', there') ↦ v.alone m n j su sv there there'
    ]
  ]

  CrewInv-moves : CrewInv (set cooks k new) (modify f i orders)
  CrewInv-moves = record { fits = moved_fits; alone = moved_alone }

job_at_pos :
    (cooks : List CookAt) (k i st : ℕ) → job_at cooks k ≡ some (i, st) → (0 < st) × (st < 3)
job_at_pos [] k i st e = ground arith
job_at_pos (idle ∷ cooks) zero i st e = ground arith
job_at_pos (preparing j ∷ cooks) zero i st e = ground arith
job_at_pos (baking j ∷ cooks) zero i st e = ground arith
job_at_pos (c ∷ cooks) (suc k) i st e = job_at_pos cooks k i st e

-- No cook works on an order that is placed or ready.
no_cook :
    (cooks : List CookAt) (orders : List Order) (i st m su : ℕ)
    → CrewInv cooks orders
    → state_at orders i ≡ some st
    → (st ≡ 0) ⊎ (3 ≤ st)
    → job_at cooks m ≡ some (i, su)
    → ⊥
no_cook cooks orders i st m su v known off e =
    let same : su ≡ st = equal (sym (v.fits m i su e) ∙ known) in
    let (low, high) = job_at_pos cooks m i su e in omega (arith, same, low, high, off)
  where
    equal : some su ≡ some st → su ≡ st
    equal e = ground arith

-- The write goes to the orders of the batch.
CrewInv-placed :
    (n i : ℕ) (f : Order → Order) (orders : List Order) (cooks : List CookAt)
    → CrewInv cooks (modify f i (take n orders))
    → CrewInv cooks (take n (modify f i orders))
CrewInv-placed n i f orders cooks v = subst (CrewInv cooks) (sym (take-modify n i f orders)) v

Serve-CrewInv : {s t : Shop} → Serve s t → CrewInv s.cooks (placed s) → CrewInv t.cooks (placed t)
unfolding cook_takes cook_bakes cook_finishes courier_loads courier_sets_off courier_delivers
    courier_returns
Serve-CrewInv {s} (client junk order e) v =
    subst (λ t. CrewInv t.cooks (placed t)) (sym e)
      (unfold handle_client in
        record {
          fits = λ k i st j. state_at-client s junk order i st (v.fits k i st j);
          alone = v.alone;
        })
Serve-CrewInv {s} (takes k i c a f e) v =
    let known = first_in_state-state_at 0 (placed s) i f in
    subst (λ t. CrewInv t.cooks (placed t)) (sym e)
      (CrewInv-placed s.total_orders i (taken_by k) s.orders (set s.cooks k (preparing i)) (
        CrewInv-moves s.cooks (placed s) k i 1 0 idle (preparing i) (taken_by k) v c (λ o. refl)
          known (λ m su j. absurd (no_cook s.cooks (placed s) i 0 m su v known (inl refl) j))
          (inr refl)))
Serve-CrewInv {s} (bakes k i c a o e) v =
    let mine = job_at-get s.cooks k (preparing i) c in
    subst (λ t. CrewInv t.cooks (placed t)) (sym e)
      (CrewInv-placed s.total_orders i (with_state 2) s.orders (set s.cooks k (baking i)) (
        CrewInv-moves s.cooks (placed s) k i 2 1 (preparing i) (baking i) (with_state 2) v c
          (λ o. refl) (v.fits k i 1 mine) (λ m su j. v.alone m k i su 1 j mine) (inr refl)))
Serve-CrewInv {s} (finishes k i c e) v =
    let mine = job_at-get s.cooks k (baking i) c in
    subst (λ t. CrewInv t.cooks (placed t)) (sym e)
      (CrewInv-placed s.total_orders i (with_state 3) s.orders (set s.cooks k idle) (
        CrewInv-moves s.cooks (placed s) k i 3 2 (baking i) idle (with_state 3) v c (λ o. refl)
          (v.fits k i 2 mine) (λ m su j. v.alone m k i su 2 j mine) (inl refl)))
Serve-CrewInv {s} (loads k i c order g l r a f h e) v =
    let known = first_in_state-state_at 3 (placed s) i f in
    subst (λ t. CrewInv t.cooks (placed t)) (sym e)
      (CrewInv-placed s.total_orders i (with_state 4) s.orders s.cooks (record {
        fits = λ m j su b.
            state_at-modify_ne (with_state 4) i j (placed s) (λ w.
              no_cook s.cooks (placed s) i 3 m su v known (inr (omega arith))
                (subst (λ n. job_at s.cooks m ≡ some (n, su)) (sym w) b))
            ∙ v.fits m j su b;
        alone = v.alone;
      }))
Serve-CrewInv (sets_off k c g l b r e) v = subst (λ t. CrewInv t.cooks (placed t)) (sym e) v
Serve-CrewInv (delivers k d c g l b e) v = subst (λ t. CrewInv t.cooks (placed t)) (sym e) v
Serve-CrewInv (returns k d c g l b e) v = subst (λ t. CrewInv t.cooks (placed t)) (sym e) v
Serve-CrewInv (checks a b e) v = subst (λ t. CrewInv t.cooks (placed t)) (sym e) v

job_at-copies : (n k : ℕ) → job_at (copies n idle) k ≡ none
job_at-copies zero k = refl
job_at-copies (suc n) zero = refl
job_at-copies (suc n) (suc k) = job_at-copies n k

-- In the first batch every cook at work has an order of the batch in the state that fits the work,
-- and no two cooks have the same order.
pub FirstBatch-CrewInv :
    {cooks couriers : ℕ} (s : Shop) → FirstBatch cooks couriers s → CrewInv s.cooks (placed s)
unfolding opening
FirstBatch-CrewInv {cooks} s start = record {
  fits = λ k i st j. absurd (no_job (sym (job_at-copies cooks k) ∙ j));
  alone = λ k m i st su j l. absurd (no_job (sym (job_at-copies cooks k) ∙ j));
}
FirstBatch-CrewInv s (next {s = r} b st) = Serve-CrewInv st (FirstBatch-CrewInv r b)
