-- ===== src/Pide/Shop/Oven.antt =====
-- The oven and the apparatus.
use cse_344_homeworks.Prelude.{
  ℕ, zero, suc, ◌+◌, ◌<◌, ◌≡◌, refl, sym, subst, List, [], ◌∷◌, some, set, get_elem?, arith,
}
use cse_344_homeworks.Pide.Shop.{
  CookAt, idle, preparing, baking, Shop, handle_client, cook_takes, cook_bakes, cook_finishes,
  courier_loads, courier_sets_off, courier_delivers, courier_returns, reset_counters, oven_capacity,
  apparatus,
}
use cse_344_homeworks.Pide.Shop.Runs.{
  Serve, client, takes, bakes, finishes, loads, sets_off, delivers, returns, checks, Step, serves,
  resets, copies, opening, Reach, start, next, FirstBatch,
}

-- 1 for a cook with an order in the oven.
abbrev pub in_oven : CookAt → ℕ
in_oven idle = 0
in_oven (preparing i) = 0
in_oven (baking i) = 1

abbrev pub orders_in_oven : List CookAt → ℕ
orders_in_oven [] = 0
orders_in_oven (c ∷ cooks) = in_oven c + orders_in_oven cooks

orders_in_oven-set :
    (cooks : List CookAt) (k : ℕ) (old new : CookAt)
    → get_elem? cooks k ≡ some old
    → orders_in_oven (set cooks k new) + in_oven old ≡ orders_in_oven cooks + in_oven new
orders_in_oven-set [] k old new e = ground arith
orders_in_oven-set (c ∷ cooks) zero old new e = ground arith
orders_in_oven-set (c ∷ cooks) (suc k) old new e =
    omega (arith, orders_in_oven-set cooks k old new e)

-- The oven holds what the cooks have put into it, and every apparatus is free or in use there.
pub record OvenInv (s : Shop) : Type 0 where
  pub counted : s.oven_occupancy ≡ orders_in_oven s.cooks
  pub conserved : s.oven_occupancy + s.apparatus_available ≡ apparatus

orders_in_oven-copies : (n : ℕ) → orders_in_oven (copies n idle) ≡ 0
orders_in_oven-copies zero = refl
orders_in_oven-copies (suc n) = omega (arith, orders_in_oven-copies n)

Serve-OvenInv : {s t : Shop} → Serve s t → OvenInv s → OvenInv t
unfolding handle_client cook_takes cook_bakes cook_finishes courier_loads courier_sets_off
    courier_delivers courier_returns
Serve-OvenInv (client junk order e) v = subst OvenInv (sym e) (ground arith)
Serve-OvenInv {s} (takes k i c a f e) v = subst OvenInv (sym e) (record {
  counted = omega (arith, v.counted, orders_in_oven-set s.cooks k idle (preparing i) c);
  conserved = v.conserved;
})
Serve-OvenInv {s} (bakes k i c a o e) v = subst OvenInv (sym e) (record {
  counted = omega (arith, v.counted, orders_in_oven-set s.cooks k (preparing i) (baking i) c);
  conserved = omega (arith, v.conserved);
})
Serve-OvenInv {s} (finishes k i c e) v = subst OvenInv (sym e) (record {
  counted = omega (arith, v.counted, orders_in_oven-set s.cooks k (baking i) idle c);
  conserved = omega (arith, v.conserved, v.counted, orders_in_oven-set s.cooks k (baking i) idle c);
})
Serve-OvenInv (loads k i c o g l r a f h e) v = subst OvenInv (sym e) (ground arith)
Serve-OvenInv (sets_off k c g l b r e) v = subst OvenInv (sym e) (ground arith)
Serve-OvenInv (delivers k d c g l b e) v = subst OvenInv (sym e) (ground arith)
Serve-OvenInv (returns k d c g l b e) v = subst OvenInv (sym e) (ground arith)
Serve-OvenInv (checks a b e) v = subst OvenInv (sym e) (ground arith)

Step-OvenInv : {s t : Shop} → Step s t → OvenInv s → OvenInv t
unfolding reset_counters
Step-OvenInv (serves st) v = Serve-OvenInv st v
Step-OvenInv (resets c e) v = subst OvenInv (sym e) (ground arith)

opening-OvenInv : (cooks couriers : ℕ) → OvenInv (opening cooks couriers)
unfolding opening
opening-OvenInv cooks couriers = record {
  counted = sym (orders_in_oven-copies cooks);
  conserved = refl;
}

Reach-Inv : {cooks couriers : ℕ} {s : Shop} → Reach cooks couriers s → OvenInv s
Reach-Inv {cooks} {couriers} start = opening-OvenInv cooks couriers
Reach-Inv (next r st) = Step-OvenInv st (Reach-Inv r)

-- Whatever the clients, cooks, couriers and `main` do, the occupancy of the oven is the number of
-- cooks who have an order in it, an apparatus is either free or with an order in the oven, and the
-- oven therefore never holds more orders than there are apparatus, let alone its capacity.
pub Reach-OvenInv :
    {cooks couriers : ℕ} (s : Shop)
    → Reach cooks couriers s
    → (s.oven_occupancy ≡ orders_in_oven s.cooks)
      × (s.oven_occupancy + s.apparatus_available ≡ apparatus)
      × (s.oven_occupancy < oven_capacity)
Reach-OvenInv s r = let v = Reach-Inv r in (v.counted, v.conserved, omega (arith, v.conserved))

FirstBatch-Reach :
    {cooks couriers : ℕ} {s : Shop} → FirstBatch cooks couriers s → Reach cooks couriers s
FirstBatch-Reach FirstBatch.start = start
FirstBatch-Reach (FirstBatch.next b st) = next (FirstBatch-Reach b) (serves st)

pub FirstBatch-OvenInv : {cooks couriers : ℕ} (s : Shop) → FirstBatch cooks couriers s → OvenInv s
FirstBatch-OvenInv s b = Reach-Inv (FirstBatch-Reach b)
