-- ===== src/Pide/Shop/Runs.antt =====
-- final/server.c: the steps of clients, cooks, couriers and `main`, and the runs that they make.
-- The condition of a step is that of the wait or test before the section; couriers may take turns
-- between two orders for one bag, which `delivery_mutex` rules out. Sections are taken to exclude
-- each other, also where one holds `order_mutex` and the other `delivery_mutex`.
use cse_344_homeworks.Prelude.{
  ℕ, zero, suc, ◌≤◌, ◌<◌, ◌≡◌, ◌≢◌, ◌⊎◌, true, false, List, [], ◌∷◌, some, length, get_elem?,
}
use cse_344_homeworks.Pide.Queue.{Order}
use cse_344_homeworks.Pide.Shop.{
  first_in_state, Courier, Shop, placed, handle_client, cook_takes, cook_bakes, cook_finishes,
  courier_loads, courier_sets_off, courier_delivers, courier_returns, reset_counters, oven_capacity,
  apparatus, has_room, idle, preparing, baking, loading, away,
}

-- The steps within a batch.
pub data Serve (s t : Shop) : Type 0 where
  client : (junk : ℕ → Order) (order : Order) → t ≡ handle_client junk order s → Serve s t
  takes :
      (k i : ℕ)
      → get_elem? s.cooks k ≡ some idle
      → 0 < s.active_orders
      → first_in_state 0 (placed s) ≡ some i
      → t ≡ cook_takes k i s
      → Serve s t
  bakes :
      (k i : ℕ)
      → get_elem? s.cooks k ≡ some (preparing i)
      → 0 < s.apparatus_available
      → s.oven_occupancy ≢ oven_capacity
      → t ≡ cook_bakes k i s
      → Serve s t
  finishes : (k i : ℕ) → get_elem? s.cooks k ≡ some (baking i) → t ≡ cook_finishes k i s → Serve s t
  loads :
      (k i : ℕ) (c : Courier) (order : Order)
      → get_elem? s.couriers k ≡ some c
      → c.at ≡ loading
      → has_room c ≡ true
      → 0 < s.active_orders
      → first_in_state 3 (placed s) ≡ some i
      → get_elem? (placed s) i ≡ some order
      → t ≡ courier_loads k c i order s
      → Serve s t
  sets_off :
      (k : ℕ) (c : Courier)
      → get_elem? s.couriers k ≡ some c
      → c.at ≡ loading
      → 0 < length c.bag
      → (has_room c ≡ false) ⊎ (s.active_orders ≡ 0)
      → t ≡ courier_sets_off k c s
      → Serve s t
  delivers :
      (k d : ℕ) (c : Courier)
      → get_elem? s.couriers k ≡ some c
      → c.at ≡ away d
      → d < length c.bag
      → t ≡ courier_delivers k c d s
      → Serve s t
  returns :
      (k d : ℕ) (c : Courier)
      → get_elem? s.couriers k ≡ some c
      → c.at ≡ away d
      → length c.bag ≤ d
      → t ≡ courier_returns k c s
      → Serve s t
  checks :
      s.total_orders ≤ s.completed_orders
      → s.pending_deliveries ≡ 0
      → t ≡ record s { closing = true }
      → Serve s t

pub data Step (s t : Shop) : Type 0 where
  serves : Serve s t → Step s t
  resets : s.closing ≡ true → t ≡ reset_counters s → Step s t

abbrev pub new_courier : Courier
new_courier = record { at = loading; bag = []; work_count = 0; delivery_count = 0 }

abbrev pub copies {ℓ} : {A : Type ℓ} → ℕ → A → List A
copies zero a = []
copies (suc n) a = a ∷ copies n a

-- `main`, once the threads are created.
unfoldable pub opening : (cook_pool_size delivery_pool_size : ℕ) → Shop
opening cook_pool_size delivery_pool_size = record {
  orders = [];
  total_orders = 0;
  active_orders = 0;
  completed_orders = 0;
  oven_occupancy = 0;
  apparatus_available = apparatus;
  pending_deliveries = 0;
  cooks = copies cook_pool_size idle;
  cook_work = copies cook_pool_size 0;
  couriers = copies delivery_pool_size new_courier;
  closing = false;
}

module _ (cooks couriers : ℕ) where
  pub data Reach : Shop → Type 0 where
    start : Reach (opening cooks couriers)
    next : {s t : Shop} → Reach s → Step s t → Reach t

  -- The first batch: no reset yet.
  pub data FirstBatch : Shop → Type 0 where
    start : FirstBatch (opening cooks couriers)
    next : {s t : Shop} → FirstBatch s → Serve s t → FirstBatch t
