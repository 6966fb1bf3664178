-- ===== src/Pide/Waits.antt =====
-- final/server.c: the threads of Pide/Shop.antt with the waits and signals of Pide/Signals.antt.
pub mod Refine
pub mod Sleep
pub mod Quiet
pub mod Naps
pub mod Calm
pub mod CalmSteps
pub mod CalmRuns
pub mod Work
pub mod Progress
mod Tests
use cse_344_homeworks.Prelude.{
  ℕ, ◌+◌, ◌≤◌, ◌<◌, ◌≡◌, ◌≢◌, ◌⊎◌, true, false, none, some, length, get_elem?,
}
use cse_344_homeworks.Pide.Queue.{Order}
use cse_344_homeworks.Pide.Shop.{
  first_in_state, Courier, placed, handle_client, cook_takes, cook_bakes, cook_finishes,
  courier_loads, courier_sets_off, courier_delivers, courier_returns, reset_counters, oven_capacity,
  has_room, idle, preparing, baking, loading, away,
}
use cse_344_homeworks.Pide.Signals.{
  awake, asleep, to_signal, first_test, first_wait, second_test, second_wait, resetting, accepting,
  testing, waiting, Waits, opened, cook_nap, courier_nap, SignalOrder, SignalDelivery,
  SignalCompletion,
}

-- `handle_client`, with its signal.
pub data Client (s t : Waits) : Type 0 where
  client :
      (junk : ℕ → Order) (order : Order)
      → SignalOrder (record s { shop = handle_client junk order s.shop }) t
      → Client s t

-- `cook_function` of cook k. A cook who finds no order although there are active ones goes round.
pub data Cook (k : ℕ) (s t : Waits) : Type 0 where
  waits :
      get_elem? s.shop.cooks k ≡ some idle
      → get_elem? s.cook_naps k ≡ some awake
      → s.shop.active_orders ≡ 0
      → t ≡ cook_nap k asleep s
      → Cook k s t
  takes :
      (i : ℕ)
      → get_elem? s.shop.cooks k ≡ some idle
      → get_elem? s.cook_naps k ≡ some awake
      → 0 < s.shop.active_orders
      → first_in_state 0 (placed s.shop) ≡ some i
      → t ≡ record s { shop = cook_takes k i s.shop }
      → Cook k s t
  waits_for_oven :
      (i : ℕ)
      → get_elem? s.shop.cooks k ≡ some (preparing i)
      → get_elem? s.cook_naps k ≡ some awake
      → (s.shop.apparatus_available ≡ 0) ⊎ (s.shop.oven_occupancy ≡ oven_capacity)
      → t ≡ cook_nap k asleep s
      → Cook k s t
  bakes :
      (i : ℕ)
      → get_elem? s.shop.cooks k ≡ some (preparing i)
      → get_elem? s.cook_naps k ≡ some awake
      → 0 < s.shop.apparatus_available
      → s.shop.oven_occupancy ≢ oven_capacity
      → t ≡ record s { shop = cook_bakes k i s.shop }
      → Cook k s t
  finishes :
      (i : ℕ)
      → get_elem? s.shop.cooks k ≡ some (baking i)
      → SignalOrder (cook_nap k to_signal (record s { shop = cook_finishes k i s.shop })) t
      → Cook k s t
  signals :
      get_elem? s.cook_naps k ≡ some to_signal → SignalDelivery (cook_nap k awake s) t → Cook k s t

-- `delivery_function` of courier k, who is `c`.
pub data Delivery (k : ℕ) (c : Courier) (s t : Waits) : Type 0 where
  loads :
      (i : ℕ) (order : Order)
      → get_elem? s.courier_naps k ≡ some awake
      → c.at ≡ loading
      → has_room c ≡ true
      → 0 < s.shop.active_orders
      → first_in_state 3 (placed s.shop) ≡ some i
      → get_elem? (placed s.shop) i ≡ some order
      → t ≡ record s { shop = courier_loads k c i order s.shop }
      → Delivery k c s t
  waits :
      get_elem? s.courier_naps k ≡ some awake
      → c.at ≡ loading
      → has_room c ≡ true
      → 0 < s.shop.active_orders
      → first_in_state 3 (placed s.shop) ≡ none
      → t ≡ courier_nap k asleep s
      → Delivery k c s t
  sets_off :
      get_elem? s.courier_naps k ≡ some awake
      → c.at ≡ loading
      → 0 < length c.bag
      → (has_room c ≡ false) ⊎ (s.shop.active_orders ≡ 0)
      → t ≡ record s { shop = courier_sets_off k c s.shop }
      → Delivery k c s t
  delivers :
      (d : ℕ)
      → get_elem? s.courier_naps k ≡ some awake
      → c.at ≡ away d
      → d < length c.bag
      → t ≡ record s { shop = courier_delivers k c d s.shop }
      → Delivery k c s t
  signals :
      (d : ℕ)
      → get_elem? s.courier_naps k ≡ some awake
      → c.at ≡ away d
      → length c.bag ≤ d
      → SignalCompletion (courier_nap k to_signal s) t
      → Delivery k c s t
  returns :
      (d : ℕ)
      → get_elem? s.courier_naps k ≡ some to_signal
      → c.at ≡ away d
      → length c.bag ≤ d
      → SignalDelivery (courier_nap k awake (record s { shop = courier_returns k c s.shop })) t
      → Delivery k c s t

-- `main`, behind the creation of the threads of a batch. The second wait is that of
-- `wait_for_all_deliveries`. After the reset it is there again at any time, so nothing is said of how
-- long it waits in `accept`.
pub data Main (s t : Waits) : Type 0 where
  waits :
      s.main_at ≡ first_test
      → s.shop.completed_orders < s.shop.total_orders
      → t ≡ record s { main_at = first_wait }
      → Main s t
  goes_on :
      s.main_at ≡ first_test
      → s.shop.total_orders ≤ s.shop.completed_orders
      → t ≡ record s { main_at = second_test }
      → Main s t
  waits_for_all :
      s.main_at ≡ second_test
      → (0 < s.shop.pending_deliveries) ⊎ (s.shop.completed_orders < s.shop.total_orders)
      → t ≡ record s { main_at = second_wait }
      → Main s t
  closes :
      s.main_at ≡ second_test
      → s.shop.total_orders ≤ s.shop.completed_orders
      → s.shop.pending_deliveries ≡ 0
      → t ≡ record s { shop = record s.shop { closing = true }; main_at = resetting }
      → Main s t
  resets :
      s.main_at ≡ resetting
      → s.shop.closing ≡ true
      → t ≡ record s { shop = reset_counters s.shop; main_at = first_test }
      → Main s t

-- `handle_completion_updates`, for one connection after the other.
pub data Completion (s t : Waits) : Type 0 where
  accepts : s.completion_at ≡ accepting → t ≡ record s { completion_at = testing } → Completion s t
  waits :
      s.completion_at ≡ testing
      → s.shop.completed_orders < s.shop.total_orders
      → t ≡ record s { completion_at = waiting }
      → Completion s t
  tells :
      s.completion_at ≡ testing
      → s.shop.total_orders ≤ s.shop.completed_orders
      → t ≡ record s { completion_at = accepting; told = s.told + 1 }
      → Completion s t

-- The steps of the threads that exist, without a further client.
pub data Move (s t : Waits) : Type 0 where
  cook : (k : ℕ) → Cook k s t → Move s t
  courier :
      (k : ℕ) (c : Courier) → get_elem? s.shop.couriers k ≡ some c → Delivery k c s t → Move s t
  main : Main s t → Move s t
  completion : Completion s t → Move s t

-- With the clients, and waits that end for no reason.
pub data Step (s t : Waits) : Type 0 where
  arrives : Client s t → Step s t
  moves : Move s t → Step s t
  cook_spurious :
      (k : ℕ) → get_elem? s.cook_naps k ≡ some asleep → t ≡ cook_nap k awake s → Step s t
  courier_spurious :
      (k : ℕ) → get_elem? s.courier_naps k ≡ some asleep → t ≡ courier_nap k awake s → Step s t
  main_spurious : s.main_at ≡ first_wait → t ≡ record s { main_at = first_test } → Step s t
  main_spurious' : s.main_at ≡ second_wait → t ≡ record s { main_at = second_test } → Step s t
  completion_spurious :
      s.completion_at ≡ waiting → t ≡ record s { completion_at = testing } → Step s t

-- `races` is the loss of an update of `active_orders`, where a section of a courier, under
-- `delivery_mutex`, overlaps with one of another thread, under `order_mutex`.
pub data Reach (cooks couriers : ℕ) : Waits → Type 0 where
  start : Reach cooks couriers (opened cooks couriers)
  next : {s t : Waits} → Reach cooks couriers s → Step s t → Reach cooks couriers t
  races :
      {s : Waits} (n : ℕ)
      → Reach cooks couriers s
      → Reach cooks couriers (record s { shop = record s.shop { active_orders = n } })

-- Moves alone, from `s`.
pub data Moves (s : Waits) : Waits → Type 0 where
  here : Moves s s
  next : {t u : Waits} → Moves s t → Move t u → Moves s u
