-- ===== src/Pide/Shop.antt =====
-- final/server.c: the cooks, the couriers and `main` around the array of orders.
-- What a thread does under a mutex is one step. The array is given by its contents; its length is
-- `order_capacity`. The threads of `handle_client_queue` are in Pide/Clients.antt.
pub mod Runs
pub mod Oven
pub mod Orders
pub mod Crew
pub mod Counts
pub mod Batch
pub mod Tally
use cse_344_homeworks.Prelude.{
  ℕ, zero, suc, ◌+◌, ◌-◌, ◌*◌, ◌≤◌, ◌<◌, ◌≡◌, ◌≢◌, ◌⊎◌, Bool, true, false, List, [], ◌∷◌, ◌++◌,
  Option, none, some, if◌then◌else◌, ltb, leb, ◌==◌, length, take, set, get_elem?,
}
use cse_344_homeworks.Prelude.Int.{ℤ, pos}
use cse_344_homeworks.Pide.Queue.{Order}

abbrev pub modify {ℓ} : {A : Type ℓ} → (A → A) → ℕ → List A → List A
modify f i [] = []
modify f zero (x ∷ xs) = f x ∷ xs
modify f (suc i) (x ∷ xs) = x ∷ modify f i xs

-- The loops that look for an order in some state.
unfoldable pub first_in_state : ℕ → List Order → Option ℕ
first_in_state st [] = none
first_in_state st (o ∷ l) =
    let rest = first_in_state st l in
    if o.state == st then some 0 else elim rest [ none ↦ none | some i ↦ some (suc i) ]

-- A cook with no order, preparing one, or with one in the oven.
pub data CookAt : Type 0 where
  idle : CookAt
  preparing : ℕ → CookAt
  baking : ℕ → CookAt

-- A courier at the loop that fills the bag, or on the way with so many orders delivered.
pub data CourierAt : Type 0 where
  loading : CourierAt
  away : ℕ → CourierAt

pub record Courier : Type 0 where
  pub at : CourierAt
  pub bag : List Order
  pub work_count : ℕ
  pub delivery_count : ℕ

-- `closing` is `main` between its waits and the reset of the counters.
pub record Shop : Type 0 where
  pub orders : List Order
  pub total_orders : ℕ
  pub active_orders : ℕ
  pub completed_orders : ℕ
  pub oven_occupancy : ℕ
  pub apparatus_available : ℕ
  pub pending_deliveries : ℕ
  pub cooks : List CookAt
  pub cook_work : List ℕ
  pub couriers : List Courier
  pub closing : Bool

abbrev pub placed : Shop → List Order
placed s = take s.total_orders s.orders

unfoldable pub new_capacity : ℕ → ℕ
new_capacity order_capacity = if order_capacity == 0 then 10 else order_capacity * 2

abbrev pub junk_slots : (ℕ → Order) → ℕ → List Order
junk_slots junk zero = []
junk_slots junk (suc n) = junk n ∷ junk_slots junk n

-- `junk` is what `realloc` finds behind the old contents.
unfoldable pub expand_order_array : (ℕ → Order) → List Order → List Order
unfolding new_capacity
expand_order_array junk orders =
    orders ++ junk_slots junk (new_capacity (length orders) - length orders)

-- What `handle_client` does with an order that it has read; its `cook_id` is not written.
abbrev pub placed_over : Order → Order → Order
placed_over order old = record order { state = 0; cook_id = old.cook_id }

unfoldable pub handle_client : (ℕ → Order) → Order → Shop → Shop
unfolding expand_order_array
handle_client junk order s =
    let orders' =
      if leb (length s.orders) s.total_orders then expand_order_array junk s.orders else s.orders in
    record s {
      orders = modify (placed_over order) s.total_orders orders';
      total_orders = s.total_orders + 1;
      active_orders = s.active_orders + 1;
    }

-- orders[i].state = st
abbrev pub with_state : ℕ → Order → Order
with_state st o = record o { state = st }

abbrev pub taken_by : ℕ → Order → Order
taken_by cook o = record o { state = 1; cook_id = pos cook }

-- `cook_function`, three sections: an order is taken, put into the oven, and taken out.
unfoldable pub cook_takes : ℕ → ℕ → Shop → Shop
cook_takes k i s = record s {
  orders = modify (taken_by k) i s.orders;
  cooks = set s.cooks k (preparing i);
  cook_work = modify (λ n. n + 1) k s.cook_work;
}

unfoldable pub cook_bakes : ℕ → ℕ → Shop → Shop
cook_bakes k i s = record s {
  apparatus_available = s.apparatus_available - 1;
  oven_occupancy = s.oven_occupancy + 1;
  orders = modify (with_state 2) i s.orders;
  cooks = set s.cooks k (baking i);
}

unfoldable pub cook_finishes : ℕ → ℕ → Shop → Shop
cook_finishes k i s = record s {
  apparatus_available = s.apparatus_available + 1;
  oven_occupancy = s.oven_occupancy - 1;
  orders = modify (with_state 3) i s.orders;
  cooks = set s.cooks k idle;
}

-- `delivery_function`: an order goes into the bag of courier k, who is `c`. The section is taken to
-- overlap with none of the other threads, although it holds another mutex than theirs.
unfoldable pub courier_loads : ℕ → Courier → ℕ → Order → Shop → Shop
courier_loads k c i order s = record s {
  orders = modify (with_state 4) i s.orders;
  couriers =
      set s.couriers k
        (record c { bag = c.bag ++ (with_state 4 order ∷ []); work_count = c.work_count + 1 });
  active_orders = s.active_orders - 1;
}

unfoldable pub courier_sets_off : ℕ → Courier → Shop → Shop
courier_sets_off k c s = record s {
  couriers = set s.couriers k (record c { at = away 0 });
  pending_deliveries = s.pending_deliveries + 1;
}

unfoldable pub courier_delivers : ℕ → Courier → ℕ → Shop → Shop
courier_delivers k c d s = record s {
  couriers =
      set s.couriers k (record c { at = away (d + 1); delivery_count = c.delivery_count + 1 });
  completed_orders = s.completed_orders + 1;
}

unfoldable pub courier_returns : ℕ → Courier → Shop → Shop
courier_returns k c s = record s {
  couriers = set s.couriers k (record c { at = loading; bag = [] });
  pending_deliveries = s.pending_deliveries - 1;
}

unfoldable pub reset_counters : Shop → Shop
reset_counters s = record s {
  total_orders = 0;
  completed_orders = 0;
  active_orders = 0;
  closing = false;
}

-- The constants of the source.
abbrev pub oven_capacity : ℕ
oven_capacity = 6

abbrev pub apparatus : ℕ
apparatus = 3

abbrev pub bag_capacity : ℕ
bag_capacity = 3

-- while (current_orders < BAG_CAPACITY && active_orders > 0)
abbrev pub has_room : Courier → Bool
has_room c = ltb (length c.bag) bag_capacity
