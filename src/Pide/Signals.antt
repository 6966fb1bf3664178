-- ===== src/Pide/Signals.antt =====
-- final/server.c: the shop with its condition variables. A thread that waits is asleep until a signal
-- wakes it; `pthread_cond_signal` wakes one of the threads that wait, whichever it is. `order_cond` is
-- for cooks, `delivery_cond` for couriers and the second wait of `main`, and `completion_cond` for its
-- first wait and `handle_completion_updates`.
use cse_344_homeworks.Prelude.{ℕ, ◌≡◌, ◌≢◌, List, some, get_elem?, set, All, replicate}
use cse_344_homeworks.Pide.Shop.{Shop}
use cse_344_homeworks.Pide.Shop.Runs.{opening}

-- Asleep in a wait, or between the end of a section and the signal behind it.
pub data Nap : Type 0 where
  awake asleep to_signal : Nap

-- `main` before its first wait, in it, before the second, in it, and behind both.
pub data MainAt : Type 0 where
  first_test first_wait second_test second_wait resetting : MainAt

-- `handle_completion_updates`.
pub data CompletionAt : Type 0 where
  accepting testing waiting : CompletionAt

pub record Waits : Type 0 where
  pub shop : Shop
  pub cook_naps : List Nap
  pub courier_naps : List Nap
  pub main_at : MainAt
  pub completion_at : CompletionAt
  pub told : ℕ  -- clients that got "All orders completed"

unfoldable pub opened : (cook_pool_size delivery_pool_size : ℕ) → Waits
opened cooks couriers = record {
  shop = opening cooks couriers;
  cook_naps = replicate cooks awake;
  courier_naps = replicate couriers awake;
  main_at = first_test;
  completion_at = accepting;
  told = 0;
}

abbrev pub cook_nap : ℕ → Nap → Waits → Waits
cook_nap k nap s = record s { cook_naps = set s.cook_naps k nap }

abbrev pub courier_nap : ℕ → Nap → Waits → Waits
courier_nap k nap s = record s { courier_naps = set s.courier_naps k nap }

abbrev pub NotAsleep : Nap → Type 0
NotAsleep nap = nap ≢ asleep

-- pthread_cond_signal(&order_cond)
pub data SignalOrder (s t : Waits) : Type 0 where
  cook_wakes :
      (k : ℕ) → get_elem? s.cook_naps k ≡ some asleep → t ≡ cook_nap k awake s → SignalOrder s t
  no_cook : All NotAsleep s.cook_naps → t ≡ s → SignalOrder s t

-- pthread_cond_signal(&delivery_cond)
pub data SignalDelivery (s t : Waits) : Type 0 where
  courier_wakes :
      (k : ℕ)
      → get_elem? s.courier_naps k ≡ some asleep
      → t ≡ courier_nap k awake s
      → SignalDelivery s t
  main_wakes : s.main_at ≡ second_wait → t ≡ record s { main_at = second_test } → SignalDelivery s t
  nobody : All NotAsleep s.courier_naps → s.main_at ≢ second_wait → t ≡ s → SignalDelivery s t

-- pthread_cond_signal(&completion_cond)
pub data SignalCompletion (s t : Waits) : Type 0 where
  main_wakes : s.main_at ≡ first_wait → t ≡ record s { main_at = first_test } → SignalCompletion s t
  completion_wakes :
      s.completion_at ≡ waiting → t ≡ record s { completion_at = testing } → SignalCompletion s t
  nobody : s.main_at ≢ first_wait → s.completion_at ≢ waiting → t ≡ s → SignalCompletion s t
