-- ===== src/Pide/Waits/Refine.antt =====
-- final/server.c: without their waits and signals, the threads do what Pide/Shop/Runs.antt says.
use cse_344_homeworks.Prelude.{◌≡◌, ◌⊎◌, inl, inr, ap, ℕ, some, get_elem?}
use cse_344_homeworks.Pide.Shop.{Shop, Courier}
use cse_344_homeworks.Pide.Shop.Runs.{Serve, Step, serves}
use cse_344_homeworks.Pide.Signals.{Waits, SignalOrder, SignalDelivery, SignalCompletion}
use cse_344_homeworks.Pide.Waits.{Client, Cook, Delivery, Main, Completion, Move, Reach}
use cse_344_homeworks.Pide.Waits

-- A step of the shop, or none; the second within a batch.
abbrev pub Follows : Shop → Shop → Type 0
Follows s t = (t ≡ s) ⊎ Step s t

abbrev pub Serves : Shop → Shop → Type 0
Serves s t = (t ≡ s) ⊎ Serve s t

follows : (s t : Shop) → Serves s t → Follows s t
follows s t (inl e) = inl e
follows s t (inr st) = inr (serves st)

pub SignalOrder-shop : {s t : Waits} → SignalOrder s t → t.shop ≡ s.shop
SignalOrder-shop (SignalOrder.cook_wakes k a e) = ap (λ s. s.shop) e
SignalOrder-shop (SignalOrder.no_cook a e) = ap (λ s. s.shop) e

pub SignalDelivery-shop : {s t : Waits} → SignalDelivery s t → t.shop ≡ s.shop
SignalDelivery-shop (SignalDelivery.courier_wakes k a e) = ap (λ s. s.shop) e
SignalDelivery-shop (SignalDelivery.main_wakes a e) = ap (λ s. s.shop) e
SignalDelivery-shop (SignalDelivery.nobody a b e) = ap (λ s. s.shop) e

SignalCompletion-shop : {s t : Waits} → SignalCompletion s t → t.shop ≡ s.shop
SignalCompletion-shop (SignalCompletion.main_wakes a e) = ap (λ s. s.shop) e
SignalCompletion-shop (SignalCompletion.completion_wakes a e) = ap (λ s. s.shop) e
SignalCompletion-shop (SignalCompletion.nobody a b e) = ap (λ s. s.shop) e

pub Cook-Serves : {s t : Waits} (k : ℕ) → Cook k s t → Serves s.shop t.shop
Cook-Serves k (Cook.waits a b c e) = inl (ap (λ s. s.shop) e)
Cook-Serves k (Cook.takes i a b c d e) = inr (Serve.takes k i a c d (ap (λ s. s.shop) e))
Cook-Serves k (Cook.waits_for_oven i a b c e) = inl (ap (λ s. s.shop) e)
Cook-Serves k (Cook.bakes i a b c d e) = inr (Serve.bakes k i a c d (ap (λ s. s.shop) e))
Cook-Serves k (Cook.finishes i a g) = inr (Serve.finishes k i a (SignalOrder-shop g))
Cook-Serves k (Cook.signals a g) = inl (SignalDelivery-shop g)

pub Delivery-Serves :
    {s t : Waits} (k : ℕ) (c : Courier)
    → get_elem? s.shop.couriers k ≡ some c
    → Delivery k c s t
    → Serves s.shop t.shop
Delivery-Serves k c g (Delivery.loads i o n a r p f h e) =
    inr (Serve.loads k i c o g a r p f h (ap (λ s. s.shop) e))
Delivery-Serves k c g (Delivery.waits n a r p f e) = inl (ap (λ s. s.shop) e)
Delivery-Serves k c g (Delivery.sets_off n a b r e) =
    inr (Serve.sets_off k c g a b r (ap (λ s. s.shop) e))
Delivery-Serves k c g (Delivery.delivers d n a b e) =
    inr (Serve.delivers k d c g a b (ap (λ s. s.shop) e))
Delivery-Serves k c g (Delivery.signals d n a b w) = inl (SignalCompletion-shop w)
Delivery-Serves k c g (Delivery.returns d n a b w) =
    inr (Serve.returns k d c g a b (SignalDelivery-shop w))

Main-Follows : {s t : Waits} → Main s t → Follows s.shop t.shop
Main-Follows (Main.waits a b e) = inl (ap (λ s. s.shop) e)
Main-Follows (Main.goes_on a b e) = inl (ap (λ s. s.shop) e)
Main-Follows (Main.waits_for_all a b e) = inl (ap (λ s. s.shop) e)
Main-Follows (Main.closes a b c e) = inr (serves (Serve.checks b c (ap (λ s. s.shop) e)))
Main-Follows (Main.resets a b e) = inr (Step.resets b (ap (λ s. s.shop) e))

pub Completion-Serves : {s t : Waits} → Completion s t → Serves s.shop t.shop
Completion-Serves (Completion.accepts a e) = inl (ap (λ s. s.shop) e)
Completion-Serves (Completion.waits a b e) = inl (ap (λ s. s.shop) e)
Completion-Serves (Completion.tells a b e) = inl (ap (λ s. s.shop) e)

Move-Follows : {s t : Waits} → Move s t → Follows s.shop t.shop
Move-Follows (Move.cook k st) = follows _ _ (Cook-Serves k st)
Move-Follows (Move.courier k c g st) = follows _ _ (Delivery-Serves k c g st)
Move-Follows (Move.main st) = Main-Follows st
Move-Follows (Move.completion st) = follows _ _ (Completion-Serves st)

Step-Follows : {s t : Waits} → Waits.Step s t → Follows s.shop t.shop
Step-Follows (Waits.Step.arrives (Client.client junk order g)) =
    inr (serves (Serve.client junk order (SignalOrder-shop g)))
Step-Follows (Waits.Step.moves st) = Move-Follows st
Step-Follows (Waits.Step.cook_spurious k a e) = inl (ap (λ s. s.shop) e)
Step-Follows (Waits.Step.courier_spurious k a e) = inl (ap (λ s. s.shop) e)
Step-Follows (Waits.Step.main_spurious a e) = inl (ap (λ s. s.shop) e)
Step-Follows (Waits.Step.main_spurious' a e) = inl (ap (λ s. s.shop) e)
Step-Follows (Waits.Step.completion_spurious a e) = inl (ap (λ s. s.shop) e)
