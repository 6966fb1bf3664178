-- ===== src/Parking/Inv.antt =====
-- hw3/main.c: what holds in every state of the parking lot.
use cse_344_homeworks.Prelude.{ℕ, ◌+◌, ◌≤◌, ◌<◌, ◌≡◌, arith, subst, sym}
use cse_344_homeworks.Parking.{
  Lot, park, move_to_permanent, leave_temporary, LotStep, owner_enters, owner_parks, exit_enters,
  exit_frees, attendant_called, attendant_enters, attendant_moves, leaves, Garage, opening,
  check_all_spots_full, Step, automobiles, pickups, to_pickups, to_automobiles, checks, Reach,
  start, next,
}

-- The threads between `sem_wait` and `sem_post` on `new`.
abbrev pub inside : Lot → ℕ
inside l = l.owners_in + l.exits_in + l.attendants_in + l.leaving + l.attendants_leaving

abbrev pub attendants : Lot → ℕ
attendants l = l.turn + l.called + l.attendants_in + l.attendants_leaving

pub record LotInv (spots : ℕ) (l : Lot) : Type 0 where
  pub one_inside : l.new + inside l ≡ 1
  pub permanent_bound : l.permanent ≤ spots
  pub spots_bound : l.free + l.permanent ≤ spots + spots

LotStep-LotInv : {spots : ℕ} {l m : Lot} → LotStep spots l m → LotInv spots l → LotInv spots m
unfolding park move_to_permanent leave_temporary
LotStep-LotInv {spots} {l} (owner_enters g e) v = subst (LotInv spots) (sym e) (ground arith)
LotStep-LotInv {spots} {l} (owner_parks g e) v = subst (LotInv spots) (sym e) (ground arith)
LotStep-LotInv {spots} {l} (exit_enters g e) v = subst (LotInv spots) (sym e) (ground arith)
LotStep-LotInv {spots} {l} (exit_frees g e) v = subst (LotInv spots) (sym e) (ground arith)
LotStep-LotInv {spots} {l} (attendant_called g k e) v = subst (LotInv spots) (sym e) (ground arith)
LotStep-LotInv {spots} {l} (attendant_enters g k e) v = subst (LotInv spots) (sym e) (ground arith)
LotStep-LotInv {spots} {l} (attendant_moves g e) v = subst (LotInv spots) (sym e) (ground arith)
LotStep-LotInv {spots} {l} (leaves g e) v = subst (LotInv spots) (sym e) (ground arith)

LotStep-attendants : {spots : ℕ} {l m : Lot} → LotStep spots l m → attendants m ≡ attendants l
unfolding park move_to_permanent leave_temporary
LotStep-attendants (owner_enters g e) = ground arith
LotStep-attendants (owner_parks g e) = ground arith
LotStep-attendants (exit_enters g e) = ground arith
LotStep-attendants (exit_frees g e) = ground arith
LotStep-attendants (attendant_called g k e) = ground arith
LotStep-attendants (attendant_enters g k e) = ground arith
LotStep-attendants (attendant_moves g e) = ground arith
LotStep-attendants (leaves g e) = ground arith

pub record GarageInv (g : Garage) : Type 0 where
  pub automobile_ok : LotInv 8 g.automobile
  pub pickup_ok : LotInv 4 g.pickup
  pub two_attendants : attendants g.automobile + attendants g.pickup ≡ 2

Step-GarageInv : {g h : Garage} → Step g h → GarageInv g → GarageInv h
unfolding check_all_spots_full
Step-GarageInv {g} (automobiles st e) v = subst GarageInv (sym e) (record {
  automobile_ok = LotStep-LotInv st v.automobile_ok;
  pickup_ok = v.pickup_ok;
  two_attendants = omega (arith, LotStep-attendants st, v.two_attendants);
})
Step-GarageInv {g} (pickups st e) v = subst GarageInv (sym e) (record {
  automobile_ok = v.automobile_ok;
  pickup_ok = LotStep-LotInv st v.pickup_ok;
  two_attendants = omega (arith, LotStep-attendants st, v.two_attendants);
})
Step-GarageInv {g} (to_pickups k e) v = subst GarageInv (sym e) (ground arith)
Step-GarageInv {g} (to_automobiles k e) v = subst GarageInv (sym e) (ground arith)
Step-GarageInv {g} (checks e) v = subst GarageInv (sym e) (ground arith)

-- In every state that the program reaches: of each kind, at most one thread is between `sem_wait`
-- and `sem_post` on `new`, and `new` is 1 exactly when there is none; at most the initial number of
-- permanent spots is left; the free temporary and permanent spots together are at most twice that
-- number; and each of the two attendants is at one place.
pub Reach-GarageInv : {g : Garage} → Reach g → GarageInv g
unfolding opening
Reach-GarageInv start = omega arith
Reach-GarageInv (next r st) = Step-GarageInv st (Reach-GarageInv r)

attendant_moves_free :
    (l : Lot) (spots : ℕ) → l.free ≡ spots → 0 < l.permanent → spots < (move_to_permanent l).free
unfolding move_to_permanent
attendant_moves_free l spots f p = ground arith
