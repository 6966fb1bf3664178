-- ===== src/Parking/Tests.antt =====
-- hw3/main.c: runs of the parking lot, and its theorems at states that they reach.
use cse_344_homeworks.Prelude.{◌-◌, ◌+◌, ◌≡◌, refl, true, arith}
use cse_344_homeworks.Parking.{
  Lot, park, leave_temporary, LotStep, owner_enters, owner_parks, exit_enters, exit_frees,
  attendant_called, attendant_enters, attendant_moves, move_to_permanent, leaves, Garage, opening,
  check_all_spots_full, automobiles, Reach, start, next,
}
use cse_344_homeworks.Parking.Inv.{GarageInv, Reach-GarageInv}

at_automobiles :
    {g : Garage} {l : Lot}
    → LotStep 8 g.automobile l
    → Reach g
    → Reach (record g { automobile = l })
at_automobiles st r = next r (automobiles st refl)

-- An automobile parks and leaves again, and then an attendant comes for it.
abbrev first_lot : Lot
first_lot = opening.automobile

abbrev haunted : Garage
haunted = record opening { automobile = record first_lot { new = 0; turn = 1; attendants_in = 1 } }

haunted_reached : Reach haunted
unfolding opening park leave_temporary
haunted_reached = at_automobiles (attendant_enters (omega arith) (omega arith) refl) (
    at_automobiles (attendant_called (omega arith) (omega arith) refl) (
      at_automobiles (leaves (omega arith) refl) (
        at_automobiles (exit_frees (omega arith) refl) (
          at_automobiles (exit_enters (omega arith) refl) (
            at_automobiles (leaves (omega arith) refl) (
              at_automobiles (owner_parks (omega arith) refl)
                (at_automobiles (owner_enters (omega arith) refl) start)))))))

Reach-GarageInv_example : GarageInv haunted
Reach-GarageInv_example = Reach-GarageInv haunted_reached

-- The attendant moves a vehicle that is gone: nine free spots of eight.
abbrev nine_free : Garage
unfolding move_to_permanent
nine_free = record haunted {
  automobile = move_to_permanent (record haunted.automobile {
    attendants_in = haunted.automobile.attendants_in - 1;
    attendants_leaving = haunted.automobile.attendants_leaving + 1;
  });
}

nine_free-Reach : Reach nine_free × (nine_free.automobile.free ≡ 9)
unfolding opening park leave_temporary move_to_permanent
nine_free-Reach = (at_automobiles (attendant_moves (omega arith) refl) haunted_reached, refl)

full_lot_flag :
    (check_all_spots_full (record opening {
      automobile = record (opening.automobile) { free = 0; permanent = 0 };
      pickup = record (opening.pickup) { free = 0; permanent = 0 };
    })).all_spots_full
    ≡ true
unfolding check_all_spots_full
full_lot_flag = refl
