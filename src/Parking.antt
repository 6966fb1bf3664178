-- ===== src/Parking.antt =====
-- hw3/main.c, the parking lot: car owners, attendants and exits at two kinds of spots. The code for
-- automobiles and that for pickups differ in names and numbers only, so one `Lot` serves both.
-- A thread is counted at the place where it stands: threads of one function are alike.
pub mod Inv
mod Tests
use cse_344_homeworks.Prelude.{
  ℕ, ◌+◌, ◌-◌, ◌<◌, ◌≡◌, Bool, true, false, ◌&&◌, ltb, ◌==◌, if◌then◌else◌,
}

-- The globals of one kind of vehicle: `new` and `in_charge` are its two semaphores. The `_in` counts
-- are threads that hold `new` and the mutex before their update, the `_leaving` counts those after
-- it; an attendant is `called` between its two calls of `sem_wait`, and it is its `turn` before.
pub record Lot : Type 0 where
  pub new : ℕ
  pub in_charge : ℕ
  pub free : ℕ
  pub permanent : ℕ
  pub owners_in : ℕ
  pub exits_in : ℕ
  pub attendants_in : ℕ
  pub leaving : ℕ
  pub attendants_leaving : ℕ
  pub called : ℕ
  pub turn : ℕ

-- `initialize_semaphores`, and the number of attendants that start here.
unfoldable pub initialize : (spots attendants : ℕ) → Lot
initialize spots attendants = record {
  new = 1;
  in_charge = 0;
  free = spots;
  permanent = spots;
  owners_in = 0;
  exits_in = 0;
  attendants_in = 0;
  leaving = 0;
  attendants_leaving = 0;
  called = 0;
  turn = attendants;
}

-- `carOwner`, what it does under the mutex.
unfoldable pub park : Lot → Lot
park l = if ltb 0 l.free then record l { free = l.free - 1; in_charge = l.in_charge + 1 } else l

-- `carAttendant`, likewise.
unfoldable pub move_to_permanent : Lot → Lot
move_to_permanent l =
    if ltb 0 l.permanent then record l { permanent = l.permanent - 1; free = l.free + 1 } else l

-- `carExit`, likewise; `spots` is the constant 8 or 4 of the source.
unfoldable pub leave_temporary : ℕ → Lot → Lot
leave_temporary spots l = if ltb l.free spots then record l { free = l.free + 1 } else l

-- One step of one thread at a lot. Owners and exits choose their kind of vehicle at random: the
-- steps let any number of them come at any time, which covers the two and two of the program.
pub data LotStep (spots : ℕ) (l m : Lot) : Type 0 where
  owner_enters :
      0 < l.new → m ≡ record l { new = l.new - 1; owners_in = l.owners_in + 1 } → LotStep spots l m
  owner_parks :
      0 < l.owners_in
      → m ≡ park (record l { owners_in = l.owners_in - 1; leaving = l.leaving + 1 })
      → LotStep spots l m
  exit_enters :
      0 < l.new → m ≡ record l { new = l.new - 1; exits_in = l.exits_in + 1 } → LotStep spots l m
  exit_frees :
      0 < l.exits_in
      → m ≡ leave_temporary spots (record l { exits_in = l.exits_in - 1; leaving = l.leaving + 1 })
      → LotStep spots l m
  attendant_called :
      0 < l.turn
      → 0 < l.in_charge
      → m ≡ record l { turn = l.turn - 1; in_charge = l.in_charge - 1; called = l.called + 1 }
      → LotStep spots l m
  attendant_enters :
      0 < l.called
      → 0 < l.new
      → m ≡ record l { called = l.called - 1; new = l.new - 1; attendants_in = l.attendants_in + 1 }
      → LotStep spots l m
  attendant_moves :
      0 < l.attendants_in
      → m
        ≡ move_to_permanent (record l {
          attendants_in = l.attendants_in - 1;
          attendants_leaving = l.attendants_leaving + 1;
        })
      → LotStep spots l m
  leaves :
      0 < l.leaving → m ≡ record l { leaving = l.leaving - 1; new = l.new + 1 } → LotStep spots l m

pub record Garage : Type 0 where
  pub automobile : Lot
  pub pickup : Lot
  pub all_spots_full : Bool

-- `main`: two attendants, which begin with the automobiles.
unfoldable pub opening : Garage
unfolding initialize
opening = record { automobile = initialize 8 2; pickup = initialize 4 0; all_spots_full = false }

unfoldable pub check_all_spots_full : Garage → Garage
check_all_spots_full g =
    if (g.automobile.permanent == 0)
      && (g.pickup.permanent == 0)
      && (g.automobile.free == 0)
      && (g.pickup.free == 0)
    then record g { all_spots_full = true }
    else g

-- `sem_post(&new…)` of an attendant, who then goes on to the other kind.
abbrev pub released : Lot → Lot
released l = record l { attendants_leaving = l.attendants_leaving - 1; new = l.new + 1 }

abbrev pub awaited : Lot → Lot
awaited l = record l { turn = l.turn + 1 }

pub data Step (g h : Garage) : Type 0 where
  automobiles : {l : Lot} → LotStep 8 g.automobile l → h ≡ record g { automobile = l } → Step g h
  pickups : {l : Lot} → LotStep 4 g.pickup l → h ≡ record g { pickup = l } → Step g h
  to_pickups :
      0 < g.automobile.attendants_leaving
      → h ≡ record g { automobile = released g.automobile; pickup = awaited g.pickup }
      → Step g h
  to_automobiles :
      0 < g.pickup.attendants_leaving
      → h ≡ record g { automobile = awaited g.automobile; pickup = released g.pickup }
      → Step g h
  checks : h ≡ check_all_spots_full g → Step g h

pub data Reach : Garage → Type 0 where
  start : Reach opening
  next : {g h : Garage} → Reach g → Step g h → Reach h
