-- ===== src/Midterm/Slots.antt =====
-- midterm/server/server.c: how `main` gives a client one of the slots of `pid_array`.
use cse_344_homeworks.Prelude.{
  ℕ, zero, suc, ◌≡◌, ◌≢◌, refl, ap, ◌∙◌, ◌⊎◌, inl, inr, Bool, true, false, List, [], ◌∷◌, ◌++◌,
  Option, none, some, if◌then◌else◌, ◌==◌, set, get_elem?, take, All, arith,
}
use cse_344_homeworks.Prelude.Text.{Text, codes, starts_with}

-- kill(pid, 0) tells whether a process is there: `active`. A slot without one counts as 0.
abbrev pub refreshed : (ℕ → Bool) → ℕ → ℕ
refreshed active pid = if active pid then pid else 0

-- The loop over the slots: the number of the slot that the client gets, and the new array.
unfoldable pub assign_slot : (ℕ → Bool) → ℕ → List ℕ → Option ℕ × List ℕ
assign_slot active ppid [] = (none, [])
assign_slot active ppid (pid ∷ pid_array) =
    let rest = assign_slot active ppid pid_array in
    if refreshed active pid == 0
    then (some 0, ppid ∷ pid_array)
    else (elim rest.0 [ none ↦ none | some i ↦ some (suc i) ], refreshed active pid ∷ rest.1)

-- `queue_full` is the message that the queue is full; `sleeping` a server that still waits for a
-- slot when the attempts given run out.
pub data Connection : Type 0 where
  assigned : ℕ → List ℕ → Connection
  queue_full : List ℕ → Connection
  sleeping : List ℕ → Connection

-- "connect" or "tryConnect"
abbrev pub waits : Text → Bool
waits connect =
    if starts_with connect (codes "connect") then true else starts_with connect (codes "tryConnect")

-- while (!client_assigned): which processes are there at each attempt is given by a list.
unfoldable pub connect_client : List (ℕ → Bool) → Text → ℕ → List ℕ → Connection
unfolding assign_slot starts_with
connect_client [] connect ppid pid_array = Connection.sleeping pid_array
connect_client (active ∷ later) connect ppid pid_array =
    let (slot, pid_array') = assign_slot active ppid pid_array in
    let again = connect_client later connect ppid pid_array' in
    elim slot [
      | some i ↦ Connection.assigned i pid_array'
      | none ↦ if waits connect then again else Connection.queue_full pid_array'
    ]

-- A slot with a process that is there.
abbrev pub Occupied : (ℕ → Bool) → ℕ → Type 0
Occupied active pid = (pid ≢ 0) × (active pid ≡ true)

abbrev pub Vacant : (ℕ → Bool) → ℕ → Type 0
Vacant active pid = (pid ≡ 0) ⊎ (active pid ≡ false)

-- The first slot that is vacant, and what it holds.
abbrev pub IsFirstVacant : (ℕ → Bool) → List ℕ → ℕ → Type 0
IsFirstVacant active pid_array i =
    All (Occupied active) (take i pid_array)
    × (pid : ℕ) × (get_elem? pid_array i ≡ some pid)
    × Vacant active pid

slot_cases :
    (active : ℕ → Bool) (pid : ℕ)
    → (Vacant active pid × (refreshed active pid ≡ 0))
      ⊎ (Occupied active pid × (refreshed active pid ≡ pid))
slot_cases active pid = ground arith

abbrev pub AssignSlotIs : (ℕ → Bool) → ℕ → List ℕ → Option ℕ × List ℕ → Type 0
AssignSlotIs active ppid pid_array result =
    ((i : ℕ) × IsFirstVacant active pid_array i × (result ≡ (some i, set pid_array i ppid)))
    ⊎ (All (Occupied active) pid_array × (result ≡ (none, pid_array)))

-- The client gets the first slot that holds no process, and all other slots stay as they are; if
-- every slot holds one, it gets none and nothing changes.
pub assign_slot-AssignSlotIs :
    (active : ℕ → Bool) (ppid : ℕ) (pid_array : List ℕ)
    → AssignSlotIs active ppid pid_array (assign_slot active ppid pid_array)
unfolding assign_slot
assign_slot-AssignSlotIs active ppid [] = inr (tt, refl)
assign_slot-AssignSlotIs active ppid (pid ∷ pid_array) = elim (slot_cases active pid) [
  | inl (vacant, e) ↦ inl (0, (tt, pid, refl, vacant), rw (assign_slot, e) refl)
  | inr (occupied, e) ↦
      let full : (pid == 0) ≡ false = ground (arith, occupied) in
      elim (assign_slot-AssignSlotIs active ppid pid_array) [
        | inl (i, (before, p, there, vacant), step) ↦
            inl
              (suc i, ((occupied, before), p, there, vacant), rw (assign_slot, e, full, step) refl)
        | inr (all, step) ↦ inr ((occupied, all), rw (assign_slot, e, full, step) refl)
      ]
]

assign_slot_full :
    (active : ℕ → Bool) (ppid : ℕ) (pid_array : List ℕ)
    → All (Occupied active) pid_array
    → assign_slot active ppid pid_array ≡ (none, pid_array)
unfolding assign_slot
assign_slot_full active ppid [] all = refl
assign_slot_full active ppid (pid ∷ pid_array) all =
    let full : (pid == 0) ≡ false = ground (arith, all.0) in
    rw (assign_slot, all.0.1, full, assign_slot_full active ppid pid_array all.1) refl

assign_slot_vacant :
    (active : ℕ → Bool) (ppid : ℕ) (pid_array : List ℕ) (i : ℕ)
    → IsFirstVacant active pid_array i
    → assign_slot active ppid pid_array ≡ (some i, set pid_array i ppid)
unfolding assign_slot
assign_slot_vacant active ppid [] i v = ground (arith, v)
assign_slot_vacant active ppid (pid ∷ pid_array) zero (before, p, there, vacant) =
    let e : refreshed active pid ≡ 0 = ground (arith, there, vacant) in rw (assign_slot, e) refl
assign_slot_vacant active ppid (pid ∷ pid_array) (suc i) (before, p, there, vacant) =
    let full : (pid == 0) ≡ false = ground (arith, before.0) in
    rw
      (
        assign_slot,
        before.0.1,
        full,
        assign_slot_vacant active ppid pid_array i (before.1, p, there, vacant),
      )
      refl

-- A client that waits gets a slot as soon as there is an attempt at which one is vacant.
pub connect_client-assigned :
    (before : List (ℕ → Bool)) (active : ℕ → Bool) (later : List (ℕ → Bool)) (connect : Text)
    (ppid i : ℕ) (pid_array : List ℕ)
    → waits connect ≡ true
    → All (λ attempt. All (Occupied attempt) pid_array) before
    → IsFirstVacant active pid_array i
    → connect_client (before ++ (active ∷ later)) connect ppid pid_array
      ≡ Connection.assigned i (set pid_array i ppid)
unfolding connect_client
connect_client-assigned [] active later connect ppid i pid_array w b v =
    let step = assign_slot_vacant active ppid pid_array i v in
    rw (connect_client, step) (ap (λ r. Connection.assigned i r.1) step)
connect_client-assigned (attempt ∷ before) active later connect ppid i pid_array w b v =
    let step = assign_slot_full attempt ppid pid_array b.0 in
    rw (connect_client, step, w)
      (ap (λ r. connect_client (before ++ (active ∷ later)) connect ppid r.1) step
        ∙ connect_client-assigned before active later connect ppid i pid_array w b.1 v)

-- Any other client is told at once that the queue is full, if every slot is occupied.
pub connect_client-queue_full :
    (active : ℕ → Bool) (later : List (ℕ → Bool)) (connect : Text) (ppid : ℕ) (pid_array : List ℕ)
    → waits connect ≡ false
    → All (Occupied active) pid_array
    → connect_client (active ∷ later) connect ppid pid_array ≡ Connection.queue_full pid_array
unfolding connect_client
connect_client-queue_full active later connect ppid pid_array w all =
    let step = assign_slot_full active ppid pid_array all in
    rw (connect_client, step, w) (ap (λ r. Connection.queue_full r.1) step)
