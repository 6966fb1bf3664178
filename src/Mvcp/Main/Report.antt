-- ===== src/Mvcp/Main/Report.antt =====
-- hw5/src/200104004085_main.c: what `main` prints at its end.
use native.Mathlib.Nat.{mod-add-mod}
use cse_344_homeworks.Prelude.{
  ℕ, zero, suc, ◌+◌, ◌%◌, ◌<◌, ◌≡◌, ◌∙◌, refl, sym, ap, arith, Bool, false, List, [], ◌∷◌, ◌++◌,
  append_assoc, append-nil, some, length,
}
use cse_344_homeworks.Prelude.Text.{Text}
use cse_344_homeworks.Mvcp.Worker.{Bytes, CopyEnd, copied, gave_up, blocked, copy_loop}
use cse_344_homeworks.Mvcp.Worker.Copy.{contents, Copied, copy_loop-Copied}
use cse_344_homeworks.Mvcp.Main.{
  Turn, told_to_stop, no_more, file, WorkerEnd, left_loop, returned, waiting, worker_loop, size_t,
  add_total, join_workers,
}

-- The contents of the files that a worker gets before it leaves its loop.
unfoldable pub sources : List Turn → List Bytes
unfolding contents
sources [] = []
sources (file reads writes ∷ turns) = contents reads ∷ sources turns
sources (_ ∷ turns) = []

abbrev pub bytes : List Bytes → ℕ
bytes [] = 0
bytes (s ∷ ss) = length s + bytes ss

-- Behind the loop, `srcs` have been copied, and their bytes counted.
abbrev pub Counted : (srcs : List Bytes) (total : ℕ) (outs : List Bytes) → WorkerEnd → Type 0
Counted srcs total outs (left_loop total' outs') =
    (outs' ≡ outs ++ srcs) × (total' ≡ total + bytes srcs)
Counted srcs total outs (returned outs') = Unit
Counted srcs total outs waiting = Unit

Counted-file :
    (srcs : List Bytes) (src : Bytes) (total : ℕ) (outs : List Bytes) (e : WorkerEnd)
    → Counted srcs (total + length src) (outs ++ (src ∷ [])) e
    → Counted (src ∷ srcs) total outs e
Counted-file srcs src total outs (left_loop t os) (o, k) =
    (o ∙ append_assoc outs (src ∷ []) srcs, omega (arith, k))
Counted-file srcs src total outs (returned os) c = tt
Counted-file srcs src total outs waiting c = tt

-- What a worker does behind the copy of a file.
abbrev after_copy : List Turn → List Bytes → CopyEnd → WorkerEnd
after_copy turns outs e = elim e [
  | copied read_ok out total' ↦ worker_loop turns total' (outs ++ (out ∷ []))
  | gave_up out total' ↦ returned (outs ++ (out ∷ []))
  | blocked out total' ↦ waiting
]

after_copy-Counted :
    (turns : List Turn) (src : Bytes) (total : ℕ) (outs : List Bytes)
    → ((t : ℕ) (os : List Bytes) → Counted (sources turns) t os (worker_loop turns t os))
    → (e : CopyEnd) → Copied [] src total e
    → Counted (src ∷ sources turns) total outs (after_copy turns outs e)
after_copy-Counted turns src total outs ih (copied ok out total') (o, t) =
    let counted = ih (total + length src) (outs ++ (src ∷ [])) in
    rw (o, t)
      (Counted-file (sources turns) src total outs
        (worker_loop turns (total + length src) (outs ++ (src ∷ []))) counted)
after_copy-Counted turns src total outs ih (gave_up out total') c = tt
after_copy-Counted turns src total outs ih (blocked out total') c = tt

pub worker_loop-Counted :
    (turns : List Turn) (total : ℕ) (outs : List Bytes)
    → Counted (sources turns) total outs (worker_loop turns total outs)
unfolding worker_loop sources
worker_loop-Counted [] total outs = tt
worker_loop-Counted (told_to_stop ∷ turns) total outs = (sym (append-nil outs), omega arith)
worker_loop-Counted (no_more ∷ turns) total outs = (sym (append-nil outs), omega arith)
worker_loop-Counted (file reads writes ∷ turns) total outs =
    after_copy-Counted turns (contents reads) total outs (worker_loop-Counted turns)
      (copy_loop reads writes [] total) (copy_loop-Copied reads writes [] total)

-- A worker that `main` gets to join: one that has left its loop, or, without a barrier, returned.
abbrev pub CanJoin : (barrier : Bool) → WorkerEnd → Type 0
CanJoin barrier (left_loop total outs) = Unit
CanJoin barrier (returned outs) = barrier ≡ false
CanJoin barrier waiting = ⊥

-- What the first workers have copied, of those that left their loop.
abbrev pub share : List Bytes → WorkerEnd → ℕ
share srcs (left_loop total outs) = bytes srcs
share srcs _ = 0

unfoldable pub all_copied : ℕ → (ℕ → List Turn) → ℕ
unfolding worker_loop sources
all_copied zero turns = 0
all_copied (suc i) turns =
    all_copied i turns + share (sources (turns i)) (worker_loop (turns i) 0 [])

add_total-share :
    (barrier : Bool) (srcs : List Bytes) (total : ℕ) (e : WorkerEnd)
    → CanJoin barrier e
    → Counted srcs 0 [] e
    → add_total barrier (total % size_t) e ≡ some ((total + share srcs e) % size_t)
add_total-share barrier srcs total (left_loop t os) j (o, k) =
    let sum : t ≡ bytes srcs = omega (arith, k) in
    rw sum (ap some (mod-add-mod total size_t (bytes srcs)))
add_total-share barrier srcs total (returned os) j c =
    rw j (ap (λ n. some (n % size_t)) (omega arith))
add_total-share barrier srcs total waiting j c = absurd j

pub join_workers-all_copied :
    (barrier : Bool) (n : ℕ) (turns : ℕ → List Turn)
    → ((i : ℕ) → i < n → CanJoin barrier (worker_loop (turns i) 0 []))
    → join_workers barrier n turns ≡ some (all_copied n turns % size_t)
unfolding join_workers all_copied
join_workers-all_copied barrier zero turns j = refl
join_workers-all_copied barrier (suc n) turns j =
    let before = join_workers-all_copied barrier n turns (λ i h. j i (omega arith)) in
    rw before (
      add_total-share barrier (sources (turns n)) (all_copied n turns) (worker_loop (turns n) 0 [])
        (j n (omega arith)) (worker_loop-Counted (turns n) 0 []))
