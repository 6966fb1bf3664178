-- ===== src/Mvcp/Worker/Copy.antt =====
-- What a worker has copied, however `read` and `write` cut the data up.
use cse_344_homeworks.Prelude.{
  ℕ, zero, suc, ◌+◌, ◌≤◌, ◌≡◌, refl, ◌∙◌, sym, ap, List, [], ◌∷◌, ◌++◌, append_assoc, append-nil,
  take, drop, length, true, arith, take-append-drop, length-drop, All, length-append, subst,
}
use cse_344_homeworks.Mvcp.Worker.{
  Bytes, WriteResult, wrote, write_interrupted, write_failed, ReadResult, chunk, end_of_file,
  read_interrupted, read_failed, WriteEnd, written, failed, writing, write_all, CopyEnd, copied,
  gave_up, blocked, copy_loop,
}

abbrev pub IsPrefix : Bytes → Bytes → Type 0
IsPrefix a b = (rest : Bytes) × (a ++ rest ≡ b)

-- The bytes that reached the destination, against those that were to be written.
abbrev pub Wrote : Bytes → WriteEnd → Type 0
Wrote all (written out ws) = out ≡ all
Wrote all (failed out) = IsPrefix out all
Wrote all (writing out) = IsPrefix out all

pub write_all-Wrote :
    (ws : List WriteResult) (left out : Bytes) → Wrote (out ++ left) (write_all ws left out)
unfolding write_all
write_all-Wrote ws [] out = sym (append-nil out)
write_all-Wrote [] (x ∷ left) out = (x ∷ left, refl)
write_all-Wrote (wrote k ∷ ws) (x ∷ left) out =
    let all : (out ++ take k (x ∷ left)) ++ drop k (x ∷ left) ≡ out ++ (x ∷ left) =
      append_assoc out (take k (x ∷ left)) (drop k (x ∷ left))
      ∙ ap (λ l. out ++ l) (take-append-drop k (x ∷ left)) in
    rw all at (write_all-Wrote ws (drop k (x ∷ left)) (out ++ take k (x ∷ left)))
write_all-Wrote (write_interrupted ∷ ws) (x ∷ left) out = write_all-Wrote ws (x ∷ left) out
write_all-Wrote (write_failed ∷ ws) (x ∷ left) out = (x ∷ left, refl)

-- The contents of the source: what `read` hands out before it first returns 0 or -1.
unfoldable pub contents : List ReadResult → Bytes
contents [] = []
contents (chunk x xs ∷ rs) = (x ∷ xs) ++ contents rs
contents (_ ∷ rs) = []

-- What the copy of a file leaves at the destination, which held `out` before, and adds to
-- `total_bytes`.
abbrev pub Copied : Bytes → Bytes → ℕ → CopyEnd → Type 0
Copied out src total (copied ok out' total') = (out' ≡ out ++ src) × (total' ≡ total + length src)
Copied out src total (gave_up out' total') =
    IsPrefix out' (out ++ src) × (total' ≤ total + length src)
Copied out src total (blocked out' total') =
    IsPrefix out' (out ++ src) × (total' ≤ total + length src)

Copied-chunk :
    (out c src : Bytes) (total : ℕ) (e : CopyEnd)
    → Copied (out ++ c) src (total + length c) e
    → Copied out (c ++ src) total e
Copied-chunk out c src total (copied ok out' total') (o, t) =
    (o ∙ append_assoc out c src, omega (arith, length-append c src))
Copied-chunk out c src total (gave_up out' total') ((rest, o), t) =
    ((rest, o ∙ append_assoc out c src), omega (arith, length-append c src))
Copied-chunk out c src total (blocked out' total') ((rest, o), t) =
    ((rest, o ∙ append_assoc out c src), omega (arith, length-append c src))

IsPrefix-more : (a out c src : Bytes) → IsPrefix a (out ++ c) → IsPrefix a (out ++ (c ++ src))
IsPrefix-more a out c src (rest, e) =
    (rest ++ src, sym (append_assoc a rest src) ∙ ap (λ l. l ++ src) e ∙ append_assoc out c src)

-- What `copy_loop` does once the chunk `c` has been written, or not.
abbrev go_on : List ReadResult → Bytes → ℕ → WriteEnd → CopyEnd
go_on rs c total e = elim e [
  | written out' ws' ↦ copy_loop rs ws' out' (total + length c)
  | failed out' ↦ gave_up out' total
  | writing out' ↦ blocked out' total
]

go_on-Copied :
    (rs : List ReadResult) (c out : Bytes) (total : ℕ) (e : WriteEnd)
    → ((ws : List WriteResult) (o : Bytes) (t : ℕ) → Copied o (contents rs) t (copy_loop rs ws o t))
    → Wrote (out ++ c) e
    → Copied out (c ++ contents rs) total (go_on rs c total e)
go_on-Copied rs c out total (written out' ws') ih w =
    let t = total + length c in
    Copied-chunk out c (contents rs) total (copy_loop rs ws' out' t)
      (subst (λ o. Copied o (contents rs) t (copy_loop rs ws' out' t)) w (ih ws' out' t))
go_on-Copied rs c out total (failed out') ih w =
    (IsPrefix-more out' out c (contents rs) w, omega arith)
go_on-Copied rs c out total (writing out') ih w =
    (IsPrefix-more out' out c (contents rs) w, omega arith)

-- However `read` cuts the source into chunks and `write` takes them in parts, with interruptions
-- between: when the loop over `read` comes to its end, the destination has received exactly the
-- bytes read before the first 0 or -1, and `total_bytes` has grown by their number; when a write
-- fails, or a call has not come back, it has received a prefix of them, and `total_bytes` has not
-- grown by more.
pub copy_loop-Copied :
    (rs : List ReadResult) (ws : List WriteResult) (out : Bytes) (total : ℕ)
    → Copied out (contents rs) total (copy_loop rs ws out total)
unfolding copy_loop contents
copy_loop-Copied [] ws out total = (([], refl), omega arith)
copy_loop-Copied (chunk x xs ∷ rs) ws out total =
    go_on-Copied rs (x ∷ xs) out total (write_all ws (x ∷ xs) out)
      (λ ws' o t. copy_loop-Copied rs ws' o t) (write_all-Wrote ws (x ∷ xs) out)
copy_loop-Copied (end_of_file ∷ rs) ws out total = (sym (append-nil out), omega arith)
copy_loop-Copied (read_interrupted ∷ rs) ws out total = (sym (append-nil out), omega arith)
copy_loop-Copied (read_failed ∷ rs) ws out total = (sym (append-nil out), omega arith)

abbrev pub DoesNotFail : WriteResult → Type 0
DoesNotFail write_failed = ⊥
DoesNotFail _ = Unit

-- The results of `write` that make progress: one byte at least.
abbrev pub productive : List WriteResult → ℕ
productive [] = 0
productive (wrote zero ∷ ws) = productive ws
productive (wrote (suc k) ∷ ws) = suc (productive ws)
productive (_ ∷ ws) = productive ws

write_all_ends :
    (ws : List WriteResult) (left out : Bytes)
    → All DoesNotFail ws
    → length left ≤ productive ws
    → (out' : Bytes) × (ws' : List WriteResult) × (write_all ws left out ≡ written out' ws')
      × All DoesNotFail ws'
      × (productive ws ≤ productive ws' + length left)
unfolding write_all
write_all_ends ws [] out p h = (out, ws, refl, p, omega arith)
write_all_ends [] (x ∷ left) out p h = absurd (omega arith)
write_all_ends (wrote zero ∷ ws) (x ∷ left) out p h = write_all_ends ws (x ∷ left) (out ++ []) p.1 h
write_all_ends (wrote (suc k) ∷ ws) (x ∷ left) out p h =
    let shorter = length-drop k left in
    let (out', ws', e, q, n) =
      write_all_ends ws (drop k left) (out ++ (x ∷ take k left)) p.1 (omega arith) in
    (out', ws', e, q, omega arith)
write_all_ends (write_interrupted ∷ ws) (x ∷ left) out p h = write_all_ends ws (x ∷ left) out p.1 h
write_all_ends (write_failed ∷ ws) (x ∷ left) out p h = absurd p.0

-- The chunks of a source that `read` brings to its end.
abbrev pub reads : List (ℕ × Bytes) → List ReadResult
reads [] = end_of_file ∷ []
reads ((x, xs) ∷ cs) = chunk x xs ∷ reads cs

copy_loop_ends :
    (cs : List (ℕ × Bytes)) (ws : List WriteResult) (out : Bytes) (total : ℕ)
    → All DoesNotFail ws
    → length (contents (reads cs)) ≤ productive ws
    → (out' : Bytes) × (total' : ℕ) × (copy_loop (reads cs) ws out total ≡ copied true out' total')
unfolding copy_loop contents
copy_loop_ends [] ws out total p h = (out, total, refl)
copy_loop_ends ((x, xs) ∷ cs) ws out total p h =
    let all = length-append (x ∷ xs) (contents (reads cs)) in
    let (o, ws', e, q, n) = write_all_ends ws (x ∷ xs) out p (omega arith) in
    let (out', total', f) = copy_loop_ends cs ws' o (total + length (x ∷ xs)) q (omega arith) in
    (out', total', rw (e, copy_loop) f)

-- If every `read` succeeds up to the end of the file, and no `write` fails but by an interruption,
-- and at least as many of them as the source has bytes write something, the copy comes to its end
-- without an error, an empty destination has received the whole source, and `total_bytes` has grown
-- by its length.
pub copy_loop_total :
    (cs : List (ℕ × Bytes)) (ws : List WriteResult) (total : ℕ)
    → All DoesNotFail ws
    → length (contents (reads cs)) ≤ productive ws
    → copy_loop (reads cs) ws [] total
      ≡ copied true (contents (reads cs)) (total + length (contents (reads cs)))
copy_loop_total cs ws total p h =
    let (out, total', e) = copy_loop_ends cs ws [] total p h in
    let (o, t) =
      subst (Copied [] (contents (reads cs)) total) e (copy_loop-Copied (reads cs) ws [] total) in
    cc
