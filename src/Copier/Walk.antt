-- ===== src/Copier/Walk.antt =====
-- hw4/src/200104004085_manager.c: the walk over the source tree, whose functions have the text of those
-- of hw5, and the threads that it keeps busy.
use cse_344_homeworks.Prelude.{
  ℕ, ◌+◌, ◌≤◌, ◌<◌, ◌≡◌, ◌⊎◌, Bool, true, false, List, [], ◌∷◌, ◌++◌, Option, none, some,
  if◌then◌else◌, length, subst, Option-cases, inl, inr,
}
use cse_344_homeworks.Prelude.Text.{Text}
use cse_344_homeworks.Mvcp.Buffer.{FileDescriptor}
use cse_344_homeworks.Mvcp.Buffer.Inv.{int_max}
use cse_344_homeworks.Mvcp.Threads.Progress.{NoEarly}
use cse_344_homeworks.Mvcp.Manager.{
  Node, directory, fifo, regular, other, unreadable, Entries, nil, entry, Event, ensured, made_fifo,
  queued, closed, done_set, Walk, World, log, tasks, task_of, parent, join, is_dot, ◌>>=◌,
  open_both,
}
use cse_344_homeworks.Mvcp.Manager
use cse_344_homeworks.Copier.{System, start, Reach, all_joined}
use cse_344_homeworks.Copier.Progress.{CanMove, threads_move}

module _ (world : World) where
  abbrev pub create_directory_if_not_exists : Text → Walk → Option Walk
  create_directory_if_not_exists = Manager.create_directory_if_not_exists world

  abbrev pub ensure_parent_directories_exist : Text → Walk → Option Walk
  ensure_parent_directories_exist = Manager.ensure_parent_directories_exist world

  abbrev pub copy_fifo : Text → Walk → Option Walk
  copy_fifo = Manager.copy_fifo world

  abbrev pub copy_regular : Text → Option ℕ → Option ℕ → Walk → Option Walk
  copy_regular = Manager.copy_regular world

  abbrev pub process_entry : Node → Text → Walk → Option Walk
  process_entry = Manager.process_entry world

  abbrev pub process_entries : Entries → Text → Walk → Option Walk
  process_entries = Manager.process_entries world

  abbrev pub process_directory : Bool → Entries → Text → Walk → Option Walk
  process_directory = Manager.process_directory world

-- Every directory of a source tree can be opened.
unfoldable mutual
  pub Openable : Node → Type 0
  Openable (directory readable entries) = (readable ≡ true) × AllOpenable entries
  Openable fifo = Unit
  Openable (regular open_src open_dst) = Unit
  Openable other = Unit
  Openable unreadable = Unit

  pub AllOpenable : Entries → Type 0
  AllOpenable nil = Unit
  AllOpenable (entry d_name node rest) = Openable node × AllOpenable rest

-- A walk, if it comes back, has not set the flag of the buffer.
abbrev Quiet : Option Walk → Type 0
Quiet none = Unit
Quiet (some w) = NoEarly (tasks w.events)

Quiet-bind :
    (o : Option Walk) (f : Walk → Option Walk)
    → Quiet o
    → ((w : Walk) → NoEarly (tasks w.events) → Quiet (f w))
    → Quiet (o >>= f)
Quiet-bind none f q h = tt
Quiet-bind (some w) f q h = h w q

NoEarly-append :
    (l : List Event) (e : Event)
    → NoEarly (tasks l)
    → NoEarly (task_of e)
    → NoEarly (tasks (l ++ (e ∷ [])))
NoEarly-append [] (ensured p) h g = tt
NoEarly-append [] (made_fifo p) h g = tt
NoEarly-append [] (queued p s d) h g = tt
NoEarly-append [] (closed s) h g = tt
NoEarly-append [] done_set h g = g
NoEarly-append (ensured p ∷ l) e h g = NoEarly-append l e h g
NoEarly-append (made_fifo p ∷ l) e h g = NoEarly-append l e h g
NoEarly-append (queued p s d ∷ l) e h g = NoEarly-append l e h g
NoEarly-append (closed s ∷ l) e h g = NoEarly-append l e h g
NoEarly-append (done_set ∷ l) e h g = h

if-Quiet : (t : Bool) (o p : Option Walk) → Quiet o → Quiet p → Quiet (if t then o else p)
if-Quiet true o p h g = h
if-Quiet false o p h g = g

module _ (world : World) where
  create_directory-Quiet :
      (p : Text) (w : Walk)
      → NoEarly (tasks w.events)
      → Quiet (create_directory_if_not_exists world p w)
  unfolding Manager.create_directory_if_not_exists
  create_directory-Quiet p w h =
      if-Quiet (world.available p) (some (log (ensured p) w)) none
        (NoEarly-append w.events (ensured p) h tt) tt

  ensure_parent-Quiet :
      (p : Text) (w : Walk)
      → NoEarly (tasks w.events)
      → Quiet (ensure_parent_directories_exist world p w)
  unfolding Manager.ensure_parent_directories_exist
  ensure_parent-Quiet p w h = elim (Option-cases (parent p)) [
    | inl e ↦ rw (Quiet, Manager.ensure_parent_directories_exist, e) h
    | inr (dir_path, e) ↦
        rw (Quiet, Manager.ensure_parent_directories_exist, e) (create_directory-Quiet dir_path w h)
  ]

  open_both-NoEarly :
      (p : Text) (open_src open_dst : Option ℕ) (w : Walk)
      → NoEarly (tasks w.events)
      → NoEarly (tasks (open_both p open_src open_dst w).events)
  open_both-NoEarly p none open_dst w h = h
  open_both-NoEarly p (some src) none w h = NoEarly-append w.events (closed src) h tt
  open_both-NoEarly p (some src) (some dst) w h = NoEarly-append w.events (queued p src dst) h tt

  copy_fifo-Quiet : (p : Text) (w : Walk) → NoEarly (tasks w.events) → Quiet (copy_fifo world p w)
  unfolding Manager.copy_fifo
  copy_fifo-Quiet p w h =
      Quiet-bind (ensure_parent_directories_exist world p w) _ (ensure_parent-Quiet p w h) λ v g.
        if-Quiet (world.fifo_possible p) _ (some v) (NoEarly-append v.events (made_fifo p) g tt) g

  copy_regular-Quiet :
      (p : Text) (open_src open_dst : Option ℕ) (w : Walk)
      → NoEarly (tasks w.events)
      → Quiet (copy_regular world p open_src open_dst w)
  unfolding Manager.copy_regular
  copy_regular-Quiet p open_src open_dst w h =
      Quiet-bind (ensure_parent_directories_exist world p w) _ (ensure_parent-Quiet p w h) λ v g.
        if-Quiet (Manager.add_comes_back world open_src open_dst v)
          (some (open_both p open_src open_dst v)) none (open_both-NoEarly p open_src open_dst v g)
          tt

  mutual
    unfolding Manager.process_entry Manager.process_entries Openable AllOpenable

    process_entry-Quiet :
        (node : Node) (p : Text) (w : Walk)
        → Openable node
        → NoEarly (tasks w.events)
        → Quiet (process_entry world node p w)
    process_entry-Quiet (directory readable entries) p w (r, all) h =
        Quiet-bind (create_directory_if_not_exists world p w) _ (create_directory-Quiet p w h)
          λ v g. rw r (
            Quiet-bind (process_entries world entries p v) _
              (process_entries-Quiet entries p v all g) (λ u q. q))
    process_entry-Quiet fifo p w o h = copy_fifo-Quiet p w h
    process_entry-Quiet (regular open_src open_dst) p w o h =
        copy_regular-Quiet p open_src open_dst w h
    process_entry-Quiet other p w o h = h
    process_entry-Quiet unreadable p w o h = h

    process_entries-Quiet :
        (entries : Entries) (p : Text) (w : Walk)
        → AllOpenable entries
        → NoEarly (tasks w.events)
        → Quiet (process_entries world entries p w)
    process_entries-Quiet nil p w o h = h
    process_entries-Quiet (entry d_name node rest) p w (o, all) h =
        let v = record w { tests = w.tests + 1 } in
        if-Quiet (world.done_at w.tests) (some v) _ h (
          Quiet-bind (if is_dot d_name then some v else process_entry world node (join p d_name) v)
            _
            (if-Quiet (is_dot d_name) (some v) _ h (process_entry-Quiet node (join p d_name) v o h))
            (λ u q. process_entries-Quiet rest p u all q))

  process_directory-Quiet :
      (entries : Entries) (p : Text) (w : Walk)
      → AllOpenable entries
      → NoEarly (tasks w.events)
      → Quiet (process_directory world true entries p w)
  unfolding Manager.process_directory
  process_directory-Quiet entries p w all h =
      Quiet-bind (create_directory_if_not_exists world p w) _ (create_directory-Quiet p w h)
        λ v g. process_entries-Quiet entries p v all g

-- The walk as such: the waits of `buffer_add` are those of the manager among the threads.
abbrev pub never_waiting : World → World
never_waiting world = record world { add_returns = λ n. true }

-- No deadlock in hw4: the manager walks a source tree in which every directory can be opened, and asks
-- of the buffer what the walk has asked of it; then in every state that the threads reach, as long as
-- one worker at least has met no failed write and no signal handler is under way, some thread can take
-- a step of its own, or the manager and all workers have returned, so that `main` joins them all.
-- Unlike in hw5, failed writes of the other workers do no harm. Interruptions and waits that end for
-- no reason are allowed.
pub copier_moves :
    (world : World) (entries : Entries) (dst_dir : Text) (w v : Walk) (junk : List FileDescriptor)
    (size workers : ℕ) {t : System}
    → AllOpenable entries
    → w.events ≡ []
    → process_directory (never_waiting world) true entries dst_dir w ≡ some v
    → length junk ≡ size
    → 0 < size
    → size ≤ int_max
    → Reach (start junk size workers (tasks v.events)) t
    → t.failed < workers
    → t.in_handler ≡ false
    → CanMove t ⊎ (all_joined t ≡ true)
copier_moves world entries dst_dir w v junk size workers all e walked l p h r f q =
    let quiet : NoEarly (tasks v.events) =
      subst Quiet walked
        (process_directory-Quiet (never_waiting world) entries dst_dir w all (rw e tt)) in
    threads_move junk size workers (tasks v.events) l p h quiet r f q
