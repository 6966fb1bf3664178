-- ===== src/Mvcp/Manager.antt =====
-- hw5/src/200104004085_manager.c: the walk over the source tree. The source is a tree of what
-- `readdir`, `lstat`, `opendir` and the two calls of `open` return; the destination answers whether
-- a directory is there or can be made, and whether a FIFO can be made.
pub mod Source
pub mod Tree
use mathlib.Core.Option
use cse_344_homeworks.Prelude.{
  ℕ, zero, suc, ◌+◌, Bool, true, false, ◌||◌, List, [], ◌∷◌, ◌++◌, Option, none, some, ◌==◌,
  if◌then◌else◌, take,
}
use cse_344_homeworks.Prelude.Text.{Text, codes, str_eq}
use cse_344_homeworks.Mvcp.Threads.{Task, submit, set_done_early}

abbrev pub path_max : ℕ
path_max = 4096

-- What `lstat` says of an entry, with what opening it gives: `open_src` and `open_dst` are the
-- descriptors of the two calls of `open`, or none for -1.
mutual
  pub data Node : Type 0 where
    directory : (readable : Bool) → Entries → Node
    fifo : Node
    regular : (open_src open_dst : Option ℕ) → Node
    other : Node
    unreadable : Node

  pub data Entries : Type 0 where
    nil : Entries
    entry : (d_name : Text) → Node → Entries → Entries

-- What the walk does to the world, in order.
pub data Event : Type 0 where
  ensured : (dir_path : Text) → Event  -- `create_directory_if_not_exists` that came back
  made_fifo : (dst_path : Text) → Event
  queued : (dst_path : Text) → (src dst : ℕ) → Event  -- `buffer_add`
  closed : (src : ℕ) → Event  -- `close(src_fd)` where the destination cannot be opened
  done_set : Event  -- `buffer_set_done`

-- The counters of main.c, the number of times that `done` was tested, and the events so far.
pub record Walk : Type 0 where
  pub num_regular_files : ℕ
  pub num_fifo_files : ℕ
  pub num_directories : ℕ
  pub tests : ℕ
  pub events : List Event

-- The destination, the global `done` at its n-th test by the walk, and whether the n-th `buffer_add`
-- comes back: it waits while the buffer is full, for ever if no worker is left to take anything out.
pub record World : Type 0 where
  pub available : Text → Bool
  pub fifo_possible : Text → Bool
  pub done_at : ℕ → Bool
  pub add_returns : ℕ → Bool

abbrev pub log : Event → Walk → Walk
log e w = record w { events = w.events ++ (e ∷ []) }

-- snprintf(path, PATH_MAX, "%s/%s", dir, name)
abbrev pub join : Text → Text → Text
join dir name = take 4095 (dir ++ (b'/' ∷ name))

-- The text before the last slash, if there is one: `strrchr`, and the byte set to 0.
unfoldable pub parent : Text → Option Text
parent [] = none
parent (c ∷ s) = elim (parent s) [
  | some p ↦ some (c ∷ p)
  | none ↦ if c == b'/' then some [] else none
]

infixl 5 ◌>>=◌
abbrev pub ◌>>=◌ : Option Walk → (Walk → Option Walk) → Option Walk
none >>= f = none
some w >>= f = f w

abbrev pub is_dot : Text → Bool
is_dot d_name = str_eq d_name (codes ".") || str_eq d_name (codes "..")

-- The opened pair of `copy_file` goes to the buffer.
abbrev pub open_both : Text → Option ℕ → Option ℕ → Walk → Walk
open_both dst_path none open_dst w = w
open_both dst_path (some src_fd) none w = log (closed src_fd) w
open_both dst_path (some src_fd) (some dst_fd) w =
    log (queued dst_path src_fd dst_fd) (record w { num_regular_files = w.num_regular_files + 1 })

module _ (world : World) where
  -- `none` is `exit(EXIT_FAILURE)`, or a call of `buffer_add` that never comes back.
  unfoldable pub create_directory_if_not_exists : Text → Walk → Option Walk
  create_directory_if_not_exists dir_path w =
      if world.available dir_path then some (log (ensured dir_path) w) else none

  unfoldable pub ensure_parent_directories_exist : Text → Walk → Option Walk
  unfolding create_directory_if_not_exists
  ensure_parent_directories_exist file_path w = elim (parent file_path) [
    | some dir_path ↦ create_directory_if_not_exists dir_path w
    | none ↦ some w
  ]

  -- The branch of `copy_file` for a FIFO.
  unfoldable pub copy_fifo : Text → Walk → Option Walk
  unfolding ensure_parent_directories_exist
  copy_fifo dst_path w = ensure_parent_directories_exist dst_path w >>= λ w'.
      if world.fifo_possible dst_path
      then some (log (made_fifo dst_path) (record w' { num_fifo_files = w'.num_fifo_files + 1 }))
      else some w'

  -- Whether `copy_file` comes back from its call of `buffer_add`, if it makes one.
  abbrev pub add_comes_back : Option ℕ → Option ℕ → Walk → Bool
  add_comes_back (some src_fd) (some dst_fd) w = world.add_returns w.num_regular_files
  add_comes_back _ _ w = true

  -- Its branch for a regular file.
  unfoldable pub copy_regular : Text → Option ℕ → Option ℕ → Walk → Option Walk
  unfolding ensure_parent_directories_exist
  copy_regular dst_path open_src open_dst w = ensure_parent_directories_exist dst_path w >>= λ w'.
      if add_comes_back open_src open_dst w'
      then some (open_both dst_path open_src open_dst w')
      else none

  unfoldable mutual
    unfolding create_directory_if_not_exists copy_fifo copy_regular

    -- One entry that is neither `.` nor `..`, at its destination path.
    pub process_entry : Node → Text → Walk → Option Walk
    process_entry (directory readable entries) dst_path w =
        create_directory_if_not_exists dst_path w >>= λ v.
        (if readable then process_entries entries dst_path v else some (log done_set v)) >>= λ u.
        some (record u { num_directories = u.num_directories + 1 })
    process_entry fifo dst_path w = copy_fifo dst_path w
    process_entry (regular open_src open_dst) dst_path w = copy_regular dst_path open_src open_dst w
    process_entry other dst_path w = some w
    process_entry unreadable dst_path w = some w

    -- while ((entry = readdir(src)) != NULL && !done)
    pub process_entries : Entries → Text → Walk → Option Walk
    process_entries nil dst_dir w = some w
    process_entries (entry d_name node rest) dst_dir w =
        let v = record w { tests = w.tests + 1 } in
        if world.done_at w.tests
        then some v
        else (if is_dot d_name then some v else process_entry node (join dst_dir d_name) v) >>= λ u.
            process_entries rest dst_dir u

  unfoldable pub process_directory : Bool → Entries → Text → Walk → Option Walk
  unfolding create_directory_if_not_exists process_entries
  process_directory readable entries dst_dir w = create_directory_if_not_exists dst_dir w >>= λ v.
      if readable then process_entries entries dst_dir v else some (log done_set v)

  -- `manager`: the walk, and whether the thread comes to its barrier. `name` is the last component
  -- of the source path.
  pub manager : Node → (dst_path name : Text) → Option (Walk × Bool)
  unfolding process_directory copy_fifo copy_regular
  manager root dst_path name =
      let w : Walk = record {
        num_regular_files = 0;
        num_fifo_files = 0;
        num_directories = 0;
        tests = 0;
        events = [];
      } in
      let finish : Option Walk → Option (Walk × Bool) =
        λ r. Option.map (λ v. (log done_set v, true)) r in
      elim root [
        | directory readable entries ↦ finish (
            create_directory_if_not_exists (join dst_path name) w >>= λ v.
            process_directory readable entries (join dst_path name) v)
        | fifo ↦ finish (copy_fifo (join dst_path name) w)
        | regular open_src open_dst ↦ finish (copy_regular (join dst_path name) open_src open_dst w)
        | other ↦ some (log done_set w, false)
        | unreadable ↦ some (log done_set w, false)
      ]

-- What the walk asks of the buffer.
abbrev pub task_of : Event → List Task
task_of (queued dst_path src dst) = submit src dst ∷ []
task_of done_set = set_done_early ∷ []
task_of _ = []

abbrev pub tasks : List Event → List Task
tasks [] = []
tasks (e ∷ l) = task_of e ++ tasks l
