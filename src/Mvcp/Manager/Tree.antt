-- ===== src/Mvcp/Manager/Tree.antt =====
-- What a walk that nothing interrupts has done, against a description of the source tree.
use cse_344_homeworks.Prelude.{
  ℕ, ◌+◌, refl, Bool, true, false, [], ◌∷◌, append-nil, Option, none, some, arith, Bool-cases, inl,
  inr, if◌then◌else◌, Option-cases,
}
use cse_344_homeworks.Prelude.Text.{Text}
use cse_344_homeworks.Mvcp.Manager.{
  Node, directory, fifo, regular, other, unreadable, Entries, nil, entry, ensured, made_fifo,
  queued, closed, done_set, Walk, World, log, join, parent, ◌>>=◌, create_directory_if_not_exists,
  ensure_parent_directories_exist, copy_fifo, open_both, copy_regular, add_comes_back, is_dot,
  process_entry, process_entries, process_directory,
}
use cse_344_homeworks.Mvcp.Manager.Source.{
  files_at, files, directories_at, directories, fifos_at, fifos, IsCalm, Walked,
  queued_files-append, Walked-none, Walked-bind, Walked-eq, Walked-first, Walked-tests,
  count-Walked,
}

module _ (world : World) (calm : IsCalm world) where
  create_directory-Walked :
      (dir_path : Text) (w : Walk)
      → Walked w [] 0 0 (create_directory_if_not_exists world dir_path w)
  unfolding create_directory_if_not_exists
  create_directory-Walked dir_path w = record {
    last = log (ensured dir_path) w;
    comes_back = ground (arith, calm.room dir_path);
    all_queued = queued_files-append w.events (ensured dir_path ∷ []);
    regular_files = omega arith;
    directories_counted = omega arith;
    fifos_counted = omega arith;
  }

  ensure_parent-Walked :
      (file_path : Text) (w : Walk)
      → Walked w [] 0 0 (ensure_parent_directories_exist world file_path w)
  unfolding ensure_parent_directories_exist
  ensure_parent-Walked file_path w = elim (Option-cases (parent file_path)) [
    | inl e ↦ rw (e, ensure_parent_directories_exist) (Walked-none w)
    | inr (dir_path, e) ↦
        rw (e, ensure_parent_directories_exist) (create_directory-Walked dir_path w)
  ]

  made_fifo-Walked :
      (dst_path : Text) (w : Walk)
      → Walked w [] 0 1 (
          if world.fifo_possible dst_path
          then some (log (made_fifo dst_path) (record w { num_fifo_files = w.num_fifo_files + 1 }))
          else some w)
  made_fifo-Walked dst_path w = record {
    last = log (made_fifo dst_path) (record w { num_fifo_files = w.num_fifo_files + 1 });
    comes_back = ground (arith, calm.fifos_made dst_path);
    all_queued = queued_files-append w.events (made_fifo dst_path ∷ []);
    regular_files = omega arith;
    directories_counted = omega arith;
    fifos_counted = omega arith;
  }

  open_both-Walked :
      (dst_path : Text) (open_src open_dst : Option ℕ) (w : Walk)
      → Walked w (files_at (regular open_src open_dst) dst_path) 0 0 (
          if add_comes_back world open_src open_dst w
          then some (open_both dst_path open_src open_dst w)
          else none)
  unfolding files_at
  open_both-Walked dst_path none open_dst w = Walked-none w
  open_both-Walked dst_path (some src) none w = record {
    last = log (closed src) w;
    comes_back = refl;
    all_queued = queued_files-append w.events (closed src ∷ []);
    regular_files = omega arith;
    directories_counted = omega arith;
    fifos_counted = omega arith;
  }
  open_both-Walked dst_path (some src) (some dst) w = record {
    last = open_both dst_path (some src) (some dst) w;
    comes_back = rw (calm.adds_return w.num_regular_files) refl;
    all_queued = queued_files-append w.events (queued dst_path src dst ∷ []);
    regular_files = omega arith;
    directories_counted = omega arith;
    fifos_counted = omega arith;
  }

  readable-Walked :
      (entries : Entries) (readable : Bool) (dst_path : Text) (v : Walk)
      → ((u : Walk)
          → Walked u
              (files entries dst_path)
              (directories entries)
              (fifos entries)
              (process_entries world entries dst_path u))
      → let node = directory readable entries in
        Walked v (files_at node dst_path) (directories_at node) (fifos_at node) (
          (if readable then process_entries world entries dst_path v else some (log done_set v))
          >>= λ u. some (record u { num_directories = u.num_directories + 1 }))
  unfolding files directories fifos
  readable-Walked entries true dst_path v ih =
      Walked-eq v _ (append-nil (files entries dst_path)) refl (omega arith) (
        Walked-bind v (files entries dst_path) [] (directories entries) 1 (fifos entries) 0
          (process_entries world entries dst_path v) _ (ih v) count-Walked)
  readable-Walked entries false dst_path v ih = record {
    last = record (log done_set v) { num_directories = v.num_directories + 1 };
    comes_back = refl;
    all_queued = queued_files-append v.events (done_set ∷ []);
    regular_files = omega arith;
    directories_counted = omega arith;
    fifos_counted = omega arith;
  }

  entries-Walked :
      (d_name : Text) (node : Node) (rest : Entries) (dst_dir : Text) (w : Walk)
      → ((v : Walk)
          → let path = join dst_dir d_name in
            Walked v
              (files_at node path)
              (directories_at node)
              (fifos_at node)
              (process_entry world node path v))
      → ((u : Walk)
          → Walked u
              (files rest dst_dir)
              (directories rest)
              (fifos rest)
              (process_entries world rest dst_dir u))
      → Walked w
          (files (entry d_name node rest) dst_dir)
          (directories (entry d_name node rest))
          (fifos (entry d_name node rest))
          (process_entries world (entry d_name node rest) dst_dir w)
  unfolding process_entries files directories fifos
  entries-Walked d_name node rest dst_dir w one others =
      let v = record w { tests = w.tests + 1 } in
      rw (calm.never_done w.tests) (
        Walked-tests w (w.tests + 1) _ _ _ _ (elim (Bool-cases (is_dot d_name)) [
          | inl dot ↦ rw dot (Walked-eq v _ refl (omega arith) (omega arith) (others v))
          | inr name ↦ rw name (Walked-bind v _ _ _ _ _ _ _ _ (one v) others)
        ]))

  mutual
    unfolding process_entry process_entries copy_fifo copy_regular files directories fifos

    process_entry-Walked :
        (node : Node) (dst_path : Text) (w : Walk)
        → Walked w
            (files_at node dst_path)
            (directories_at node)
            (fifos_at node)
            (process_entry world node dst_path w)
    process_entry-Walked (directory readable entries) dst_path w =
        Walked-first w _ _ _ _ _ (create_directory-Walked dst_path w) (λ v.
          readable-Walked entries readable dst_path v
            (λ u. process_entries-Walked entries dst_path u))
    process_entry-Walked fifo dst_path w =
        Walked-first w _ _ _ _ _ (ensure_parent-Walked dst_path w) (made_fifo-Walked dst_path)
    process_entry-Walked (regular open_src open_dst) dst_path w =
        Walked-first w _ _ _ _ _ (ensure_parent-Walked dst_path w)
          (open_both-Walked dst_path open_src open_dst)
    process_entry-Walked other dst_path w = Walked-none w
    process_entry-Walked unreadable dst_path w = Walked-none w

    process_entries-Walked :
        (entries : Entries) (dst_dir : Text) (w : Walk)
        → Walked w
            (files entries dst_dir)
            (directories entries)
            (fifos entries)
            (process_entries world entries dst_dir w)
    process_entries-Walked nil dst_dir w = Walked-none w
    process_entries-Walked (entry d_name node rest) dst_dir w =
        entries-Walked d_name node rest dst_dir w
          (λ v. process_entry-Walked node (join dst_dir d_name) v)
          (λ u. process_entries-Walked rest dst_dir u)

  -- If every directory and FIFO can be made at the destination, no SIGINT arrives, and each call of
  -- `buffer_add` comes back, because workers make room in the buffer: then the walk comes back, having queued, in the order of the entries, exactly the regular files of the tree that can
  -- be opened on both sides, and its three counters have grown by the numbers of these files, of the
  -- directories below the root and of the FIFOs.
  pub process_directory-Walked :
      (entries : Entries) (dst_dir : Text) (w : Walk)
      → Walked w
          (files entries dst_dir)
          (directories entries)
          (fifos entries)
          (process_directory world true entries dst_dir w)
  unfolding process_directory
  process_directory-Walked entries dst_dir w =
      Walked-first w _ _ _ _ _ (create_directory-Walked dst_dir w)
        (process_entries-Walked entries dst_dir)
