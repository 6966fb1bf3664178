-- ===== src/Mvcp/Manager/Source.antt =====
-- 200104004085_manager.c of hw5/src: the source tree described, and what it is to have walked it.
use cse_344_homeworks.Prelude.{
  ℕ, ◌+◌, ◌≡◌, refl, ◌∙◌, sym, ap, true, false, List, [], ◌∷◌, ◌++◌, append_assoc, append-nil,
  Option, none, some, arith, length, length-append, if◌then◌else◌, subst,
}
use cse_344_homeworks.Prelude.Text.{Text}
use cse_344_homeworks.Mvcp.Manager.{
  Node, directory, fifo, regular, other, unreadable, Entries, nil, entry, Event, queued, Walk,
  World, join, ◌>>=◌, is_dot,
}

-- A file of the source: its destination path and its two descriptors.
abbrev pub SourceFile : Type 0
SourceFile = Text × ℕ × ℕ

abbrev pub file_of : Event → List SourceFile
file_of (queued dst_path src dst) = (dst_path, src, dst) ∷ []
file_of _ = []

-- The files that the manager has queued, in order.
abbrev pub queued_files : List Event → List SourceFile
queued_files [] = []
queued_files (e ∷ l) = file_of e ++ queued_files l

-- Of a source tree to be copied to `path`: its regular files that can be opened on both sides, in
-- the order of the entries, and the numbers of its directories and FIFOs. Entries `.` and `..` do
-- not count, nor what is below a directory that cannot be read.
unfoldable mutual
  pub files_at : Node → Text → List SourceFile
  files_at (directory true entries) path = files entries path
  files_at (directory false entries) path = []
  files_at fifo path = []
  files_at (regular (some src) (some dst)) path = (path, src, dst) ∷ []
  files_at (regular (some src) none) path = []
  files_at (regular none open_dst) path = []
  files_at other path = []
  files_at unreadable path = []

  pub files : Entries → Text → List SourceFile
  files nil path = []
  files (entry d_name node rest) path =
      (if is_dot d_name then [] else files_at node (join path d_name)) ++ files rest path

unfoldable mutual
  pub directories_at : Node → ℕ
  directories_at (directory true entries) = directories entries + 1
  directories_at (directory false entries) = 1
  directories_at _ = 0

  pub directories : Entries → ℕ
  directories nil = 0
  directories (entry d_name node rest) =
      (if is_dot d_name then 0 else directories_at node) + directories rest

unfoldable mutual
  pub fifos_at : Node → ℕ
  fifos_at (directory true entries) = fifos entries
  fifos_at (directory false entries) = 0
  fifos_at fifo = 1
  fifos_at _ = 0

  pub fifos : Entries → ℕ
  fifos nil = 0
  fifos (entry d_name node rest) = (if is_dot d_name then 0 else fifos_at node) + fifos rest

-- Every directory and FIFO can be made, no SIGINT arrives, and no call of `buffer_add` waits for ever.
pub record IsCalm (world : World) : Type 0 where
  pub room : (dir_path : Text) → world.available dir_path ≡ true
  pub fifos_made : (dst_path : Text) → world.fifo_possible dst_path ≡ true
  pub never_done : (n : ℕ) → world.done_at n ≡ false
  pub adds_return : (n : ℕ) → world.add_returns n ≡ true

-- From `w` the walk comes back, having queued `fs`, and counted as many regular files, `d`
-- directories and `p` FIFOs.
pub record Walked (w : Walk) (fs : List SourceFile) (d p : ℕ) (r : Option Walk) : Type 0 where
  pub last : Walk
  pub comes_back : r ≡ some last
  pub all_queued : queued_files last.events ≡ queued_files w.events ++ fs
  pub regular_files : last.num_regular_files ≡ w.num_regular_files + length fs
  pub directories_counted : last.num_directories ≡ w.num_directories + d
  pub fifos_counted : last.num_fifo_files ≡ w.num_fifo_files + p

pub queued_files-append :
    (l m : List Event) → queued_files (l ++ m) ≡ queued_files l ++ queued_files m
queued_files-append [] m = refl
queued_files-append (e ∷ l) m =
    ap (λ q. file_of e ++ q) (queued_files-append l m)
    ∙ sym (append_assoc (file_of e) (queued_files l) (queued_files m))

pub Walked-none : (w : Walk) → Walked w [] 0 0 (some w)
Walked-none w = record {
  last = w;
  comes_back = refl;
  all_queued = sym (append-nil (queued_files w.events));
  regular_files = omega arith;
  directories_counted = omega arith;
  fifos_counted = omega arith;
}

pub Walked-bind :
    (w : Walk) (fs gs : List SourceFile) (d e p q : ℕ) (r : Option Walk) (k : Walk → Option Walk)
    → Walked w fs d p r
    → ((v : Walk) → Walked v gs e q (k v))
    → Walked w (fs ++ gs) (d + e) (p + q) (r >>= k)
Walked-bind w fs gs d e p q r k m n =
    let o = n m.last in
    record {
      last = o.last;
      comes_back = ap (λ t. t >>= k) m.comes_back ∙ o.comes_back;
      all_queued =
          o.all_queued
          ∙ ap (λ l. l ++ gs) m.all_queued
          ∙ append_assoc (queued_files w.events) fs gs;
      regular_files = omega (arith, o.regular_files, m.regular_files, length-append fs gs);
      directories_counted = omega (arith, o.directories_counted, m.directories_counted);
      fifos_counted = omega (arith, o.fifos_counted, m.fifos_counted);
    }

pub Walked-eq :
    (w : Walk) {fs gs : List SourceFile} {d e p q : ℕ} (r : Option Walk)
    → fs ≡ gs
    → d ≡ e
    → p ≡ q
    → Walked w fs d p r
    → Walked w gs e q r
Walked-eq w {fs} {gs} {d} {e} {p} {q} r f g h m =
    subst (λ n. Walked w gs e n r) h
      (subst (λ n. Walked w gs n p r) g (subst (λ l. Walked w l d p r) f m))

pub Walked-first :
    (w : Walk) (gs : List SourceFile) (e q : ℕ) (r : Option Walk) (k : Walk → Option Walk)
    → Walked w [] 0 0 r
    → ((v : Walk) → Walked v gs e q (k v))
    → Walked w gs e q (r >>= k)
Walked-first w gs e q r k m n =
    Walked-eq w (r >>= k) refl (omega arith) (omega arith) (Walked-bind w [] gs 0 e 0 q r k m n)

pub Walked-tests :
    (w : Walk) (t : ℕ) (fs : List SourceFile) (d p : ℕ) (r : Option Walk)
    → Walked (record w { tests = t }) fs d p r
    → Walked w fs d p r
Walked-tests w t fs d p r m = record {
  last = m.last;
  comes_back = m.comes_back;
  all_queued = m.all_queued;
  regular_files = m.regular_files;
  directories_counted = m.directories_counted;
  fifos_counted = m.fifos_counted;
}

pub count-Walked :
    (u : Walk) → Walked u [] 1 0 (some (record u { num_directories = u.num_directories + 1 }))
count-Walked u = record {
  last = record u { num_directories = u.num_directories + 1 };
  comes_back = refl;
  all_queued = sym (append-nil (queued_files u.events));
  regular_files = omega arith;
  directories_counted = omega arith;
  fifos_counted = omega arith;
}
