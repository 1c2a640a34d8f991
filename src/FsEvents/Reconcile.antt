-- ===== src/FsEvents/Reconcile.antt =====
-- src/macos/FSEventsBackend.cc: `reconcileFullTree`, which compares the index with a scan of the whole
-- tree.
use native_watcher.Base.{
  Bool, false, not, ◌&&◌, ◌||◌, Option, none, some, List, [], ◌∷◌, ◌++◌, Bytes, bytes_eq, ◌==◌, ltb,
  if◌then◌else◌, has_value, find, length, drop, has_path_prefix,
}
use native_watcher.Event.{EventList, create, update, remove, entry_kind, file}
use native_watcher.DirTree.{DirTree, new_tree, add}
use native_watcher.IdentityIndex.{
  FileIdentity-discrete, IndexedPath, IdentityIndex, same_identity, find_indexed, add_each,
  path_count, has_path, insert_path,
}
use native_watcher.IdentityIndex.Agreement.{empty_index}
use native_watcher.FsEvents.{
  State, MacFiles, on_events, same_kind, Scanned, finished, cancelled, failed, scan,
}
use native_watcher.FsEvents.Correlate.{
  Candidates, add_lost, add_candidate, only, only_path, report_rename,
}

pub record ReconciledRename : Type 0 where
  pub old_path : Bytes
  pub new_path : Bytes
  pub entry : IndexedPath

-- The entries of an index that another one has not with the same identity.
unfoldable pub collect_lost : IdentityIndex → List (Bytes × IndexedPath) → Candidates → Candidates
unfolding add_candidate
collect_lost other [] c = c
collect_lost other ((path, e) ∷ m) c =
    collect_lost other m (add_lost path (some e) (find_indexed path other) c)

abbrev pub is_possible : Bytes → IndexedPath → IndexedPath → IdentityIndex → Bool
is_possible new old_entry new_entry known = not (
    has_value (find_indexed new known)
    || not (same_kind old_entry new_entry)
    || not old_entry.is_directory
      && (not (old_entry.link_count == 1) || not (new_entry.link_count == 1)))

abbrev pub possible_pair :
    Option (Bytes × IndexedPath)
    → Option (Bytes × IndexedPath)
    → Bool
    → IdentityIndex
    → List ReconciledRename
possible_pair none came counted known = []
possible_pair (some went) none counted known = []
possible_pair (some (old, old_entry)) (some (new, new_entry)) counted known =
    if counted && is_possible new old_entry new_entry known
    then record { old_path = old; new_path = new; entry = new_entry } ∷ []
    else []

-- The renames of one path to one path by the identity.
unfoldable pub possible_renames :
    IdentityIndex → IdentityIndex → Candidates → Candidates → List ReconciledRename
possible_renames known current created [] = []
possible_renames known current created ((i, paths) ∷ removed) =
    possible_pair (only paths) (only_path (find FileIdentity-discrete i created))
      (path_count i known == 1 && path_count i current == 1) known
    ++ possible_renames known current created removed

-- Directories first, then the shorter old path.
abbrev pub goes_before : ReconciledRename → ReconciledRename → Bool
goes_before a b =
    if same_kind a.entry b.entry
    then ltb (length a.old_path) (length b.old_path)
    else a.entry.is_directory

unfoldable pub insert_rename : ReconciledRename → List ReconciledRename → List ReconciledRename
insert_rename a [] = a ∷ []
insert_rename a (b ∷ bs) =
    let rest = insert_rename a bs in if goes_before b a then b ∷ rest else a ∷ b ∷ bs

unfoldable pub sort_renames : List ReconciledRename → List ReconciledRename
unfolding insert_rename
sort_renames [] = []
sort_renames (a ∷ rest) = insert_rename a (sort_renames rest)

abbrev pub expected_path : ReconciledRename → Bytes → Bytes
expected_path r path = r.new_path ++ drop (length r.old_path) path

unfoldable pub is_covered : ReconciledRename → List ReconciledRename → Bool
is_covered c [] = false
is_covered c (a ∷ accepted) =
    a.entry.is_directory
      && has_path_prefix c.old_path a.old_path
      && bytes_eq c.new_path (expected_path a c.old_path)
    || is_covered c accepted

-- A state, the renames that were accepted, and the paths dealt with on both sides.
pub record Reconciling : Type 0 where
  pub state : State
  pub accepted : List ReconciledRename
  pub handled_removed : List Bytes
  pub handled_created : List Bytes

abbrev pub handle_rename : Bytes → Bytes → Bool → Reconciling → Reconciling
handle_rename old new is_directory r = record r {
  state = report_rename old new is_directory r.state;
  handled_removed = insert_path old r.handled_removed;
  handled_created = insert_path new r.handled_created;
}

unfoldable pub accept_renames : List ReconciledRename → Reconciling → Reconciling
unfolding is_covered report_rename insert_path
accept_renames [] r = r
accept_renames (c ∷ cs) r = accept_renames cs (
    if is_covered c r.accepted
    then r
    else record (handle_rename c.old_path c.new_path c.entry.is_directory r) {
      accepted = r.accepted ++ c ∷ [];
    })

abbrev pub is_unchanged : Option IndexedPath → IndexedPath → Bool
is_unchanged none e = false
is_unchanged (some n) e = same_identity n.identity e.identity && same_kind n e

-- What is below a directory that was renamed, and is below its new path now.
unfoldable pub move_descendants :
    IdentityIndex → ReconciledRename → List (Bytes × IndexedPath) → Reconciling → Reconciling
unfolding report_rename insert_path
move_descendants current a [] r = r
move_descendants current a ((path, e) ∷ m) r = move_descendants current a m (
    if has_path_prefix path a.old_path
      && is_unchanged (find_indexed (expected_path a path) current) e
    then handle_rename path (expected_path a path) e.is_directory r
    else r)

unfoldable pub all_paths : Candidates → List (Bytes × IndexedPath)
all_paths [] = []
all_paths ((i, paths) ∷ c) = paths ++ all_paths c

unfoldable pub move_all :
    IdentityIndex → List (Bytes × IndexedPath) → List ReconciledRename → Reconciling → Reconciling
unfolding move_descendants
move_all current removed [] r = r
move_all current removed (a ∷ accepted) r =
    move_all current removed accepted
      (if a.entry.is_directory then move_descendants current a removed r else r)

abbrev pub is_file_now : Option IndexedPath → Bool
is_file_now none = false
is_file_now (some e) = not e.is_directory

unfoldable pub report_gone :
    IdentityIndex → List Bytes → List (Bytes × IndexedPath) → EventList → EventList
unfolding has_path
report_gone current handled [] l = l
report_gone current handled ((path, e) ∷ m) l = report_gone current handled m (
    if not (has_path path handled)
      && (e.is_directory || not (is_file_now (find_indexed path current)))
    then remove path (entry_kind e.is_directory) l
    else l)

unfoldable pub report_new :
    IdentityIndex → List Bytes → List (Bytes × IndexedPath) → EventList → EventList
unfolding has_path
report_new known handled [] l = l
report_new known handled ((path, e) ∷ m) l = report_new known handled m (
    if has_path path handled
    then l
    else if is_file_now (find_indexed path known) && not e.is_directory
    then update path file l
    else create path (entry_kind e.is_directory) l)

abbrev pub is_written : Option IndexedPath → IndexedPath → Bool
is_written none e = false
is_written (some b) e =
    same_identity b.identity e.identity && not e.is_directory && not (b.mtime == e.mtime)

unfoldable pub report_written : IdentityIndex → List (Bytes × IndexedPath) → EventList → EventList
report_written known [] l = l
report_written known ((path, e) ∷ m) l =
    report_written known m
      (if is_written (find_indexed path known) e then update path file l else l)

unfoldable pub tree_of : List (Bytes × IndexedPath) → DirTree → DirTree
unfolding add
tree_of [] t = t
tree_of ((path, e) ∷ m) t = tree_of m (add path e.mtime e.is_directory t)

-- The events for an index against that of the scan.
unfoldable pub compare_indexes : IdentityIndex → State → State
unfolding collect_lost possible_renames sort_renames accept_renames move_all all_paths report_gone
    report_new report_written
compare_indexes current s =
    let known = s.identities in
    let removed = collect_lost current known.by_path [] in
    let created = collect_lost known current.by_path [] in
    let accepted =
      accept_renames (sort_renames (possible_renames known current created removed))
        (record { state = s; accepted = []; handled_removed = []; handled_created = [] }) in
    let moved = move_all current (all_paths removed) accepted.accepted accepted in
    on_events (report_written known current.by_path) (
      on_events (report_new known moved.handled_created (all_paths created))
        (on_events (report_gone current moved.handled_removed (all_paths removed)) moved.state))

-- A state, and the text of an exception.
abbrev pub Reconciled : Type 0
Reconciled = State × Option Bytes

-- A scan that throws or is cancelled leaves everything as it was.
abbrev pub take_scan : Bool → Bytes → Scanned → State → Reconciled
take_scan is_cancelled dir (visited, failed what) s = (s, some what)
take_scan is_cancelled dir (visited, cancelled) s = (s, none)
take_scan is_cancelled dir (visited, finished) s =
    if is_cancelled
    then (s, none)
    else (let current = add_each visited empty_index in
        (
          record (compare_indexes current s) {
            identities = current;
            tree = tree_of visited (new_tree dir);
          },
          none,
        ))

unfoldable pub reconcile_full_tree : MacFiles → Bytes → State → Reconciled
unfolding scan compare_indexes add_each tree_of
reconcile_full_tree files dir s = take_scan files.is_cancelled dir (scan files dir) s
