-- ===== src/FsEvents/Correlate.antt =====
-- src/macos/FSEventsBackend.cc: `correlateRenames`, which pairs a path that went with one that came by
-- the identity of the file. The order in which the source walks its hash maps is not relied on.
use native_watcher.Base.{
  ℕ, ◌+◌, ◌%◌, ◌^◌, Bool, true, false, not, ◌&&◌, ◌||◌, Option, none, some, List, [], ◌∷◌, ◌++◌,
  Bytes, Bytes-discrete, codes, ◌==◌, if◌then◌else◌, has_value, find, assign,
}
use native_watcher.Event.{rename, entry_kind}
use native_watcher.DirTree.{add, remove_path}
use native_watcher.Inotify.Arrive.{decimal_loop}
use native_watcher.IdentityIndex.{
  FileIdentity, FileIdentity-discrete, IndexedPath, same_identity, find_indexed, add_indexed,
  rename_indexed, path_count, insert_path,
}
use native_watcher.FsEvents.{State, MacFiles}

-- The flags of an event that are looked at; `metadata` is any of `METADATA_FLAGS`, `unnamed` any that
-- neither the code names nor `IGNORED_FLAGS` has.
pub record Flags : Type 0 where
  pub root_changed : Bool
  pub must_scan_sub_dirs : Bool
  pub history_done : Bool
  pub renamed : Bool
  pub created : Bool
  pub removed : Bool
  pub modified : Bool
  pub metadata : Bool
  pub is_dir : Bool
  pub unnamed : Bool

pub record PendingEvent : Type 0 where
  pub path : Bytes
  pub flags : Flags

abbrev pub Candidates : Type 0
Candidates = List (FileIdentity × List (Bytes × IndexedPath))

abbrev pub paths_or_none : Option (List (Bytes × IndexedPath)) → List (Bytes × IndexedPath)
paths_or_none none = []
paths_or_none (some m) = m

-- `candidates[entry.identity].insert_or_assign(path, entry)`
unfoldable pub add_candidate : Bytes → IndexedPath → Candidates → Candidates
add_candidate path e m =
    assign FileIdentity-discrete e.identity
      (assign Bytes-discrete path e (paths_or_none (find FileIdentity-discrete e.identity m))) m

-- Whether an entry is there, and none or another on the other side.
abbrev pub is_lost : Option IndexedPath → Option IndexedPath → Bool
is_lost none o = false
is_lost (some e) none = true
is_lost (some e) (some other) = not (same_identity e.identity other.identity)

abbrev pub add_lost : Bytes → Option IndexedPath → Option IndexedPath → Candidates → Candidates
add_lost path none other m = m
add_lost path (some e) other m = if is_lost (some e) other then add_candidate path e m else m

abbrev pub only {ℓ} : {A : Type ℓ} → List A → Option A
only [] = none
only (x ∷ []) = some x
only (x ∷ y ∷ xs) = none

abbrev pub only_path : Option (List (Bytes × IndexedPath)) → Option (Bytes × IndexedPath)
only_path none = none
only_path (some m) = only m

-- `"fsevents:" + std::to_string(++state->renameSequence)`
abbrev pub next_sequence : State → ℕ
next_sequence s = (s.rename_sequence + 1) % 2 ^ 64

abbrev pub fsevents_id : ℕ → Bytes
fsevents_id sequence = codes "fsevents:" ++ decimal_loop 20 sequence []

unfoldable pub report_rename : Bytes → Bytes → Bool → State → State
report_rename old new is_directory s = record s {
  rename_sequence = next_sequence s;
  events = rename old new (fsevents_id (next_sequence s)) (entry_kind is_directory) s.events;
}

unfoldable pub move_file : Bytes → Bytes → IndexedPath → IndexedPath → State → State
unfolding report_rename
move_file old new old_entry new_entry s = record (report_rename old new old_entry.is_directory s) {
  identities = add_indexed new new_entry (rename_indexed old new s.identities);
  tree = add new new_entry.mtime new_entry.is_directory (remove_path old s.tree);
}

-- A state, and the paths that are dealt with.
abbrev pub Correlated : Type 0
Correlated = State × List Bytes

abbrev pub is_plain_move : Bytes → IndexedPath → IndexedPath → State → Bool
is_plain_move new old_entry new_entry s = not (
    has_value (find_indexed new s.identities)
    || old_entry.is_directory
    || new_entry.is_directory
    || not (old_entry.link_count == 1)
    || not (new_entry.link_count == 1))

unfoldable pub correlate_pair :
    FileIdentity
    → Option (Bytes × IndexedPath)
    → Option (Bytes × IndexedPath)
    → Correlated
    → Correlated
unfolding move_file insert_path
correlate_pair i none came c = c
correlate_pair i (some went) none c = c
correlate_pair i (some (old, old_entry)) (some (new, new_entry)) (s, handled) =
    if path_count i s.identities == 1 && is_plain_move new old_entry new_entry s
    then (move_file old new old_entry new_entry s, insert_path new (insert_path old handled))
    else (s, handled)

unfoldable pub correlate_loop : Candidates → Candidates → Correlated → Correlated
unfolding correlate_pair
correlate_loop created [] c = c
correlate_loop created ((i, paths) ∷ removed) c =
    correlate_loop created removed
      (correlate_pair i (only paths) (only_path (find FileIdentity-discrete i created)) c)

module _ (files : MacFiles) where
  abbrev pub lost_path : State → Bytes → Candidates × Candidates → Candidates × Candidates
  lost_path s path (removed, created) =
      let before = find_indexed path s.identities in
      let after = files.read path in
      (add_lost path before after removed, add_lost path after before created)

  unfoldable pub collect_renames :
      State → List PendingEvent → Candidates × Candidates → Candidates × Candidates
  unfolding add_candidate
  collect_renames s [] c = c
  collect_renames s (event ∷ events) c = collect_renames s events (
      if not event.flags.renamed || files.is_ignored event.path
      then c
      else lost_path s event.path c)

  unfoldable pub correlate_renames : List PendingEvent → State → Correlated
  unfolding collect_renames correlate_loop
  correlate_renames events s =
      let (removed, created) = collect_renames s events ([], []) in
      correlate_loop created removed (s, [])
