-- ===== src/FsEvents.antt =====
-- src/macos/FSEventsBackend.cc: the index of a stream, and how a path that went or came changes it. The
-- walk of `scanIdentityIndex` in src/macos/IdentityIndex.cc is a loop over what `fts_read` returns. What
-- the filesystem answers, the ignore test and `isCancelled` are parameters that do not change while one
-- batch of events is processed.
pub mod Correlate
pub mod Reconcile
pub mod Process
pub mod Stream
pub mod Handover
pub mod Recorded
pub mod Mirror
use native_watcher.Base.{
  ℕ, ◌+◌, Bool, true, false, not, ◌&&◌, ◌||◌, Option, none, some, List, [], ◌∷◌, Bytes, bytes_eq,
  ◌==◌, if◌then◌else◌, has_path_prefix,
}
use native_watcher.Event.{EventList, create, update, remove, error, entry_kind, file}
use native_watcher.DirTree.{DirTree, add, update_entry, remove_path}
use native_watcher.IdentityIndex.{
  FileIdentity, IndexedPath, IdentityIndex, same_identity, find_indexed, add_indexed,
  remove_indexed, is_below,
}

-- The class `State`, with the parts of its watcher that the events change. `streaming` says whether
-- `stream` is not null.
pub record State : Type 0 where
  pub tree : DirTree
  pub identities : IdentityIndex
  pub rename_sequence : ℕ
  pub streaming : Bool
  pub events : EventList
  pub needs_resubscribe : Bool
  pub notified : Bool

-- `FTS_D`, `FTS_DP` and the others of `fts_info`.
pub data FtsInfo : Type 0 where
  enters leaves plain : FtsInfo

-- `entry` is what `fts_statp` says of a file or a directory.
pub record FtsNode : Type 0 where
  pub path : Bytes
  pub info : FtsInfo
  pub errno : ℕ
  pub entry : Option IndexedPath

pub data Opened : Type 0 where
  opened : List FtsNode → Opened
  not_opened : ℕ → Opened

-- `readIndexedPath`, the nodes that `fts_open` and `fts_read` find below a path, `strerror`.
pub record MacFiles : Type 0 where
  pub read : Bytes → Option IndexedPath
  pub walk : Bytes → Opened
  pub strerror : ℕ → Bytes
  pub is_ignored : Bytes → Bool
  pub is_cancelled : Bool

abbrev pub on_events : (EventList → EventList) → State → State
on_events change s = record s { events = change s.events }

abbrev pub on_tree : (DirTree → DirTree) → State → State
on_tree change s = record s { tree = change s.tree }

-- The events for a directory and all that is indexed below it.
unfoldable pub report_removed_below : Bytes → List (Bytes × IndexedPath) → EventList → EventList
report_removed_below path [] l = l
report_removed_below path ((q, e) ∷ m) l =
    report_removed_below path m
      (if is_below path q then remove q (entry_kind e.is_directory) l else l)

abbrev pub forget : Bytes → State → State
forget path s = record s {
  identities = remove_indexed path s.identities;
  tree = remove_path path s.tree;
}

abbrev pub remove_known : Bytes → Option IndexedPath → State → State
remove_known path none s = s
remove_known path (some e) s =
    if e.is_directory
    then forget path (on_events (report_removed_below path s.identities.by_path) s)
    else forget path (on_events (remove path file) s)

unfoldable pub remove_indexed_path : Bytes → State → State
remove_indexed_path path s = remove_known path (find_indexed path s.identities) s

abbrev pub same_kind : IndexedPath → IndexedPath → Bool
same_kind a b = if a.is_directory then b.is_directory else not b.is_directory

abbrev pub is_same : Option IndexedPath → IndexedPath → Bool
is_same none e = false
is_same (some b) e = same_identity b.identity e.identity && same_kind b e

abbrev pub is_modified : Option IndexedPath → IndexedPath → Bool
is_modified none e = false
is_modified (some b) e = is_same (some b) e && not e.is_directory && not (b.mtime == e.mtime)

abbrev pub is_replaced_file : Option IndexedPath → IndexedPath → Bool
is_replaced_file none e = false
is_replaced_file (some b) e = not b.is_directory && not e.is_directory && not (is_same (some b) e)

abbrev pub is_type_changed : Option IndexedPath → IndexedPath → Bool
is_type_changed none e = false
is_type_changed (some b) e = not (same_kind b e)

abbrev pub cleared : Bytes → Option IndexedPath → IndexedPath → State → State
cleared path previous e s =
    if is_type_changed previous e
    then remove_indexed_path path s
    else if is_same previous e
    then s
    else on_tree (remove_path path) s

-- Both indexes take an entry; that of the tree is updated, if there is one.
unfoldable pub index_path : Bytes → IndexedPath → State → State
index_path path e s =
    let updated = update_entry path e.mtime s.tree in
    record s {
      identities = add_indexed path e s.identities;
      tree = if updated.1 then updated.0 else add path e.mtime e.is_directory updated.0;
    }

abbrev pub report_created : Bytes → Option IndexedPath → IndexedPath → EventList → EventList
report_created path previous e l =
    if is_modified previous e || is_replaced_file previous e
    then update path file l
    else if is_same previous e
    then l
    else create path (entry_kind e.is_directory) l

unfoldable pub record_created_path : Bytes → IndexedPath → State → State
unfolding remove_indexed_path index_path
record_created_path path e s =
    let previous = find_indexed path s.identities in
    on_events (report_created path previous e) (index_path path e (cleared path previous e s))

-- `onEntry` for each entry that a scan visits.
unfoldable pub record_all : List (Bytes × IndexedPath) → State → State
unfolding record_created_path
record_all [] s = s
record_all ((path, e) ∷ visited) s = record_all visited (record_created_path path e s)

pub data ScanEnd : Type 0 where
  finished : ScanEnd
  cancelled : ScanEnd
  failed : Bytes → ScanEnd

abbrev pub Scanned : Type 0
Scanned = List (Bytes × IndexedPath) × ScanEnd

-- What `fts_read` does not return after `FTS_SKIP`.
abbrev pub is_skipped : List Bytes → Bytes → Bool
is_skipped [] path = false
is_skipped (d ∷ skipped) path = has_path_prefix path d || is_skipped skipped path

abbrev pub visit_entry : Bytes → Option IndexedPath → Scanned → Scanned
visit_entry path none rest = rest
visit_entry path (some e) rest = ((path, e) ∷ rest.0, rest.1)

abbrev pub is_enters : FtsInfo → Bool
is_enters enters = true
is_enters leaves = false
is_enters plain = false

abbrev pub is_leaves : FtsInfo → Bool
is_leaves enters = false
is_leaves leaves = true
is_leaves plain = false

-- `ENOENT` and `ENOTDIR`
abbrev pub is_gone : ℕ → Bool
is_gone errno = errno == 2 || errno == 20

module _ (files : MacFiles) where
  unfoldable pub scan_loop : Bytes → List Bytes → List FtsNode → Scanned
  scan_loop root skipped [] = ([], finished)
  scan_loop root skipped (n ∷ nodes) =
      let below = not (bytes_eq n.path root) in
      let ignored = n.errno == 0 && below && files.is_ignored n.path in
      let rest =
        scan_loop root (if ignored && is_enters n.info then n.path ∷ skipped else skipped) nodes in
      if is_skipped skipped n.path
      then rest
      else if files.is_cancelled
      then ([], cancelled)
      else if is_leaves n.info
      then rest
      else if not (n.errno == 0)
      then (if below && is_gone n.errno then rest else ([], failed (files.strerror n.errno)))
      else if ignored
      then rest
      else visit_entry n.path n.entry rest

  abbrev pub scan_opened : Bytes → Opened → Scanned
  scan_opened root (not_opened errno) = ([], failed (files.strerror errno))
  scan_opened root (opened nodes) = scan_loop root [] nodes

  -- `scanIdentityIndex`: the entries that it adds, and how it ends.
  unfoldable pub scan : Bytes → Scanned
  unfolding scan_loop
  scan root = if files.is_cancelled then ([], cancelled) else scan_opened root (files.walk root)

  abbrev pub report_failure : ScanEnd → State → State
  report_failure finished s = s
  report_failure cancelled s = s
  report_failure (failed what) s = on_events (error what) s

  abbrev pub add_created : Bytes → Option IndexedPath → State → State
  add_created path none s = s
  add_created path (some e) s =
      if e.is_directory
      then (let scanned = scan path in report_failure scanned.1 (record_all scanned.0 s))
      else record_created_path path e s

  -- `addCreatedPath`, with the handler of its exceptions, which all its callers have.
  unfoldable pub add_created_path : Bytes → State → State
  unfolding scan record_all record_created_path
  add_created_path path s = add_created path (files.read path) s
