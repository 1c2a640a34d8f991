-- ===== src/FsEvents/Process.antt =====
-- src/macos/FSEventsBackend.cc: `processEvents`, which takes a batch of events into the index.
use native_watcher.Base.{
  ◌%◌, Bool, true, false, not, ◌&&◌, ◌||◌, Option, none, some, List, [], ◌∷◌, Bytes, bytes_eq, ◌==◌,
  if◌then◌else◌, has_value,
}
use native_watcher.Event.{create, update, error, entry_kind}
use native_watcher.DirTree.{DirEntry, find_entry, add}
use native_watcher.IdentityIndex.{IndexedPath, same_identity, find_indexed, add_indexed, has_path}
use native_watcher.FsEvents.{
  State, MacFiles, on_events, remove_indexed_path, is_type_changed, index_path, add_created_path,
}
use native_watcher.FsEvents.Correlate.{Flags, PendingEvent, correlate_renames}
use native_watcher.FsEvents.Reconcile.{Reconciled, reconcile_full_tree}

unfoldable pub any_event : (PendingEvent → Bool) → List PendingEvent → Bool
any_event test [] = false
any_event test (event ∷ events) = test event || any_event test events

abbrev pub is_directory_path : Option IndexedPath → Bool
is_directory_path none = false
is_directory_path (some e) = e.is_directory

abbrev pub is_changed : Flags → Bool
is_changed f = f.modified || f.metadata

-- `(event.flags & ~ignoredFlags) == 0`
abbrev pub is_quiet : Flags → Bool
is_quiet f = not (
    f.root_changed || f.must_scan_sub_dirs || f.history_done || f.renamed || f.created || f.removed
    || f.modified || f.metadata || f.unnamed)

abbrev pub has_identity_of : Option IndexedPath → IndexedPath → Bool
has_identity_of none e = false
has_identity_of (some b) e = same_identity b.identity e.identity

abbrev pub has_mtime : Option DirEntry → IndexedPath → Bool
has_mtime none e = false
has_mtime (some d) e = d.mtime == e.mtime

abbrev pub is_plain_file : Option IndexedPath → Bool
is_plain_file none = false
is_plain_file (some e) = not e.is_directory

-- An mtime of whole seconds may hide a second write.
abbrev pub is_unwritten : Flags → Option IndexedPath → Option DirEntry → IndexedPath → Bool
is_unwritten f previous entry e =
    not f.metadata
    && has_identity_of previous e
    && has_mtime entry e
    && not (e.mtime % 1000000000 == 0)

abbrev pub report_known : Bytes → Option IndexedPath → State → State
report_known path none s = s
report_known path (some e) s = on_events (update path (entry_kind e.is_directory)) s

abbrev pub is_unindexed : Option IndexedPath → Option DirEntry → IndexedPath → Bool
is_unindexed previous entry e =
    not (has_value previous) || not (has_value entry) || is_type_changed previous e

abbrev pub is_update : Flags → Option IndexedPath → Option DirEntry → IndexedPath → Bool
is_update f previous entry e =
    (is_changed f || has_identity_of previous e || is_plain_file previous && not e.is_directory)
    && has_value entry

abbrev pub is_other_directory : Option IndexedPath → IndexedPath → Bool
is_other_directory previous e = not (has_identity_of previous e) && e.is_directory

-- The updates that metadata flags ask for after a reconciliation.
unfoldable pub report_metadata : List PendingEvent → State → State
report_metadata [] s = s
report_metadata (event ∷ events) s = report_metadata events (
    if event.flags.metadata
    then report_known event.path (find_indexed event.path s.identities) s
    else s)

abbrev pub after_reconcile : List PendingEvent → Reconciled → State
after_reconcile events (s, none) = report_metadata events s
after_reconcile events (s, some what) = on_events (error what) s

abbrev pub notify_watcher : State → State
notify_watcher s = record s { notified = true }

-- The stream is stopped, if it runs.
abbrev pub retire : State → State
retire s = if s.streaming then record s { streaming = false; needs_resubscribe = true } else s

abbrev pub index_new_file : Bytes → IndexedPath → State → State
index_new_file path e s = on_events (create path (entry_kind e.is_directory)) (record s {
  identities = add_indexed path e s.identities;
  tree = add path e.mtime e.is_directory s.tree;
})

abbrev pub update_known : Bytes → IndexedPath → State → State
update_known path e s = on_events (update path (entry_kind e.is_directory)) (index_path path e s)

-- A state, and whether the root was deleted.
abbrev pub Processed : Type 0
Processed = State × Bool

module _ (files : MacFiles) (dir : Bytes) where
  abbrev pub needs_rescan : State → PendingEvent → Bool
  needs_rescan s event =
      event.flags.renamed
      && (event.flags.is_dir
          || is_directory_path (find_indexed event.path s.identities)
          || is_directory_path (files.read event.path))

  abbrev pub requires_rescan : List PendingEvent → State → Bool
  requires_rescan events s =
      any_event (λ e. e.flags.must_scan_sub_dirs) events || any_event (needs_rescan s) events

  abbrev pub remove_gone : Bytes → Processed → Processed
  remove_gone path (s, deleted) = (remove_indexed_path path s, deleted || bytes_eq path dir)

  -- An event of writes only.
  abbrev pub modify_path : Flags → Bytes → IndexedPath → State → State
  modify_path f path e s =
      let previous = find_indexed path s.identities in
      let entry = find_entry path s.tree in
      if is_unindexed previous entry e
      then add_created_path files path s
      else if is_unwritten f previous entry e
      then s
      else update_known path e s

  -- An event of several kinds, or of a rename.
  abbrev pub mixed_path : Flags → Bytes → IndexedPath → State → State
  mixed_path f path e s =
      let previous = find_indexed path s.identities in
      let entry = find_entry path s.tree in
      if is_type_changed previous e
      then add_created_path files path s
      else if is_unwritten f previous entry e
      then s
      else if is_update f previous entry e
      then update_known path e s
      else if is_other_directory previous e
      then add_created_path files path s
      else index_new_file path e s

  abbrev pub if_there :
      Bytes → (IndexedPath → State → State) → Option IndexedPath → Processed → Processed
  if_there path change none p = remove_gone path p
  if_there path change (some e) (s, deleted) = (change e s, deleted)

  unfoldable pub process_one : List Bytes → PendingEvent → Processed → Processed
  unfolding has_path remove_indexed_path index_path add_created_path
  process_one handled event (s, deleted) =
      let f = event.flags in
      let path = event.path in
      if is_quiet f || files.is_ignored path || has_path path handled
      then (s, deleted)
      else if f.created && not (f.removed || is_changed f || f.renamed)
      then (add_created_path files path s, deleted)
      else if f.removed && not (f.created || is_changed f || f.renamed)
      then remove_gone path (s, deleted)
      else if is_changed f && not (f.created || f.removed || f.renamed)
      then if_there path (modify_path f path) (files.read path) (s, deleted)
      else if_there path (mixed_path f path) (files.read path) (s, deleted)

  unfoldable pub process_loop : List Bytes → List PendingEvent → Processed → Processed
  unfolding process_one
  process_loop handled [] p = p
  process_loop handled (event ∷ events) p =
      let rest = process_loop handled events (process_one handled event p) in
      if event.flags.history_done then p else rest

  abbrev pub end_loop : Processed → State
  end_loop (s, deleted) = if deleted then retire (notify_watcher s) else notify_watcher s

  unfoldable pub process_events : List PendingEvent → State → State
  unfolding any_event correlate_renames process_loop reconcile_full_tree report_metadata
      remove_indexed_path
  process_events events s =
      if any_event (λ e. e.flags.root_changed) events
      then notify_watcher (retire (remove_indexed_path dir s))
      else if requires_rescan events s
      then notify_watcher (after_reconcile events (reconcile_full_tree files dir s))
      else (let (correlated, handled) = correlate_renames files events s in
          end_loop (process_loop handled events (correlated, false)))
