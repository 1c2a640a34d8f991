-- ===== src/Samples/Streams.antt =====
-- src/macos/FSEventsBackend.cc: a file that is renamed while the index is scanned, and a file that takes
-- the place of another one.
use native_watcher.Base.{
  ℕ, ◌≡◌, refl, true, false, some, none, List, [], ◌∷◌, codes, bytes_eq, if◌then◌else◌, find,
  Bytes-discrete, emplace, assign, erase, ℕ_discrete,
}
use native_watcher.Event.{EventList}
use native_watcher.IdentityIndex.{
  IndexedPath, FileIdentity-discrete, find_indexed, path_count, rename_indexed,
}
use native_watcher.FsEvents.{
  State, MacFiles, FtsNode, enters, plain, finished, opened, scan, record_created_path,
}
use native_watcher.FsEvents.Correlate.{Flags, PendingEvent}
use native_watcher.FsEvents.Stream.{
  Stream, StreamStep, receives, initialized, start_stream, stream_run,
}
use native_watcher.FsEvents.Mirror.{Mirrors, IsDistinct, reconcile_full_tree-Mirrors}
use native_watcher.FsEvents.Reconcile.{reconcile_full_tree}
use native_watcher.FsEvents.Recorded.{SameKind, HasEntry, record_created_path_lem}

abbrev indexed_file : ℕ → IndexedPath
indexed_file inode = record {
  identity = record { device = 1; inode = inode };
  mtime = 5;
  link_count = 1;
  is_directory = false;
}

abbrev indexed_root : IndexedPath
indexed_root = record {
  identity = record { device = 1; inode = 2 };
  mtime = 5;
  link_count = 2;
  is_directory = true;
}

abbrev walked_nodes : List FtsNode
walked_nodes =
    record { path = codes "/r"; info = enters; errno = 0; entry = some indexed_root }
    ∷ record { path = codes "/r/a"; info = plain; errno = 0; entry = some (indexed_file 10) }
    ∷ []

-- The file `a` while the root is walked, and `b` with the same identity when the events are processed.
abbrev renamed_files : MacFiles
renamed_files = record {
  read = λ path. if bytes_eq path (codes "/r/b") then some (indexed_file 10) else none;
  walk = λ path. opened walked_nodes;
  strerror = λ errno. [];
  is_ignored = λ path. false;
  is_cancelled = false;
}

abbrev no_list : EventList
no_list = record { events = []; error = none }

abbrev renamed_flags : Flags
renamed_flags = record {
  root_changed = false;
  must_scan_sub_dirs = false;
  history_done = false;
  renamed = true;
  created = false;
  removed = false;
  modified = false;
  metadata = false;
  is_dir = false;
  unnamed = false;
}

abbrev rename_batches : List (List PendingEvent)
rename_batches =
    (record { path = codes "/r/a"; flags = renamed_flags } ∷ [])
    ∷ (record { path = codes "/r/b"; flags = renamed_flags } ∷ [])
    ∷ []

abbrev rename_steps : List StreamStep
rename_steps =
    receives renamed_files (record { path = codes "/r/a"; flags = renamed_flags } ∷ [])
    ∷ receives renamed_files (record { path = codes "/r/b"; flags = renamed_flags } ∷ [])
    ∷ initialized renamed_files
    ∷ []

abbrev scanning_state : State
scanning_state = record {
  tree = record { root = codes "/r"; is_complete = false; entries = [] };
  identities = record { by_path = []; by_identity = [] };
  rename_sequence = 0;
  streaming = true;
  events = no_list;
  needs_resubscribe = false;
  notified = false;
}

abbrev scanning_stream : Stream
scanning_stream = record { state = scanning_state; initializing = true; pending_events = [] }

-- The path was another file.
abbrev replaced_state : State
replaced_state = record scanning_state {
  identities = record {
    by_path = (codes "/r/a", indexed_file 9) ∷ [];
    by_identity = (record { device = 1; inode = 9 }, codes "/r/a" ∷ []) ∷ [];
  };
  tree = record {
    root = codes "/r";
    is_complete = false;
    entries = (codes "/r/a", record { path = codes "/r/a"; mtime = 3; is_dir = false }) ∷ [];
  };
}

replaced_state-SameKind : SameKind (codes "/r/a") replaced_state
unfolding find Bytes-discrete
replaced_state-SameKind d b h q = cc

record_created_path_lem_example :
    (find_indexed
        (codes "/r/a")
        (record_created_path (codes "/r/a") (indexed_file 10) replaced_state).identities
      ≡ some (indexed_file 10))
    × HasEntry
        (codes "/r/a")
        (indexed_file 10)
        (record_created_path (codes "/r/a") (indexed_file 10) replaced_state).tree
record_created_path_lem_example =
    record_created_path_lem (codes "/r/a") (indexed_file 10) replaced_state replaced_state-SameKind

-- The index after the rename.
file_renamed :
    find_indexed
      (codes "/r/b")
      (stream_run
        (codes "/r")
        rename_steps
        (start_stream renamed_files (codes "/r") no_list)).state.identities
    ≡ some (indexed_file 10)
unfolding stream_run start_stream find bytes_eq emplace Bytes-discrete assign FileIdentity-discrete
    ℕ_discrete path_count rename_indexed erase
file_renamed = refl

walk_ends : (scan renamed_files (codes "/r")).1 ≡ finished
unfolding scan bytes_eq
walk_ends = refl

walk-IsDistinct : IsDistinct (scan renamed_files (codes "/r")).0
unfolding scan bytes_eq find Bytes-discrete
walk-IsDistinct = (refl, (refl, tt))

reconcile_full_tree-Mirrors_example :
    Mirrors
      (reconcile_full_tree renamed_files (codes "/r") replaced_state).0.tree
      (reconcile_full_tree renamed_files (codes "/r") replaced_state).0.identities
reconcile_full_tree-Mirrors_example =
    reconcile_full_tree-Mirrors renamed_files (codes "/r") replaced_state refl walk_ends
      walk-IsDistinct
