-- ===== src/DirTree.antt =====
-- src/DirTree.hh and src/DirTree.cc: the index of a watched tree. `entries` is an association list;
-- the order in which the source walks its hash map is not relied on.
pub mod Shape
pub mod Moves
pub mod Changes
use native_watcher.Base.{
  ℕ, ◌+◌, Bool, true, false, not, ◌&&◌, ◌||◌, Option, none, some, List, [], ◌∷◌, ◌++◌, Bytes,
  Bytes-discrete, slash, bytes_eq, starts_with, ◌==◌, if◌then◌else◌, has_value, length, drop, find,
  erase, assign, emplace, modify,
}
use native_watcher.Event.{EventList, create, update, remove, entry_kind, file}

-- `state` is a pointer that the Windows and macOS backends do not use.
pub record DirEntry : Type 0 where
  pub path : Bytes
  pub mtime : ℕ
  pub is_dir : Bool

abbrev pub Entries : Type 0
Entries = List (Bytes × DirEntry)

pub record DirTree : Type 0 where
  pub root : Bytes
  pub is_complete : Bool
  pub entries : Entries

unfoldable pub new_tree : Bytes → DirTree
new_tree root = record { root = root; is_complete = false; entries = [] }

abbrev pub find_entry : Bytes → DirTree → Option DirEntry
find_entry path t = find Bytes-discrete path t.entries

-- An entry that is there is kept: `emplace` does not overwrite.
unfoldable pub add : Bytes → ℕ → Bool → DirTree → DirTree
add path mtime is_dir t = record t {
  entries =
      emplace Bytes-discrete path (record { path = path; mtime = mtime; is_dir = is_dir })
        t.entries;
}

-- `update` of the source; false if there is no such entry.
unfoldable pub update_entry : Bytes → ℕ → DirTree → DirTree × Bool
update_entry path mtime t =
    if has_value (find_entry path t)
    then (
      record t { entries = modify Bytes-discrete path (λ e. record e { mtime = mtime }) t.entries },
      true,
    )
    else (t, false)

-- The path itself or an entry below it: `first == path || first.rfind(path + DIR_SEP, 0) == 0`.
unfoldable pub within : Bytes → Bytes → Bool
within path key = bytes_eq key path || starts_with key (path ++ slash ∷ [])

unfoldable pub taken : (Bytes → Bool) → Entries → List DirEntry
taken test [] = []
taken test ((k, e) ∷ m) = let rest = taken test m in if test k then e ∷ rest else rest

unfoldable pub without : (Bytes → Bool) → Entries → Entries
without test [] = []
without test ((k, e) ∷ m) = let rest = without test m in if test k then rest else (k, e) ∷ rest

-- The entries that were within a path, and the tree without them.
unfoldable pub extract : Bytes → DirTree → List DirEntry × DirTree
unfolding taken without
extract path t =
    (taken (within path) t.entries, record t { entries = without (within path) t.entries })

abbrev pub moved_path : Bytes → Bytes → Bytes → Bytes
moved_path old_path new_path path = new_path ++ drop (length old_path) path

abbrev pub moved_entry : Bytes → Bytes → DirEntry → DirEntry
moved_entry old_path new_path e = record e { path = moved_path old_path new_path e.path }

-- `insert_or_assign(entry.path, entry)` for each entry.
unfoldable pub assign_all : List DirEntry → Entries → Entries
assign_all [] m = m
assign_all (e ∷ es) m = assign_all es (assign Bytes-discrete e.path e m)

unfoldable pub restore_entries : List DirEntry → Bytes → Bytes → Entries → Entries
restore_entries [] old_path new_path m = m
restore_entries (e ∷ es) old_path new_path m =
    let moved = moved_entry old_path new_path e in
    restore_entries es old_path new_path (assign Bytes-discrete moved.path moved m)

unfoldable pub restore : List DirEntry → Bytes → Bytes → DirTree → DirTree
unfolding restore_entries
restore restored old_path new_path t = record t {
  entries = restore_entries restored old_path new_path t.entries;
}

-- The first loop of `rename` collects the entries at their new paths.
unfoldable pub moved_entries : Bytes → Bytes → Entries → List DirEntry
moved_entries old_path new_path [] = []
moved_entries old_path new_path ((k, e) ∷ m) =
    let rest = moved_entries old_path new_path m in
    if within old_path k then moved_entry old_path new_path e ∷ rest else rest

unfoldable pub rename_path : Bytes → Bytes → DirTree → DirTree
unfolding moved_entries without assign_all
rename_path old_path new_path t = record t {
  entries =
      assign_all (moved_entries old_path new_path t.entries) (without (within old_path) t.entries);
}

abbrev pub is_directory_entry : Option DirEntry → Bool
is_directory_entry none = false
is_directory_entry (some e) = e.is_dir

-- `remove`: all entries below a directory go with it.
unfoldable pub remove_path : Bytes → DirTree → DirTree
unfolding without
remove_path path t =
    let below = λ (key : Bytes). starts_with key (path ++ slash ∷ []) in
    record t {
      entries =
          erase Bytes-discrete path
            (if is_directory_entry (find_entry path t) then without below t.entries else t.entries);
    }

-- One round of the first loop of `getChanges`.
unfoldable pub note_entry : DirEntry → Option DirEntry → EventList → EventList
note_entry e none events = create e.path (entry_kind e.is_dir) events
note_entry e (some old) events =
    if not (old.mtime == e.mtime) && not old.is_dir && not e.is_dir
    then update e.path file events
    else events

unfoldable pub note_entries : Entries → Entries → EventList → EventList
unfolding note_entry
note_entries snapshot [] events = events
note_entries snapshot ((k, e) ∷ m) events =
    note_entries snapshot m (note_entry e (find Bytes-discrete k snapshot) events)

-- The second loop.
unfoldable pub note_removed : Entries → Entries → EventList → EventList
note_removed current [] events = events
note_removed current ((k, e) ∷ m) events = note_removed current m (
    if has_value (find Bytes-discrete k current)
    then events
    else remove e.path (entry_kind e.is_dir) events)

unfoldable pub get_changes : DirTree → DirTree → EventList → EventList
unfolding note_entries note_removed
get_changes t snapshot events =
    note_removed t.entries snapshot.entries (note_entries snapshot.entries t.entries events)
