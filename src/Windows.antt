-- ===== src/Windows.antt =====
-- src/windows/WindowsBackend.cc: the index of a subscription, and how `addPath` walks into it. The separator
-- `\` of a path is written as the slash, which no name has on Windows. What the filesystem answers and
-- the ignore test are parameters that do not change while one batch of notifications is handled.
pub mod Scan
pub mod Events
pub mod Buffer
pub mod Subscription
pub mod Steps
pub mod Walk
pub mod Stopping
pub mod Ending
use native_watcher.Base.{
  ℕ, zero, suc, ◌+◌, ◌%◌, ◌^◌, Bool, true, false, not, ◌&&◌, ◌||◌, Option, none, some, List, [],
  ◌∷◌, ◌++◌, Bytes, codes, bytes_eq, slash, if◌then◌else◌, has_value, drop, length, keep,
}
use native_watcher.Event.{EventList, create, update, remove, rename, entry_kind, file}
use native_watcher.DirTree.{
  DirEntry, DirTree, find_entry, add, update_entry, extract, moved_path, restore, remove_path,
}
use native_watcher.Inotify.Session.{report_removed}
use native_watcher.Inotify.Created.{is_dots}
use native_watcher.Inotify.Arrive.{decimal_loop, is_empty}
use native_watcher.IdentityIndex.{has_path, insert_path, erase_path}
use native_watcher.Watcher.Ignore.{split_leaf}

-- `is_special` is a reparse point or a device.
pub record Attributes : Type 0 where
  pub mtime : ℕ
  pub is_directory : Bool
  pub is_special : Bool

-- `GetFileAttributesExW`; the names that `FindFirstFileW` finds in a directory; the name on the disk of
-- a path; `CompareStringOrdinal` without case; and what the watcher ignores.
pub record WindowsFiles : Type 0 where
  pub attributes : Bytes → Option Attributes
  pub names_in : Bytes → Option (List Bytes)
  pub name_of : Bytes → Option Bytes
  pub same_folded : Bytes → Bytes → Bool
  pub is_ignored : Bytes → Bool
  pub has_ignores : Bool

-- The part of a subscription that notifications change, with the events of its watcher.
pub record Watched : Type 0 where
  pub tree : DirTree
  pub events : EventList
  pub pending_rename_path : Option Bytes
  pub removed_paths : List Bytes
  pub previous_removed_paths : List Bytes
  pub rename_sequence : ℕ

pub data Action : Type 0 where
  added removed modified renamed_old_name renamed_new_name other : Action

-- `removePath`
unfoldable pub remove_watched : Bytes → Watched → Watched
unfolding extract report_removed
remove_watched path s =
    let (entries, rest) = extract path s.tree in
    record s { tree = rest; events = report_removed entries s.events }

unfoldable pub flush_pending : Option Bytes → Watched → Watched
unfolding remove_watched
flush_pending none s = s
flush_pending (some path) s = record (remove_watched path s) { pending_rename_path = none }

abbrev pub flush_pending_rename : Watched → Watched
flush_pending_rename s = flush_pending s.pending_rename_path s

abbrev pub on_events : (EventList → EventList) → Watched → Watched
on_events change s = record s { events = change s.events }

abbrev pub on_tree : (DirTree → DirTree) → Watched → Watched
on_tree change s = record s { tree = change s.tree }

-- `pending.push` for each name; the last one is on top.
unfoldable pub push_names : Bytes → List Bytes → List Bytes → List Bytes
push_names path [] stack = stack
push_names path (name ∷ names) stack =
    push_names path names (if is_dots name then stack else (path ++ slash ∷ name) ∷ stack)

abbrev pub names_or_none : Option (List Bytes) → List Bytes
names_or_none none = []
names_or_none (some names) = names

-- `std::to_string` of a `uint64_t`, which has twenty digits at most.
abbrev pub rename_id : ℕ → Bytes
rename_id sequence = codes "windows:" ++ decimal_loop 20 sequence []

module _ (files : WindowsFiles) where
  abbrev pub index_new : Bytes → Attributes → Watched → Watched
  index_new path a s =
      if has_value (find_entry path s.tree)
      then s
      else on_tree (add path a.mtime a.is_directory)
          (on_events (create path (entry_kind a.is_directory)) s)

  -- The body of the loop of `addPath`: what it pushes, and the state.
  abbrev pub visit_attributes : Bytes → Option Attributes → Watched → List Bytes × Watched
  visit_attributes path none s = ([], s)
  visit_attributes path (some a) s = if a.is_special then ([], s) else (
    (if a.is_directory then push_names path (names_or_none (files.names_in path)) [] else []),
    index_new path a s,
  )

  unfoldable pub visit : Bytes → Watched → List Bytes × Watched
  unfolding add create push_names
  visit path s =
      if files.is_ignored path then ([], s) else visit_attributes path (files.attributes path) s

  -- `addPath`, on a stack; `none` is fuel that ran out.
  unfoldable pub add_path_loop : ℕ → List Bytes → Watched → Option Watched
  unfolding visit
  add_path_loop fuel [] s = some s
  add_path_loop zero (path ∷ stack) s = none
  add_path_loop (suc fuel) (path ∷ stack) s =
      let r = visit path s in add_path_loop fuel (r.0 ++ stack) r.1
