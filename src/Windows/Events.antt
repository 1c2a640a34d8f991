-- ===== src/Windows/Events.antt =====
-- src/windows/WindowsBackend.cc: `processEvent`, what one change notification does.
use native_watcher.Base.{
  ℕ, ◌+◌, ◌%◌, ◌^◌, Bool, true, not, ◌&&◌, ◌||◌, Option, none, some, List, [], ◌∷◌, ◌++◌, Bytes,
  codes, bytes_eq, slash, if◌then◌else◌, has_value, drop, length, keep,
}
use native_watcher.Event.{EventList, create, update, remove, rename, entry_kind, file}
use native_watcher.DirTree.{
  DirEntry, find_entry, add, update_entry, extract, moved_path, restore, remove_path,
}
use native_watcher.Inotify.Arrive.{is_empty}
use native_watcher.IdentityIndex.{has_path, insert_path, erase_path}
use native_watcher.Watcher.Ignore.{split_leaf}
use native_watcher.Windows.{
  Attributes, WindowsFiles, Watched, Action, added, removed, modified, renamed_old_name,
  renamed_new_name, other, remove_watched, flush_pending, flush_pending_rename, on_events, on_tree,
  rename_id, add_path_loop,
}

module _ (files : WindowsFiles) where
  -- Whether a rename meets a target that was there; the paths removed lately are looked at in turn.
  unfoldable pub claim_target : Bytes → Watched → Watched × Bool
  unfolding has_path erase_path
  claim_target path s =
      if has_value (find_entry path s.tree)
      then (s, true)
      else if has_path path s.removed_paths
      then (record s { removed_paths = erase_path path s.removed_paths }, true)
      else (
        record s { previous_removed_paths = erase_path path s.previous_removed_paths },
        has_path path s.previous_removed_paths,
      )

  -- The events of the entries of a rename.
  unfoldable pub report_renamed :
      Bool → Bool → Bytes → Bytes → Bytes → List DirEntry → EventList → EventList
  report_renamed target_existed supported old_path path id [] l = l
  report_renamed target_existed supported old_path path id (e ∷ es) l =
      let rest = drop (length old_path) e.path in
      let target = path ++ rest in
      let kind = entry_kind e.is_dir in
      report_renamed target_existed supported old_path path id es (
        if target_existed || not supported || files.is_ignored target
        then (let gone = remove e.path kind l in
            if supported && not (files.is_ignored target) then create target kind gone else gone)
        else rename e.path target (id ++ codes ":" ++ rest) kind l)

  abbrev pub visible : Bytes → Bytes → List DirEntry → List DirEntry
  visible old_path path entries =
      keep (λ (e : DirEntry). not (files.is_ignored (moved_path old_path path e.path))) entries

  -- The entries of a rename, once what was at the target is claimed.
  unfoldable pub move_entries : Bool → Bool → Bytes → Bytes → Watched → List DirEntry × Watched
  unfolding extract remove_path report_renamed restore keep
  move_entries target_existed supported old_path path s =
      let (entries, rest) = extract old_path s.tree in
      let cleared = if target_existed then remove_path path rest else rest in
      let sequence = (s.rename_sequence + 1) % 2 ^ 64 in
      (
        entries,
        record s {
          tree =
              if supported
              then restore (visible old_path path entries) old_path path cleared
              else cleared;
          events =
              report_renamed target_existed supported old_path path (rename_id sequence) entries
                s.events;
          rename_sequence = sequence;
        },
      )

  -- The attributes of the target refresh its entry or make one.
  unfoldable pub refresh_target : Bytes → Attributes → List DirEntry → Watched → Watched
  unfolding update_entry add create
  refresh_target path a entries s =
      let updated = update_entry path a.mtime s.tree in
      if updated.1
      then record s { tree = updated.0 }
      else on_tree (add path a.mtime a.is_directory)
          (if is_empty entries then on_events (create path (entry_kind a.is_directory)) s else s)

  abbrev pub is_supported : Option Attributes → Bool
  is_supported none = true
  is_supported (some a) = not a.is_special

  abbrev pub no_pending : Watched → Watched
  no_pending s = record s { pending_rename_path = none }

  module _ (fuel : ℕ) where
    abbrev pub add_path : Bytes → Watched → Option Watched
    add_path path s = add_path_loop files fuel (path ∷ []) s

    abbrev pub then_no_pending : Option Watched → Option Watched
    then_no_pending none = none
    then_no_pending (some s) = some (no_pending s)

    -- The end of a rename: a directory is walked if its tree may not be known.
    unfoldable pub end_rename : Bytes → Option Attributes → List DirEntry → Watched → Option Watched
    unfolding refresh_target add_path_loop
    end_rename path none entries s = some (no_pending s)
    end_rename path (some a) entries s =
        let refreshed = refresh_target path a entries s in
        if a.is_special
        then some (no_pending s)
        else if a.is_directory && (is_empty entries || files.has_ignores)
        then then_no_pending (add_path path refreshed)
        else some (no_pending refreshed)

    unfoldable pub rename_to : Option Bytes → Bytes → Option Attributes → Watched → Option Watched
    unfolding claim_target move_entries end_rename add_path_loop
    rename_to none path none s = some s
    rename_to none path (some a) s = if a.is_special then some s else add_path path s
    rename_to (some old_path) path a s =
        let claimed = claim_target path s in
        let moved = move_entries claimed.1 (is_supported a) old_path path claimed.0 in
        end_rename path a moved.0 moved.1

    unfoldable pub modify_path : Bytes → Option Attributes → Watched → Watched
    unfolding update_entry update
    modify_path path none s = s
    modify_path path (some a) s =
        if a.is_special || not (has_value (find_entry path s.tree))
        then s
        else (let s' : Watched = record s { tree = (update_entry path a.mtime s.tree).0 } in
            if a.is_directory then s' else on_events (update path file) s')

    abbrev pub on_disk : Option Bytes × Bytes → Bytes → Bytes
    on_disk (none, leaf) name = name
    on_disk (some dir, leaf) name = dir ++ slash ∷ name

    -- A path that is still there in another spelling is added again.
    unfoldable pub recover_spelling : Bytes → Option Bytes → Watched → Option Watched
    unfolding split_leaf bytes_eq add_path_loop
    recover_spelling path none s = some s
    recover_spelling path (some name) s =
        let parts = split_leaf path in
        if not (bytes_eq name parts.1) && files.same_folded parts.1 name
        then add_path (on_disk parts name) s
        else some s

    -- `processEvent`
    unfoldable pub handle_action : Action → Bytes → Watched → Option Watched
    unfolding flush_pending erase_path insert_path remove_watched rename_to modify_path
        recover_spelling add_path_loop
    handle_action added path s =
        let s' = flush_pending_rename s in
        add_path path (record s' {
          removed_paths = erase_path path s'.removed_paths;
          previous_removed_paths = erase_path path s'.previous_removed_paths;
        })
    handle_action renamed_new_name path s =
        rename_to s.pending_rename_path path (files.attributes path) s
    handle_action modified path s =
        some (modify_path path (files.attributes path) (flush_pending_rename s))
    handle_action removed path s =
        let s' = flush_pending_rename s in
        recover_spelling path (files.name_of path)
          (remove_watched path (record s' { removed_paths = insert_path path s'.removed_paths }))
    handle_action renamed_old_name path s =
        some (record (flush_pending_rename s) { pending_rename_path = some path })
    handle_action other path s = some s

    unfoldable pub process_event : Action → Bytes → Watched → Option Watched
    unfolding flush_pending handle_action
    process_event action path s =
        if files.is_ignored path then some (flush_pending_rename s) else handle_action action path s
