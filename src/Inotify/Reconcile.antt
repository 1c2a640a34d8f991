-- ===== src/Inotify/Reconcile.antt =====
-- src/linux/InotifyBackend.cc: `reconcileMovedTree`. It walks the index in the order of the list.
use native_watcher.Base.{
  ℕ, Bool, false, not, ◌&&◌, ◌||◌, Option, none, some, List, [], ◌∷◌, Bytes, Bytes-discrete, ◌==◌,
  if◌then◌else◌, find, emplace, erase, is_path_or_descendant,
}
use native_watcher.Event.{entry_kind, file, create, update, remove}
use native_watcher.DirTree.{DirEntry, Entries, extract}
use native_watcher.Inotify.{remove_subscriptions}
use native_watcher.Inotify.Session.{Session, report}
use native_watcher.Inotify.Created.{Rules, Files, Reply, done, failed, add_created_tree, on_tree}

unfoldable pub emplace_all : List DirEntry → Entries → Entries
emplace_all [] m = m
emplace_all (e ∷ es) m = emplace_all es (emplace Bytes-discrete e.path e m)

abbrev pub same_type : DirEntry → DirEntry → Bool
same_type a b = (a.is_dir && b.is_dir) || (not a.is_dir && not b.is_dir)

module _ (rules : Rules) (watcher : ℕ) where
  abbrev pub unsubscribe_below : Bytes → Session → Session
  unsubscribe_below path s = record s {
    inotify = remove_subscriptions watcher (rules.dir watcher) path s.inotify;
  }

  -- The events of an entry that is at the destination now, by the entry that was there before.
  unfoldable pub compare_entry : Bytes → DirEntry → Option DirEntry → Session → Session
  compare_entry path current none s = report watcher (create path (entry_kind current.is_dir)) s
  compare_entry path current (some old) s =
      if not (same_type old current)
      then report watcher (update path (entry_kind current.is_dir))
          (if old.is_dir then unsubscribe_below path s else s)
      else if not current.is_dir && not (old.mtime == current.mtime)
      then report watcher (update path file) s
      else s

  unfoldable pub compare_all : Bytes → Entries → Entries → Session → Session × Entries
  unfolding compare_entry
  compare_all path [] before s = (s, before)
  compare_all path ((k, current) ∷ entries) before s =
      let next =
        if is_path_or_descendant k path
        then compare_entry k current (find Bytes-discrete k before) s
        else s in
      let left = if is_path_or_descendant k path then erase Bytes-discrete k before else before in
      compare_all path entries left next

  unfoldable pub report_gone : Entries → Session → Session
  report_gone [] s = s
  report_gone ((k, old) ∷ before) s =
      let told =
        if rules.is_ignored watcher k
        then s
        else report watcher (remove k (entry_kind old.is_dir)) s in
      report_gone before (if old.is_dir then unsubscribe_below k told else told)

  unfoldable pub reconcile_moved_tree :
      Files → ℕ → ℕ → Bytes → Session → Option (Session × Reply Unit)
  unfolding emplace_all compare_all report_gone
  reconcile_moved_tree files fuel tree path s =
      let (previous, rest) = extract path (s.trees tree) in
      elim (add_created_tree rules files watcher tree false fuel path
        (on_tree tree (λ t. rest) s)) [
          | none ↦ none
          | some (s', reply) ↦ elim reply [
            | failed errno ↦ some (s', failed errno)
            | done _ ↦
                let (s'', gone) =
                  compare_all path (s'.trees tree).entries (emplace_all previous []) s' in
                some (report_gone gone s'', done tt)
          ]
        ]
