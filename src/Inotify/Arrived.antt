-- ===== src/Inotify/Arrived.antt =====
-- src/linux/InotifyBackend.cc: `reconcileMovedTree` and the arrival of a path keep the watches
-- covered.
use native_watcher.Base.{
  ℕ, ◌≡◌, refl, sym, ◌∙◌, Bool, true, false, not, ◌&&◌, ◌||◌, Option, none, some, List, [], ◌∷◌,
  ◌++◌, Bytes, ◌==◌, if◌then◌else◌, arith, Bool-cases, Option-cases, inl, inr, map, any, drop,
  length, find, erase, is_path_or_descendant, Bytes-discrete,
}
use native_watcher.DirTree.{DirEntry, Entries, extract, update_entry, remove_path}
use native_watcher.Inotify.{
  Inotify, Subscription, Subscriptions, PendingMove, MoveKey, tracked, same_id, move_subscriptions,
}
use native_watcher.Inotify.Covered.{Covered, remove_subscriptions-Covered}
use native_watcher.Inotify.Session.{Session, forget_watcher, invalidate, report, report_removed}
use native_watcher.Event.{remove, entry_kind, EntryKind, update, file}
use native_watcher.Inotify.Created.{
  Rules, Files, Stat, is_folder, is_special, Reply, done, failed, add_created_tree, on_tree,
}
use native_watcher.Inotify.Keeps.{Kept, Reply-cases, watch-Covered, add_created_tree-Kept}
use native_watcher.Inotify.Reconcile.{
  compare_entry, compare_all, report_gone, reconcile_moved_tree, unsubscribe_below, same_type,
  emplace_all,
}
use native_watcher.Inotify.Arrive.{
  InotifyEvent, Arrival, arrival_of, MoveKey-discrete, no_move, adopt_move, unsubscribe_entries,
  drop_special, report_arrival, index_arrival, fail_arrival, finish, fill_folder, enter_folder,
  arrive_at, arrive,
}

abbrev pub CoveredSession : Session → Type 0
CoveredSession s = Covered s.inotify

pub if-Covered :
    (b : Bool) (x y : Session)
    → CoveredSession x
    → CoveredSession y
    → CoveredSession (if b then x else y)
if-Covered true x y h k = h
if-Covered false x y h k = k

pub if-pair-Covered :
    {A : Type 0} (b : Bool) (x y : Session × A)
    → CoveredSession x.0
    → CoveredSession y.0
    → CoveredSession (if b then x else y).0
if-pair-Covered true x y h k = h
if-pair-Covered false x y h k = k

pub if-Kept :
    {A : Type 0} (b : Bool) (x y : Option (Session × A))
    → Kept x
    → Kept y
    → Kept (if b then x else y)
if-Kept true x y h k = h
if-Kept false x y h k = k

module _ (rules : Rules) (watcher : ℕ) where
  pub unsubscribe_below-Covered :
      (path : Bytes) (s : Session)
      → Covered s.inotify
      → Covered (unsubscribe_below rules watcher path s).inotify
  unsubscribe_below-Covered path s c =
      remove_subscriptions-Covered watcher (rules.dir watcher) path s.inotify c

  compare_entry-Covered :
      (path : Bytes) (now : DirEntry) (old : Option DirEntry) (s : Session)
      → Covered s.inotify
      → Covered (compare_entry rules watcher path now old s).inotify
  unfolding compare_entry
  compare_entry-Covered path now none s c = c
  compare_entry-Covered path now (some old) s c =
      if-Covered (not (same_type old now)) _ _
        (if-Covered old.is_dir (unsubscribe_below rules watcher path s) s
          (unsubscribe_below-Covered path s c) c)
        (if-Covered (not now.is_dir && not (old.mtime == now.mtime))
          (report watcher (update path file) s) s c c)

  compare_all-Covered :
      (path : Bytes) (entries before : Entries) (s : Session)
      → Covered s.inotify
      → Covered (compare_all rules watcher path entries before s).0.inotify
  unfolding compare_all
  compare_all-Covered path [] before s c = c
  compare_all-Covered path ((k, now) ∷ entries) before s c =
      elim (Bool-cases (is_path_or_descendant k path)) [
        | inl e ↦
            rw (compare_all, e)
              (compare_all-Covered path entries (erase Bytes-discrete k before) _
                (compare_entry-Covered k now (find Bytes-discrete k before) s c))
        | inr e ↦ rw (compare_all, e) (compare_all-Covered path entries before s c)
      ]

  report_gone-Covered :
      (before : Entries) (s : Session)
      → Covered s.inotify
      → Covered (report_gone rules watcher before s).inotify
  unfolding report_gone
  report_gone-Covered [] s c = c
  report_gone-Covered ((k, old) ∷ before) s c =
      let gone = report watcher (remove k (entry_kind old.is_dir)) s in
      let told = if rules.is_ignored watcher k then s else gone in
      let ct : CoveredSession told = if-Covered (rules.is_ignored watcher k) s gone c c in
      report_gone-Covered before
        (if old.is_dir then unsubscribe_below rules watcher k told else told)
        (if-Covered old.is_dir (unsubscribe_below rules watcher k told) told
          (unsubscribe_below-Covered k told ct) ct)

  reconcile_moved_tree-Kept :
      (files : Files) (fuel tree : ℕ) (path : Bytes) (s : Session)
      → Covered s.inotify
      → Kept (reconcile_moved_tree rules watcher files fuel tree path s)
  unfolding reconcile_moved_tree
  reconcile_moved_tree-Kept files fuel tree path s c =
      let start = on_tree tree (λ t. (extract path (s.trees tree)).1) s in
      let kept : Kept (add_created_tree rules files watcher tree false fuel path start) =
        add_created_tree-Kept rules files watcher tree false fuel path start c in
      elim (Option-cases (add_created_tree rules files watcher tree false fuel path start)) [
        | inl e ↦ rw (reconcile_moved_tree, e) tt
        | inr ((s', reply), e) ↦
            let c' : Covered s'.inotify = rw e at kept in
            elim (Reply-cases reply) [
              | inr (errno, f) ↦ rw (reconcile_moved_tree, e, f) c'
              | inl (u, f) ↦
                  let before = emplace_all (extract path (s.trees tree)).0 [] in
                  let compared = compare_all rules watcher path (s'.trees tree).entries before s' in
                  rw (reconcile_moved_tree, e, f)
                    (report_gone-Covered compared.1 compared.0
                      (compare_all-Covered path (s'.trees tree).entries before s' c'))
            ]
      ]

tracked-map :
    (d : ℕ) (f : Subscription → Subscription) (test : Subscription → Bool) (subs : Subscriptions)
    → tracked d (map (λ (e : ℕ × Subscription). if test e.1 then (e.0, f e.1) else e) subs)
      ≡ tracked d subs
unfolding tracked
tracked-map d f test [] = refl
tracked-map d f test ((e, sub) ∷ subs) = ground (arith, tracked-map d f test subs)

move_subscriptions-Covered :
    (move : PendingMove) (path : Bytes) (s : Inotify)
    → Covered s
    → Covered (move_subscriptions move path s)
unfolding move_subscriptions
move_subscriptions-Covered move path s (o, c) = (
  o,
  λ d.
      c d
      ∙ sym (
          tracked-map d (λ sub. record sub { path = path ++ drop (length move.path) sub.path })
            (λ sub. any (same_id sub) move.subscriptions) s.subscriptions),
)

module _ (rules : Rules) (files : Files) (strerror : ℕ → Bytes) (fuel : ℕ) where
  adopt_move-Covered :
      (key : MoveKey) (move : PendingMove) (sub : Subscription) (path : Bytes) (s : Session)
      → Covered s.inotify
      → Covered (adopt_move rules files strerror fuel key move sub path s).inotify
  unfolding adopt_move
  adopt_move-Covered key move sub path s c = move_subscriptions-Covered move path s.inotify c

  unsubscribe_entries-Covered :
      (w : ℕ) (es : List DirEntry) (s : Session)
      → Covered s.inotify
      → Covered (unsubscribe_entries rules files strerror fuel w es s).inotify
  unfolding unsubscribe_entries
  unsubscribe_entries-Covered w [] s c = c
  unsubscribe_entries-Covered w (e ∷ es) s c =
      let below = unsubscribe_below rules w e.path s in
      unsubscribe_entries-Covered w es (if e.is_dir then below else s)
        (if-Covered e.is_dir below s (unsubscribe_below-Covered rules w e.path s c) c)

  drop_special-Covered :
      (sub : Subscription) (path : Bytes) (s : Session)
      → Covered s.inotify
      → Covered (drop_special rules files strerror fuel sub path s).0.inotify
  unfolding drop_special
  drop_special-Covered sub path s c =
      let (entries, rest) = extract path (s.trees sub.tree) in
      unsubscribe_entries-Covered sub.watcher entries
        (report sub.watcher (report_removed entries) (on_tree sub.tree (λ t. rest) s)) c

  report_arrival-Covered :
      (a : Arrival) (event : InotifyEvent) (sub : Subscription) (path : Bytes) (kind : EntryKind)
      (s : Session)
      → Covered s.inotify
      → Covered (report_arrival rules files strerror fuel a event sub path kind s).inotify
  unfolding report_arrival
  report_arrival-Covered a event sub path kind s c =
      if-Covered (not a.within_root) _ _ c (if-Covered a.missing_source _ s c c)

  index_arrival-Covered :
      (a : Arrival) (sub : Subscription) (path : Bytes) (st : Stat) (s : Session)
      → Covered s.inotify
      → Covered (index_arrival rules files strerror fuel a sub path st s).0.inotify
  unfolding index_arrival
  index_arrival-Covered a sub path st s c =
      if-pair-Covered (not a.within_root) _ _ c
        (if-pair-Covered (update_entry path st.mtime (s.trees sub.tree)).1 _ _ c c)

  fail_arrival-Covered :
      (a : Arrival) (sub : Subscription) (path : Bytes) (errno : ℕ) (s : Session)
      → Covered s.inotify
      → Covered (fail_arrival rules files strerror fuel a sub path errno s).inotify
  unfolding fail_arrival forget_watcher invalidate
  fail_arrival-Covered a sub path errno s c =
      let cleared = if a.within_root then s else on_tree sub.tree (remove_path path) s in
      remove_subscriptions-Covered sub.watcher (rules.dir sub.watcher) (rules.dir sub.watcher)
        cleared.inotify (if-Covered a.within_root s (on_tree sub.tree (remove_path path) s) c c)

  finish-Kept :
      (a : Arrival) (sub : Subscription) (path : Bytes) (o : Option (Session × Reply Unit))
      → Kept o
      → Kept (finish rules files strerror fuel a sub path o)
  finish-Kept a sub path none h = tt
  finish-Kept a sub path (some (s, done u)) h = h
  finish-Kept a sub path (some (s, failed errno)) h = fail_arrival-Covered a sub path errno s h

  fill_folder-Kept :
      (a : Arrival) (rescan : Bool) (sub : Subscription) (path : Bytes) (r : Session × Reply Unit)
      → CoveredSession r.0
      → Kept (fill_folder rules files strerror fuel a rescan sub path r)
  unfolding fill_folder
  fill_folder-Kept a rescan sub path (s, failed errno) c = fail_arrival-Covered a sub path errno s c
  fill_folder-Kept a rescan sub path (s, done u) c =
      if-Kept (a.suppressed_events || rescan) _ _
        (finish-Kept a sub path _
          (reconcile_moved_tree-Kept rules sub.watcher files fuel sub.tree path s c))
        (if-Kept (not a.within_root) _ (some (s, true))
          (finish-Kept a sub path _
            (add_created_tree-Kept rules files sub.watcher sub.tree true fuel path s c))
          c)

  enter_folder-Kept :
      (a : Arrival) (missing : Bool) (sub : Subscription) (path : Bytes) (s : Session)
      → Covered s.inotify
      → Kept (enter_folder rules files strerror fuel a missing sub path s)
  unfolding enter_folder
  enter_folder-Kept a missing sub path s c = fill_folder-Kept a _ sub path _ (
      if-pair-Covered (a.within_root && not missing) (s, done tt) _ c
        (watch-Covered rules files sub.watcher path sub.tree s c))

  arrive_at-Kept :
      (a : Arrival) (event : InotifyEvent) (sub : Subscription) (path : Bytes) (s : Session)
      → Covered s.inotify
      → Kept (arrive_at rules files strerror fuel a event sub path s)
  unfolding arrive_at
  arrive_at-Kept a event sub path s c = elim (Option-cases (files.lstat path)) [
    | inl gone ↦ rw (arrive_at, gone) c
    | inr (st, here) ↦
        let kind = entry_kind (is_folder st.type) in
        let told = report_arrival rules files strerror fuel a event sub path kind s in
        let indexed = index_arrival rules files strerror fuel a sub path st told in
        let c' : CoveredSession indexed.0 =
          index_arrival-Covered a sub path st told
            (report_arrival-Covered a event sub path kind s c) in
        rw (arrive_at, here)
          (if-Kept (is_special st.type) (some (drop_special rules files strerror fuel sub path s)) _
            (drop_special-Covered sub path s c)
            (if-Kept (is_folder st.type) _ (some (indexed.0, true))
              (enter_folder-Kept a indexed.1 sub path indexed.0 c') c'))
  ]

  pub arrive-Kept :
      (event : InotifyEvent) (sub : Subscription) (path : Bytes) (s : Session)
      → Covered s.inotify
      → Kept (arrive rules files strerror fuel event sub path s)
  unfolding arrive
  arrive-Kept event sub path s c =
      let key : MoveKey = (sub.watcher, event.cookie) in
      elim (Option-cases (
        if event.moved_to && not (event.cookie == 0)
        then find MoveKey-discrete key s.inotify.pending_moves
        else none)) [
          | inl n ↦ rw (arrive, n) (arrive_at-Kept no_move event sub path s c)
          | inr (move, e) ↦
              rw (arrive, e)
                (arrive_at-Kept (arrival_of move) event sub path
                  (adopt_move rules files strerror fuel key move sub path s)
                  (adopt_move-Covered key move sub path s c))
        ]
