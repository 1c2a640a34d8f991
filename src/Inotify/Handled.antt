-- ===== src/Inotify/Handled.antt =====
-- src/linux/InotifyBackend.cc: `handleSubscription` and `handleEvent` keep the watches covered.
use native_watcher.Base.{
  ℕ, Bool, true, false, not, ◌&&◌, ◌||◌, Option, some, List, [], ◌∷◌, Bytes, ◌==◌, if◌then◌else◌,
  Option-cases, inl, inr,
}
use native_watcher.DirTree.{extract}
use native_watcher.Inotify.{Subscription}
use native_watcher.Inotify.Covered.{Covered}
use native_watcher.Inotify.Outcome.{lose_root_lem}
use native_watcher.Inotify.Session.{Session, lose_root, report, report_removed}
use native_watcher.Inotify.Created.{Rules, Files, on_tree}
use native_watcher.Inotify.Keeps.{Kept}
use native_watcher.Inotify.Reconcile.{unsubscribe_below}
use native_watcher.Inotify.Arrive.{InotifyEvent, of_self, suppress}
use native_watcher.Inotify.Handle.{
  modify_path, depart, handle_below, event_path, is_above, is_root, handle_subscription, current,
  handle_each, handle_event,
}
use native_watcher.Inotify.Arrived.{
  CoveredSession, if-Covered, if-pair-Covered, if-Kept, unsubscribe_below-Covered, arrive-Kept,
}

module _ (rules : Rules) (files : Files) (strerror : ℕ → Bytes) (fuel now : ℕ) where
  modify_path-Covered :
      (sub : Subscription) (path : Bytes) (s : Session)
      → Covered s.inotify
      → Covered (modify_path rules files strerror fuel now sub path s).0.inotify
  unfolding modify_path
  modify_path-Covered sub path s c = elim (Option-cases (files.lstat path)) [
    | inl gone ↦ rw (modify_path, gone) c
    | inr (st, here) ↦ rw (modify_path, here) (if-pair-Covered _ (s, false) _ c c)
  ]

  depart-Covered :
      (event : InotifyEvent) (sub : Subscription) (path : Bytes) (s : Session)
      → Covered s.inotify
      → Covered (depart rules files strerror fuel now event sub path s).0.inotify
  unfolding depart
  depart-Covered event sub path s c =
      let (entries, rest) = extract path (s.trees sub.tree) in
      let told = report sub.watcher (report_removed entries) (on_tree sub.tree (λ t. rest) s) in
      if-pair-Covered (event.self_deleted || event.self_moved) (s, false) _ c
        (if-pair-Covered (event.moved_from && not (event.cookie == 0)) _ _ c (
          if-Covered event.is_dir (unsubscribe_below rules sub.watcher path told) told
            (unsubscribe_below-Covered rules sub.watcher path told c) c))

  handle_below-Kept :
      (event : InotifyEvent) (sub : Subscription) (path : Bytes) (s : Session)
      → Covered s.inotify
      → Kept (handle_below rules files strerror fuel now event sub path s)
  unfolding handle_below
  handle_below-Kept event sub path s c =
      elim (Option-cases (suppress sub s.inotify.pending_moves)) [
        | inr (marked, e) ↦ rw (handle_below, e) c
        | inl n ↦
            rw (handle_below, n)
              (if-Kept (rules.is_ignored sub.watcher path) (some (s, false)) _ c (
                if-Kept (event.created || event.moved_to) _ _
                  (arrive-Kept rules files strerror fuel event sub path s c)
                  (if-Kept event.changed
                    (some (modify_path rules files strerror fuel now sub path s)) _
                    (modify_path-Covered sub path s c)
                    (if-Kept
                      (event.deleted || event.self_deleted || event.moved_from || event.self_moved)
                      (some (depart rules files strerror fuel now event sub path s))
                      (some (s, true)) (depart-Covered event sub path s c) c))))
      ]

  pub handle_subscription-Kept :
      (event : InotifyEvent) (sub : Subscription) (s : Session)
      → Covered s.inotify
      → Kept (handle_subscription rules files strerror fuel now event sub s)
  unfolding handle_subscription
  handle_subscription-Kept event sub s c =
      let lost : Option (Session × Bool) = some (lose_root rules.dir sub s, true) in
      let below =
        handle_below rules files strerror fuel now event sub
          (event_path rules files strerror fuel now event sub.path) s in
      if-Kept (is_above rules files strerror fuel now sub && not (of_self event)) (some (s, false))
        (if is_root rules files strerror fuel now sub && of_self event then lost else below) c
        (if-Kept (is_root rules files strerror fuel now sub && of_self event) lost below
          (lose_root_lem rules.dir sub s c).3 (handle_below-Kept event sub _ s c))

  handle_each-Kept :
      (event : InotifyEvent) (subs : List Subscription) (watchers : List ℕ) (s : Session)
      → Covered s.inotify
      → Kept (handle_each rules files strerror fuel now event subs watchers s)
  unfolding handle_each
  handle_each-Kept event [] watchers s c = c
  handle_each-Kept event (sub ∷ subs) watchers s c =
      let one =
        handle_subscription rules files strerror fuel now event
          (current rules files strerror fuel now sub s.inotify.subscriptions) s in
      let kept : Kept one = handle_subscription-Kept event _ s c in
      elim (Option-cases one) [
        | inl n ↦ rw (handle_each, n) tt
        | inr ((s', touched), e) ↦
            let c' : CoveredSession s' = rw e at kept in
            rw (handle_each, e) (handle_each-Kept event subs _ s' c')
      ]

  -- Whatever the event, the rules and the answers of the filesystem are: when `handleEvent` ends, the
  -- kernel watches exactly the descriptors that have a subscription, if it did so before.
  pub handle_event-Kept :
      (event : InotifyEvent) (watchers : List ℕ) (s : Session)
      → Covered s.inotify
      → Kept (handle_event rules files strerror fuel now event watchers s)
  unfolding handle_event
  handle_event-Kept event watchers s c = handle_each-Kept event _ watchers s c
