-- ===== src/Inotify/Ending.antt =====
-- src/linux/InotifyBackend.cc: enough fuel brings `subscribe` and `handleEvents` to their end.
use native_watcher.Base.{
  ℕ, ◌<◌, refl, Bool, true, false, not, ◌&&◌, ◌||◌, Option, none, some, List, [], ◌∷◌, Bytes, ◌==◌,
  if◌then◌else◌, arith, Bool-cases, Option-cases, inl, inr, find,
}
use native_watcher.DirTree.{extract, new_tree}
use native_watcher.Inotify.{Subscription}
use native_watcher.Inotify.Session.{Session}
use native_watcher.Inotify.Created.{
  Rules, Files, Reply, done, failed, watch, add_created_tree, is_special, is_folder, on_tree,
}
use native_watcher.Inotify.Keeps.{Reply-cases}
use native_watcher.Inotify.Reconcile.{reconcile_moved_tree}
use native_watcher.Inotify.Arrive.{
  InotifyEvent, of_self, Arrival, arrival_of, no_move, MoveKey-discrete, finish, fill_folder,
  enter_folder, arrive_at, arrive, suppress,
}
use native_watcher.Inotify.Subscribe.{
  Incoming, overflow, event, complete_subscription, enter_root, subscribe, handle_events,
  watch_ancestors, ancestors,
}
use native_watcher.Inotify.Handle.{
  handle_below, handle_subscription, handle_each, handle_event, current, is_above, is_root,
}
use native_watcher.Inotify.Fuel.{path_max, RefusesLongPaths, Ends, if-Ends, add_created_tree-Ends}

module _ (rules : Rules) (files : Files) (strerror : ℕ → Bytes) (fuel : ℕ)
    (long : RefusesLongPaths files) (enough : path_max < fuel) where
  tree-Ends :
      (watcher tree : ℕ) (report_events : Bool) (path : Bytes) (s : Session)
      → Ends (add_created_tree rules files watcher tree report_events fuel path s)
  tree-Ends watcher tree report_events path s =
      add_created_tree-Ends rules files watcher tree report_events long fuel path s (omega arith)
        (omega arith)

  reconcile_moved_tree-Ends :
      (watcher tree : ℕ) (path : Bytes) (s : Session)
      → Ends (reconcile_moved_tree rules watcher files fuel tree path s)
  unfolding reconcile_moved_tree
  reconcile_moved_tree-Ends watcher tree path s =
      let start = on_tree tree (λ t. (extract path (s.trees tree)).1) s in
      let ends = tree-Ends watcher tree false path start in
      elim (Option-cases (add_created_tree rules files watcher tree false fuel path start)) [
        | inl e ↦ absurd (ground (arith, ends, e))
        | inr ((s', reply), e) ↦ elim (Reply-cases reply) [
          | inr (errno, f) ↦ rw (reconcile_moved_tree, e, f) refl
          | inl (u, f) ↦ rw (reconcile_moved_tree, e, f) refl
        ]
      ]

  finish-Ends :
      (a : Arrival) (sub : Subscription) (path : Bytes) (o : Option (Session × Reply Unit))
      → Ends o
      → Ends (finish rules files strerror fuel a sub path o)
  finish-Ends a sub path none h = h
  finish-Ends a sub path (some (s, done u)) h = refl
  finish-Ends a sub path (some (s, failed errno)) h = refl

  fill_folder-Ends :
      (a : Arrival) (rescan : Bool) (sub : Subscription) (path : Bytes) (r : Session × Reply Unit)
      → Ends (fill_folder rules files strerror fuel a rescan sub path r)
  unfolding fill_folder
  fill_folder-Ends a rescan sub path (s, failed errno) = refl
  fill_folder-Ends a rescan sub path (s, done u) =
      if-Ends (a.suppressed_events || rescan) _ _
        (finish-Ends a sub path _ (reconcile_moved_tree-Ends sub.watcher sub.tree path s))
        (if-Ends (not a.within_root) _ (some (s, true))
          (finish-Ends a sub path _ (tree-Ends sub.watcher sub.tree true path s)) refl)

  arrive_at-Ends :
      (a : Arrival) (e : InotifyEvent) (sub : Subscription) (path : Bytes) (s : Session)
      → Ends (arrive_at rules files strerror fuel a e sub path s)
  unfolding arrive_at enter_folder
  arrive_at-Ends a e sub path s = elim (Option-cases (files.lstat path)) [
    | inl gone ↦ rw (arrive_at, gone) refl
    | inr (st, here) ↦
        rw (arrive_at, here)
          (if-Ends (is_special st.type) (some _) _ refl
            (if-Ends (is_folder st.type) _ (some _) (fill_folder-Ends a _ sub path _) refl))
  ]

  arrive-Ends :
      (e : InotifyEvent) (sub : Subscription) (path : Bytes) (s : Session)
      → Ends (arrive rules files strerror fuel e sub path s)
  unfolding arrive
  arrive-Ends e sub path s =
      elim (Option-cases (
        if e.moved_to && not (e.cookie == 0)
        then find MoveKey-discrete (sub.watcher, e.cookie) s.inotify.pending_moves
        else none)) [
          | inl n ↦ rw (arrive, n) (arrive_at-Ends no_move e sub path s)
          | inr (move, f) ↦ rw (arrive, f) (arrive_at-Ends (arrival_of move) e sub path _)
        ]

  complete-Ends :
      (watcher tree : ℕ) (o : Option (Session × Reply Unit))
      → Ends o
      → Ends (complete_subscription rules files fuel watcher tree o)
  unfolding complete_subscription
  complete-Ends watcher tree none h = h
  complete-Ends watcher tree (some (s, failed errno)) h = refl
  complete-Ends watcher tree (some (s, done u)) h =
      if-Ends (rules.is_cancelled watcher) (some _) (some _) refl refl

  enter_root-Ends :
      (watcher tree : ℕ) (r : Session × Reply Unit)
      → Ends (enter_root rules files fuel watcher tree r)
  unfolding enter_root
  enter_root-Ends watcher tree (s, failed errno) = refl
  enter_root-Ends watcher tree (s, done u) =
      complete-Ends watcher tree _ (tree-Ends watcher tree false (rules.dir watcher) s)

  -- Where `opendir` refuses paths of PATH_MAX bytes, a fuel above PATH_MAX is enough for `subscribe`
  -- to return or throw.
  pub subscribe-Ends :
      (watcher tree : ℕ) (s : Session) → Ends (subscribe rules files fuel watcher tree s)
  unfolding subscribe
  subscribe-Ends watcher tree s =
      let root = rules.dir watcher in
      let r =
        watch_ancestors rules files fuel watcher tree (ancestors root)
          (on_tree tree (λ t. new_tree root) s) in
      elim (Bool-cases r.1) [
        | inl e ↦
            rw (subscribe, e)
              (enter_root-Ends watcher tree (watch rules files watcher root tree r.0))
        | inr e ↦ rw (subscribe, e) refl
      ]

  module _ (now : ℕ) where
    handle_below-Ends :
        (e : InotifyEvent) (sub : Subscription) (path : Bytes) (s : Session)
        → Ends (handle_below rules files strerror fuel now e sub path s)
    unfolding handle_below
    handle_below-Ends e sub path s = elim (Option-cases (suppress sub s.inotify.pending_moves)) [
      | inr (marked, e) ↦ rw (handle_below, e) refl
      | inl n ↦
          rw (handle_below, n)
            (if-Ends (rules.is_ignored sub.watcher path) (some (s, false)) _ refl (
              if-Ends (e.created || e.moved_to) _ _ (arrive-Ends e sub path s) (
                if-Ends e.changed (some _) _ refl (
                  if-Ends (e.deleted || e.self_deleted || e.moved_from || e.self_moved) (some _)
                    (some (s, true)) refl refl))))
    ]

    handle_subscription-Ends :
        (e : InotifyEvent) (sub : Subscription) (s : Session)
        → Ends (handle_subscription rules files strerror fuel now e sub s)
    unfolding handle_subscription
    handle_subscription-Ends e sub s =
        if-Ends (is_above rules files strerror fuel now sub && not (of_self e)) (some (s, false)) _
          refl
          (if-Ends (is_root rules files strerror fuel now sub && of_self e) (some _) _ refl
            (handle_below-Ends e sub _ s))

    handle_each-Ends :
        (e : InotifyEvent) (subs : List Subscription) (watchers : List ℕ) (s : Session)
        → Ends (handle_each rules files strerror fuel now e subs watchers s)
    unfolding handle_each
    handle_each-Ends e [] watchers s = refl
    handle_each-Ends e (sub ∷ subs) watchers s =
        let one =
          handle_subscription rules files strerror fuel now e
            (current rules files strerror fuel now sub s.inotify.subscriptions) s in
        let ends : Ends one = handle_subscription-Ends e _ s in
        elim (Option-cases one) [
          | inl n ↦ absurd (ground (arith, ends, n))
          | inr ((s', touched), f) ↦ rw (handle_each, f) (handle_each-Ends e subs _ s')
        ]

    handle_event-Ends :
        (e : InotifyEvent) (watchers : List ℕ) (s : Session)
        → Ends (handle_event rules files strerror fuel now e watchers s)
    unfolding handle_event
    handle_event-Ends e watchers s = handle_each-Ends e _ watchers s

    -- Where `opendir` refuses paths of PATH_MAX bytes, a fuel above PATH_MAX is enough for whatever
    -- the kernel sends: `handleEvents` comes to its end.
    pub handle_events-Ends :
        (incoming : List Incoming) (watchers : List ℕ) (s : Session)
        → Ends (handle_events rules files fuel strerror now incoming watchers s)
    unfolding handle_events
    handle_events-Ends [] watchers s = refl
    handle_events-Ends (overflow ∷ rest) watchers s = handle_events-Ends rest _ _
    handle_events-Ends (event e ∷ rest) watchers s =
        let one = handle_event rules files strerror fuel now e watchers s in
        let ends : Ends one = handle_event-Ends e watchers s in
        elim (Option-cases one) [
          | inl n ↦ absurd (ground (arith, ends, n))
          | inr ((s', watchers'), r) ↦ rw (handle_events, r) (handle_events-Ends rest watchers' s')
        ]
