-- ===== src/Inotify/Subscribed.antt =====
-- src/linux/InotifyBackend.cc: `subscribe` takes back what it did when it fails, and `handleEvents`
-- keeps the watches covered.
use native_watcher.Base.{
  ℕ, Bool, true, false, Option, none, some, List, [], ◌∷◌, Bytes, Bool-cases, Option-cases, inl,
  inr,
}
use native_watcher.DirTree.{new_tree}
use native_watcher.Inotify.{Subscriptions}
use native_watcher.Inotify.Covered.{Covered, remove_subscriptions-Covered}
use native_watcher.Inotify.Outcome.{NoneOf, left-NoneOf, handle_overflow-Covered}
use native_watcher.Inotify.Session.{Session, handle_overflow, insert}
use native_watcher.Inotify.Created.{Rules, Files, Reply, done, failed, watch, on_tree}
use native_watcher.Inotify.Keeps.{Kept, Reply-cases, watch-Covered, add_created_tree-Kept}
use native_watcher.Inotify.Handle.{handle_event}
use native_watcher.Inotify.Handled.{handle_event-Kept}
use native_watcher.Inotify.Subscribe.{
  Incoming, overflow, event, ancestors, watch_ancestors, drop_watcher, complete_subscription,
  enter_root, subscribe, handle_events,
}

-- The watches are covered, and a watcher whose subscription throws has none left.
abbrev pub Settled : ℕ → Option (Session × Bool) → Type 0
Settled watcher none = Unit
Settled watcher (some (s, true)) = Covered s.inotify
Settled watcher (some (s, false)) = Covered s.inotify × NoneOf watcher s.inotify.subscriptions

module _ (rules : Rules) (files : Files) (fuel : ℕ) where
  dropped :
      (watcher : ℕ) (s : Session)
      → Covered s.inotify
      → Settled watcher (some (drop_watcher rules files fuel watcher s, false))
  unfolding native_watcher.Inotify.remove_subscriptions
  dropped watcher s c = (
    remove_subscriptions-Covered watcher (rules.dir watcher) (rules.dir watcher) s.inotify c,
    left-NoneOf watcher (rules.dir watcher) s.inotify.subscriptions,
  )

  watch_ancestors-Covered :
      (watcher tree : ℕ) (paths : List Bytes) (s : Session)
      → Covered s.inotify
      → Covered (watch_ancestors rules files fuel watcher tree paths s).0.inotify
  unfolding watch_ancestors
  watch_ancestors-Covered watcher tree [] s c = c
  watch_ancestors-Covered watcher tree (path ∷ paths) s c =
      let watched = watch rules files watcher path tree s in
      let c' : Covered watched.0.inotify = watch-Covered rules files watcher path tree s c in
      elim (Reply-cases watched.1) [
        | inr (errno, e) ↦ rw (watch_ancestors, e) c'
        | inl (u, e) ↦
            rw (watch_ancestors, e) (watch_ancestors-Covered watcher tree paths watched.0 c')
      ]

  complete-Settled :
      (watcher tree : ℕ) (o : Option (Session × Reply Unit))
      → Kept o
      → Settled watcher (complete_subscription rules files fuel watcher tree o)
  unfolding complete_subscription
  complete-Settled watcher tree none k = tt
  complete-Settled watcher tree (some (s, failed errno)) k = dropped watcher s k
  complete-Settled watcher tree (some (s, done u)) k =
      elim (Bool-cases (rules.is_cancelled watcher)) [
        | inl x ↦
            rw (complete_subscription, x)
              (dropped watcher (record s { needs_resubscribe = insert watcher s.needs_resubscribe })
                k).0
        | inr x ↦ rw (complete_subscription, x) k
      ]

  enter_root-Settled :
      (watcher tree : ℕ) (r : Session × Reply Unit)
      → Covered r.0.inotify
      → Settled watcher (enter_root rules files fuel watcher tree r)
  unfolding enter_root
  enter_root-Settled watcher tree (s, failed errno) c = dropped watcher s c
  enter_root-Settled watcher tree (s, done u) c =
      complete-Settled watcher tree _
        (add_created_tree-Kept rules files watcher tree false fuel (rules.dir watcher) s c)

  -- With the watches covered, they are covered when `subscribe` ends, however it ends; where it
  -- throws, no subscription of the watcher is left.
  pub subscribe-Settled :
      (watcher tree : ℕ) (s : Session)
      → Covered s.inotify
      → Settled watcher (subscribe rules files fuel watcher tree s)
  unfolding subscribe
  subscribe-Settled watcher tree s c =
      let root = rules.dir watcher in
      let start = on_tree tree (λ t. new_tree root) s in
      let r = watch_ancestors rules files fuel watcher tree (ancestors root) start in
      let c' : Covered r.0.inotify =
        watch_ancestors-Covered watcher tree (ancestors root) start c in
      elim (Bool-cases r.1) [
        | inl e ↦
            rw (subscribe, e)
              (enter_root-Settled watcher tree (watch rules files watcher root tree r.0)
                (watch-Covered rules files watcher root tree r.0 c'))
        | inr e ↦ rw (subscribe, e) (dropped watcher r.0 c')
      ]

  module _ (strerror : ℕ → Bytes) (now : ℕ) where
    -- Whatever the kernel sends, events and overflows in any order: when `handleEvents` ends, the
    -- kernel watches exactly the descriptors that have a subscription, if it did so before.
    pub handle_events-Kept :
        (incoming : List Incoming) (watchers : List ℕ) (s : Session)
        → Covered s.inotify
        → Kept (handle_events rules files fuel strerror now incoming watchers s)
    unfolding handle_events
    handle_events-Kept [] watchers s c = c
    handle_events-Kept (overflow ∷ rest) watchers s c =
        handle_events-Kept rest _ (handle_overflow rules.dir s).0
          (handle_overflow-Covered rules.dir s c)
    handle_events-Kept (event e ∷ rest) watchers s c =
        let one = handle_event rules files strerror fuel now e watchers s in
        let kept : Kept one = handle_event-Kept rules files strerror fuel now e watchers s c in
        elim (Option-cases one) [
          | inl n ↦ rw (handle_events, n) tt
          | inr ((s', watchers'), r) ↦
              let c' : Covered s'.inotify = rw r at kept in
              rw (handle_events, r) (handle_events-Kept rest watchers' s' c')
        ]
