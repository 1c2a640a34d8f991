-- ===== src/Inotify/Subscribe.antt =====
-- src/linux/InotifyBackend.cc: `subscribe`, and the loop of `handleEvents` over what it reads.
use native_watcher.Base.{
  ℕ, Bool, true, false, Option, none, some, List, [], ◌∷◌, Bytes, if◌then◌else◌,
}
use native_watcher.DirTree.{new_tree}
use native_watcher.Glob.Ignore.{slash_prefixes}
use native_watcher.Inotify.Session.{Session, insert, handle_overflow}
use native_watcher.Inotify.Created.{
  Rules, Files, Reply, done, failed, watch, add_created_tree, on_tree,
}
use native_watcher.Inotify.Reconcile.{unsubscribe_below}
use native_watcher.Inotify.Arrive.{InotifyEvent}
use native_watcher.Inotify.Handle.{handle_event}

-- The paths before each slash of the root but the first byte.
unfoldable pub ancestors : Bytes → List Bytes
unfolding slash_prefixes
ancestors [] = []
ancestors (c ∷ path) = slash_prefixes (c ∷ []) path

-- What the kernel sends: an event, or that its queue overflowed.
pub data Incoming : Type 0 where
  overflow : Incoming
  event : InotifyEvent → Incoming

unfoldable pub insert_all : List ℕ → List ℕ → List ℕ
unfolding insert
insert_all [] ws = ws
insert_all (w ∷ more) ws = insert_all more (insert w ws)

module _ (rules : Rules) (files : Files) (fuel : ℕ) where
  -- The watches of the ancestors; false if one of them fails.
  unfoldable pub watch_ancestors : ℕ → ℕ → List Bytes → Session → Session × Bool
  unfolding watch
  watch_ancestors watcher tree [] s = (s, true)
  watch_ancestors watcher tree (path ∷ paths) s =
      let (s', reply) = watch rules files watcher path tree s in
      elim reply [ failed errno ↦ (s', false) | done _ ↦ watch_ancestors watcher tree paths s' ]

  -- All of a watcher's subscriptions end.
  abbrev pub drop_watcher : ℕ → Session → Session
  drop_watcher watcher s = unsubscribe_below rules watcher (rules.dir watcher) s

  -- The end of the `try` block, and of the function where it throws.
  unfoldable pub complete_subscription :
      ℕ → ℕ → Option (Session × Reply Unit) → Option (Session × Bool)
  complete_subscription watcher tree none = none
  complete_subscription watcher tree (some (s, failed errno)) = some (drop_watcher watcher s, false)
  complete_subscription watcher tree (some (s, done _)) =
      if rules.is_cancelled watcher
      then some (
        drop_watcher watcher (record s { needs_resubscribe = insert watcher s.needs_resubscribe }),
        true,
      )
      else some (on_tree tree (λ t. record t { is_complete = true }) s, true)

  -- The watch of the root and its contents.
  unfoldable pub enter_root : ℕ → ℕ → Session × Reply Unit → Option (Session × Bool)
  unfolding complete_subscription
  enter_root watcher tree (s, failed errno) = some (drop_watcher watcher s, false)
  enter_root watcher tree (s, done _) =
      complete_subscription watcher tree
        (add_created_tree rules files watcher tree false fuel (rules.dir watcher) s)

  -- `subscribe`: the session, and whether it returns. `tree` names the new tree of `getTree`.
  unfoldable pub subscribe : ℕ → ℕ → Session → Option (Session × Bool)
  unfolding enter_root watch_ancestors ancestors
  subscribe watcher tree s =
      let root = rules.dir watcher in
      let (s', watched) =
        watch_ancestors watcher tree (ancestors root) (on_tree tree (λ t. new_tree root) s) in
      if watched
      then enter_root watcher tree (watch rules files watcher root tree s')
      else some (drop_watcher watcher s', false)

  module _ (strerror : ℕ → Bytes) (now : ℕ) where
    -- The loop of `handleEvents`, up to the notifications of the watchers that it collects.
    unfoldable pub handle_events : List Incoming → List ℕ → Session → Option (Session × List ℕ)
    unfolding handle_event handle_overflow insert_all
    handle_events [] watchers s = some (s, watchers)
    handle_events (overflow ∷ rest) watchers s =
        let (s', overflowed) = handle_overflow rules.dir s in
        handle_events rest (insert_all overflowed watchers) s'
    handle_events (event e ∷ rest) watchers s =
        elim (handle_event rules files strerror fuel now e watchers s) [
          | none ↦ none
          | some (s', watchers') ↦ handle_events rest watchers' s'
        ]
