-- ===== src/Inotify/Handle.antt =====
-- src/linux/InotifyBackend.cc: `handleSubscription` and `handleEvent`.
use native_watcher.Base.{
  ℕ, Bool, true, false, not, ◌&&◌, ◌||◌, Option, none, some, List, [], ◌∷◌, Bytes, ◌==◌,
  if◌then◌else◌, has_value, bytes_eq, assign, is_path_or_descendant,
}
use native_watcher.Event.{entry_kind, update}
use native_watcher.DirTree.{find_entry, update_entry, extract}
use native_watcher.Inotify.{Subscription, Subscriptions, PendingMove, same_id}
use native_watcher.Inotify.Session.{Session, report, report_removed, lose_root, insert}
use native_watcher.Inotify.Created.{Rules, Files, is_folder, is_special, on_tree, child}
use native_watcher.Inotify.Reconcile.{unsubscribe_below}
use native_watcher.Inotify.Arrive.{
  InotifyEvent, of_self, MoveKey-discrete, is_empty, suppress, arrive,
}

module _ (rules : Rules) (files : Files) (strerror : ℕ → Bytes) (fuel now : ℕ) where
  -- IN_MODIFY and IN_ATTRIB.
  unfoldable pub modify_path : Subscription → Bytes → Session → Session × Bool
  modify_path sub path s = elim (files.lstat path) [
    | none ↦ (s, false)
    | some st ↦
        if is_special st.type || not (has_value (find_entry path (s.trees sub.tree)))
        then (s, false)
        else (
          on_tree sub.tree (λ t. (update_entry path st.mtime t).0)
              (report sub.watcher (update path (entry_kind (is_folder st.type))) s),
          true,
        )
  ]

  -- The subscriptions that a directory takes with it.
  unfoldable pub moved_subscriptions : ℕ → Bytes → Subscriptions → List Subscription
  moved_subscriptions w path [] = []
  moved_subscriptions w path ((d, sub) ∷ subs) =
      let rest = moved_subscriptions w path subs in
      if sub.watcher == w && is_path_or_descendant sub.path path then sub ∷ rest else rest

  -- IN_DELETE, IN_MOVED_FROM and the self events of directories below the root.
  unfoldable pub depart : InotifyEvent → Subscription → Bytes → Session → Session × Bool
  unfolding moved_subscriptions report_removed
  depart event sub path s =
      let (entries, rest) = extract path (s.trees sub.tree) in
      let without_path = on_tree sub.tree (λ t. rest) s in
      let told = report sub.watcher (report_removed entries) without_path in
      let move : PendingMove = record {
        watcher = sub.watcher;
        tree = sub.tree;
        path = path;
        is_directory = event.is_dir;
        entries = entries;
        subscriptions =
            if event.is_dir
            then moved_subscriptions sub.watcher path s.inotify.subscriptions
            else [];
        created_at = now;
        suppressed_events = false;
      } in
      if event.self_deleted || event.self_moved
      then (s, false)
      else if event.moved_from && not (event.cookie == 0)
      then (
        record without_path {
          inotify = record s.inotify {
            pending_moves =
                assign MoveKey-discrete (sub.watcher, event.cookie) move s.inotify.pending_moves;
          };
        },
        true,
      )
      else (if event.is_dir then unsubscribe_below rules sub.watcher path told else told, true)

  -- `handleSubscription` behind the tests on the root.
  unfoldable pub handle_below :
      InotifyEvent → Subscription → Bytes → Session → Option (Session × Bool)
  unfolding suppress arrive modify_path depart
  handle_below event sub path s = elim (suppress sub s.inotify.pending_moves) [
    | some marked ↦ some (record s { inotify = record s.inotify { pending_moves = marked } }, false)
    | none ↦
        if rules.is_ignored sub.watcher path
        then some (s, false)
        else if event.created || event.moved_to
        then arrive rules files strerror fuel event sub path s
        else if event.changed
        then some (modify_path sub path s)
        else if event.deleted || event.self_deleted || event.moved_from || event.self_moved
        then some (depart event sub path s)
        else some (s, true)
  ]

  abbrev pub event_path : InotifyEvent → Bytes → Bytes
  event_path event path = if is_empty event.name then path else child path event.name

  -- The subscription is to a directory above the root of its watcher.
  abbrev pub is_above : Subscription → Bool
  is_above sub =
      not (bytes_eq sub.path (rules.dir sub.watcher))
      && is_path_or_descendant (rules.dir sub.watcher) sub.path

  abbrev pub is_root : Subscription → Bool
  is_root sub = is_above sub || bytes_eq sub.path (rules.dir sub.watcher)

  unfoldable pub handle_subscription :
      InotifyEvent → Subscription → Session → Option (Session × Bool)
  unfolding handle_below lose_root
  handle_subscription event sub s =
      if is_above sub && not (of_self event)
      then some (s, false)
      else if is_root sub && of_self event
      then some (lose_root rules.dir sub s, true)
      else handle_below event sub (event_path event sub.path) s

  -- The object of a subscription as it is now: `moveSubscriptions` may have changed its path.
  unfoldable pub current : Subscription → Subscriptions → Subscription
  current sub [] = sub
  current sub ((d, other) ∷ subs) =
      let rest = current sub subs in if same_id sub other then other else rest

  unfoldable pub handle_each :
      InotifyEvent → List Subscription → List ℕ → Session → Option (Session × List ℕ)
  unfolding handle_subscription current
  handle_each event [] watchers s = some (s, watchers)
  handle_each event (sub ∷ subs) watchers s =
      elim (handle_subscription event (current sub s.inotify.subscriptions) s) [
        | none ↦ none
        | some (s', touched) ↦
            handle_each event subs (if touched then insert sub.watcher watchers else watchers) s'
      ]

  unfoldable pub subscriptions_of : ℕ → Subscriptions → List Subscription
  subscriptions_of wd [] = []
  subscriptions_of wd ((d, sub) ∷ subs) =
      let rest = subscriptions_of wd subs in if d == wd then sub ∷ rest else rest

  -- `handleEvent`: the session and the watchers to notify.
  unfoldable pub handle_event : InotifyEvent → List ℕ → Session → Option (Session × List ℕ)
  unfolding handle_each subscriptions_of
  handle_event event watchers s =
      handle_each event (subscriptions_of event.wd s.inotify.subscriptions) watchers s
