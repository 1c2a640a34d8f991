-- ===== src/Inotify/Arrive.antt =====
-- src/linux/InotifyBackend.cc: `handleSubscription` at IN_CREATE and IN_MOVED_TO.
use native_watcher.Base.{
  ℕ, zero, suc, ◌+◌, ◌/◌, ◌%◌, Bool, true, false, not, ◌&&◌, ◌||◌, Option, none, some, List, [],
  ◌∷◌, ◌++◌, Bytes, ◌==◌, if◌then◌else◌, has_value, any, codes, drop, length, find, erase,
  ℕ_discrete,
}
use native_watcher.Event.{EventList, EntryKind, entry_kind, create, update, remove, rename, error}
use native_watcher.DirTree.{
  DirEntry, DirTree, find_entry, add, update_entry, remove_path, extract, restore,
}
use native_watcher.Inotify.{
  Subscription, PendingMove, PendingMoves, MoveKey, same_id, move_subscriptions,
}
use native_watcher.Inotify.Session.{
  Session, change, report, report_removed, invalidate, forget_watcher,
}
use native_watcher.Inotify.Created.{
  Rules, Files, Stat, is_folder, is_special, Reply, done, failed, on_tree, watch, add_created_tree,
}
use native_watcher.Inotify.Reconcile.{reconcile_moved_tree, unsubscribe_below}

-- `inotify_event`, its mask by the bits that the handler tests; `name` is empty where `len` is 0.
pub record InotifyEvent : Type 0 where
  pub wd : ℕ
  pub cookie : ℕ
  pub name : Bytes
  pub is_dir : Bool
  pub created : Bool
  pub moved_to : Bool
  pub moved_from : Bool
  pub deleted : Bool
  pub changed : Bool
  pub self_moved : Bool
  pub self_deleted : Bool
  pub watch_ended : Bool

abbrev pub of_self : InotifyEvent → Bool
of_self e = e.self_moved || e.self_deleted || e.watch_ended

-- `std::to_string` of a `uint32_t`, which has ten digits at most.
unfoldable pub decimal_loop : ℕ → ℕ → Bytes → Bytes
decimal_loop zero n digits = digits
decimal_loop (suc fuel) n digits =
    let more = decimal_loop fuel (n / 10) ((48 + n % 10) ∷ digits) in
    if n / 10 == 0 then (48 + n % 10) ∷ digits else more

abbrev pub decimal : ℕ → Bytes
decimal n = decimal_loop 10 n []

abbrev pub move_id : ℕ → Bytes
move_id cookie = codes "inotify:" ++ decimal cookie

unfoldable pub MoveKey-discrete : Discrete MoveKey
MoveKey-discrete (a, b) (c, d) = elim (ℕ_discrete a c) [
  | yes p ↦ elim (ℕ_discrete b d) [
    | yes q ↦ yes (λ i. (p i, q i))
    | no n ↦ no (λ e. n (λ i. (e i).1))
  ]
  | no n ↦ no (λ e. n (λ i. (e i).0))
]

-- What the handler knows of a path that appeared: whether it is the second half of a pending move.
pub record Arrival : Type 0 where
  pub within_root : Bool
  pub missing_source : Bool
  pub suppressed_events : Bool
  pub old_path : Bytes

abbrev pub no_move : Arrival
no_move = record {
  within_root = false;
  missing_source = false;
  suppressed_events = false;
  old_path = [];
}

abbrev pub is_empty {ℓ} : {A : Type ℓ} → List A → Bool
is_empty [] = true
is_empty (x ∷ xs) = false

abbrev pub arrival_of : PendingMove → Arrival
arrival_of move = record {
  within_root = true;
  missing_source = is_empty move.entries;
  suppressed_events = move.suppressed_events;
  old_path = move.path;
}

-- The first pending move of a directory that carries the subscription is marked.
unfoldable pub suppress : Subscription → PendingMoves → Option PendingMoves
unfolding any
suppress sub [] = none
suppress sub ((k, move) ∷ moves) =
    let rest = suppress sub moves in
    if move.watcher == sub.watcher && move.is_directory && any (same_id sub) move.subscriptions
    then some ((k, record move { suppressed_events = true }) ∷ moves)
    else elim rest [ none ↦ none | some marked ↦ some ((k, move) ∷ marked) ]

module _ (rules : Rules) (files : Files) (strerror : ℕ → Bytes) (fuel : ℕ) where
  -- The events of the entries of a move whose second half is there.
  unfoldable pub report_moves :
      ℕ → DirTree → Bool → Bytes → Bytes → ℕ → List DirEntry → EventList → EventList
  report_moves w t target_existed old_path path cookie [] l = l
  report_moves w t target_existed old_path path cookie (e ∷ es) l =
      let rest = drop (length old_path) e.path in
      let target = path ++ rest in
      let kind = entry_kind e.is_dir in
      report_moves w t target_existed old_path path cookie es (
        if target_existed || rules.is_ignored w target
        then (let gone = remove e.path kind l in
            if rules.is_ignored w target
            then gone
            else if has_value (find_entry target t)
            then update target kind gone
            else create target kind gone)
        else rename e.path target (move_id cookie ++ codes ":" ++ rest) kind l)

  -- The move itself: events, index, subscriptions, and the pending move.
  unfoldable pub adopt_move : MoveKey → PendingMove → Subscription → Bytes → Session → Session
  unfolding report_moves
  adopt_move key move sub path s =
      let t = s.trees sub.tree in
      let cleared =
        if not (is_empty move.entries) && has_value (find_entry path t)
        then remove_path path t
        else t in
      let moved = move_subscriptions move path s.inotify in
      record s {
        events =
            change sub.watcher
              (report_moves sub.watcher t (has_value (find_entry path t)) move.path path key.1
                move.entries)
              s.events;
        trees = change sub.tree (λ u. restore move.entries move.path path cleared) s.trees;
        inotify = record moved { pending_moves = erase MoveKey-discrete key moved.pending_moves };
      }

  -- A path that is no file and no directory leaves the index.
  unfoldable pub unsubscribe_entries : ℕ → List DirEntry → Session → Session
  unsubscribe_entries w [] s = s
  unsubscribe_entries w (e ∷ es) s =
      unsubscribe_entries w es (if e.is_dir then unsubscribe_below rules w e.path s else s)

  unfoldable pub drop_special : Subscription → Bytes → Session → Session × Bool
  unfolding unsubscribe_entries report_removed
  drop_special sub path s =
      let (entries, rest) = extract path (s.trees sub.tree) in
      (
        unsubscribe_entries sub.watcher entries
            (report sub.watcher (report_removed entries) (on_tree sub.tree (λ t. rest) s)),
        not (is_empty entries),
      )

  -- The events of a path that is there, and the index without it where the source was not known.
  unfoldable pub report_arrival :
      Arrival → InotifyEvent → Subscription → Bytes → EntryKind → Session → Session
  report_arrival a event sub path kind s =
      let known = has_value (find_entry path (s.trees sub.tree)) in
      if not a.within_root
      then report sub.watcher (if known then update path kind else create path kind) s
      else if a.missing_source
      then on_tree sub.tree (remove_path path) (
          report sub.watcher
            (λ l.
              if known
              then update path kind (remove a.old_path kind l)
              else rename a.old_path path (move_id event.cookie) kind l)
            s)
      else s

  -- The index with the path, and whether it has to be scanned as a source that was not known.
  unfoldable pub index_arrival : Arrival → Subscription → Bytes → Stat → Session → Session × Bool
  index_arrival a sub path st s =
      let t = s.trees sub.tree in
      if not a.within_root
      then (on_tree sub.tree (add path st.mtime (is_folder st.type)) s, a.missing_source)
      else if (update_entry path st.mtime t).1
      then (on_tree sub.tree (λ u. (update_entry path st.mtime u).0) s, a.missing_source)
      else (on_tree sub.tree (add path st.mtime (is_folder st.type)) s, true)

  abbrev failure_text : Bytes → ℕ → Bytes
  failure_text path errno =
      codes "inotify_add_watch below '" ++ path ++ codes "' failed: " ++ strerror errno

  -- A directory that cannot be watched invalidates the subscription.
  unfoldable pub fail_arrival : Arrival → Subscription → Bytes → ℕ → Session → Session
  fail_arrival a sub path errno s =
      let cleared = if a.within_root then s else on_tree sub.tree (remove_path path) s in
      forget_watcher sub.watcher (rules.dir sub.watcher)
        (report sub.watcher (error (failure_text path errno)) (invalidate sub.watcher cleared))

  abbrev pub finish :
      Arrival → Subscription → Bytes → Option (Session × Reply Unit) → Option (Session × Bool)
  finish a sub path none = none
  finish a sub path (some (s, done _)) = some (s, true)
  finish a sub path (some (s, failed errno)) = some (fail_arrival a sub path errno s, true)

  -- What follows on the watch of a directory that is there.
  unfoldable pub fill_folder :
      Arrival → Bool → Subscription → Bytes → Session × Reply Unit → Option (Session × Bool)
  unfolding fail_arrival
  fill_folder a rescan sub path (s, failed errno) = some (fail_arrival a sub path errno s, true)
  fill_folder a rescan sub path (s, done _) =
      if a.suppressed_events || rescan
      then finish a sub path (reconcile_moved_tree rules sub.watcher files fuel sub.tree path s)
      else if not a.within_root
      then finish a sub path (add_created_tree rules files sub.watcher sub.tree true fuel path s)
      else some (s, true)

  unfoldable pub enter_folder :
      Arrival → Bool → Subscription → Bytes → Session → Option (Session × Bool)
  unfolding fill_folder
  enter_folder a missing_source sub path s =
      fill_folder a (a.within_root && (missing_source || rules.has_ignores sub.watcher)) sub path (
        if a.within_root && not missing_source
        then (s, done tt)
        else watch rules files sub.watcher path sub.tree s)

  unfoldable pub arrive_at :
      Arrival → InotifyEvent → Subscription → Bytes → Session → Option (Session × Bool)
  unfolding drop_special report_arrival index_arrival enter_folder
  arrive_at a event sub path s = elim (files.lstat path) [
    | none ↦ some (s, false)
    | some st ↦
        let kind = entry_kind (is_folder st.type) in
        let (indexed, missing_source) =
          index_arrival a sub path st (report_arrival a event sub path kind s) in
        if is_special st.type
        then some (drop_special sub path s)
        else if is_folder st.type
        then enter_folder a missing_source sub path indexed
        else some (indexed, true)
  ]

  -- IN_CREATE and IN_MOVED_TO.
  unfoldable pub arrive : InotifyEvent → Subscription → Bytes → Session → Option (Session × Bool)
  unfolding arrive_at adopt_move
  arrive event sub path s =
      let key : MoveKey = (sub.watcher, event.cookie) in
      let pending =
        if event.moved_to && not (event.cookie == 0)
        then find MoveKey-discrete key s.inotify.pending_moves
        else none in
      elim pending [
        | none ↦ arrive_at no_move event sub path s
        | some move ↦ arrive_at (arrival_of move) event sub path (adopt_move key move sub path s)
      ]
