-- ===== src/Inotify/MovedPair.antt =====
-- src/linux/InotifyBackend.cc: the two halves of a move, IN_MOVED_FROM and IN_MOVED_TO with one
-- cookie, against a rename of the index.
use native_watcher.Base.{
  ℕ, ◌≡◌, refl, sym, ◌∙◌, ap, true, false, not, ◌&&◌, ◌||◌, none, some, List, [], ◌∷◌, ◌++◌, Bytes,
  codes, ◌==◌, if◌then◌else◌, arith, drop, length, find, assign, find-assign, has_value,
}
use native_watcher.Event.{EventList, entry_kind, rename}
use native_watcher.DirTree.{DirEntry, DirTree, find_entry, extract, restore, rename_path}
use native_watcher.DirTree.Moves.{rename_path-restore}
use native_watcher.Inotify.{Subscription, PendingMove, MoveKey}
use native_watcher.Inotify.Session.{Session, change}
use native_watcher.Inotify.Created.{Rules, Files, on_tree}
use native_watcher.Inotify.Arrive.{
  InotifyEvent, MoveKey-discrete, move_id, report_moves, adopt_move,
}
use native_watcher.Inotify.Handle.{moved_subscriptions, depart}

-- A rename of every entry, each with its own id: the cookie and the path below the old path.
unfoldable pub rename_entries : Bytes → Bytes → ℕ → List DirEntry → EventList → EventList
rename_entries old new cookie [] l = l
rename_entries old new cookie (e ∷ es) l =
    let rest = drop (length old) e.path in
    rename_entries old new cookie es
      (rename e.path (new ++ rest) (move_id cookie ++ codes ":" ++ rest) (entry_kind e.is_dir) l)

module _ (rules : Rules) (files : Files) (strerror : ℕ → Bytes) (fuel now : ℕ) where
  report_moves-rename :
      (w : ℕ) (t : DirTree) (old new : Bytes) (cookie : ℕ) (es : List DirEntry) (l : EventList)
      → ((p : Bytes) → rules.is_ignored w p ≡ false)
      → report_moves rules files strerror fuel w t false old new cookie es l
        ≡ rename_entries old new cookie es l
  unfolding report_moves rename_entries
  report_moves-rename w t old new cookie [] l seen = refl
  report_moves-rename w t old new cookie (e ∷ es) l seen =
      rw (seen (new ++ drop (length old) e.path)) (report_moves-rename w t old new cookie es _ seen)

  -- The pending move that IN_MOVED_FROM leaves.
  abbrev pub first_half : InotifyEvent → Subscription → Bytes → Session → PendingMove
  first_half from sub old s = record {
    watcher = sub.watcher;
    tree = sub.tree;
    path = old;
    is_directory = from.is_dir;
    entries = (extract old (s.trees sub.tree)).0;
    subscriptions =
        if from.is_dir
        then moved_subscriptions rules files strerror fuel now sub.watcher old
            s.inotify.subscriptions
        else [];
    created_at = now;
    suppressed_events = false;
  }

  abbrev pub departed_session : InotifyEvent → Subscription → Bytes → Session → Session
  departed_session from sub old s =
      record (on_tree sub.tree (λ t. (extract old (s.trees sub.tree)).1) s) {
        inotify = record s.inotify {
          pending_moves =
              assign MoveKey-discrete (sub.watcher, from.cookie) (first_half from sub old s)
                s.inotify.pending_moves;
        };
      }

  depart-moved :
      (from : InotifyEvent) (sub : Subscription) (old : Bytes) (s : Session)
      → (from.self_deleted || from.self_moved) ≡ false
      → (from.moved_from && not (from.cookie == 0)) ≡ true
      → (depart rules files strerror fuel now from sub old s).0 ≡ departed_session from sub old s
  unfolding depart
  depart-moved from sub old s self half = rw (depart, self, half) refl

  at_changed : {A : Type 0} (i : ℕ) (f : A → A) (table : ℕ → A) → change i f table i ≡ f (table i)
  at_changed i f table = ground arith

  adopted_tree :
      (key : MoveKey) (move : PendingMove) (sub : Subscription) (new : Bytes) (s : Session)
      → find_entry new (s.trees sub.tree) ≡ none
      → (adopt_move rules files strerror fuel key move sub new s).trees sub.tree
        ≡ restore move.entries move.path new (s.trees sub.tree)
  unfolding adopt_move
  adopted_tree key move sub new s absent =
      rw (at_changed sub.tree _ s.trees) (ground (arith, absent))

  adopted_events :
      (key : MoveKey) (move : PendingMove) (sub : Subscription) (new : Bytes) (s : Session)
      → find_entry new (s.trees sub.tree) ≡ none
      → ((p : Bytes) → rules.is_ignored sub.watcher p ≡ false)
      → (adopt_move rules files strerror fuel key move sub new s).events sub.watcher
        ≡ rename_entries move.path new key.1 move.entries (s.events sub.watcher)
  unfolding adopt_move
  adopted_events key move sub new s absent seen =
      at_changed sub.watcher
        (report_moves rules files strerror fuel sub.watcher (s.trees sub.tree)
          (has_value (find_entry new (s.trees sub.tree))) move.path new key.1 move.entries)
        s.events
      ∙ ap
          (λ o.
            report_moves rules files strerror fuel sub.watcher (s.trees sub.tree) (has_value o)
              move.path new key.1 move.entries (s.events sub.watcher))
          absent
      ∙ report_moves-rename sub.watcher (s.trees sub.tree) move.path new key.1 move.entries
          (s.events sub.watcher) seen

  -- IN_MOVED_FROM with a cookie leaves a pending move under its cookie, with no event yet. When the
  -- second half is adopted, where the target is not indexed and nothing is ignored, the index is
  -- renamed from the old path to the new one, and each entry has its rename event.
  pub moved_pair_lem :
      (from : InotifyEvent) (sub : Subscription) (old new : Bytes) (s : Session)
      → (from.self_deleted || from.self_moved) ≡ false
      → (from.moved_from && not (from.cookie == 0)) ≡ true
      → find_entry new (extract old (s.trees sub.tree)).1 ≡ none
      → ((p : Bytes) → rules.is_ignored sub.watcher p ≡ false)
      → let departed = (depart rules files strerror fuel now from sub old s).0 in
        let move = first_half from sub old s in
        let key : MoveKey = (sub.watcher, from.cookie) in
        let adopted = adopt_move rules files strerror fuel key move sub new departed in
        (find MoveKey-discrete key departed.inotify.pending_moves ≡ some move)
        × (departed.events sub.watcher ≡ s.events sub.watcher)
        × (adopted.trees sub.tree ≡ rename_path old new (s.trees sub.tree))
        × (adopted.events sub.watcher
            ≡ rename_entries old new from.cookie move.entries (s.events sub.watcher))
  moved_pair_lem from sub old new s self half absent seen =
      let key : MoveKey = (sub.watcher, from.cookie) in
      let move = first_half from sub old s in
      let departed = departed_session from sub old s in
      let rest = (extract old (s.trees sub.tree)).1 in
      let there : departed.trees sub.tree ≡ rest = at_changed sub.tree (λ t. rest) s.trees in
      let missing : find_entry new (departed.trees sub.tree) ≡ none =
        ap (find_entry new) there ∙ absent in
      rw (depart-moved from sub old s self half) (
        ground (arith, find-assign MoveKey-discrete key key move s.inotify.pending_moves),
        refl,
        adopted_tree key move sub new departed missing
            ∙ ap (restore move.entries old new) there
            ∙ sym (rename_path-restore old new (s.trees sub.tree)),
        adopted_events key move sub new departed missing seen,
      )
