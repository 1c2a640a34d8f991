-- ===== src/Samples/Watches.antt =====
-- src/linux/InotifyBackend.cc: one watcher of a root with a file, a directory and a pending move.
use native_watcher.Base.{
  ◌||◌, ◌&&◌, not, if◌then◌else◌, ℕ, ◌≡◌, refl, true, false, none, some, List, [], ◌∷◌, Bytes,
  codes, bytes_eq, leb, length, arith, if◌then◌else◌, All, ◌==◌,
}
use native_watcher.DirTree.{new_tree, add, find_entry, within, extract, rename_path}
use native_watcher.Event.{EventKey, has_error}
use native_watcher.Event.Entries.{entry}
use native_watcher.Event.Report.{no_events}
use native_watcher.Inotify.{Inotify, Subscription, PendingMove, MoveKey, unsubscribe, tracked}
use native_watcher.Inotify.Sets.{member}
use native_watcher.Inotify.Covered.{Covered}
use native_watcher.Inotify.Release.{others, moves_of_others, unsubscribe_ends}
use native_watcher.Inotify.Session.{
  Session, flush_expired_moves, handle_overflow, subscribers, lose_root,
}
use native_watcher.Inotify.Expired.{
  waiting, has_expired, lost, says_deleted, flush_expired_moves_lem,
}
use native_watcher.Inotify.Outcome.{NoneOf, handle_overflow_lem, lose_root_lem}
use native_watcher.Inotify.Created.{Rules, Files, regular, folder, done, failed}
use native_watcher.Inotify.Arrive.{InotifyEvent, MoveKey-discrete, adopt_move}
use native_watcher.Inotify.Keeps.{Kept}
use native_watcher.Inotify.Subscribe.{Incoming, overflow, event, subscribe, handle_events}
use native_watcher.Inotify.Subscribed.{Settled, subscribe-Settled, handle_events-Kept}
use native_watcher.Inotify.Handle.{depart}
use native_watcher.Inotify.MovedPair.{rename_entries, first_half, moved_pair_lem}
use native_watcher.Base.{find, bytes_eq, Bytes-discrete, starts_with, emplace}
use native_watcher.Inotify.Fuel.{path_max, RefusesLongPaths, Ends}
use native_watcher.Inotify.Ending.{subscribe-Ends, handle_events-Ends}

abbrev root : Bytes
root = codes "/r"

abbrev root_subscription : Subscription
root_subscription = record { id = 0; tree = 1; path = root; watcher = 1 }

abbrev old_move : PendingMove
old_move = record {
  watcher = 1;
  tree = 1;
  path = codes "/r/gone";
  is_directory = false;
  entries = record { path = codes "/r/gone"; mtime = 1; is_dir = false } ∷ [];
  subscriptions = [];
  created_at = 10;
  suppressed_events = false;
}

abbrev session : Session
session = record {
  inotify = record {
    kernel = record { is_open = true; watches = 5 ∷ [] };
    subscriptions = (5, root_subscription) ∷ [];
    pending_moves = ((1, 7), old_move) ∷ [];
  };
  trees = λ i. add (codes "/r/f") 3 false (new_tree root);
  events = λ w. no_events;
  subscribed = 1 ∷ [];
  invalid = [];
  needs_resubscribe = [];
  next_id = 1;
}

session-Covered : Covered session.inotify
unfolding member tracked
session-Covered = (refl, λ d. refl)

abbrev rules : Rules
rules = record {
  dir = λ w. root;
  is_ignored = λ w path. false;
  has_ignores = λ w. false;
  is_cancelled = λ w. false;
}

-- `/r/d` is an empty directory, and everything else a file.
abbrev files : Files
files = record {
  lstat = λ path.
      some (record { type = if bytes_eq path (codes "/r/d") then folder else regular; mtime = 4 });
  open_dir = λ path.
      if leb path_max (length path)
      then failed 36
      else done (record { names = []; mtime = done 2 });
  add_watch = λ path. done (length path);
}

files-RefusesLongPaths : RefusesLongPaths files
files-RefusesLongPaths path long = (36, ground arith)

abbrev strerror : ℕ → Bytes
strerror errno = codes "error"

abbrev directory_made : InotifyEvent
directory_made = record {
  wd = 5;
  cookie = 0;
  name = codes "d";
  is_dir = true;
  created = true;
  moved_to = false;
  moved_from = false;
  deleted = false;
  changed = false;
  self_moved = false;
  self_deleted = false;
  watch_ended = false;
}

abbrev incoming : List Incoming
incoming = event directory_made ∷ overflow ∷ []

-- The kernel has dropped every watch by itself.
abbrev dropped_watches : Inotify
dropped_watches = record session.inotify { kernel = record session.inotify.kernel { watches = [] } }

unsubscribe_ends_example :
    ((unsubscribe 1 dropped_watches).1 ≡ true)
    × ((unsubscribe 1 dropped_watches).0.subscriptions ≡ others 1 dropped_watches.subscriptions)
    × ((unsubscribe 1 dropped_watches).0.pending_moves
        ≡ moves_of_others 1 dropped_watches.pending_moves)
    × ((d : ℕ)
        → member d (unsubscribe 1 dropped_watches).0.kernel.watches ≡ (
            member d dropped_watches.kernel.watches
            && (tracked d (others 1 dropped_watches.subscriptions)
                || not (tracked d dropped_watches.subscriptions))))
unsubscribe_ends_example = unsubscribe_ends 1 dropped_watches refl

flush_expired_moves_lem_example :
    ((flush_expired_moves 200 session).0.inotify.pending_moves
      ≡ waiting 200 session.inotify.pending_moves)
    × ((w : ℕ)
        → member w (flush_expired_moves 200 session).1
          ≡ has_expired 200 w session.inotify.pending_moves)
    × ((w : ℕ) (k : EventKey)
        → says_deleted (entry k ((flush_expired_moves 200 session).0.events w).events) ≡ (
            lost 200 w session.trees k session.inotify.pending_moves
            || says_deleted (entry k (session.events w).events)))
    × Covered (flush_expired_moves 200 session).0.inotify
flush_expired_moves_lem_example = flush_expired_moves_lem 200 session session-Covered

handle_overflow_lem_example :
    ((handle_overflow rules.dir session).0.inotify.subscriptions ≡ [])
    × ((d : ℕ) → member d (handle_overflow rules.dir session).0.inotify.kernel.watches ≡ false)
    × ((w : ℕ)
        → has_error ((handle_overflow rules.dir session).0.events w)
          ≡ (member w (subscribers session.inotify.subscriptions) || has_error (session.events w)))
handle_overflow_lem_example = handle_overflow_lem rules.dir session session-Covered

lose_root_lem_example :
    NoneOf 1 (lose_root rules.dir root_subscription session).inotify.subscriptions
    × All
        (λ (e : MoveKey × PendingMove). (e.1.watcher == 1) ≡ false)
        (lose_root rules.dir root_subscription session).inotify.pending_moves
    × ((p : Bytes)
        → find_entry p ((lose_root rules.dir root_subscription session).trees 1)
          ≡ (if within root p then none else find_entry p (session.trees 1)))
    × Covered (lose_root rules.dir root_subscription session).inotify
lose_root_lem_example = lose_root_lem rules.dir root_subscription session session-Covered

subscribe-Settled_example : Settled 2 (subscribe rules files 5000 2 2 session)
subscribe-Settled_example = subscribe-Settled rules files 5000 2 2 session session-Covered

handle_events-Kept_example : Kept (handle_events rules files 5000 strerror 30 incoming [] session)
handle_events-Kept_example =
    handle_events-Kept rules files 5000 strerror 30 incoming [] session session-Covered

handle_events-Ends_example : Ends (handle_events rules files 5000 strerror 30 incoming [] session)
handle_events-Ends_example =
    handle_events-Ends rules files strerror 5000 files-RefusesLongPaths (omega arith) 30 incoming []
      session

subscribe-Ends_example : Ends (subscribe rules files 5000 2 2 session)
subscribe-Ends_example =
    subscribe-Ends rules files strerror 5000 files-RefusesLongPaths (omega arith) 2 2 session

abbrev file_leaves : InotifyEvent
file_leaves = record {
  wd = 5;
  cookie = 9;
  name = codes "f";
  is_dir = false;
  created = false;
  moved_to = false;
  moved_from = true;
  deleted = false;
  changed = false;
  self_moved = false;
  self_deleted = false;
  watch_ended = false;
}

abbrev half_moved : Session
half_moved =
    (depart rules files strerror 5000 30 file_leaves root_subscription (codes "/r/f") session).0

abbrev moving : PendingMove
moving =
    first_half rules files strerror 5000 30 file_leaves root_subscription (codes "/r/f") session

abbrev moved : Session
moved =
    adopt_move rules files strerror 5000 (1, 9) moving root_subscription (codes "/r/g") half_moved

nothing_there : find_entry (codes "/r/g") (extract (codes "/r/f") (session.trees 1)).1 ≡ none
unfolding extract add new_tree find emplace Bytes-discrete bytes_eq within starts_with
nothing_there = refl

moved_pair_lem_example :
    (find MoveKey-discrete (1, 9) half_moved.inotify.pending_moves ≡ some moving)
    × (half_moved.events 1 ≡ no_events)
    × (moved.trees 1 ≡ rename_path (codes "/r/f") (codes "/r/g") (session.trees 1))
    × (moved.events 1 ≡ rename_entries (codes "/r/f") (codes "/r/g") 9 moving.entries no_events)
moved_pair_lem_example =
    moved_pair_lem rules files strerror 5000 30 file_leaves root_subscription (codes "/r/f")
      (codes "/r/g") session refl refl nothing_there (λ p. refl)
