-- ===== src/Inotify/Session.antt =====
-- src/linux/InotifyBackend.cc with the trees and the event lists that it changes:
-- `flushExpiredMoves`, `handleOverflow`, and what `handleSubscription` does when a root goes away.
use native_watcher.Base.{
  ℕ, ◌-◌, Bool, true, false, not, ◌&&◌, ◌||◌, Option, none, some, List, [], ◌∷◌, Bytes, ◌==◌, ltb,
  if◌then◌else◌, codes,
}
use native_watcher.Event.{EventList, entry_kind, remove, error}
use native_watcher.DirTree.{DirEntry, DirTree, find_entry, extract}
use native_watcher.Inotify.{
  Inotify, Subscription, Subscriptions, PendingMove, PendingMoves, remove_moved,
  remove_subscriptions, drop_moves,
}
use native_watcher.Inotify.Sets.{member}

-- A value for each watcher or tree, changed at one of them.
abbrev pub change {ℓ} : {A : Type ℓ} → ℕ → (A → A) → (ℕ → A) → ℕ → A
change i f table j = if i == j then f (table j) else table j

-- `subscribed` and `invalid` are `mSubscriptions` and `mInvalidSubscriptions` of src/Backend.hh,
-- `needs_resubscribe` holds the watchers whose `mNeedsResubscribe` is set, and `next_id` names the
-- next subscription.
pub record Session : Type 0 where
  pub inotify : Inotify
  pub trees : ℕ → DirTree
  pub events : ℕ → EventList
  pub subscribed : List ℕ
  pub invalid : List ℕ
  pub needs_resubscribe : List ℕ
  pub next_id : ℕ

unfoldable pub insert : ℕ → List ℕ → List ℕ
insert w ws = if member w ws then ws else w ∷ ws

-- `Backend::invalidate`
unfoldable pub invalidate : ℕ → Session → Session
unfolding insert
invalidate watcher s = record s {
  invalid = if member watcher s.subscribed then insert watcher s.invalid else s.invalid;
}

-- `mEvents.remove(entry.path, entryKind(entry.isDir))` for each entry.
unfoldable pub report_removed : List DirEntry → EventList → EventList
report_removed [] l = l
report_removed (e ∷ es) l = report_removed es (remove e.path (entry_kind e.is_dir) l)

abbrev pub report : ℕ → (EventList → EventList) → Session → Session
report watcher f s = record s { events = change watcher f s.events }

abbrev pub same_kind : Option DirEntry → DirEntry → Bool
same_kind none e = false
same_kind (some r) e = (r.is_dir && e.is_dir) || (not r.is_dir && not e.is_dir)

-- The entries of an expired move, except where an entry of the same kind has its path again.
unfoldable pub report_expired : DirTree → List DirEntry → EventList → EventList
report_expired t [] l = l
report_expired t (e ∷ es) l =
    report_expired t es
      (if same_kind (find_entry e.path t) e then l else remove e.path (entry_kind e.is_dir) l)

abbrev pub grace_ms : ℕ
grace_ms = 100

abbrev pub is_expired : ℕ → PendingMove → Bool
is_expired now move = not (ltb (now - move.created_at) grace_ms)

-- The body of the loop at an expired move, without the erase.
unfoldable pub expire : PendingMove → Session → Session
unfolding report_expired remove_moved
expire move s =
    let reported : Session =
      report move.watcher (report_expired (s.trees move.tree) move.entries) s in
    if move.is_directory
    then record reported { inotify = remove_moved move reported.inotify }
    else reported

-- The loop over the pending moves: those that stay, and the watchers to notify.
unfoldable pub flush_loop : ℕ → PendingMoves → List ℕ → Session → PendingMoves × List ℕ × Session
unfolding expire insert
flush_loop now [] watchers s = ([], watchers, s)
flush_loop now ((k, move) ∷ moves) watchers s = elim (is_expired now move) [
  | true ↦ flush_loop now moves (insert move.watcher watchers) (expire move s)
  | false ↦
      let (waiting, noted, s') = flush_loop now moves watchers s in ((k, move) ∷ waiting, noted, s')
]

-- `flushExpiredMoves` up to the notifications, and the watchers that it then notifies.
unfoldable pub flush_expired_moves : ℕ → Session → Session × List ℕ
unfolding flush_loop
flush_expired_moves now s =
    let (waiting, watchers, s') = flush_loop now s.inotify.pending_moves [] s in
    (record s' { inotify = record s'.inotify { pending_moves = waiting } }, watchers)

-- `removeSubscriptions(watcher, mDir)` and the loop that erases the pending moves.
unfoldable pub forget_watcher : ℕ → Bytes → Session → Session
unfolding remove_subscriptions drop_moves
forget_watcher watcher dir s =
    let rest = remove_subscriptions watcher dir dir s.inotify in
    record s { inotify = record rest { pending_moves = drop_moves watcher rest.pending_moves } }

-- The watchers of the subscriptions, each once.
unfoldable pub subscribers : Subscriptions → List ℕ
subscribers [] = []
subscribers ((d, sub) ∷ subs) =
    let rest = subscribers subs in if member sub.watcher rest then rest else sub.watcher ∷ rest

module _ (dir : ℕ → Bytes) where
  abbrev pub overflow_text : Bytes
  overflow_text =
      codes
        "inotify queue overflow. The subscription can no longer guarantee complete filesystem events."

  unfoldable pub overflow_watcher : ℕ → Session → Session
  unfolding forget_watcher invalidate
  overflow_watcher watcher s =
      forget_watcher watcher (dir watcher)
        (report watcher (error overflow_text) (invalidate watcher s))

  unfoldable pub overflow_all : List ℕ → Session → Session
  unfolding overflow_watcher
  overflow_all [] s = s
  overflow_all (w ∷ ws) s = overflow_all ws (overflow_watcher w s)

  -- `handleOverflow`, and the watchers that it adds.
  unfoldable pub handle_overflow : Session → Session × List ℕ
  unfolding overflow_all subscribers
  handle_overflow s =
      let overflowed = subscribers s.inotify.subscriptions in
      (overflow_all overflowed s, overflowed)

  -- The events of the pending moves of a watcher.
  unfoldable pub report_pending : ℕ → PendingMoves → EventList → EventList
  unfolding report_removed
  report_pending watcher [] l = l
  report_pending watcher ((k, move) ∷ moves) l =
      report_pending watcher moves
        (if move.watcher == watcher then report_removed move.entries l else l)

  -- `handleSubscription` where the root itself, or a directory above it, is moved or deleted.
  unfoldable pub lose_root : Subscription → Session → Session
  unfolding forget_watcher invalidate report_pending report_removed
  lose_root sub s =
      let (entries, rest) = extract (dir sub.watcher) (s.trees sub.tree) in
      let told : Session = record s {
        trees = change sub.tree (λ t. rest) s.trees;
        events =
            change sub.watcher
              (λ l. report_pending sub.watcher s.inotify.pending_moves (report_removed entries l))
              s.events;
      } in
      forget_watcher sub.watcher (dir sub.watcher) (invalidate sub.watcher told)
