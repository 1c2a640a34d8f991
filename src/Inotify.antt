-- ===== src/Inotify.antt =====
-- src/linux/InotifyBackend.cc and src/linux/InotifyBackend.hh: which directories the kernel watches
-- and for which subscriptions. Watchers, trees and subscriptions are named by numbers, as pointers
-- are. The kernel of the model drops no watch by itself, as that of Linux does when a watched directory
-- is deleted. The children add the trees, the event lists and the handlers.
pub mod Sets
pub mod Covered
pub mod Release
pub mod Session
pub mod Expired
pub mod Outcome
pub mod Created
pub mod Reconcile
pub mod Arrive
pub mod Handle
pub mod Subscribe
pub mod Subscribed
pub mod Fuel
pub mod Ending
pub mod MovedPair
pub mod Keeps
pub mod Arrived
pub mod Handled
use native_watcher.Base.{
  ℕ, ◌+◌, Bool, true, false, not, ◌&&◌, ◌||◌, Option, none, some, List, [], ◌∷◌, ◌++◌, Bytes, ◌==◌,
  ltb, if◌then◌else◌, has_value, any, keep, drop, length, bytes_eq, is_path_or_descendant, ◌⊎◌, inl,
  inr, find, ℕ_discrete, map, codes,
}
use native_watcher.Event.{EventList, entry_kind, remove, error}
use native_watcher.DirTree.{DirEntry, DirTree, find_entry}
use native_watcher.Inotify.Sets.{member, without_element}

pub record Subscription : Type 0 where
  pub id : ℕ
  pub tree : ℕ
  pub path : Bytes
  pub watcher : ℕ

abbrev pub Subscriptions : Type 0
Subscriptions = List (ℕ × Subscription)

pub record PendingMove : Type 0 where
  pub watcher : ℕ
  pub tree : ℕ
  pub path : Bytes
  pub is_directory : Bool
  pub entries : List DirEntry
  pub subscriptions : List Subscription
  pub created_at : ℕ
  pub suppressed_events : Bool

-- A watcher and a cookie.
abbrev pub MoveKey : Type 0
MoveKey = ℕ × ℕ

abbrev pub PendingMoves : Type 0
PendingMoves = List (MoveKey × PendingMove)

-- `mInotify`: whether the descriptor is open, and the watches that the kernel has on it.
pub record Kernel : Type 0 where
  pub is_open : Bool
  pub watches : List ℕ

pub record Inotify : Type 0 where
  pub kernel : Kernel
  pub subscriptions : Subscriptions
  pub pending_moves : PendingMoves

-- The errors of `inotify_rm_watch`: EBADF and EINVAL.
pub data RemoveError : Type 0 where
  bad_descriptor not_watched : RemoveError

unfoldable pub remove_watch : ℕ → Kernel → Kernel × Option RemoveError
remove_watch d k =
    if not k.is_open
    then (k, some bad_descriptor)
    else if member d k.watches
    then (record k { watches = without_element d k.watches }, none)
    else (k, some not_watched)

-- `mSubscriptions.count(d) > 0`
unfoldable pub tracked : ℕ → Subscriptions → Bool
tracked d [] = false
tracked d ((e, sub) ∷ subs) = e == d || tracked d subs

unfoldable pub count : ℕ → Subscriptions → ℕ
count d [] = 0
count d ((e, sub) ∷ subs) = let rest = count d subs in if e == d then rest + 1 else rest

-- The descriptors of the subscriptions that a loop erases, and the subscriptions that it leaves.
unfoldable pub removed_descriptors : (ℕ → Subscription → Bool) → Subscriptions → List ℕ
removed_descriptors test [] = []
removed_descriptors test ((d, sub) ∷ subs) =
    let rest = removed_descriptors test subs in if test d sub then d ∷ rest else rest

unfoldable pub left_subscriptions : (ℕ → Subscription → Bool) → Subscriptions → Subscriptions
left_subscriptions test [] = []
left_subscriptions test ((d, sub) ∷ subs) =
    let rest = left_subscriptions test subs in if test d sub then rest else (d, sub) ∷ rest

-- Watches that no subscription is left for are removed; what the call returns is not looked at.
unfoldable pub release : List ℕ → Subscriptions → Kernel → Kernel
unfolding tracked remove_watch
release [] subs k = k
release (d ∷ ds) subs k = release ds subs (if tracked d subs then k else (remove_watch d k).0)

-- The loop and the release that `watchDir` and both `removeSubscriptions` share.
unfoldable pub erase_where : (ℕ → Subscription → Bool) → Inotify → Inotify
unfolding removed_descriptors left_subscriptions release
erase_where test s = record s {
  kernel =
      release (removed_descriptors test s.subscriptions) (left_subscriptions test s.subscriptions)
        s.kernel;
  subscriptions = left_subscriptions test s.subscriptions;
}

-- `inotify_add_watch`: the descriptor that it returns is watched from then on.
abbrev pub add_watch : ℕ → Kernel → Kernel
add_watch d k = record k { watches = if member d k.watches then k.watches else d ∷ k.watches }

-- A subscription of this watcher to this path under another descriptor.
abbrev pub is_stale : ℕ → Bytes → ℕ → ℕ → Subscription → Bool
is_stale watcher path wd d sub = sub.watcher == watcher && bytes_eq sub.path path && not (d == wd)

-- `alreadyTracked`
unfoldable pub already_tracked : ℕ → Bytes → ℕ → Subscriptions → Bool
already_tracked watcher path wd [] = false
already_tracked watcher path wd ((d, sub) ∷ subs) =
    (d == wd && sub.watcher == watcher && bytes_eq sub.path path)
    || already_tracked watcher path wd subs

-- `watchDir`. The first argument is what `inotify_add_watch` returns, `none` for an error; `id` is
-- the new object. A closed `mInotify` gives the error.
unfoldable pub watch_dir : Option ℕ → ℕ → ℕ → Bytes → ℕ → Inotify → Inotify × Bool
unfolding already_tracked erase_where
watch_dir none id watcher path tree s = (s, false)
watch_dir (some wd) id watcher path tree s =
    let added : Inotify = record s { kernel = add_watch wd s.kernel } in
    let cleaned = erase_where (is_stale watcher path wd) added in
    if already_tracked watcher path wd s.subscriptions then (cleaned, true) else (
      record cleaned {
        subscriptions =
            (wd, record { id = id; tree = tree; path = path; watcher = watcher })
            ∷ cleaned.subscriptions;
      },
      true,
    )

-- `removeSubscriptions(watcher, path)`; `dir` is the root of the watcher.
unfoldable pub remove_subscriptions : ℕ → Bytes → Bytes → Inotify → Inotify
unfolding erase_where
remove_subscriptions watcher dir path s =
    erase_where
      (λ d sub.
        sub.watcher == watcher && (bytes_eq path dir || is_path_or_descendant sub.path path))
      s

abbrev pub same_id : Subscription → Subscription → Bool
same_id a b = a.id == b.id

-- `removeSubscriptions(move)`
unfoldable pub remove_moved : PendingMove → Inotify → Inotify
unfolding erase_where any
remove_moved move s = erase_where (λ d sub. any (same_id sub) move.subscriptions) s

-- `moveSubscriptions`: the objects that the move holds get their new path, in the table too.
unfoldable pub move_subscriptions : PendingMove → Bytes → Inotify → Inotify
unfolding any
move_subscriptions move new_path s = record s {
  subscriptions =
      map
        (λ (e : ℕ × Subscription).
          if any (same_id e.1) move.subscriptions
          then (e.0, record e.1 { path = new_path ++ drop (length move.path) e.1.path })
          else e)
        s.subscriptions;
}

-- The loop that erases the pending moves of a watcher.
unfoldable pub drop_moves : ℕ → PendingMoves → PendingMoves
drop_moves watcher [] = []
drop_moves watcher ((k, move) ∷ moves) =
    let rest = drop_moves watcher moves in
    if move.watcher == watcher then rest else (k, move) ∷ rest

-- The second loop of `unsubscribe`, over the subscriptions behind those that it passed. An error
-- that is not EINVAL is thrown with the table as it is then.
unfoldable pub unsubscribe_loop :
    ℕ → Subscriptions → Subscriptions → Kernel → Kernel × Subscriptions × Bool
unsubscribe_loop watcher passed [] k = (k, passed, true)
unsubscribe_loop watcher passed ((d, sub) ∷ subs) k =
    if not (sub.watcher == watcher)
    then unsubscribe_loop watcher (passed ++ (d, sub) ∷ []) subs k
    else if count d (passed ++ (d, sub) ∷ subs) == 1
    then elim (remove_watch d k).1 [
      | some bad_descriptor ↦ ((remove_watch d k).0, passed ++ (d, sub) ∷ subs, false)
      | some not_watched ↦ unsubscribe_loop watcher passed subs (remove_watch d k).0
      | none ↦ unsubscribe_loop watcher passed subs (remove_watch d k).0
    ]
    else unsubscribe_loop watcher passed subs k

-- `unsubscribe`, and whether it returns.
unfoldable pub unsubscribe : ℕ → Inotify → Inotify × Bool
unfolding unsubscribe_loop drop_moves
unsubscribe watcher s =
    let (k, subs, returns) = unsubscribe_loop watcher [] s.subscriptions s.kernel in
    (
      record {
        kernel = k;
        subscriptions = subs;
        pending_moves = drop_moves watcher s.pending_moves;
      },
      returns,
    )
