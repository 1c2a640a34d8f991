-- ===== src/Lib.antt =====
-- native-watcher, a Node.js addon that watches directories recursively.
--
-- The parts. A backend for each platform (src/linux, src/macos, src/windows) reads the events of
-- the operating system, keeps a `DirTree` of the watched root (src/DirTree.cc) up to date, asks
-- the watcher whether a path is ignored (src/Glob.cc through src/Watcher.cc), and puts what
-- happened into the watcher's `EventList` (src/Event.hh). When the debounce (src/Debounce.cc)
-- fires, the watcher drains the list and calls its callbacks.
--
-- The files.
--   Base           bytes, tests, finite maps shared by all parts.
--   Event          src/Event.hh: `EventList` is `EventList`, `create`, `update`, `remove`,
--                  `rename`, `error` are its methods, Event/Drain is `drain`. Event/Order is the
--                  order of its keys, Event/Entries the entry each operation leaves, Event/Shape
--                  the order of the map, Event/Net and Event/Report compare it with the
--                  filesystem, Event/Batch is about rename ids.
--   Wildcard       src/Glob.cc: matching with stars over any tokens; Wildcard/Bytewise is
--                  `matchWildcardAscii` and what is around it, Wildcard/Table the tables.
--   Glob           src/Glob.cc: Glob/Text splits paths and characters, Glob/Component compiles and
--                  matches one component, Glob/Automaton is `Glob::Glob` and `stepBitmask`,
--                  Glob/Ignore is `isIgnored` and `isPathOrAncestorIgnored`; the other files
--                  prove.
--   DirTree        src/DirTree.hh and src/DirTree.cc: the operations on the entries of a tree.
--   Backend        src/Backend.cc: `watch` in its two parts, `unwatch`, `unref`, `invalidate`,
--                  `releaseShared`; an `unref` is a step after the one that owes it, as the lock is
--                  released in between; Backend/Lifetime proves.
--   Inotify        src/linux/InotifyBackend.cc: the table of subscriptions and the watches of the
--                  kernel (`watchDir`, `removeSubscriptions`, `unsubscribe`); Inotify/Session adds
--                  trees and event lists (`flushExpiredMoves`, `handleOverflow`), Inotify/Created
--                  is `addCreatedTree`, Inotify/Reconcile `reconcileMovedTree`, Inotify/Arrive and
--                  Inotify/Handle are `handleSubscription`, Inotify/Subscribe is `subscribe` and
--                  `handleEvents`; Covered, Release, Expired, Outcome, Keeps, Handled, Arrived,
--                  Subscribed, Fuel and Ending prove, MovedPair is about the two halves of a move.
--                  The kernel of the model drops no watch by itself, as that of Linux does when a
--                  watched directory is deleted, so what is shown where the watches are covered is
--                  about the time before; what ends a subscription is also about the time after.
--   IdentityIndex  src/macos/IdentityIndex.cc: `add`, `remove`, `rename`, `removeExact`,
--                  `pathCount`.
--   Debounce       src/Debounce.cc and src/Signal.hh: the loop of the thread, `notifyIfReady`,
--                  `wait` and `notify`, and the calls that other threads make; Trigger proves. A
--                  move is one call or one part of the loop; the destructor's two writes are one
--                  move.
--   Watcher        src/Watcher.cc: the constructor; Watcher/DirStates are `makeRootGlobState`,
--                  `stepDirGlobState` and `isComponentIgnored`, Watcher/Ignore is `isIgnored` with
--                  the cache of a thread, Caching, States, Root, Names, Cache and Answers prove
--                  that it answers as the globs do; Watcher/Callbacks has the callbacks and the
--                  registry of one shared watcher (`watch`, `unwatch`, `notifyError`,
--                  `triggerCallbacks`, `unref`, and what cleans up), Steps the order of these
--                  calls, Life and Silence prove.
--   FsEvents       src/macos/FSEventsBackend.cc: `removeIndexedPath`, `recordCreatedPath`,
--                  `addCreatedPath`, and `scanIdentityIndex` of src/macos/IdentityIndex.cc;
--                  FsEvents/Correlate is `correlateRenames`, Reconcile `reconcileFullTree`,
--                  Process `processEvents`, Stream `FSEventsCallback` and the scan of
--                  `startStream`; Handover, Recorded and Mirror prove.
--   Windows        src/windows/WindowsBackend.cc: the class `Subscription`. Windows is `addPath`
--                  and `flushPendingRename`, Windows/Events `processEvent`, Windows/Buffer the
--                  loop of `processEvents` over the buffer, Windows/Subscription `requestStop`,
--                  `poll`, `processEvents`, `failOverflow`, `beginStop` and `finishStop`,
--                  Windows/Steps `run` and the order of the calls, Windows/Walk `readTree`; Scan,
--                  Stopping and Ending prove.
--   Samples        runs on small inputs.
--
-- The model. A `std::string` is the list of its bytes, an `unordered_map` is an association list,
-- a `std::map` one that insertion keeps sorted, a `uint64_t` mask the list of its 64 bits. The
-- build is that of Linux: the case of ASCII letters is folded and no other. The answer of
-- `directoryCaseSensitivity` is a function of the directory, given as a parameter; it does not
-- change and does not throw while a path is matched. Each method that holds a lock is one step.
-- Watchers, trees and subscriptions of the inotify backend are named by numbers, as pointers are.
-- What `lstat`, `opendir` and `inotify_add_watch` answer, the ignore test and `isCancelled` are
-- parameters that stay the same while one call of the backend runs. On Windows the separator is
-- written as the slash, which no name there has, and the answers of the Windows API are
-- parameters: for each size of the buffer what `ReadDirectoryChangesW` answers, and what it wrote for
-- a completion, of which the buffer keeps what its size allows. On macOS `readIndexedPath`, and the nodes that `fts_read` returns, are. The order of
-- an `unordered_map`, and of equal elements that `std::sort` leaves, is not relied on.
--
-- Fuel. The loop of `matchWildcardAscii` has (size of value + 1) * (size of pattern + 1) rounds: a
-- round moves forward in the pattern or restarts at a later byte of the value. The loop of
-- `utf8Characters` takes at least one byte per round. The loop of `stepBitmask` clears a bit of 64
-- in each round. The recursion of `addCreatedTree` takes one fuel for each level of directories,
-- and `opendir` refuses a path of PATH_MAX bytes. `addPath` of the Windows backend takes one fuel
-- for each path that it looks at: as much as the path weighs, if each directory weighs more than
-- what is in it. The theorems about these functions show that the fuel is enough.
--
-- Not modelled: `mHash`, the Unicode folding of the Windows and macOS builds, locks and the
-- threads except that of the debounce, the poll loop of the inotify backend, the aliases and the
-- list of backends in src/Watcher.cc, the rest of src/Backend.cc, `readIndexedPath` and the life
-- of a stream on macOS, the thread of the Windows backend, the Node bindings (src/binding.cc,
-- src/PromiseRunner.hh), and the walks of the
-- filesystem in src/unix and src/shared.
pub mod Base
pub mod Event
pub mod Wildcard
pub mod Glob
pub mod DirTree
pub mod Inotify
pub mod Backend
pub mod IdentityIndex
pub mod Debounce
pub mod Watcher
pub mod Windows
pub mod FsEvents
pub mod Samples
