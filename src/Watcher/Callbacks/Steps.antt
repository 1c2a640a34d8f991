-- ===== src/Watcher/Callbacks/Steps.antt =====
-- src/Watcher.cc: what the threads do with a shared watcher, one step after the other.
use native_watcher.Base.{ℕ, Bool, Option, List, [], ◌∷◌, ◌++◌, Bytes, ltb, if◌then◌else◌}
use native_watcher.Event.{EventList}
use native_watcher.Watcher.Callbacks.{
  SharedWatcher, Delivery, Answer, reserve, notify_error, trigger_callbacks, watch_callback,
  unwatch_callback, finish_error_callback, cancel_environment, cleanup_environment, clear_callbacks,
  release_reservation, unref_shared,
}

-- Every step. A thread that watches or releases holds a reservation, and the registry finds only what
-- is registered; `unrefs` is the second half of a call.
pub data WatcherStep : Type 0 where
  finds : WatcherStep
  watches : ℕ → ℕ → ℕ → Option ℕ → WatcherStep
  releases : WatcherStep
  unwatches : ℕ → ℕ → WatcherStep
  finishes : ℕ → WatcherStep
  cancels : ℕ → WatcherStep
  cleans : ℕ → WatcherStep
  clears : WatcherStep
  unrefs : WatcherStep
  reports : (EventList → EventList) → WatcherStep
  errs : Answer → Bytes → WatcherStep
  fires : Answer → WatcherStep

abbrev pub silently : SharedWatcher → SharedWatcher × List Delivery
silently s = (s, [])

abbrev pub is_reserved : SharedWatcher → Bool
is_reserved s = ltb 0 s.reservations

unfoldable pub shared_step : WatcherStep → SharedWatcher → SharedWatcher × List Delivery
unfolding notify_error trigger_callbacks watch_callback unwatch_callback finish_error_callback
    cancel_environment cleanup_environment clear_callbacks release_reservation unref_shared reserve
shared_step finds s = silently (if s.registered then reserve s else s)
shared_step (watches env thread value created) s =
    silently (if is_reserved s then (watch_callback env thread value created s).0 else s)
shared_step releases s = silently (if is_reserved s then (release_reservation s).0 else s)
shared_step (unwatches thread value) s = silently (unwatch_callback thread value s).0
shared_step (finishes id) s = silently (finish_error_callback id s).0
shared_step (cancels env) s = silently (cancel_environment env s)
shared_step (cleans env) s = silently (cleanup_environment env s).0
shared_step clears s = silently (clear_callbacks s)
shared_step unrefs s = silently (unref_shared s)
shared_step (reports change) s = silently (record s { events = change s.events })
shared_step (errs answer what) s = notify_error answer what s
shared_step (fires answer) s = trigger_callbacks answer s

unfoldable pub shared_run : List WatcherStep → SharedWatcher → SharedWatcher × List Delivery
unfolding shared_step
shared_run [] s = (s, [])
shared_run (step ∷ steps) s =
    let first = shared_step step s in
    let rest = shared_run steps first.0 in (rest.0, first.1 ++ rest.1)
