-- ===== src/Windows/Subscription.antt =====
-- src/windows/WindowsBackend.cc: the class `Subscription`: polling for changes, what a completion does,
-- and how a subscription stops. Both buffers have one size, which every
-- resize gives to both.
use native_watcher.Base.{
  ℕ, ◌+◌, ◌*◌, Bool, true, false, not, ◌&&◌, ◌||◌, Option, none, some, [], ◌∷◌, ◌++◌, Bytes, codes,
  ◌==◌, ltb, slash, take, if◌then◌else◌,
}
use native_watcher.Event.{error}
use native_watcher.Windows.{WindowsFiles, Watched, flush_pending_rename, on_events}
use native_watcher.Windows.Events.{process_event}
use native_watcher.Windows.Buffer.{Batch, ends, overflows, faults, exhausted, notifies, parse_loop}

-- `queued` are the stops that other threads have queued, `invalidated` and `notified` say whether the
-- backend and the watcher were told, `start_error` is `mStartError`.
pub record Subscription : Type 0 where
  pub watched : Watched
  pub running : Bool
  pub poll_pending : Bool
  pub stop_requested : Bool
  pub stopped : Bool
  pub handle_open : Bool
  pub overflowed : Bool
  pub invalidated : Bool
  pub notified : Bool
  pub needs_resubscribe : Bool
  pub complete : Bool
  pub start_error : Option Bytes
  pub queued : ℕ
  pub buffer_size : ℕ

abbrev pub default_buf_size : ℕ
default_buf_size = 1024 * 1024

abbrev pub network_buf_size : ℕ
network_buf_size = 64 * 1024

abbrev pub new_subscription : Watched → Subscription
new_subscription w = record {
  watched = w;
  running = true;
  poll_pending = false;
  stop_requested = false;
  stopped = false;
  handle_open = true;
  overflowed = false;
  invalidated = false;
  notified = false;
  needs_resubscribe = false;
  complete = false;
  start_error = none;
  queued = 0;
  buffer_size = default_buf_size;
}

unfoldable pub finish_stop : Subscription → Subscription
finish_stop s =
    if s.stopped
    then s
    else record s { stopped = true; handle_open = false; notified = s.notified || s.overflowed }

unfoldable pub begin_stop : Subscription → Subscription
begin_stop s =
    let stopping : Subscription = record s { running = false } in
    if s.poll_pending then stopping else finish_stop stopping

-- `requestStop` on the thread of the backend.
unfoldable pub request_stop : Subscription → Subscription
request_stop s = if s.stop_requested then s else begin_stop (record s { stop_requested = true })

-- `requestStop` on another thread: the stop is queued, if it can be.
unfoldable pub queue_stop : Bool → Subscription → Subscription
queue_stop accepted s =
    if s.stop_requested || not accepted
    then s
    else record s { stop_requested = true; queued = s.queued + 1 }

abbrev pub overflow_message : Bytes
overflow_message =
    codes
      "ReadDirectoryChangesW buffer overflow. The subscription can no longer guarantee complete filesystem events."

unfoldable pub fail_overflow : Subscription → Subscription
fail_overflow s = request_stop (record s {
  overflowed = true;
  watched = on_events (error overflow_message) s.watched;
  invalidated = true;
})

-- What `ReadDirectoryChangesW` answers to a buffer of a size.
pub data PollAnswer : Type 0 where
  started bad_parameter failed : PollAnswer

-- A state, and the text of the `WatcherError` that is thrown.
abbrev pub Thrown : Type 0
Thrown = Subscription × Option Bytes

abbrev pub poll_failed : Bytes
poll_failed = codes "Failed to read changes"

abbrev pub poll_end : PollAnswer → Subscription → Thrown
poll_end started s = (record s { poll_pending = true }, none)
poll_end bad_parameter s = (s, some poll_failed)
poll_end failed s = (s, some poll_failed)

abbrev pub is_bad_parameter : PollAnswer → Bool
is_bad_parameter bad_parameter = true
is_bad_parameter started = false
is_bad_parameter failed = false

-- `poll`: once more with the small buffer, for a network drive.
unfoldable pub poll : (ℕ → PollAnswer) → Subscription → Thrown
poll answer s =
    if not s.running
    then (s, none)
    else if is_bad_parameter (answer s.buffer_size) && ltb network_buf_size s.buffer_size
    then poll_end (answer network_buf_size) (record s { buffer_size = network_buf_size })
    else poll_end (answer s.buffer_size) s

-- The codes of a completion that `processEvents` tells apart.
pub data ErrorCode : Type 0 where
  success aborted invalid_parameter enum_dir access_denied unknown : ErrorCode

-- What a completion does: a state with an error that is thrown, a read outside the buffer, or fuel
-- that ran out.
pub data Completed : Type 0 where
  done : Thrown → Completed
  bad_read : Completed
  no_fuel : Completed

pub data Ran : Type 0 where
  ran : Watched → Bool → Ran
  bad_read : Ran
  no_fuel : Ran

-- The directory of the watcher, what the Windows API makes of a name, and whether the directory is
-- there.
module _ (files : WindowsFiles) (fuel : ℕ) (dir : Bytes) (utf8 : Bytes → Bytes) where
  unfoldable pub run_batch : Batch → Watched → Ran
  unfolding process_event
  run_batch ends w = ran w false
  run_batch overflows w = ran w true
  run_batch faults w = Ran.bad_read
  run_batch exhausted w = Ran.no_fuel
  run_batch (notifies action name rest) w =
      elim (process_event files fuel action (dir ++ slash ∷ utf8 name) w) [
        | none ↦ Ran.no_fuel
        | some w' ↦ run_batch rest w'
      ]

  abbrev pub start_batch : Watched → Watched
  start_batch w = record w { previous_removed_paths = w.removed_paths; removed_paths = [] }

  abbrev pub end_batch : Watched → Watched
  end_batch w = record (flush_pending_rename w) { previous_removed_paths = [] }

  abbrev pub after_batch : Subscription → Ran → Completed
  after_batch s Ran.bad_read = Completed.bad_read
  after_batch s Ran.no_fuel = Completed.no_fuel
  after_batch s (ran w true) = done (fail_overflow (record s { watched = w }), none)
  after_batch s (ran w false) = done (record s { watched = end_batch w; notified = true }, none)

  -- The changes are read once the next poll has begun. `content` is what the system wrote for this
  -- poll, and the buffer has its bytes up to the size that the next poll left it with.
  abbrev pub read_changes : Bytes → ℕ → Thrown → Completed
  read_changes content num (s, some what) = done (s, some what)
  read_changes content num (s, none) =
      let buffer = take s.buffer_size content in
      after_batch s (run_batch (parse_loop buffer num (num + 1) 0) (start_batch s.watched))

  abbrev pub is_deleted_text : Bool → Bytes
  is_deleted_text there =
      if there then codes "Unknown error" else codes "Watched directory was deleted"

  abbrev pub by_code : (ℕ → PollAnswer) → Bool → ErrorCode → Bytes → ℕ → Subscription → Completed
  by_code answer there aborted content num s = done (s, none)
  by_code answer there invalid_parameter content num s =
      if not (ltb network_buf_size s.buffer_size)
      then done (s, some (codes "Invalid parameter watching directory"))
      else done (poll answer (record s { buffer_size = network_buf_size }))
  by_code answer there enum_dir content num s = done (fail_overflow s, none)
  by_code answer there access_denied content num s = done (s, some (is_deleted_text there))
  by_code answer there unknown content num s = done (s, some (codes "Unknown error"))
  by_code answer there success content num s =
      if num == 0 || ltb s.buffer_size num
      then done (fail_overflow s, none)
      else read_changes content num (poll answer s)

  -- `processEvents`; `there` says whether the watched directory is still one.
  unfoldable pub process_events :
      (ℕ → PollAnswer) → Bool → ErrorCode → Bytes → ℕ → Subscription → Completed
  process_events answer there code content num s =
      if not s.running then done (finish_stop s, none) else by_code answer there code content num s
