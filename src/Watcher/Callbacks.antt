-- ===== src/Watcher/Callbacks.antt =====
-- src/Watcher.cc and src/Watcher.hh: the callbacks of a shared watcher, what is delivered to them, and
-- how long the registry of shared watchers keeps it. Each part of a call that runs under a lock is a
-- step. The thread-safe functions of Node are numbers; whether one accepts a call is a parameter.
pub mod Steps
pub mod Life
pub mod Silence
use native_watcher.Base.{
  ℕ, ◌+◌, ◌-◌, ◌%◌, ◌^◌, Bool, true, false, not, ◌&&◌, ◌||◌, Option, none, some, List, [], ◌∷◌,
  ◌++◌, Bytes, ◌==◌, ltb, if◌then◌else◌, any, keep,
}
use native_watcher.Event.{Event, EventList, EventBatch, has_error}
use native_watcher.Event.Drain.{drain}
use native_watcher.Glob.Automaton.{non_empty}

pub record Callback : Type 0 where
  pub id : ℕ
  pub tsfn : ℕ
  pub value : ℕ
  pub env : ℕ
  pub thread : ℕ
  pub closing : Bool

-- `registered` says that the registry of shared watchers has it, `debounced` that the debounce has
-- its `triggerCallbacks`.
pub record SharedWatcher : Type 0 where
  pub callbacks : List Callback
  pub next_callback_id : ℕ
  pub cancelled : Bool
  pub reservations : ℕ
  pub registered : Bool
  pub debounced : Bool
  pub events : EventList

-- A `CallbackData` that a thread-safe function has accepted, by the id of its callback.
pub record Delivery : Type 0 where
  pub callback : ℕ
  pub error : Bytes
  pub events : List Event

-- What `napi_call_threadsafe_function` answers.
pub data CallStatus : Type 0 where
  accepted closed refused : CallStatus

abbrev pub Answer : Type 0
Answer = ℕ → CallStatus

-- `getShared` where no equal watcher is registered.
abbrev pub new_shared : SharedWatcher
new_shared = record {
  callbacks = [];
  next_callback_id = 1;
  cancelled = false;
  reservations = 1;
  registered = true;
  debounced = true;
  events = record { events = []; error = none };
}

-- `getShared` where it is found, under the lock of the registry.
unfoldable pub reserve : SharedWatcher → SharedWatcher
reserve s = record s { reservations = (s.reservations + 1) % 2 ^ 64 }

-- A loop over the callbacks, by what it does to one.
unfoldable pub each :
    (Callback → Callback × List Delivery) → List Callback → List Callback × List Delivery
each body [] = ([], [])
each body (c ∷ callbacks) =
    let rest = each body callbacks in ((body c).0 ∷ rest.0, (body c).1 ++ rest.1)

-- The data of a call that is not accepted is deleted.
abbrev pub sent : CallStatus → Delivery → List Delivery
sent accepted d = d ∷ []
sent closed d = []
sent refused d = []

abbrev pub mark_closing : Callback → Callback
mark_closing c = record c { closing = true }

-- `notifyError`: each callback that is not closing gets the error, and is closing then.
unfoldable pub error_one : Answer → Bytes → Callback → Callback × List Delivery
error_one answer what c = if c.closing then (c, []) else (
  mark_closing c,
  sent (answer c.tsfn) (record { callback = c.id; error = what; events = [] }),
)

unfoldable pub notify_error : Answer → Bytes → SharedWatcher → SharedWatcher × List Delivery
unfolding each error_one
notify_error answer what s =
    let r = each (error_one answer what) s.callbacks in (record s { callbacks = r.0 }, r.1)

abbrev pub mark_if_closed : CallStatus → Callback → Callback
mark_if_closed accepted c = c
mark_if_closed closed c = mark_closing c
mark_if_closed refused c = c

-- The loop of `triggerCallbacks`; a function that is closing has its callback marked.
unfoldable pub trigger_one : Answer → EventBatch → Callback → Callback × List Delivery
trigger_one answer batch c = if c.closing then (c, []) else (
  mark_if_closed (answer c.tsfn) c,
  sent (answer c.tsfn) (record { callback = c.id; error = batch.error; events = batch.events }),
)

unfoldable pub trigger_callbacks : Answer → SharedWatcher → SharedWatcher × List Delivery
unfolding drain each trigger_one
trigger_callbacks answer s =
    let d = drain s.events in
    let r = each (trigger_one answer d.0) s.callbacks in
    if not (non_empty s.callbacks)
    then (s, [])
    else if not (non_empty d.0.events) && not (non_empty d.0.error)
    then (record s { events = d.1 }, [])
    else (record s { events = d.1; callbacks = r.0 }, r.1)

-- `findCallback`: only a callback of the thread that asks.
abbrev pub is_callback : ℕ → ℕ → Callback → Bool
is_callback thread value c = c.thread == thread && c.value == value

unfoldable pub erase_first : (Callback → Bool) → List Callback → List Callback
erase_first test [] = []
erase_first test (c ∷ callbacks) =
    let rest = erase_first test callbacks in if test c then callbacks else c ∷ rest

pub data WatchResult : Type 0 where
  added present thrown : WatchResult

-- The end of `watch`; the thread-safe function is `none` where it cannot be created.
unfoldable pub push_callback : ℕ → ℕ → ℕ → Option ℕ → SharedWatcher → SharedWatcher × WatchResult
push_callback env thread value none s = (s, thrown)
push_callback env thread value (some tsfn) s = (
  record s {
    next_callback_id = s.next_callback_id + 1;
    callbacks =
        s.callbacks
        ++ record {
          id = s.next_callback_id;
          tsfn = tsfn;
          value = value;
          env = env;
          thread = thread;
          closing = false;
        }
          ∷ [];
  },
  added,
)

unfoldable pub watch_callback : ℕ → ℕ → ℕ → Option ℕ → SharedWatcher → SharedWatcher × WatchResult
unfolding any push_callback
watch_callback env thread value created s =
    let s' : SharedWatcher = record s { cancelled = false } in
    if any (is_callback thread value) s.callbacks
    then (s', present)
    else push_callback env thread value created s'

-- `if (becameEmpty) mCancelled.store(true)`
abbrev pub cancel_if : Bool → SharedWatcher → SharedWatcher
cancel_if empty s = if empty then record s { cancelled = true } else s

-- `unwatch` before its `unref`: whether the last callback went.
unfoldable pub unwatch_callback : ℕ → ℕ → SharedWatcher → SharedWatcher × Bool
unfolding any erase_first
unwatch_callback thread value s =
    let left = erase_first (is_callback thread value) s.callbacks in
    let empty = any (is_callback thread value) s.callbacks && not (non_empty left) in
    (cancel_if empty (record s { callbacks = left }), empty)

-- `finishErrorCallback` before its `unref`.
unfoldable pub finish_error_callback : ℕ → SharedWatcher → SharedWatcher × Bool
unfolding erase_first
finish_error_callback id s =
    let left = erase_first (λ c. c.id == id) s.callbacks in
    (cancel_if (not (non_empty left)) (record s { callbacks = left }), not (non_empty left))

-- `cancelEnvironment` at one watcher.
unfoldable pub cancel_environment : ℕ → SharedWatcher → SharedWatcher
unfolding any
cancel_environment env s =
    cancel_if
      (any (λ (c : Callback). c.env == env) s.callbacks
        && not (any (λ (c : Callback). not (c.env == env)) s.callbacks))
      s

-- `cleanupEnvironment` at one watcher, before its `unref`.
unfoldable pub cleanup_environment : ℕ → SharedWatcher → SharedWatcher × Bool
unfolding any keep
cleanup_environment env s =
    let left = keep (λ (c : Callback). not (c.env == env)) s.callbacks in
    let empty = any (λ (c : Callback). c.env == env) s.callbacks && not (non_empty left) in
    (cancel_if empty (record s { callbacks = left }), empty)

-- `destroy` before its `unref`.
unfoldable pub clear_callbacks : SharedWatcher → SharedWatcher
clear_callbacks s = record s { callbacks = []; cancelled = true }

-- `mSharedReservations.fetch_sub(1)` of `releaseShared`: whether `unref` follows.
unfoldable pub release_reservation : SharedWatcher → SharedWatcher × Bool
release_reservation s =
    (record s { reservations = (s.reservations + 2 ^ 64 - 1) % 2 ^ 64 }, s.reservations == 1)

unfoldable pub unref_shared : SharedWatcher → SharedWatcher
unref_shared s =
    if not (non_empty s.callbacks) && s.reservations == 0
    then record s { debounced = false; registered = false }
    else s

-- Whether `notify` triggers the debounce.
unfoldable pub triggers_debounce : SharedWatcher → Bool
triggers_debounce s = non_empty s.callbacks && (non_empty s.events.events || has_error s.events)
