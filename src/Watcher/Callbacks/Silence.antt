-- ===== src/Watcher/Callbacks/Silence.antt =====
-- src/Watcher.cc: a callback that got an error gets nothing more.
use native_watcher.Base.{
  ℕ, ◌<◌, ◌≡◌, refl, Bool, true, false, not, ◌&&◌, ◌||◌, Option, none, some, List, [], ◌∷◌, ◌++◌,
  arith, Bytes, ◌==◌, if◌then◌else◌, any, keep, All, Bool-cases, inl, inr,
}
use native_watcher.Event.{EventBatch}
use native_watcher.Event.Drain.{drain}
use native_watcher.Glob.Automaton.{non_empty}
use native_watcher.Watcher.Callbacks.{
  Callback, SharedWatcher, Delivery, Answer, reserve, each, error_one, notify_error, trigger_one,
  trigger_callbacks, is_callback, erase_first, push_callback, watch_callback, cancel_if,
  unwatch_callback, finish_error_callback, cancel_environment, cleanup_environment, clear_callbacks,
  release_reservation, unref_shared,
}
use native_watcher.Watcher.Callbacks.Steps.{
  finds, watches, releases, unwatches, finishes, cancels, cleans, clears, unrefs, reports, errs,
  fires, WatcherStep, is_reserved, shared_step, shared_run,
}

abbrev pub is_to : ℕ → Delivery → Bool
is_to id d = d.callback == id

-- Whether anything is delivered to a callback.
abbrev pub hears : ℕ → List Delivery → Bool
hears id deliveries = any (is_to id) deliveries

hears-append : (id : ℕ) (ds es : List Delivery) → hears id (ds ++ es) ≡ (hears id ds || hears id es)
unfolding any
hears-append id [] es = refl
hears-append id (d ∷ ds) es = ground (arith, hears-append id ds es)

-- A callback of this id is closing.
abbrev Mute : ℕ → Callback → Type 0
Mute id c = (c.id == id) ≡ true → c.closing ≡ true

-- Each callback has an id given out before.
abbrev Old : ℕ → Callback → Type 0
Old next c = c.id < next

record Closed (id : ℕ) (s : SharedWatcher) : Type 0 where
  given : id < s.next_callback_id
  mute : All (Mute id) s.callbacks

error_one-Mute :
    (answer : Answer) (what : Bytes) (id : ℕ) (c : Callback) → Mute id (error_one answer what c).0
unfolding error_one
error_one-Mute answer what id c e = ground arith

error_one-hears :
    (answer : Answer) (what : Bytes) (id : ℕ) (c : Callback)
    → Mute id c
    → hears id (error_one answer what c).1 ≡ false
unfolding error_one any
error_one-hears answer what id c m = ground (arith, m)

trigger_one-Mute :
    (answer : Answer) (batch : EventBatch) (id : ℕ) (c : Callback)
    → Mute id c
    → Mute id (trigger_one answer batch c).0
unfolding trigger_one
trigger_one-Mute answer batch id c m e = ground (arith, m)

trigger_one-hears :
    (answer : Answer) (batch : EventBatch) (id : ℕ) (c : Callback)
    → Mute id c
    → hears id (trigger_one answer batch c).1 ≡ false
unfolding trigger_one any
trigger_one-hears answer batch id c m = ground (arith, m)

module _ (id : ℕ) (body : Callback → Callback × List Delivery) where
  each-Mute :
      ((c : Callback) → Mute id c → Mute id (body c).0)
      → (cs : List Callback) → All (Mute id) cs
      → All (Mute id) (each body cs).0
  unfolding each
  each-Mute h [] m = tt
  each-Mute h (c ∷ cs) m = (h c m.0, each-Mute h cs m.1)

  each-hears :
      ((c : Callback) → Mute id c → hears id (body c).1 ≡ false)
      → (cs : List Callback) → All (Mute id) cs
      → hears id (each body cs).1 ≡ false
  unfolding each any
  each-hears h [] m = refl
  each-hears h (c ∷ cs) m =
      rw (hears-append id (body c).1 (each body cs).1, h c m.0) (each-hears h cs m.1)

erase_first-All :
    (P : Callback → Type 0) (test : Callback → Bool) (cs : List Callback)
    → All P cs
    → All P (erase_first test cs)
unfolding erase_first
erase_first-All P test [] h = tt
erase_first-All P test (c ∷ cs) h = elim (Bool-cases (test c)) [
  | inl y ↦ rw (erase_first, y) h.1
  | inr n ↦ rw (erase_first, n) (h.0, erase_first-All P test cs h.1)
]

keep-All :
    (P : Callback → Type 0) (test : Callback → Bool) (cs : List Callback)
    → All P cs
    → All P (keep test cs)
unfolding keep
keep-All P test [] h = tt
keep-All P test (c ∷ cs) h = elim (Bool-cases (test c)) [
  | inl y ↦ rw (keep, y) (h.0, keep-All P test cs h.1)
  | inr n ↦ rw (keep, n) (keep-All P test cs h.1)
]

All-append :
    (P : Callback → Type 0) (cs ds : List Callback) → All P cs → All P ds → All P (cs ++ ds)
All-append P [] ds h k = k
All-append P (c ∷ cs) ds h k = (h.0, All-append P cs ds h.1 k)

abbrev Quiet : ℕ → SharedWatcher × List Delivery → Type 0
Quiet id r = Closed id r.0 × (hears id r.1 ≡ false)

module _ (id : ℕ) (s : SharedWatcher) (q : Closed id s) where
  quiet_step :
      (callbacks : List Callback) (empty : Bool)
      → All (Mute id) callbacks
      → Closed id (cancel_if empty (record s { callbacks = callbacks }))
  quiet_step callbacks true m = record { given = q.given; mute = m }
  quiet_step callbacks false m = record { given = q.given; mute = m }

  push_callback-Closed :
      (env thread value : ℕ) (created : Option ℕ)
      → Closed id (push_callback env thread value created (record s { cancelled = false })).0
  unfolding push_callback
  push_callback-Closed env thread value none = record { given = q.given; mute = q.mute }
  push_callback-Closed env thread value (some tsfn) =
      let given : id < s.next_callback_id = q.given in
      record {
        given = omega arith;
        mute = All-append (Mute id) s.callbacks _ q.mute (λ e. absurd (ground arith), tt);
      }

  watch_callback-Closed :
      (env thread value : ℕ) (created : Option ℕ)
      → Closed id (watch_callback env thread value created s).0
  unfolding watch_callback
  watch_callback-Closed env thread value created =
      elim (Bool-cases (any (is_callback thread value) s.callbacks)) [
        | inl old ↦ rw (watch_callback, old) (record { given = q.given; mute = q.mute })
        | inr new ↦ rw (watch_callback, new) (push_callback-Closed env thread value created)
      ]

  trigger_callbacks-Quiet : (answer : Answer) → Quiet id (trigger_callbacks answer s)
  unfolding trigger_callbacks any
  trigger_callbacks-Quiet answer =
      let d = drain s.events in
      elim (Bool-cases (non_empty s.callbacks)) [
        | inl there ↦ elim (Bool-cases (not (non_empty d.0.events) && not (non_empty d.0.error))) [
          | inl nothing ↦
              rw (trigger_callbacks, there, nothing)
                (record { given = q.given; mute = q.mute }, refl)
          | inr batch ↦
              rw (trigger_callbacks, there, batch)
                (
                  record {
                    given = q.given;
                    mute =
                        each-Mute id (trigger_one answer d.0) (trigger_one-Mute answer d.0 id)
                          s.callbacks q.mute;
                  },
                  each-hears id (trigger_one answer d.0) (trigger_one-hears answer d.0 id)
                      s.callbacks q.mute,
                )
        ]
        | inr empty ↦ rw (trigger_callbacks, empty) (q, refl)
      ]

if-Closed :
    (id : ℕ) (b : Bool) (x y : SharedWatcher)
    → Closed id x
    → Closed id y
    → Closed id (if b then x else y)
if-Closed id true x y h k = h
if-Closed id false x y h k = k

shared_step-Quiet :
    (id : ℕ) (step : WatcherStep) (s : SharedWatcher) → Closed id s → Quiet id (shared_step step s)
unfolding shared_step any
shared_step-Quiet id finds s q = (
  unfold reserve in if-Closed id s.registered _ s (record { given = q.given; mute = q.mute }) q,
  refl,
)
shared_step-Quiet id (watches env thread value created) s q = (
  if-Closed id (is_reserved s) _ s (watch_callback-Closed id s q env thread value created) q,
  refl,
)
shared_step-Quiet id releases s q = (
  unfold release_reservation in
      if-Closed id (is_reserved s) _ s (record { given = q.given; mute = q.mute }) q,
  refl,
)
shared_step-Quiet id (unwatches thread value) s q = (
  unfold unwatch_callback in quiet_step id s q _ _ (erase_first-All (Mute id) _ s.callbacks q.mute),
  refl,
)
shared_step-Quiet id (finishes other) s q = (
  unfold finish_error_callback in
      quiet_step id s q _ _ (erase_first-All (Mute id) _ s.callbacks q.mute),
  refl,
)
shared_step-Quiet id (cancels env) s q =
    (unfold cancel_environment in quiet_step id s q s.callbacks _ q.mute, refl)
shared_step-Quiet id (cleans env) s q = (
  unfold cleanup_environment in quiet_step id s q _ _ (keep-All (Mute id) _ s.callbacks q.mute),
  refl,
)
shared_step-Quiet id clears s q =
    (unfold clear_callbacks in record { given = q.given; mute = tt }, refl)
shared_step-Quiet id unrefs s q = (
  unfold unref_shared in
      if-Closed id (not (non_empty s.callbacks) && s.reservations == 0) _ s
        (record { given = q.given; mute = q.mute }) q,
  refl,
)
shared_step-Quiet id (reports change) s q = (record { given = q.given; mute = q.mute }, refl)
shared_step-Quiet id (errs answer what) s q =
    unfold notify_error in
    (
      record {
        given = q.given;
        mute =
            each-Mute id (error_one answer what) (λ c m. error_one-Mute answer what id c)
              s.callbacks q.mute;
      },
      each-hears id (error_one answer what) (error_one-hears answer what id) s.callbacks q.mute,
    )
shared_step-Quiet id (fires answer) s q = trigger_callbacks-Quiet id s q answer

shared_run-Quiet :
    (id : ℕ) (steps : List WatcherStep) (s : SharedWatcher)
    → Closed id s
    → hears id (shared_run steps s).1 ≡ false
unfolding shared_run any
shared_run-Quiet id [] s q = refl
shared_run-Quiet id (step ∷ steps) s q =
    let (q', silent) = shared_step-Quiet id step s q in
    rw (hears-append id (shared_step step s).1 (shared_run steps (shared_step step s).0).1, silent)
      (shared_run-Quiet id steps (shared_step step s).0 q')

each-error_one-Mute :
    (answer : Answer) (what : Bytes) (id : ℕ) (cs : List Callback)
    → All (Mute id) (each (error_one answer what) cs).0
unfolding each
each-error_one-Mute answer what id [] = tt
each-error_one-Mute answer what id (c ∷ cs) =
    (error_one-Mute answer what id c, each-error_one-Mute answer what id cs)

-- Once an error has been sent to the callbacks of a watcher, whatever steps the threads make: no
-- callback that was registered before gets anything more, neither events nor a second error.
pub notify_error_silences :
    (answer : Answer) (what : Bytes) (s : SharedWatcher) (steps : List WatcherStep) (id : ℕ)
    → id < s.next_callback_id
    → hears id (shared_run steps (notify_error answer what s).0).1 ≡ false
unfolding notify_error
notify_error_silences answer what s steps id given =
    shared_run-Quiet id steps (notify_error answer what s).0
      (record { given = given; mute = each-error_one-Mute answer what id s.callbacks })
