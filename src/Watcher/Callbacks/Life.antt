-- ===== src/Watcher/Callbacks/Life.antt =====
-- src/Watcher.cc: a shared watcher stays in the registry while it is used.
use native_watcher.Base.{
  ℕ, ◌≡◌, refl, ◌∙◌, Bool, true, false, not, ◌&&◌, ◌||◌, Option, none, some, List, [], ◌∷◌, arith,
  ◌==◌, ◌+◌, if◌then◌else◌, any, keep, Bool-cases, inl, inr,
}
use native_watcher.Event.Drain.{drain}
use native_watcher.Glob.Automaton.{non_empty}
use native_watcher.Watcher.Callbacks.{
  Callback, SharedWatcher, Delivery, Answer, new_shared, reserve, each, error_one, notify_error,
  trigger_one, trigger_callbacks, is_callback, erase_first, push_callback, watch_callback,
  cancel_if, unwatch_callback, finish_error_callback, cancel_environment, cleanup_environment,
  clear_callbacks, release_reservation, unref_shared,
}
use native_watcher.Watcher.Callbacks.Steps.{
  finds, watches, releases, unwatches, finishes, cancels, cleans, clears, unrefs, reports, errs,
  fires, WatcherStep, is_reserved, shared_step, shared_run,
}

-- It has a callback, or a caller that has not yet registered or removed one.
abbrev pub is_used : SharedWatcher → Bool
is_used s = non_empty s.callbacks || is_reserved s

record Reachable (s : SharedWatcher) : Type 0 where
  known : is_used s ≡ true → s.registered ≡ true
  together : s.debounced ≡ s.registered

module _ (s : SharedWatcher) (r : Reachable s) where
  -- A step that adds no callback and keeps the reservations keeps the watcher where it is.
  fewer_callbacks :
      (callbacks : List Callback) (cancelled : Bool)
      → (non_empty callbacks ≡ true → non_empty s.callbacks ≡ true)
      → Reachable (record s { callbacks = callbacks; cancelled = cancelled })
  fewer_callbacks callbacks cancelled h = record {
    known = λ u. r.known (ground (arith, h));
    together = r.together;
  }

  fewer_and_cancelled :
      (callbacks : List Callback) (empty : Bool)
      → (non_empty callbacks ≡ true → non_empty s.callbacks ≡ true)
      → Reachable (cancel_if empty (record s { callbacks = callbacks }))
  fewer_and_cancelled callbacks true h = fewer_callbacks callbacks true h
  fewer_and_cancelled callbacks false h = fewer_callbacks callbacks s.cancelled h

if-Reachable :
    (b : Bool) (x y : SharedWatcher)
    → (b ≡ true → Reachable x)
    → (b ≡ false → Reachable y)
    → Reachable (if b then x else y)
if-Reachable true x y h k = h refl
if-Reachable false x y h k = k refl

module _ (s : SharedWatcher) (r : Reachable s) where
  -- While the watcher is registered, more callbacks do no harm.
  registered-Reachable :
      (callbacks : List Callback) (next reservations : ℕ) (cancelled : Bool)
      → s.registered ≡ true
      → Reachable (record s {
        callbacks = callbacks;
        next_callback_id = next;
        reservations = reservations;
        cancelled = cancelled;
      })
  registered-Reachable callbacks next reservations cancelled h = record {
    known = λ u. h;
    together = r.together;
  }

  push_callback-Reachable :
      (env thread value : ℕ) (created : Option ℕ)
      → s.registered ≡ true
      → Reachable (push_callback env thread value created (record s { cancelled = false })).0
  unfolding push_callback
  push_callback-Reachable env thread value none h =
      registered-Reachable s.callbacks s.next_callback_id s.reservations false h
  push_callback-Reachable env thread value (some tsfn) h =
      registered-Reachable _ (s.next_callback_id + 1) s.reservations false h

  watch_callback-Reachable :
      (env thread value : ℕ) (created : Option ℕ)
      → is_reserved s ≡ true
      → Reachable (watch_callback env thread value created s).0
  unfolding watch_callback
  watch_callback-Reachable env thread value created h =
      let g : s.registered ≡ true = r.known (ground arith) in
      elim (Bool-cases (any (is_callback thread value) s.callbacks)) [
        | inl old ↦
            rw (watch_callback, old)
              (registered-Reachable s.callbacks s.next_callback_id s.reservations false g)
        | inr new ↦ rw (watch_callback, new) (push_callback-Reachable env thread value created g)
      ]

  unref_shared-Reachable : Reachable (unref_shared s)
  unfolding unref_shared
  unref_shared-Reachable =
      if-Reachable (not (non_empty s.callbacks) && s.reservations == 0) _ s
        (λ h. record { known = λ u. absurd (ground arith); together = refl }) (λ h. r)

erase_first-non_empty :
    (test : Callback → Bool) (cs : List Callback)
    → non_empty (erase_first test cs) ≡ true
    → non_empty cs ≡ true
unfolding erase_first
erase_first-non_empty test [] h = h
erase_first-non_empty test (c ∷ cs) h = refl

keep-non_empty :
    (test : Callback → Bool) (cs : List Callback)
    → non_empty (keep test cs) ≡ true
    → non_empty cs ≡ true
unfolding keep
keep-non_empty test [] h = h
keep-non_empty test (c ∷ cs) h = refl

each-non_empty :
    (body : Callback → Callback × List Delivery) (cs : List Callback)
    → non_empty (each body cs).0 ≡ true
    → non_empty cs ≡ true
unfolding each
each-non_empty body [] h = h
each-non_empty body (c ∷ cs) h = refl

trigger_callbacks-Reachable :
    (s : SharedWatcher) → Reachable s → (answer : Answer) → Reachable (trigger_callbacks answer s).0
unfolding trigger_callbacks
trigger_callbacks-Reachable s r answer =
    let d = drain s.events in
    let l = each (trigger_one answer d.0) s.callbacks in
    elim (Bool-cases (non_empty s.callbacks)) [
      | inl some_there ↦
          elim (Bool-cases (not (non_empty d.0.events) && not (non_empty d.0.error))) [
            | inl nothing ↦
                rw (trigger_callbacks, some_there, nothing)
                  (record { known = r.known; together = r.together })
            | inr batch ↦
                rw (trigger_callbacks, some_there, batch)
                  (record {
                    known = λ u.
                        r.known
                          (ground (arith, each-non_empty (trigger_one answer d.0) s.callbacks));
                    together = r.together;
                  })
          ]
      | inr none_there ↦ rw (trigger_callbacks, none_there) r
    ]

shared_step-Reachable :
    (step : WatcherStep) (s : SharedWatcher) → Reachable s → Reachable (shared_step step s).0
unfolding shared_step
shared_step-Reachable finds s r =
    if-Reachable s.registered _ s
      (λ h.
        unfold reserve in registered-Reachable s r s.callbacks s.next_callback_id _ s.cancelled h)
      (λ h. r)
shared_step-Reachable (watches env thread value created) s r =
    if-Reachable (is_reserved s) _ s (watch_callback-Reachable s r env thread value created)
      (λ h. r)
shared_step-Reachable releases s r =
    if-Reachable (is_reserved s) _ s
      (λ h.
        unfold release_reservation in
        registered-Reachable s r s.callbacks s.next_callback_id _ s.cancelled
          (r.known (ground arith)))
      (λ h. r)
shared_step-Reachable (unwatches thread value) s r =
    unfold unwatch_callback in fewer_and_cancelled s r _ _ (erase_first-non_empty _ s.callbacks)
shared_step-Reachable (finishes id) s r =
    unfold finish_error_callback in
    fewer_and_cancelled s r _ _ (erase_first-non_empty _ s.callbacks)
shared_step-Reachable (cancels env) s r =
    unfold cancel_environment in fewer_and_cancelled s r s.callbacks _ (λ h. h)
shared_step-Reachable (cleans env) s r =
    unfold cleanup_environment in fewer_and_cancelled s r _ _ (keep-non_empty _ s.callbacks)
shared_step-Reachable clears s r =
    unfold clear_callbacks in fewer_callbacks s r [] true (λ h. absurd (ground arith))
shared_step-Reachable unrefs s r = unref_shared-Reachable s r
shared_step-Reachable (reports change) s r = record { known = r.known; together = r.together }
shared_step-Reachable (errs answer what) s r =
    unfold notify_error in
    fewer_callbacks s r _ s.cancelled (each-non_empty (error_one answer what) s.callbacks)
shared_step-Reachable (fires answer) s r = trigger_callbacks-Reachable s r answer

shared_run-Reachable :
    (steps : List WatcherStep) (s : SharedWatcher) → Reachable s → Reachable (shared_run steps s).0
unfolding shared_run
shared_run-Reachable [] s r = r
shared_run-Reachable (step ∷ steps) s r =
    shared_run-Reachable steps (shared_step step s).0 (shared_step-Reachable step s r)

-- However the steps of the threads follow one another: a shared watcher that has a callback or a
-- reservation is in the registry, and the debounce has its callback.
pub registered_while_used :
    (steps : List WatcherStep)
    → is_used (shared_run steps new_shared).0 ≡ true
    → ((shared_run steps new_shared).0.registered ≡ true)
      × ((shared_run steps new_shared).0.debounced ≡ true)
registered_while_used steps u =
    let r = shared_run-Reachable steps new_shared (record { known = λ u. refl; together = refl }) in
    (r.known u, r.together ∙ r.known u)
