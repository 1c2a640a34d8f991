-- ===== src/Windows/Stopping.antt =====
-- src/windows/WindowsBackend.cc: a subscription stops once nothing can call it any more.
use native_watcher.Base.{
  ℕ, ◌≡◌, Bool, true, false, not, ◌&&◌, ◌||◌, Option, none, some, List, [], ◌∷◌, arith, Bytes, ◌==◌,
  ltb, if-holds, Option-cases, inl, inr, subst,
}
use native_watcher.Windows.{WindowsFiles}
use native_watcher.Windows.Subscription.{
  Subscription, finish_stop, begin_stop, request_stop, queue_stop, fail_overflow, PollAnswer,
  started, bad_parameter, failed, Thrown, poll_end, is_bad_parameter, network_buf_size, poll,
  ErrorCode, success, aborted, invalid_parameter, enum_dir, access_denied, unknown, Ran, ran,
  after_batch, read_changes, by_code, process_events,
}
use native_watcher.Windows.Steps.{
  ReadTree, read, cancelled, threw, after_read, after_poll, run, SubscriptionStep, runs, completes,
  requests, queues, applies, state_after, subscription_step, subscription_run,
}

-- It has stopped exactly if it does not run and no poll is pending; then its handle is closed, and
-- the watcher has been told of an overflow.
pub record IsSettled (s : Subscription) : Type 0 where
  pub stops : s.stopped ≡ (not s.running && not s.poll_pending)
  pub closes : s.handle_open ≡ not s.stopped
  pub tells : (s.stopped && s.overflowed && not s.notified) ≡ false

begin_stop-IsSettled : (s : Subscription) → IsSettled s → IsSettled (begin_stop s)
unfolding begin_stop finish_stop
begin_stop-IsSettled s h = ground arith

-- What a settled subscription is settled by.
module _ (s : Subscription) (h : IsSettled s) where
  request_stop-IsSettled : IsSettled (request_stop s)
  unfolding request_stop
  request_stop-IsSettled =
      if-holds IsSettled s.stop_requested (λ y. h)
        (λ n.
          begin_stop-IsSettled (record s { stop_requested = true })
            (record { stops = h.stops; closes = h.closes; tells = h.tells }))

  queue_stop-IsSettled : (accepted : Bool) → IsSettled (queue_stop accepted s)
  unfolding queue_stop
  queue_stop-IsSettled accepted =
      if-holds IsSettled (s.stop_requested || not accepted) (λ y. h)
        (λ n. record { stops = h.stops; closes = h.closes; tells = h.tells })

-- The last completion of a stopped subscription.
last_completion :
    (s : Subscription)
    → IsSettled s
    → s.poll_pending ≡ true
    → not s.running ≡ true
    → IsSettled (finish_stop (record s { poll_pending = false }))
unfolding finish_stop
last_completion s h p n = ground (arith, h.stops, h.tells, h.closes)

fail_overflow-IsSettled :
    (s : Subscription) → IsSettled s → s.stopped ≡ false → IsSettled (fail_overflow s)
unfolding fail_overflow
fail_overflow-IsSettled s h e =
    request_stop-IsSettled _ (record { stops = h.stops; closes = h.closes; tells = ground arith })

-- A result is settled and runs as before.
abbrev Keeps : Bool → Thrown → Type 0
Keeps running r = IsSettled r.0 × (r.0.running ≡ running)

poll_end-Keeps :
    (answer : PollAnswer) (s : Subscription)
    → IsSettled s
    → s.running ≡ true
    → Keeps true (poll_end answer s)
poll_end-Keeps started s h r =
    (record { stops = ground (arith, h.stops); closes = h.closes; tells = h.tells }, r)
poll_end-Keeps bad_parameter s h r = (h, r)
poll_end-Keeps failed s h r = (h, r)

resized : (n : ℕ) (s : Subscription) → IsSettled s → IsSettled (record s { buffer_size = n })
resized n s h = record { stops = h.stops; closes = h.closes; tells = h.tells }

poll-IsSettled :
    (answer : ℕ → PollAnswer) (s : Subscription) → IsSettled s → IsSettled (poll answer s).0
unfolding poll
poll-IsSettled answer s h =
    if-holds (λ (r : Thrown). IsSettled r.0) (not s.running) (λ n. h)
      (λ r.
        if-holds (λ (r : Thrown). IsSettled r.0)
          (is_bad_parameter (answer s.buffer_size) && ltb network_buf_size s.buffer_size)
          (λ small.
            (poll_end-Keeps (answer network_buf_size) (record s { buffer_size = network_buf_size })
              (resized network_buf_size s h) (ground arith)).0)
          (λ large. (poll_end-Keeps (answer s.buffer_size) s h (ground arith)).0))

poll-running :
    (answer : ℕ → PollAnswer) (s : Subscription)
    → IsSettled s
    → s.running ≡ true
    → (poll answer s).0.running ≡ true
unfolding poll
poll-running answer s h e =
    if-holds (λ (r : Thrown). r.0.running ≡ true) (not s.running) (λ n. e)
      (λ r.
        if-holds (λ (r : Thrown). r.0.running ≡ true)
          (is_bad_parameter (answer s.buffer_size) && ltb network_buf_size s.buffer_size)
          (λ small.
            (poll_end-Keeps (answer network_buf_size) (record s { buffer_size = network_buf_size })
              (resized network_buf_size s h) e).1)
          (λ large. (poll_end-Keeps (answer s.buffer_size) s h e).1))

not_stopped : (s : Subscription) → IsSettled s → s.running ≡ true → s.stopped ≡ false
not_stopped s h r = ground (arith, h.stops)

-- What a completion leaves is settled, where it leaves a state.
abbrev pub Leaves : Option Subscription → Type 0
Leaves none = Unit
Leaves (some s) = IsSettled s

module _ (files : WindowsFiles) (fuel : ℕ) (dir : Bytes) (utf8 : Bytes → Bytes) where
  after_batch-Leaves :
      (s : Subscription) (r : Ran)
      → IsSettled s
      → s.running ≡ true
      → Leaves (state_after (after_batch files fuel dir utf8 s r))
  after_batch-Leaves s Ran.bad_read h e = tt
  after_batch-Leaves s Ran.no_fuel h e = tt
  after_batch-Leaves s (ran w true) h e =
      fail_overflow-IsSettled (record s { watched = w })
        (record { stops = h.stops; closes = h.closes; tells = h.tells }) (not_stopped s h e)
  after_batch-Leaves s (ran w false) h e = record {
    stops = h.stops;
    closes = h.closes;
    tells = ground arith;
  }

  read_changes-Leaves :
      (buffer : Bytes) (num : ℕ) (r : Thrown)
      → IsSettled r.0
      → r.0.running ≡ true
      → Leaves (state_after (read_changes files fuel dir utf8 buffer num r))
  read_changes-Leaves buffer num (s, some what) h e = h
  read_changes-Leaves buffer num (s, none) h e = after_batch-Leaves s _ h e

  by_code-Leaves :
      (answer : ℕ → PollAnswer) (there : Bool) (code : ErrorCode) (buffer : Bytes) (num : ℕ)
      (s : Subscription)
      → IsSettled s
      → s.running ≡ true
      → Leaves (state_after (by_code files fuel dir utf8 answer there code buffer num s))
  by_code-Leaves answer there aborted buffer num s h e = h
  by_code-Leaves answer there invalid_parameter buffer num s h e =
      if-holds (λ c. Leaves (state_after c)) (not (ltb network_buf_size s.buffer_size)) (λ y. h)
        (λ n.
          poll-IsSettled answer (record s { buffer_size = network_buf_size })
            (resized network_buf_size s h))
  by_code-Leaves answer there enum_dir buffer num s h e =
      fail_overflow-IsSettled s h (not_stopped s h e)
  by_code-Leaves answer there access_denied buffer num s h e = h
  by_code-Leaves answer there unknown buffer num s h e = h
  by_code-Leaves answer there success buffer num s h e =
      if-holds (λ c. Leaves (state_after c)) (num == 0 || ltb s.buffer_size num)
        (λ y. fail_overflow-IsSettled s h (not_stopped s h e))
        (λ n.
          read_changes-Leaves buffer num (poll answer s) (poll-IsSettled answer s h)
            (poll-running answer s h e))

  process_events-Leaves :
      (answer : ℕ → PollAnswer) (there : Bool) (code : ErrorCode) (buffer : Bytes) (num : ℕ)
      (s : Subscription)
      → IsSettled s
      → s.poll_pending ≡ true
      → Leaves (
          state_after (
            process_events files fuel dir utf8 answer there code buffer num
              (record s { poll_pending = false })))
  unfolding process_events
  process_events-Leaves answer there code buffer num s h p =
      if-holds (λ c. Leaves (state_after c)) (not s.running) (λ n. last_completion s h p n)
        (λ r.
          by_code-Leaves answer there code buffer num (record s { poll_pending = false })
            (record { stops = ground (arith, h.stops); closes = h.closes; tells = h.tells })
            (ground arith))

  after_read-IsSettled :
      (tree : ReadTree) (s : Subscription) → IsSettled s → IsSettled (after_read tree s)
  after_read-IsSettled (threw w what) s h =
      request_stop-IsSettled _ (record { stops = h.stops; closes = h.closes; tells = h.tells })
  after_read-IsSettled (cancelled w) s h =
      request_stop-IsSettled _ (record { stops = h.stops; closes = h.closes; tells = h.tells })
  after_read-IsSettled (read w) s h =
      if-holds IsSettled s.stop_requested
        (λ y.
          request_stop-IsSettled _ (record { stops = h.stops; closes = h.closes; tells = h.tells }))
        (λ n. record { stops = h.stops; closes = h.closes; tells = h.tells })

  after_poll-IsSettled :
      (tree : ReadTree) (r : Thrown) → IsSettled r.0 → IsSettled (after_poll tree r)
  after_poll-IsSettled tree (s, some what) h =
      request_stop-IsSettled _ (record { stops = h.stops; closes = h.closes; tells = h.tells })
  after_poll-IsSettled tree (s, none) h = after_read-IsSettled tree s h

  subscription_step-Leaves :
      (step : SubscriptionStep) (s : Subscription)
      → IsSettled s
      → Leaves (subscription_step files fuel dir utf8 step s)
  unfolding subscription_step
  subscription_step-Leaves (runs answer tree) s h =
      unfold run in after_poll-IsSettled tree (poll answer s) (poll-IsSettled answer s h)
  subscription_step-Leaves (completes answer there code buffer num) s h =
      if-holds Leaves s.poll_pending (λ p. process_events-Leaves answer there code buffer num s h p)
        (λ n. h)
  subscription_step-Leaves requests s h = request_stop-IsSettled s h
  subscription_step-Leaves (queues accepted) s h = queue_stop-IsSettled s h accepted
  subscription_step-Leaves applies s h =
      if-holds Leaves (s.queued == 0) (λ y. h)
        (λ n.
          begin_stop-IsSettled _ (record { stops = h.stops; closes = h.closes; tells = h.tells }))

  pub subscription_run-Leaves :
      (steps : List SubscriptionStep) (s : Subscription)
      → IsSettled s
      → Leaves (subscription_run files fuel dir utf8 steps s)
  unfolding subscription_run
  subscription_run-Leaves [] s h = h
  subscription_run-Leaves (step ∷ steps) s h =
      elim (Option-cases (subscription_step files fuel dir utf8 step s)) [
        | inl stuck ↦ rw (subscription_run, stuck) tt
        | inr (s', e) ↦
            rw (subscription_run, e)
              (subscription_run-Leaves steps s'
                (subst Leaves e (subscription_step-Leaves step s h)))
      ]
