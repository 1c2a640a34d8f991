-- ===== src/Windows/Steps.antt =====
-- src/windows/WindowsBackend.cc: `run` of the class `Subscription`, and the steps of a subscription. A step
-- is one call on the thread of the backend, where the completions and the queued calls run, or one
-- request to stop from elsewhere. A request that comes while `run` reads the tree is a step before
-- `run`, which looks at it after the tree is read, or after it. What the backend does with an error that
-- a completion throws is left out; the stop that follows it is a step of its own.
use native_watcher.Base.{
  ℕ, ◌-◌, Bool, true, false, Option, none, some, List, [], ◌∷◌, Bytes, ◌==◌, if◌then◌else◌,
}
use native_watcher.Windows.{WindowsFiles, Watched}
use native_watcher.Windows.Subscription.{
  Subscription, Completed, done, PollAnswer, ErrorCode, Thrown, poll, process_events, request_stop,
  begin_stop, queue_stop,
}

-- How `readTree` in `run` goes.
pub data ReadTree : Type 0 where
  read : Watched → ReadTree
  cancelled : Watched → ReadTree
  threw : Watched → Bytes → ReadTree

abbrev pub fail_start : Bytes → Subscription → Subscription
fail_start what s = request_stop (record s { start_error = some what })

abbrev pub after_read : ReadTree → Subscription → Subscription
after_read (threw w what) s = fail_start what (record s { watched = w })
after_read (cancelled w) s = request_stop (record s { watched = w; needs_resubscribe = true })
after_read (read w) s =
    if s.stop_requested
    then request_stop (record s { watched = w; needs_resubscribe = true })
    else record s { watched = w; complete = true }

abbrev pub after_poll : ReadTree → Thrown → Subscription
after_poll tree (s, some what) = fail_start what s
after_poll tree (s, none) = after_read tree s

unfoldable pub run : (ℕ → PollAnswer) → ReadTree → Subscription → Subscription
run answer tree s = after_poll tree (poll answer s)

-- A step of a subscription: its first run, a completion, which comes only while a poll is pending, a
-- stop on the thread of the backend, one from elsewhere, and the queued call of it.
pub data SubscriptionStep : Type 0 where
  runs : (ℕ → PollAnswer) → ReadTree → SubscriptionStep
  completes : (ℕ → PollAnswer) → Bool → ErrorCode → Bytes → ℕ → SubscriptionStep
  requests : SubscriptionStep
  queues : Bool → SubscriptionStep
  applies : SubscriptionStep

abbrev pub state_after : Completed → Option Subscription
state_after (done (s, thrown)) = some s
state_after Completed.bad_read = none
state_after Completed.no_fuel = none

module _ (files : WindowsFiles) (fuel : ℕ) (dir : Bytes) (utf8 : Bytes → Bytes) where
  unfoldable pub subscription_step : SubscriptionStep → Subscription → Option Subscription
  subscription_step (runs answer tree) s = some (run answer tree s)
  subscription_step (completes answer there code buffer num) s =
      if s.poll_pending
      then state_after (
          process_events files fuel dir utf8 answer there code buffer num
            (record s { poll_pending = false }))
      else some s
  subscription_step requests s = some (request_stop s)
  subscription_step (queues accepted) s = some (queue_stop accepted s)
  subscription_step applies s =
      if s.queued == 0 then some s else some (begin_stop (record s { queued = s.queued - 1 }))

  unfoldable pub subscription_run : List SubscriptionStep → Subscription → Option Subscription
  unfolding subscription_step
  subscription_run [] s = some s
  subscription_run (step ∷ steps) s = elim (subscription_step step s) [
    | none ↦ none
    | some s' ↦ subscription_run steps s'
  ]
