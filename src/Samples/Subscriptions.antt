-- ===== src/Samples/Subscriptions.antt =====
-- src/windows/WindowsBackend.cc: a new directory is walked, a buffer is read, and a subscription whose
-- buffer overflowed stops.
use native_watcher.Base.{
  ℕ, ◌+◌, ◌-◌, ◌≡◌, refl, Bool, true, false, Option, some, none, List, [], ◌∷◌, arith, Bytes, codes,
  slash, ltb, if◌then◌else◌, length, length-append, bytes_eq, Bool-cases, inl, inr,
}
use native_watcher.Windows.{WindowsFiles, Watched, push_names}
use native_watcher.Windows.Scan.{Weighs}
use native_watcher.Windows.Buffer.{parse_loop, read_word, action_of}
use native_watcher.Windows.Subscription.{
  PollAnswer, started, success, Subscription, new_subscription, process_events, poll, run_batch,
  fail_overflow, request_stop, begin_stop, finish_stop,
}
use native_watcher.Windows.Steps.{SubscriptionStep, runs, completes, read, subscription_run, run}
use native_watcher.Windows.Stopping.{IsSettled}
use native_watcher.Windows.Ending.{Handled, process_events_ends, subscription_run-IsSettled}

-- A path shorter than eight bytes is a directory that holds `f`, any other is a file.
abbrev names_below : Bytes → Option (List Bytes)
names_below path = if ltb (length path) 8 then some (codes "f" ∷ []) else none

abbrev nested_files : WindowsFiles
nested_files = record {
  attributes =
      λ path. some (record { mtime = 5; is_directory = ltb (length path) 8; is_special = false });
  names_in = names_below;
  name_of = λ path. none;
  same_folded = λ a b. false;
  is_ignored = λ path. false;
  has_ignores = false;
}

abbrev depth : Bytes → ℕ
depth path = 8 - length path + 1

nested_files-Weighs : Weighs nested_files depth
unfolding push_names bytes_eq
nested_files-Weighs path = elim (Bool-cases (ltb (length path) 8)) [
  | inl d ↦ rw (d, length-append path (slash ∷ codes "f")) (ground (arith, d))
  | inr f ↦ rw f (omega arith)
]

abbrev new_watched : Watched
new_watched = record {
  tree = record { root = codes "/r"; is_complete = false; entries = [] };
  events = record { events = []; error = none };
  pending_rename_path = none;
  removed_paths = [];
  previous_removed_paths = [];
  rename_sequence = 0;
}

abbrev polls : ℕ → PollAnswer
polls size = started

-- One notification: `a` was added.
abbrev one_change : Bytes
one_change = 0 ∷ 0 ∷ 0 ∷ 0 ∷ 1 ∷ 0 ∷ 0 ∷ 0 ∷ 2 ∷ 0 ∷ 0 ∷ 0 ∷ 97 ∷ 0 ∷ []

abbrev low_bytes : Bytes → Bytes
low_bytes (a ∷ b ∷ rest) = a ∷ low_bytes rest
low_bytes rest = []

process_events_ends_example : Handled (
    process_events nested_files 9
      (codes "/r")
      low_bytes
      polls
      true
      success
      one_change
      14
      (new_subscription new_watched))
process_events_ends_example =
    process_events_ends nested_files depth nested_files-Weighs 9 (λ path. omega arith) (codes "/r")
      low_bytes polls true success one_change 14 (new_subscription new_watched) (omega arith)
      (inl (omega arith))

-- The buffer of the second completion ends within a record.
abbrev overflowing_steps : List SubscriptionStep
overflowing_steps =
    runs polls (read new_watched)
    ∷ completes polls true success one_change 14
    ∷ completes polls true success one_change 13
    ∷ completes polls true success [] 0
    ∷ []

subscription_run-IsSettled_example :
    (s : Subscription) × (subscription_run nested_files 9
        (codes "/r")
        low_bytes
        overflowing_steps
        (new_subscription new_watched)
      ≡ some s)
    × IsSettled s
subscription_run-IsSettled_example =
    subscription_run-IsSettled nested_files depth nested_files-Weighs 9 (λ path. omega arith)
      (codes "/r") low_bytes overflowing_steps new_watched
      (
        tt,
        (
          (omega arith, inl (omega arith)),
          ((omega arith, inl (omega arith)), ((omega arith, inl (omega arith)), tt)),
        ),
      )

abbrev flags : Option Subscription → Option (Bool × Bool × Bool)
flags none = none
flags (some s) = some (s.stopped, s.handle_open, s.notified)

overflowed_stopped :
    flags (
      subscription_run nested_files 9
        (codes "/r")
        low_bytes
        overflowing_steps
        (new_subscription new_watched))
    ≡ some (true, false, true)
unfolding subscription_run run poll process_events run_batch parse_loop read_word action_of
    fail_overflow request_stop begin_stop finish_stop
overflowed_stopped = refl
