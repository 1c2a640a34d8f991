-- ===== src/FsEvents/Stream.antt =====
-- src/macos/FSEventsBackend.cc: the stream that hands events over. `startStream` scans the index, the
-- callback `FSEventsCallback` keeps the events that come meanwhile, and the end of `startStream` hands
-- them on. What comes during the scan is a step after it, which the scan does not see.
use native_watcher.Base.{
  Bool, true, false, not, ◌||◌, List, [], ◌∷◌, ◌++◌, Bytes, if◌then◌else◌, keep,
}
use native_watcher.Event.{EventList}
use native_watcher.DirTree.{new_tree}
use native_watcher.IdentityIndex.{add_each}
use native_watcher.IdentityIndex.Agreement.{empty_index}
use native_watcher.FsEvents.{State, MacFiles, on_tree, Scanned, finished, cancelled, failed, scan}
use native_watcher.FsEvents.Correlate.{PendingEvent}
use native_watcher.FsEvents.Reconcile.{tree_of}
use native_watcher.FsEvents.Process.{retire, process_events}

-- The state of a stream, whether its index is still scanned, and the events that came meanwhile.
pub record Stream : Type 0 where
  pub state : State
  pub initializing : Bool
  pub pending_events : List PendingEvent

abbrev pub is_no_event : List PendingEvent → Bool
is_no_event [] = true
is_no_event (event ∷ events) = false

-- The state before the index is scanned, with the events of its watcher.
abbrev pub opened_state : Bytes → EventList → State
opened_state dir events = record {
  tree = new_tree dir;
  identities = empty_index;
  rename_sequence = 0;
  streaming = true;
  events = events;
  needs_resubscribe = false;
  notified = false;
}

module _ (files : MacFiles) (dir : Bytes) where
  -- The scan in `startStream`; an exception stops the stream, in `subscribe`.
  abbrev pub take_first_scan : Scanned → State → State
  take_first_scan (visited, failed what) s = record s { streaming = false }
  take_first_scan (visited, cancelled) s = retire (on_tree (tree_of visited) s)
  take_first_scan (visited, finished) s =
      let walked = on_tree (tree_of visited) s in
      if files.is_cancelled
      then retire walked
      else record walked { identities = add_each visited empty_index }

  unfoldable pub start_stream : EventList → Stream
  unfolding scan add_each tree_of new_tree
  start_stream events = record {
    state = take_first_scan (scan files dir) (opened_state dir events);
    initializing = true;
    pending_events = [];
  }

  abbrev pub visible_events : List PendingEvent → List PendingEvent
  visible_events events = keep (λ e. not (files.is_ignored e.path)) events

  -- `FSEventsCallback`
  unfoldable pub receive : List PendingEvent → Stream → Stream
  unfolding keep process_events
  receive events s =
      if not s.state.streaming || is_no_event (visible_events events)
      then s
      else if s.initializing
      then record s { pending_events = s.pending_events ++ visible_events events }
      else record s { state = process_events files dir (visible_events events) s.state }

  -- The block at the end of `startStream`.
  unfoldable pub end_initialization : Stream → Stream
  unfolding process_events
  end_initialization s = if not s.state.streaming then s else record s {
    initializing = false;
    pending_events = [];
    state =
        if is_no_event s.pending_events
        then s.state
        else process_events files dir s.pending_events s.state;
  }

-- A step of a stream, with what the filesystem answers in it.
pub data StreamStep : Type 0 where
  receives : MacFiles → List PendingEvent → StreamStep
  initialized : MacFiles → StreamStep

module _ (dir : Bytes) where
  abbrev pub stream_step : StreamStep → Stream → Stream
  stream_step (receives files events) s = receive files dir events s
  stream_step (initialized files) s = end_initialization files dir s

  unfoldable pub stream_run : List StreamStep → Stream → Stream
  unfolding receive end_initialization
  stream_run [] s = s
  stream_run (step ∷ steps) s = stream_run steps (stream_step step s)
