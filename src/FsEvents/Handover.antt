-- ===== src/FsEvents/Handover.antt =====
-- src/macos/FSEventsBackend.cc: the events that come while the index of a stream is scanned.
use native_watcher.Base.{List, [], ◌∷◌, ◌++◌, Bytes}
use native_watcher.FsEvents.{MacFiles}
use native_watcher.FsEvents.Correlate.{PendingEvent}
use native_watcher.FsEvents.Stream.{Stream, receive, visible_events}

module _ (files : MacFiles) (dir : Bytes) where
  -- The batches that a stream receives, one after the other.
  unfoldable pub receive_all : List (List PendingEvent) → Stream → Stream
  unfolding receive
  receive_all [] s = s
  receive_all (events ∷ batches) s = receive_all batches (receive files dir events s)

  abbrev pub all_visible : List (List PendingEvent) → List PendingEvent
  all_visible [] = []
  all_visible (events ∷ batches) = visible_events files dir events ++ all_visible batches
