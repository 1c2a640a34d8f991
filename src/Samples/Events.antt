-- ===== src/Samples/Events.antt =====
-- src/Event.hh: one batch in which a file is renamed, another is saved by way of a temporary file,
-- and a third comes and goes.
use native_watcher.Base.{
  ◌≡◌, refl, true, false, some, List, [], ◌∷◌, Bytes, codes, find, modify, erase, assign, map,
}
use native_watcher.Event.{
  EventKey-discrete, file, create_type, update_type, emplace_sorted, key_lt, delete_type,
  event_type,
}
use native_watcher.Event.Drain.{drain}
use native_watcher.Event.Net.{World, Change, creates, updates, removes, renames, apply, apply_all}
use native_watcher.Event.Report.{type_at, no_events, drain_net}

abbrev old_name : Bytes
old_name = codes "/r/a"

abbrev new_name : Bytes
new_name = codes "/r/b"

abbrev saved : Bytes
saved = codes "/r/s"

abbrev temporary : Bytes
temporary = codes "/r/s.tmp"

-- Before: `old_name` and `saved` exist.
abbrev before : World
before k = elim (EventKey-discrete k (old_name, file)) [
  | yes _ ↦ true
  | no _ ↦ elim (EventKey-discrete k (saved, file)) [ yes _ ↦ true | no _ ↦ false ]
]

abbrev changes : List Change
changes =
    renames old_name new_name (codes "1") file
    ∷ updates new_name file
    ∷ creates temporary file
    ∷ removes saved file
    ∷ renames temporary saved (codes "2") file
    ∷ []

renamed_batch :
    map event_type (drain (apply_all changes no_events)).0.events
    ≡ delete_type ∷ create_type ∷ update_type ∷ []
unfolding drain apply_all apply find modify emplace_sorted EventKey-discrete key_lt erase event_type
    assign
renamed_batch = refl

drain_net_example :
    type_at (new_name, file) (drain (apply_all changes no_events)).0.events ≡ some create_type
unfolding EventKey-discrete
drain_net_example =
    drain_net before changes (new_name, file)
      ((refl, refl), (refl, (refl, (refl, ((refl, refl), tt)))))
