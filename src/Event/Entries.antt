-- ===== src/Event/Entries.antt =====
-- The entry that each operation of src/Event.hh leaves at a key, and the shape of the map.
use mathlib.Core.Logic.{ite}
use mathlib.Core.Option
use native_watcher.Base.{
  ◌≡◌, Bool, true, false, Option, none, some, [], ◌∷◌, arith, if◌then◌else◌, Bytes, find, erase,
  find-erase, find-modify,
}
use native_watcher.Event.{
  Event, EventKey, EventKey-discrete, Events, new_event, emplace_sorted, internal_update, at_key,
  is_deleted_at, create_in, remove_in, move_created, move_entry, undelete, mark_created,
  mark_deleted, with_id, deleted_entry,
}

abbrev pub entry : EventKey → Events → Option Event
entry k m = find EventKey-discrete k m

abbrev pub or_new : EventKey → Option Event → Event
or_new k none = new_event k.0 k.1
or_new k (some e) = e

pub entry-emplace_sorted :
    (k j : EventKey) (v : Event) (m : Events)
    → entry k m ≡ none
    → entry j (emplace_sorted k v m) ≡ ite (EventKey-discrete k j) (some v) (entry j m)
unfolding find emplace_sorted
entry-emplace_sorted k j v [] h = ground arith
entry-emplace_sorted k j v ((i, w) ∷ m) h = ground (arith, entry-emplace_sorted k j v m)

pub entry-internal_update :
    (k j : EventKey) (m : Events)
    → entry j (internal_update k m)
      ≡ ite (EventKey-discrete k j) (some (or_new k (entry k m))) (entry j m)
unfolding internal_update
entry-internal_update k j m = ground (arith, entry-emplace_sorted k j (new_event k.0 k.1) m)

pub entry-at_key :
    (k j : EventKey) (f : Event → Event) (m : Events)
    → entry j (at_key k f m) ≡ ite (EventKey-discrete k j) (Option.map f (entry j m)) (entry j m)
entry-at_key k j f m = find-modify EventKey-discrete k j f m

-- What `create` leaves in an entry.
unfoldable pub created_entry : Event → Event
created_entry e = if e.is_deleted then undelete e else mark_created e

pub entry-create_in :
    (k j : EventKey) (m : Events)
    → entry j (create_in k m)
      ≡ ite (EventKey-discrete k j) (some (created_entry (or_new k (entry k m)))) (entry j m)
unfolding create_in is_deleted_at created_entry
entry-create_in k j m = ground (
  arith,
  entry-internal_update k j m,
  entry-internal_update k k m,
  entry-at_key k j undelete (internal_update k m),
  entry-at_key k j mark_created (internal_update k m),
)

pub entry-remove_in :
    (k j : EventKey) (m : Events)
    → entry j (remove_in k m)
      ≡ ite
          (EventKey-discrete k j)
          (some (with_id none (mark_deleted (or_new k (entry k m)))))
          (entry j m)
unfolding remove_in
entry-remove_in k j m = ground (
  arith,
  entry-internal_update k j m,
  entry-at_key k j mark_deleted (internal_update k m),
  entry-at_key k j (with_id none) (at_key k mark_deleted (internal_update k m)),
)

unfoldable pub moved_entry : Option Bytes → Event → Event
moved_entry id e =
    if e.is_deleted
    then undelete e
    else record e { is_created = true; is_deleted = false; rename_id = id }

pub entry-move_created :
    (old new j : EventKey) (id : Option Bytes) (m : Events)
    → ¬ (old ≡ new)
    → entry j (move_created old new id m)
      ≡ ite
          (EventKey-discrete new j)
          (some (moved_entry id (or_new new (entry new m))))
          (ite (EventKey-discrete old j) none (entry j m))
unfolding move_created is_deleted_at moved_entry
entry-move_created old new j id m h =
    let m1 = erase EventKey-discrete old m in
    ground (
      arith,
      find-erase EventKey-discrete old j m,
      find-erase EventKey-discrete old new m,
      entry-internal_update new j m1,
      entry-internal_update new new m1,
      entry-at_key new j undelete (internal_update new m1),
      entry-at_key new j (λ e. record e { is_created = true; is_deleted = false; rename_id = id })
          (internal_update new m1),
    )

-- What `rename` leaves of a source that this batch did not create, and of its target.
unfoldable pub source_entry : Bytes → Bool → Event → Event
source_entry id replaced e = with_id (if replaced then none else some id) (mark_deleted e)

unfoldable pub target_entry : Bytes → Event → Event
target_entry id e = if e.is_deleted then undelete e else with_id (some id) (mark_created e)

pub entry-move_entry :
    (old new j : EventKey) (id : Bytes) (m : Events)
    → ¬ (old ≡ new)
    → entry j (move_entry old new id m)
      ≡ ite (EventKey-discrete new j) (some (target_entry id (or_new new (entry new m)))) (
          ite
            (EventKey-discrete old j)
            (some (source_entry id (deleted_entry (entry new m)) (or_new old (entry old m))))
            (entry j m))
unfolding move_entry is_deleted_at source_entry target_entry
entry-move_entry old new j id m h =
    let m1 = internal_update old m in
    let m2 = at_key old mark_deleted m1 in
    let m3 = internal_update new m2 in
    let m4 = at_key new (λ e. record e { is_deleted = false }) m3 in
    let m5 = at_key new mark_created m3 in
    ground (
      arith,
      entry-internal_update old j m,
      entry-internal_update old new m,
      entry-internal_update new new m2,
      entry-internal_update new j m2,
      entry-at_key old j mark_deleted m1,
      entry-at_key old new mark_deleted m1,
      entry-at_key new j (λ e. record e { is_deleted = false }) m3,
      entry-at_key new j mark_created m3,
      entry-at_key old j (with_id none) m4,
      entry-at_key new j (with_id none) (at_key old (with_id none) m4),
      entry-at_key old j (with_id (some id)) m5,
      entry-at_key new j (with_id (some id)) (at_key old (with_id (some id)) m5),
    )
