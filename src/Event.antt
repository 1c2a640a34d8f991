-- ===== src/Event.antt =====
-- src/Event.hh: the coalescing list of events of one watcher.
pub mod Drain
pub mod Order
pub mod Shape
pub mod Entries
pub mod Net
pub mod Batch
pub mod Report
use native_watcher.Base.{
  ℕ, ◌+◌, ◌≡◌, refl, Bool, true, false, not, ◌&&◌, ◌||◌, Option, none, some, List, [], ◌∷◌, map,
  ◌==◌, ltb, if◌then◌else◌, has_value, Bytes, Bytes-discrete, find, erase, modify, assign,
  ℕ_discrete,
}
use native_watcher.Base.{keep, arith}

pub data EntryKind : Type 0 where
  file directory : EntryKind

unfoldable pub entry_kind : Bool → EntryKind
entry_kind is_directory = if is_directory then directory else file

pub record Event : Type 0 where
  pub path : Bytes
  pub kind : EntryKind
  pub is_created : Bool
  pub is_deleted : Bool
  pub rename_id : Option Bytes

unfoldable pub new_event : Bytes → EntryKind → Event
new_event path kind = record {
  path = path;
  kind = kind;
  is_created = false;
  is_deleted = false;
  rename_id = none;
}

-- The field `type` that `Event::toJS` gives to JavaScript.
pub data EventType : Type 0 where
  create_type delete_type update_type : EventType

unfoldable pub event_type : Event → EventType
event_type e =
    if e.is_created then create_type else if e.is_deleted then delete_type else update_type

-- `EventBatch`, with the empty string for no error.
pub record EventBatch : Type 0 where
  pub error : Bytes
  pub events : List Event

abbrev pub EventKey : Type 0
EventKey = Bytes × EntryKind

file≢directory : (p q : Bytes) → ¬ (◌≡◌ {A = EventKey} (p, file) (q, directory))
file≢directory p q e = ground arith

directory≢file : (p q : Bytes) → ¬ (◌≡◌ {A = EventKey} (p, directory) (q, file))
directory≢file p q e = ground arith

unfoldable pub EventKey-discrete : Discrete EventKey
unfolding Bytes-discrete file≢directory directory≢file
EventKey-discrete (p, file) (q, file) = elim (Bytes-discrete p q) [
  | yes e ↦ yes (λ i. (e i, file))
  | no n ↦ no (λ e. n (λ i. (e i).0))
]
EventKey-discrete (p, directory) (q, directory) = elim (Bytes-discrete p q) [
  | yes e ↦ yes (λ i. (e i, directory))
  | no n ↦ no (λ e. n (λ i. (e i).0))
]
EventKey-discrete (p, file) (q, directory) = no (file≢directory p q)
EventKey-discrete (p, directory) (q, file) = no (directory≢file p q)

-- `std::less` of two strings, and of two keys: the order of `std::map`.
unfoldable pub bytes_lt : Bytes → Bytes → Bool
bytes_lt xs [] = false
bytes_lt [] (y ∷ ys) = true
bytes_lt (x ∷ xs) (y ∷ ys) = ltb x y || (x == y && bytes_lt xs ys)

unfoldable pub kind_lt : EntryKind → EntryKind → Bool
kind_lt file directory = true
kind_lt file file = false
kind_lt directory k = false

unfoldable pub key_lt : EventKey → EventKey → Bool
unfolding bytes_lt kind_lt
key_lt (p, k) (q, l) = bytes_lt p q || (not (bytes_lt q p) && kind_lt k l)

abbrev pub Events : Type 0
Events = List (EventKey × Event)

pub record EventList : Type 0 where
  pub events : Events
  pub error : Option Bytes

-- `mEvents.emplace` of a key that is not there yet: at its place in the order of the keys.
unfoldable pub emplace_sorted : EventKey → Event → Events → Events
emplace_sorted k v [] = (k, v) ∷ []
emplace_sorted k v ((j, w) ∷ m) =
    let rest = emplace_sorted k v m in if key_lt k j then (k, v) ∷ (j, w) ∷ m else (j, w) ∷ rest

-- `internalUpdate`: the map, with an entry for the key.
unfoldable pub internal_update : EventKey → Events → Events
unfolding new_event
internal_update key m =
    if has_value (find EventKey-discrete key m)
    then m
    else emplace_sorted key (new_event key.0 key.1) m

abbrev deleted_entry : Option Event → Bool
deleted_entry none = false
deleted_entry (some e) = e.is_deleted

-- Whether the entry that `internalUpdate` points to is marked as deleted.
unfoldable pub is_deleted_at : EventKey → Events → Bool
is_deleted_at key m = deleted_entry (find EventKey-discrete key m)

abbrev pub undelete : Event → Event
undelete e = record e { is_deleted = false; rename_id = none }

abbrev pub mark_created : Event → Event
mark_created e = record e { is_created = true }

abbrev pub mark_deleted : Event → Event
mark_deleted e = record e { is_deleted = true }

abbrev pub with_id : Option Bytes → Event → Event
with_id id e = record e { rename_id = id }

abbrev pub at_key : EventKey → (Event → Event) → Events → Events
at_key key f m = modify EventKey-discrete key f m

unfoldable pub create_in : EventKey → Events → Events
unfolding internal_update is_deleted_at
create_in key m0 =
    let m = internal_update key m0 in
    if is_deleted_at key m then at_key key undelete m else at_key key mark_created m

unfoldable pub remove_in : EventKey → Events → Events
unfolding internal_update
remove_in key m0 = at_key key (with_id none) (at_key key mark_deleted (internal_update key m0))

-- The first half of `rename`, for a path that this batch created.
unfoldable pub move_created : EventKey → EventKey → Option Bytes → Events → Events
unfolding internal_update is_deleted_at
move_created old new original m0 =
    let m = internal_update new (erase EventKey-discrete old m0) in
    if is_deleted_at new m
    then at_key new undelete m
    else at_key new (λ e. record e { is_created = true; is_deleted = false; rename_id = original })
        m

-- The second half of `rename`. The two entries are one where the paths are the same.
unfoldable pub move_entry : EventKey → EventKey → Bytes → Events → Events
unfolding internal_update is_deleted_at
move_entry old new id m0 =
    let m = internal_update new (at_key old mark_deleted (internal_update old m0)) in
    if is_deleted_at new m
    then at_key new (with_id none)
        (at_key old (with_id none) (at_key new (λ e. record e { is_deleted = false }) m))
    else at_key new (with_id (some id)) (at_key old (with_id (some id)) (at_key new mark_created m))

unfoldable pub rename_in : EventKey → EventKey → Bytes → Events → Events
unfolding move_created move_entry
rename_in old new id m = elim (find EventKey-discrete old m) [
  | none ↦ move_entry old new id m
  | some e ↦ if e.is_created then move_created old new e.rename_id m else move_entry old new id m
]

unfoldable pub create : Bytes → EntryKind → EventList → EventList
unfolding create_in
create path kind l = record l { events = create_in (path, kind) l.events }

unfoldable pub update : Bytes → EntryKind → EventList → EventList
unfolding internal_update
update path kind l = record l { events = internal_update (path, kind) l.events }

unfoldable pub remove : Bytes → EntryKind → EventList → EventList
unfolding remove_in
remove path kind l = record l { events = remove_in (path, kind) l.events }

unfoldable pub rename : Bytes → Bytes → Bytes → EntryKind → EventList → EventList
unfolding rename_in
rename old_path new_path id kind l = record l {
  events = rename_in (old_path, kind) (new_path, kind) id l.events;
}

-- The first error is kept.
unfoldable pub error : Bytes → EventList → EventList
error err l = record l { error = if has_value l.error then l.error else some err }

abbrev pub has_error : EventList → Bool
has_error l = has_value l.error
