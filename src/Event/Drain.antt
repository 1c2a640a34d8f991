-- ===== src/Event/Drain.antt =====
-- src/Event.hh: `EventList::drain`.
use native_watcher.Base.{
  ℕ, ◌+◌, Bool, not, ◌&&◌, Option, none, some, List, [], ◌∷◌, map, ◌==◌, if◌then◌else◌, Bytes,
  Bytes-discrete, find, assign,
}
use native_watcher.Base.{keep}
use native_watcher.Event.{Event, EventBatch, EventList}

pub record RenameParts : Type 0 where
  pub created : ℕ
  pub deleted : ℕ
  pub other : ℕ

abbrev pub no_parts : RenameParts
no_parts = record { created = 0; deleted = 0; other = 0 }

abbrev pub one_each : RenameParts
one_each = record { created = 1; deleted = 1; other = 0 }

unfoldable pub bump : Event → RenameParts → RenameParts
bump e p =
    if e.is_created
    then record p { created = p.created + 1 }
    else if e.is_deleted
    then record p { deleted = p.deleted + 1 }
    else record p { other = p.other + 1 }

abbrev pub Parts : Type 0
Parts = List (Bytes × RenameParts)

abbrev or_no_parts : Option RenameParts → RenameParts
or_no_parts none = no_parts
or_no_parts (some p) = p

-- `renameParts[id]`
unfoldable pub part_of : Bytes → Parts → RenameParts
part_of id ps = or_no_parts (find Bytes-discrete id ps)

abbrev pub reported : Event → Bool
reported e = not (e.is_created && e.is_deleted)

-- The body of the first loop of `drain`, at an event that is reported.
unfoldable pub count_part : Event → Parts → Parts
unfolding part_of bump
count_part e ps = elim e.rename_id [
  | none ↦ ps
  | some id ↦ assign Bytes-discrete id (bump e (part_of id ps)) ps
]

unfoldable pub count_parts : List Event → Parts → Parts
unfolding count_part
count_parts [] ps = ps
count_parts (e ∷ es) ps = count_parts es (count_part e ps)

unfoldable pub complete : RenameParts → Bool
complete p = p.created == 1 && p.deleted == 1 && p.other == 0

-- The body of the second loop.
unfoldable pub settle : Parts → Event → Event
unfolding part_of complete
settle ps e = elim e.rename_id [
  | none ↦ e
  | some id ↦ if complete (part_of id ps) then e else record e { rename_id = none }
]

abbrev value_or_empty : Option Bytes → Bytes
value_or_empty none = []
value_or_empty (some err) = err

unfoldable pub drain : EventList → EventBatch × EventList
unfolding count_parts settle keep
drain l =
    let batch = keep reported (map (λ e. e.1) l.events) in
    let parts = count_parts batch [] in
    (
      record { error = value_or_empty l.error; events = map (settle parts) batch },
      record { events = []; error = none },
    )
