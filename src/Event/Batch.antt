-- ===== src/Event/Batch.antt =====
-- `EventList::drain`: the rename ids of a batch.
use native_watcher.Base.{
  ◌+◌, Bool, true, false, none, some, List, [], ◌∷◌, Bytes, Bytes-discrete, if◌then◌else◌,
}
use native_watcher.Event.{Event}
use native_watcher.Event.Drain.{RenameParts, no_parts, bump}

-- Whether an event carries the id.
unfoldable pub carries : Bytes → Event → Bool
carries id e = elim e.rename_id [
  | none ↦ false
  | some i ↦ elim (Bytes-discrete i id) [ yes _ ↦ true | no _ ↦ false ]
]

-- How many creates, deletes and updates of a list carry the id.
unfoldable pub parts_in : Bytes → List Event → RenameParts
unfolding carries bump
parts_in id [] = no_parts
parts_in id (e ∷ es) = let p = parts_in id es in if carries id e then bump e p else p

abbrev pub plus : RenameParts → RenameParts → RenameParts
plus p q = record {
  created = p.created + q.created;
  deleted = p.deleted + q.deleted;
  other = p.other + q.other;
}
