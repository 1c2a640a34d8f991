-- ===== src/Event/Net.antt =====
-- src/Event.hh against the filesystem: what a batch says of a path is the net change since the
-- batch before it. A world says which keys exist; the changes are the calls of the backends.
use mathlib.Core.Logic.{ite}
use native_watcher.Base.{
  ◌≡◌, ap, Bool, true, false, not, Option, none, some, List, [], ◌∷◌, arith, Bytes, Option-cases,
  ◌&&◌, inl, inr,
}
use native_watcher.Event.{
  Event, EntryKind, EventKey, EventKey-discrete, Events, EventList, new_event, internal_update,
  create_in, remove_in, rename_in, create, update, remove, rename,
}
use native_watcher.Event.Entries.{
  entry, entry-internal_update, entry-create_in, entry-remove_in, entry-move_created,
  entry-move_entry, created_entry, moved_entry, source_entry, target_entry,
}

abbrev pub World : Type 0
World = EventKey → Bool

abbrev pub with_key : EventKey → Bool → World → World
with_key k b w j = ite (EventKey-discrete k j) b (w j)

pub data Change : Type 0 where
  creates updates removes : Bytes → EntryKind → Change
  renames : Bytes → Bytes → Bytes → EntryKind → Change

abbrev pub Possible : Change → World → Type 0
Possible (creates p k) w = w (p, k) ≡ false
Possible (updates p k) w = w (p, k) ≡ true
Possible (removes p k) w = w (p, k) ≡ true
Possible (renames p q id k) w = (w (p, k) ≡ true) × (w (q, k) ≡ false)

abbrev pub after : Change → World → World
after (creates p k) w = with_key (p, k) true w
after (updates p k) w = w
after (removes p k) w = with_key (p, k) false w
after (renames p q id k) w = with_key (q, k) true (with_key (p, k) false w)

-- The keys of a change besides those of a set.
abbrev pub mark : Change → World → World
mark (creates p k) w = with_key (p, k) true w
mark (updates p k) w = with_key (p, k) true w
mark (removes p k) w = with_key (p, k) true w
mark (renames p q id k) w = with_key (q, k) true (with_key (p, k) true w)

unfoldable pub apply : Change → EventList → EventList
unfolding create update remove rename
apply (creates p k) l = create p k l
apply (updates p k) l = update p k l
apply (removes p k) l = remove p k l
apply (renames p q id k) l = rename p q id k l

-- An entry against whether its key existed before, exists now, and is of one of the changes.
abbrev pub TracksEntry : Bool → Bool → Bool → Option Event → Type 0
TracksEntry b n c none = (b ≡ n) × ((b && c) ≡ false)
TracksEntry b n c (some e) = (e.is_created ≡ not b) × (e.is_deleted ≡ not n) × (c ≡ true)

abbrev pub Tracks : World → World → World → Events → Type 0
Tracks before now changed m =
    (k : EventKey) → TracksEntry (before k) (now k) (changed k) (entry k m)

apart_worlds : (now : World) (old new : EventKey) → now old ≡ true → now new ≡ false → ¬ (old ≡ new)
apart_worlds now old new h h' e = let same : now old ≡ now new = ap now e in cc

module _ (before now changed : World) (m : Events) (t : Tracks before now changed m) where
  creates-Tracks :
      (k : EventKey)
      → now k ≡ false
      → Tracks before (with_key k true now) (with_key k true changed) (create_in k m)
  unfolding created_entry new_event
  creates-Tracks k h j = rw (entry-create_in k j m) (ground (arith, t k, t j))

  updates-Tracks :
      (k : EventKey)
      → now k ≡ true
      → Tracks before now (with_key k true changed) (internal_update k m)
  unfolding new_event
  updates-Tracks k h j = rw (entry-internal_update k j m) (ground (arith, t k, t j))

  removes-Tracks :
      (k : EventKey)
      → now k ≡ true
      → Tracks before (with_key k false now) (with_key k true changed) (remove_in k m)
  unfolding new_event
  removes-Tracks k h j = rw (entry-remove_in k j m) (ground (arith, t k, t j))

  renames-Tracks :
      (old new : EventKey) (id : Bytes)
      → now old ≡ true
      → now new ≡ false
      → Tracks before
          (with_key new true (with_key old false now))
          (with_key new true (with_key old true changed))
          (rename_in old new id m)
  unfolding rename_in new_event moved_entry source_entry target_entry
  renames-Tracks old new id ho hn j =
      let apart : ¬ (old ≡ new) = λ e. apart_worlds now old new ho hn e in
      let at_source : TracksEntry (before old) (now old) (changed old) (entry old m) = t old in
      let at_target : TracksEntry (before new) (now new) (changed new) (entry new m) = t new in
      let at_key : TracksEntry (before j) (now j) (changed j) (entry j m) = t j in
      elim (Option-cases (entry old m)) [
        | inl absent ↦ ground (arith, entry-move_entry old new j id m apart)
        | inr (e, present) ↦ ground (
          arith,
          entry-move_created old new j e.rename_id m apart,
          entry-move_entry old new j id m apart,
        )
      ]

pub apply-Tracks :
    (before now changed : World) (c : Change) (l : EventList)
    → Possible c now
    → Tracks before now changed l.events
    → Tracks before (after c now) (mark c changed) (apply c l).events
unfolding apply
apply-Tracks before now changed (creates p k) l h t =
    creates-Tracks before now changed l.events t (p, k) h
apply-Tracks before now changed (updates p k) l h t =
    updates-Tracks before now changed l.events t (p, k) h
apply-Tracks before now changed (removes p k) l h t =
    removes-Tracks before now changed l.events t (p, k) h
apply-Tracks before now changed (renames p q id k) l h t =
    renames-Tracks before now changed l.events t (p, k) (q, k) id h.0 h.1

unfoldable pub apply_all : List Change → EventList → EventList
apply_all [] l = l
apply_all (c ∷ cs) l = apply_all cs (apply c l)

abbrev pub after_all : List Change → World → World
after_all [] w = w
after_all (c ∷ cs) w = after_all cs (after c w)

abbrev pub mark_all : List Change → World → World
mark_all [] w = w
mark_all (c ∷ cs) w = mark_all cs (mark c w)

-- The keys of the changes.
abbrev pub changed_by : List Change → World
changed_by cs = mark_all cs (λ k. false)

-- Every change is possible in the world that the changes before it leave.
abbrev pub AllPossible : List Change → World → Type 0
AllPossible [] w = Unit
AllPossible (c ∷ cs) w = Possible c w × AllPossible cs (after c w)

pub apply_all-Tracks :
    (before now changed : World) (cs : List Change) (l : EventList)
    → AllPossible cs now
    → Tracks before now changed l.events
    → Tracks before (after_all cs now) (mark_all cs changed) (apply_all cs l).events
unfolding apply_all
apply_all-Tracks before now changed [] l h t = t
apply_all-Tracks before now changed (c ∷ cs) l h t =
    apply_all-Tracks before (after c now) (mark c changed) cs (apply c l) h.1
      (apply-Tracks before now changed c l h.0 t)
