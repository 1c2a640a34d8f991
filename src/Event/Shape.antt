-- ===== src/Event/Shape.antt =====
-- The map of src/Event.hh stays in the order of its keys, each entry under its own path and kind.
use native_watcher.Base.{
  ◌≡◌, refl, true, Option, none, List, [], ◌∷◌, arith, Bytes, find, erase, modify, Option-cases,
  Bool-cases, inl, inr,
}
use native_watcher.Event.{
  Event, EventKey, EventKey-discrete, Events, EventList, new_event, internal_update, emplace_sorted,
  key_lt, at_key, create_in, remove_in, rename_in, move_created, move_entry, undelete, mark_created,
  mark_deleted, with_id, is_deleted_at,
}
use native_watcher.Event.Order.{key_lt_irrefl, key_lt_trans, key_lt_connex}
use native_watcher.Event.Entries.{entry}
use native_watcher.Event.Net.{Change, creates, updates, removes, renames, apply, apply_all}

abbrev pub Above : EventKey → Events → Type 0
Above k [] = Unit
Above k ((j, e) ∷ m) = (key_lt k j ≡ true) × Above k m

abbrev pub Ordered : Events → Type 0
Ordered [] = Unit
Ordered ((k, e) ∷ m) = (e.path ≡ k.0) × (e.kind ≡ k.1) × Above k m × Ordered m

Above-trans : (k j : EventKey) (m : Events) → key_lt k j ≡ true → Above j m → Above k m
Above-trans k j [] h a = tt
Above-trans k j ((i, e) ∷ m) h a = (key_lt_trans k j i h a.0, Above-trans k j m h a.1)

pub entry_of_Above : (k : EventKey) (m : Events) → Above k m → entry k m ≡ none
unfolding find
entry_of_Above k [] a = refl
entry_of_Above k ((j, e) ∷ m) a = ground (arith, key_lt_irrefl k, entry_of_Above k m a.1)

Above-emplace_sorted :
    (i k : EventKey) (v : Event) (m : Events)
    → key_lt i k ≡ true
    → Above i m
    → Above i (emplace_sorted k v m)
unfolding emplace_sorted
Above-emplace_sorted i k v [] h a = (h, tt)
Above-emplace_sorted i k v ((j, w) ∷ m) h a = elim (Bool-cases (key_lt k j)) [
  | inl first ↦ rw first (h, a)
  | inr later ↦ rw later (a.0, Above-emplace_sorted i k v m h a.1)
]

emplace_sorted-Ordered :
    (k : EventKey) (v : Event) (m : Events)
    → v.path ≡ k.0
    → v.kind ≡ k.1
    → entry k m ≡ none
    → Ordered m
    → Ordered (emplace_sorted k v m)
unfolding emplace_sorted find
emplace_sorted-Ordered k v [] p q h o = (p, q, tt, tt)
emplace_sorted-Ordered k v ((j, w) ∷ m) p q h o = elim (Bool-cases (key_lt k j)) [
  | inl first ↦ rw first (p, q, (first, Above-trans k j m first o.2), o)
  | inr later ↦ rw later (
    o.0,
    o.1,
    Above-emplace_sorted j k v m (key_lt_connex k j later (λ e. ground arith)) o.2,
    emplace_sorted-Ordered k v m p q (ground arith) o.3,
  )
]

internal_update-Ordered : (k : EventKey) (m : Events) → Ordered m → Ordered (internal_update k m)
unfolding internal_update new_event
internal_update-Ordered k m o = elim (Option-cases (entry k m)) [
  | inl absent ↦ rw absent (emplace_sorted-Ordered k (new_event k.0 k.1) m refl refl absent o)
  | inr (e, present) ↦ rw present o
]

-- A change that leaves the path and the kind of an event alone.
abbrev KeepsKey : (Event → Event) → Type 0
KeepsKey f = (e : Event) → ((f e).path ≡ e.path) × ((f e).kind ≡ e.kind)

Above-at_key :
    (i k : EventKey) (f : Event → Event) (m : Events) → Above i m → Above i (at_key k f m)
unfolding modify
Above-at_key i k f [] a = tt
Above-at_key i k f ((j, e) ∷ m) a = elim (EventKey-discrete j k) [
  | yes p ↦ ground arith
  | no n ↦ ground (arith, Above-at_key i k f m a.1)
]

at_key-Ordered :
    (k : EventKey) (f : Event → Event) (m : Events)
    → KeepsKey f
    → Ordered m
    → Ordered (at_key k f m)
unfolding modify
at_key-Ordered k f [] h o = tt
at_key-Ordered k f ((j, e) ∷ m) h o =
    ground (arith, h e, Above-at_key j k f m, at_key-Ordered k f m h o.3)

Above-erase : (i k : EventKey) (m : Events) → Above i m → Above i (erase EventKey-discrete k m)
unfolding erase
Above-erase i k [] a = tt
Above-erase i k ((j, e) ∷ m) a = ground (arith, Above-erase i k m a.1)

erase-Ordered : (k : EventKey) (m : Events) → Ordered m → Ordered (erase EventKey-discrete k m)
unfolding erase
erase-Ordered k [] o = tt
erase-Ordered k ((j, e) ∷ m) o = ground (arith, Above-erase j k m o.2, erase-Ordered k m o.3)

create_in-Ordered : (k : EventKey) (m : Events) → Ordered m → Ordered (create_in k m)
unfolding create_in
create_in-Ordered k m o =
    let o' : Ordered (internal_update k m) = internal_update-Ordered k m o in
    elim (Bool-cases (is_deleted_at k (internal_update k m))) [
      | inl e ↦ rw e (at_key-Ordered k undelete _ (λ _. (refl, refl)) o')
      | inr e ↦ rw e (at_key-Ordered k mark_created _ (λ _. (refl, refl)) o')
    ]

remove_in-Ordered : (k : EventKey) (m : Events) → Ordered m → Ordered (remove_in k m)
unfolding remove_in
remove_in-Ordered k m o =
    at_key-Ordered k (with_id none) _ (λ _. (refl, refl))
      (at_key-Ordered k mark_deleted _ (λ _. (refl, refl)) (internal_update-Ordered k m o))

move_created-Ordered :
    (old new : EventKey) (id : Option Bytes) (m : Events)
    → Ordered m
    → Ordered (move_created old new id m)
unfolding move_created
move_created-Ordered old new id m o =
    let m1 = internal_update new (erase EventKey-discrete old m) in
    let o' : Ordered m1 = internal_update-Ordered new _ (erase-Ordered old m o) in
    elim (Bool-cases (is_deleted_at new m1)) [
      | inl e ↦ rw e (at_key-Ordered new undelete _ (λ _. (refl, refl)) o')
      | inr e ↦ rw e (at_key-Ordered new _ _ (λ _. (refl, refl)) o')
    ]

move_entry-Ordered :
    (old new : EventKey) (id : Bytes) (m : Events) → Ordered m → Ordered (move_entry old new id m)
unfolding move_entry
move_entry-Ordered old new id m o =
    let m1 = internal_update new (at_key old mark_deleted (internal_update old m)) in
    let o' : Ordered m1 =
      internal_update-Ordered new _
        (at_key-Ordered old mark_deleted _ (λ _. (refl, refl)) (internal_update-Ordered old m o)) in
    elim (Bool-cases (is_deleted_at new m1)) [
      | inl e ↦ rw e (
          at_key-Ordered new _ _ (λ _. (refl, refl))
            (at_key-Ordered old _ _ (λ _. (refl, refl))
              (at_key-Ordered new _ _ (λ _. (refl, refl)) o')))
      | inr e ↦ rw e (
          at_key-Ordered new _ _ (λ _. (refl, refl))
            (at_key-Ordered old _ _ (λ _. (refl, refl))
              (at_key-Ordered new mark_created _ (λ _. (refl, refl)) o')))
    ]

rename_in-Ordered :
    (old new : EventKey) (id : Bytes) (m : Events) → Ordered m → Ordered (rename_in old new id m)
unfolding rename_in
rename_in-Ordered old new id m o = elim (Option-cases (entry old m)) [
  | inl absent ↦ rw (absent, rename_in) (move_entry-Ordered old new id m o)
  | inr (e, present) ↦ elim (Bool-cases e.is_created) [
    | inl c ↦ rw (present, rename_in, c) (move_created-Ordered old new e.rename_id m o)
    | inr c ↦ rw (present, rename_in, c) (move_entry-Ordered old new id m o)
  ]
]

pub apply-Ordered : (c : Change) (l : EventList) → Ordered l.events → Ordered (apply c l).events
unfolding apply
apply-Ordered (creates p k) l o = create_in-Ordered (p, k) l.events o
apply-Ordered (updates p k) l o = internal_update-Ordered (p, k) l.events o
apply-Ordered (removes p k) l o = remove_in-Ordered (p, k) l.events o
apply-Ordered (renames p q id k) l o = rename_in-Ordered (p, k) (q, k) id l.events o

-- Whatever calls a list gets, its map stays strictly sorted by its keys.
pub apply_all-Ordered :
    (cs : List Change) (l : EventList) → Ordered l.events → Ordered (apply_all cs l).events
unfolding apply_all
apply_all-Ordered [] l o = o
apply_all-Ordered (c ∷ cs) l o = apply_all-Ordered cs (apply c l) (apply-Ordered c l o)
