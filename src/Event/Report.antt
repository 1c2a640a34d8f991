-- ===== src/Event/Report.antt =====
-- What a drained batch of src/Event.hh reports of a path is the net change of the filesystem.
use mathlib.Core.Logic.{ite}
use native_watcher.Base.{
  ◌≡◌, ◌&&◌, inl, inr, refl, Bool, true, false, Option, none, some, List, [], ◌∷◌, map, arith, find,
  keep, if◌then◌else◌, Option-cases,
}
use native_watcher.Event.{
  Event, EventKey, EventKey-discrete, Events, EventList, EventType, create_type, delete_type,
  update_type, event_type,
}
use native_watcher.Event.Drain.{Parts, settle, reported, drain}
use native_watcher.Event.Entries.{entry}
use native_watcher.Event.Shape.{Ordered, entry_of_Above, apply_all-Ordered}
use native_watcher.Event.Net.{
  World, Change, TracksEntry, AllPossible, changed_by, after_all, apply_all, apply_all-Tracks,
}

-- The type of the event that a batch holds for a path and a kind.
unfoldable pub type_at : EventKey → List Event → Option EventType
type_at k [] = none
type_at k (e ∷ es) = ite (EventKey-discrete (e.path, e.kind) k) (some (event_type e)) (type_at k es)

abbrev report : Option Event → Option EventType
report none = none
report (some e) = if reported e then some (event_type e) else none

settle_flags :
    (ps : Parts) (e : Event)
    → ((settle ps e).path ≡ e.path)
      × ((settle ps e).kind ≡ e.kind)
      × (event_type (settle ps e) ≡ event_type e)
unfolding settle event_type
settle_flags ps e = elim (Option-cases e.rename_id) [
  | inl n ↦ ground arith
  | inr (id, s) ↦ ground arith
]

type_at-settle :
    (k : EventKey) (ps : Parts) (m : Events)
    → Ordered m
    → type_at k (map (settle ps) (keep reported (map (λ (e : EventKey × Event). e.1) m)))
      ≡ report (entry k m)
unfolding type_at find keep
type_at-settle k ps [] o = refl
type_at-settle k ps ((j, e) ∷ m) o =
    ground (arith, settle_flags ps e, type_at-settle k ps m o.3, entry_of_Above j m o.2)

-- What a batch must say of a key that existed before or not, exists now or not, and is of one of
-- the changes or not.
abbrev pub Nets : Bool → Bool → Bool → Option EventType → Type 0
Nets false false changed r = r ≡ none
Nets false true changed r = r ≡ some create_type
Nets true false changed r = r ≡ some delete_type
Nets true true false r = r ≡ none
Nets true true true r = r ≡ some update_type

abbrev pub no_events : EventList
no_events = record { events = []; error = none }

report_nets : (b n c : Bool) (o : Option Event) → TracksEntry b n c o → Nets b n c (report o)
unfolding event_type
report_nets false false c o t = elim (Option-cases o) [
  | inl e ↦ ground arith
  | inr (v, e) ↦ ground arith
]
report_nets false true c o t = elim (Option-cases o) [
  | inl e ↦ ground arith
  | inr (v, e) ↦ ground arith
]
report_nets true false c o t = elim (Option-cases o) [
  | inl e ↦ ground arith
  | inr (v, e) ↦ ground arith
]
report_nets true true true o t = elim (Option-cases o) [
  | inl e ↦ ground arith
  | inr (v, e) ↦ ground arith
]
report_nets true true false o t = elim (Option-cases o) [
  | inl e ↦ ground arith
  | inr (v, e) ↦ ground arith
]

none_named : (w : World) (k : EventKey) → (w k && false) ≡ false
none_named w k = ground arith

-- Take changes of which each creates or renames to a key that does not exist at that moment, or
-- updates, removes or renames from one that does. In the batch of them, a key that is new has a
-- create, one that is gone a delete, one that came and went nothing, and one that existed before and
-- still does has an update if a change names it, and otherwise nothing.
pub drain_net :
    (before : World) (cs : List Change) (k : EventKey)
    → AllPossible cs before
    → Nets
        (before k)
        (after_all cs before k)
        (changed_by cs k)
        (type_at k (drain (apply_all cs no_events)).0.events)
unfolding drain find
drain_net before cs k h =
    let l = apply_all cs no_events in
    let o : Ordered l.events = apply_all-Ordered cs no_events tt in
    let t : TracksEntry (before k) (after_all cs before k) (changed_by cs k) (entry k l.events) =
      apply_all-Tracks before before (λ j. false) cs no_events h (λ j. (refl, none_named before j))
        k in
    rw (type_at-settle k _ l.events o) (report_nets _ _ _ (entry k l.events) t)
