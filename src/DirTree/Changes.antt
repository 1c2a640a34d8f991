-- ===== src/DirTree/Changes.antt =====
-- src/DirTree.cc: the events of `getChanges` are the difference of the two trees.
use mathlib.Core.Logic.{ite}
use native_watcher.Base.{
  ◌≡◌, refl, ap, ℕ, ◌||◌, sym, ◌∙◌, Bool, true, false, not, ◌&&◌, inl, inr, Option, none, some, [],
  ◌∷◌, arith, Bytes, Bytes-discrete, ◌==◌, if◌then◌else◌, find, has_value, Bool-cases,
}
use native_watcher.Event.{
  Event, EventKey, EventKey-discrete, EventList, EntryKind, file, directory, mark_created,
  entry_kind, create, update, remove, new_event, with_id, mark_deleted,
}
use native_watcher.Event.Entries.{
  entry, or_new, created_entry, entry-create_in, entry-internal_update, entry-remove_in,
}
use native_watcher.Event.Report.{no_events}
use native_watcher.DirTree.{
  DirEntry, Entries, DirTree, note_entry, note_entries, note_removed, get_changes, find_entry,
}
use native_watcher.DirTree.Shape.{Keyed}

abbrev pub same_key : EventKey → EventKey → Option Event → Option Event → Option Event
same_key k j there before = ite (EventKey-discrete k j) there before

-- The entry that `note_entry` leaves at a key.
unfoldable pub noted : EventKey → DirEntry → Option DirEntry → Option Event → Option Event
noted k e none before =
    ite (EventKey-discrete (e.path, entry_kind e.is_dir) k) (some (created_entry (or_new k before)))
      before
noted k e (some old) before =
    if not (old.mtime == e.mtime) && not old.is_dir && not e.is_dir
    then ite (EventKey-discrete (e.path, file) k) (some (or_new k before)) before
    else before

entry-note_entry :
    (k : EventKey) (e : DirEntry) (o : Option DirEntry) (l : EventList)
    → entry k (note_entry e o l).events ≡ noted k e o (entry k l.events)
unfolding note_entry noted create update
entry-note_entry k e none l =
    ground (arith, entry-create_in (e.path, entry_kind e.is_dir) k l.events)
entry-note_entry k e (some old) l = ground (arith, entry-internal_update (e.path, file) k l.events)

noted_elsewhere :
    (k : EventKey) (e : DirEntry) (o : Option DirEntry) (before : Option Event)
    → ¬ (e.path ≡ k.0)
    → noted k e o before ≡ before
unfolding noted
noted_elsewhere k e none before h =
    ground (arith, λ (q : (e.path, entry_kind e.is_dir) ≡ k). h (λ i. (q i).0))
noted_elsewhere k e (some old) before h =
    ground (arith, λ (q : (e.path, file) ≡ k). h (λ i. (q i).0))

abbrev first_loop : EventKey → Option DirEntry → Option DirEntry → Option Event → Option Event
first_loop k none o before = before
first_loop k (some e) o before = noted k e o before

entry-note_entries :
    (k : EventKey) (snapshot m : Entries) (l : EventList)
    → Keyed m
    → entry k (note_entries snapshot m l).events
      ≡ first_loop k
          (find Bytes-discrete k.0 m)
          (find Bytes-discrete k.0 snapshot)
          (entry k l.events)
unfolding note_entries find
entry-note_entries k snapshot [] l h = refl
entry-note_entries k snapshot ((j, e) ∷ m) l h =
    let o = find Bytes-discrete j snapshot in
    let ih = entry-note_entries k snapshot m (note_entry e o l) h.2 in
    let one = entry-note_entry k e o l in
    elim (Bytes-discrete j k.0) [
      | yes s ↦ ground (
        arith,
        ih,
        one,
        h.1,
        s,
        ap (λ (x : Bytes). find Bytes-discrete x m) s,
        ap (λ (x : Bytes). find Bytes-discrete x snapshot) s,
      )
      | no n ↦
          ground
            (arith, ih, one, n, noted_elsewhere k e o (entry k l.events) (λ q. n (sym h.0 ∙ q)))
    ]

-- The entry that the second loop leaves at a key, of an entry that is in the snapshot only.
unfoldable pub gone : EventKey → Option DirEntry → Option Event → Option Event
gone k none before = before
gone k (some e) before =
    ite (EventKey-discrete (e.path, entry_kind e.is_dir) k)
      (some (with_id none (mark_deleted (or_new k before)))) before

pub entry-remove :
    (k : EventKey) (e : DirEntry) (l : EventList)
    → entry k (remove e.path (entry_kind e.is_dir) l).events ≡ gone k (some e) (entry k l.events)
unfolding remove gone
entry-remove k e l = ground (arith, entry-remove_in (e.path, entry_kind e.is_dir) k l.events)

pub gone_elsewhere :
    (k : EventKey) (e : DirEntry) (before : Option Event)
    → ¬ (e.path ≡ k.0)
    → gone k (some e) before ≡ before
unfolding gone
gone_elsewhere k e before h =
    ground (arith, λ (q : (e.path, entry_kind e.is_dir) ≡ k). h (λ i. (q i).0))

entry-note_removed :
    (k : EventKey) (now m : Entries) (l : EventList)
    → Keyed m
    → entry k (note_removed now m l).events ≡ (
        if has_value (find Bytes-discrete k.0 now)
        then entry k l.events
        else gone k (find Bytes-discrete k.0 m) (entry k l.events))
unfolding note_removed find gone
entry-note_removed k now [] l h = ground arith
entry-note_removed k now ((j, e) ∷ m) l h =
    elim (Bool-cases (has_value (find Bytes-discrete j now))) [
      | inl there ↦
          let ih = entry-note_removed k now m l h.2 in
          rw (note_removed, there)
            (elim (Bytes-discrete j k.0) [
              | yes s ↦
                  ground (arith, ih, there, s, ap (λ (x : Bytes). find Bytes-discrete x now) s)
              | no n ↦ ground (arith, ih, n)
            ])
      | inr left ↦
          let ih = entry-note_removed k now m (remove e.path (entry_kind e.is_dir) l) h.2 in
          let one = entry-remove k e l in
          rw (note_removed, left)
            (elim (Bytes-discrete j k.0) [
              | yes s ↦ ground (
                arith,
                ih,
                one,
                h.1,
                left,
                s,
                ap (λ (x : Bytes). find Bytes-discrete x now) s,
                ap (λ (x : Bytes). find Bytes-discrete x m) s,
              )
              | no n ↦
                  ground (
                    arith,
                    ih,
                    one,
                    n,
                    gone_elsewhere k e (entry k l.events) (λ q. n (sym h.0 ∙ q)),
                  )
            ])
    ]

abbrev pub is_kind : EntryKind → Bool → Bool
is_kind file is_dir = not is_dir
is_kind directory is_dir = is_dir

-- What both loops leave at a path and a kind, by their branches.
unfoldable noted_change : EventKey → Option DirEntry → Option DirEntry → Option Event
noted_change k none none = none
noted_change k (some e) none =
    if is_kind k.1 e.is_dir then some (mark_created (new_event k.0 k.1)) else none
noted_change k none (some old) =
    if is_kind k.1 old.is_dir then some (mark_deleted (new_event k.0 k.1)) else none
noted_change k (some e) (some old) =
    if not (old.mtime == e.mtime) && not old.is_dir && not e.is_dir && is_kind k.1 false
    then some (new_event k.0 k.1)
    else none

same_test : (j k : EventKey) (x y : Option Event) → j ≡ k → ite (EventKey-discrete j k) x y ≡ x
same_test j k x y h = ground (arith, h)

pub key_test :
    (p : Bytes) (d : Bool) (k : EventKey) (x y : Option Event)
    → p ≡ k.0
    → ite (EventKey-discrete (p, entry_kind d) k) x y ≡ (if is_kind k.1 d then x else y)
unfolding EventKey-discrete entry_kind
key_test p true (q, file) x y h = ground arith
key_test p false (q, file) x y h = same_test (p, file) (q, file) x y (λ i. (h i, file))
key_test p true (q, directory) x y h =
    same_test (p, directory) (q, directory) x y (λ i. (h i, directory))
key_test p false (q, directory) x y h = ground arith

found_path :
    (p : Bytes) (e : DirEntry) (m : Entries)
    → Keyed m
    → find Bytes-discrete p m ≡ some e
    → e.path ≡ p
unfolding find
found_path p e [] h f = cc
found_path p e ((j, d) ∷ m) h f = elim (Bytes-discrete j p) [
  | yes s ↦ ground (arith, f, h.0, s)
  | no n ↦ found_path p e m h.2 (ground (arith, f, n))
]

-- What both loops leave, by what the trees hold.
both_loops :
    (k : EventKey) (o p : Option DirEntry)
    → ((e : DirEntry) → o ≡ some e → e.path ≡ k.0)
    → ((e : DirEntry) → p ≡ some e → e.path ≡ k.0)
    → (if has_value o then first_loop k o p none else gone k p (first_loop k o p none))
      ≡ noted_change k o p
unfolding noted_change noted gone created_entry new_event
both_loops k none none h g = refl
both_loops k (some e) none h g = key_test e.path e.is_dir k _ none (h e refl)
both_loops k none (some old) h g = key_test old.path old.is_dir k _ none (g old refl)
both_loops k (some e) (some old) h g =
    ground (arith, key_test e.path false k (some (new_event k.0 k.1)) none (h e refl))

-- Whether a tree has an entry of the kind at the path.
abbrev pub holds : EventKey → Option DirEntry → Bool
holds k none = false
holds k (some e) = is_kind k.1 e.is_dir

abbrev pub time_of : Option DirEntry → ℕ
time_of none = 0
time_of (some e) = e.mtime

-- Whether a path is a file in one of two trees and a directory in the other.
abbrev pub kind_changed : Bytes → Option DirEntry → Option DirEntry → Bool
kind_changed p new old =
    (holds (p, file) new && holds (p, directory) old)
    || (holds (p, directory) new && holds (p, file) old)

-- The event of a path and a kind, from a new and an old tree.
abbrev pub difference : EventKey → Option DirEntry → Option DirEntry → Option Event
difference k new old =
    if kind_changed k.0 new old
    then none
    else if holds k new && not (holds k old)
    then some (mark_created (new_event k.0 k.1))
    else if holds k old && not (holds k new)
    then some (mark_deleted (new_event k.0 k.1))
    else if holds k new && is_kind k.1 false && not (time_of new == time_of old)
    then some (new_event k.0 k.1)
    else none

noted_change_lem :
    (p : Bytes) (kind : EntryKind) (new old : Option DirEntry)
    → noted_change (p, kind) new old ≡ difference (p, kind) new old
unfolding noted_change
noted_change_lem p kind none none = ground arith
noted_change_lem p file (some e) none = ground arith
noted_change_lem p directory (some e) none = ground arith
noted_change_lem p file none (some d) = ground arith
noted_change_lem p directory none (some d) = ground arith
noted_change_lem p file (some e) (some d) = ground arith
noted_change_lem p directory (some e) (some d) = ground arith

-- In two trees whose entries stand under their own paths, `getChanges` puts this and nothing else
-- into an empty list: an entry that only the new tree has is created, one that only the old tree has
-- is deleted, and a file of both with another time is updated. A path that is a file in one tree and
-- a directory in the other has no event of either kind.
pub get_changes_lem :
    (t snapshot : DirTree) (k : EventKey)
    → Keyed t.entries
    → Keyed snapshot.entries
    → entry k (get_changes t snapshot no_events).events
      ≡ difference k (find_entry k.0 t) (find_entry k.0 snapshot)
unfolding get_changes find
get_changes_lem t snapshot k ht hs =
    let l = note_entries snapshot.entries t.entries no_events in
    entry-note_removed k t.entries snapshot.entries l hs
    ∙ ap (λ x. if has_value (find_entry k.0 t) then x else gone k (find_entry k.0 snapshot) x)
        (entry-note_entries k snapshot.entries t.entries no_events ht)
    ∙ both_loops k (find_entry k.0 t) (find_entry k.0 snapshot)
        (λ e f. found_path k.0 e t.entries ht f) (λ e f. found_path k.0 e snapshot.entries hs f)
    ∙ noted_change_lem k.0 k.1 (find_entry k.0 t) (find_entry k.0 snapshot)
