-- ===== src/Inotify/Expired.antt =====
-- src/linux/InotifyBackend.cc: which moves `flushExpiredMoves` ends, and what it reports of them.
use native_watcher.Base.{
  ℕ, ◌+◌, ◌≡◌, refl, sym, ◌∙◌, ap, Bool, true, false, not, ◌&&◌, ◌||◌, Option, none, some, List, [],
  ◌∷◌, Bytes, ◌==◌, leb, if◌then◌else◌, arith, Bool-cases, inl, inr, any, keep, bytes_eq,
  bytes_eq-ne, eq_of_bytes_eq,
}
use native_watcher.Event.{
  Event, EventKey, EventList, EntryKind, remove, entry_kind, file, directory, mark_deleted, with_id,
}
use native_watcher.Event.Entries.{entry, or_new}
use native_watcher.DirTree.{DirEntry, DirTree, find_entry}
use native_watcher.DirTree.Changes.{entry-remove, key_test, gone, gone_elsewhere, holds, is_kind}
use native_watcher.Inotify.{PendingMove, PendingMoves, MoveKey}
use native_watcher.Inotify.Sets.{member}
use native_watcher.Inotify.Covered.{Covered, remove_moved-Covered, member_same}
use native_watcher.Inotify.Session.{
  Session, insert, is_expired, same_kind, report_expired, expire, flush_loop, flush_expired_moves,
}

expire-Covered :
    (move : PendingMove) (s : Session) → Covered s.inotify → Covered (expire move s).inotify
unfolding expire
expire-Covered move s c = elim (Bool-cases move.is_directory) [
  | inl d ↦ rw (expire, d, if◌then◌else◌) (remove_moved-Covered move s.inotify c)
  | inr d ↦ rw (expire, d, if◌then◌else◌) c
]

-- Whether a move has waited for 100 milliseconds.
abbrev pub has_waited : ℕ → PendingMove → Bool
has_waited now move = leb (move.created_at + 100) now

abbrev pub waiting : ℕ → PendingMoves → PendingMoves
waiting now moves = keep (λ (e : MoveKey × PendingMove). not (has_waited now e.1)) moves

abbrev pub has_expired : ℕ → ℕ → PendingMoves → Bool
has_expired now watcher moves =
    any (λ (e : MoveKey × PendingMove). has_waited now e.1 && e.1.watcher == watcher) moves

-- Whether the entries have the path and the kind, and the tree has not.
abbrev pub lost_in : DirTree → EventKey → List DirEntry → Bool
lost_in t k es =
    any
      (λ (e : DirEntry).
        bytes_eq e.path k.0 && is_kind k.1 e.is_dir && not (holds k (find_entry k.0 t)))
      es

-- Whether a move of the watcher that has waited lost the path and the kind.
abbrev pub lost : ℕ → ℕ → (ℕ → DirTree) → EventKey → PendingMoves → Bool
lost now watcher trees k moves =
    any
      (λ (e : MoveKey × PendingMove).
        has_waited now e.1 && e.1.watcher == watcher && lost_in (trees e.1.tree) k e.1.entries)
      moves

abbrev pub says_deleted : Option Event → Bool
says_deleted none = false
says_deleted (some e) = e.is_deleted

is_expired_lem : (now : ℕ) (move : PendingMove) → is_expired now move ≡ has_waited now move
is_expired_lem now move = ground arith

says_deleted-remove :
    (k : EventKey) (e : DirEntry) (l : EventList)
    → says_deleted (entry k (remove e.path (entry_kind e.is_dir) l).events)
      ≡ ((bytes_eq e.path k.0 && is_kind k.1 e.is_dir) || says_deleted (entry k l.events))
unfolding gone
says_deleted-remove k e l = elim (Bool-cases (bytes_eq e.path k.0)) [
  | inl y ↦
      let before = entry k l.events in
      ground (
        arith,
        entry-remove k e l,
        key_test e.path e.is_dir k (some (with_id none (mark_deleted (or_new k before)))) before
            (eq_of_bytes_eq e.path k.0 y),
        y,
      )
  | inr n ↦
      ap says_deleted
        (entry-remove k e l ∙ gone_elsewhere k e (entry k l.events) (bytes_eq-ne e.path k.0 n))
      ∙ ground (arith, n)
]

same_kind_lem :
    (o : Option DirEntry) (e : DirEntry) (p : Bytes) (kind : EntryKind)
    → is_kind kind e.is_dir ≡ true
    → same_kind o e ≡ holds (p, kind) o
same_kind_lem none e p kind h = refl
same_kind_lem (some r) e p file h = ground (arith, h)
same_kind_lem (some r) e p directory h = ground (arith, h)

found_again :
    (t : DirTree) (k : EventKey) (e : DirEntry)
    → bytes_eq e.path k.0 ≡ true
    → is_kind k.1 e.is_dir ≡ true
    → same_kind (find_entry e.path t) e ≡ holds k (find_entry k.0 t)
found_again t k e y h =
    ap (λ p. same_kind (find_entry p t) e) (eq_of_bytes_eq e.path k.0 y)
    ∙ same_kind_lem (find_entry k.0 t) e k.0 k.1 h

abbrev step_of : DirTree → DirEntry → EventList → EventList
step_of t e l =
    if same_kind (find_entry e.path t) e then l else remove e.path (entry_kind e.is_dir) l

one_expired :
    (t : DirTree) (k : EventKey) (e : DirEntry) (l : EventList)
    → says_deleted (entry k (step_of t e l).events) ≡ (
        (bytes_eq e.path k.0 && is_kind k.1 e.is_dir && not (holds k (find_entry k.0 t)))
        || says_deleted (entry k l.events))
one_expired t k e l = ground (arith, found_again t k e, says_deleted-remove k e l)

report_expired_lem :
    (t : DirTree) (k : EventKey) (es : List DirEntry) (l : EventList)
    → says_deleted (entry k (report_expired t es l).events)
      ≡ (lost_in t k es || says_deleted (entry k l.events))
unfolding report_expired any
report_expired_lem t k [] l = refl
report_expired_lem t k (e ∷ es) l =
    ground (arith, report_expired_lem t k es (step_of t e l), one_expired t k e l)

expire_lem :
    (now w : ℕ) (k : EventKey) (move : PendingMove) (s : Session)
    → says_deleted (entry k ((expire move s).events w).events) ≡ (
        (move.watcher == w && lost_in (s.trees move.tree) k move.entries)
        || says_deleted (entry k (s.events w).events))
unfolding expire
expire_lem now w k move s =
    ground (arith, report_expired_lem (s.trees move.tree) k move.entries (s.events w))

expire_trees : (move : PendingMove) (s : Session) → (expire move s).trees ≡ s.trees
unfolding expire
expire_trees move s = ground arith

member-insert : (d w : ℕ) (ws : List ℕ) → member d (insert w ws) ≡ (w == d || member d ws)
unfolding member insert
member-insert d w ws = ground (arith, member_same d w ws)

-- What the loop leaves.
record Flushed (now : ℕ) (moves : PendingMoves) (watchers : List ℕ) (s : Session)
    (r : PendingMoves × List ℕ × Session) : Type 0 where
  pub left : r.0 ≡ waiting now moves
  pub noted : (w : ℕ) → member w r.1 ≡ (has_expired now w moves || member w watchers)
  pub told :
      (w : ℕ) (k : EventKey)
      → says_deleted (entry k (r.2.events w).events)
        ≡ (lost now w s.trees k moves || says_deleted (entry k (s.events w).events))
  pub covered : Covered r.2.inotify

flush_loop-Flushed :
    (now : ℕ) (moves : PendingMoves) (watchers : List ℕ) (s : Session)
    → Covered s.inotify
    → Flushed now moves watchers s (flush_loop now moves watchers s)
unfolding flush_loop keep any
flush_loop-Flushed now [] watchers s c = record {
  left = refl;
  noted = λ w. refl;
  told = λ w k. refl;
  covered = c;
}
flush_loop-Flushed now ((k, move) ∷ moves) watchers s c =
    let same = is_expired_lem now move in
    elim (Bool-cases (is_expired now move)) [
      | inl e ↦
          let ih =
            flush_loop-Flushed now moves (insert move.watcher watchers) (expire move s)
              (expire-Covered move s c) in
          let over : has_waited now move ≡ true = sym same ∙ e in
          rw (flush_loop, e)
            (record {
              left = ground (arith, ih.left, over);
              noted = λ w. ground (arith, ih.noted w, member-insert w move.watcher watchers, over);
              told = λ w j.
                  ground (arith, ih.told w j, expire_lem now w j move s, expire_trees move s, over);
              covered = ih.covered;
            })
      | inr e ↦
          let ih = flush_loop-Flushed now moves watchers s c in
          let young : has_waited now move ≡ false = sym same ∙ e in
          rw (flush_loop, e)
            (record {
              left = ground (arith, ih.left, young);
              noted = λ w. ground (arith, ih.noted w, young);
              told = λ w j. ground (arith, ih.told w j, young);
              covered = ih.covered;
            })
    ]

-- With the watches covered, `flushExpiredMoves` keeps the pending moves that have not waited for 100
-- milliseconds, in their order, and no other, and notifies exactly the watchers of the others. A path
-- and a kind is then deleted in the events of a watcher if it was before, or if one of these moves of
-- the watcher has it and the tree of the move has it not. The watches stay covered.
pub flush_expired_moves_lem :
    (now : ℕ) (s : Session)
    → Covered s.inotify
    → ((flush_expired_moves now s).0.inotify.pending_moves ≡ waiting now s.inotify.pending_moves)
      × ((w : ℕ)
          → member w (flush_expired_moves now s).1 ≡ has_expired now w s.inotify.pending_moves)
      × ((w : ℕ) (k : EventKey)
          → says_deleted (entry k ((flush_expired_moves now s).0.events w).events) ≡ (
              lost now w s.trees k s.inotify.pending_moves
              || says_deleted (entry k (s.events w).events)))
      × Covered (flush_expired_moves now s).0.inotify
unfolding flush_expired_moves member
flush_expired_moves_lem now s c =
    let f = flush_loop-Flushed now s.inotify.pending_moves [] s c in
    (f.left, λ w. ground (arith, f.noted w), f.told, f.covered)
