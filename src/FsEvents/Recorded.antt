-- ===== src/FsEvents/Recorded.antt =====
-- src/macos/FSEventsBackend.cc: what `recordCreatedPath` leaves in both indexes.
use mathlib.Core.Logic.{if_pos}
use native_watcher.Base.{
  ℕ, ◌≡◌, refl, ◌∙◌, Bool, true, false, Option, none, some, arith, Bytes, Bytes-discrete,
  find-emplace, find-modify, Option-cases, inl, inr, bytes_eq_refl, if-holds,
}
use native_watcher.DirTree.{DirEntry, DirTree, find_entry, add, update_entry, remove_path}
use native_watcher.DirTree.Moves.{find-remove_path}
use native_watcher.IdentityIndex.{
  IndexedPath, IdentityIndex, find_indexed, add_indexed, remove_exact,
}
use native_watcher.IdentityIndex.Agreement.{find-remove_exact}
use native_watcher.FsEvents.{
  State, on_tree, remove_known, remove_indexed_path, same_kind, is_same, is_type_changed, cleared,
  index_path, record_created_path,
}

pub find-add_indexed :
    (path : Bytes) (e : IndexedPath) (x : IdentityIndex)
    → find_indexed path (add_indexed path e x) ≡ some e
unfolding add_indexed
find-add_indexed path e x =
    rw
      (
        find-emplace Bytes-discrete path path e (remove_exact path x).by_path,
        if_pos (Bytes-discrete path path) refl,
        find-remove_exact path x,
      )
      refl

-- The tree has an entry for a path that is as an indexed one.
abbrev pub HasEntry : Bytes → IndexedPath → DirTree → Type 0
HasEntry path e t =
    (d : DirEntry) × (find_entry path t ≡ some d)
    × (d.mtime ≡ e.mtime)
    × (d.is_dir ≡ e.is_directory)

pub find-add :
    (path : Bytes) (mtime : ℕ) (is_dir : Bool) (t : DirTree)
    → find_entry path t ≡ none
    → find_entry path (add path mtime is_dir t)
      ≡ some (record { path = path; mtime = mtime; is_dir = is_dir })
unfolding add
find-add path mtime is_dir t n =
    rw
      (find-emplace Bytes-discrete path path _ t.entries, if_pos (Bytes-discrete path path) refl, n)
      refl

find-update_entry :
    (path : Bytes) (mtime : ℕ) (t : DirTree) (d : DirEntry)
    → find_entry path t ≡ some d
    → find_entry path (update_entry path mtime t).0 ≡ some (record d { mtime = mtime })
unfolding update_entry
find-update_entry path mtime t d h =
    rw (update_entry, h)
      (rw
        (
          find-modify Bytes-discrete path path _ t.entries,
          if_pos (Bytes-discrete path path) refl,
          h,
        )
        refl)

-- Nothing is updated where there is no entry.
update_entry_missing :
    (path : Bytes) (mtime : ℕ) (t : DirTree)
    → find_entry path t ≡ none
    → update_entry path mtime t ≡ (t, false)
unfolding update_entry
update_entry_missing path mtime t n = rw (update_entry, n) refl

update_entry_there :
    (path : Bytes) (mtime : ℕ) (t : DirTree) (d : DirEntry)
    → find_entry path t ≡ some d
    → (update_entry path mtime t).1 ≡ true
unfolding update_entry
update_entry_there path mtime t d h = rw (update_entry, h) refl

index_path-HasEntry :
    (path : Bytes) (e : IndexedPath) (s : State)
    → ((d : DirEntry) → find_entry path s.tree ≡ some d → d.is_dir ≡ e.is_directory)
    → HasEntry path e (index_path path e s).tree
unfolding index_path
index_path-HasEntry path e s k = elim (Option-cases (find_entry path s.tree)) [
  | inl n ↦
      rw (index_path, update_entry_missing path e.mtime s.tree n)
        (
          record { path = path; mtime = e.mtime; is_dir = e.is_directory },
          find-add path e.mtime e.is_directory s.tree n,
          refl,
          refl,
        )
  | inr (d, h) ↦
      rw (index_path, update_entry_there path e.mtime s.tree d h)
        (record d { mtime = e.mtime }, find-update_entry path e.mtime s.tree d h, refl, k d h)
]

index_path-find :
    (path : Bytes) (e : IndexedPath) (s : State)
    → find_indexed path (index_path path e s).identities ≡ some e
unfolding index_path
index_path-find path e s = find-add_indexed path e s.identities

no_entry_left : (path : Bytes) (t : DirTree) → find_entry path (remove_path path t) ≡ none
no_entry_left path t = rw (find-remove_path path path t, bytes_eq_refl path) refl

-- A known path is gone from the tree.
remove_known-find :
    (path : Bytes) (b : IndexedPath) (s : State)
    → find_entry path (remove_known path (some b) s).tree ≡ none
remove_known-find path b s =
    if-holds (λ (s : State). find_entry path s.tree ≡ none) b.is_directory
      (λ y. no_entry_left path s.tree) (λ n. no_entry_left path s.tree)

-- The tree has no entry of another kind than the index, at a path.
abbrev pub SameKind : Bytes → State → Type 0
SameKind path s =
    (d : DirEntry) (b : IndexedPath)
    → find_entry path s.tree ≡ some d
    → find_indexed path s.identities ≡ some b
    → d.is_dir ≡ b.is_directory

same_directory : (b e : IndexedPath) → same_kind b e ≡ true → b.is_directory ≡ e.is_directory
same_directory b e h = ground arith

kind_of_unchanged : (b e : IndexedPath) → is_type_changed (some b) e ≡ false → same_kind b e ≡ true
kind_of_unchanged b e h = ground arith

-- An entry at the path has the kind that it is to have.
abbrev HasKind : Bytes → IndexedPath → State → Type 0
HasKind path e s = (d : DirEntry) → find_entry path s.tree ≡ some d → d.is_dir ≡ e.is_directory

missing-HasKind :
    (path : Bytes) (e : IndexedPath) (s : State) → find_entry path s.tree ≡ none → HasKind path e s
missing-HasKind path e s n d h = cc

remove_indexed_path-HasKind :
    (path : Bytes) (b e : IndexedPath) (s : State)
    → find_indexed path s.identities ≡ some b
    → HasKind path e (remove_indexed_path path s)
unfolding remove_indexed_path
remove_indexed_path-HasKind path b e s q =
    missing-HasKind path e (remove_indexed_path path s)
      (rw (remove_indexed_path, q) (remove_known-find path b s))

cleared-HasKind :
    (path : Bytes) (e : IndexedPath) (s : State) (o : Option IndexedPath)
    → find_indexed path s.identities ≡ o
    → SameKind path s
    → HasKind path e (cleared path o e s)
cleared-HasKind path e s none q k =
    missing-HasKind path e (on_tree (remove_path path) s) (no_entry_left path s.tree)
cleared-HasKind path e s (some b) q k =
    if-holds (HasKind path e) (is_type_changed (some b) e)
      (λ y. remove_indexed_path-HasKind path b e s q)
      (λ n.
        if-holds (HasKind path e) (is_same (some b) e)
          (λ y d h. k d b h q ∙ same_directory b e (kind_of_unchanged b e n))
          (λ m. missing-HasKind path e (on_tree (remove_path path) s) (no_entry_left path s.tree)))

-- Where the indexes do not differ in the kind of a path, both have the entry of a path that was created
-- afterwards, whatever they had before: the path with its identity, the tree with its time and kind.
pub record_created_path_lem :
    (path : Bytes) (e : IndexedPath) (s : State)
    → SameKind path s
    → (find_indexed path (record_created_path path e s).identities ≡ some e)
      × HasEntry path e (record_created_path path e s).tree
unfolding record_created_path
record_created_path_lem path e s k =
    let previous = find_indexed path s.identities in
    let before = cleared path previous e s in
    (
      index_path-find path e before,
      index_path-HasEntry path e before (cleared-HasKind path e s previous refl k),
    )
