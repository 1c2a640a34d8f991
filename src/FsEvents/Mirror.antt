-- ===== src/FsEvents/Mirror.antt =====
-- src/macos/FSEventsBackend.cc: after a scan of the whole tree, its two indexes say the same.
use mathlib.Core.Logic.{if_neg}
use native_watcher.Base.{
  ℕ, ◌≡◌, refl, sym, ◌∙◌, Bool, true, false, Option, none, some, List, [], ◌∷◌, arith, Bytes,
  Bytes-discrete, find, find-emplace, find-erase, Option-cases, inl, inr,
}
use native_watcher.DirTree.{DirEntry, DirTree, find_entry, new_tree, add}
use native_watcher.IdentityIndex.{
  IndexedPath, IdentityIndex, find_indexed, remove_exact, add_indexed, add_each,
}
use native_watcher.IdentityIndex.Agreement.{empty_index}
use native_watcher.FsEvents.Recorded.{find-add, find-add_indexed}
use native_watcher.FsEvents.{State, MacFiles, Scanned, finished, cancelled, failed, scan}
use native_watcher.FsEvents.Reconcile.{tree_of, take_scan, reconcile_full_tree}

-- The time and the kind of a path, in each index.
abbrev pub tree_says : Option DirEntry → Option (ℕ × Bool)
tree_says none = none
tree_says (some d) = some (d.mtime, d.is_dir)

abbrev pub index_says : Option IndexedPath → Option (ℕ × Bool)
index_says none = none
index_says (some e) = some (e.mtime, e.is_directory)

abbrev pub Mirrors : DirTree → IdentityIndex → Type 0
Mirrors t x = (q : Bytes) → tree_says (find_entry q t) ≡ index_says (find_indexed q x)

-- No path is visited twice.
abbrev pub IsDistinct : List (Bytes × IndexedPath) → Type 0
IsDistinct [] = Unit
IsDistinct ((p, e) ∷ visited) = (find Bytes-discrete p visited ≡ none) × IsDistinct visited

-- No path is in the tree yet.
abbrev IsFresh : List (Bytes × IndexedPath) → DirTree → Type 0
IsFresh [] t = Unit
IsFresh ((p, e) ∷ visited) t = (find_entry p t ≡ none) × IsFresh visited t

find-remove_exact_other :
    (p q : Bytes) (x : IdentityIndex)
    → ¬ (p ≡ q)
    → find_indexed q (remove_exact p x) ≡ find_indexed q x
unfolding remove_exact
find-remove_exact_other p q x n = elim (Option-cases (find_indexed p x)) [
  | inl m ↦ rw (remove_exact, m) refl
  | inr (e, s) ↦
      rw (remove_exact, s, find-erase Bytes-discrete p q x.by_path, if_neg (Bytes-discrete p q) n)
        refl
]

find-add_other :
    (p q : Bytes) (mtime : ℕ) (is_dir : Bool) (t : DirTree)
    → ¬ (p ≡ q)
    → find_entry q (add p mtime is_dir t) ≡ find_entry q t
unfolding add
find-add_other p q mtime is_dir t n =
    rw (find-emplace Bytes-discrete p q _ t.entries, if_neg (Bytes-discrete p q) n) refl

find-add_indexed_other :
    (p q : Bytes) (e : IndexedPath) (x : IdentityIndex)
    → ¬ (p ≡ q)
    → find_indexed q (add_indexed p e x) ≡ find_indexed q x
unfolding add_indexed
find-add_indexed_other p q e x n =
    rw
      (
        find-emplace Bytes-discrete p q e (remove_exact p x).by_path,
        if_neg (Bytes-discrete p q) n,
        find-remove_exact_other p q x n,
      )
      refl

-- A path that the tree has not is added to both.
add-Mirrors :
    (p : Bytes) (e : IndexedPath) (t : DirTree) (x : IdentityIndex)
    → find_entry p t ≡ none
    → Mirrors t x
    → Mirrors (add p e.mtime e.is_directory t) (add_indexed p e x)
add-Mirrors p e t x f m q = elim (Bytes-discrete p q) [
  | yes s ↦ rw (← s, find-add p e.mtime e.is_directory t f, find-add_indexed p e x) refl
  | no n ↦
      rw (find-add_other p q e.mtime e.is_directory t n, find-add_indexed_other p q e x n) (m q)
]

not_found :
    (p q : Bytes) (e : IndexedPath) (visited : List (Bytes × IndexedPath))
    → find Bytes-discrete p ((q, e) ∷ visited) ≡ none
    → (¬ (q ≡ p)) × (find Bytes-discrete p visited ≡ none)
unfolding find
not_found p q e visited h = elim (Bytes-discrete q p) [
  | yes s ↦ absurd (ground (arith, h, s))
  | no n ↦ (n, ground (arith, h, n))
]

-- What is left to visit stays fresh when another path is added.
add-IsFresh :
    (p : Bytes) (mtime : ℕ) (is_dir : Bool) (visited : List (Bytes × IndexedPath)) (t : DirTree)
    → find Bytes-discrete p visited ≡ none
    → IsFresh visited t
    → IsFresh visited (add p mtime is_dir t)
add-IsFresh p mtime is_dir [] t h f = tt
add-IsFresh p mtime is_dir ((q, e) ∷ visited) t h f =
    let (other, rest) = not_found p q e visited h in
    (
      find-add_other p q mtime is_dir t (λ s. other (sym s)) ∙ f.0,
      add-IsFresh p mtime is_dir visited t rest f.1,
    )

tree_of-Mirrors :
    (visited : List (Bytes × IndexedPath)) (t : DirTree) (x : IdentityIndex)
    → IsDistinct visited
    → IsFresh visited t
    → Mirrors t x
    → Mirrors (tree_of visited t) (add_each visited x)
unfolding tree_of add_each
tree_of-Mirrors [] t x d f m = m
tree_of-Mirrors ((p, e) ∷ visited) t x d f m =
    tree_of-Mirrors visited (add p e.mtime e.is_directory t) (add_indexed p e x) d.1
      (add-IsFresh p e.mtime e.is_directory visited t d.0 f.1) (add-Mirrors p e t x f.0 m)

new_tree-IsFresh :
    (dir : Bytes) (visited : List (Bytes × IndexedPath)) → IsFresh visited (new_tree dir)
unfolding new_tree find
new_tree-IsFresh dir [] = tt
new_tree-IsFresh dir ((p, e) ∷ visited) = (refl, new_tree-IsFresh dir visited)

nothing-Mirrors : (dir : Bytes) → Mirrors (new_tree dir) empty_index
unfolding new_tree find
nothing-Mirrors dir q = refl

take_scan-Mirrors :
    (is_cancelled : Bool) (dir : Bytes) (scanned : Scanned) (s : State)
    → is_cancelled ≡ false
    → scanned.1 ≡ finished
    → IsDistinct scanned.0
    → Mirrors
        (take_scan is_cancelled dir scanned s).0.tree
        (take_scan is_cancelled dir scanned s).0.identities
take_scan-Mirrors is_cancelled dir (visited, failed what) s c e d = cc
take_scan-Mirrors is_cancelled dir (visited, cancelled) s c e d = cc
take_scan-Mirrors true dir (visited, finished) s c e d = cc
take_scan-Mirrors false dir (visited, finished) s c e d =
    tree_of-Mirrors visited (new_tree dir) empty_index d (new_tree-IsFresh dir visited)
      (nothing-Mirrors dir)

-- After a reconciliation whose scan ends and visits no path twice, whatever the two indexes were: each
-- path is in both or in none, with the same time and kind.
pub reconcile_full_tree-Mirrors :
    (files : MacFiles) (dir : Bytes) (s : State)
    → files.is_cancelled ≡ false
    → (scan files dir).1 ≡ finished
    → IsDistinct (scan files dir).0
    → Mirrors
        (reconcile_full_tree files dir s).0.tree
        (reconcile_full_tree files dir s).0.identities
unfolding reconcile_full_tree
reconcile_full_tree-Mirrors files dir s c e d =
    take_scan-Mirrors files.is_cancelled dir (scan files dir) s c e d
