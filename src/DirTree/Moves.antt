-- ===== src/DirTree/Moves.antt =====
-- src/DirTree.cc: what `rename`, `extract` with `restore`, and `remove` leave at each path.
use native_watcher.Base.{
  ◌≡◌, refl, ap, sym, ◌∙◌, true, inl, inr, none, some, [], ◌∷◌, ◌++◌, arith, Bytes, Bytes-discrete,
  bytes_eq, starts_with, slash, if◌then◌else◌, find, assign, Bool-cases, drop, length, find-erase,
  find-assign, ◌&&◌, bytes_eq-ne, eq_of_bytes_eq, drop-append, starts_with-split, append_assoc,
  append-nil, drop_all,
}
use native_watcher.DirTree.{
  DirEntry, Entries, DirTree, within, taken, without, extract, moved_entry, moved_path, assign_all,
  restore_entries, restore, moved_entries, rename_path, remove_path, is_directory_entry, find_entry,
}
use native_watcher.DirTree.Shape.{Keyed, find-without}

assign_all-moved_entries :
    (old new : Bytes) (m base : Entries)
    → assign_all (moved_entries old new m) base
      ≡ restore_entries (taken (within old) m) old new base
unfolding assign_all moved_entries restore_entries taken
assign_all-moved_entries old new [] base = refl
assign_all-moved_entries old new ((k, e) ∷ m) base = elim (Bool-cases (within old k)) [
  | inl w ↦
      rw (w, if◌then◌else◌)
        (assign_all-moved_entries old new m
          (assign Bytes-discrete (moved_path old new e.path) (moved_entry old new e) base))
  | inr w ↦ rw (w, if◌then◌else◌) (assign_all-moved_entries old new m base)
]

-- A rename in one step leaves the tree that extracting the old path and restoring what came out
-- at the new path leaves.
pub rename_path-restore :
    (old new : Bytes) (t : DirTree)
    → rename_path old new t ≡ restore (extract old t).0 old new (extract old t).1
unfolding rename_path restore extract
rename_path-restore old new t =
    ap (λ (m : Entries). record t { entries = m })
      (assign_all-moved_entries old new t.entries (without (within old) t.entries))

-- A path within another one is that path with a rest.
within-split : (old p : Bytes) → within old p ≡ true → p ≡ old ++ drop (length old) p
unfolding within
within-split old p w = elim (Bool-cases (bytes_eq p old)) [
  | inl e ↦ rw (eq_of_bytes_eq p old e, drop_all old) (sym (append-nil old))
  | inr e ↦
      let s : starts_with p (old ++ slash ∷ []) ≡ true = ground arith in
      let rest = drop (length (old ++ slash ∷ [])) p in
      let q : p ≡ old ++ slash ∷ rest =
        starts_with-split p (old ++ slash ∷ []) s ∙ append_assoc old (slash ∷ []) rest in
      q ∙ ap (◌++◌ old) (sym (drop-append old (slash ∷ rest)) ∙ ap (drop (length old)) (sym q))
]

moved_path-injective :
    (old new p q : Bytes)
    → within old p ≡ true
    → within old q ≡ true
    → moved_path old new p ≡ moved_path old new q
    → p ≡ q
moved_path-injective old new p q wp wq e =
    let d : drop (length old) p ≡ drop (length old) q =
      sym (drop-append new _) ∙ ap (drop (length new)) e ∙ drop-append new _ in
    within-split old p wp ∙ ap (◌++◌ old) d ∙ sym (within-split old q wq)

find-assign_all-other :
    (old new p : Bytes) (m base : Entries)
    → Keyed m
    → within old p ≡ true
    → find Bytes-discrete p m ≡ none
    → find Bytes-discrete (moved_path old new p) (assign_all (moved_entries old new m) base)
      ≡ find Bytes-discrete (moved_path old new p) base
unfolding find assign_all moved_entries
find-assign_all-other old new p [] base h w f = refl
find-assign_all-other old new p ((k, d) ∷ m) base h w f = elim (Bool-cases (within old k)) [
  | inl wk ↦
      let next = assign Bytes-discrete (moved_path old new d.path) (moved_entry old new d) base in
      rw (wk, if◌then◌else◌)
        (ground (
          arith,
          find-assign_all-other old new p m next h.2 w (ground arith),
          find-assign Bytes-discrete (moved_path old new d.path) (moved_path old new p)
              (moved_entry old new d) base,
          moved_path-injective old new d.path p,
        ))
  | inr wk ↦ rw (wk, if◌then◌else◌) (find-assign_all-other old new p m base h.2 w (ground arith))
]

find-assign_all-moved :
    (old new p : Bytes) (e : DirEntry) (m base : Entries)
    → Keyed m
    → within old p ≡ true
    → find Bytes-discrete p m ≡ some e
    → find Bytes-discrete (moved_path old new p) (assign_all (moved_entries old new m) base)
      ≡ some (moved_entry old new e)
unfolding find assign_all moved_entries
find-assign_all-moved old new p e [] base h w f = cc
find-assign_all-moved old new p e ((k, d) ∷ m) base h w f = elim (Bytes-discrete k p) [
  | yes s ↦
      let wk : within old k ≡ true = rw s w in
      let next = assign Bytes-discrete (moved_path old new d.path) (moved_entry old new d) base in
      rw (wk, if◌then◌else◌)
        (ground (
          arith,
          find-assign_all-other old new p m next h.2 w,
          find-assign Bytes-discrete (moved_path old new d.path) (moved_path old new p)
              (moved_entry old new d) base,
        ))
  | no s ↦ elim (Bool-cases (within old k)) [
    | inl wk ↦
        let next = assign Bytes-discrete (moved_path old new d.path) (moved_entry old new d) base in
        rw (wk, if◌then◌else◌) (find-assign_all-moved old new p e m next h.2 w (ground arith))
    | inr wk ↦
        rw (wk, if◌then◌else◌) (find-assign_all-moved old new p e m base h.2 w (ground arith))
  ]
]

-- In a tree whose entries stand under their own paths, each entry within the old path of a rename
-- is found at its path moved to the new one, with its path changed and nothing else.
pub find-rename_path :
    (old new p : Bytes) (e : DirEntry) (t : DirTree)
    → Keyed t.entries
    → within old p ≡ true
    → find_entry p t ≡ some e
    → find_entry (moved_path old new p) (rename_path old new t) ≡ some (moved_entry old new e)
unfolding rename_path
find-rename_path old new p e t h w f =
    find-assign_all-moved old new p e t.entries (without (within old) t.entries) h w f

-- `remove` takes away the path, and all that is below it when it is a directory; every other
-- path keeps its entry.
pub find-remove_path :
    (p q : Bytes) (t : DirTree)
    → find_entry q (remove_path p t) ≡ (
        if bytes_eq q p
        then none
        else if is_directory_entry (find_entry p t) && starts_with q (p ++ slash ∷ [])
        then none
        else find_entry q t)
unfolding remove_path
find-remove_path p q t =
    let below = λ (key : Bytes). starts_with key (p ++ slash ∷ []) in
    elim (Bool-cases (is_directory_entry (find_entry p t))) [
      | inl d ↦
          rw (remove_path, d, if◌then◌else◌, ◌&&◌)
            (ground (
              arith,
              find-erase Bytes-discrete p q (without below t.entries),
              find-without below q t.entries,
              eq_of_bytes_eq q p,
              bytes_eq-ne q p,
            ))
      | inr d ↦
          rw (remove_path, d, if◌then◌else◌, ◌&&◌)
            (ground
              (arith, find-erase Bytes-discrete p q t.entries, eq_of_bytes_eq q p, bytes_eq-ne q p))
    ]
