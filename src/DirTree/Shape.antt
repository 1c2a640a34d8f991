-- ===== src/DirTree/Shape.antt =====
-- src/DirTree.cc keeps each entry once, under its own path.
use native_watcher.Base.{
  ◌≡◌, refl, Bool, none, List, [], ◌∷◌, arith, Bytes, Bytes-discrete, ℕ, if◌then◌else◌, find, erase,
  assign, emplace, modify, has_value, Bool-cases, inl, inr, find-erase, find-assign, find-emplace,
  find-modify,
}
use native_watcher.DirTree.{
  DirEntry, Entries, DirTree, add, update_entry, within, without, extract, moved_entry, assign_all,
  restore_entries, restore, moved_entries, rename_path, remove_path, is_directory_entry, find_entry,
}

-- Each entry stands under its path, and no path stands twice.
abbrev pub Keyed : Entries → Type 0
Keyed [] = Unit
Keyed ((k, e) ∷ m) = (e.path ≡ k) × (find Bytes-discrete k m ≡ none) × Keyed m

emplace-Keyed : (e : DirEntry) (m : Entries) → Keyed m → Keyed (emplace Bytes-discrete e.path e m)
unfolding emplace find
emplace-Keyed e [] h = (refl, refl, tt)
emplace-Keyed e ((j, d) ∷ m) h = elim (Bytes-discrete j e.path) [
  | yes s ↦ ground arith
  | no s ↦ ground (arith, emplace-Keyed e m h.2, find-emplace Bytes-discrete e.path j e m)
]

assign-Keyed : (e : DirEntry) (m : Entries) → Keyed m → Keyed (assign Bytes-discrete e.path e m)
unfolding assign find
assign-Keyed e [] h = (refl, refl, tt)
assign-Keyed e ((j, d) ∷ m) h = elim (Bytes-discrete j e.path) [
  | yes s ↦ ground arith
  | no s ↦ ground (arith, assign-Keyed e m h.2, find-assign Bytes-discrete e.path j e m)
]

modify-Keyed :
    (p : Bytes) (t : ℕ) (m : Entries)
    → Keyed m
    → Keyed (modify Bytes-discrete p (λ e. record e { mtime = t }) m)
unfolding modify find
modify-Keyed p t [] h = tt
modify-Keyed p t ((j, d) ∷ m) h = ground (
  arith,
  modify-Keyed p t m h.2,
  find-modify Bytes-discrete p j (λ (e : DirEntry). record e { mtime = t }) m,
)

erase-Keyed : (p : Bytes) (m : Entries) → Keyed m → Keyed (erase Bytes-discrete p m)
unfolding erase find
erase-Keyed p [] h = tt
erase-Keyed p ((j, d) ∷ m) h = ground (arith, erase-Keyed p m h.2, find-erase Bytes-discrete p j m)

pub find-without :
    (test : Bytes → Bool) (p : Bytes) (m : Entries)
    → find Bytes-discrete p (without test m) ≡ (if test p then none else find Bytes-discrete p m)
unfolding without find
find-without test p [] = ground arith
find-without test p ((j, d) ∷ m) = elim (Bytes-discrete j p) [
  | yes s ↦ rw s (ground (arith, find-without test p m))
  | no s ↦ ground (arith, find-without test p m)
]

without-Keyed : (test : Bytes → Bool) (m : Entries) → Keyed m → Keyed (without test m)
unfolding without find
without-Keyed test [] h = tt
without-Keyed test ((j, d) ∷ m) h = ground (arith, without-Keyed test m h.2, find-without test j m)

assign_all-Keyed : (es : List DirEntry) (m : Entries) → Keyed m → Keyed (assign_all es m)
unfolding assign_all
assign_all-Keyed [] m h = h
assign_all-Keyed (e ∷ es) m h = assign_all-Keyed es _ (assign-Keyed e m h)

restore_entries-Keyed :
    (es : List DirEntry) (old new : Bytes) (m : Entries)
    → Keyed m
    → Keyed (restore_entries es old new m)
unfolding restore_entries
restore_entries-Keyed [] old new m h = h
restore_entries-Keyed (e ∷ es) old new m h =
    restore_entries-Keyed es old new _ (assign-Keyed (moved_entry old new e) m h)

-- The operations of a tree that change it.
pub data TreeOp : Type 0 where
  adds : Bytes → ℕ → Bool → TreeOp
  updates : Bytes → ℕ → TreeOp
  extracts : Bytes → TreeOp
  restores : List DirEntry → Bytes → Bytes → TreeOp
  renames : Bytes → Bytes → TreeOp
  removes : Bytes → TreeOp

abbrev pub run_op : TreeOp → DirTree → DirTree
run_op (adds path mtime is_dir) t = add path mtime is_dir t
run_op (updates path mtime) t = (update_entry path mtime t).0
run_op (extracts path) t = (extract path t).1
run_op (restores entries old new) t = restore entries old new t
run_op (renames old new) t = rename_path old new t
run_op (removes path) t = remove_path path t

-- Every operation of a tree keeps each entry under its own path, and each path once.
pub run_op-Keyed : (op : TreeOp) (t : DirTree) → Keyed t.entries → Keyed (run_op op t).entries
unfolding add update_entry extract restore rename_path remove_path
run_op-Keyed (adds path mtime is_dir) t h =
    emplace-Keyed (record { path = path; mtime = mtime; is_dir = is_dir }) t.entries h
run_op-Keyed (updates path mtime) t h = elim (Bool-cases (has_value (find_entry path t))) [
  | inl e ↦ rw (run_op, update_entry, e) (modify-Keyed path mtime t.entries h)
  | inr e ↦ rw (run_op, update_entry, e) h
]
run_op-Keyed (extracts path) t h = without-Keyed (within path) t.entries h
run_op-Keyed (restores entries old new) t h = restore_entries-Keyed entries old new t.entries h
run_op-Keyed (renames old new) t h =
    assign_all-Keyed (moved_entries old new t.entries) _ (without-Keyed (within old) t.entries h)
run_op-Keyed (removes path) t h = elim (Bool-cases (is_directory_entry (find_entry path t))) [
  | inl e ↦ rw (run_op, remove_path, e) (erase-Keyed path _ (without-Keyed _ t.entries h))
  | inr e ↦ rw (run_op, remove_path, e) (erase-Keyed path t.entries h)
]
