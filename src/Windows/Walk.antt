-- ===== src/Windows/Walk.antt =====
-- src/windows/WindowsBackend.cc: `BruteForceBackend::readTree`, the first walk of a watched directory.
use native_watcher.Base.{
  ℕ, zero, suc, ◌+◌, ◌≤◌, ◌<◌, ◌≡◌, refl, Bool, not, ◌||◌, Option, none, some, List, [], ◌∷◌, ◌++◌,
  arith, Bytes, bytes_eq, codes, slash, if◌then◌else◌, if-holds, Option-cases, inl, inr,
}
use native_watcher.DirTree.{DirTree, add, remove_path}
use native_watcher.Inotify.Created.{is_dots}
use native_watcher.Windows.{Attributes, Watched, on_tree}
use native_watcher.Windows.Steps.{ReadTree, read, cancelled, threw}

-- What `FindFirstFileW` finds in a directory, what the watcher ignores, and whether it is cancelled.
pub record WalkFiles : Type 0 where
  pub entries_in : Bytes → Option (List (Bytes × Attributes))
  pub is_ignored : Bytes → Bool
  pub is_cancelled : Bool

module _ (files : WalkFiles) where
  abbrev is_left_out : Bytes → Bytes × Attributes → Bool
  is_left_out path (name, a) =
      is_dots name || files.is_ignored (path ++ slash ∷ name) || a.is_special

  -- The directories of a listing, as they are pushed; the last one is on top.
  unfoldable pub push_directories : Bytes → List (Bytes × Attributes) → List Bytes → List Bytes
  push_directories path [] stack = stack
  push_directories path ((name, a) ∷ entries) stack = push_directories path entries (
      if is_left_out path (name, a) || not a.is_directory
      then stack
      else (path ++ slash ∷ name) ∷ stack)

  unfoldable pub add_entries : Bytes → List (Bytes × Attributes) → DirTree → DirTree
  unfolding add
  add_entries path [] t = t
  add_entries path ((name, a) ∷ entries) t = add_entries path entries (
      if is_left_out path (name, a) then t else add (path ++ slash ∷ name) a.mtime a.is_directory t)

  -- The loop on the stack of directories; `none` is fuel that ran out.
  unfoldable pub read_loop : Bytes → ℕ → List Bytes → Watched → Option ReadTree
  unfolding push_directories add_entries remove_path
  read_loop dir fuel [] s = some (read s)
  read_loop dir zero (path ∷ stack) s = none
  read_loop dir (suc fuel) (path ∷ stack) s =
      if files.is_cancelled then some (cancelled s) else elim (files.entries_in path) [
        | none ↦
            if bytes_eq path dir
            then some (threw s (codes "Error opening directory"))
            else read_loop dir fuel stack (on_tree (remove_path path) s)
        | some entries ↦
            read_loop dir fuel (push_directories path entries [] ++ stack)
              (on_tree (add_entries path entries) s)
      ]

  unfoldable pub read_tree : ℕ → Bytes → Watched → Option ReadTree
  unfolding read_loop
  read_tree fuel dir s = read_loop dir fuel (dir ∷ []) s

  module _ (weight : Bytes → ℕ) where
    abbrev pub total : List Bytes → ℕ
    total [] = 0
    total (path ∷ stack) = weight path + total stack

    total-append : (xs ys : List Bytes) → total (xs ++ ys) ≡ total xs + total ys
    total-append [] ys = omega arith
    total-append (x ∷ xs) ys = omega (arith, total-append xs ys)

    -- Each directory weighs more than those in it, and any path weighs something.
    pub record WalkWeighs : Type 0 where
      pub positive : (path : Bytes) → 0 < weight path
      pub heavier :
          (path : Bytes) (entries : List (Bytes × Attributes))
          → files.entries_in path ≡ some entries
          → total (push_directories path entries []) < weight path

    abbrev Ends : Option ReadTree → Type 0
    Ends o = (r : ReadTree) × (o ≡ some r)

    module _ (w : WalkWeighs) (dir : Bytes) where
      read_loop-Ends :
          (fuel : ℕ) (stack : List Bytes) (s : Watched)
          → total stack ≤ fuel
          → Ends (read_loop dir fuel stack s)
      unfolding read_loop
      read_loop-Ends fuel [] s h = (read s, refl)
      read_loop-Ends zero (path ∷ stack) s h = absurd (omega (arith, w.positive path))
      read_loop-Ends (suc fuel) (path ∷ stack) s h =
          let positive = w.positive path in
          if-holds Ends files.is_cancelled (λ y. (cancelled s, refl))
            (λ n. elim (Option-cases (files.entries_in path)) [
              | inl none_there ↦ rw none_there (
                  if-holds Ends (bytes_eq path dir) (λ y. (_, refl))
                    (λ m. read_loop-Ends fuel stack _ (omega arith)))
              | inr (entries, there) ↦
                  let lighter = w.heavier path entries there in
                  rw there (
                    read_loop-Ends fuel (push_directories path entries [] ++ stack) _
                      (omega (arith, total-append (push_directories path entries []) stack)))
            ])

      -- Where each directory weighs more than those in it, the walk ends within the weight of its root.
      read_tree-Ends : (s : Watched) → Ends (read_tree (weight dir) dir s)
      unfolding read_tree
      read_tree-Ends s = read_loop-Ends (weight dir) (dir ∷ []) s (omega arith)
