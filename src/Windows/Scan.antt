-- ===== src/Windows/Scan.antt =====
-- src/windows/WindowsBackend.cc: `addPath` ends, and puts all that it can see into the index.
use native_watcher.Base.{
  ℕ, zero, suc, ◌+◌, ◌≤◌, ◌<◌, ◌≡◌, refl, true, false, some, List, [], ◌∷◌, ◌++◌, arith, Bytes,
  has_value, Bool-cases, Option-cases, inl, inr,
}
use native_watcher.DirTree.{DirTree, find_entry}
use native_watcher.Windows.{
  Attributes, WindowsFiles, Watched, push_names, names_or_none, visit, add_path_loop,
}

module _ (files : WindowsFiles) where
  -- What the loop pushes for a directory.
  abbrev pub inside : Bytes → List Bytes
  inside path = push_names path (names_or_none (files.names_in path)) []

  abbrev pub Indexed : Bytes → Watched → Type 0
  Indexed path s = has_value (find_entry path s.tree) ≡ true

  -- What `addPath` can see: no ignored path, and no special one.
  pub record Seen (path : Bytes) : Type 0 where
    pub kept : files.is_ignored path ≡ false
    pub attributes : Attributes
    pub there : files.attributes path ≡ some attributes
    pub plain : attributes.is_special ≡ false

  -- The paths that a walk from a stack meets.
  pub data Meets : List Bytes → Bytes → Type 0 where
    top : {path : Bytes} {stack : List Bytes} → Seen path → Meets (path ∷ stack) path
    under :
        {path q : Bytes} {stack : List Bytes}
        → (seen : Seen path) → seen.attributes.is_directory ≡ true
        → Meets (inside path) q
        → Meets (path ∷ stack) q
    later : {path q : Bytes} {stack : List Bytes} → Meets stack q → Meets (path ∷ stack) q

  module _ (weight : Bytes → ℕ) where
    abbrev pub total : List Bytes → ℕ
    total [] = 0
    total (path ∷ stack) = weight path + total stack

    total-append : (xs ys : List Bytes) → total (xs ++ ys) ≡ total xs + total ys
    total-append [] ys = omega arith
    total-append (x ∷ xs) ys = omega (arith, total-append xs ys)

    -- Each path weighs more than what is pushed for it.
    abbrev pub Weighs : Type 0
    Weighs = (path : Bytes) → total (inside path) < weight path

    visit_lighter :
        Weighs → (path : Bytes) (s : Watched) → total (visit files path s).0 < weight path
    unfolding visit
    visit_lighter w path s =
        let lighter = w path in
        elim (Bool-cases (files.is_ignored path)) [
          | inl y ↦ rw (visit, y) (omega arith)
          | inr n ↦ elim (Option-cases (files.attributes path)) [
            | inl gone ↦ rw (visit, n, gone) (omega arith)
            | inr (a, there) ↦ elim (Bool-cases a.is_special) [
              | inl special ↦ rw (visit, n, there, special) (omega arith)
              | inr plain ↦ elim (Bool-cases a.is_directory) [
                | inl d ↦ rw (visit, n, there, plain, d) lighter
                | inr f ↦ rw (visit, n, there, plain, f) (omega arith)
              ]
            ]
          ]
        ]

    pub loop_ends :
        Weighs
        → (fuel : ℕ) (stack : List Bytes) (s : Watched) → total stack ≤ fuel
        → (t : Watched) × (add_path_loop files fuel stack s ≡ some t)
    unfolding add_path_loop
    loop_ends w fuel [] s h = (s, refl)
    loop_ends w zero (path ∷ stack) s h = absurd (omega (arith, w path))
    loop_ends w (suc fuel) (path ∷ stack) s h =
        loop_ends w fuel ((visit files path s).0 ++ stack) (visit files path s).1
          (omega (arith, visit_lighter w path s, total-append (visit files path s).0 stack))
