-- ===== src/Glob/Answers.antt =====
-- src/Glob.cc: `isIgnored` and `isPathOrAncestorIgnored` of a compiled glob answer as the reference
-- matcher does, and its two ways to match agree.
use native_watcher.Base.{
  ℕ, suc, ◌<◌, ◌≡◌, ◌↔◌, refl, ap, sym, ◌∙◌, true, false, none, some, List, [], ◌∷◌, ◌++◌, arith,
  Bytes, slash, length, take, append_assoc,
}
use native_watcher.Wildcard.Table.{match_table-wild}
use native_watcher.Glob.Text.{components}
use native_watcher.Glob.Automaton.{
  DirectoryCaseSensitivity, Glob, new_glob, with_masks, compile_parts, non_empty,
  build_parent_directory,
}
use native_watcher.Glob.Component.{GlobComponent}
use native_watcher.Glob.Masks.{new_glob-WellMasked}
use native_watcher.Glob.Live.{is_double, matches_placed, path_matches}
use native_watcher.Glob.Ignore.{
  is_ignored, is_ignored_by_table, is_path_or_ancestor_ignored, place_from,
}
use native_watcher.Glob.Whole.{place, bitmask_loop-matches, ancestor_loop-matches}

pub raw_of_use_bitmask : (raw : Bytes) → (new_glob raw).use_bitmask ≡ true → non_empty raw ≡ true
unfolding new_glob
raw_of_use_bitmask [] h = cc
raw_of_use_bitmask (c ∷ raw) h = refl

raw-with_masks :
    (raw : Bytes) (comps : List Bytes) (parts : List GlobComponent)
    → (with_masks raw comps parts).raw ≡ raw
unfolding with_masks
raw-with_masks raw comps parts = ground arith

pub raw-new_glob : (raw : Bytes) → (new_glob raw).raw ≡ raw
unfolding new_glob
raw-new_glob raw = raw-with_masks raw (components raw) (compile_parts false (components raw))

module _ (case_sensitivity : Bytes → DirectoryCaseSensitivity) (raw root path : Bytes) where
  abbrev glob : Glob
  glob = new_glob raw

  -- A glob that uses its bitmask ignores a path exactly if its parts match the path's components by
  -- the reference matcher, each component in its own directory.
  pub is_ignored-matches :
      glob.use_bitmask ≡ true
      → is_ignored case_sensitivity glob root path
        ≡ path_matches case_sensitivity glob.parts (place root none (components path))
  unfolding is_ignored
  is_ignored-matches u =
      let named : non_empty glob.raw ≡ true =
        ap non_empty (raw-new_glob raw) ∙ raw_of_use_bitmask raw u in
      simp (named, u)
        (bitmask_loop-matches case_sensitivity glob (new_glob-WellMasked raw u) root
          (components path))

  -- For a path that is not empty, such a glob ignores it or an ancestor exactly if the parts match a
  -- prefix of its components, of one component at least.
  pub is_path_or_ancestor_ignored_iff :
      glob.use_bitmask ≡ true
      → non_empty path ≡ true
      → (is_path_or_ancestor_ignored case_sensitivity glob root path ≡ true) ↔ (
          (k : ℕ) × (k < length (place root none (components path)))
          × (path_matches case_sensitivity glob.parts
                (take (suc k) (place root none (components path)))
              ≡ true))
  unfolding is_path_or_ancestor_ignored
  is_path_or_ancestor_ignored_iff u p =
      let named : non_empty glob.raw ≡ true =
        ap non_empty (raw-new_glob raw) ∙ raw_of_use_bitmask raw u in
      simp (named, p, u)
        (ancestor_loop-matches case_sensitivity glob (new_glob-WellMasked raw u) root
          (components path))

non_empty-append : (xs ys : Bytes) → non_empty xs ≡ true → non_empty (xs ++ ys) ≡ true
non_empty-append [] ys h = cc
non_empty-append (x ∷ xs) ys h = refl

place-from :
    (root relative : Bytes) (path : List Bytes)
    → non_empty relative ≡ true
    → place root (some relative) path ≡ place_from (root ++ slash ∷ relative) path
unfolding place place_from build_parent_directory
place-from root relative [] h = refl
place-from root relative (component ∷ path) h =
    rw (h, place-from root (relative ++ slash ∷ component) path (non_empty-append relative _ h))
      (ap (λ d. (component, root ++ slash ∷ relative) ∷ place_from d path)
        (sym (append_assoc root (slash ∷ relative) (slash ∷ component))))

abbrev pub head_or_empty : List Bytes → Bytes
head_or_empty [] = []
head_or_empty (part ∷ parts) = part

place_agrees :
    (root : Bytes) (path : List Bytes)
    → non_empty (head_or_empty path) ≡ true
    → place root none path ≡ place_from root path
unfolding place place_from build_parent_directory
place_agrees root [] h = refl
place_agrees root (component ∷ path) h =
    ap (λ p. (component, root) ∷ p) (place-from root component path h)

-- The automaton and the table give one answer to a path that does not begin with a slash.
pub is_ignored-by_table :
    (case_sensitivity : Bytes → DirectoryCaseSensitivity) (raw root path : Bytes)
    → (new_glob raw).use_bitmask ≡ true
    → non_empty (head_or_empty (components path)) ≡ true
    → is_ignored case_sensitivity (new_glob raw) root path
      ≡ is_ignored_by_table case_sensitivity (new_glob raw) root path
unfolding is_ignored_by_table
is_ignored-by_table case_sensitivity raw root path u h =
    is_ignored-matches case_sensitivity raw root path u
    ∙ ap (path_matches case_sensitivity (new_glob raw).parts)
        (place_agrees root (components path) h)
    ∙ sym (match_table-wild is_double (matches_placed case_sensitivity) (new_glob raw).parts _)
