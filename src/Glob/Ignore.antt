-- ===== src/Glob/Ignore.antt =====
-- src/Glob.cc: `Glob::isIgnored` and `Glob::isPathOrAncestorIgnored`, with the bitmask and without.
-- The map in which `isIgnored` keeps the answers of `directoryCaseSensitivity` is left out: they are
-- the values of a function.
use native_watcher.Base.{
  Bool, true, false, not, ◌||◌, Option, none, some, List, [], ◌∷◌, ◌++◌, Bytes, ◌==◌, if◌then◌else◌,
  slash, any,
}
use native_watcher.Wildcard.Table.{match_table}
use native_watcher.Glob.Text.{components}
use native_watcher.Glob.Word.{Word, and_word, is_zero}
use native_watcher.Glob.Automaton.{DirectoryCaseSensitivity, Glob, non_empty, step_bitmask}
use native_watcher.Glob.Live.{Placed, is_double, matches_placed}

-- `relParent` as the loops cut it: nothing before the first component, then the path up to its end.
abbrev pub child_of : Option Bytes → Bytes → Bytes
child_of none component = component
child_of (some parent) component = parent ++ slash ∷ component

abbrev pub relative_text : Option Bytes → Bytes
relative_text none = []
relative_text (some parent) = parent

-- The prefixes of a path that end before a slash, `path.substr(0, end)` for each `path.find('/')`.
unfoldable pub slash_prefixes : Bytes → Bytes → List Bytes
slash_prefixes before [] = []
slash_prefixes before (c ∷ path) =
    let rest = slash_prefixes (before ++ c ∷ []) path in if c == slash then before ∷ rest else rest

-- `parentDirectory` for each component.
unfoldable pub place_from : Bytes → List Bytes → List Placed
place_from directory [] = []
place_from directory (component ∷ path) =
    (component, directory) ∷ place_from (directory ++ slash ∷ component) path

module _ (case_sensitivity : Bytes → DirectoryCaseSensitivity) (g : Glob) (root : Bytes) where
  abbrev pub accepts : Word → Bool
  accepts state = not (is_zero (and_word state g.accept_bit))

  abbrev pub step : Word → Bytes → Option Bytes → Word
  step state component parent =
      (step_bitmask case_sensitivity g state component root (relative_text parent) none).0

  -- The loop of `isIgnored` over the components of a path.
  unfoldable pub bitmask_loop : Option Bytes → List Bytes → Word → Bool
  bitmask_loop parent [] state = accepts state
  bitmask_loop parent (component ∷ path) state =
      let state' = step state component parent in
      elim (is_zero state') [
        | true ↦ false
        | false ↦ bitmask_loop (some (child_of parent component)) path state'
      ]

  -- The loop of `isPathOrAncestorIgnored`.
  unfoldable pub ancestor_loop : Option Bytes → List Bytes → Word → Bool
  ancestor_loop parent [] state = false
  ancestor_loop parent (component ∷ path) state =
      let state' = step state component parent in
      elim (accepts state') [
        | true ↦ true
        | false ↦ elim (is_zero state') [
          | true ↦ false
          | false ↦ ancestor_loop (some (child_of parent component)) path state'
        ]
      ]

  unfoldable pub is_ignored_by_table : Bytes → Bool
  is_ignored_by_table path =
      match_table is_double (matches_placed case_sensitivity) g.parts
        (place_from root (components path))

  unfoldable pub is_ignored : Bytes → Bool
  unfolding bitmask_loop is_ignored_by_table
  is_ignored path =
      if not (non_empty g.raw)
      then false
      else if g.use_bitmask
      then bitmask_loop none (components path) g.initial_state
      else is_ignored_by_table path

  unfoldable pub is_path_or_ancestor_ignored : Bytes → Bool
  unfolding ancestor_loop is_ignored slash_prefixes any
  is_path_or_ancestor_ignored path =
      if not (non_empty g.raw) || not (non_empty path)
      then false
      else if g.use_bitmask
      then ancestor_loop none (components path) g.initial_state
      else is_ignored path || any is_ignored (slash_prefixes [] path)
