-- ===== src/Glob/Automaton.antt =====
-- src/Glob.cc: `Glob::Glob` and `Glob::stepBitmask`. The filesystem's answer to
-- `directoryCaseSensitivity` is a parameter: it is asked of a directory and does not change or fail
-- while one path is matched.
use native_watcher.Base.{
  ℕ, zero, suc, ◌+◌, Bool, true, false, not, ◌&&◌, Option, none, some, List, [], ◌∷◌, ◌++◌, Bytes,
  ltb, if◌then◌else◌, length, get_elem?, bytes_eq, slash,
}
use native_watcher.Glob.Text.{components}
use native_watcher.Glob.Component.{
  GlobComponent, compile_component, component_matches_exact, component_matches_folded,
  double_star_text,
}
use native_watcher.Glob.Word.{
  Word, width, zeros, one_shifted, or_word, and_word, shift_left, minus_one, is_zero,
  trailing_zeros,
}

-- src/CaseSensitivity.hh
pub data DirectoryCaseSensitivity : Type 0 where
  sensitive insensitive unknown : DirectoryCaseSensitivity

pub record Glob : Type 0 where
  pub raw : Bytes
  pub components : List Bytes
  pub parts : List GlobComponent
  pub double_star_mask : Word
  pub active_mask : Word
  pub initial_state : Word
  pub accept_bit : Word
  pub use_bitmask : Bool

-- The loop over the components; the first argument says whether the part before is a `**`.
unfoldable pub compile_parts : Bool → List Bytes → List GlobComponent
compile_parts after_double [] = []
compile_parts after_double (part ∷ rest) =
    let double = bytes_eq part double_star_text in
    let parts = compile_parts double rest in
    if double && after_double then parts else compile_component part ∷ parts

-- The loop that fills the two masks, from index `i` on.
unfoldable pub fill_masks : ℕ → List GlobComponent → Word → Word → Word × Word
fill_masks i [] double active = (double, active)
fill_masks i (part ∷ parts) double active =
    fill_masks (suc i) parts
      (if part.is_double_star then or_word double (one_shifted width i) else double)
      (if part.is_double_star then active else or_word active (one_shifted width i))

abbrev pub word_zero : Word
word_zero = zeros width

abbrev pub word_one : Word
word_one = one_shifted width 0

abbrev pub non_empty {ℓ} : {A : Type ℓ} → List A → Bool
non_empty [] = false
non_empty (x ∷ xs) = true

-- The masks, where they fit: `mParts` is not empty and has fewer than 63 parts.
unfoldable pub with_masks : Bytes → List Bytes → List GlobComponent → Glob
unfolding fill_masks
with_masks raw comps parts =
    if non_empty parts && ltb (length parts) 63
    then (let (double, active) = fill_masks 0 parts word_zero word_zero in
        record {
          raw = raw;
          components = comps;
          parts = parts;
          double_star_mask = double;
          active_mask = active;
          initial_state = or_word word_one (shift_left (and_word word_one double));
          accept_bit = one_shifted width (length parts);
          use_bitmask = true;
        })
    else record {
      raw = raw;
      components = comps;
      parts = parts;
      double_star_mask = word_zero;
      active_mask = word_zero;
      initial_state = word_zero;
      accept_bit = word_zero;
      use_bitmask = false;
    }

-- An empty text has no components, and its masks stay zero.
unfoldable pub new_glob : Bytes → Glob
unfolding with_masks compile_parts compile_component components
new_glob raw = with_masks raw (components raw) (compile_parts false (components raw))

-- `buildParentDirectory`
unfoldable pub build_parent_directory : Bytes → Bytes → Bytes
build_parent_directory root relative_parent =
    if non_empty relative_parent then root ++ slash ∷ relative_parent else root

abbrev pub is_insensitive : DirectoryCaseSensitivity → Bool
is_insensitive insensitive = true
is_insensitive sensitive = false
is_insensitive unknown = false

abbrev pub Cached : Type 0
Cached = Option DirectoryCaseSensitivity

module _ (case_sensitivity : Bytes → DirectoryCaseSensitivity) where
  -- `cachedSensitivity`, asked for when it is first wanted.
  abbrev pub ask : Bytes → Cached → DirectoryCaseSensitivity
  ask directory none = case_sensitivity directory
  ask directory (some known) = known

  -- The body of the loop of `stepBitmask` at the part `p`.
  unfoldable pub try_part : GlobComponent → ℕ → Bytes → Bytes → Word → Cached → Word × Cached
  try_part part p component directory next cached =
      if component_matches_exact part component
      then (or_word next (one_shifted width (p + 1)), cached)
      else if not (component_matches_folded part component)
      then (next, cached)
      else if is_insensitive (ask directory cached)
      then (or_word next (one_shifted width (p + 1)), some (ask directory cached))
      else (next, some (ask directory cached))

  -- Every candidate is the index of a part: the other case is not reached.
  abbrev pub try_index : List GlobComponent → ℕ → Bytes → Bytes → Word → Cached → Word × Cached
  try_index parts p component directory next cached = elim (get_elem? parts p) [
    | none ↦ (next, cached)
    | some part ↦ try_part part p component directory next cached
  ]

  -- `while (candidates != 0)`; `none` is fuel that ran out.
  unfoldable pub candidate_loop :
      List GlobComponent → Bytes → Bytes → ℕ → Word → Word → Cached → Option (Word × Cached)
  candidate_loop parts component directory zero candidates next cached = none
  candidate_loop parts component directory (suc fuel) candidates next cached =
      elim (is_zero candidates) [
        | true ↦ some (next, cached)
        | false ↦
            let (next', cached') =
              try_index parts (trailing_zeros candidates) component directory next cached in
            candidate_loop parts component directory fuel
              (and_word candidates (minus_one candidates)) next' cached'
      ]

  abbrev pub close_state : Glob → Option (Word × Cached) → Word × Cached
  close_state g none = (word_zero, none)
  close_state g (some (next, cached)) =
      (or_word next (shift_left (and_word next g.double_star_mask)), cached)

  -- `stepBitmask`; a word has at most 64 bits to clear.
  unfoldable pub step_bitmask : Glob → Word → Bytes → Bytes → Bytes → Cached → Word × Cached
  unfolding candidate_loop try_part
  step_bitmask g state component root relative_parent cached = close_state g (
      candidate_loop g.parts component (build_parent_directory root relative_parent) (suc width)
        (and_word state g.active_mask) (and_word state g.double_star_mask) cached)
