-- ===== src/Samples/Globs.antt =====
-- src/Glob.cc: globs compiled and run.
use native_watcher.Glob.Word.{
  and_word, is_zero, minus_one, one_shifted, or_word, shift_left, trailing_zeros,
}
use native_watcher.Base.{
  ◌∷◌, arith, ℕ, suc, ◌<◌, ◌↔◌, ◌≡◌, refl, true, false, none, some, [], Bytes, codes, bytes_eq,
  length, take,
}
use native_watcher.Wildcard.{wild}
use native_watcher.Wildcard.Relation.{Matches, wild_iff}
use native_watcher.Wildcard.Bytewise.{is_asterisk, same_byte, match_wildcard_ascii}
use native_watcher.Wildcard.Backtrack.{match_wildcard_ascii-wild}
use native_watcher.Wildcard.Table.{match_table, match_table-wild}
use native_watcher.Glob.Characters.{Splits, utf8_characters-Splits}
use native_watcher.Glob.Text.{utf8_characters, components, join, join-components}
use native_watcher.Glob.Component.{component_matches_exact, component_matches_folded}
use native_watcher.Glob.Automaton.{
  DirectoryCaseSensitivity, sensitive, insensitive, new_glob, step_bitmask, build_parent_directory,
}
use native_watcher.Glob.Masks.{WellMasked, new_glob-WellMasked}
use native_watcher.Glob.Step.{Stepped, step_bitmask-Stepped}
use native_watcher.Glob.Live.{path_matches}
use native_watcher.Glob.Whole.{place}
use native_watcher.Glob.Ignore.{is_ignored, is_ignored_by_table, is_path_or_ancestor_ignored}
use native_watcher.Glob.Answers.{
  is_ignored-matches, is_path_or_ancestor_ignored_iff, is_ignored-by_table,
}

-- Directories whose name ends in `i` ignore case.
abbrev volume : Bytes → DirectoryCaseSensitivity
volume directory = elim (bytes_eq directory (codes "/r/i")) [
  | true ↦ insensitive
  | false ↦ sensitive
]

abbrev pattern : Bytes
pattern = codes "**/*.o"

abbrev object_path : Bytes
object_path = codes "i/A.O"

abbrev directory_entry : Bytes
directory_entry = codes "i"

ignored_object : is_ignored volume (new_glob pattern) (codes "/r") object_path ≡ true
unfolding is_ignored new_glob bytes_eq is_zero step_bitmask and_word or_word one_shifted shift_left
    minus_one trailing_zeros component_matches_exact component_matches_folded build_parent_directory
ignored_object = refl

match_wildcard_ascii-wild_example :
    match_wildcard_ascii (codes "a*b*c") (codes "axbxbc") false
    ≡ some (wild is_asterisk (same_byte false) (codes "a*b*c") (codes "axbxbc"))
match_wildcard_ascii-wild_example = match_wildcard_ascii-wild (codes "a*b*c") (codes "axbxbc") false

match_table-wild_example :
    match_table is_asterisk (same_byte false) (codes "*a") (codes "aba")
    ≡ wild is_asterisk (same_byte false) (codes "*a") (codes "aba")
match_table-wild_example = match_table-wild is_asterisk (same_byte false) (codes "*a") (codes "aba")

wild_iff_example :
    (wild is_asterisk (same_byte false) (codes "*a") (codes "aba") ≡ true)
    ↔ Matches is_asterisk (same_byte false) (codes "*a") (codes "aba")
wild_iff_example = wild_iff is_asterisk (same_byte false) (codes "*a") (codes "aba")

-- A letter, an accented one, a byte that begins no character, and a surrogate.
abbrev mixed_text : Bytes
mixed_text = 97 ∷ 195 ∷ 169 ∷ 255 ∷ 237 ∷ 160 ∷ 128 ∷ []

utf8_characters-Splits_example : Splits mixed_text (utf8_characters mixed_text)
utf8_characters-Splits_example = utf8_characters-Splits mixed_text (
  omega arith,
  (omega arith, (omega arith, (omega arith, (omega arith, (omega arith, (omega arith, tt)))))),
)

join-components_example : join (components (codes "/a//b/")) ≡ codes "/a//b/"
join-components_example = join-components (codes "/a//b/")

pattern-use_bitmask : (new_glob pattern).use_bitmask ≡ true
unfolding new_glob
pattern-use_bitmask = refl

new_glob-WellMasked_example : WellMasked (new_glob pattern)
new_glob-WellMasked_example = new_glob-WellMasked pattern pattern-use_bitmask

step_bitmask-Stepped_example :
    Stepped volume
      (new_glob pattern)
      (new_glob pattern).initial_state
      directory_entry
      (build_parent_directory (codes "/r") [])
      (step_bitmask volume
        (new_glob pattern)
        (new_glob pattern).initial_state
        directory_entry
        (codes "/r")
        []
        none).0
unfolding new_glob or_word one_shifted shift_left and_word
step_bitmask-Stepped_example =
    step_bitmask-Stepped volume (new_glob pattern) (new_glob pattern).initial_state directory_entry
      (codes "/r") [] refl refl refl

is_ignored-matches_example :
    is_ignored volume (new_glob pattern) (codes "/r") object_path
    ≡ path_matches volume
        (new_glob pattern).parts
        (place (codes "/r") none (components object_path))
is_ignored-matches_example =
    is_ignored-matches volume pattern (codes "/r") object_path pattern-use_bitmask

is_path_or_ancestor_ignored_iff_example :
    (is_path_or_ancestor_ignored volume (new_glob pattern) (codes "/r") object_path ≡ true) ↔ (
      (k : ℕ) × (k < length (place (codes "/r") none (components object_path)))
      × (path_matches volume
            (new_glob pattern).parts
            (take (suc k) (place (codes "/r") none (components object_path)))
          ≡ true))
is_path_or_ancestor_ignored_iff_example =
    is_path_or_ancestor_ignored_iff volume pattern (codes "/r") object_path pattern-use_bitmask refl

is_ignored-by_table_example :
    is_ignored volume (new_glob pattern) (codes "/r") object_path
    ≡ is_ignored_by_table volume (new_glob pattern) (codes "/r") object_path
unfolding components
is_ignored-by_table_example =
    is_ignored-by_table volume pattern (codes "/r") object_path pattern-use_bitmask refl
