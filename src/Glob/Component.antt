-- ===== src/Glob/Component.antt =====
-- src/Glob.cc: one component of a glob against one component of a path.
use native_watcher.Base.{
  Bool, true, false, not, ◌&&◌, Option, none, some, List, [], ◌∷◌, Bytes, bytes_eq, if◌then◌else◌,
  any,
}
use native_watcher.Wildcard.Bytewise.{
  asterisk, is_asterisk, is_ascii, to_ascii_lower, equals_ascii_lower, equal_ignoring_case,
  match_wildcard_ascii, collapse_stars,
}
use native_watcher.Wildcard.Table.{match_table}
use native_watcher.Glob.Text.{utf8_characters}

pub record GlobComponent : Type 0 where
  pub raw : Bytes
  pub folded : Bytes
  pub chars : List Bytes
  pub folded_chars : List Bytes
  pub is_double_star : Bool
  pub is_single_star : Bool
  pub has_wildcard : Bool
  pub ascii : Bool
  pub folded_ascii : Bool

abbrev pub star_text : Bytes
star_text = asterisk ∷ []

abbrev pub double_star_text : Bytes
double_star_text = asterisk ∷ asterisk ∷ []

unfoldable pub has_asterisk : Bytes → Bool
unfolding any
has_asterisk part = any is_asterisk part

-- The body of the loop of `Glob::Glob`, for a component that is not a repeated `**`.
unfoldable pub compile_component : Bytes → GlobComponent
unfolding has_asterisk bytes_eq collapse_stars is_ascii to_ascii_lower utf8_characters
compile_component part =
    let is_double_star = bytes_eq part double_star_text in
    let has_wildcard = has_asterisk part in
    let plain_wildcard = has_wildcard && not is_double_star in
    let raw = if plain_wildcard then collapse_stars part else part in
    let is_single_star = plain_wildcard && bytes_eq raw star_text in
    let ascii = is_ascii raw in
    let folded = if ascii then to_ascii_lower raw else raw in
    let wants_chars = plain_wildcard && not is_single_star in
    record {
      raw = raw;
      folded = folded;
      chars = if wants_chars then utf8_characters raw else [];
      folded_chars = if wants_chars then utf8_characters folded else [];
      is_double_star = is_double_star;
      is_single_star = is_single_star;
      has_wildcard = has_wildcard;
      ascii = ascii;
      folded_ascii = is_ascii folded;
    }

unfoldable pub is_star_char : Bytes → Bool
unfolding bytes_eq
is_star_char ch = bytes_eq ch star_text

unfoldable pub same_char : Bool → Bytes → Bytes → Bool
unfolding bytes_eq equal_ignoring_case
same_char ignore_case a b = if ignore_case then equal_ignoring_case a b else bytes_eq a b

unfoldable pub match_wildcard_utf8 : List Bytes → Bytes → Bool → Bool
unfolding match_table utf8_characters is_star_char same_char
match_wildcard_utf8 pattern_chars value ignore_case =
    match_table is_star_char (same_char ignore_case) pattern_chars (utf8_characters value)

-- The loop's answer; `match_wildcard_ascii-wild` shows that it always has one.
abbrev pub answer : Option Bool → Bool
answer none = false
answer (some b) = b

unfoldable pub component_matches_exact : GlobComponent → Bytes → Bool
unfolding bytes_eq is_ascii match_wildcard_ascii match_wildcard_utf8
component_matches_exact part value =
    if part.is_single_star
    then true
    else if not part.has_wildcard
    then bytes_eq part.raw value
    else if part.ascii && is_ascii value
    then answer (match_wildcard_ascii part.raw value false)
    else match_wildcard_utf8 part.chars value false

unfoldable pub component_matches_folded : GlobComponent → Bytes → Bool
unfolding equals_ascii_lower is_ascii match_wildcard_ascii match_wildcard_utf8 equal_ignoring_case
component_matches_folded part value =
    if part.is_single_star
    then true
    else if part.folded_ascii && is_ascii value
    then if not part.has_wildcard
      then equals_ascii_lower part.folded value
      else answer (match_wildcard_ascii part.folded value true)
    else if not part.has_wildcard
    then equal_ignoring_case part.raw value
    else match_wildcard_utf8 part.chars value true
