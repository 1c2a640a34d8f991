-- ===== src/Glob/Agreement.antt =====
-- src/Glob.cc: the fast byte paths of component matching give the answers of the reference matcher
-- over UTF-8 characters.
use native_watcher.Base.{
  ◌≡◌, refl, Bool, true, false, [], ◌∷◌, arith, Bytes, bytes_eq, eq_of_bytes_eq,
}
use native_watcher.Wildcard.{wild}
use native_watcher.Wildcard.Bytewise.{
  is_ascii, to_ascii_lower, equals_ascii_lower, equal_ignoring_case, collapse_stars,
}
use native_watcher.Glob.Text.{utf8_characters}
use native_watcher.Glob.Component.{
  GlobComponent, compile_component, component_matches_exact, component_matches_folded, is_star_char,
  same_char, star_text, double_star_text, has_asterisk,
}

-- The reference over characters.
abbrev pub wild_chars : Bool → Bytes → Bytes → Bool
wild_chars fold raw value =
    wild is_star_char (same_char fold) (utf8_characters raw) (utf8_characters value)

equals_ascii_lower_folded :
    (p v : Bytes) → equals_ascii_lower (to_ascii_lower p) v ≡ equal_ignoring_case p v
unfolding equals_ascii_lower to_ascii_lower equal_ignoring_case
equals_ascii_lower_folded [] [] = refl
equals_ascii_lower_folded [] (c ∷ v) = refl
equals_ascii_lower_folded (x ∷ p) [] = refl
equals_ascii_lower_folded (x ∷ p) (c ∷ v) = rw (equals_ascii_lower_folded p v)

-- What compilation makes of a component with a star that is not `**`.
pub record IsWildcard (g : GlobComponent) : Type 0 where
  pub wildcard : g.has_wildcard ≡ true
  pub ascii : g.ascii ≡ is_ascii g.raw
  pub single : g.is_single_star ≡ true → g.raw ≡ star_text
  pub chars : g.is_single_star ≡ false → g.chars ≡ utf8_characters g.raw
  pub folded : g.folded_ascii ≡ true → (is_ascii g.raw ≡ true) × (g.folded ≡ to_ascii_lower g.raw)

module _ (part : Bytes) where
  compile_single :
      (compile_component part).is_single_star ≡ true → (compile_component part).raw ≡ star_text
  unfolding compile_component
  compile_single h =
      ground (arith, eq_of_bytes_eq (collapse_stars part) star_text, eq_of_bytes_eq part star_text)

  compile_chars :
      has_asterisk part ≡ true
      → bytes_eq part double_star_text ≡ false
      → (compile_component part).is_single_star ≡ false
      → (compile_component part).chars ≡ utf8_characters (compile_component part).raw
  unfolding compile_component
  compile_chars w d h = ground arith

  compile_folded :
      (compile_component part).folded_ascii ≡ true
      → (is_ascii (compile_component part).raw ≡ true)
        × ((compile_component part).folded ≡ to_ascii_lower (compile_component part).raw)
  unfolding compile_component
  compile_folded h = ground arith

  pub compile_component-IsWildcard :
      has_asterisk part ≡ true
      → bytes_eq part double_star_text ≡ false
      → IsWildcard (compile_component part)
  unfolding compile_component
  compile_component-IsWildcard w d = record {
    wildcard = w;
    ascii = refl;
    single = compile_single;
    chars = compile_chars w d;
    folded = compile_folded;
  }

-- A component with no star matches the values that are equal to it, and up to case those that are
-- equal to it when the case of ASCII letters is ignored.
component_matches_literal :
    (part value : Bytes)
    → has_asterisk part ≡ false
    → (component_matches_exact (compile_component part) value ≡ bytes_eq part value)
      × (component_matches_folded (compile_component part) value ≡ equal_ignoring_case part value)
unfolding component_matches_exact component_matches_folded compile_component
component_matches_literal part value n =
    (rw n, ground (arith, equals_ascii_lower_folded part value))
