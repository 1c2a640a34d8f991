-- ===== src/Wildcard/Bytewise.antt =====
-- src/Glob.cc: ASCII case folding, `matchWildcardAscii` and `collapseStars`. The indices `p` and `v`
-- are the rest of the pattern and of the value; `star` and `match` are the rests that they mark.
use mathlib.Core.List.{tail}
use native_watcher.Base.{
  ℕ, zero, suc, ◌+◌, ◌*◌, Bool, true, false, not, ◌&&◌, Option, none, some, [], ◌∷◌, Bytes, ltb,
  leb, ◌==◌, if◌then◌else◌, length, all, map,
}

abbrev pub asterisk : ℕ
asterisk = 42

unfoldable pub is_ascii : Bytes → Bool
unfolding all
is_ascii value = all (λ ch. ltb ch 128) value

-- `if (ch >= 'A' && ch <= 'Z') ch += 'a' - 'A'`
unfoldable pub lower : ℕ → ℕ
lower ch = if leb b'A' ch && leb ch b'Z' then ch + 32 else ch

unfoldable pub to_ascii_lower : Bytes → Bytes
to_ascii_lower value = map lower value

-- The sizes are the same, and so are the bytes once those of the value are folded.
unfoldable pub equals_ascii_lower : Bytes → Bytes → Bool
unfolding lower
equals_ascii_lower [] [] = true
equals_ascii_lower [] (c ∷ value) = false
equals_ascii_lower (x ∷ pattern) [] = false
equals_ascii_lower (x ∷ pattern) (c ∷ value) = x == lower c && equals_ascii_lower pattern value

-- `equalIgnoringCase` of the builds other than Windows.
unfoldable pub equal_ignoring_case : Bytes → Bytes → Bool
unfolding lower
equal_ignoring_case [] [] = true
equal_ignoring_case [] (c ∷ right) = false
equal_ignoring_case (x ∷ left) [] = false
equal_ignoring_case (x ∷ left) (c ∷ right) = lower x == lower c && equal_ignoring_case left right

unfoldable pub same_byte : Bool → ℕ → ℕ → Bool
unfolding lower
same_byte ignore_case pc vc =
    (if ignore_case then lower pc else pc) == (if ignore_case then lower vc else vc)

abbrev pub is_asterisk : ℕ → Bool
is_asterisk c = c == asterisk

-- After the value: only stars may be left of the pattern.
unfoldable pub only_stars : Bytes → Bool
only_stars [] = true
only_stars (x ∷ p) = x == asterisk && only_stars p

-- The rest of the pattern after the last star and the rest of the value at `match`.
abbrev pub Back : Type 0
Back = Option (Bytes × Bytes)

-- What a round of the loop does at a byte of the value.
pub data Move : Type 0 where
  advance star_here retry : Move

unfoldable pub move : Bool → Bytes → ℕ → Move
unfolding same_byte
move ic [] c = retry
move ic (x ∷ p) c =
    if not (x == asterisk) && same_byte ic x c
    then advance
    else if x == asterisk
    then star_here
    else retry

-- The `while` loop; `none` is fuel that ran out.
unfoldable pub match_loop : Bool → ℕ → Bytes → Bytes → Back → Option Bool
match_loop ic zero p v back = none
match_loop ic (suc f) p [] back = some (only_stars p)
match_loop ic (suc f) p (c ∷ v) back = elim (move ic p c) [
  | advance ↦ match_loop ic f (tail p) v back
  | star_here ↦ match_loop ic f (tail p) (c ∷ v) (some (tail p, c ∷ v))
  | retry ↦ elim back [
    | none ↦ some false
    | some (bp, bs) ↦ match_loop ic f bp (tail bs) (some (bp, tail bs))
  ]
]

unfoldable pub match_wildcard_ascii : Bytes → Bytes → Bool → Option Bool
unfolding match_loop only_stars move
match_wildcard_ascii pattern value ignore_case =
    match_loop ignore_case ((length value + 1) * (length pattern + 1)) pattern value none

-- The second argument says whether the result so far ends in a star.
unfoldable pub collapse_from : Bool → Bytes → Bytes
collapse_from after_star [] = []
collapse_from after_star (ch ∷ value) =
    let rest = collapse_from (ch == asterisk) value in
    if ch == asterisk && after_star then rest else ch ∷ rest

unfoldable pub collapse_stars : Bytes → Bytes
unfolding collapse_from
collapse_stars value = collapse_from false value
