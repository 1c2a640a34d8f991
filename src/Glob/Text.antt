-- ===== src/Glob/Text.antt =====
-- src/Glob.cc: `components` and `utf8Characters`.
use Prim.Native.Nat.{bit_and}
use native_watcher.Base.{
  ℕ, zero, suc, ◌≤◌, ◌≡◌, refl, ap, ◌∙◌, Bool, true, not, ◌&&◌, List, [], ◌∷◌, ◌++◌, map, arith,
  Bytes, ltb, leb, ◌==◌, if◌then◌else◌, length, get_or, take, drop, slash, Bool-cases, inl, inr,
}
use native_watcher.Wildcard.Bytewise.{is_ascii}

abbrev pub cons_head : ℕ → List Bytes → List Bytes
cons_head c [] = (c ∷ []) ∷ []
cons_head c (part ∷ parts) = (c ∷ part) ∷ parts

-- The loop of `components`: `start` is where the head of the result begins.
unfoldable pub split_at_slashes : Bytes → List Bytes
split_at_slashes [] = [] ∷ []
split_at_slashes (c ∷ path) =
    let parts = split_at_slashes path in if c == slash then [] ∷ parts else cons_head c parts

unfoldable pub components : Bytes → List Bytes
unfolding split_at_slashes
components [] = []
components (c ∷ path) = split_at_slashes (c ∷ path)

-- Whether the byte at an offset behind the first one continues a character.
unfoldable pub continuation : Bytes → ℕ → Bool
continuation rest offset = ltb offset (length rest) && bit_and (get_or rest offset 0) 0xc0 == 0x80

-- How many bytes the character at the front has, by its first byte and those behind it. Offset 0
-- of `rest` is the byte behind the first.
unfoldable pub character_length : ℕ → Bytes → ℕ
unfolding continuation
character_length first rest =
    if leb 0xc2 first && leb first 0xdf && continuation rest 0
    then 2
    else if leb 0xe0 first
        && leb first 0xef
        && continuation rest 0
        && continuation rest 1
        && not (first == 0xe0 && ltb (get_or rest 0 0) 0xa0)
        && not (first == 0xed && leb 0xa0 (get_or rest 0 0))
    then 3
    else if leb 0xf0 first
        && leb first 0xf4
        && continuation rest 0
        && continuation rest 1
        && continuation rest 2
        && not (first == 0xf0 && ltb (get_or rest 0 0) 0x90)
        && not (first == 0xf4 && leb 0x90 (get_or rest 0 0))
    then 4
    else 1

-- Each round takes at least one byte, so the size of the value is fuel enough.
unfoldable pub utf8_loop : ℕ → Bytes → List Bytes
unfolding character_length
utf8_loop fuel [] = []
utf8_loop zero (first ∷ rest) = []
utf8_loop (suc fuel) (first ∷ rest) =
    let n = character_length first rest in
    take n (first ∷ rest) ∷ utf8_loop fuel (drop n (first ∷ rest))

unfoldable pub utf8_characters : Bytes → List Bytes
unfolding utf8_loop
utf8_characters value = utf8_loop (length value) value

-- Printing: the components with a slash between each two.
unfoldable pub join : List Bytes → Bytes
join [] = []
join (part ∷ []) = part
join (part ∷ next ∷ parts) = part ++ slash ∷ join (next ∷ parts)

split_at_slashes-cons :
    (path : Bytes) → (head : Bytes) × (rest : List Bytes) × (split_at_slashes path ≡ head ∷ rest)
unfolding split_at_slashes
split_at_slashes-cons [] = ([], [], refl)
split_at_slashes-cons (c ∷ path) =
    let (head, rest, e) = split_at_slashes-cons path in
    elim (Bool-cases (c == slash)) [
      | inl s ↦ ([], split_at_slashes path, rw s)
      | inr s ↦ (c ∷ head, rest, rw (s, e))
    ]

join-cons_head :
    (c : ℕ) (head : Bytes) (rest : List Bytes) → join ((c ∷ head) ∷ rest) ≡ c ∷ join (head ∷ rest)
unfolding join
join-cons_head c head [] = refl
join-cons_head c head (part ∷ parts) = refl

join-split_at_slashes : (path : Bytes) → join (split_at_slashes path) ≡ path
unfolding split_at_slashes join
join-split_at_slashes [] = refl
join-split_at_slashes (c ∷ path) =
    let (head, rest, e) = split_at_slashes-cons path in
    let ih : join (head ∷ rest) ≡ path = rw e at (join-split_at_slashes path) in
    elim (Bool-cases (c == slash)) [
      | inl s ↦ let is : c ≡ slash = ground arith in rw (s, e, is) (ap (◌∷◌ slash) ih)
      | inr s ↦ rw (s, e) (join-cons_head c head rest ∙ ap (◌∷◌ c) ih)
    ]

-- A path is its components with slashes between them.
pub join-components : (path : Bytes) → join (components path) ≡ path
unfolding components
join-components [] = unfold join in refl
join-components (c ∷ path) = join-split_at_slashes (c ∷ path)

pub character_length-pos : (first : ℕ) (rest : Bytes) → 1 ≤ character_length first rest
unfolding character_length continuation
character_length-pos first rest = grind arith

length-drop-le : (n : ℕ) (xs : Bytes) → length (drop n xs) ≤ length xs
length-drop-le zero xs = omega arith
length-drop-le (suc n) [] = omega arith
length-drop-le (suc n) (x ∷ xs) = omega (arith, length-drop-le n xs)

pub length-drop-lt : (n : ℕ) (x : ℕ) (xs : Bytes) → 1 ≤ n → length (drop n (x ∷ xs)) ≤ length xs
length-drop-lt zero x xs h = absurd (omega arith)
length-drop-lt (suc n) x xs h = length-drop-le n xs

character_length_ascii :
    (first : ℕ) (rest : Bytes) → ltb first 128 ≡ true → character_length first rest ≡ 1
unfolding character_length
character_length_ascii first rest h = ground arith

abbrev pub singleton : ℕ → Bytes
singleton c = c ∷ []

utf8_loop_ascii :
    (fuel : ℕ) (value : Bytes)
    → length value ≤ fuel
    → is_ascii value ≡ true
    → utf8_loop fuel value ≡ map singleton value
unfolding utf8_loop is_ascii
utf8_loop_ascii fuel [] h a = refl
utf8_loop_ascii zero (first ∷ rest) h a = absurd (omega arith)
utf8_loop_ascii (suc fuel) (first ∷ rest) h a =
    rw (character_length_ascii first rest (ground arith))
      (ap (◌∷◌ (singleton first)) (utf8_loop_ascii fuel rest (omega arith) (ground arith)))

pub utf8_characters_ascii :
    (value : Bytes) → is_ascii value ≡ true → utf8_characters value ≡ map singleton value
unfolding utf8_characters
utf8_characters_ascii value a = utf8_loop_ascii (length value) value (omega arith) a
