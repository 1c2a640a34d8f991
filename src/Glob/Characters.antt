-- ===== src/Glob/Characters.antt =====
-- src/Glob.cc: `utf8Characters` against the encoding of UTF-8.
use Prim.Native.Nat.{bit_and}
use native_watcher.Base.{
  ℕ, zero, suc, ◌+◌, ◌*◌, ◌-◌, ◌<◌, ◌≤◌, ◌≡◌, refl, ap, ◌∙◌, Bool, true, false, not, ◌&&◌, ◌||◌,
  List, [], ◌∷◌, ◌++◌, arith, Bytes, ltb, leb, ◌==◌, length, get_or, All, Bool-cases, inl, inr, ◌⊎◌,
  take, take-append-drop, drop, subst, sym,
}
use native_watcher.Glob.Text.{
  continuation, character_length, utf8_loop, utf8_characters, length-drop-lt, character_length-pos,
}

abbrev pub IsTail : ℕ → Type 0
IsTail b = (0x80 ≤ b) × (b < 0xc0)

-- The bytes of a scalar value, which is at most 0x10ffff and no surrogate.
abbrev pub Encodes : ℕ → Bytes → Type 0
Encodes c (x ∷ []) = (c ≡ x) × (c < 0x80)
Encodes c (x ∷ y ∷ []) =
    (c ≡ (x - 0xc0) * 64 + (y - 0x80)) × (0xc0 ≤ x) × IsTail y × (0x80 ≤ c) × (c < 0x800)
Encodes c (x ∷ y ∷ z ∷ []) =
    (c ≡ (x - 0xe0) * 4096 + (y - 0x80) * 64 + (z - 0x80))
    × (0xe0 ≤ x)
    × IsTail y
    × IsTail z
    × (0x800 ≤ c)
    × (c < 0x10000)
    × ((ltb c 0xd800 || leb 0xe000 c) ≡ true)
Encodes c (x ∷ y ∷ z ∷ w ∷ []) =
    (c ≡ (x - 0xf0) * 262144 + (y - 0x80) * 4096 + (z - 0x80) * 64 + (w - 0x80))
    × (0xf0 ≤ x)
    × IsTail y
    × IsTail z
    × IsTail w
    × (0x10000 ≤ c)
    × (c < 0x110000)
Encodes c [] = true ≡ false
Encodes c (x ∷ y ∷ z ∷ w ∷ v ∷ more) = true ≡ false

abbrev pub IsCharacter : Bytes → Type 0
IsCharacter bs = (c : ℕ) × Encodes c bs

-- A test of every number below a bound.
all_below : ℕ → (ℕ → Bool) → Bool
all_below zero p = true
all_below (suc n) p = p n && all_below n p

all_below-at : (n i : ℕ) (p : ℕ → Bool) → all_below n p ≡ true → i < n → p i ≡ true
unfolding all_below
all_below-at zero i p h l = absurd (omega arith)
all_below-at (suc n) i p h l = elim (Bool-cases (i == n)) [
  | inl same ↦ let e : i ≡ n = ground arith in rw e (ground (arith, h))
  | inr other ↦ all_below-at n i p (ground (arith, h)) (ground arith)
]

abbrev same : Bool → Bool → Bool
same a b = (a && b) || (not a && not b)

abbrev is_tail : ℕ → Bool
is_tail b = leb 0x80 b && ltb b 0xc0

tail_bits : all_below 256 (λ b. same (bit_and b 0xc0 == 0x80) (is_tail b)) ≡ true
unfolding all_below
tail_bits = refl

tail_bits_at : (b : ℕ) → b < 256 → (bit_and b 0xc0 == 0x80) ≡ is_tail b
tail_bits_at b h =
    ground (arith, all_below-at 256 b (λ b. same (bit_and b 0xc0 == 0x80) (is_tail b)) tail_bits h)

-- The first byte and the two behind it, where there are two.
character_two :
    (x y : ℕ) (tail : Bytes) (c : ℕ)
    → y < 256
    → Encodes c (x ∷ y ∷ [])
    → character_length x (y ∷ tail) ≡ 2
unfolding character_length continuation
character_two x y tail c h e = ground (arith, tail_bits_at y h, e)

character_three :
    (x y z : ℕ) (tail : Bytes) (c : ℕ)
    → y < 256
    → z < 256
    → Encodes c (x ∷ y ∷ z ∷ [])
    → character_length x (y ∷ z ∷ tail) ≡ 3
unfolding character_length continuation
character_three x y z tail c h k e = ground (arith, tail_bits_at y h, tail_bits_at z k, e)

character_four :
    (x y z w : ℕ) (tail : Bytes) (c : ℕ)
    → y < 256
    → z < 256
    → w < 256
    → Encodes c (x ∷ y ∷ z ∷ w ∷ [])
    → character_length x (y ∷ z ∷ w ∷ tail) ≡ 4
unfolding character_length continuation
character_four x y z w tail c h k l e =
    ground (arith, tail_bits_at y h, tail_bits_at z k, tail_bits_at w l, e)

two-IsCharacter :
    (x y : ℕ) (tail : Bytes)
    → y < 256
    → character_length x (y ∷ tail) ≡ 2
    → IsCharacter (x ∷ y ∷ [])
unfolding character_length continuation
two-IsCharacter x y tail h e =
    let low : 0xc2 ≤ x = ground (arith, tail_bits_at y h, e) in
    let high : x ≤ 0xdf = ground (arith, tail_bits_at y h, e) in
    let t : IsTail y = ground (arith, tail_bits_at y h, e) in
    (
      (x - 0xc0) * 64 + (y - 0x80),
      (refl, omega (arith, low), t, omega (arith, low, t), omega (arith, high, t)),
    )

three-IsCharacter :
    (x y z : ℕ) (tail : Bytes)
    → y < 256
    → z < 256
    → character_length x (y ∷ z ∷ tail) ≡ 3
    → IsCharacter (x ∷ y ∷ z ∷ [])
unfolding character_length continuation
three-IsCharacter x y z tail h k e =
    let t : IsTail y = ground (arith, tail_bits_at y h, e) in
    let u : IsTail z = ground (arith, tail_bits_at z k, e) in
    let low : 0xe0 ≤ x = ground (arith, e) in
    let high : x ≤ 0xef = ground (arith, e) in
    let short : (leb 0xe1 x || leb 0xa0 y) ≡ true = ground (arith, e) in
    let surrogate : (leb 0xee x || leb x 0xec || ltb y 0xa0) ≡ true = ground (arith, e) in
    let c = (x - 0xe0) * 4096 + (y - 0x80) * 64 + (z - 0x80) in
    let long : 0x800 ≤ c = ground (arith, t, u, low, short) in
    let small : c < 0x10000 = omega (arith, t, u, high) in
    let apart : (ltb c 0xd800 || leb 0xe000 c) ≡ true = ground (arith, t, u, low, surrogate) in
    (c, (refl, low, t, u, long, small, apart))

four-IsCharacter :
    (x y z w : ℕ) (tail : Bytes)
    → y < 256
    → z < 256
    → w < 256
    → character_length x (y ∷ z ∷ w ∷ tail) ≡ 4
    → IsCharacter (x ∷ y ∷ z ∷ w ∷ [])
unfolding character_length continuation
four-IsCharacter x y z w tail h k l e =
    let t : IsTail y = ground (arith, tail_bits_at y h, e) in
    let u : IsTail z = ground (arith, tail_bits_at z k, e) in
    let v : IsTail w = ground (arith, tail_bits_at w l, e) in
    let low : 0xf0 ≤ x = ground (arith, e) in
    let high : x ≤ 0xf4 = ground (arith, e) in
    let short : (leb 0xf1 x || leb 0x90 y) ≡ true = ground (arith, e) in
    let last : (leb x 0xf3 || ltb y 0x90) ≡ true = ground (arith, e) in
    let c = (x - 0xf0) * 262144 + (y - 0x80) * 4096 + (z - 0x80) * 64 + (w - 0x80) in
    let long : 0x10000 ≤ c = ground (arith, t, u, v, low, short) in
    let small : c < 0x110000 = ground (arith, t, u, v, high, last) in
    (c, (refl, low, t, u, v, long, small))

-- The lengths that there are, with as many bytes behind the first.
length_cases :
    (x : ℕ) (rest : Bytes)
    → (character_length x rest ≡ 1)
      ⊎ ((character_length x rest ≡ 2) × (1 ≤ length rest))
      ⊎ ((character_length x rest ≡ 3) × (2 ≤ length rest))
      ⊎ ((character_length x rest ≡ 4) × (3 ≤ length rest))
unfolding character_length continuation
length_cases x rest = ground arith

-- Text that begins with a character of UTF-8 is split behind it, and other text behind its first byte.
pub data Splits : Bytes → List Bytes → Type 0 where
  ended : Splits [] []
  character :
      (bs rest : Bytes) (chars : List Bytes)
      → IsCharacter bs
      → Splits rest chars
      → Splits (bs ++ rest) (bs ∷ chars)
  stray :
      (b : ℕ) (rest : Bytes) (chars : List Bytes)
      → ((bs tail : Bytes) → IsCharacter bs → ¬ (bs ++ tail ≡ b ∷ rest))
      → Splits rest chars
      → Splits (b ∷ rest) ((b ∷ []) ∷ chars)

abbrev pub AreBytes : Bytes → Type 0
AreBytes bs = All (λ b. b < 256) bs

-- A longer character is seen as such.
longer :
    (bs : Bytes)
    → IsCharacter bs
    → AreBytes bs
    → 0x80 ≤ get_or bs 0 0
    → (tail : Bytes) → ¬ (character_length (get_or bs 0 0) (drop 1 bs ++ tail) ≡ 1)
longer [] (c, e) a h tail n = cc
longer (x ∷ []) (c, e) a h tail n = absurd (omega (arith, e))
longer (x ∷ y ∷ []) (c, e) a h tail n = ground (arith, character_two x y tail c a.1.0 e, n)
longer (x ∷ y ∷ z ∷ []) (c, e) a h tail n =
    ground (arith, character_three x y z tail c a.1.0 a.1.1.0 e, n)
longer (x ∷ y ∷ z ∷ w ∷ []) (c, e) a h tail n =
    ground (arith, character_four x y z w tail c a.1.0 a.1.1.0 a.1.1.1.0 e, n)
longer (x ∷ y ∷ z ∷ w ∷ v ∷ more) (c, e) a h tail n = cc

AreBytes-left : (xs ys : Bytes) → AreBytes (xs ++ ys) → AreBytes xs
AreBytes-left [] ys a = tt
AreBytes-left (x ∷ xs) ys a = (a.0, AreBytes-left xs ys a.1)

no_character :
    (b : ℕ) (rest : Bytes)
    → AreBytes (b ∷ rest)
    → 0x80 ≤ b
    → character_length b rest ≡ 1
    → (bs tail : Bytes) → IsCharacter bs
    → ¬ (bs ++ tail ≡ b ∷ rest)
no_character b rest a h n [] tail (c, e) q = cc
no_character b rest a h n (x ∷ bs) tail e q =
    let first : x ≡ b = ap (λ (l : Bytes). get_or l 0 0) q in
    longer (x ∷ bs) e (AreBytes-left (x ∷ bs) tail (subst AreBytes (sym q) a))
      (subst (λ i. 0x80 ≤ i) (sym first) h) tail
      (ap (λ (l : Bytes). character_length (get_or l 0 0) (drop 1 l)) q ∙ n)

AreBytes-drop : (n : ℕ) (xs : Bytes) → AreBytes xs → AreBytes (drop n xs)
AreBytes-drop zero xs a = a
AreBytes-drop (suc n) [] a = tt
AreBytes-drop (suc n) (x ∷ xs) a = AreBytes-drop n xs a.1

front_two :
    (x : ℕ) (rest : Bytes)
    → AreBytes rest
    → character_length x rest ≡ 2
    → 1 ≤ length rest
    → IsCharacter (take 2 (x ∷ rest))
front_two x [] a n h = absurd (omega arith)
front_two x (y ∷ tail) a n h = two-IsCharacter x y tail a.0 n

front_three :
    (x : ℕ) (rest : Bytes)
    → AreBytes rest
    → character_length x rest ≡ 3
    → 2 ≤ length rest
    → IsCharacter (take 3 (x ∷ rest))
front_three x [] a n h = absurd (omega arith)
front_three x (y ∷ []) a n h = absurd (omega arith)
front_three x (y ∷ z ∷ tail) a n h = three-IsCharacter x y z tail a.0 a.1.0 n

front_four :
    (x : ℕ) (rest : Bytes)
    → AreBytes rest
    → character_length x rest ≡ 4
    → 3 ≤ length rest
    → IsCharacter (take 4 (x ∷ rest))
front_four x [] a n h = absurd (omega arith)
front_four x (y ∷ []) a n h = absurd (omega arith)
front_four x (y ∷ z ∷ []) a n h = absurd (omega arith)
front_four x (y ∷ z ∷ w ∷ tail) a n h = four-IsCharacter x y z w tail a.0 a.1.0 a.1.1.0 n

front :
    (x : ℕ) (rest : Bytes)
    → AreBytes rest
    → (character_length x rest ≡ 1) ⊎ IsCharacter (take (character_length x rest) (x ∷ rest))
front x rest a = elim (length_cases x rest) [
  | inl one ↦ inl one
  | inr (inl (two, h)) ↦ inr (rw two (front_two x rest a two h))
  | inr (inr (inl (three, h))) ↦ inr (rw three (front_three x rest a three h))
  | inr (inr (inr (four, h))) ↦ inr (rw four (front_four x rest a four h))
]

below : (x m : ℕ) → ltb x m ≡ true → x < m
below x m h = ground arith

above : (x m : ℕ) → ltb x m ≡ false → m ≤ x
above x m h = ground arith

one_byte :
    (x : ℕ) (rest : Bytes) (chars : List Bytes)
    → AreBytes (x ∷ rest)
    → character_length x rest ≡ 1
    → Splits rest chars
    → Splits (x ∷ rest) ((x ∷ []) ∷ chars)
one_byte x rest chars a one later = elim (Bool-cases (ltb x 0x80)) [
  | inl y ↦ character (x ∷ []) rest chars (x, (refl, below x 0x80 y)) later
  | inr n ↦ stray x rest chars (no_character x rest a (above x 0x80 n) one) later
]

loop-Splits :
    (fuel : ℕ) (value : Bytes)
    → length value ≤ fuel
    → AreBytes value
    → Splits value (utf8_loop fuel value)
unfolding utf8_loop
loop-Splits fuel [] h a = ended
loop-Splits zero (x ∷ rest) h a = absurd (omega arith)
loop-Splits (suc fuel) (x ∷ rest) h a =
    let n = character_length x rest in
    let later = loop-Splits fuel rest (omega arith) a.1 in
    elim (front x rest a.1) [
      | inl one ↦ rw one (one_byte x rest _ a one later)
      | inr found ↦
          subst (λ v. Splits v (utf8_loop (suc fuel) (x ∷ rest))) (take-append-drop n (x ∷ rest))
            (character (take n (x ∷ rest)) (drop n (x ∷ rest)) _ found (
              loop-Splits fuel (drop n (x ∷ rest))
                (omega (arith, length-drop-lt n x rest (character_length-pos x rest)))
                (AreBytes-drop n (x ∷ rest) a)))
    ]

-- The characters of bytes: wherever a character of UTF-8 begins, in the shortest form and of a scalar
-- value, all its bytes are one, and elsewhere one byte is.
pub utf8_characters-Splits : (value : Bytes) → AreBytes value → Splits value (utf8_characters value)
unfolding utf8_characters
utf8_characters-Splits value a = loop-Splits (length value) value (omega arith) a
