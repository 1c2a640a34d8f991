-- ===== src/Glob/Word.antt =====
-- `uint64_t` as the list of its bits, the lowest first, for the masks of src/Glob.cc. Bits past the
-- end of a list are zero, and a shift drops the bit that leaves the word.
use native_watcher.Base.{
  ℕ, zero, suc, ◌+◌, ◌*◌, ◌<◌, ◌≤◌, ◌≡◌, refl, ap, ◌∙◌, Bool, true, false, not, ◌&&◌, ◌||◌, List,
  [], ◌∷◌, arith, ◌==◌, ltb, if◌then◌else◌, length, get_or,
}

abbrev pub Word : Type 0
Word = List Bool

abbrev pub width : ℕ
width = 64

abbrev pub bit : Word → ℕ → Bool
bit w i = get_or w i false

unfoldable pub zeros : ℕ → Word
zeros zero = []
zeros (suc n) = false ∷ zeros n

-- `1 << i` in a word of so many bits.
unfoldable pub one_shifted : ℕ → ℕ → Word
unfolding zeros
one_shifted zero i = []
one_shifted (suc n) zero = true ∷ zeros n
one_shifted (suc n) (suc i) = false ∷ one_shifted n i

unfoldable pub or_word : Word → Word → Word
or_word [] b = b
or_word (x ∷ a) [] = x ∷ a
or_word (x ∷ a) (y ∷ b) = (x || y) ∷ or_word a b

unfoldable pub and_word : Word → Word → Word
and_word [] b = []
and_word (x ∷ a) [] = []
and_word (x ∷ a) (y ∷ b) = (x && y) ∷ and_word a b

unfoldable pub shift_in : Bool → Word → Word
shift_in carry [] = []
shift_in carry (x ∷ a) = carry ∷ shift_in x a

-- `a << 1`
unfoldable pub shift_left : Word → Word
unfolding shift_in
shift_left a = shift_in false a

-- `a - 1`, which wraps around at zero.
unfoldable pub minus_one : Word → Word
minus_one [] = []
minus_one (true ∷ a) = false ∷ a
minus_one (false ∷ a) = true ∷ minus_one a

unfoldable pub is_zero : Word → Bool
is_zero [] = true
is_zero (x ∷ a) = not x && is_zero a

unfoldable pub trailing_zeros : Word → ℕ
trailing_zeros [] = 0
trailing_zeros (true ∷ a) = 0
trailing_zeros (false ∷ a) = suc (trailing_zeros a)

-- The number that a word stands for.
unfoldable pub value : Word → ℕ
value [] = 0
value (x ∷ a) = (if x then 1 else 0) + 2 * value a

unfoldable pub ones : Word → ℕ
ones [] = 0
ones (x ∷ a) = (if x then 1 else 0) + ones a

pub bit-zeros : (n i : ℕ) → bit (zeros n) i ≡ false
unfolding zeros
bit-zeros zero i = refl
bit-zeros (suc n) zero = refl
bit-zeros (suc n) (suc i) = bit-zeros n i

pub bit-one_shifted : (n i j : ℕ) → bit (one_shifted n i) j ≡ (j == i && ltb i n)
unfolding one_shifted
bit-one_shifted zero i j = ground arith
bit-one_shifted (suc n) zero zero = ground arith
bit-one_shifted (suc n) zero (suc j) = ground (arith, bit-zeros n j)
bit-one_shifted (suc n) (suc i) zero = ground arith
bit-one_shifted (suc n) (suc i) (suc j) = ground (arith, bit-one_shifted n i j)

pub bit-or_word : (a b : Word) (j : ℕ) → bit (or_word a b) j ≡ (bit a j || bit b j)
unfolding or_word
bit-or_word [] b j = refl
bit-or_word (x ∷ a) [] j = ground arith
bit-or_word (x ∷ a) (y ∷ b) zero = refl
bit-or_word (x ∷ a) (y ∷ b) (suc j) = bit-or_word a b j

pub bit-and_word : (a b : Word) (j : ℕ) → bit (and_word a b) j ≡ (bit a j && bit b j)
unfolding and_word
bit-and_word [] b j = refl
bit-and_word (x ∷ a) [] j = ground arith
bit-and_word (x ∷ a) (y ∷ b) zero = refl
bit-and_word (x ∷ a) (y ∷ b) (suc j) = bit-and_word a b j

bit-shift_in :
    (c : Bool) (a : Word) (j : ℕ) → suc j < length a → bit (shift_in c a) (suc j) ≡ bit a j
unfolding shift_in
bit-shift_in c [] j h = absurd (omega arith)
bit-shift_in c (x ∷ []) j h = absurd (omega arith)
bit-shift_in c (x ∷ y ∷ a) zero h = refl
bit-shift_in c (x ∷ y ∷ a) (suc j) h = bit-shift_in x (y ∷ a) j (omega arith)

shift_in-past : (c : Bool) (a : Word) (j : ℕ) → length a ≤ j → bit (shift_in c a) j ≡ false
unfolding shift_in
shift_in-past c [] j h = refl
shift_in-past c (x ∷ a) zero h = absurd (omega arith)
shift_in-past c (x ∷ a) (suc j) h = shift_in-past x a j (omega arith)

shift_in-zero : (a : Word) → bit (shift_in false a) 0 ≡ false
unfolding shift_in
shift_in-zero [] = refl
shift_in-zero (x ∷ a) = refl

abbrev pub prev_bit : Word → ℕ → Bool
prev_bit a zero = false
prev_bit a (suc j) = bit a j

pub bit-shift_left : (a : Word) (j : ℕ) → bit (shift_left a) j ≡ (prev_bit a j && ltb j (length a))
unfolding shift_left
bit-shift_left a zero = shift_in-zero a
bit-shift_left a (suc j) = grind (arith, bit-shift_in false a j, shift_in-past false a (suc j))

and_self : (a : Word) → and_word a a ≡ a
unfolding and_word
and_self [] = refl
and_self (x ∷ a) = ground (arith, and_self a)

-- `a & (a - 1)` clears the lowest bit that is set.
pub bit-clear_lowest :
    (a : Word) (j : ℕ)
    → is_zero a ≡ false
    → bit (and_word a (minus_one a)) j ≡ (bit a j && not (j == trailing_zeros a))
unfolding and_word minus_one is_zero trailing_zeros
bit-clear_lowest [] j h = cc
bit-clear_lowest (true ∷ a) zero h = ground arith
bit-clear_lowest (true ∷ a) (suc j) h = rw (and_self a) (ground arith)
bit-clear_lowest (false ∷ a) zero h = ground arith
bit-clear_lowest (false ∷ a) (suc j) h = ground (arith, bit-clear_lowest a j h)

pub ones-clear_lowest :
    (a : Word) → is_zero a ≡ false → suc (ones (and_word a (minus_one a))) ≡ ones a
unfolding and_word minus_one is_zero ones
ones-clear_lowest [] h = cc
ones-clear_lowest (true ∷ a) h = rw (and_self a) (omega arith)
ones-clear_lowest (false ∷ a) h = omega (arith, ones-clear_lowest a h)

pub bit-trailing_zeros : (a : Word) → is_zero a ≡ false → bit a (trailing_zeros a) ≡ true
unfolding is_zero trailing_zeros
bit-trailing_zeros [] h = cc
bit-trailing_zeros (true ∷ a) h = refl
bit-trailing_zeros (false ∷ a) h = bit-trailing_zeros a h

pub bit_of_is_zero : (a : Word) (j : ℕ) → is_zero a ≡ true → bit a j ≡ false
unfolding is_zero
bit_of_is_zero [] j h = refl
bit_of_is_zero (x ∷ a) zero h = ground arith
bit_of_is_zero (x ∷ a) (suc j) h = bit_of_is_zero a j (ground arith)

pub ones-le-length : (a : Word) → ones a ≤ length a
unfolding ones
ones-le-length [] = omega arith
ones-le-length (x ∷ a) = ground (arith, ones-le-length a)

-- `minus_one` is the subtraction of numbers, except that zero wraps around.
pub value-minus_one : (a : Word) → is_zero a ≡ false → suc (value (minus_one a)) ≡ value a
unfolding minus_one is_zero value
value-minus_one [] h = cc
value-minus_one (true ∷ a) h = omega arith
value-minus_one (false ∷ a) h = omega (arith, value-minus_one a h)

pub length-zeros : (n : ℕ) → length (zeros n) ≡ n
unfolding zeros
length-zeros zero = refl
length-zeros (suc n) = ap suc (length-zeros n)

pub length-one_shifted : (n i : ℕ) → length (one_shifted n i) ≡ n
unfolding one_shifted
length-one_shifted zero i = refl
length-one_shifted (suc n) zero = ap suc (length-zeros n)
length-one_shifted (suc n) (suc i) = ap suc (length-one_shifted n i)

pub length-or_word : (a b : Word) (n : ℕ) → length a ≡ n → length b ≡ n → length (or_word a b) ≡ n
unfolding or_word
length-or_word [] b n p q = q
length-or_word (x ∷ a) [] n p q = p
length-or_word (x ∷ a) (y ∷ b) zero p q = absurd (omega arith)
length-or_word (x ∷ a) (y ∷ b) (suc n) p q =
    ap suc (length-or_word a b n (omega arith) (omega arith))

pub length-and_word : (a b : Word) (n : ℕ) → length a ≡ n → length b ≡ n → length (and_word a b) ≡ n
unfolding and_word
length-and_word [] b n p q = p
length-and_word (x ∷ a) [] n p q = q
length-and_word (x ∷ a) (y ∷ b) zero p q = absurd (omega arith)
length-and_word (x ∷ a) (y ∷ b) (suc n) p q =
    ap suc (length-and_word a b n (omega arith) (omega arith))

length-shift_in : (c : Bool) (a : Word) → length (shift_in c a) ≡ length a
unfolding shift_in
length-shift_in c [] = refl
length-shift_in c (x ∷ a) = ap suc (length-shift_in x a)

pub length-shift_left : (a : Word) (n : ℕ) → length a ≡ n → length (shift_left a) ≡ n
unfolding shift_left
length-shift_left a n p = length-shift_in false a ∙ p

and_zeros : (a : Word) (n : ℕ) → is_zero (and_word a (zeros n)) ≡ true
unfolding and_word zeros is_zero
and_zeros [] n = refl
and_zeros (x ∷ a) zero = refl
and_zeros (x ∷ a) (suc n) = ground (arith, and_zeros a n)

-- A test of one bit.
pub is_zero-and-one_shifted :
    (a : Word) (n i : ℕ) → i < n → is_zero (and_word a (one_shifted n i)) ≡ not (bit a i)
unfolding and_word one_shifted is_zero
is_zero-and-one_shifted [] n i h = refl
is_zero-and-one_shifted (x ∷ a) zero i h = absurd (omega arith)
is_zero-and-one_shifted (x ∷ a) (suc n) zero h = ground (arith, and_zeros a n)
is_zero-and-one_shifted (x ∷ a) (suc n) (suc i) h = ground (arith, is_zero-and-one_shifted a n i)
