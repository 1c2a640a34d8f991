-- ===== src/Wildcard/Backtrack.antt =====
-- `matchWildcardAscii` of src/Glob.cc, which goes back to the last star only, is the reference
-- matcher, and `collapseStars` does not change what a pattern matches.
use mathlib.Core.List.{tail}
use native_watcher.Base.{
  ℕ, zero, suc, ◌+◌, ◌*◌, ◌≤◌, ◌<◌, ◌≡◌, ◌∙◌, ap, sym, refl, Bool, true, false, ◌||◌, none, some,
  [], ◌∷◌, Bytes, arith, ◌==◌, length, Bool-cases, inl, inr,
}
use native_watcher.Wildcard.{wild}
use native_watcher.Wildcard.Bytewise.{
  asterisk, is_asterisk, same_byte, only_stars, Back, advance, retry, move, match_loop,
  match_wildcard_ascii, collapse_from, collapse_stars,
}

abbrev ref : Bool → Bytes → Bytes → Bool
ref ic p v = wild is_asterisk (same_byte ic) p v

wild_skip :
    (ic : Bool) (s : ℕ) (p v : Bytes) → s ≡ asterisk → ref ic p v ≡ true → ref ic (s ∷ p) v ≡ true
unfolding wild
wild_skip ic s p [] e h = ground arith
wild_skip ic s p (c ∷ v) e h = ground arith

wild_take :
    (ic : Bool) (p v : Bytes)
    → ref ic (asterisk ∷ p) (tail v) ≡ true
    → ref ic (asterisk ∷ p) v ≡ true
unfolding wild
wild_take ic p [] h = h
wild_take ic p (c ∷ v) h = ground arith

-- A star in front may drop a token and a byte with it.
wild_drop :
    (ic : Bool) (x c : ℕ) (p v : Bytes)
    → (x == asterisk) ≡ false
    → ref ic (asterisk ∷ x ∷ p) (c ∷ v) ≡ true
    → ref ic (asterisk ∷ p) v ≡ true
unfolding wild
wild_drop ic x c p [] n h = ground arith
wild_drop ic x c p (d ∷ v) n h =
    ground (arith, wild_drop ic x d p v n, wild_skip ic asterisk p (d ∷ v) refl)

wild_two_stars :
    (ic : Bool) (p v : Bytes)
    → ref ic (asterisk ∷ asterisk ∷ p) v ≡ true
    → ref ic (asterisk ∷ p) v ≡ true
unfolding wild
wild_two_stars ic p [] h = ground arith
wild_two_stars ic p (c ∷ v) h = ground (arith, wild_two_stars ic p v)

-- What the saved star can still find: it has to take the byte at `match`.
abbrev later : Bool → Back → Bool
later ic none = false
later ic (some (bp, bs)) = ref ic (asterisk ∷ bp) (tail bs)

abbrev Room : ℕ → ℕ → Bytes → Bytes → Back → Type 0
Room m k p v none = (length v ≤ m) × (length p < k)
Room m k p v (some (bp, bs)) =
    (length v ≤ length bs) × (length bs ≤ m) × (length bp < k) × (length p < k)

only_stars-wild : (ic : Bool) (p : Bytes) → only_stars p ≡ ref ic p []
unfolding only_stars wild
only_stars-wild ic [] = refl
only_stars-wild ic (x ∷ p) = ground (arith, only_stars-wild ic p)

-- An answer at the end of the value.
end_of_value :
    (ic : Bool) (p : Bytes) (b : Bool)
    → (b ≡ true → ref ic (asterisk ∷ p) [] ≡ true)
    → only_stars p ≡ (ref ic p [] || b)
unfolding wild
end_of_value ic p false h = ground (arith, only_stars-wild ic p)
end_of_value ic p true h = ground (arith, only_stars-wild ic p, h refl)

star_tail :
    (ic : Bool) (p v : Bytes)
    → (ref ic p v || ref ic (asterisk ∷ p) (tail v)) ≡ ref ic (asterisk ∷ p) v
unfolding wild
star_tail ic p [] = ground arith
star_tail ic p (c ∷ v) = ground arith

-- The loop answers whether the rest matches or the saved star helps, if the fuel lasts.
abbrev Answers : Bool → ℕ → ℕ → Type 0
Answers ic k f =
    (m : ℕ) (p v : Bytes) (back : Back)
    → Room m k p v back
    → m * k + length p < f
    → (later ic back ≡ true → ref ic (asterisk ∷ p) v ≡ true)
    → match_loop ic f p v back ≡ some (ref ic p v || later ic back)

absorb : (r b : Bool) → (b ≡ true → r ≡ true) → r ≡ (r || b)
absorb r false h = ground arith
absorb r true h = rw (h refl)

or_false : (b : Bool) → (b || false) ≡ b
or_false b = ground arith

no_more : (a b : Bool) → (a ≡ true → b ≡ true) → b ≡ false → a ≡ b
no_more true b h e = sym (h refl)
no_more false b h e = sym e

star-Room :
    (m k : ℕ) (p : Bytes) (c : ℕ) (v : Bytes) (back : Back)
    → Room m k (asterisk ∷ p) (c ∷ v) back
    → Room m k p (c ∷ v) (some (p, c ∷ v))
star-Room m k p c v none r = (omega arith, omega arith, omega arith, omega arith)
star-Room m k p c v (some (bp, bs)) r = (omega arith, omega arith, omega arith, omega arith)

token-Room :
    (m k x : ℕ) (p : Bytes) (c : ℕ) (v : Bytes) (back : Back)
    → Room m k (x ∷ p) (c ∷ v) back
    → Room m k p v back
token-Room m k x p c v none r = (omega arith, omega arith)
token-Room m k x p c v (some (bp, bs)) r = (omega arith, omega arith, omega arith, omega arith)

module _ (ic : Bool) (x c : ℕ) (p v : Bytes) (plain : (x == asterisk) ≡ false) where
  miss_token : same_byte ic x c ≡ false → ref ic (x ∷ p) (c ∷ v) ≡ false
  unfolding wild
  miss_token s = rw (plain, s)

  hit_token : same_byte ic x c ≡ true → ref ic (x ∷ p) (c ∷ v) ≡ ref ic p v
  unfolding wild
  hit_token s = rw (plain, s)

  move_miss : same_byte ic x c ≡ false → move ic (x ∷ p) c ≡ retry
  unfolding move
  move_miss s = rw (plain, s)

  move_hit : same_byte ic x c ≡ true → move ic (x ∷ p) c ≡ advance
  unfolding move
  move_hit s = rw (plain, s)

module _ (ic : Bool) (k f : ℕ) (ih : Answers ic k f) where
  retry_round :
      (m : ℕ) (p : Bytes) (c : ℕ) (v : Bytes) (back : Back)
      → Room m k p (c ∷ v) back
      → m * k + length p < suc f
      → ref ic p (c ∷ v) ≡ false
      → move ic p c ≡ retry
      → match_loop ic (suc f) p (c ∷ v) back ≡ some (ref ic p (c ∷ v) || later ic back)
  unfolding match_loop
  retry_round m p c v none r lt miss e = rw (match_loop, e, miss) refl
  retry_round m p c v (some (bp, [])) r lt miss e = absurd (omega arith)
  retry_round zero p c v (some (bp, b ∷ bs)) r lt miss e = absurd (omega arith)
  retry_round (suc m) p c v (some (bp, b ∷ bs)) r lt miss e =
      rw (match_loop, e, miss)
        (ih m bp bs (some (bp, bs)) (omega arith, omega arith, omega arith, omega arith)
            (grind arith) (wild_take ic bp bs)
          ∙ ap some (star_tail ic bp bs))

  star_round :
      (m : ℕ) (p : Bytes) (c : ℕ) (v : Bytes) (back : Back)
      → Room m k (asterisk ∷ p) (c ∷ v) back
      → m * k + length (asterisk ∷ p) < suc f
      → (later ic back ≡ true → ref ic (asterisk ∷ asterisk ∷ p) (c ∷ v) ≡ true)
      → match_loop ic (suc f) (asterisk ∷ p) (c ∷ v) back
        ≡ some (ref ic (asterisk ∷ p) (c ∷ v) || later ic back)
  unfolding match_loop move
  star_round m p c v back r lt kept =
      ih m p (c ∷ v) (some (p, c ∷ v)) (star-Room m k p c v back r) (omega arith)
        (wild_take ic p (c ∷ v))
      ∙ ap some (star_tail ic p (c ∷ v) ∙ absorb _ _ (λ h. wild_two_stars ic p (c ∷ v) (kept h)))

  token_round :
      (m : ℕ) (x : ℕ) (p : Bytes) (c : ℕ) (v : Bytes) (back : Back)
      → Room m k (x ∷ p) (c ∷ v) back
      → m * k + length (x ∷ p) < suc f
      → (later ic back ≡ true → ref ic (asterisk ∷ x ∷ p) (c ∷ v) ≡ true)
      → (x == asterisk) ≡ false
      → match_loop ic (suc f) (x ∷ p) (c ∷ v) back ≡ some (ref ic (x ∷ p) (c ∷ v) || later ic back)
  unfolding match_loop wild
  token_round m x p c v back r lt kept plain = elim (Bool-cases (same_byte ic x c)) [
    | inl s ↦
        rw (match_loop, move_hit ic x c p v plain s, hit_token ic x c p v plain s)
          (ih m p v back (token-Room m k x p c v back r) (omega arith)
            (λ h. wild_drop ic x c p v plain (kept h)))
    | inr s ↦
        retry_round m (x ∷ p) c v back r lt (miss_token ic x c p v plain s)
          (move_miss ic x c p v plain s)
  ]

match_loop-Answers : (ic : Bool) (k f : ℕ) → Answers ic k f
match_loop-Answers ic k zero m p v back r lt kept = absurd (omega arith)
match_loop-Answers ic k (suc f) m p [] back r lt kept =
    unfold match_loop in ap some (end_of_value ic p (later ic back) kept)
match_loop-Answers ic k (suc f) m [] (c ∷ v) back r lt kept =
    retry_round ic k f (match_loop-Answers ic k f) m [] c v back r lt (unfold wild in refl)
      (unfold move in refl)
match_loop-Answers ic k (suc f) m (x ∷ p) (c ∷ v) back r lt kept =
    elim (Bool-cases (x == asterisk)) [
      | inl e ↦
          let s : x ≡ asterisk = ground arith in
          rw s (star_round ic k f (match_loop-Answers ic k f) m p c v back r lt (rw s at kept))
      | inr e ↦ token_round ic k f (match_loop-Answers ic k f) m x p c v back r lt kept e
    ]

-- `matchWildcardAscii` ends within its fuel on every pattern and value, and its answer is that of
-- the reference matcher, with and without case folding.
pub match_wildcard_ascii-wild :
    (pattern value : Bytes) (ignore_case : Bool)
    → match_wildcard_ascii pattern value ignore_case
      ≡ some (wild is_asterisk (same_byte ignore_case) pattern value)
unfolding match_wildcard_ascii
match_wildcard_ascii-wild p v ic =
    match_loop-Answers ic (length p + 1) _ (length v) p v none (omega arith, omega arith)
      (grind arith) (λ h. ground arith)
    ∙ ap some (or_false (ref ic p v))

-- Patterns that match the same values.
abbrev Alike : Bool → Bytes → Bytes → Type 0
Alike ic p q = (v : Bytes) → ref ic p v ≡ ref ic q v

Alike-cons : (ic : Bool) (x : ℕ) (p q : Bytes) → Alike ic p q → Alike ic (x ∷ p) (x ∷ q)
unfolding wild
Alike-cons ic x p q h [] = ground (arith, h [])
Alike-cons ic x p q h (c ∷ v) = ground (arith, h (c ∷ v), h v, Alike-cons ic x p q h v)

two_stars-Alike : (ic : Bool) (p : Bytes) → Alike ic (asterisk ∷ asterisk ∷ p) (asterisk ∷ p)
two_stars-Alike ic p v = elim (Bool-cases (ref ic (asterisk ∷ p) v)) [
  | inl e ↦ wild_skip ic asterisk (asterisk ∷ p) v refl e ∙ sym e
  | inr e ↦ no_more (ref ic (asterisk ∷ asterisk ∷ p) v) _ (wild_two_stars ic p v) e
]

collapse_from-Alike :
    (ic : Bool) (p : Bytes)
    → Alike ic (collapse_from false p) p × Alike ic (asterisk ∷ collapse_from true p) (asterisk ∷ p)
unfolding collapse_from
collapse_from-Alike ic [] = (λ v. refl, λ v. refl)
collapse_from-Alike ic (x ∷ p) = elim (Bool-cases (x == asterisk)) [
  | inl e ↦
      let s : x ≡ asterisk = ground arith in
      rw s (
        (collapse_from-Alike ic p).1,
        λ v. (collapse_from-Alike ic p).1 v ∙ sym (two_stars-Alike ic p v),
      )
  | inr e ↦
      let same : Alike ic (x ∷ collapse_from false p) (x ∷ p) =
        Alike-cons ic x _ p (collapse_from-Alike ic p).0 in
      rw e (same, Alike-cons ic asterisk _ (x ∷ p) same)
]

-- A pattern whose runs of stars are collapsed matches the values that it matched before.
collapse_stars-wild :
    (ignore_case : Bool) (pattern value : Bytes)
    → wild is_asterisk (same_byte ignore_case) (collapse_stars pattern) value
      ≡ wild is_asterisk (same_byte ignore_case) pattern value
unfolding collapse_stars
collapse_stars-wild ic p v = (collapse_from-Alike ic p).0 v
