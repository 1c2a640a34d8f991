-- ===== src/Glob/Candidates.antt =====
-- src/Glob.cc: the loop of `stepBitmask` over the candidate bits.
use native_watcher.Base.{
  ℕ, zero, suc, ◌+◌, ◌<◌, ◌≡◌, refl, ap, ◌∙◌, Bool, true, false, ◌&&◌, ◌||◌, Option, none, some,
  List, arith, Bytes, ltb, ◌==◌, length, get_elem?, Bool-cases, Option-cases, inl, inr,
}
use native_watcher.Glob.Component.{GlobComponent, component_matches_exact, component_matches_folded}
use native_watcher.Glob.Word.{
  Word, width, bit, one_shifted, or_word, and_word, minus_one, is_zero, trailing_zeros, ones,
  bit-one_shifted, bit-or_word, bit-clear_lowest, ones-clear_lowest, bit-trailing_zeros,
  bit_of_is_zero, length-one_shifted, length-or_word,
}
use native_watcher.Glob.Automaton.{
  DirectoryCaseSensitivity, is_insensitive, Cached, ask, try_part, try_index, candidate_loop,
}

module _ (case_sensitivity : Bytes → DirectoryCaseSensitivity) where
  -- A component matches in a directory: as it is written, or up to case where the directory ignores
  -- case.
  unfoldable pub matches_in : GlobComponent → Bytes → Bytes → Bool
  matches_in part component directory =
      component_matches_exact part component
      || (component_matches_folded part component && is_insensitive (case_sensitivity directory))

  abbrev pub hit : List GlobComponent → Bytes → Bytes → ℕ → Bool
  hit parts component directory p = elim (get_elem? parts p) [
    | none ↦ false
    | some part ↦ matches_in part component directory
  ]

  abbrev pub Coherent : Bytes → Cached → Type 0
  Coherent directory none = Unit
  Coherent directory (some known) = known ≡ case_sensitivity directory

  ask-Coherent :
      (directory : Bytes) (cached : Cached)
      → Coherent directory cached
      → ask case_sensitivity directory cached ≡ case_sensitivity directory
  ask-Coherent directory none h = refl
  ask-Coherent directory (some known) h = h

  module _ (parts : List GlobComponent) (component directory : Bytes) where
    abbrev h : ℕ → Bool
    h p = hit parts component directory p

    -- One part sets its successor's bit if it matches, and keeps the cached answer true.
    pub record Tried (p : ℕ) (next : Word) (r : Word × Cached) : Type 0 where
      pub coherent : Coherent directory r.1
      pub sized : length r.0 ≡ width
      pub bits : (j : ℕ) → bit r.0 j ≡ (bit next j || (h p && (j == p + 1) && ltb j width))

    abbrev or_next : ℕ → Word → Word
    or_next p next = or_word next (one_shifted width (p + 1))

    or_next_bits :
        (p : ℕ) (next : Word) (j : ℕ)
        → bit (or_next p next) j ≡ (bit next j || ((j == p + 1) && ltb (p + 1) width))
    or_next_bits p next j =
        bit-or_word next _ j ∙ ap (λ b. bit next j || b) (bit-one_shifted width (p + 1) j)

    set_next :
        (p : ℕ) (next : Word) (cached : Cached)
        → h p ≡ true
        → Coherent directory cached
        → length next ≡ width
        → Tried p next (or_next p next, cached)
    set_next p next cached e c l = record {
      coherent = c;
      sized = length-or_word next _ width l (length-one_shifted width (p + 1));
      bits = λ j. or_next_bits p next j ∙ rw e (ground arith);
    }

    leave_next :
        (p : ℕ) (next : Word) (cached : Cached)
        → h p ≡ false
        → Coherent directory cached
        → length next ≡ width
        → Tried p next (next, cached)
    leave_next p next cached e c l = record {
      coherent = c;
      sized = l;
      bits = λ j. rw e (ground arith);
    }

    try_part_lem :
        (part : GlobComponent) (p : ℕ) (next : Word) (cached : Cached)
        → h p ≡ matches_in part component directory
        → Coherent directory cached
        → length next ≡ width
        → Tried p next (try_part case_sensitivity part p component directory next cached)
    unfolding try_part matches_in
    try_part_lem part p next cached e c l =
        elim (Bool-cases (component_matches_exact part component)) [
          | inl x ↦ rw x (set_next p next cached (e ∙ rw x refl) c l)
          | inr x ↦ elim (Bool-cases (component_matches_folded part component)) [
            | inr f ↦ rw (x, f) (leave_next p next cached (e ∙ rw (x, f) refl) c l)
            | inl f ↦
                let known : Coherent directory (some (ask case_sensitivity directory cached)) =
                  ask-Coherent directory cached c in
                elim (Bool-cases (is_insensitive (case_sensitivity directory))) [
                  | inl i ↦
                      rw (x, f, known, i) (set_next p next (some _) (e ∙ rw (x, f, i) refl) refl l)
                  | inr i ↦
                      rw (x, f, known, i)
                        (leave_next p next (some _) (e ∙ rw (x, f, i) refl) refl l)
                ]
          ]
        ]

    try_index_lem :
        (p : ℕ) (next : Word) (cached : Cached)
        → Coherent directory cached
        → length next ≡ width
        → Tried p next (try_index case_sensitivity parts p component directory next cached)
    try_index_lem p next cached c l = elim (Option-cases (get_elem? parts p)) [
      | inl missing ↦ rw (try_index, missing) (leave_next p next cached (rw (hit, missing)) c l)
      | inr (part, there) ↦
          rw (try_index, there) (try_part_lem part p next cached (rw (hit, there)) c l)
    ]

    abbrev pub prev_hit : Word → ℕ → Bool
    prev_hit candidates zero = false
    prev_hit candidates (suc j) = bit candidates j && h j

    -- The loop ends within its fuel, and sets the successor of every candidate that matches.
    pub record Looped (candidates next : Word) (r : Option (Word × Cached)) : Type 0 where
      pub word : Word
      pub cached : Cached
      pub ended : r ≡ some (word, cached)
      pub coherent : Coherent directory cached
      pub sized : length word ≡ width
      pub bits : (j : ℕ) → bit word j ≡ (bit next j || (prev_hit candidates j && ltb j width))

    candidate_bits :
        (candidates next next' : Word) (j : ℕ)
        → is_zero candidates ≡ false
        → bit next' j ≡ (
            bit next j
            || (h (trailing_zeros candidates)
                && (j == trailing_zeros candidates + 1)
                && ltb j width))
        → (bit next' j || (prev_hit (and_word candidates (minus_one candidates)) j && ltb j width))
          ≡ (bit next j || (prev_hit candidates j && ltb j width))
    candidate_bits candidates next next' zero nz e = ground arith
    candidate_bits candidates next next' (suc j) nz e =
        let cleared = bit-clear_lowest candidates j nz in
        let lowest = bit-trailing_zeros candidates nz in
        elim (Bool-cases (j == trailing_zeros candidates)) [
          | inl s ↦
              let is : j ≡ trailing_zeros candidates = ground arith in
              let same_bit : bit candidates j ≡ true = rw is lowest in
              let same_hit : h j ≡ h (trailing_zeros candidates) = ap h is in ground arith
          | inr s ↦ ground arith
        ]

    no_candidates :
        (candidates next : Word) (j : ℕ)
        → is_zero candidates ≡ true
        → bit next j ≡ (bit next j || (prev_hit candidates j && ltb j width))
    no_candidates candidates next zero z = ground arith
    no_candidates candidates next (suc j) z = ground (arith, bit_of_is_zero candidates j z)

    pub candidate_loop_lem :
        (fuel : ℕ) (candidates next : Word) (cached : Cached)
        → ones candidates < fuel
        → Coherent directory cached
        → length next ≡ width
        → Looped candidates next
            (candidate_loop case_sensitivity parts component directory fuel candidates next cached)
    unfolding candidate_loop
    candidate_loop_lem zero candidates next cached f c l = absurd (omega arith)
    candidate_loop_lem (suc fuel) candidates next cached f c l =
        elim (Bool-cases (is_zero candidates)) [
          | inl z ↦
              rw (candidate_loop, z)
                (record {
                  word = next;
                  cached = cached;
                  ended = refl;
                  coherent = c;
                  sized = l;
                  bits = λ j. no_candidates candidates next j z;
                })
          | inr nz ↦
              let tried = try_index_lem (trailing_zeros candidates) next cached c l in
              let rest =
                candidate_loop_lem fuel (and_word candidates (minus_one candidates)) _ _
                  (omega (arith, ones-clear_lowest candidates nz)) tried.coherent tried.sized in
              rw (candidate_loop, nz)
                (record {
                  word = rest.word;
                  cached = rest.cached;
                  ended = rest.ended;
                  coherent = rest.coherent;
                  sized = rest.sized;
                  bits = λ j. rest.bits j ∙ candidate_bits candidates next _ j nz (tried.bits j);
                })
        ]
