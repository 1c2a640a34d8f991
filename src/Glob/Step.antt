-- ===== src/Glob/Step.antt =====
-- What one step of the bitmask automaton of src/Glob.cc does to each bit of the state.
use native_watcher.Base.{
  ℕ, zero, suc, ◌≡◌, ap, ◌∙◌, Bool, false, ◌&&◌, ◌||◌, Option, none, arith, Bytes, ltb, length,
}
use native_watcher.Glob.Word.{
  Word, width, bit, prev_bit, or_word, and_word, shift_left, bit-or_word, bit-and_word,
  bit-shift_left, ones-le-length, length-or_word, length-and_word, length-shift_left,
}
use native_watcher.Glob.Automaton.{
  DirectoryCaseSensitivity, Glob, Cached, close_state, step_bitmask, build_parent_directory,
}
use native_watcher.Glob.Candidates.{Looped, prev_hit, candidate_loop_lem}

module _ (case_sensitivity : Bytes → DirectoryCaseSensitivity) where
  -- The bits of a step before the last line closes them under `**`.
  abbrev pub moved : Glob → Word → Bytes → Bytes → ℕ → Bool
  moved g state component directory j =
      (bit state j && bit g.double_star_mask j)
      || (prev_hit case_sensitivity g.parts component directory (and_word state g.active_mask) j
          && ltb j width)

  abbrev pub after_star : Glob → Word → Bytes → Bytes → ℕ → Bool
  after_star g state component directory zero = false
  after_star g state component directory (suc j) =
      moved g state component directory j && bit g.double_star_mask j

  pub record Stepped (g : Glob) (state : Word) (component directory : Bytes) (w : Word)
      : Type 0 where
    pub sized : length w ≡ width
    pub bits :
        (j : ℕ)
        → bit w j ≡ (
            moved g state component directory j
            || (after_star g state component directory j && ltb j width))

  close_bits :
      (g : Glob) (w : Word) (j : ℕ)
      → length w ≡ width
      → length g.double_star_mask ≡ width
      → bit (or_word w (shift_left (and_word w g.double_star_mask))) j
        ≡ (bit w j || (prev_bit (and_word w g.double_star_mask) j && ltb j width))
  close_bits g w j l ld =
      let sized : length (and_word w g.double_star_mask) ≡ width =
        length-and_word w g.double_star_mask width l ld in
      bit-or_word w _ j
      ∙ ap (λ b. bit w j || b)
          (bit-shift_left (and_word w g.double_star_mask) j
            ∙ ap (λ n. prev_bit (and_word w g.double_star_mask) j && ltb j n) sized)

  closed_bits :
      (g : Glob) (state : Word) (component directory : Bytes) (w : Word)
      → ((j : ℕ) → bit w j ≡ moved g state component directory j)
      → (j : ℕ)
      → (bit w j || (prev_bit (and_word w g.double_star_mask) j && ltb j width)) ≡ (
          moved g state component directory j
          || (after_star g state component directory j && ltb j width))
  closed_bits g state component directory w e zero = rw (e 0)
  closed_bits g state component directory w e (suc j) =
      rw (bit-and_word w g.double_star_mask j, e (suc j), e j)

  Looped-Stepped :
      (g : Glob) (state : Word) (component directory : Bytes) (r : Option (Word × Cached))
      → length g.double_star_mask ≡ width
      → Looped case_sensitivity g.parts component directory
          (and_word state g.active_mask)
          (and_word state g.double_star_mask)
          r
      → Stepped g state component directory (close_state case_sensitivity g r).0
  Looped-Stepped g state component directory r ld l =
      let moves = λ (j : ℕ).
        l.bits j
        ∙ ap
            (λ b.
              b
              || (prev_hit case_sensitivity g.parts component directory
                    (and_word state g.active_mask) j
                  && ltb j width))
            (bit-and_word state g.double_star_mask j) in
      rw l.ended (record {
        sized =
            length-or_word l.word _ width l.sized
              (length-shift_left _ width (length-and_word l.word _ width l.sized ld));
        bits = λ j.
            close_bits g l.word j l.sized ld
            ∙ closed_bits g state component directory l.word moves j;
      })

  -- `stepBitmask` on words of 64 bits: the loop ends, and each bit of the result is as stated.
  pub step_bitmask-Stepped :
      (g : Glob) (state : Word) (component root relative_parent : Bytes)
      → length state ≡ width
      → length g.double_star_mask ≡ width
      → length g.active_mask ≡ width
      → Stepped g state component
          (build_parent_directory root relative_parent)
          (step_bitmask case_sensitivity g state component root relative_parent none).0
  unfolding step_bitmask
  step_bitmask-Stepped g state component root relative_parent ls ld la =
      let sized : length (and_word state g.active_mask) ≡ width =
        length-and_word state g.active_mask width ls la in
      Looped-Stepped g state component (build_parent_directory root relative_parent) _ ld (
        candidate_loop_lem case_sensitivity g.parts component
          (build_parent_directory root relative_parent) (suc width) (and_word state g.active_mask)
          (and_word state g.double_star_mask) none
          (omega (arith, ones-le-length (and_word state g.active_mask))) tt
          (length-and_word state g.double_star_mask width ls ld))
