-- ===== src/Watcher/Caching.antt =====
-- src/Glob.cc: a step of the automaton gives one word whatever true answers are cached.
use native_watcher.Base.{
  ◌≡◌, refl, Option, none, some, List, arith, Bytes, ℕ, zero, suc, Bool-cases, inl, inr, subst,
  get_elem?,
}
use native_watcher.Glob.Word.{Word, width, and_word, is_zero, trailing_zeros, minus_one}
use native_watcher.Glob.Component.{GlobComponent}
use native_watcher.Glob.Automaton.{
  DirectoryCaseSensitivity, Glob, Cached, build_parent_directory, step_bitmask, try_part, try_index,
  candidate_loop, close_state,
}
use native_watcher.Glob.Candidates.{Coherent}

module _ (case_sensitivity : Bytes → DirectoryCaseSensitivity) where
  -- One word, whatever the cached answers are, and these are true.
  abbrev Same : Bytes → Option (Word × Cached) → Option (Word × Cached) → Type 0
  Same directory none none = Unit
  Same directory none (some s) = ⊥
  Same directory (some r) none = ⊥
  Same directory (some r) (some s) =
      (r.0 ≡ s.0)
      × Coherent case_sensitivity directory r.1
      × Coherent case_sensitivity directory s.1

  try_part-Same :
      (part : GlobComponent) (p : ℕ) (component directory : Bytes) (next : Word) (a b : Cached)
      → Coherent case_sensitivity directory a
      → Coherent case_sensitivity directory b
      → Same directory
          (some (try_part case_sensitivity part p component directory next a))
          (some (try_part case_sensitivity part p component directory next b))
  unfolding try_part
  try_part-Same part p component directory next none none ha hb = ground arith
  try_part-Same part p component directory next none (some b) ha hb = ground arith
  try_part-Same part p component directory next (some a) none ha hb = ground arith
  try_part-Same part p component directory next (some a) (some b) ha hb = ground arith

  try_index-Same :
      (parts : List GlobComponent) (p : ℕ) (component directory : Bytes) (next : Word)
      (a b : Cached)
      → Coherent case_sensitivity directory a
      → Coherent case_sensitivity directory b
      → Same directory
          (some (try_index case_sensitivity parts p component directory next a))
          (some (try_index case_sensitivity parts p component directory next b))
  try_index-Same parts p component directory next a b ha hb =
      elim (get_elem? parts p)
        as (λ o.
          Same directory
            (some (elim o [
              | none ↦ (next, a)
              | some part ↦ try_part case_sensitivity part p component directory next a
            ]))
            (some (elim o [
              | none ↦ (next, b)
              | some part ↦ try_part case_sensitivity part p component directory next b
            ]))) [
              | none ↦ (refl, ha, hb)
              | some part ↦ try_part-Same part p component directory next a b ha hb
            ]

  candidate_loop-Same :
      (parts : List GlobComponent) (component directory : Bytes) (fuel : ℕ) (candidates : Word)
      (next next' : Word) (a b : Cached)
      → next ≡ next'
      → Coherent case_sensitivity directory a
      → Coherent case_sensitivity directory b
      → Same directory
          (candidate_loop case_sensitivity parts component directory fuel candidates next a)
          (candidate_loop case_sensitivity parts component directory fuel candidates next' b)
  unfolding candidate_loop
  candidate_loop-Same parts component directory zero candidates next next' a b e ha hb = tt
  candidate_loop-Same parts component directory (suc fuel) candidates next next' a b e ha hb =
      elim (Bool-cases (is_zero candidates)) [
        | inl z ↦ rw (candidate_loop, z) (e, ha, hb)
        | inr z ↦
            let p = trailing_zeros candidates in
            let (e', ha', hb') =
              subst
                (λ n.
                  Same directory
                    (some (try_index case_sensitivity parts p component directory next a))
                    (some (try_index case_sensitivity parts p component directory n b)))
                e (try_index-Same parts p component directory next a b ha hb) in
            rw (candidate_loop, z)
              (candidate_loop-Same parts component directory fuel
                (and_word candidates (minus_one candidates)) _ _ _ _ e' ha' hb')
      ]

  close-Same :
      (g : Glob) (directory : Bytes) (r s : Option (Word × Cached))
      → Same directory r s
      → ((close_state case_sensitivity g r).0 ≡ (close_state case_sensitivity g s).0)
        × Coherent case_sensitivity directory (close_state case_sensitivity g r).1
  close-Same g directory none none h = (refl, tt)
  close-Same g directory none (some s) h = absurd h
  close-Same g directory (some r) none h = absurd h
  close-Same g directory (some r) (some s) h = (ground arith, h.1)

  -- A step gives the same word whether the directory's answer is kept or asked for.
  pub step_bitmask-cached :
      (g : Glob) (state : Word) (component root relative_parent : Bytes) (cached : Cached)
      → Coherent case_sensitivity (build_parent_directory root relative_parent) cached
      → ((step_bitmask case_sensitivity g state component root relative_parent cached).0
          ≡ (step_bitmask case_sensitivity g state component root relative_parent none).0)
        × Coherent case_sensitivity
            (build_parent_directory root relative_parent)
            (step_bitmask case_sensitivity g state component root relative_parent cached).1
  unfolding step_bitmask
  step_bitmask-cached g state component root relative_parent cached h =
      close-Same g (build_parent_directory root relative_parent) _ _ (
        candidate_loop-Same g.parts component (build_parent_directory root relative_parent)
          (suc width) (and_word state g.active_mask) _ _ cached none refl h tt)
