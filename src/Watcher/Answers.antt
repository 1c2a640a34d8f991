-- ===== src/Watcher/Answers.antt =====
-- src/Watcher.cc: `isIgnored` answers from the cache of its thread what the globs answer.
use native_watcher.Base.{
  ℕ, ◌≡◌, ◌⊎◌, refl, ap, sym, subst, ◌∙◌, Bool, true, false, not, ◌&&◌, ◌||◌, Option, none, some,
  List, [], ◌∷◌, arith, Bytes, ◌==◌, ==_iff, Bool-cases, inl, inr, All, all, any, map, find,
}
use native_watcher.Glob.Text.{split_at_slashes}
use native_watcher.Glob.Automaton.{Glob, new_glob, non_empty}
use native_watcher.Glob.Masks.{new_glob-WellMasked}
use native_watcher.Glob.Answers.{raw_of_use_bitmask, raw-new_glob}
use native_watcher.Glob.Ignore.{relative_text}
use native_watcher.Watcher.{Watcher, new_watcher, deduplicate}
use native_watcher.Watcher.Ignore.{
  ThreadIgnoreCache, new_cache, own_cache, resolve_dir_glob_state, split_leaf, ignored_by_cache,
  ignored_by_globs, in_ignored_path, outside, relative_path, is_ignored,
}
use native_watcher.Watcher.DirStates.{DirGlobState, make_root_glob_state, is_component_ignored}
use native_watcher.Watcher.States.{DirectoryAnswer, foretells, is_component_ignored-foretells}
use native_watcher.Watcher.Root.{Usable, make_root-foretells}
use native_watcher.Watcher.Names.{LeafOf, split_leaf-LeafOf, is_clean, reached-split}
use native_watcher.Watcher.Cache.{
  Faithful, AnsweredOrRoot, resolve_own-Answered, state_of, descend_states-foretells,
}

-- The directory of a path has a name: it is not empty and does not end with a slash.
abbrev pub has_named_parent : Option Bytes → Bool
has_named_parent none = true
has_named_parent (some dir) = is_clean dir

Usable-new_globs :
    (raws : List Bytes)
    → all (λ (g : Glob). g.use_bitmask) (map new_glob raws) ≡ true
    → All Usable (map new_glob raws)
unfolding all
Usable-new_globs [] h = tt
Usable-new_globs (raw ∷ raws) h =
    let u : (new_glob raw).use_bitmask ≡ true = ground arith in
    (
      record {
        uses = u;
        named = ap non_empty (raw-new_glob raw) ∙ raw_of_use_bitmask raw u;
        masked = new_glob-WellMasked raw u;
      },
      Usable-new_globs raws (ground arith),
    )

module _ (cs : DirectoryAnswer) (w : Watcher) (relative : Bytes) where
  leaf_lem :
      (r : Option Bytes × Bytes)
      → LeafOf relative r
      → is_component_ignored cs w (state_of cs w r.0) r.1 (relative_text r.0)
        ≡ foretells cs w none (split_at_slashes relative) (make_root_glob_state cs w)
  leaf_lem (none, leaf) l =
      is_component_ignored-foretells cs w none leaf (make_root_glob_state cs w)
      ∙ ap (λ p. foretells cs w none p (make_root_glob_state cs w)) (sym l)
  leaf_lem (some dir, leaf) l =
      let root = make_root_glob_state cs w in
      let below = descend_states-foretells cs w none (split_at_slashes dir) (leaf ∷ []) root in
      is_component_ignored-foretells cs w (some dir) leaf (state_of cs w (some dir))
      ∙ rw (reached-split dir) at below
      ∙ ap (λ p. foretells cs w none p root) (sym l)

  resolved_state :
      (parent : Option Bytes) (r : ThreadIgnoreCache × DirGlobState)
      → has_named_parent parent ≡ true
      → AnsweredOrRoot cs w (relative_text parent) r
      → r.1 ≡ state_of cs w parent
  resolved_state none r n a = a.2 refl
  resolved_state (some dir) r n a = a.3 n

  any_of_none :
      (test : Glob → Bool) (globs : List Glob) → non_empty globs ≡ false → any test globs ≡ false
  unfolding any
  any_of_none test [] h = refl
  any_of_none test (g ∷ globs) h = cc

  no_globs : non_empty w.compiled_globs ≡ false → ignored_by_globs cs w relative ≡ false
  unfolding ignored_by_globs
  no_globs h = any_of_none _ w.compiled_globs h

-- Watchers by their ids.
module _ (cs : DirectoryAnswer) (dirs : ℕ → Bytes)
    (ignore_paths ignore_globs : ℕ → List Bytes) where
  abbrev pub watcher : ℕ → Watcher
  watcher i = new_watcher i (dirs i) (ignore_paths i) (ignore_globs i)

  -- What a thread's cache holds is true of the watcher that it names.
  abbrev Truthful : ThreadIgnoreCache → Type 0
  Truthful cache = (cache.watcher_id ≡ 0) ⊎ Faithful cs (watcher cache.watcher_id) cache

  own_cache-Faithful :
      (i : ℕ) (cache : ThreadIgnoreCache)
      → (i == 0) ≡ false
      → Truthful cache
      → Faithful cs (watcher i) (own_cache cs (watcher i) cache)
        × ((own_cache cs (watcher i) cache).watcher_id ≡ i)
  unfolding own_cache find new_watcher
  own_cache-Faithful i cache z t = elim (Bool-cases (cache.watcher_id == i)) [
    | inl same ↦
        let e : cache.watcher_id ≡ i = (==_iff cache.watcher_id i).0 same in
        elim t [
          | inl none_yet ↦ absurd (ground arith)
          | inr f ↦ rw (own_cache, same) (subst (λ k. Faithful cs (watcher k) cache) e f, e)
        ]
    | inr other ↦
        rw (own_cache, other)
          (record { root = refl; dirs = λ key state h. cc; last = λ h c. cc }, refl)
  ]

  watcher_globs_Usable :
      (i : ℕ) → (watcher i).all_globs_use_bitmask ≡ true → All Usable (watcher i).compiled_globs
  unfolding new_watcher
  watcher_globs_Usable i h = Usable-new_globs (deduplicate (ignore_globs i)) h

  resolve_Answered :
      (i : ℕ) (path : Bytes) (cache : ThreadIgnoreCache)
      → (i == 0) ≡ false
      → Truthful cache
      → AnsweredOrRoot cs (watcher i) path (resolve_dir_glob_state cs (watcher i) path cache)
  unfolding resolve_dir_glob_state new_watcher
  resolve_Answered i path cache z t =
      let (f, e) = own_cache-Faithful i cache z t in
      resolve_own-Answered cs (watcher i) path (own_cache cs (watcher i) cache) f e

  ignored_by_cache-Truthful :
      (i : ℕ) (relative : Bytes) (cache : ThreadIgnoreCache)
      → (i == 0) ≡ false
      → Truthful cache
      → Truthful (ignored_by_cache cs (watcher i) relative cache).0
  unfolding ignored_by_cache new_watcher
  ignored_by_cache-Truthful i relative cache z t =
      let parent = relative_text (split_leaf relative).0 in
      let a = resolve_Answered i parent cache z t in
      inr (
        subst (λ k. Faithful cs (watcher k) (resolve_dir_glob_state cs (watcher i) parent cache).0)
          (sym a.1) a.0)

  ignored_by_cache-globs :
      (i : ℕ) (relative : Bytes) (cache : ThreadIgnoreCache)
      → (i == 0) ≡ false
      → Truthful cache
      → (watcher i).all_globs_use_bitmask ≡ true
      → non_empty relative ≡ true
      → has_named_parent (split_leaf relative).0 ≡ true
      → (ignored_by_cache cs (watcher i) relative cache).1
        ≡ ignored_by_globs cs (watcher i) relative
  unfolding ignored_by_cache
  ignored_by_cache-globs i relative cache z t u p n =
      let parts = split_leaf relative in
      let r = resolve_dir_glob_state cs (watcher i) (relative_text parts.0) cache in
      let state =
        resolved_state cs (watcher i) relative parts.0 r n
          (resolve_Answered i (relative_text parts.0) cache z t) in
      ap (λ s. is_component_ignored cs (watcher i) s parts.1 (relative_text parts.0)) state
      ∙ leaf_lem cs (watcher i) relative parts (split_leaf-LeafOf relative)
      ∙ make_root-foretells cs (watcher i) relative (watcher_globs_Usable i u) p

  -- `isIgnored` without the cache.
  abbrev pub ignored_plainly : ℕ → Bytes → Bool
  ignored_plainly i path =
      in_ignored_path cs (watcher i) path
      || (not (outside cs (watcher i) path)
          && ignored_by_globs cs (watcher i) (relative_path cs (watcher i) path))

  module _ (i : ℕ) (path : Bytes) where
    abbrev ignored_first : Bool
    ignored_first = in_ignored_path cs (watcher i) path

    abbrev not_asked : Bool
    not_asked = not (non_empty (watcher i).compiled_globs) || outside cs (watcher i) path

  abbrev by_cache : ℕ → Bool
  by_cache i = (watcher i).all_globs_use_bitmask && not ((watcher i).id == 0)

  id-watcher : (i : ℕ) → (watcher i).id ≡ i
  unfolding new_watcher
  id-watcher i = refl

  cache_of_real :
      (i : ℕ) → by_cache i ≡ true → ((watcher i).all_globs_use_bitmask ≡ true) × ((i == 0) ≡ false)
  cache_of_real i h = (ground arith, ground (arith, id-watcher i))

  not_asked_plainly :
      (i : ℕ) (path : Bytes)
      → not_asked i path ≡ true
      → false ≡ (
          not (outside cs (watcher i) path)
          && ignored_by_globs cs (watcher i) (relative_path cs (watcher i) path))
  not_asked_plainly i path h =
      ground (arith, no_globs cs (watcher i) (relative_path cs (watcher i) path))

  -- Questions of one thread, of any watchers.
  unfoldable pub ask_all : List (ℕ × Bytes) → ThreadIgnoreCache → ThreadIgnoreCache
  unfolding is_ignored
  ask_all [] cache = cache
  ask_all ((i, path) ∷ questions) cache = ask_all questions (is_ignored cs (watcher i) path cache).0

  is_ignored-Truthful :
      (i : ℕ) (path : Bytes) (cache : ThreadIgnoreCache)
      → Truthful cache
      → Truthful (is_ignored cs (watcher i) path cache).0
  unfolding is_ignored
  is_ignored-Truthful i path cache t = elim (Bool-cases (ignored_first i path)) [
    | inl y ↦ rw (is_ignored, y) t
    | inr a ↦ elim (Bool-cases (not_asked i path)) [
      | inl y ↦ rw (is_ignored, a, y) t
      | inr b ↦ elim (Bool-cases (by_cache i)) [
        | inl y ↦
            rw (is_ignored, a, b, y) (ignored_by_cache-Truthful i _ cache (cache_of_real i y).1 t)
        | inr c ↦ rw (is_ignored, a, b, c) t
      ]
    ]
  ]

  ask_all-Truthful :
      (questions : List (ℕ × Bytes)) (cache : ThreadIgnoreCache)
      → Truthful cache
      → Truthful (ask_all questions cache)
  unfolding ask_all
  ask_all-Truthful [] cache t = t
  ask_all-Truthful ((i, path) ∷ questions) cache t =
      ask_all-Truthful questions (is_ignored cs (watcher i) path cache).0
        (is_ignored-Truthful i path cache t)

  -- Whatever a thread has asked before, of whichever watchers: for a path whose directory below the
  -- watched one has a name, the cache gives the answer of the ignored paths and the globs without it.
  pub is_ignored-plainly :
      (questions : List (ℕ × Bytes)) (i : ℕ) (path : Bytes)
      → has_named_parent (split_leaf (relative_path cs (watcher i) path)).0 ≡ true
      → (is_ignored cs (watcher i) path (ask_all questions new_cache)).1 ≡ ignored_plainly i path
  unfolding is_ignored
  is_ignored-plainly questions i path n =
      let cache = ask_all questions new_cache in
      let t = ask_all-Truthful questions new_cache (inl refl) in
      elim (Bool-cases (ignored_first i path)) [
        | inl y ↦ rw (is_ignored, y) refl
        | inr a ↦ elim (Bool-cases (not_asked i path)) [
          | inl y ↦ rw (is_ignored, a, y) (not_asked_plainly i path y)
          | inr b ↦
              let inside : outside cs (watcher i) path ≡ false = ground arith in
              let named : non_empty (relative_path cs (watcher i) path) ≡ true = ground arith in
              elim (Bool-cases (by_cache i)) [
                | inl y ↦
                    let (u, z) = cache_of_real i y in
                    rw (is_ignored, a, b, y, inside)
                      (ignored_by_cache-globs i _ cache z t u named n)
                | inr c ↦ rw (is_ignored, a, b, c, inside) refl
              ]
        ]
      ]
