-- ===== src/Glob/Whole.antt =====
-- src/Glob.cc: `isIgnored` and `isPathOrAncestorIgnored` answer as the reference matcher does.
use native_watcher.Base.{
  ℕ, zero, suc, ◌<◌, ◌≡◌, ◌↔◌, ◌⊎◌, refl, ap, sym, ◌∙◌, Bool, true, false, ◌&&◌, ◌||◌, Option, none,
  some, List, [], ◌∷◌, arith, Bytes, ltb, ◌==◌, length, get_elem?, take, drop, drop_all,
  length-le_of_none, Bool-cases, Option-cases, inl, inr,
}
use native_watcher.Wildcard.{wild}
use native_watcher.Glob.Component.{GlobComponent}
use native_watcher.Glob.Word.{
  Word, width, bit, prev_bit, and_word, is_zero, bit-and_word, bit-or_word, bit-one_shifted,
  bit-shift_left, bit_of_is_zero, is_zero-and-one_shifted, length-one_shifted, length-or_word,
  length-and_word, length-shift_left,
}
use native_watcher.Glob.Automaton.{DirectoryCaseSensitivity, Glob, word_one, build_parent_directory}
use native_watcher.Glob.Step.{step_bitmask-Stepped}
use native_watcher.Glob.Masks.{double_at, WellMasked}
use native_watcher.Glob.Live.{
  Placed, path_matches, Live, Closed, Live-step, Live-before, Stepped-Closed, drop_at, skip_part,
}
use native_watcher.Glob.Ignore.{child_of, relative_text, accepts, step, bitmask_loop, ancestor_loop}

-- Each component of a path with the directory that `stepBitmask` asks about.
unfoldable pub place : Bytes → Option Bytes → List Bytes → List Placed
place root parent [] = []
place root parent (component ∷ path) =
    (component, build_parent_directory root (relative_text parent))
    ∷ place root (some (child_of parent component)) path

get_elem?-lt :
    (parts : List GlobComponent) (i : ℕ) {part : GlobComponent}
    → get_elem? parts i ≡ some part
    → i < length parts
get_elem?-lt [] i h = cc
get_elem?-lt (q ∷ parts) zero h = omega arith
get_elem?-lt (q ∷ parts) (suc i) h = omega (arith, get_elem?-lt parts i h)

true≢false : (b : Bool) → b ≡ true → b ≡ false → ⊥
true≢false b h k = cc

bool_ext : (a b : Bool) → (a ≡ true → b ≡ true) → (b ≡ true → a ≡ true) → a ≡ b
bool_ext true b f h = sym (f refl)
bool_ext false true f h = h refl
bool_ext false false f h = refl

first_bits :
    (mask : Word)
    → length mask ≡ width
    → (j : ℕ)
    → (bit word_one j
        || (prev_bit (and_word word_one mask) j && ltb j (length (and_word word_one mask))))
      ≡ (j == 0 || (j == 1 && bit mask 0))
first_bits mask l zero = ground (arith, bit-one_shifted width 0 0)
first_bits mask l (suc j) = ground (
  arith,
  bit-one_shifted width 0 (suc j),
  bit-one_shifted width 0 j,
  bit-and_word word_one mask j,
  length-and_word word_one mask width (length-one_shifted width 0) l,
)

skip_first :
    (case_sensitivity : Bytes → DirectoryCaseSensitivity) (parts : List GlobComponent)
    (path : List Placed)
    → double_at parts 0 ≡ true
    → path_matches case_sensitivity (drop 1 parts) path ≡ true
    → path_matches case_sensitivity parts path ≡ true
skip_first case_sensitivity [] path d m = cc
skip_first case_sensitivity (part ∷ parts) path d m = skip_part case_sensitivity part parts path d m

module _ (case_sensitivity : Bytes → DirectoryCaseSensitivity) (g : Glob) (wm : WellMasked g) where
  abbrev Alive : Word → List Placed → Type 0
  Alive w path = Live case_sensitivity g wm w path

  abbrev ClosedState : Word → Type 0
  ClosedState w = Closed case_sensitivity g wm w

  abbrev matches : List Placed → Bool
  matches path = path_matches case_sensitivity g.parts path

  accepts-bit :
      (root : Bytes) (w : Word) → accepts case_sensitivity g root w ≡ bit w (length g.parts)
  accepts-bit root w =
      rw (wm.accept, is_zero-and-one_shifted w width (length g.parts) (omega (arith, wm.few)))
        (ground arith)

  -- At the end of the path the state is alive exactly if the last bit is set.
  end-Alive : (w : Word) → bit w (length g.parts) ≡ true → Alive w []
  end-Alive w b = (length g.parts, omega arith, b, rw (drop_all g.parts) (unfold wild in refl))

  double_ends :
      (i : ℕ) (part : GlobComponent)
      → get_elem? g.parts i ≡ some part
      → path_matches case_sensitivity (drop i g.parts) [] ≡ true
      → (double_at g.parts i ≡ true)
        × (path_matches case_sensitivity (drop (suc i) g.parts) [] ≡ true)
  unfolding wild
  double_ends i part there m =
      let m' : path_matches case_sensitivity (part ∷ drop (suc i) g.parts) [] ≡ true =
        rw (drop_at g.parts i there) at m in
      (ground arith, ground arith)

  Alive-end : (w : Word) → ClosedState w → Alive w [] → bit w (length g.parts) ≡ true
  Alive-end w c (i, le, b, m) = elim (Option-cases (get_elem? g.parts i)) [
    | inl past ↦
        let e : length g.parts ≡ i = omega (arith, length-le_of_none g.parts i past) in rw e b
    | inr (part, there) ↦
        let (d, m') = double_ends i part there m in
        elim (Option-cases (get_elem? g.parts (suc i))) [
          | inl past ↦
              let e : length g.parts ≡ suc i =
                omega
                  (arith, length-le_of_none g.parts (suc i) past, get_elem?-lt g.parts i there) in
              rw e (c i d b)
          | inr (next, there') ↦
              let (d', m'') = double_ends (suc i) next there' m' in
              absurd (true≢false (double_at g.parts (suc i)) d' (wm.apart i d))
        ]
  ]

  pub initial_bits :
      (j : ℕ) → bit g.initial_state j ≡ (j == 0 || (j == 1 && bit g.double_star_mask 0))
  initial_bits j = rw wm.initial (
      bit-or_word word_one _ j
      ∙ ap (λ b. bit word_one j || b) (bit-shift_left (and_word word_one g.double_star_mask) j)
      ∙ first_bits g.double_star_mask wm.sized_double j)

  initial_sized : length g.initial_state ≡ width
  initial_sized = rw wm.initial (
      length-or_word word_one _ width (length-one_shifted width 0) (
        length-shift_left _ width (
          length-and_word word_one g.double_star_mask width (length-one_shifted width 0)
            wm.sized_double)))

  initial-Closed : ClosedState g.initial_state
  initial-Closed zero d b = ground (arith, initial_bits 1, wm.doubles 0 (omega arith))
  initial-Closed (suc zero) d b = absurd (
      true≢false (double_at g.parts 1) d
        (wm.apart 0 (ground (arith, initial_bits 1, wm.doubles 0 (omega arith)))))
  initial-Closed (suc (suc i)) d b = absurd (ground (arith, initial_bits (suc (suc i))))

  -- The first state is alive exactly if the whole pattern matches.
  matches→Alive : (path : List Placed) → matches path ≡ true → Alive g.initial_state path
  matches→Alive path m = (0, omega arith, ground (arith, initial_bits 0), m)

  Alive→matches : (path : List Placed) → Alive g.initial_state path → matches path ≡ true
  Alive→matches path (zero, le, b, m) = m
  Alive→matches path (suc zero, le, b, m) =
      skip_first case_sensitivity g.parts path
        (ground (arith, initial_bits 1, wm.doubles 0 (omega arith))) m
  Alive→matches path (suc (suc i), le, b, m) = absurd (ground (arith, initial_bits (suc (suc i))))

  module _ (root : Bytes) where
    -- The two halves of what a word is good for.
    pub record Sound (w : Word) : Type 0 where
      pub sized : length w ≡ width
      pub is_closed : ClosedState w

    step_lem :
        (w : Word) (component : Bytes) (parent : Option Bytes) (path : List Placed)
        → Sound w
        → Sound (step case_sensitivity g root w component parent)
          × (Alive w ((component, build_parent_directory root (relative_text parent)) ∷ path)
              ↔ Alive (step case_sensitivity g root w component parent) path)
    step_lem w component parent path s =
        let st =
          step_bitmask-Stepped case_sensitivity g w component root (relative_text parent) s.sized
            wm.sized_double wm.sized_active in
        let directory = build_parent_directory root (relative_text parent) in
        (
          record {
            sized = st.sized;
            is_closed = Stepped-Closed case_sensitivity g wm w component directory _ st;
          },
          (
            λ a. Live-step case_sensitivity g wm w component directory _ st path s.is_closed a,
            λ a. Live-before case_sensitivity g wm w component directory _ st path a,
          ),
        )

    dead : (w : Word) (path : List Placed) → is_zero w ≡ true → Alive w path → ⊥
    dead w path z (i, le, b, m) = true≢false (bit w i) b (bit_of_is_zero w i z)

    bitmask_loop-Alive :
        (parent : Option Bytes) (path : List Bytes) (w : Word)
        → Sound w
        → (bitmask_loop case_sensitivity g root parent path w ≡ true)
          ↔ Alive w (place root parent path)
    unfolding bitmask_loop place
    bitmask_loop-Alive parent [] w s = (
      λ h. end-Alive w (sym (accepts-bit root w) ∙ h),
      λ a. accepts-bit root w ∙ Alive-end w s.is_closed a,
    )
    bitmask_loop-Alive parent (component ∷ path) w s =
        let w' = step case_sensitivity g root w component parent in
        let next = some (child_of parent component) in
        let (s', both) = step_lem w component parent (place root next path) s in
        let ih = bitmask_loop-Alive next path w' s' in
        elim (Bool-cases (is_zero w')) [
          | inl z ↦
              rw (bitmask_loop, z)
                (λ h. absurd (true≢false false h refl), λ a. absurd (dead w' _ z (both.0 a)))
          | inr z ↦ rw (bitmask_loop, z) (λ h. both.1 (ih.0 h), λ a. ih.1 (both.0 a))
        ]

    -- A prefix of the path, of one component at least, that the state leads to the end.
    abbrev PrefixAlive : Word → List Placed → Type 0
    PrefixAlive w path = (k : ℕ) × (k < length path) × Alive w (take (suc k) path)

    prefix_cases :
        (w : Word) (here : Placed) (rest : List Placed)
        → PrefixAlive w (here ∷ rest)
        → Alive w (here ∷ []) ⊎ ((k : ℕ) × (k < length rest) × Alive w (here ∷ take (suc k) rest))
    prefix_cases w here rest (zero, lt, a) = inl a
    prefix_cases w here rest (suc k, lt, a) = inr (k, omega arith, a)

    ancestor_loop-PrefixAlive :
        (parent : Option Bytes) (path : List Bytes) (w : Word)
        → Sound w
        → (ancestor_loop case_sensitivity g root parent path w ≡ true)
          ↔ PrefixAlive w (place root parent path)
    unfolding ancestor_loop place
    ancestor_loop-PrefixAlive parent [] w s =
        (λ h. absurd (true≢false false h refl), λ (k, lt, a). absurd (omega arith))
    ancestor_loop-PrefixAlive parent (component ∷ path) w s =
        let w' = step case_sensitivity g root w component parent in
        let next = some (child_of parent component) in
        let rest = place root next path in
        let (s', first) = step_lem w component parent [] s in
        let both = λ (k : ℕ). (step_lem w component parent (take (suc k) rest) s).1 in
        let ih = ancestor_loop-PrefixAlive next path w' s' in
        elim (Bool-cases (accepts case_sensitivity g root w')) [
          | inl acc ↦
              rw (ancestor_loop, acc)
                (
                  λ h. (0, omega arith, first.1 (end-Alive w' (sym (accepts-bit root w') ∙ acc))),
                  λ a. refl,
                )
          | inr rej ↦ elim (Bool-cases (is_zero w')) [
            | inl z ↦
                rw (ancestor_loop, rej, z)
                  (
                    λ h. absurd (true≢false false h refl),
                    λ a. elim (prefix_cases w _ rest a) [
                      | inl one ↦ absurd (dead w' [] z (first.0 one))
                      | inr (k, lt, more) ↦ absurd (dead w' _ z ((both k).0 more))
                    ],
                  )
            | inr z ↦
                rw (ancestor_loop, rej, z)
                  (
                    λ h. let (k, lt, a) = ih.0 h in (suc k, omega arith, (both k).1 a),
                    λ a. elim (prefix_cases w _ rest a) [
                      | inl one ↦ absurd (
                          true≢false (accepts case_sensitivity g root w')
                            (accepts-bit root w' ∙ Alive-end w' s'.is_closed (first.0 one)) rej)
                      | inr (k, lt, more) ↦ ih.1 (k, lt, (both k).0 more)
                    ],
                  )
          ]
        ]

    pub bitmask_loop-matches :
        (path : List Bytes)
        → bitmask_loop case_sensitivity g root none path g.initial_state
          ≡ matches (place root none path)
    bitmask_loop-matches path =
        let start : Sound g.initial_state = record {
          sized = initial_sized;
          is_closed = initial-Closed;
        } in
        let loop = bitmask_loop-Alive none path g.initial_state start in
        bool_ext _ _ (λ h. Alive→matches _ (loop.0 h)) (λ m. loop.1 (matches→Alive _ m))

    pub ancestor_loop-matches :
        (path : List Bytes)
        → (ancestor_loop case_sensitivity g root none path g.initial_state ≡ true) ↔ (
            (k : ℕ) × (k < length (place root none path))
            × (matches (take (suc k) (place root none path)) ≡ true))
    ancestor_loop-matches path =
        let start : Sound g.initial_state = record {
          sized = initial_sized;
          is_closed = initial-Closed;
        } in
        let loop = ancestor_loop-PrefixAlive none path g.initial_state start in
        (
          λ h. let (k, lt, a) = loop.0 h in (k, lt, Alive→matches _ a),
          λ (k, lt, m). loop.1 (k, lt, matches→Alive _ m),
        )
