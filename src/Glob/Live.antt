-- ===== src/Glob/Live.antt =====
-- The bitmask automaton of src/Glob.cc follows the reference matcher: a state stands for the suffixes
-- of the pattern whose bits are set.
use native_watcher.Base.{
  ℕ, zero, suc, ◌<◌, ◌≤◌, ◌≡◌, ◌⊎◌, refl, ap, Bool, true, false, ◌&&◌, ◌||◌, none, some, List, [],
  ◌∷◌, arith, Bytes, length, get_elem?, drop, Bool-cases, Option-cases, inl, inr,
}
use native_watcher.Wildcard.{wild}
use native_watcher.Glob.Component.{GlobComponent}
use native_watcher.Glob.Word.{Word, width, bit, bit-and_word}
use native_watcher.Glob.Automaton.{DirectoryCaseSensitivity, Glob}
use native_watcher.Glob.Step.{moved, Stepped}
use native_watcher.Glob.Candidates.{matches_in, hit}
use native_watcher.Glob.Masks.{part_at, double_at, plain_at, WellMasked}

-- A component of a path with the directory that holds it.
abbrev pub Placed : Type 0
Placed = Bytes × Bytes

abbrev pub is_double : GlobComponent → Bool
is_double part = part.is_double_star

module _ (case_sensitivity : Bytes → DirectoryCaseSensitivity) where
  abbrev pub matches_placed : GlobComponent → Placed → Bool
  matches_placed part (component, directory) = matches_in case_sensitivity part component directory

  -- The reference: `**` takes any run of components, another part takes one that it matches.
  abbrev pub path_matches : List GlobComponent → List Placed → Bool
  path_matches parts path = wild is_double matches_placed parts path

  module _ (g : Glob) (wm : WellMasked g) where
    -- A rest of the pattern, with its bit set, matches the rest of the path.
    abbrev pub Live : Word → List Placed → Type 0
    Live w path =
        (i : ℕ) × (i ≤ length g.parts)
        × (bit w i ≡ true)
        × (path_matches (drop i g.parts) path ≡ true)

    -- With a `**` the bit behind it is set too.
    abbrev pub Closed : Word → Type 0
    Closed w = (i : ℕ) → double_at g.parts i ≡ true → bit w i ≡ true → bit w (suc i) ≡ true

part_at-lt :
    (f : GlobComponent → Bool) (parts : List GlobComponent) (i : ℕ)
    → part_at f parts i ≡ true
    → i < length parts
part_at-lt f [] i h = cc
part_at-lt f (part ∷ parts) zero h = omega arith
part_at-lt f (part ∷ parts) (suc i) h = omega (arith, part_at-lt f parts i h)

lt-le : {a b : ℕ} → a < b → a ≤ b
lt-le h = omega arith

plain-not-double :
    (parts : List GlobComponent) (i : ℕ) → plain_at parts i ≡ true → double_at parts i ≡ false
plain-not-double [] i h = cc
plain-not-double (part ∷ parts) zero h = ground arith
plain-not-double (part ∷ parts) (suc i) h = plain-not-double parts i h

pub drop_at :
    (parts : List GlobComponent) (i : ℕ) {part : GlobComponent}
    → get_elem? parts i ≡ some part
    → drop i parts ≡ part ∷ drop (suc i) parts
drop_at [] i h = cc
drop_at (q ∷ parts) zero h = ap (λ p. p ∷ parts) (ground arith)
drop_at (q ∷ parts) (suc i) h = drop_at parts i h

pub drop_end : (parts : List GlobComponent) (i : ℕ) → get_elem? parts i ≡ none → drop i parts ≡ []
drop_end [] zero h = refl
drop_end [] (suc i) h = refl
drop_end (q ∷ parts) zero h = cc
drop_end (q ∷ parts) (suc i) h = drop_end parts i h

pub skip_part :
    (case_sensitivity : Bytes → DirectoryCaseSensitivity) (part : GlobComponent)
    (parts : List GlobComponent) (path : List Placed)
    → part.is_double_star ≡ true
    → path_matches case_sensitivity parts path ≡ true
    → path_matches case_sensitivity (part ∷ parts) path ≡ true
unfolding wild
skip_part case_sensitivity part parts [] d m = ground arith
skip_part case_sensitivity part parts (c ∷ path) d m = ground arith

module _ (case_sensitivity : Bytes → DirectoryCaseSensitivity) (g : Glob) (wm : WellMasked g)
    (state : Word) (component directory : Bytes) (w : Word)
    (st : Stepped case_sensitivity g state component directory w) where
  abbrev hits : ℕ → Bool
  hits i = hit case_sensitivity g.parts component directory i

  -- A bit at a `**` stays.
  stays : (i : ℕ) → double_at g.parts i ≡ true → bit state i ≡ true → bit w i ≡ true
  stays i d b =
      ground (arith, st.bits i, wm.doubles i (omega (arith, wm.few, part_at-lt _ g.parts i d)))

  moves-to :
      (i : ℕ)
      → plain_at g.parts i ≡ true
      → hits i ≡ true
      → bit state i ≡ true
      → bit w (suc i) ≡ true
  moves-to i p h b =
      let small = part_at-lt _ g.parts i p in
      ground (
        arith,
        st.bits (suc i),
        wm.few,
        wm.actives i (omega (arith, wm.few)),
        bit-and_word state g.active_mask i,
      )

  -- What a bit of the new state comes from.
  pub data Origin : ℕ → Type 0 where
    stayed : {i : ℕ} → double_at g.parts i ≡ true → bit state i ≡ true → Origin i
    stepped :
        {i : ℕ} → plain_at g.parts i ≡ true → hits i ≡ true → bit state i ≡ true → Origin (suc i)

  moved-Origin :
      (j : ℕ) → j < width → moved case_sensitivity g state component directory j ≡ true → Origin j
  moved-Origin zero h m = stayed (ground (arith, wm.doubles 0 h)) (ground arith)
  moved-Origin (suc j) h m =
      elim (Bool-cases (bit state (suc j) && bit g.double_star_mask (suc j))) [
        | inl s ↦ stayed (ground (arith, wm.doubles (suc j) h)) (ground arith)
        | inr n ↦
            stepped (ground (arith, wm.actives j (omega arith), bit-and_word state g.active_mask j))
              (ground arith) (ground (arith, bit-and_word state g.active_mask j))
      ]

  -- A bit of the new state moved there, or stands behind a `**` that moved there.
  bit-Origin :
      (j : ℕ)
      → j < width
      → bit w j ≡ true
      → Origin j ⊎ ((i : ℕ) × (j ≡ suc i) × (double_at g.parts i ≡ true) × Origin i)
  bit-Origin zero h b = inl (moved-Origin zero h (ground (arith, st.bits zero)))
  bit-Origin (suc j) h b =
      elim (Bool-cases (moved case_sensitivity g state component directory (suc j))) [
        | inl m ↦ inl (moved-Origin (suc j) h m)
        | inr n ↦ inr (
          j,
          refl,
          ground (arith, st.bits (suc j), wm.doubles j (omega arith)),
          moved-Origin j (omega arith) (ground (arith, st.bits (suc j))),
        )
      ]

  double_moved :
      (i : ℕ)
      → i < width
      → double_at g.parts i ≡ true
      → bit w i ≡ true
      → moved case_sensitivity g state component directory i ≡ true
  double_moved zero h d b = ground (arith, st.bits zero)
  double_moved (suc k) h d b =
      ground (arith, st.bits (suc k), wm.doubles k (omega arith), wm.apart k)

  pub Stepped-Closed : Closed case_sensitivity g wm w
  Stepped-Closed i d b =
      let small = part_at-lt _ g.parts i d in
      let in_width : i < width = omega (arith, wm.few) in
      ground (arith, st.bits (suc i), wm.few, wm.doubles i in_width, double_moved i in_width d b)

  abbrev rest_matches : ℕ → List Placed → Bool
  rest_matches i path = path_matches case_sensitivity (drop i g.parts) path

  abbrev here : Placed
  here = (component, directory)

  module _ (path : List Placed) where
    double_splits :
        (i : ℕ)
        → double_at g.parts i ≡ true
        → rest_matches i (here ∷ path) ≡ (rest_matches (suc i) (here ∷ path) || rest_matches i path)
    unfolding wild
    double_splits i d = elim (Option-cases (get_elem? g.parts i)) [
      | inl missing ↦ absurd (ground arith)
      | inr (part, there) ↦
          let double : part.is_double_star ≡ true = ground arith in
          rw (drop_at g.parts i there) (ground arith)
    ]

    plain_splits :
        (i : ℕ)
        → double_at g.parts i ≡ false
        → rest_matches i (here ∷ path) ≡ (plain_at g.parts i && hits i && rest_matches (suc i) path)
    unfolding wild
    plain_splits i d = elim (Option-cases (get_elem? g.parts i)) [
      | inl missing ↦ rw (drop_end g.parts i missing) (ground arith)
      | inr (part, there) ↦
          let plain : part.is_double_star ≡ false = ground arith in
          rw (drop_at g.parts i there) (ground arith)
    ]

    double_skips :
        (i : ℕ)
        → double_at g.parts i ≡ true
        → rest_matches (suc i) path ≡ true
        → rest_matches i path ≡ true
    double_skips i d m = elim (Option-cases (get_elem? g.parts i)) [
      | inl missing ↦ absurd (ground arith)
      | inr (part, there) ↦
          rw (drop_at g.parts i there)
            (skip_part case_sensitivity part (drop (suc i) g.parts) path (ground arith) m)
    ]

    advance_plain :
        (i : ℕ)
        → double_at g.parts i ≡ false
        → bit state i ≡ true
        → rest_matches i (here ∷ path) ≡ true
        → Live case_sensitivity g wm w path
    advance_plain i d b m =
        let splits = plain_splits i d in
        let plain : plain_at g.parts i ≡ true = ground arith in
        (suc i, part_at-lt _ g.parts i plain, moves-to i plain (ground arith) b, ground arith)

    -- A step keeps Alive what was Alive.
    pub Live-step :
        Closed case_sensitivity g wm state
        → Live case_sensitivity g wm state (here ∷ path)
        → Live case_sensitivity g wm w path
    Live-step ClosedState (i, le, b, m) = elim (Bool-cases (double_at g.parts i)) [
      | inr d ↦ advance_plain i d b m
      | inl d ↦ elim (Bool-cases (rest_matches i path)) [
        | inl again ↦ (i, le, stays i d b, again)
        | inr over ↦
            advance_plain (suc i) (wm.apart i d) (ClosedState i d b)
              (ground (arith, double_splits i d))
      ]
    ]

    Origin-Live :
        (j : ℕ)
        → Origin j
        → rest_matches j path ≡ true
        → Live case_sensitivity g wm state (here ∷ path)
    Origin-Live j (stayed {i} d b) m =
        (i, lt-le (part_at-lt _ g.parts i d), b, ground (arith, double_splits i d))
    Origin-Live j (stepped {i} p h b) m = (
      i,
      lt-le (part_at-lt _ g.parts i p),
      b,
      ground (arith, plain_splits i (plain-not-double g.parts i p)),
    )

    -- What is Alive behind a step was Alive before it.
    pub Live-before :
        Live case_sensitivity g wm w path → Live case_sensitivity g wm state (here ∷ path)
    Live-before (j, le, b, m) = elim (bit-Origin j (omega (arith, wm.few)) b) [
      | inl o ↦ Origin-Live j o m
      | inr (i, e, d, o) ↦ Origin-Live i o (double_skips i d (rw e at m))
    ]
