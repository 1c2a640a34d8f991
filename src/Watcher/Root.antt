-- ===== src/Watcher/Root.antt =====
-- src/Watcher.cc: the state of the watched directory answers for every path as the globs do.
use native_watcher.Base.{
  ℕ, ◌<◌, ◌≡◌, refl, sym, ◌∙◌, Bool, true, false, not, ◌||◌, none, List, [], ◌∷◌, arith, Bytes,
  ◌==◌, slash, Bool-cases, inl, inr, any, All, length,
}
use native_watcher.Wildcard.{wild}
use native_watcher.Glob.Word.{is_zero, bit_of_is_zero}
use native_watcher.Glob.Automaton.{Glob, non_empty}
use native_watcher.Glob.Masks.{WellMasked}
use native_watcher.Glob.Live.{path_matches, is_double, matches_placed}
use native_watcher.Glob.Ignore.{accepts, ancestor_loop, bitmask_loop, is_path_or_ancestor_ignored}
use native_watcher.Glob.Text.{components, split_at_slashes}
use native_watcher.Glob.Whole.{place, initial_bits, bitmask_loop-matches, ancestor_loop-matches}
use native_watcher.Watcher.{Watcher}
use native_watcher.Watcher.Ignore.{ignored_by_globs}
use native_watcher.Watcher.DirStates.{Round, also, root_loop, make_root_glob_state}
use native_watcher.Watcher.States.{DirectoryAnswer, any_loop, says, answer_of, foretells}

-- What the constructor makes of a glob that the bitmask fits.
pub record Usable (g : Glob) : Type 0 where
  pub uses : g.use_bitmask ≡ true
  pub named : non_empty g.raw ≡ true
  pub masked : WellMasked g

module _ {ℓ κ} {A : Type ℓ} {B : Type κ} (star : A → Bool) (same : A → B → Bool) where
  wild_any :
      (x : A) (p : List A) (v : List B)
      → wild star same (x ∷ p) [] ≡ true
      → wild star same (x ∷ p) v ≡ true
  unfolding wild
  wild_any x p [] h = h
  wild_any x p (c ∷ v) h =
      let ih = wild_any x p v h in
      elim (Bool-cases (star x)) [
        | inl s ↦ rw (s, ih) (ground arith)
        | inr n ↦ absurd (ground arith)
      ]

  -- Parts that match nothing match everything.
  wild_all :
      (p : List A) (v : List B)
      → 0 < length p
      → wild star same p [] ≡ true
      → wild star same p v ≡ true
  wild_all [] v l h = absurd (omega arith)
  wild_all (x ∷ p) v l h = wild_any x p v h

module _ (cs : DirectoryAnswer) (w : Watcher) (component : Bytes) (path : List Bytes) where
  abbrev whole : List Bytes
  whole = component ∷ path

  abbrev alone : Glob → Bool
  alone g = ancestor_loop cs g w.dir none whole g.initial_state

  alone_of_accepts :
      (g : Glob) → Usable g → accepts cs g w.dir g.initial_state ≡ true → alone g ≡ true
  unfolding place bitmask_loop
  alone_of_accepts g u acc =
      let matches : path_matches cs g.parts [] ≡ true =
        sym (bitmask_loop-matches cs g u.masked w.dir []) ∙ acc in
      (ancestor_loop-matches cs g u.masked w.dir whole).1 (
        0,
        omega arith,
        wild_all is_double (matches_placed cs) g.parts _ u.masked.some_parts matches,
      )

  initial_alive : (g : Glob) → Usable g → is_zero g.initial_state ≡ false
  initial_alive g u = elim (Bool-cases (is_zero g.initial_state)) [
    | inl z ↦
        absurd (ground (arith, initial_bits cs g u.masked 0, bit_of_is_zero g.initial_state 0 z))
    | inr z ↦ z
  ]

  record Rooted (globs : List Glob) (any_alive : Bool) (r : Round) : Type 0 where
    answers : answer_of cs w none whole globs r ≡ any alone globs
    dead :
        r.0 ≡ false → r.1 ≡ false → (any_alive ≡ false) × (says cs w none whole globs r.2 ≡ false)

  Rooted-accepted :
      (g : Glob) (globs : List Glob) (any_alive : Bool)
      → alone g ≡ true
      → Rooted (g ∷ globs) any_alive (true, any_alive, g.initial_state ∷ [])
  unfolding any
  Rooted-accepted g globs any_alive h = record { answers = rw h refl; dead = λ i a. cc }

  Rooted-alive :
      (g : Glob) (globs : List Glob) (any_alive : Bool) (r : Round)
      → is_zero g.initial_state ≡ false
      → Rooted globs (any_alive || not (is_zero g.initial_state)) r
      → Rooted (g ∷ globs) any_alive (also g.initial_state r)
  unfolding any_loop any
  Rooted-alive g globs any_alive r z rooted = record {
    answers = rw (z, ← rooted.answers) (ground arith);
    dead = λ i a. let (x, y) = rooted.dead i a in absurd (ground arith);
  }

  root_loop-Rooted :
      (globs : List Glob) (any_alive : Bool)
      → All Usable globs
      → Rooted globs any_alive (root_loop cs w globs any_alive)
  unfolding root_loop any_loop any
  root_loop-Rooted [] any_alive u = record { answers = refl; dead = λ i a. (a, refl) }
  root_loop-Rooted (g ∷ globs) any_alive u =
      let ih = root_loop-Rooted globs (any_alive || not (is_zero g.initial_state)) u.1 in
      elim (Bool-cases (accepts cs g w.dir g.initial_state)) [
        | inl acc ↦
            rw (root_loop, acc) (Rooted-accepted g globs any_alive (alone_of_accepts g u.0 acc))
        | inr rej ↦ rw (root_loop, rej) (Rooted-alive g globs any_alive _ (initial_alive g u.0) ih)
      ]

  make_root-alone :
      All Usable w.compiled_globs
      → foretells cs w none whole (make_root_glob_state cs w) ≡ any alone w.compiled_globs
  unfolding make_root_glob_state
  make_root-alone u =
      let r = root_loop-Rooted w.compiled_globs false u in ground (arith, r.answers, r.dead)

by_globs :
    (cs : DirectoryAnswer) (w : Watcher) (c : ℕ) (relative : Bytes) (globs : List Glob)
    → All Usable globs
    → any (λ (g : Glob). is_path_or_ancestor_ignored cs g w.dir (c ∷ relative)) globs
      ≡ any
          (λ (g : Glob). ancestor_loop cs g w.dir none (components (c ∷ relative)) g.initial_state)
          globs
unfolding any is_path_or_ancestor_ignored
by_globs cs w c relative [] u = refl
by_globs cs w c relative (g ∷ globs) u =
    rw (u.0.named, u.0.uses, by_globs cs w c relative globs u.1) refl

pub split_cases : (path : Bytes) → (a : Bytes) × (r : List Bytes) × (split_at_slashes path ≡ a ∷ r)
unfolding split_at_slashes
split_cases [] = ([], [], refl)
split_cases (c ∷ path) = elim (Bool-cases (c == slash)) [
  | inl s ↦ ([], split_at_slashes path, rw s)
  | inr n ↦ let (a, r, e) = split_cases path in (c ∷ a, r, rw (n, e) refl)
]

-- The watched directory's state says of every path what the globs say.
pub make_root-foretells :
    (cs : DirectoryAnswer) (w : Watcher) (relative : Bytes)
    → All Usable w.compiled_globs
    → non_empty relative ≡ true
    → foretells cs w none (split_at_slashes relative) (make_root_glob_state cs w)
      ≡ ignored_by_globs cs w relative
unfolding ignored_by_globs components
make_root-foretells cs w [] u h = absurd (ground arith)
make_root-foretells cs w (c ∷ relative) u h =
    let (a, r, e) = split_cases (c ∷ relative) in
    let from = make_root-alone cs w a r u in
    rw (by_globs cs w c relative w.compiled_globs u, e) from
