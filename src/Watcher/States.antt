-- ===== src/Watcher/States.antt =====
-- src/Watcher.cc: the states of the globs at a directory answer for a path below it as the globs do.
use native_watcher.Base.{
  ◌≡◌, refl, Bool, true, false, not, ◌&&◌, ◌||◌, Option, none, some, List, [], ◌∷◌, arith, Bytes,
  if◌then◌else◌, Bool-cases, inl, inr,
}
use native_watcher.Glob.Word.{Word, is_zero, zeros}
use native_watcher.Glob.Automaton.{
  DirectoryCaseSensitivity, Glob, Cached, build_parent_directory, word_zero,
}
use native_watcher.Glob.Candidates.{Coherent}
use native_watcher.Glob.Ignore.{accepts, step, child_of, relative_text, ancestor_loop}
use native_watcher.Watcher.{Watcher}
use native_watcher.Watcher.Caching.{step_bitmask-cached}
use native_watcher.Watcher.DirStates.{
  DirGlobState, Round, also, step_loop, step_dir_glob_state, ignored_loop, is_component_ignored,
}

abbrev pub DirectoryAnswer : Type 0
DirectoryAnswer = Bytes → DirectoryCaseSensitivity

-- What the globs say of a path, each from its own state.
unfoldable pub any_loop :
    DirectoryAnswer → Bytes → Option Bytes → List Bytes → List Glob → List Word → Bool
any_loop cs root parent path [] states = false
any_loop cs root parent path (g ∷ globs) [] = false
any_loop cs root parent path (g ∷ globs) (s ∷ states) =
    (not (is_zero s) && ancestor_loop cs g root parent path s)
    || any_loop cs root parent path globs states

module _ (cs : DirectoryAnswer) (w : Watcher) where
  abbrev pub says : Option Bytes → List Bytes → List Glob → List Word → Bool
  says parent path globs states = any_loop cs w.dir parent path globs states

  -- What a state says of a path below its directory.
  abbrev pub foretells : Option Bytes → List Bytes → DirGlobState → Bool
  foretells parent path state =
      if state.ignored
      then true
      else if state.all_dead
      then false
      else says parent path w.compiled_globs state.states

  abbrev pub answer_of : Option Bytes → List Bytes → List Glob → Round → Bool
  answer_of parent path globs r = if r.0 then true else says parent path globs r.2

  abbrev Directory : Option Bytes → Cached → Type 0
  Directory parent cached = Coherent cs (build_parent_directory w.dir (relative_text parent)) cached

  pub ancestor_loop-cons :
      (g : Glob) (parent : Option Bytes) (component : Bytes) (path : List Bytes) (s : Word)
      → let next = step cs g w.dir s component parent in
        ancestor_loop cs g w.dir parent (component ∷ path) s ≡ (
          accepts cs g w.dir next
          || (not (is_zero next)
              && ancestor_loop cs g w.dir (some (child_of parent component)) path next))
  unfolding ancestor_loop
  ancestor_loop-cons g parent component path s =
      let next = step cs g w.dir s component parent in
      elim (Bool-cases (accepts cs g w.dir next)) [
        | inl acc ↦ rw (ancestor_loop, acc) refl
        | inr rej ↦ elim (Bool-cases (is_zero next)) [
          | inl z ↦ rw (ancestor_loop, rej, z) refl
          | inr z ↦ rw (ancestor_loop, rej, z) refl
        ]
      ]

  says-leaf :
      (g : Glob) (parent : Option Bytes) (leaf : Bytes) (s : Word) (globs : List Glob)
      (states : List Word)
      → is_zero s ≡ false
      → says parent (leaf ∷ []) (g ∷ globs) (s ∷ states) ≡ (
          accepts cs g w.dir (step cs g w.dir s leaf parent)
          || says parent (leaf ∷ []) globs states)
  unfolding any_loop
  says-leaf g parent leaf s globs states z =
      rw (z, ancestor_loop-cons g parent leaf [] s) (unfold ancestor_loop in ground arith)

  ignored_loop-says :
      (parent : Option Bytes) (leaf : Bytes) (globs : List Glob) (states : List Word)
      (cached : Cached)
      → Directory parent cached
      → ignored_loop cs w leaf (relative_text parent) globs states cached
        ≡ says parent (leaf ∷ []) globs states
  unfolding ignored_loop any_loop
  ignored_loop-says parent leaf [] states cached h = refl
  ignored_loop-says parent leaf (g ∷ globs) [] cached h = refl
  ignored_loop-says parent leaf (g ∷ globs) (s ∷ states) cached h =
      let (same, h') = step_bitmask-cached cs g s leaf w.dir (relative_text parent) cached h in
      elim (Bool-cases (is_zero s)) [
        | inl z ↦
            rw (ignored_loop, z, any_loop, ignored_loop-says parent leaf globs states cached h)
        | inr z ↦
            let ih = ignored_loop-says parent leaf globs states _ h' in
            let next = step cs g w.dir s leaf parent in
            rw (says-leaf g parent leaf s globs states z)
              (elim (Bool-cases (accepts cs g w.dir next)) [
                | inl acc ↦ rw (ignored_loop, z, same, acc) refl
                | inr rej ↦ rw (ignored_loop, z, same, rej) ih
              ])
      ]

  -- The leaf of a path is ignored exactly if the state of its directory says so.
  pub is_component_ignored-foretells :
      (parent : Option Bytes) (leaf : Bytes) (state : DirGlobState)
      → is_component_ignored cs w state leaf (relative_text parent)
        ≡ foretells parent (leaf ∷ []) state
  unfolding is_component_ignored
  is_component_ignored-foretells parent leaf state =
      rw (ignored_loop-says parent leaf w.compiled_globs state.states none tt) refl

  pub record Stepped (parent : Option Bytes) (component : Bytes) (path : List Bytes)
      (globs : List Glob) (states : List Word) (any_alive : Bool) (r : Round) : Type 0 where
    pub answers :
        answer_of (some (child_of parent component)) path globs r
        ≡ says parent (component ∷ path) globs states
    pub dead :
        r.0 ≡ false
        → r.1 ≡ false
        → (any_alive ≡ false) × (says (some (child_of parent component)) path globs r.2 ≡ false)

  word_zero_dead : is_zero word_zero ≡ true
  unfolding is_zero zeros
  word_zero_dead = refl

  module _ (parent : Option Bytes) (component : Bytes) (path : List Bytes) (g : Glob)
      (globs : List Glob) (s : Word) (states : List Word) (any_alive : Bool) where
    abbrev next_state : Word
    next_state = step cs g w.dir s component parent

    abbrev child : Option Bytes
    child = some (child_of parent component)

    Stepped-dead :
        (r : Round)
        → is_zero s ≡ true
        → Stepped parent component path globs states any_alive r
        → Stepped parent component path (g ∷ globs) (s ∷ states) any_alive (also word_zero r)
    unfolding any_loop
    Stepped-dead r z st = record {
      answers = rw (z, word_zero_dead) st.answers;
      dead = λ i a. rw word_zero_dead (st.dead i a);
    }

    says-cons :
        is_zero s ≡ false
        → says parent (component ∷ path) (g ∷ globs) (s ∷ states) ≡ (
            (accepts cs g w.dir next_state
              || (not (is_zero next_state) && ancestor_loop cs g w.dir child path next_state))
            || says parent (component ∷ path) globs states)
    unfolding any_loop
    says-cons z = rw (z, ancestor_loop-cons g parent component path s) refl

    Stepped-accepted :
        is_zero s ≡ false
        → accepts cs g w.dir next_state ≡ true
        → Stepped parent component path (g ∷ globs) (s ∷ states) any_alive (true, any_alive, [])
    Stepped-accepted z acc = record { answers = rw (says-cons z, acc) refl; dead = λ i a. cc }

    Stepped-alive :
        (r : Round)
        → is_zero s ≡ false
        → accepts cs g w.dir next_state ≡ false
        → Stepped parent component path globs states (any_alive || not (is_zero next_state)) r
        → Stepped parent component path (g ∷ globs) (s ∷ states) any_alive (also next_state r)
    unfolding any_loop
    Stepped-alive r z rej st = record {
      answers = rw (says-cons z, rej, ← st.answers) (ground arith);
      dead = λ i a. let (x, y) = st.dead i a in (ground arith, ground arith);
    }

  step_loop-Stepped :
      (parent : Option Bytes) (component : Bytes) (path : List Bytes) (globs : List Glob)
      (states : List Word) (cached : Cached) (any_alive : Bool)
      → Directory parent cached
      → Stepped parent component path globs states any_alive
          (step_loop cs w component (relative_text parent) globs states cached any_alive)
  unfolding step_loop any_loop
  step_loop-Stepped parent component path [] states cached any_alive h = record {
    answers = refl;
    dead = λ i a. (a, refl);
  }
  step_loop-Stepped parent component path (g ∷ globs) [] cached any_alive h = record {
    answers = refl;
    dead = λ i a. (a, refl);
  }
  step_loop-Stepped parent component path (g ∷ globs) (s ∷ states) cached any_alive h =
      let (same, h') = step_bitmask-cached cs g s component w.dir (relative_text parent) cached h in
      elim (Bool-cases (is_zero s)) [
        | inl z ↦
            let ih = step_loop-Stepped parent component path globs states cached any_alive h in
            rw (step_loop, z) (Stepped-dead parent component path g globs s states any_alive _ z ih)
        | inr z ↦
            let next = step cs g w.dir s component parent in
            elim (Bool-cases (accepts cs g w.dir next)) [
              | inl acc ↦
                  rw (step_loop, z, same, acc)
                    (Stepped-accepted parent component path g globs s states any_alive z acc)
              | inr rej ↦
                  let ih =
                    step_loop-Stepped parent component path globs states _
                      (any_alive || not (is_zero next)) h' in
                  rw (step_loop, z, same, rej, same)
                    (Stepped-alive parent component path g globs s states any_alive _ z rej ih)
            ]
      ]

  -- After a step the state says of the rest of the path what it said of the whole.
  pub step_dir_glob_state-foretells :
      (parent : Option Bytes) (component : Bytes) (path : List Bytes) (state : DirGlobState)
      → foretells
          (some (child_of parent component))
          path
          (step_dir_glob_state cs w state component (relative_text parent))
        ≡ foretells parent (component ∷ path) state
  unfolding step_dir_glob_state
  step_dir_glob_state-foretells parent component path state =
      let st =
        step_loop-Stepped parent component path w.compiled_globs state.states none false tt in
      ground (arith, st.answers, st.dead)
