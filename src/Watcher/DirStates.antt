-- ===== src/Watcher/DirStates.antt =====
-- src/Watcher.cc: the states of the globs at a directory, `makeRootGlobState`, `stepDirGlobState` and
-- `isComponentIgnored`. A state's words are those written before the function returns; they are not read
-- where a state is ignored or all dead.
use native_watcher.Base.{
  Bool, true, false, not, ◌&&◌, ◌||◌, none, List, [], ◌∷◌, Bytes, if◌then◌else◌,
}
use native_watcher.Glob.Word.{Word, is_zero}
use native_watcher.Glob.Automaton.{DirectoryCaseSensitivity, Glob, Cached, word_zero, step_bitmask}
use native_watcher.Glob.Ignore.{accepts}
use native_watcher.Watcher.{Watcher}

pub record DirGlobState : Type 0 where
  pub ignored : Bool
  pub all_dead : Bool
  pub states : List Word

-- Of a loop over the globs: whether one accepts, whether a state is alive, and the states.
abbrev pub Round : Type 0
Round = Bool × Bool × List Word

abbrev pub also : Word → Round → Round
also w r = (r.0, r.1, w ∷ r.2)

-- `next.allDead = !anyAlive`, which an early return skips.
abbrev pub end_round : Round → DirGlobState
end_round r = record { ignored = r.0; all_dead = not r.0 && not r.1; states = r.2 }

abbrev pub ignored_state : DirGlobState
ignored_state = record { ignored = true; all_dead = false; states = [] }

abbrev pub dead_state : DirGlobState
dead_state = record { ignored = false; all_dead = true; states = [] }

module _ (case_sensitivity : Bytes → DirectoryCaseSensitivity) (w : Watcher) where
  unfoldable pub root_loop : List Glob → Bool → Round
  root_loop [] any_alive = (false, any_alive, [])
  root_loop (g ∷ globs) any_alive =
      let state = g.initial_state in
      let rest = root_loop globs (any_alive || not (is_zero state)) in
      if accepts case_sensitivity g w.dir state
      then (true, any_alive, state ∷ [])
      else also state rest

  unfoldable pub make_root_glob_state : DirGlobState
  unfolding root_loop
  make_root_glob_state = end_round (root_loop w.compiled_globs false)

  -- The loop of `stepDirGlobState`; there is a word for each glob.
  unfoldable pub step_loop : Bytes → Bytes → List Glob → List Word → Cached → Bool → Round
  step_loop component rel_parent [] states cached any_alive = (false, any_alive, [])
  step_loop component rel_parent (g ∷ globs) [] cached any_alive = (false, any_alive, [])
  step_loop component rel_parent (g ∷ globs) (s ∷ states) cached any_alive = elim (is_zero s) [
    | true ↦ also word_zero (step_loop component rel_parent globs states cached any_alive)
    | false ↦
        let r = step_bitmask case_sensitivity g s component w.dir rel_parent cached in
        elim (accepts case_sensitivity g w.dir r.0) [
          | true ↦ (true, any_alive, [])
          | false ↦
              also r.0
                (step_loop component rel_parent globs states r.1 (any_alive || not (is_zero r.0)))
        ]
  ]

  unfoldable pub step_dir_glob_state : DirGlobState → Bytes → Bytes → DirGlobState
  unfolding step_loop
  step_dir_glob_state parent component rel_parent =
      if parent.ignored
      then ignored_state
      else if parent.all_dead
      then dead_state
      else end_round (step_loop component rel_parent w.compiled_globs parent.states none false)

  unfoldable pub ignored_loop : Bytes → Bytes → List Glob → List Word → Cached → Bool
  ignored_loop component rel_parent [] states cached = false
  ignored_loop component rel_parent (g ∷ globs) [] cached = false
  ignored_loop component rel_parent (g ∷ globs) (s ∷ states) cached = elim (is_zero s) [
    | true ↦ ignored_loop component rel_parent globs states cached
    | false ↦
        let r = step_bitmask case_sensitivity g s component w.dir rel_parent cached in
        elim (accepts case_sensitivity g w.dir r.0) [
          | true ↦ true
          | false ↦ ignored_loop component rel_parent globs states r.1
        ]
  ]

  unfoldable pub is_component_ignored : DirGlobState → Bytes → Bytes → Bool
  unfolding ignored_loop
  is_component_ignored parent component rel_parent =
      if parent.ignored
      then true
      else if parent.all_dead
      then false
      else ignored_loop component rel_parent w.compiled_globs parent.states none
