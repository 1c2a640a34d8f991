-- ===== src/Watcher/Cache.antt =====
-- src/Watcher.cc: the cache of `resolveDirGlobState` holds for each directory the state that stepping
-- from the watched directory gives.
use mathlib.Core.Logic.{if_pos, if_neg}
use native_watcher.Base.{
  ◌+◌, ◌≡◌, refl, ap, sym, ◌∙◌, Bool, true, false, ◌&&◌, Option, none, some, List, [], ◌∷◌, ◌++◌,
  arith, Bytes, leb, if◌then◌else◌, Bool-cases, Option-cases, inl, inr, slash, length, drop, All,
  find, emplace, find-emplace, some_or, Bytes-discrete, bytes_eq, eq_of_bytes_eq,
}
use native_watcher.Glob.Text.{split_at_slashes}
use native_watcher.Glob.Ignore.{child_of, relative_text}
use native_watcher.Watcher.{Watcher}
use native_watcher.Watcher.Ignore.{
  ThreadIgnoreCache, find_state, find_ancestor, without_empty_end, walk, walk_from, remember,
  max_dirs, resolve_new, resolve_found, resolve_own,
}
use native_watcher.Watcher.DirStates.{DirGlobState, make_root_glob_state, step_dir_glob_state}
use native_watcher.Watcher.States.{DirectoryAnswer, foretells, step_dir_glob_state-foretells}
use native_watcher.Watcher.Names.{
  reached, is_clean, split-append, IsName, split_at_slashes-names, without_empty_end-names,
  clean_end, reached-split, is_clean-append, Cuts, longest_first-Cuts,
}

module _ (cs : DirectoryAnswer) (w : Watcher) where
  abbrev step_in : Option Bytes → DirGlobState → Bytes → DirGlobState
  step_in parent state component = step_dir_glob_state cs w state component (relative_text parent)

  -- Stepping along components, with no cache.
  unfoldable pub descend_states : Option Bytes → List Bytes → DirGlobState → DirGlobState
  descend_states parent [] state = state
  descend_states parent (c ∷ path) state =
      descend_states (some (child_of parent c)) path (step_in parent state c)

  descend_states-append :
      (parent : Option Bytes) (xs ys : List Bytes) (state : DirGlobState)
      → descend_states parent (xs ++ ys) state
        ≡ descend_states (reached parent xs) ys (descend_states parent xs state)
  unfolding descend_states
  descend_states-append parent [] ys state = refl
  descend_states-append parent (x ∷ xs) ys state =
      descend_states-append (some (child_of parent x)) xs ys (step_in parent state x)

  pub descend_states-foretells :
      (parent : Option Bytes) (xs ys : List Bytes) (state : DirGlobState)
      → foretells cs w (reached parent xs) ys (descend_states parent xs state)
        ≡ foretells cs w parent (xs ++ ys) state
  unfolding descend_states
  descend_states-foretells parent [] ys state = refl
  descend_states-foretells parent (x ∷ xs) ys state =
      descend_states-foretells (some (child_of parent x)) xs ys (step_in parent state x)
      ∙ step_dir_glob_state-foretells cs w parent x (xs ++ ys) state

  -- The state of a directory, by its path.
  abbrev pub state_of : Option Bytes → DirGlobState
  state_of none = make_root_glob_state cs w
  state_of (some dir) = descend_states none (split_at_slashes dir) (make_root_glob_state cs w)

  state_of-child :
      (parent : Option Bytes) (c : Bytes)
      → IsName c
      → state_of (some (child_of parent c)) ≡ step_in parent (state_of parent) c
  unfolding descend_states
  state_of-child none c n = rw n refl
  state_of-child (some dir) c n =
      rw
        (
          split-append dir c,
          n,
          descend_states-append none (split_at_slashes dir) (c ∷ []) _,
          reached-split dir,
        )
        refl

  state_of-below :
      (dir rest : Bytes)
      → state_of (some (dir ++ slash ∷ rest))
        ≡ descend_states (some dir) (split_at_slashes rest) (state_of (some dir))
  state_of-below dir rest =
      rw
        (
          split-append dir rest,
          descend_states-append none (split_at_slashes dir) (split_at_slashes rest) _,
          reached-split dir,
        )
        refl

  abbrev pub Dirs : Type 0
  Dirs = List (Bytes × DirGlobState)

  abbrev pub True : Dirs → Type 0
  True dirs =
      (key : Bytes) (state : DirGlobState)
      → find_state key dirs ≡ some state
      → state ≡ state_of (some key)

  emplace-True :
      (key : Bytes) (value : DirGlobState) (dirs : Dirs)
      → value ≡ state_of (some key)
      → True dirs
      → True (emplace Bytes-discrete key value dirs)
  emplace-True key value dirs e t k state h =
      let h' = sym (find-emplace Bytes-discrete key k value dirs) ∙ h in
      elim (Bytes-discrete key k) [
        | yes p ↦
            let h'' : some_or Bytes-discrete (find_state key dirs) value ≡ some state =
              sym (if_pos (Bytes-discrete key k) p _ _) ∙ h' in
            elim (Option-cases (find_state key dirs)) [
              | inl missing ↦
                  let stored : some value ≡ some state = rw missing at h'' in
                  let same : value ≡ state = cc in rw (← same, ← p) e
              | inr (s, there) ↦
                  let stored : some s ≡ some state = rw there at h'' in
                  rw (← p) (t key state (there ∙ stored))
            ]
        | no n ↦ t k state (sym (if_neg (Bytes-discrete key k) n _ _) ∙ h')
      ]

  walk_lem :
      (parent : Option Bytes) (path : List Bytes) (state : DirGlobState) (dirs : Dirs)
      → All IsName path
      → state ≡ state_of parent
      → True dirs
      → ((walk cs w parent path state dirs).0 ≡ descend_states parent path (state_of parent))
        × True (walk cs w parent path state dirs).1
  unfolding walk descend_states
  walk_lem parent [] state dirs n e t = (e, t)
  walk_lem parent (c ∷ path) state dirs n e t =
      let key = child_of parent c in
      let next = state_of-child parent c n.0 in
      let e' : step_in parent state c ≡ state_of (some key) = rw e (sym next) in
      let (same, t') =
        walk_lem (some key) path (step_in parent state c)
          (emplace Bytes-discrete key (step_in parent state c) dirs) n.1 e'
          (emplace-True key _ dirs e' t) in
      (same ∙ ap (λ s. descend_states (some key) path s) next, t')

  -- What `find_ancestor` gives is a cut of the path with its state.
  abbrev Found : Bytes → Option (Bytes × DirGlobState) → Type 0
  Found path none = Unit
  Found path (some (prefix, state)) = Cuts path prefix × (state ≡ state_of (some prefix))

  find_ancestor-Found :
      (path : Bytes) (prefixes : List Bytes) (dirs : Dirs)
      → All (Cuts path) prefixes
      → True dirs
      → Found path (find_ancestor prefixes dirs)
  unfolding find_ancestor
  find_ancestor-Found path [] dirs c t = tt
  find_ancestor-Found path (prefix ∷ prefixes) dirs c t =
      elim (Option-cases (find_state prefix dirs)) [
        | inl missing ↦ rw (find_ancestor, missing) (find_ancestor-Found path prefixes dirs c.1 t)
        | inr (state, there) ↦ rw (find_ancestor, there) (c.0, t prefix state there)
      ]

  clean_names : (path : Bytes) → All IsName (without_empty_end (split_at_slashes path))
  clean_names path = without_empty_end-names (split_at_slashes path) (split_at_slashes-names path)

  abbrev Resolved : Bytes → DirGlobState × Dirs → Type 0
  Resolved path r = (is_clean path ≡ true → r.0 ≡ state_of (some path)) × True r.1

  walk_from-Resolved :
      (path : Bytes) (dirs : Dirs) (found : Option (Bytes × DirGlobState))
      → Found path found
      → True dirs
      → Resolved path (walk_from cs w path (make_root_glob_state cs w) dirs found)
  walk_from-Resolved path dirs none f t =
      let (same, t') =
        walk_lem none (without_empty_end (split_at_slashes path)) _ dirs (clean_names path) refl
          t in
      (
        λ c. same ∙ ap (λ p. descend_states none p (make_root_glob_state cs w)) (clean_end path c),
        t',
      )
  walk_from-Resolved path dirs (some (prefix, state)) f t =
      let rest = drop (length prefix + 1) path in
      let (same, t') =
        walk_lem (some prefix) (without_empty_end (split_at_slashes rest)) state dirs
          (clean_names rest) f.1 t in
      (
        λ c.
            let c' : is_clean rest ≡ true =
              is_clean-append prefix rest (ap is_clean (sym f.0) ∙ c) in
            same
            ∙ ap (λ p. descend_states (some prefix) p (state_of (some prefix))) (clean_end rest c')
            ∙ sym (state_of-below prefix rest)
            ∙ ap (λ p. state_of (some p)) (sym f.0),
        t',
      )

  -- What a cache of this watcher holds.
  pub record Faithful (cache : ThreadIgnoreCache) : Type 0 where
    pub root : cache.root_state ≡ make_root_glob_state cs w
    pub dirs : True cache.dirs
    pub last :
        cache.has_last ≡ true
        → is_clean cache.last_rel_dir ≡ true
        → cache.last_state ≡ state_of (some cache.last_rel_dir)

  abbrev Answered : Bytes → ThreadIgnoreCache × DirGlobState → Type 0
  Answered path r =
      Faithful r.0 × (r.0.watcher_id ≡ w.id) × (is_clean path ≡ true → r.1 ≡ state_of (some path))

  remember-Answered :
      (path : Bytes) (state : DirGlobState) (dirs : Dirs) (cache : ThreadIgnoreCache)
      → Faithful cache
      → cache.watcher_id ≡ w.id
      → Resolved path (state, dirs)
      → Answered path (remember cs w path state dirs cache, state)
  remember-Answered path state dirs cache f i r =
      (record { root = f.root; dirs = r.1; last = λ h c. r.0 c }, i, r.0)

  keep-True : (full : Bool) (dirs : Dirs) → True dirs → True (if full then [] else dirs)
  unfolding find
  keep-True true dirs t k state h = cc
  keep-True false dirs t k state h = t k state h

  resolve_new-Answered :
      (path : Bytes) (cache : ThreadIgnoreCache)
      → Faithful cache
      → cache.watcher_id ≡ w.id
      → Answered path (resolve_new cs w path cache)
  unfolding resolve_new
  resolve_new-Answered path cache f i =
      let t = keep-True (leb (max_dirs cs w) (length cache.dirs)) cache.dirs f.dirs in
      let found = find_ancestor-Found path _ _ (longest_first-Cuts path) t in
      let r = walk_from-Resolved path _ _ found t in
      remember-Answered path _ _ cache f i (rw f.root r)

  resolve_found-Answered :
      (path : Bytes) (cache : ThreadIgnoreCache) (found : Option DirGlobState)
      → find_state path cache.dirs ≡ found
      → Faithful cache
      → cache.watcher_id ≡ w.id
      → Answered path (resolve_found cs w path cache found)
  resolve_found-Answered path cache none e f i = resolve_new-Answered path cache f i
  resolve_found-Answered path cache (some state) e f i =
      remember-Answered path state cache.dirs cache f i (λ c. f.dirs path state e, f.dirs)

  abbrev pub AnsweredOrRoot : Bytes → ThreadIgnoreCache × DirGlobState → Type 0
  AnsweredOrRoot path r =
      Faithful r.0
      × (r.0.watcher_id ≡ w.id)
      × (path ≡ [] → r.1 ≡ state_of none)
      × (is_clean path ≡ true → r.1 ≡ state_of (some path))

  pub resolve_own-Answered :
      (path : Bytes) (cache : ThreadIgnoreCache)
      → Faithful cache
      → cache.watcher_id ≡ w.id
      → AnsweredOrRoot path (resolve_own cs w path cache)
  unfolding resolve_own
  resolve_own-Answered [] cache f i = (f, i, λ e. f.root, λ c. cc)
  resolve_own-Answered (c ∷ path) cache f i =
      elim (Bool-cases (cache.has_last && bytes_eq cache.last_rel_dir (c ∷ path))) [
        | inl same ↦
            let h : cache.has_last ≡ true = ground arith in
            let e = eq_of_bytes_eq cache.last_rel_dir (c ∷ path) (ground arith) in
            rw same (
              f,
              i,
              λ none_there. cc,
              λ clean. f.last h (rw e clean) ∙ ap (λ p. state_of (some p)) e,
            )
        | inr other ↦
            let (f', i', a) = resolve_found-Answered (c ∷ path) cache _ refl f i in
            rw other (f', i', λ none_there. cc, a)
      ]
