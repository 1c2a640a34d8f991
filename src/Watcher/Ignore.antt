-- ===== src/Watcher/Ignore.antt =====
-- src/Watcher.cc: `Watcher::isIgnored`, with the cache of the states of the globs that each thread keeps.
-- The build is that of Linux, where no alias of an ignored path is added. What
-- `directoryCaseSensitivity` answers does not change.
use native_watcher.Base.{
  ℕ, ◌+◌, Bool, true, false, not, ◌&&◌, ◌||◌, Option, none, some, List, [], ◌∷◌, Bytes, ◌==◌, leb,
  if◌then◌else◌, length, drop, any, slash, bytes_eq, has_path_prefix, is_path_or_descendant, find,
  emplace, Bytes-discrete,
}
use native_watcher.Glob.Text.{split_at_slashes}
use native_watcher.Glob.Automaton.{DirectoryCaseSensitivity, non_empty}
use native_watcher.Glob.Ignore.{
  child_of, relative_text, slash_prefixes, is_path_or_ancestor_ignored,
}
use native_watcher.Watcher.{Watcher}
use native_watcher.Watcher.DirStates.{
  DirGlobState, make_root_glob_state, step_dir_glob_state, is_component_ignored,
}

-- A path with the part before its last slash, if it has one, and the name behind.
abbrev pub push_front : ℕ → Option Bytes × Bytes → Option Bytes × Bytes
push_front c (none, leaf) = if c == slash then (some [], leaf) else (none, c ∷ leaf)
push_front c (some dir, leaf) = (some (c ∷ dir), leaf)

unfoldable pub split_leaf : Bytes → Option Bytes × Bytes
split_leaf [] = (none, [])
split_leaf (c ∷ path) = push_front c (split_leaf path)

pub record ThreadIgnoreCache : Type 0 where
  pub watcher_id : ℕ
  pub root_state : DirGlobState
  pub last_rel_dir : Bytes
  pub last_state : DirGlobState
  pub has_last : Bool
  pub dirs : List (Bytes × DirGlobState)

-- The texts before a slash, the longest first.
abbrev pub reverse_onto : List Bytes → List Bytes → List Bytes
reverse_onto [] done = done
reverse_onto (x ∷ xs) done = reverse_onto xs (x ∷ done)

abbrev pub find_state : Bytes → List (Bytes × DirGlobState) → Option DirGlobState
find_state key dirs = find Bytes-discrete key dirs

-- The first of these with a state.
unfoldable pub find_ancestor :
    List Bytes → List (Bytes × DirGlobState) → Option (Bytes × DirGlobState)
find_ancestor [] dirs = none
find_ancestor (prefix ∷ prefixes) dirs = elim (find_state prefix dirs) [
  | none ↦ find_ancestor prefixes dirs
  | some state ↦ some (prefix, state)
]

-- The components that the loop `while (pos < relDir.size())` meets: not an empty one at the end.
unfoldable pub without_empty_end : List Bytes → List Bytes
without_empty_end [] = []
without_empty_end ([] ∷ []) = []
without_empty_end ((c ∷ part) ∷ []) = (c ∷ part) ∷ []
without_empty_end (part ∷ next ∷ parts) = part ∷ without_empty_end (next ∷ parts)

module _ (case_sensitivity : Bytes → DirectoryCaseSensitivity) (w : Watcher) where
  -- The loop of `resolveDirGlobState`, from the directory that it has reached.
  unfoldable pub walk :
      Option Bytes
      → List Bytes
      → DirGlobState
      → List (Bytes × DirGlobState)
      → DirGlobState × List (Bytes × DirGlobState)
  unfolding step_dir_glob_state emplace
  walk parent [] state dirs = (state, dirs)
  walk parent (component ∷ path) state dirs =
      let next = step_dir_glob_state case_sensitivity w state component (relative_text parent) in
      let key = child_of parent component in
      walk (some key) path next (emplace Bytes-discrete key next dirs)

  abbrev pub walk_from :
      Bytes
      → DirGlobState
      → List (Bytes × DirGlobState)
      → Option (Bytes × DirGlobState)
      → DirGlobState × List (Bytes × DirGlobState)
  walk_from rel_dir root dirs none =
      walk none (without_empty_end (split_at_slashes rel_dir)) root dirs
  walk_from rel_dir root dirs (some (prefix, state)) =
      walk (some prefix) (without_empty_end (split_at_slashes (drop (length prefix + 1) rel_dir)))
        state dirs

  -- The cache of another watcher is thrown away.
  unfoldable pub own_cache : ThreadIgnoreCache → ThreadIgnoreCache
  unfolding make_root_glob_state
  own_cache cache = if cache.watcher_id == w.id then cache else record {
    watcher_id = w.id;
    root_state = make_root_glob_state case_sensitivity w;
    last_rel_dir = [];
    last_state = cache.last_state;
    has_last = false;
    dirs = [];
  }

  abbrev pub remember :
      Bytes → DirGlobState → List (Bytes × DirGlobState) → ThreadIgnoreCache → ThreadIgnoreCache
  remember rel_dir state dirs cache = record cache {
    last_rel_dir = rel_dir;
    last_state = state;
    has_last = true;
    dirs = dirs;
  }

  abbrev pub max_dirs : ℕ
  max_dirs = 16384

  -- What is done where the directory has no state yet.
  unfoldable pub resolve_new : Bytes → ThreadIgnoreCache → ThreadIgnoreCache × DirGlobState
  unfolding walk find_ancestor
  resolve_new rel_dir cache =
      let dirs = if leb max_dirs (length cache.dirs) then [] else cache.dirs in
      let r =
        walk_from rel_dir cache.root_state dirs
          (find_ancestor (reverse_onto (slash_prefixes [] rel_dir) []) dirs) in
      (remember rel_dir r.0 r.1 cache, r.0)

  abbrev pub resolve_found :
      Bytes → ThreadIgnoreCache → Option DirGlobState → ThreadIgnoreCache × DirGlobState
  resolve_found rel_dir cache none = resolve_new rel_dir cache
  resolve_found rel_dir cache (some state) = (remember rel_dir state cache.dirs cache, state)

  unfoldable pub resolve_own : Bytes → ThreadIgnoreCache → ThreadIgnoreCache × DirGlobState
  unfolding resolve_new
  resolve_own rel_dir cache =
      if not (non_empty rel_dir)
      then (cache, cache.root_state)
      else if cache.has_last && bytes_eq cache.last_rel_dir rel_dir
      then (cache, cache.last_state)
      else resolve_found rel_dir cache (find_state rel_dir cache.dirs)

  unfoldable pub resolve_dir_glob_state :
      Bytes → ThreadIgnoreCache → ThreadIgnoreCache × DirGlobState
  unfolding own_cache resolve_own
  resolve_dir_glob_state rel_dir cache = resolve_own rel_dir (own_cache cache)

  -- The answer from the cache: `relDir` is empty where the path has no slash.
  unfoldable pub ignored_by_cache : Bytes → ThreadIgnoreCache → ThreadIgnoreCache × Bool
  unfolding resolve_dir_glob_state is_component_ignored split_leaf
  ignored_by_cache relative cache =
      let parts = split_leaf relative in
      let r = resolve_dir_glob_state (relative_text parts.0) cache in
      (r.0, is_component_ignored case_sensitivity w r.1 parts.1 (relative_text parts.0))

  -- The answer from each glob by itself.
  unfoldable pub ignored_by_globs : Bytes → Bool
  unfolding any is_path_or_ancestor_ignored
  ignored_by_globs relative =
      any (λ g. is_path_or_ancestor_ignored case_sensitivity g w.dir relative) w.compiled_globs

  abbrev pub in_ignored_path : Bytes → Bool
  in_ignored_path path =
      any (is_path_or_descendant path) w.ignore_paths
      || (non_empty w.ignore_paths && any (is_path_or_descendant path) w.ignore_aliases)

  abbrev pub relative_path : Bytes → Bytes
  relative_path path = drop (length w.dir + 1) path

  abbrev pub outside : Bytes → Bool
  outside path = not (has_path_prefix path w.dir) || not (non_empty (relative_path path))

  unfoldable pub is_ignored : Bytes → ThreadIgnoreCache → ThreadIgnoreCache × Bool
  is_ignored path cache =
      if in_ignored_path path
      then (cache, true)
      else if not (non_empty w.compiled_globs) || outside path
      then (cache, false)
      else if w.all_globs_use_bitmask && not (w.id == 0)
      then ignored_by_cache (relative_path path) cache
      else (cache, ignored_by_globs (relative_path path))

abbrev pub new_cache : ThreadIgnoreCache
new_cache = record {
  watcher_id = 0;
  root_state = record { ignored = false; all_dead = false; states = [] };
  last_rel_dir = [];
  last_state = record { ignored = false; all_dead = false; states = [] };
  has_last = false;
  dirs = [];
}
