-- ===== src/Watcher.antt =====
-- src/Watcher.cc and src/Watcher.hh: what a watcher is, and how its constructor prepares the ignore
-- globs. DirStates are the states of the globs at a directory, Ignore is `isIgnored` with the cache of
-- each thread.
pub mod DirStates
pub mod Ignore
pub mod Caching
pub mod States
pub mod Root
pub mod Names
pub mod Cache
pub mod Answers
pub mod Callbacks
use native_watcher.Base.{
  ℕ, zero, suc, ◌+◌, ◌-◌, Bool, true, false, not, ◌&&◌, ◌||◌, List, [], ◌∷◌, Bytes, codes, ltb,
  bytes_eq, if◌then◌else◌, length, take, drop, map, all,
}
use native_watcher.Glob.Automaton.{Glob, new_glob, non_empty}

-- The part of a watcher that `isIgnored` reads.
pub record Watcher : Type 0 where
  pub dir : Bytes
  pub ignore_paths : List Bytes
  pub ignore_aliases : List Bytes
  pub compiled_globs : List Glob
  pub all_globs_use_bitmask : Bool
  pub id : ℕ

abbrev double_star_ending : Bytes
double_star_ending = codes "/**"

abbrev windows_double_star_ending : Bytes
windows_double_star_ending = codes "\\**"

-- The last three bytes of a text that has them.
abbrev last_three : Bytes → Bytes
last_three raw = drop (length raw - 3) raw

abbrev has_double_star_ending : Bytes → Bool
has_double_star_ending raw =
    ltb 3 (length raw)
    && (bytes_eq (last_three raw) double_star_ending
        || bytes_eq (last_three raw) windows_double_star_ending)

-- The loop that cuts off `/**` at the end; a round takes three bytes.
unfoldable pub normalize_loop : ℕ → Bytes → Bytes
normalize_loop zero raw = raw
normalize_loop (suc fuel) raw =
    let rest = normalize_loop fuel (take (length raw - 3) raw) in
    if has_double_star_ending raw then rest else raw

unfoldable pub normalize : Bytes → Bytes
unfolding normalize_loop
normalize raw = normalize_loop (length raw) raw

-- `deduplicated.emplace`
unfoldable pub has_raw : Bytes → List Bytes → Bool
has_raw raw [] = false
has_raw raw (x ∷ xs) = bytes_eq x raw || has_raw raw xs

unfoldable pub deduplicate : List Bytes → List Bytes
unfolding has_raw normalize
deduplicate [] = []
deduplicate (raw ∷ globs) =
    let rest = deduplicate globs in
    if not (non_empty raw) || has_raw (normalize raw) rest then rest else normalize raw ∷ rest

-- The constructor. A set of globs is a list, in the order in which the set is walked.
unfoldable pub new_watcher : ℕ → Bytes → List Bytes → List Bytes → Watcher
unfolding deduplicate all
new_watcher id dir ignore_paths ignore_globs =
    let compiled = map new_glob (deduplicate ignore_globs) in
    record {
      dir = dir;
      ignore_paths = ignore_paths;
      ignore_aliases = [];
      compiled_globs = compiled;
      all_globs_use_bitmask = all (λ (g : Glob). g.use_bitmask) compiled;
      id = id;
    }
