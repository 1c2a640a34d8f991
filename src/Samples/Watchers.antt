-- ===== src/Samples/Watchers.antt =====
-- src/Watcher.cc: a path asked of two watchers, a shared watcher that is left and released, and an
-- error.
use native_watcher.Base.{ℕ, ◌≡◌, refl, true, false, List, [], ◌∷◌, some, Bytes, codes, arith, any}
use native_watcher.Glob.Automaton.{DirectoryCaseSensitivity, sensitive}
use native_watcher.Watcher.{new_watcher}
use native_watcher.Watcher.Ignore.{split_leaf, new_cache, is_ignored}
use native_watcher.Watcher.Answers.{watcher, ask_all, ignored_plainly, is_ignored-plainly}
use native_watcher.Watcher.Callbacks.{Answer, accepted, new_shared, notify_error}
use native_watcher.Watcher.Callbacks.Steps.{
  watches, releases, unwatches, unrefs, fires, errs, WatcherStep, shared_run,
}
use native_watcher.Watcher.Callbacks.Life.{registered_while_used}
use native_watcher.Watcher.Callbacks.Silence.{hears, notify_error_silences}

abbrev all_sensitive : Bytes → DirectoryCaseSensitivity
all_sensitive directory = sensitive

abbrev one_root : ℕ → Bytes
one_root i = codes "/r"

abbrev no_paths : ℕ → List Bytes
no_paths i = []

abbrev one_glob : ℕ → List Bytes
one_glob i = codes "a/b*" ∷ []

abbrev asked_before : List (ℕ × Bytes)
asked_before = (1, codes "/r/a/x") ∷ (2, codes "/r/a/bc/d") ∷ []

is_ignored-plainly_example :
    (is_ignored all_sensitive
      (watcher all_sensitive one_root no_paths one_glob 2)
      (codes "/r/a/bb/c")
      (ask_all all_sensitive one_root no_paths one_glob asked_before new_cache)).1
    ≡ ignored_plainly all_sensitive one_root no_paths one_glob 2 (codes "/r/a/bb/c")
unfolding split_leaf new_watcher
is_ignored-plainly_example =
    is_ignored-plainly all_sensitive one_root no_paths one_glob asked_before 2 (codes "/r/a/bb/c")
      refl

abbrev accepting : Answer
accepting tsfn = accepted

abbrev kept_steps : List WatcherStep
kept_steps = watches 1 1 7 (some 5) ∷ releases ∷ unrefs ∷ []

registered_while_used_example :
    ((shared_run kept_steps new_shared).0.registered ≡ true)
    × ((shared_run kept_steps new_shared).0.debounced ≡ true)
unfolding shared_run any
registered_while_used_example = registered_while_used kept_steps refl

-- The last callback and the last reservation gone, the watcher is forgotten.
left_watcher :
    (shared_run
      (watches 1 1 7 (some 5) ∷ releases ∷ unwatches 1 7 ∷ unrefs ∷ [])
      new_shared).0.registered
    ≡ false
unfolding shared_run any
left_watcher = refl

notify_error_silences_example :
    hears 1
      (shared_run
        (fires accepting ∷ errs accepting (codes "e") ∷ [])
        (notify_error accepting (codes "gone") (shared_run kept_steps new_shared).0).0).1
    ≡ false
unfolding shared_run any
notify_error_silences_example =
    notify_error_silences accepting (codes "gone") (shared_run kept_steps new_shared).0
      (fires accepting ∷ errs accepting (codes "e") ∷ []) 1 (omega arith)
