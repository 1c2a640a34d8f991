-- ===== src/Samples/Backends.antt =====
-- src/Backend.cc: a watcher comes and goes while the backend is reserved, and the last release stops it.
use native_watcher.Inotify.Sets.{member, without_element}
use native_watcher.Inotify.Session.{insert}
use native_watcher.Base.{
  ℕ_discrete, find, erase, List, ◌≡◌, ◌&&◌, ◌||◌, ltb, refl, true, false, [], ◌∷◌, arith,
}
use native_watcher.Backend.{
  BackendStep, begins, finishes, unwatches, releases, unrefs, run_steps, new_backend, begin_watch,
  finish_watch, unwatch, release_shared, unref,
}
use native_watcher.Backend.Lifetime.{is_used, run_steps_lem}

-- The `unref` of the first `unwatch` finds the reservation, that of the release the pending watcher,
-- and that of the second `unwatch` nothing.
abbrev comes_and_goes : List BackendStep
comes_and_goes =
    begins false true 4
    ∷ finishes true 4
    ∷ unwatches false false true 4
    ∷ unrefs
    ∷ begins false true 5
    ∷ releases
    ∷ unrefs
    ∷ finishes true 5
    ∷ unwatches false false true 5
    ∷ unrefs
    ∷ []

last_one_leaves : (run_steps comes_and_goes new_backend).stopped ≡ true
unfolding run_steps begin_watch finish_watch unwatch release_shared unref find erase member insert
    without_element ℕ_discrete
last_one_leaves = refl

run_steps_lem_example :
    (((run_steps comes_and_goes new_backend).stopped
        && is_used (run_steps comes_and_goes new_backend))
      ≡ false)
    × (((run_steps comes_and_goes new_backend).stopped
          || is_used (run_steps comes_and_goes new_backend)
          || ltb 0 (run_steps comes_and_goes new_backend).owed)
        ≡ true)
unfolding begin_watch finish_watch unwatch release_shared unref find erase member insert
    without_element ℕ_discrete
run_steps_lem_example = run_steps_lem comes_and_goes (
  omega arith,
  (tt, (tt, (tt, (omega arith, ((omega arith, omega arith), (tt, (tt, (tt, (tt, tt))))))))),
)
