-- ===== src/Samples/Debounces.antt =====
-- src/Debounce.cc: a trigger wakes the thread, which waits before it calls two callbacks.
use native_watcher.Base.{arith, ◌+◌, ◌≡◌, refl, true, false, [], ◌∷◌, List, ℕ, some, ◌≤◌, ◌*◌}
use native_watcher.Debounce.{
  Debounce, woken, waiting, triggers, advances, make_move, go, run_moves, milliseconds,
}
use native_watcher.Debounce.Trigger.{still, next, is_held, ticks, trigger_held, trigger_called}

abbrev two_callbacks : List (ℕ × ℕ)
two_callbacks = (1, 10) ∷ (2, 20) ∷ []

abbrev sleeping_thread : Debounce
sleeping_thread = record {
  running = true;
  flag = false;
  callbacks = two_callbacks;
  last_time = 3;
  place = waiting;
}

abbrev woken_thread : Debounce
woken_thread = record sleeping_thread { flag = true; place = woken }

trigger_held_example : is_held woken_thread ≡ true
unfolding make_move go
trigger_held_example = trigger_held sleeping_thread refl (next (advances 7) [] refl refl still)

-- The steady clock at the moves of the thread.
abbrev clock : ℕ → ℕ
clock i = 7 + i * milliseconds 50

trigger_called_example :
    (n : ℕ) × (n ≤ 7)
    × (e : Debounce) × (run_moves (triggers ∷ ticks clock 0 n) sleeping_thread
        ≡ some (e, 10 ∷ 20 ∷ []))
trigger_called_example =
    trigger_called clock sleeping_thread (λ i. omega arith) refl (λ q. ground (arith, q))
