-- ===== src/Debounce.antt =====
-- src/Debounce.cc, src/Debounce.hh and src/Signal.hh: the thread that calls the callbacks, one step
-- for each part of its loop between two accesses to the shared state, and the calls of others. Times
-- are nanoseconds of the steady clock. `getShared` and the creation of the thread are not modelled.
pub mod Trigger
use native_watcher.Base.{
  ℕ, ◌+◌, ◌*◌, Bool, true, false, not, ◌&&◌, ◌||◌, Option, none, some, List, [], ◌∷◌, ◌++◌, ltb,
  leb, if◌then◌else◌, emplace, erase, map, ℕ_discrete,
}

-- Where the thread is: at the head of `loop`, inside `mWaitSignal.wait()`, after it, in
-- `notifyIfReady` before `wait()`, in `waitFor` until a deadline, before `notify()`, and returned.
pub data Place : Type 0 where
  looping : Place
  waiting : Place
  woken : Place
  early : Place
  batching : ℕ → Place
  due : Place
  returned : Place

-- `flag` is `mFlag` of the signal, and `callbacks` have the watcher as their key.
pub record Debounce : Type 0 where
  pub running : Bool
  pub flag : Bool
  pub callbacks : List (ℕ × ℕ)
  pub last_time : ℕ
  pub place : Place

abbrev pub milliseconds : ℕ → ℕ
milliseconds n = n * 1000000

abbrev pub min_wait_time : ℕ
min_wait_time = 50

abbrev pub max_wait_time : ℕ
max_wait_time = 500

-- What runs: a call of another thread, or the thread from the place where it is, with the time that
-- it reads from the clock.
pub data DebounceMove : Type 0 where
  adds : ℕ → ℕ → DebounceMove
  removes : ℕ → DebounceMove
  triggers : DebounceMove
  destroys : DebounceMove
  advances : ℕ → DebounceMove

-- `notify`: the state after it; `called` are the callbacks that it calls.
unfoldable pub notify : ℕ → Debounce → Debounce
notify now d = record d { flag = false; last_time = now; place = looping }

abbrev pub called : Debounce → List ℕ
called d = map (λ (e : ℕ × ℕ). e.1) d.callbacks

-- `notifyIfReady` up to its `notify` or `wait`.
unfoldable pub notify_if_ready : ℕ → Debounce → Debounce
notify_if_ready now d =
    if not d.running
    then record d { place = looping }
    else if ltb (d.last_time + milliseconds max_wait_time) now
    then record d { last_time = now; place = due }
    else record d { place = early }

-- `waitFor`, which returns when the flag is set or the time is over, and the test after it.
unfoldable pub wait_for : ℕ → ℕ → Debounce → Option (Debounce × List ℕ)
wait_for deadline now d =
    if d.flag
    then some (record d { place = looping }, [])
    else if leb deadline now
    then some (record d { place = if d.running then due else looping }, [])
    else none

-- The thread from its place, and the callbacks called; `none` where it is blocked or has returned.
unfoldable pub go : Place → ℕ → Debounce → Option (Debounce × List ℕ)
unfolding notify notify_if_ready wait_for
go looping now d = some (record d { place = if d.running then waiting else returned }, [])
go waiting now d =
    if d.flag then some (record d { place = if d.running then woken else returned }, []) else none
go woken now d = some (notify_if_ready now d, [])
go early now d =
    some (record d { flag = false; place = batching (now + milliseconds min_wait_time) }, [])
go (batching deadline) now d = wait_for deadline now d
go due now d = some (notify now d, called d)
go returned now d = none

-- One move.
unfoldable pub make_move : DebounceMove → Debounce → Option (Debounce × List ℕ)
unfolding go
make_move (adds k cb) d = some (record d { callbacks = emplace ℕ_discrete k cb d.callbacks }, [])
make_move (removes k) d = some (record d { callbacks = erase ℕ_discrete k d.callbacks }, [])
make_move triggers d = some (record d { flag = true }, [])
make_move destroys d = some (record d { running = false; flag = true }, [])
make_move (advances now) d = go d.place now d

abbrev after_calls : List ℕ → Option (Debounce × List ℕ) → Option (Debounce × List ℕ)
after_calls calls none = none
after_calls calls (some (d, more)) = some (d, calls ++ more)

-- Moves one after the other, and the callbacks called by them.
unfoldable pub run_moves : List DebounceMove → Debounce → Option (Debounce × List ℕ)
unfolding make_move
run_moves [] d = some (d, [])
run_moves (m ∷ ms) d = elim (make_move m d) [
  | none ↦ none
  | some x ↦ after_calls x.1 (run_moves ms x.0)
]
