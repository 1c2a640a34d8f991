-- ===== src/Backend.antt =====
-- src/Backend.cc and src/Backend.hh: which watchers a backend has, and when it stops. Each part of a
-- call that runs under the lock is one step, and so is each change of the atomic counter; an `unref`
-- is a step of its own, which is owed from the step before it in its call on. A call that has to wait
-- for a pending one does nothing until it is tried again. Threads and the startup of the backend are
-- not modelled.
pub mod Lifetime
use native_watcher.Base.{
  ℕ, ◌+◌, ◌-◌, ◌%◌, ◌^◌, Bool, true, false, not, ◌&&◌, ◌||◌, Option, none, some, List, [], ◌∷◌,
  ◌==◌, if◌then◌else◌, has_value, find, erase, ℕ_discrete,
}
use native_watcher.Inotify.Sets.{member, without_element}
use native_watcher.Inotify.Session.{insert}

-- `pending` are the watchers of `mPendingSubscriptions`, each with the `wasInvalid` of its call, and
-- `owed` counts the calls that go on with an `unref`.
pub record Backend : Type 0 where
  pub subscriptions : List ℕ
  pub invalid_subscriptions : List ℕ
  pub pending : List (ℕ × Bool)
  pub needs_resubscribe : List ℕ
  pub shared_reservations : ℕ
  pub owed : ℕ
  pub stopped : Bool

abbrev pub no_element {ℓ} : {A : Type ℓ} → List A → Bool
no_element [] = true
no_element (x ∷ xs) = false

abbrev pub is_idle : Backend → Bool
is_idle b = no_element b.subscriptions && no_element b.pending && b.shared_reservations == 0

-- `unref`, of a call that owes it.
unfoldable pub unref : Backend → Backend
unref b =
    let called : Backend = record b { owed = b.owed - 1 } in
    if b.owed == 0 then b else if is_idle b then record called { stopped = true } else called

abbrev pub owe : Backend → Backend
owe b = record b { owed = b.owed + 1 }

abbrev pub is_pending : ℕ → Backend → Bool
is_pending w b = has_value (find ℕ_discrete w b.pending)

-- What both `catch` blocks of `watch` do.
unfoldable pub undo_watch : ℕ → Bool → Backend → Backend
unfolding insert
undo_watch w was_invalid b =
    let left : Backend = record b { pending = erase ℕ_discrete w b.pending } in
    if was_invalid
    then record left { invalid_subscriptions = insert w left.invalid_subscriptions }
    else owe left

-- `isNew` and `wasInvalid` of `watch`.
abbrev pub is_new : ℕ → Backend → Bool
is_new w b = not (member w b.subscriptions)

abbrev pub was_invalid_at : ℕ → Backend → Bool
was_invalid_at w b =
    not (is_new w b) && (member w b.invalid_subscriptions || member w b.needs_resubscribe)

-- The flag and the set that finding these clears.
abbrev pub cleared : ℕ → Backend → Backend
cleared w b = record b {
  needs_resubscribe = without_element w b.needs_resubscribe;
  invalid_subscriptions =
      if is_new w b then b.invalid_subscriptions else without_element w b.invalid_subscriptions;
}

abbrev pub with_pending : ℕ → Bool → Backend → Backend
with_pending w was_invalid b = record b { pending = (w, was_invalid) ∷ b.pending }

-- `watch` up to the first unlock: whether the watcher is cancelled and whether `subscribe` returns.
unfoldable pub begin_watch : Bool → Bool → ℕ → Backend → Backend
unfolding undo_watch
begin_watch cancelled subscribes w b =
    let was_invalid = was_invalid_at w b in
    let waiting = with_pending w was_invalid (cleared w b) in
    if is_pending w b || cancelled
    then b
    else if not (is_new w b) && not was_invalid
    then cleared w b
    else if subscribes
    then waiting
    else undo_watch w was_invalid waiting

-- The rest of `watch`, by whether `finishSubscribe` returns.
unfoldable pub finish_watch : Bool → ℕ → Backend → Backend
unfolding undo_watch
finish_watch returns w b = elim (find ℕ_discrete w b.pending) [
  | none ↦ b
  | some was_invalid ↦
      if returns
      then record b {
        pending = erase ℕ_discrete w b.pending;
        subscriptions = insert w b.subscriptions;
      }
      else undo_watch w was_invalid b
]

-- `unwatch` up to its `unref`, by whether the watcher has callbacks and whether `unsubscribe` returns.
unfoldable pub unwatch : Bool → Bool → Bool → ℕ → Backend → Backend
unfolding insert
unwatch force has_callbacks unsubscribes w b =
    if is_pending w b || (not force && has_callbacks)
    then b
    else (let rest : Backend = record b {
      subscriptions = without_element w b.subscriptions;
      invalid_subscriptions = without_element w b.invalid_subscriptions;
    } in
        if not (member w b.subscriptions)
        then rest
        else if unsubscribes
        then owe rest
        else record rest {
          subscriptions = insert w rest.subscriptions;
          invalid_subscriptions =
              if member w b.invalid_subscriptions
              then insert w rest.invalid_subscriptions
              else rest.invalid_subscriptions;
        })

unfoldable pub invalidate_watcher : ℕ → Backend → Backend
unfolding insert
invalidate_watcher w b = record b {
  invalid_subscriptions =
      if member w b.subscriptions
      then insert w b.invalid_subscriptions
      else b.invalid_subscriptions;
}

-- The reservation of `getShared`, and `releaseShared` up to its `unref`.
unfoldable pub reserve_shared : Backend → Backend
reserve_shared b = record b { shared_reservations = (b.shared_reservations + 1) % 2 ^ 64 }

unfoldable pub release_shared : Backend → Backend
release_shared b =
    let released : Backend = record b {
      shared_reservations = (b.shared_reservations + 2 ^ 64 - 1) % 2 ^ 64;
    } in
    if b.shared_reservations == 1 then owe released else released

pub data BackendStep : Type 0 where
  begins : Bool → Bool → ℕ → BackendStep
  finishes : Bool → ℕ → BackendStep
  unwatches : Bool → Bool → Bool → ℕ → BackendStep
  invalidates : ℕ → BackendStep
  reserves releases unrefs : BackendStep

abbrev pub run_step : BackendStep → Backend → Backend
run_step (begins cancelled subscribes w) b = begin_watch cancelled subscribes w b
run_step (finishes returns w) b = finish_watch returns w b
run_step (unwatches force has_callbacks unsubscribes w) b =
    unwatch force has_callbacks unsubscribes w b
run_step (invalidates w) b = invalidate_watcher w b
run_step reserves b = reserve_shared b
run_step releases b = release_shared b
run_step unrefs b = unref b

unfoldable pub run_steps : List BackendStep → Backend → Backend
run_steps [] b = b
run_steps (step ∷ steps) b = run_steps steps (run_step step b)

-- What `getShared` returns when it has started a new backend.
abbrev pub new_backend : Backend
new_backend = record {
  subscriptions = [];
  invalid_subscriptions = [];
  pending = [];
  needs_resubscribe = [];
  shared_reservations = 1;
  owed = 0;
  stopped = false;
}
