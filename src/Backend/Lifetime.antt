-- ===== src/Backend/Lifetime.antt =====
-- src/Backend.cc: a backend stops when nothing uses it, and not before.
use mathlib.Core.Logic.{ite}
use native_watcher.Base.{
  ℕ, ◌≡◌, refl, Bool, true, false, not, ◌&&◌, ◌||◌, arith, Option-cases, inl, inr, if-holds, find,
  erase, ℕ_discrete, ◌==◌, ◌+◌, ◌<◌, ◌^◌, ◌≤◌, ltb, length, All, List, [], ◌∷◌, some, has_value,
}
use native_watcher.Inotify.Sets.{member, without_element, member-without_element}
use native_watcher.Inotify.Session.{insert}
use native_watcher.Backend.{
  Backend, is_idle, unref, undo_watch, begin_watch, finish_watch, unwatch, invalidate_watcher,
  reserve_shared, release_shared, BackendStep, begins, finishes, unwatches, invalidates, reserves,
  releases, unrefs, run_step, run_steps, new_backend, is_pending, is_new, was_invalid_at, cleared,
  with_pending, no_element,
}

-- Whether a watcher is subscribed or about to be, or a caller has reserved the backend.
abbrev pub is_used : Backend → Bool
is_used b = ltb 0 (length b.subscriptions + length b.pending + b.shared_reservations)

-- What the callers see to: only who has a reservation watches, a reservation is of a backend that is
-- still registered, as one is until it stops, there are fewer of them than `size_t` can count, and
-- each is released once.
abbrev pub Proper : BackendStep → Backend → Type 0
Proper (begins cancelled subscribes w) b = 0 < b.shared_reservations
Proper (finishes returns w) b = Unit
Proper (unwatches force has_callbacks unsubscribes w) b = Unit
Proper (invalidates w) b = Unit
Proper reserves b = (b.stopped ≡ false) × (b.shared_reservations + 1 < 2 ^ 64)
Proper releases b = (0 < b.shared_reservations) × (b.shared_reservations < 2 ^ 64)
Proper unrefs b = Unit

abbrev pub Properly : List BackendStep → Backend → Type 0
Properly [] b = Unit
Properly (step ∷ steps) b = Proper step b × Properly steps (run_step step b)

-- A watcher that is pending after it was invalid is still subscribed.
abbrev Subscribed : List ℕ → List (ℕ × Bool) → Type 0
Subscribed subs pending = All (λ (e : ℕ × Bool). (not e.1 || member e.0 subs) ≡ true) pending

record Lives (b : Backend) : Type 0 where
  pub subscribed : Subscribed b.subscriptions b.pending
  pub unused : (b.stopped && is_used b) ≡ false
  pub kept : (b.stopped || is_used b || ltb 0 b.owed) ≡ true

used_parts :
    (subs : List ℕ) (pending : List (ℕ × Bool)) (n : ℕ)
    → (no_element subs && no_element pending && n == 0)
      ≡ not (ltb 0 (length subs + length pending + n))
used_parts [] [] n = ground arith
used_parts [] (x ∷ pending) n = ground arith
used_parts (x ∷ subs) pending n = ground arith

used_lem : (b : Backend) → is_idle b ≡ not (is_used b)
used_lem b = used_parts b.subscriptions b.pending b.shared_reservations

member_used : (w : ℕ) (subs : List ℕ) → member w subs ≡ true → 0 < length subs
unfolding member
member_used w [] h = absurd (ground (arith, h))
member_used w (v ∷ subs) h = omega arith

member-insert-same : (w : ℕ) (subs : List ℕ) → member w (insert w subs) ≡ true
unfolding member insert
member-insert-same w subs = ground arith

member-insert-other :
    (v w : ℕ) (subs : List ℕ) → member v subs ≡ true → member v (insert w subs) ≡ true
unfolding member insert
member-insert-other v w subs h = ground (arith, h)

Subscribed-insert :
    (w : ℕ) (subs : List ℕ) (pending : List (ℕ × Bool))
    → Subscribed subs pending
    → Subscribed (insert w subs) pending
Subscribed-insert w subs [] h = tt
Subscribed-insert w subs ((v, i) ∷ pending) h =
    (ground (arith, h.0, member-insert-other v w subs), Subscribed-insert w subs pending h.1)

ite-Subscribed :
    {A : Type 0} (d : Dec A) (subs : List ℕ) (x y : List (ℕ × Bool))
    → Subscribed subs x
    → Subscribed subs y
    → Subscribed subs (ite d x y)
ite-Subscribed (yes a) subs x y h k = h
ite-Subscribed (no n) subs x y h k = k

Subscribed-erase :
    (w : ℕ) (subs : List ℕ) (pending : List (ℕ × Bool))
    → Subscribed subs pending
    → Subscribed subs (erase ℕ_discrete w pending)
unfolding erase
Subscribed-erase w subs [] h = tt
Subscribed-erase w subs ((v, i) ∷ pending) h =
    let ih = Subscribed-erase w subs pending h.1 in
    ite-Subscribed (ℕ_discrete v w) subs _ _ ih (h.0, ih)

Subscribed-find :
    (w : ℕ) (subs : List ℕ) (pending : List (ℕ × Bool)) (i : Bool)
    → Subscribed subs pending
    → find ℕ_discrete w pending ≡ some i
    → (not i || member w subs) ≡ true
unfolding find
Subscribed-find w subs [] i h f = cc
Subscribed-find w subs ((v, j) ∷ pending) i h f =
    ground (arith, Subscribed-find w subs pending i h.1, h.0, f)

Subscribed-without :
    (w : ℕ) (subs : List ℕ) (pending : List (ℕ × Bool))
    → Subscribed subs pending
    → has_value (find ℕ_discrete w pending) ≡ false
    → Subscribed (without_element w subs) pending
unfolding find
Subscribed-without w subs [] h f = tt
Subscribed-without w subs ((v, i) ∷ pending) h f = (
  ground (arith, h.0, member-without_element v w subs, f),
  Subscribed-without w subs pending h.1 (ground (arith, f)),
)

length-without_element : (w : ℕ) (subs : List ℕ) → length (without_element w subs) ≤ length subs
unfolding without_element
length-without_element w [] = omega arith
length-without_element w (v ∷ subs) = ground (arith, length-without_element w subs)

length-without_absent :
    (w : ℕ) (subs : List ℕ) → member w subs ≡ false → length (without_element w subs) ≡ length subs
unfolding without_element member
length-without_absent w [] h = refl
length-without_absent w (v ∷ subs) h = ground (arith, length-without_absent w subs, h)

unref-Lives : (b : Backend) → Lives b → Lives (unref b)
unfolding unref
unref-Lives b h =
    if-holds Lives (b.owed == 0) (λ z. h)
      (λ o.
        if-holds Lives (is_idle b)
          (λ i. record {
            subscribed = h.subscribed;
            unused = ground (arith, used_lem b, i);
            kept = refl;
          })
          (λ n. record {
            subscribed = h.subscribed;
            unused = h.unused;
            kept = ground (arith, used_lem b, n);
          }))

undo_watch-Lives :
    (w : ℕ) (was_invalid : Bool) (b : Backend)
    → Subscribed b.subscriptions b.pending
    → (not was_invalid || member w b.subscriptions) ≡ true
    → b.stopped ≡ false
    → Lives (undo_watch w was_invalid b)
unfolding undo_watch
undo_watch-Lives w true b h m r = record {
  subscribed = Subscribed-erase w b.subscriptions b.pending h;
  unused = ground (arith, r);
  kept = ground (arith, member_used w b.subscriptions m);
}
undo_watch-Lives w false b h m r = record {
  subscribed = Subscribed-erase w b.subscriptions b.pending h;
  unused = ground (arith, r);
  kept = ground arith;
}

find_used :
    (w : ℕ) (pending : List (ℕ × Bool)) (i : Bool)
    → find ℕ_discrete w pending ≡ some i
    → 0 < length pending
unfolding find
find_used w [] i f = cc
find_used w (x ∷ pending) i f = omega arith

begin_watch-Lives :
    (cancelled subscribes : Bool) (w : ℕ) (b : Backend)
    → 0 < b.shared_reservations
    → Lives b
    → Lives (begin_watch cancelled subscribes w b)
unfolding begin_watch
begin_watch-Lives cancelled subscribes w b p h =
    let was_invalid = was_invalid_at w b in
    let waiting = with_pending w was_invalid (cleared w b) in
    let runs : b.stopped ≡ false = ground (arith, h.unused, p) in
    let still : (not was_invalid || member w b.subscriptions) ≡ true = ground arith in
    if-holds Lives (is_pending w b || cancelled) (λ y. h)
      (λ n.
        if-holds Lives (not (is_new w b) && not was_invalid)
          (λ y. record { subscribed = h.subscribed; unused = h.unused; kept = h.kept })
          (λ n.
            if-holds Lives subscribes
              (λ y. record {
                subscribed = (still, h.subscribed);
                unused = ground (arith, runs);
                kept = ground arith;
              })
              (λ n. undo_watch-Lives w was_invalid waiting (still, h.subscribed) still runs)))

finish_watch-Lives :
    (returns : Bool) (w : ℕ) (b : Backend) → Lives b → Lives (finish_watch returns w b)
unfolding finish_watch
finish_watch-Lives returns w b h = elim (Option-cases (find ℕ_discrete w b.pending)) [
  | inl n ↦ rw (finish_watch, n) h
  | inr (v, s) ↦
      let runs : b.stopped ≡ false = ground (arith, h.unused, find_used w b.pending v s) in
      rw (finish_watch, s)
        (if-holds Lives returns
          (λ y. record {
            subscribed =
                Subscribed-insert w b.subscriptions _
                  (Subscribed-erase w b.subscriptions b.pending h.subscribed);
            unused = ground (arith, runs);
            kept = ground (
              arith,
              member_used w (insert w b.subscriptions) (member-insert-same w b.subscriptions),
            );
          })
          (λ n.
            undo_watch-Lives w v b h.subscribed
              (Subscribed-find w b.subscriptions b.pending v h.subscribed s) runs))
]

unwatch-Lives :
    (force has_callbacks unsubscribes : Bool) (w : ℕ) (b : Backend)
    → Lives b
    → Lives (unwatch force has_callbacks unsubscribes w b)
unfolding unwatch
unwatch-Lives force has_callbacks unsubscribes w b h =
    let left = without_element w b.subscriptions in
    let shorter = length-without_element w b.subscriptions in
    if-holds Lives (is_pending w b || (not force && has_callbacks)) (λ y. h)
      (λ free.
        let rest : Subscribed left b.pending =
          Subscribed-without w b.subscriptions b.pending h.subscribed (ground (arith, free)) in
        if-holds Lives (not (member w b.subscriptions))
          (λ absent. record {
            subscribed = rest;
            unused = ground (arith, h.unused, shorter);
            kept = ground (arith, h.kept, length-without_absent w b.subscriptions, absent);
          })
          (λ there.
            let runs : b.stopped ≡ false =
              ground (arith, h.unused, member_used w b.subscriptions, there) in
            if-holds Lives unsubscribes
              (λ y. record {
                subscribed = rest;
                unused = ground (arith, runs);
                kept = ground arith;
              })
              (λ n. record {
                subscribed = Subscribed-insert w left b.pending rest;
                unused = ground (arith, runs);
                kept = ground (arith, member_used w (insert w left) (member-insert-same w left));
              })))

reserve_shared-Lives :
    (b : Backend)
    → b.stopped ≡ false
    → b.shared_reservations + 1 < 2 ^ 64
    → Lives b
    → Lives (reserve_shared b)
unfolding reserve_shared
reserve_shared-Lives b r few h = record {
  subscribed = h.subscribed;
  unused = ground (arith, r);
  kept = ground arith;
}

release_shared-Lives :
    (b : Backend)
    → 0 < b.shared_reservations
    → b.shared_reservations < 2 ^ 64
    → Lives b
    → Lives (release_shared b)
unfolding release_shared
release_shared-Lives b held few h =
    let runs : b.stopped ≡ false = ground (arith, h.unused) in
    if-holds Lives (b.shared_reservations == 1)
      (λ y. record {
        subscribed = h.subscribed;
        unused = ground (arith, runs);
        kept = ground arith;
      })
      (λ n. record {
        subscribed = h.subscribed;
        unused = ground (arith, runs);
        kept = ground arith;
      })

run_step-Lives :
    (step : BackendStep) (b : Backend) → Proper step b → Lives b → Lives (run_step step b)
unfolding invalidate_watcher
run_step-Lives (begins cancelled subscribes w) b p h =
    begin_watch-Lives cancelled subscribes w b p h
run_step-Lives (finishes returns w) b p h = finish_watch-Lives returns w b h
run_step-Lives (unwatches force has_callbacks unsubscribes w) b p h =
    unwatch-Lives force has_callbacks unsubscribes w b h
run_step-Lives (invalidates w) b p h = record {
  subscribed = h.subscribed;
  unused = h.unused;
  kept = h.kept;
}
run_step-Lives reserves b p h = reserve_shared-Lives b p.0 p.1 h
run_step-Lives releases b p h = release_shared-Lives b p.0 p.1 h
run_step-Lives unrefs b p h = unref-Lives b h

run_steps-Lives :
    (steps : List BackendStep) (b : Backend)
    → Properly steps b
    → Lives b
    → Lives (run_steps steps b)
unfolding run_steps
run_steps-Lives [] b p h = h
run_steps-Lives (step ∷ steps) b p h =
    run_steps-Lives steps (run_step step b) p.1 (run_step-Lives step b p.0 h)

-- From a new backend on, in whatever order the parts of `watch`, `unwatch`, `releaseShared` and
-- `unref` of any calls run, if callers watch only with a reservation, reserve only what has not
-- stopped, less than 2 ^ 64 times at once, and release only what they reserved: a backend that has
-- stopped has no subscription, no pending one and no reservation, and one that has none of them has
-- stopped or a call is about to do it in `unref`.
pub run_steps_lem :
    (steps : List BackendStep)
    → Properly steps new_backend
    → (((run_steps steps new_backend).stopped && is_used (run_steps steps new_backend)) ≡ false)
      × (((run_steps steps new_backend).stopped
            || is_used (run_steps steps new_backend)
            || ltb 0 (run_steps steps new_backend).owed)
          ≡ true)
run_steps_lem steps p =
    let start : Lives new_backend = record { subscribed = tt; unused = refl; kept = refl } in
    let h = run_steps-Lives steps new_backend p start in (h.unused, h.kept)
