-- ===== src/Debounce/Trigger.antt =====
-- src/Debounce.cc: no trigger is lost between the thread's waits.
use native_watcher.Base.{
  ℕ, ◌+◌, ◌≡◌, refl, subst, Bool, true, false, not, ◌||◌, Option, none, some, List, [], ◌∷◌, ltb,
  leb, arith, if◌then◌else◌, ◌≤◌, Bool-cases, map, zero, suc, inl, inr, append-nil, ap, ◌∙◌,
}
use native_watcher.Debounce.{
  Debounce, Place, looping, waiting, woken, early, batching, due, returned, DebounceMove, adds,
  removes, triggers, destroys, advances, make_move, go, notify, notify_if_ready, wait_for,
  run_moves, milliseconds, min_wait_time, max_wait_time,
}

-- Whether the thread will look at the time before it sleeps, or was told to end.
abbrev held_at : Place → Bool → Bool → Bool
held_at looping running flag = flag || not running
held_at waiting running flag = flag
held_at woken running flag = true
held_at early running flag = true
held_at (batching deadline) running flag = true
held_at due running flag = true
held_at returned running flag = true

abbrev pub is_held : Debounce → Bool
is_held d = held_at d.place d.running d.flag

abbrev pub is_due : Place → Bool
is_due due = true
is_due looping = false
is_due waiting = false
is_due woken = false
is_due early = false
is_due (batching deadline) = false
is_due returned = false

abbrev pub is_notify : DebounceMove → Debounce → Bool
is_notify (advances now) d = is_due d.place
is_notify (adds k cb) d = false
is_notify (removes k) d = false
is_notify triggers d = false
is_notify destroys d = false

-- Moves of which none is the thread's `notify`.
pub data Quiet : Debounce → Debounce → Type 0 where
  still : {d : Debounce} → Quiet d d
  next :
      {d e f : Debounce}
      → (m : DebounceMove) (calls : List ℕ) → is_notify m d ≡ false
      → make_move m d ≡ some (e, calls)
      → Quiet e f
      → Quiet d f

abbrev Holds : Option (Debounce × List ℕ) → Type 0
Holds none = Unit
Holds (some (d, calls)) = is_held d ≡ true

if-Holds :
    (b : Bool) (x y : Option (Debounce × List ℕ)) → Holds x → Holds y → Holds (if b then x else y)
if-Holds true x y h k = h
if-Holds false x y h k = k

if-held :
    (b : Bool) (x y : Debounce)
    → is_held x ≡ true
    → is_held y ≡ true
    → is_held (if b then x else y) ≡ true
if-held true x y h k = h
if-held false x y h k = k

go-Holds :
    (p : Place) (now : ℕ) (r fl : Bool) (cbs : List (ℕ × ℕ)) (t : ℕ)
    → let d : Debounce = record {
      running = r;
      flag = fl;
      callbacks = cbs;
      last_time = t;
      place = p;
    } in
      is_held d ≡ true → is_due p ≡ false → Holds (go p now d)
unfolding go notify_if_ready wait_for
go-Holds looping now true true cbs t h q = refl
go-Holds looping now true false cbs t h q = h
go-Holds looping now false fl cbs t h q = refl
go-Holds waiting now true true cbs t h q = refl
go-Holds waiting now false true cbs t h q = refl
go-Holds waiting now true false cbs t h q = tt
go-Holds waiting now false false cbs t h q = tt
go-Holds woken now true fl cbs t h q =
    if-held (ltb (t + milliseconds max_wait_time) now) _ _ refl refl
go-Holds woken now false true cbs t h q = refl
go-Holds woken now false false cbs t h q = refl
go-Holds early now r fl cbs t h q = refl
go-Holds (batching u) now r true cbs t h q = refl
go-Holds (batching u) now true false cbs t h q = if-Holds (leb u now) _ _ refl tt
go-Holds (batching u) now false false cbs t h q = if-Holds (leb u now) _ _ refl tt
go-Holds due now r fl cbs t h q = absurd (ground arith)
go-Holds returned now r fl cbs t h q = tt

flag-held : (p : Place) (r : Bool) → held_at p r true ≡ true
flag-held looping r = refl
flag-held waiting r = refl
flag-held woken r = refl
flag-held early r = refl
flag-held (batching u) r = refl
flag-held due r = refl
flag-held returned r = refl

move-Holds :
    (m : DebounceMove) (d : Debounce)
    → is_held d ≡ true
    → is_notify m d ≡ false
    → Holds (make_move m d)
unfolding make_move
move-Holds (adds k cb) d h q = h
move-Holds (removes k) d h q = h
move-Holds triggers d h q = flag-held d.place d.running
move-Holds destroys d h q = flag-held d.place false
move-Holds (advances now) d h q = go-Holds d.place now d.running d.flag d.callbacks d.last_time h q

Quiet-held : {d e : Debounce} → Quiet d e → is_held d ≡ true → is_held e ≡ true
Quiet-held still h = h
Quiet-held (next {d} m calls q s rest) h = Quiet-held rest (subst Holds s (move-Holds m d h q))

-- After a trigger and until the thread calls the callbacks, whatever moves are made, it does not
-- wait for the signal with the flag unset, and is not about to.
pub trigger_held :
    (d : Debounce) {e f : Debounce} {calls : List ℕ}
    → make_move triggers d ≡ some (e, calls)
    → Quiet e f
    → is_held f ≡ true
unfolding make_move
trigger_held d s q = Quiet-held q (subst Holds s (flag-held d.place d.running))

leb-true : (m n : ℕ) → m ≤ n → leb m n ≡ true
leb-true m n h = ground arith

-- The moves of the thread alone, with the times that it reads.
abbrev pub ticks : (ℕ → ℕ) → ℕ → ℕ → List DebounceMove
ticks clock i zero = []
ticks clock i (suc n) = advances (clock i) ∷ ticks clock (suc i) n

-- After that many moves of the thread, each callback has been called once, in their order.
abbrev pub Calls : (ℕ → ℕ) → ℕ → ℕ → Debounce → Type 0
Calls clock i n d =
    (e : Debounce) × (run_moves (ticks clock i n) d
      ≡ some (e, map (λ (x : ℕ × ℕ). x.1) d.callbacks))

-- Within so many moves.
abbrev pub Soon : (ℕ → ℕ) → ℕ → ℕ → Debounce → Type 0
Soon clock i most d = (n : ℕ) × (n ≤ most) × Calls clock i n d

abbrev at : Place → Bool → List (ℕ × ℕ) → ℕ → Debounce
at p fl cbs t = record { running = true; flag = fl; callbacks = cbs; last_time = t; place = p }

first_move :
    (m : DebounceMove) (ms : List DebounceMove) (d e f : Debounce) (calls : List ℕ)
    → make_move m d ≡ some (e, [])
    → run_moves ms e ≡ some (f, calls)
    → run_moves (m ∷ ms) d ≡ some (f, calls)
unfolding run_moves
first_move m ms d e f calls h k = rw (run_moves, h, k) refl

module _ (clock : ℕ → ℕ) (cbs : List (ℕ × ℕ)) where
  then-Calls :
      (i n : ℕ) (d e : Debounce)
      → make_move (advances (clock i)) d ≡ some (e, [])
      → e.callbacks ≡ d.callbacks
      → Calls clock (suc i) n e
      → Calls clock i (suc n) d
  then-Calls i n d e h same (f, k) =
      (f, first_move _ _ d e f _ h (k ∙ ap (λ x. some (f, map (λ (y : ℕ × ℕ). y.1) x)) same))

  due-Calls : (i : ℕ) (fl : Bool) (t : ℕ) → Calls clock i 1 (at due fl cbs t)
  unfolding run_moves make_move go notify
  due-Calls i fl t =
      let e = at looping false cbs (clock i) in
      (e, ap (λ (cs : List ℕ). some (e, cs)) (append-nil (map (λ (x : ℕ × ℕ). x.1) cbs)))

  module _ (passes : (i : ℕ) → (clock i + milliseconds min_wait_time) ≤ clock (suc i)) where
    batching-Calls :
        (i t : ℕ)
        → Calls clock (suc i) 2 (at (batching (clock i + milliseconds min_wait_time)) false cbs t)
    unfolding make_move go wait_for
    batching-Calls i t =
        then-Calls (suc i) 1 _ (at due false cbs t) (rw (leb-true _ _ (passes i)) refl) refl
          (due-Calls (suc (suc i)) false t)

    early-Calls : (i : ℕ) (fl : Bool) (t : ℕ) → Calls clock i 3 (at early fl cbs t)
    unfolding make_move go
    early-Calls i fl t = then-Calls i 2 _ _ refl refl (batching-Calls i t)

    woken-Soon : (i : ℕ) (fl : Bool) (t : ℕ) → Soon clock i 4 (at woken fl cbs t)
    unfolding make_move go notify_if_ready
    woken-Soon i fl t = elim (Bool-cases (ltb (t + milliseconds max_wait_time) (clock i))) [
      | inl y ↦ (
        2,
        omega arith,
        then-Calls i 1 _ (at due fl cbs (clock i)) (rw (y) refl) refl
            (due-Calls (suc i) fl (clock i)),
      )
      | inr n ↦ (
        4,
        omega arith,
        then-Calls i 3 _ (at early fl cbs t) (rw (n) refl) refl (early-Calls (suc i) fl t),
      )
    ]

    then-Soon :
        (i most : ℕ) (d e : Debounce)
        → make_move (advances (clock i)) d ≡ some (e, [])
        → e.callbacks ≡ d.callbacks
        → Soon clock (suc i) most e
        → Soon clock i (suc most) d
    then-Soon i most d e h same (n, less, calls) =
        (suc n, omega arith, then-Calls i n d e h same calls)

    longer :
        (i : ℕ) {most more : ℕ} (d : Debounce)
        → most ≤ more
        → Soon clock i most d
        → Soon clock i more d
    longer i d h (n, less, calls) = (n, omega arith, calls)

    waiting-Soon : (i t : ℕ) → Soon clock i 5 (at waiting true cbs t)
    unfolding make_move go
    waiting-Soon i t = then-Soon i 4 _ _ refl refl (woken-Soon (suc i) true t)

    looping-Soon : (i t : ℕ) → Soon clock i 6 (at looping true cbs t)
    unfolding make_move go
    looping-Soon i t = then-Soon i 5 _ _ refl refl (waiting-Soon (suc i) t)

    flag-Soon : (p : Place) (i t : ℕ) → ¬ (p ≡ returned) → Soon clock i 7 (at p true cbs t)
    unfolding make_move go wait_for
    flag-Soon looping i t h = longer i _ (omega arith) (looping-Soon i t)
    flag-Soon waiting i t h = longer i _ (omega arith) (waiting-Soon i t)
    flag-Soon woken i t h = longer i _ (omega arith) (woken-Soon i true t)
    flag-Soon early i t h = (3, omega arith, early-Calls i true t)
    flag-Soon (batching u) i t h = then-Soon i 6 _ _ refl refl (looping-Soon (suc i) t)
    flag-Soon due i t h = (1, omega arith, due-Calls i true t)
    flag-Soon returned i t h = absurd (h refl)

-- After a trigger, wherever the running thread is, it calls each callback once, in their order, within
-- seven moves of its own, if each of the times that it reads is the minimum wait or more after the one
-- before.
pub trigger_called :
    (clock : ℕ → ℕ) (d : Debounce)
    → ((i : ℕ) → (clock i + milliseconds 50) ≤ clock (suc i))
    → d.running ≡ true
    → ¬ (d.place ≡ returned)
    → (n : ℕ) × (n ≤ 7)
      × (e : Debounce) × (run_moves (triggers ∷ ticks clock 0 n) d
          ≡ some (e, map (λ (x : ℕ × ℕ). x.1) d.callbacks))
unfolding make_move
trigger_called clock d passes run here =
    let (n, less, (e, calls)) = flag-Soon clock d.callbacks passes d.place 0 d.last_time here in
    (
      n,
      less,
      e,
      first_move triggers _ d _ e _ (ap (λ r. some (record d { running = r; flag = true }, [])) run)
          calls,
    )
