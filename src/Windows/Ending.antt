-- ===== src/Windows/Ending.antt =====
-- src/windows/WindowsBackend.cc: every completion of a poll is handled to its end, and a subscription
-- stops when nothing can call it any more.
use native_watcher.Base.{
  ℕ, ◌+◌, ◌≤◌, ◌≡◌, refl, Bool, true, false, not, ◌&&◌, ◌||◌, Option, none, some, List, [], ◌∷◌,
  ◌++◌, arith, take, zero, suc, ◌*◌, ◌⊎◌, inl, inr, sym, Bytes, ◌==◌, ltb, if-holds, length, slash,
  subst, All, bytes_eq,
}
use native_watcher.DirTree.{DirEntry}
use native_watcher.Inotify.Arrive.{is_empty}
use native_watcher.Watcher.Ignore.{split_leaf}
use native_watcher.Windows.{
  Attributes, WindowsFiles, Watched, Action, added, removed, modified, renamed_old_name,
  renamed_new_name, other,
}
use native_watcher.Windows.Events.{
  end_rename, rename_to, recover_spelling, on_disk, handle_action, process_event, add_path,
  then_no_pending,
}
use native_watcher.Windows.Scan.{Weighs, loop_ends}
use native_watcher.Windows.Buffer.{
  Batch, ends, overflows, faults, exhausted, notifies, is_sound, parse_loop, parse_loop_sound,
}
use native_watcher.Windows.Subscription.{
  Subscription, new_subscription, network_buf_size, PollAnswer, Thrown, poll, ErrorCode,
  bad_parameter, started, failed, is_bad_parameter, poll_end, success, aborted, invalid_parameter,
  enum_dir, access_denied, unknown, Completed, done, Ran, ran, run_batch, start_batch, after_batch,
  read_changes, by_code, process_events,
}
use native_watcher.Windows.Steps.{
  SubscriptionStep, runs, completes, requests, queues, applies, state_after, subscription_step,
  subscription_run,
}
use native_watcher.Windows.Stopping.{IsSettled, Leaves, subscription_run-Leaves}

abbrev Total : Option Watched → Type 0
Total o = (w : Watched) × (o ≡ some w)

abbrev EndsRun : Ran → Type 0
EndsRun r = (w : Watched) × (o : Bool) × (r ≡ ran w o)

length-take :
    (num size : ℕ) (xs : Bytes) → num ≤ length xs → num ≤ size → num ≤ length (take size xs)
length-take num zero xs h k = omega arith
length-take num (suc size) [] h k = h
length-take zero (suc size) (x ∷ xs) h k = omega arith
length-take (suc num) (suc size) (x ∷ xs) h k =
    let ih = length-take num size xs (omega arith) (omega arith) in omega (arith, ih)

-- The reported bytes fit into the small buffer, or no poll turns to it.
abbrev Holds : (ℕ → PollAnswer) → ℕ → Type 0
Holds answer num = (num ≤ 64 * 1024) ⊎ ((size : ℕ) → ¬ (answer size ≡ bad_parameter))

bad_parameter-is : (a : PollAnswer) → is_bad_parameter a ≡ true → a ≡ bad_parameter
bad_parameter-is bad_parameter h = refl
bad_parameter-is started h = cc
bad_parameter-is failed h = cc

poll_end-size : (a : PollAnswer) (s : Subscription) → (poll_end a s).0.buffer_size ≡ s.buffer_size
poll_end-size started s = refl
poll_end-size bad_parameter s = refl
poll_end-size failed s = refl

-- After a poll the reported bytes are still in the buffer.
poll-Holds :
    (answer : ℕ → PollAnswer) (num : ℕ) (s : Subscription)
    → num ≤ s.buffer_size
    → Holds answer num
    → num ≤ (poll answer s).0.buffer_size
unfolding poll
poll-Holds answer num s h k =
    let shrunk : Subscription = record s { buffer_size = network_buf_size } in
    if-holds (λ (r : Thrown). num ≤ r.0.buffer_size) (not s.running) (λ y. h)
      (λ run.
        if-holds (λ (r : Thrown). num ≤ r.0.buffer_size)
          (is_bad_parameter (answer s.buffer_size) && ltb network_buf_size s.buffer_size)
          (λ y. elim k [
            | inl small ↦
                subst (λ n. num ≤ n) (sym (poll_end-size (answer network_buf_size) shrunk)) small
            | inr never ↦ absurd (never s.buffer_size (bad_parameter-is _ (ground (arith, y))))
          ])
          (λ n. subst (λ m. num ≤ m) (sym (poll_end-size (answer s.buffer_size) s)) h))

-- A completion leaves a state.
abbrev pub Handled : Completed → Type 0
Handled c = (r : Thrown) × (c ≡ done r)

module _ (files : WindowsFiles) (weight : Bytes → ℕ) (weighs : Weighs files weight) (fuel : ℕ)
    (enough : (path : Bytes) → weight path ≤ fuel) where
  add_path-Total : (path : Bytes) (s : Watched) → Total (add_path files fuel path s)
  add_path-Total path s =
      loop_ends files weight weighs fuel (path ∷ []) s (omega (arith, enough path))

  then-Total : (o : Option Watched) → Total o → Total (then_no_pending files fuel o)
  then-Total none (w, e) = cc
  then-Total (some w) h = (_, refl)

  end_rename-Total :
      (path : Bytes) (a : Option Attributes) (entries : List DirEntry) (s : Watched)
      → Total (end_rename files fuel path a entries s)
  unfolding end_rename
  end_rename-Total path none entries s = (_, refl)
  end_rename-Total path (some a) entries s =
      if-holds Total a.is_special (λ y. (_, refl))
        (λ n.
          if-holds Total (a.is_directory && (is_empty entries || files.has_ignores))
            (λ y. then-Total _ (add_path-Total path _)) (λ n. (_, refl)))

  rename_to-Total :
      (old : Option Bytes) (path : Bytes) (a : Option Attributes) (s : Watched)
      → Total (rename_to files fuel old path a s)
  unfolding rename_to
  rename_to-Total none path none s = (_, refl)
  rename_to-Total none path (some a) s =
      if-holds Total a.is_special (λ y. (_, refl)) (λ n. add_path-Total path s)
  rename_to-Total (some old) path a s = end_rename-Total path a _ _

  recover_spelling-Total :
      (path : Bytes) (name : Option Bytes) (s : Watched)
      → Total (recover_spelling files fuel path name s)
  unfolding recover_spelling
  recover_spelling-Total path none s = (_, refl)
  recover_spelling-Total path (some name) s =
      if-holds Total
        (not (bytes_eq name (split_leaf path).1) && files.same_folded (split_leaf path).1 name)
        (λ y. add_path-Total (on_disk files fuel (split_leaf path) name) s) (λ n. (s, refl))

  handle_action-Total :
      (action : Action) (path : Bytes) (s : Watched)
      → Total (handle_action files fuel action path s)
  unfolding handle_action
  handle_action-Total added path s = add_path-Total path _
  handle_action-Total removed path s = recover_spelling-Total path _ _
  handle_action-Total modified path s = (_, refl)
  handle_action-Total renamed_old_name path s = (_, refl)
  handle_action-Total renamed_new_name path s = rename_to-Total s.pending_rename_path path _ s
  handle_action-Total other path s = (_, refl)

  process_event-Total :
      (action : Action) (path : Bytes) (s : Watched)
      → Total (process_event files fuel action path s)
  unfolding process_event
  process_event-Total action path s =
      if-holds Total (files.is_ignored path) (λ y. (_, refl))
        (λ n. handle_action-Total action path s)

  module _ (dir : Bytes) (utf8 : Bytes → Bytes) where
    run_batch-EndsRun :
        (b : Batch) (w : Watched) → is_sound b ≡ true → EndsRun (run_batch files fuel dir utf8 b w)
    unfolding run_batch is_sound
    run_batch-EndsRun ends w h = (w, false, refl)
    run_batch-EndsRun overflows w h = (w, true, refl)
    run_batch-EndsRun faults w h = cc
    run_batch-EndsRun exhausted w h = cc
    run_batch-EndsRun (notifies action name rest) w h =
        let (w', e) = process_event-Total action (dir ++ slash ∷ utf8 name) w in
        rw (run_batch, e) (run_batch-EndsRun rest w' h)

    after_batch-Handled :
        (s : Subscription) (r : Ran) → EndsRun r → Handled (after_batch files fuel dir utf8 s r)
    after_batch-Handled s Ran.bad_read (w, o, e) = cc
    after_batch-Handled s Ran.no_fuel (w, o, e) = cc
    after_batch-Handled s (ran w true) h = (_, refl)
    after_batch-Handled s (ran w false) h = (_, refl)

    read_changes-Handled :
        (content : Bytes) (num : ℕ) (r : Thrown)
        → num ≤ length content
        → num ≤ r.0.buffer_size
        → Handled (read_changes files fuel dir utf8 content num r)
    read_changes-Handled content num (s, some what) h k = (_, refl)
    read_changes-Handled content num (s, none) h k =
        let buffer = take s.buffer_size content in
        after_batch-Handled s _ (
          run_batch-EndsRun (parse_loop buffer num (num + 1) 0)
            (start_batch files fuel dir utf8 s.watched)
            (parse_loop_sound buffer num (length-take num s.buffer_size content h k) (num + 1) 0
              (omega arith) (omega arith)))

    by_code-Handled :
        (answer : ℕ → PollAnswer) (there : Bool) (code : ErrorCode) (buffer : Bytes) (num : ℕ)
        (s : Subscription)
        → num ≤ length buffer
        → Holds answer num
        → Handled (by_code files fuel dir utf8 answer there code buffer num s)
    by_code-Handled answer there aborted buffer num s h k = (_, refl)
    by_code-Handled answer there invalid_parameter buffer num s h k =
        if-holds Handled (not (ltb network_buf_size s.buffer_size)) (λ y. (_, refl))
          (λ n. (_, refl))
    by_code-Handled answer there enum_dir buffer num s h k = (_, refl)
    by_code-Handled answer there access_denied buffer num s h k = (_, refl)
    by_code-Handled answer there unknown buffer num s h k = (_, refl)
    by_code-Handled answer there success buffer num s h k =
        if-holds Handled (num == 0 || ltb s.buffer_size num) (λ y. (_, refl))
          (λ n.
            read_changes-Handled buffer num (poll answer s) h
              (poll-Holds answer num s (ground (arith, n)) k))

    -- On a filesystem where every path weighs more than what is in it, and with fuel for the heaviest:
    -- whatever bytes the system writes, and however many of them it reports, a completion reads nothing
    -- outside the buffer and is handled to its end, if it reports at most 64 KiB or no poll answers that
    -- the buffer is too large.
    pub process_events_ends :
        (answer : ℕ → PollAnswer) (there : Bool) (code : ErrorCode) (buffer : Bytes) (num : ℕ)
        (s : Subscription)
        → num ≤ length buffer
        → (num ≤ 64 * 1024) ⊎ ((size : ℕ) → ¬ (answer size ≡ bad_parameter))
        → Handled (process_events files fuel dir utf8 answer there code buffer num s)
    unfolding process_events
    process_events_ends answer there code buffer num s h k =
        if-holds Handled (not s.running) (λ n. (_, refl))
          (λ r. by_code-Handled answer there code buffer num s h k)

    -- The system reports no more bytes than it wrote, and the next poll does not cut them off.
    abbrev pub Fits : SubscriptionStep → Type 0
    Fits (completes answer there code buffer num) =
        (num ≤ length buffer) × ((num ≤ 64 * 1024) ⊎ ((size : ℕ) → ¬ (answer size ≡ bad_parameter)))
    Fits (runs answer tree) = Unit
    Fits requests = Unit
    Fits (queues accepted) = Unit
    Fits applies = Unit

    abbrev Goes : Option Subscription → Type 0
    Goes o = (s : Subscription) × (o ≡ some s)

    state_after-Goes : (c : Completed) → Handled c → Goes (state_after c)
    state_after-Goes c (r, e) = (r.0, rw e refl)

    subscription_step-Goes :
        (step : SubscriptionStep) (s : Subscription)
        → Fits step
        → Goes (subscription_step files fuel dir utf8 step s)
    unfolding subscription_step
    subscription_step-Goes (runs answer tree) s f = (_, refl)
    subscription_step-Goes (completes answer there code buffer num) s f =
        if-holds Goes s.poll_pending
          (λ p. state_after-Goes _ (process_events_ends answer there code buffer num _ f.0 f.1))
          (λ n. (_, refl))
    subscription_step-Goes requests s f = (_, refl)
    subscription_step-Goes (queues accepted) s f = (_, refl)
    subscription_step-Goes applies s f =
        if-holds Goes (s.queued == 0) (λ y. (_, refl)) (λ n. (_, refl))

    subscription_run-Goes :
        (steps : List SubscriptionStep) (s : Subscription)
        → All Fits steps
        → Goes (subscription_run files fuel dir utf8 steps s)
    unfolding subscription_run
    subscription_run-Goes [] s f = (s, refl)
    subscription_run-Goes (step ∷ steps) s f =
        let (s', e) = subscription_step-Goes step s f.0 in
        rw (subscription_run, e) (subscription_run-Goes steps s' f.1)

    -- On a filesystem where every path weighs more than what is in it, with fuel for the heaviest,
    -- and where each completion reports bytes that the system wrote, at most 64 KiB or with no
    -- poll that answers that the buffer is too large: in whatever order a subscription is run,
    -- polls complete and stops are requested, queued and applied, it reaches a state, in which it
    -- has stopped exactly if it does not run and no poll is pending, its handle is open exactly
    -- until then, and if it stopped after an overflow it has told its watcher.
    pub subscription_run-IsSettled :
        (steps : List SubscriptionStep) (w : Watched)
        → All Fits steps
        → (s : Subscription) × (subscription_run files fuel dir utf8 steps (new_subscription w)
            ≡ some s)
          × IsSettled s
    subscription_run-IsSettled steps w f =
        let (s, e) = subscription_run-Goes steps (new_subscription w) f in
        (
          s,
          e,
          subst Leaves e (
              subscription_run-Leaves files fuel dir utf8 steps (new_subscription w)
                (record { stops = refl; closes = refl; tells = refl })),
        )
