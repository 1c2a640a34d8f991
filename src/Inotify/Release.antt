-- ===== src/Inotify/Release.antt =====
-- src/linux/InotifyBackend.cc: `unsubscribe` ends every subscription of one watcher and no other.
use native_watcher.Base.{
  ℕ, ◌+◌, ◌≡◌, refl, sym, ap, Bool, true, false, ◌||◌, ◌&&◌, not, keep, some, [], ◌∷◌, ◌++◌, ◌==◌,
  if◌then◌else◌, arith, Bool-cases, Option-cases, inl, inr, All, append-nil, append_assoc, subst,
}
use native_watcher.Inotify.{
  Subscription, Subscriptions, Kernel, Inotify, remove_watch, tracked, count, unsubscribe_loop,
  unsubscribe, bad_descriptor, not_watched, drop_moves, PendingMoves, PendingMove, MoveKey,
}
use native_watcher.Inotify.Sets.{member}
use native_watcher.Inotify.Covered.{remove_watch_open, member-remove_watch}

-- The subscriptions of the other watchers, and their pending moves.
abbrev pub others : ℕ → Subscriptions → Subscriptions
others watcher subs = keep (λ (e : ℕ × Subscription). not (e.1.watcher == watcher)) subs

abbrev pub moves_of_others : ℕ → PendingMoves → PendingMoves
moves_of_others watcher moves =
    keep (λ (e : MoveKey × PendingMove). not (e.1.watcher == watcher)) moves

-- The watches that are left of those at first, which may lack some that the kernel dropped: where a
-- subscription still needs them, or none did at first.
record Leaves (before needed : ℕ → Bool) (k : Kernel) (subs : Subscriptions) : Type 0 where
  watches : (d : ℕ) → member d k.watches ≡ (before d && (tracked d subs || not (needed d)))
  needs : (d : ℕ) → tracked d subs ≡ true → needed d ≡ true

count-append : (d : ℕ) (xs ys : Subscriptions) → count d (xs ++ ys) ≡ count d xs + count d ys
unfolding count
count-append d [] ys = omega arith
count-append d ((e, sub) ∷ xs) ys = ground (arith, count-append d xs ys)

tracked-append :
    (d : ℕ) (xs ys : Subscriptions) → tracked d (xs ++ ys) ≡ (tracked d xs || tracked d ys)
unfolding tracked
tracked-append d [] ys = refl
tracked-append d ((e, sub) ∷ xs) ys = ground (arith, tracked-append d xs ys)

tracked_of_count : (d : ℕ) (xs : Subscriptions) → count d xs ≡ 0 → tracked d xs ≡ false
unfolding tracked count
tracked_of_count d [] h = refl
tracked_of_count d ((e, sub) ∷ xs) h = ground (arith, tracked_of_count d xs)

count_of_tracked : (d : ℕ) (xs : Subscriptions) → tracked d xs ≡ false → count d xs ≡ 0
unfolding tracked count
count_of_tracked d [] h = refl
count_of_tracked d ((e, sub) ∷ xs) h = ground (arith, count_of_tracked d xs)

removed_error :
    (d : ℕ) (k : Kernel) → k.is_open ≡ true → ¬ ((remove_watch d k).1 ≡ some bad_descriptor)
unfolding remove_watch
removed_error d k o h = ground (arith, o)

-- What a run of the loop leaves: no error, the subscriptions of the others in their order, and the
-- watches that these need.
record Ended (before needed : ℕ → Bool) (wanted : Subscriptions) (r : Kernel × Subscriptions × Bool)
    : Type 0 where
  returns : r.2 ≡ true
  left : r.1 ≡ wanted
  stays_open : r.0.is_open ≡ true
  leaves : Leaves before needed r.0 wanted

module _ (before needed : ℕ → Bool) where
  without-Leaves :
      (d : ℕ) (sub : Subscription) (passed subs : Subscriptions) (k : Kernel)
      → k.is_open ≡ true
      → Leaves before needed k (passed ++ (d, sub) ∷ subs)
      → count d (passed ++ (d, sub) ∷ subs) ≡ 1
      → Leaves before needed (remove_watch d k).0 (passed ++ subs)
  unfolding tracked count
  without-Leaves d sub passed subs k o c h = record {
    watches = λ e. ground (
      arith,
      member-remove_watch e d k o,
      c.watches e,
      c.needs e,
      tracked-append e passed ((d, sub) ∷ subs),
      tracked-append e passed subs,
      count-append d passed ((d, sub) ∷ subs),
      tracked_of_count d passed,
      tracked_of_count d subs,
      (λ (q : d ≡ e). ap (λ x. tracked x passed) q),
      (λ (q : d ≡ e). ap (λ x. tracked x subs) q),
    );
    needs = λ e q. ground (
      arith,
      q,
      c.needs e,
      tracked-append e passed ((d, sub) ∷ subs),
      tracked-append e passed subs,
    );
  }

  shared-Leaves :
      (d : ℕ) (sub : Subscription) (passed subs : Subscriptions) (k : Kernel)
      → Leaves before needed k (passed ++ (d, sub) ∷ subs)
      → ¬ (count d (passed ++ (d, sub) ∷ subs) ≡ 1)
      → Leaves before needed k (passed ++ subs)
  unfolding tracked count
  shared-Leaves d sub passed subs k c h = record {
    watches = λ e. ground (
      arith,
      c.watches e,
      tracked-append e passed ((d, sub) ∷ subs),
      tracked-append e passed subs,
      count-append d passed ((d, sub) ∷ subs),
      count_of_tracked d passed,
      count_of_tracked d subs,
      (λ (q : d ≡ e). ap (λ x. tracked x passed) q),
      (λ (q : d ≡ e). ap (λ x. tracked x subs) q),
    );
    needs = λ e q. ground (
      arith,
      q,
      c.needs e,
      tracked-append e passed ((d, sub) ∷ subs),
      tracked-append e passed subs,
    );
  }

  unsubscribe_loop-Ended :
      (watcher : ℕ) (passed subs : Subscriptions) (k : Kernel)
      → k.is_open ≡ true
      → Leaves before needed k (passed ++ subs)
      → Ended before needed (passed ++ others watcher subs) (unsubscribe_loop watcher passed subs k)
  unfolding unsubscribe_loop keep
  unsubscribe_loop-Ended watcher passed [] k o c = record {
    returns = refl;
    left = sym (append-nil passed);
    stays_open = o;
    leaves = c;
  }
  unsubscribe_loop-Ended watcher passed ((d, sub) ∷ subs) k o c =
      elim (Bool-cases (sub.watcher == watcher)) [
        | inr n ↦
            let same : (passed ++ (d, sub) ∷ []) ++ subs ≡ passed ++ (d, sub) ∷ subs =
              append_assoc passed ((d, sub) ∷ []) subs in
            let ih =
              unsubscribe_loop-Ended watcher (passed ++ (d, sub) ∷ []) subs k o
                (subst (Leaves before needed k) (sym same) c) in
            rw (n, if◌then◌else◌)
              (subst
                (λ l.
                  Ended before needed l (unsubscribe_loop watcher (passed ++ (d, sub) ∷ []) subs k))
                (append_assoc passed ((d, sub) ∷ []) (others watcher subs)) ih)
        | inl n ↦ elim (Bool-cases (count d (passed ++ (d, sub) ∷ subs) == 1)) [
          | inr m ↦
              rw (n, m, if◌then◌else◌)
                (unsubscribe_loop-Ended watcher passed subs k o
                  (shared-Leaves d sub passed subs k c (λ q. ground arith)))
          | inl m ↦
              let ih =
                unsubscribe_loop-Ended watcher passed subs (remove_watch d k).0
                  (remove_watch_open d k o)
                  (without-Leaves d sub passed subs k o c (ground arith)) in
              rw (n, m, if◌then◌else◌)
                (elim (Option-cases (remove_watch d k).1) [
                  | inl e ↦ rw e ih
                  | inr (bad_descriptor, e) ↦ absurd (removed_error d k o e)
                  | inr (not_watched, e) ↦ rw e ih
                ])
        ]
      ]

pub drop_moves_none :
    (watcher : ℕ) (moves : PendingMoves)
    → All
        (λ (e : MoveKey × PendingMove). (e.1.watcher == watcher) ≡ false)
        (drop_moves watcher moves)
unfolding drop_moves
drop_moves_none watcher [] = tt
drop_moves_none watcher ((k, move) ∷ moves) = elim (Bool-cases (move.watcher == watcher)) [
  | inl w ↦ rw (drop_moves, w, if◌then◌else◌) (drop_moves_none watcher moves)
  | inr w ↦ rw (drop_moves, w, if◌then◌else◌) (w, drop_moves_none watcher moves)
]

drop_moves-keep :
    (watcher : ℕ) (moves : PendingMoves) → drop_moves watcher moves ≡ moves_of_others watcher moves
unfolding drop_moves keep
drop_moves-keep watcher [] = refl
drop_moves-keep watcher ((k, move) ∷ moves) = ground (arith, drop_moves-keep watcher moves)

-- With an open descriptor, `unsubscribe` returns, also where the kernel has dropped some of the watches.
-- It leaves exactly the subscriptions and the pending moves of the other watchers, in their order, and
-- of the watches that were there those that another watcher's subscription needs or none needed.
pub unsubscribe_ends :
    (watcher : ℕ) (s : Inotify)
    → s.kernel.is_open ≡ true
    → ((unsubscribe watcher s).1 ≡ true)
      × ((unsubscribe watcher s).0.subscriptions ≡ others watcher s.subscriptions)
      × ((unsubscribe watcher s).0.pending_moves ≡ moves_of_others watcher s.pending_moves)
      × ((d : ℕ)
          → member d (unsubscribe watcher s).0.kernel.watches ≡ (
              member d s.kernel.watches
              && (tracked d (others watcher s.subscriptions) || not (tracked d s.subscriptions))))
unfolding unsubscribe
unsubscribe_ends watcher s o =
    let watched = λ (d : ℕ). member d s.kernel.watches in
    let needed = λ (d : ℕ). tracked d s.subscriptions in
    let e =
      unsubscribe_loop-Ended watched needed watcher [] s.subscriptions s.kernel o
        (record { watches = λ d. ground arith; needs = λ d q. q }) in
    (e.returns, e.left, drop_moves-keep watcher s.pending_moves, e.leaves.watches)
