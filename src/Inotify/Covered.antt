-- ===== src/Inotify/Covered.antt =====
-- src/linux/InotifyBackend.cc: the kernel watches exactly the descriptors that have a subscription.
use native_watcher.Base.{
  ℕ, ◌≡◌, refl, ap, Bool, true, false, not, ◌&&◌, ◌||◌, Option, none, some, List, [], ◌∷◌, Bytes,
  ◌==◌, if◌then◌else◌, arith, Bool-cases, inl, inr,
}
use native_watcher.Inotify.{
  Subscription, Subscriptions, Kernel, Inotify, remove_watch, tracked, removed_descriptors,
  left_subscriptions, release, erase_where, add_watch, is_stale, already_tracked, watch_dir,
  remove_subscriptions, remove_moved, PendingMove,
}
use native_watcher.Inotify.Sets.{member, member-without_element}

abbrev pub CoveredBy : Kernel → Subscriptions → Type 0
CoveredBy k subs = (d : ℕ) → member d k.watches ≡ tracked d subs

-- The descriptor is open, and its watches are those that a subscription needs: none leaks, and
-- none is missing.
abbrev pub Covered : Inotify → Type 0
Covered s = (s.kernel.is_open ≡ true) × CoveredBy s.kernel s.subscriptions

pub remove_watch_open :
    (d : ℕ) (k : Kernel) → k.is_open ≡ true → (remove_watch d k).0.is_open ≡ true
unfolding remove_watch
remove_watch_open d k o = ground (arith, o)

member-not_in :
    (d e : ℕ) (ds : List ℕ) → member e ds ≡ false → member d ds ≡ (member d ds && not (e == d))
unfolding member
member-not_in d e [] h = refl
member-not_in d e (f ∷ ds) h = ground (arith, member-not_in d e ds)

pub member-remove_watch :
    (d e : ℕ) (k : Kernel)
    → k.is_open ≡ true
    → member d (remove_watch e k).0.watches ≡ (member d k.watches && not (e == d))
unfolding remove_watch
member-remove_watch d e k o =
    ground (arith, o, member-without_element d e k.watches, member-not_in d e k.watches)

tracked_same : (d e : ℕ) (subs : Subscriptions) → d ≡ e → tracked d subs ≡ tracked e subs
tracked_same d e subs h = ap (λ x. tracked x subs) h

release_lem :
    (d : ℕ) (ds : List ℕ) (subs : Subscriptions) (k : Kernel)
    → k.is_open ≡ true
    → ((release ds subs k).is_open ≡ true)
      × (member d (release ds subs k).watches
          ≡ (member d k.watches && not (member d ds && not (tracked d subs))))
unfolding release member
release_lem d [] subs k o = ground (arith, o)
release_lem d (e ∷ ds) subs k o = elim (Bool-cases (tracked e subs)) [
  | inl t ↦ rw (release, t) (ground (arith, release_lem d ds subs k o, t, tracked_same d e subs))
  | inr t ↦
      rw (release, t)
        (ground (
          arith,
          release_lem d ds subs (remove_watch e k).0 (remove_watch_open e k o),
          member-remove_watch d e k o,
          t,
          tracked_same d e subs,
        ))
]

tracked_split :
    (d : ℕ) (test : ℕ → Subscription → Bool) (subs : Subscriptions)
    → tracked d subs
      ≡ (tracked d (left_subscriptions test subs) || member d (removed_descriptors test subs))
unfolding tracked left_subscriptions member removed_descriptors
tracked_split d test [] = refl
tracked_split d test ((e, sub) ∷ subs) = ground (arith, tracked_split d test subs)

pub erase_where-Covered :
    (test : ℕ → Subscription → Bool) (s : Inotify) → Covered s → Covered (erase_where test s)
unfolding erase_where
erase_where-Covered test s (o, c) =
    let subs = s.subscriptions in
    let ds = removed_descriptors test subs in
    let l = left_subscriptions test subs in
    (
      (release_lem 0 ds l s.kernel o).0,
      λ d. ground (arith, release_lem d ds l s.kernel o, c d, tracked_split d test subs),
    )

pub remove_subscriptions-Covered :
    (watcher : ℕ) (dir path : Bytes) (s : Inotify)
    → Covered s
    → Covered (remove_subscriptions watcher dir path s)
unfolding remove_subscriptions
remove_subscriptions-Covered watcher dir path s c = erase_where-Covered _ s c

pub remove_moved-Covered :
    (move : PendingMove) (s : Inotify) → Covered s → Covered (remove_moved move s)
unfolding remove_moved
remove_moved-Covered move s c = erase_where-Covered _ s c

already_tracked-left :
    (watcher : ℕ) (path : Bytes) (wd : ℕ) (subs : Subscriptions)
    → already_tracked watcher path wd subs ≡ true
    → tracked wd (left_subscriptions (is_stale watcher path wd) subs) ≡ true
unfolding already_tracked tracked left_subscriptions
already_tracked-left watcher path wd [] h = cc
already_tracked-left watcher path wd ((d, sub) ∷ subs) h =
    ground (arith, already_tracked-left watcher path wd subs)

fresh_not_stale :
    (watcher : ℕ) (path : Bytes) (wd : ℕ) (subs : Subscriptions)
    → member wd (removed_descriptors (is_stale watcher path wd) subs) ≡ false
unfolding member removed_descriptors
fresh_not_stale watcher path wd [] = refl
fresh_not_stale watcher path wd ((d, sub) ∷ subs) =
    ground (arith, fresh_not_stale watcher path wd subs)

pub member_same :
    (d wd : ℕ) (ws : List ℕ) → member wd ws ≡ true → member d ws ≡ (wd == d || member d ws)
unfolding member
member_same d wd [] h = cc
member_same d wd (w ∷ ws) h = ground (arith, member_same d wd ws)

same_member : (d wd : ℕ) (ws : List ℕ) → d ≡ wd → member d ws ≡ member wd ws
same_member d wd ws h = ap (λ x. member x ws) h

watches_of_add :
    (d wd : ℕ) (k : Kernel) → member d (add_watch wd k).watches ≡ (wd == d || member d k.watches)
unfolding member
watches_of_add d wd k = ground (arith, member_same d wd k.watches)

-- `watchDir` keeps the watches covered, whether the call fails or returns a descriptor, new or
-- shared, and whether the directory had another descriptor before.
pub watch_dir-Covered :
    (reply : Option ℕ) (id watcher : ℕ) (path : Bytes) (tree : ℕ) (s : Inotify)
    → Covered s
    → Covered (watch_dir reply id watcher path tree s).0
unfolding watch_dir tracked
watch_dir-Covered none id watcher path tree s c = c
watch_dir-Covered (some wd) id watcher path tree s (o, c) =
    let test = is_stale watcher path wd in
    let subs = s.subscriptions in
    let ds = removed_descriptors test subs in
    let l = left_subscriptions test subs in
    let k = add_watch wd s.kernel in
    let still_open : (release ds l k).is_open ≡ true = (release_lem 0 ds l k o).0 in
    elim (Bool-cases (already_tracked watcher path wd subs)) [
      | inl a ↦
          rw (watch_dir, erase_where, a, if◌then◌else◌)
            (
              still_open,
              λ d. ground (
                arith,
                release_lem d ds l k o,
                c d,
                tracked_split d test subs,
                already_tracked-left watcher path wd subs a,
                watches_of_add d wd s.kernel,
                tracked_same d wd l,
              ),
            )
      | inr a ↦
          rw (watch_dir, erase_where, a, if◌then◌else◌)
            (
              still_open,
              λ d. ground (
                arith,
                release_lem d ds l k o,
                c d,
                tracked_split d test subs,
                fresh_not_stale watcher path wd subs,
                watches_of_add d wd s.kernel,
                same_member d wd ds,
              ),
            )
    ]
