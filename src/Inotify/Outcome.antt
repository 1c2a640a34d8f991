-- ===== src/Inotify/Outcome.antt =====
-- src/linux/InotifyBackend.cc: what an overflow of the queue and a lost root leave.
use native_watcher.Base.{
  ℕ, ◌≡◌, refl, ◌∙◌, ap, Bool, true, false, ◌&&◌, ◌||◌, none, List, [], ◌∷◌, Bytes, ◌==◌,
  if◌then◌else◌, arith, Bool-cases, inl, inr, All, bytes_eq, bytes_eq_refl, is_path_or_descendant,
}
use native_watcher.Event.{error, has_error}
use native_watcher.DirTree.{find_entry, within, extract}
use native_watcher.DirTree.Shape.{find-without}
use native_watcher.Inotify.{
  Subscription, Subscriptions, PendingMove, MoveKey, tracked, left_subscriptions,
  remove_subscriptions,
}
use native_watcher.Inotify.Sets.{member}
use native_watcher.Inotify.Covered.{Covered, remove_subscriptions-Covered}
use native_watcher.Inotify.Release.{drop_moves_none}
use native_watcher.Inotify.Session.{
  Session, invalidate, forget_watcher, subscribers, overflow_watcher, overflow_all, handle_overflow,
  lose_root,
}

forget_watcher-Covered :
    (watcher : ℕ) (dir : Bytes) (s : Session)
    → Covered s.inotify
    → Covered (forget_watcher watcher dir s).inotify
unfolding forget_watcher
forget_watcher-Covered watcher dir s c = remove_subscriptions-Covered watcher dir dir s.inotify c

-- No subscription of a watcher.
abbrev pub NoneOf : ℕ → Subscriptions → Type 0
NoneOf watcher subs = All (λ (e : ℕ × Subscription). (e.1.watcher == watcher) ≡ false) subs

abbrev pub AllOf : List ℕ → Subscriptions → Type 0
AllOf ws subs = All (λ (e : ℕ × Subscription). member e.1.watcher ws ≡ true) subs

-- The subscriptions that `removeSubscriptions(watcher, mDir)` erases: all of the watcher.
abbrev pub of_watcher : ℕ → Bytes → ℕ → Subscription → Bool
of_watcher watcher dir d sub =
    sub.watcher == watcher && (bytes_eq dir dir || is_path_or_descendant sub.path dir)

pub left-NoneOf :
    (watcher : ℕ) (dir : Bytes) (subs : Subscriptions)
    → NoneOf watcher (left_subscriptions (of_watcher watcher dir) subs)
unfolding left_subscriptions
left-NoneOf watcher dir [] = tt
left-NoneOf watcher dir ((d, sub) ∷ subs) = elim (Bool-cases (sub.watcher == watcher)) [
  | inl w ↦
      rw (left_subscriptions, w, bytes_eq_refl dir, if◌then◌else◌) (left-NoneOf watcher dir subs)
  | inr w ↦ rw (left_subscriptions, w, if◌then◌else◌) (w, left-NoneOf watcher dir subs)
]

left-AllOf :
    (watcher : ℕ) (ws : List ℕ) (dir : Bytes) (subs : Subscriptions)
    → AllOf (watcher ∷ ws) subs
    → AllOf ws (left_subscriptions (of_watcher watcher dir) subs)
unfolding left_subscriptions member
left-AllOf watcher ws dir [] h = tt
left-AllOf watcher ws dir ((d, sub) ∷ subs) h = elim (Bool-cases (sub.watcher == watcher)) [
  | inl w ↦
      rw (left_subscriptions, w, bytes_eq_refl dir, if◌then◌else◌)
        (left-AllOf watcher ws dir subs h.1)
  | inr w ↦
      rw (left_subscriptions, w, if◌then◌else◌)
        (ground (arith, h.0, w), left-AllOf watcher ws dir subs h.1)
]

subscribers-AllOf :
    (subs : Subscriptions) (ws : List ℕ)
    → ((w : ℕ) → member w (subscribers subs) ≡ true → member w ws ≡ true)
    → AllOf ws subs
unfolding subscribers member
subscribers-AllOf [] ws h = tt
subscribers-AllOf ((d, sub) ∷ subs) ws h =
    (h sub.watcher (ground arith), subscribers-AllOf subs ws (λ w m. h w (ground (arith, m))))

nil_of_AllOf : (subs : Subscriptions) → AllOf [] subs → subs ≡ []
unfolding member
nil_of_AllOf [] h = refl
nil_of_AllOf (e ∷ subs) h = absurd (ground (arith, h.0))

module _ (dir : ℕ → Bytes) where
  overflow_watcher-Covered :
      (w : ℕ) (s : Session) → Covered s.inotify → Covered (overflow_watcher dir w s).inotify
  unfolding overflow_watcher forget_watcher invalidate
  overflow_watcher-Covered w s c = remove_subscriptions-Covered w (dir w) (dir w) s.inotify c

  -- What the loop over the watchers leaves.
  record Emptied (ws : List ℕ) (s r : Session) : Type 0 where
    pub none_left : r.inotify.subscriptions ≡ []
    pub told : (w : ℕ) → has_error (r.events w) ≡ (member w ws || has_error (s.events w))
    pub covered : Covered r.inotify

  told_next :
      (w : ℕ) (s : Session) (v : ℕ)
      → has_error ((overflow_watcher dir w s).events v) ≡ (w == v || has_error (s.events v))
  unfolding overflow_watcher forget_watcher invalidate error
  told_next w s v = ground arith

  overflow_all-Emptied :
      (ws : List ℕ) (s : Session)
      → Covered s.inotify
      → AllOf ws s.inotify.subscriptions
      → Emptied ws s (overflow_all dir ws s)
  unfolding overflow_all member
  overflow_all-Emptied [] s c h = record {
    none_left = nil_of_AllOf s.inotify.subscriptions h;
    told = λ w. refl;
    covered = c;
  }
  overflow_all-Emptied (w ∷ ws) s c h =
      let next = overflow_watcher dir w s in
      let ih =
        overflow_all-Emptied ws next (overflow_watcher-Covered w s c)
          (left-AllOf w ws (dir w) s.inotify.subscriptions h) in
      record {
        none_left = ih.none_left;
        told = λ v. ground (arith, ih.told v, told_next w s v);
        covered = ih.covered;
      }

  pub handle_overflow-Covered :
      (s : Session) → Covered s.inotify → Covered (handle_overflow dir s).0.inotify
  unfolding handle_overflow
  handle_overflow-Covered s c =
      (overflow_all-Emptied (subscribers s.inotify.subscriptions) s c
        (subscribers-AllOf s.inotify.subscriptions _ (λ w m. m))).covered

  -- With the watches covered, an overflow ends every subscription and every watch of the kernel,
  -- and the watchers with an error to report are those that had one and those with a subscription.
  pub handle_overflow_lem :
      (s : Session)
      → Covered s.inotify
      → ((handle_overflow dir s).0.inotify.subscriptions ≡ [])
        × ((d : ℕ) → member d (handle_overflow dir s).0.inotify.kernel.watches ≡ false)
        × ((w : ℕ)
            → has_error ((handle_overflow dir s).0.events w)
              ≡ (member w (subscribers s.inotify.subscriptions) || has_error (s.events w)))
  unfolding handle_overflow tracked
  handle_overflow_lem s c =
      let subs = s.inotify.subscriptions in
      let e = overflow_all-Emptied (subscribers subs) s c (subscribers-AllOf subs _ (λ w m. m)) in
      (e.none_left, λ d. e.covered.1 d ∙ ap (tracked d) e.none_left, e.told)

  -- With the watches covered, losing its root leaves a watcher with no subscription and no pending
  -- move, the tree with the entries outside the root, and the watches covered.
  pub lose_root_lem :
      (sub : Subscription) (s : Session)
      → Covered s.inotify
      → NoneOf sub.watcher (lose_root dir sub s).inotify.subscriptions
        × All
            (λ (e : MoveKey × PendingMove). (e.1.watcher == sub.watcher) ≡ false)
            (lose_root dir sub s).inotify.pending_moves
        × ((p : Bytes)
            → find_entry p ((lose_root dir sub s).trees sub.tree)
              ≡ (if within (dir sub.watcher) p then none else find_entry p (s.trees sub.tree)))
        × Covered (lose_root dir sub s).inotify
  unfolding lose_root forget_watcher invalidate remove_subscriptions extract
  lose_root_lem sub s c =
      let root = dir sub.watcher in
      (
        left-NoneOf sub.watcher root s.inotify.subscriptions,
        drop_moves_none sub.watcher s.inotify.pending_moves,
        λ p. ground (arith, find-without (within root) p (s.trees sub.tree).entries),
        remove_subscriptions-Covered sub.watcher root root s.inotify c,
      )
