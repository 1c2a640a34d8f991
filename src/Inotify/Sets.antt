-- ===== src/Inotify/Sets.antt =====
-- Sets of descriptors as lists, for src/linux/InotifyBackend.cc.
use native_watcher.Base.{
  ℕ, ◌≡◌, Bool, false, not, ◌&&◌, ◌||◌, List, [], ◌∷◌, ◌==◌, if◌then◌else◌, arith,
}

unfoldable pub member : ℕ → List ℕ → Bool
member d [] = false
member d (e ∷ ds) = e == d || member d ds

unfoldable pub without_element : ℕ → List ℕ → List ℕ
without_element d [] = []
without_element d (e ∷ ds) = let rest = without_element d ds in if e == d then rest else e ∷ rest

pub member-without_element :
    (d e : ℕ) (ds : List ℕ) → member d (without_element e ds) ≡ (member d ds && not (e == d))
unfolding member without_element
member-without_element d e [] = ground arith
member-without_element d e (f ∷ ds) = ground (arith, member-without_element d e ds)
