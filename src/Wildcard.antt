-- ===== src/Wildcard.antt =====
-- src/Glob.cc: matching with stars, over any tokens: bytes of a component, characters of a
-- component, components of a path.
pub mod Relation
pub mod Bytewise
pub mod Backtrack
pub mod Table
use native_watcher.Base.{Bool, true, false, ◌||◌, ◌&&◌, List, [], ◌∷◌, if◌then◌else◌}

module _ {ℓ κ} {A : Type ℓ} {B : Type κ} (star : A → Bool) (same : A → B → Bool) where
  -- The reference: a star takes any run of tokens, another token takes one that is the same.
  unfoldable pub wild : List A → List B → Bool
  wild [] [] = true
  wild [] (c ∷ v) = false
  wild (x ∷ p) [] = star x && wild p []
  wild (x ∷ p) (c ∷ v) = if star x then wild p (c ∷ v) || wild (x ∷ p) v else same x c && wild p v
