-- ===== src/Base/Maps.antt =====
-- Finite maps with a decidable key as association lists: `std::unordered_map` and `std::map`.
use mathlib.Core.Path.{◌≡◌}
use mathlib.Core.Logic.{ite}
use mathlib.Core.List.{List, [], ◌∷◌}
use mathlib.Core.Option
use mathlib.Core.Option.{Option, none, some}
use native.Mathlib.Omega.{arith}

module _ {ℓ} {K V : Type ℓ} (dec : Discrete K) where
  unfoldable pub find : K → List (K × V) → Option V
  find k [] = none
  find k ((j, v) ∷ m) = ite (dec j k) (some v) (find k m)

  unfoldable pub erase : K → List (K × V) → List (K × V)
  erase k [] = []
  erase k ((j, v) ∷ m) = let rest = erase k m in ite (dec j k) rest ((j, v) ∷ rest)

  -- `insert_or_assign`
  unfoldable pub assign : K → V → List (K × V) → List (K × V)
  assign k v [] = (k, v) ∷ []
  assign k v ((j, w) ∷ m) = let rest = assign k v m in ite (dec j k) ((k, v) ∷ m) ((j, w) ∷ rest)

  -- `emplace`: an entry that is there is left as it is.
  unfoldable pub emplace : K → V → List (K × V) → List (K × V)
  emplace k v [] = (k, v) ∷ []
  emplace k v ((j, w) ∷ m) = let rest = emplace k v m in (j, w) ∷ ite (dec j k) m rest

  -- `found->second` changed in place.
  unfoldable pub modify : K → (V → V) → List (K × V) → List (K × V)
  modify k f [] = []
  modify k f ((j, v) ∷ m) = let rest = modify k f m in ite (dec j k) ((j, f v) ∷ m) ((j, v) ∷ rest)

  pub find-modify :
      (k j : K) (f : V → V) (m : List (K × V))
      → find j (modify k f m) ≡ ite (dec k j) (Option.map f (find j m)) (find j m)
  unfolding find modify
  find-modify k j f [] = ground arith
  find-modify k j f ((i, v) ∷ m) = ground (arith, find-modify k j f m)

  pub find-erase : (k j : K) (m : List (K × V)) → find j (erase k m) ≡ ite (dec k j) none (find j m)
  unfolding find erase
  find-erase k j [] = ground arith
  find-erase k j ((i, v) ∷ m) = ground (arith, find-erase k j m)

  pub find-assign :
      (k j : K) (v : V) (m : List (K × V))
      → find j (assign k v m) ≡ ite (dec k j) (some v) (find j m)
  unfolding find assign
  find-assign k j v [] = ground arith
  find-assign k j v ((i, w) ∷ m) = ground (arith, find-assign k j v m)

  abbrev pub some_or : Option V → V → Option V
  some_or none v = some v
  some_or (some w) v = some w

  pub find-emplace :
      (k j : K) (v : V) (m : List (K × V))
      → find j (emplace k v m) ≡ ite (dec k j) (some_or (find k m) v) (find j m)
  unfolding find emplace
  find-emplace k j v [] = ground arith
  find-emplace k j v ((i, w) ∷ m) = ground (arith, find-emplace k j v m)
