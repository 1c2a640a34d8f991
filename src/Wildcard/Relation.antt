-- ===== src/Wildcard/Relation.antt =====
-- The reference matcher decides an inductive relation.
use native_watcher.Base.{
  ◌≡◌, ◌↔◌, refl, Bool, true, false, List, [], ◌∷◌, arith, Bool-cases, inl, inr,
}
use native_watcher.Wildcard.{wild}

module _ {ℓ κ} {A : Type ℓ} {B : Type κ} (star : A → Bool) (same : A → B → Bool) where
  pub data Matches : List A → List B → Type (ℓ ⊔ κ) where
    done : Matches [] []
    token :
        {x : A} {c : B} {p : List A} {v : List B}
        → star x ≡ false
        → same x c ≡ true
        → Matches p v
        → Matches (x ∷ p) (c ∷ v)
    skip : {x : A} {p : List A} {v : List B} → star x ≡ true → Matches p v → Matches (x ∷ p) v
    take_one :
        {x : A} {c : B} {p : List A} {v : List B}
        → star x ≡ true
        → Matches (x ∷ p) v
        → Matches (x ∷ p) (c ∷ v)

  wild_complete : {p : List A} {v : List B} → Matches p v → wild star same p v ≡ true
  unfolding wild
  wild_complete done = refl
  wild_complete (token s e d) = ground (arith, wild_complete d)
  wild_complete (skip {x} {p} {v = []} s d) = ground (arith, wild_complete d)
  wild_complete (skip {x} {p} {v = c ∷ v} s d) = ground (arith, wild_complete d)
  wild_complete (take_one s d) = ground (arith, wild_complete d)

  wild_sound : (p : List A) (v : List B) → wild star same p v ≡ true → Matches p v
  unfolding wild
  wild_sound [] [] h = done
  wild_sound [] (c ∷ v) h = absurd (ground arith)
  wild_sound (x ∷ p) [] h = skip (ground arith) (wild_sound p [] (ground arith))
  wild_sound (x ∷ p) (c ∷ v) h = elim (Bool-cases (star x)) [
    | inl s ↦ elim (Bool-cases (wild star same p (c ∷ v))) [
      | inl e ↦ skip s (wild_sound p (c ∷ v) e)
      | inr e ↦ take_one s (wild_sound (x ∷ p) v (ground arith))
    ]
    | inr s ↦ token s (ground arith) (wild_sound p v (ground arith))
  ]

  -- The reference matcher says true exactly on what matches by the rules.
  pub wild_iff : (p : List A) (v : List B) → (wild star same p v ≡ true) ↔ Matches p v
  wild_iff p v = (wild_sound p v, wild_complete)
