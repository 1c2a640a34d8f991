-- ===== src/Wildcard/Table.antt =====
-- src/Glob.cc: the tables of `matchWildcardUtf8` and `Glob::isIgnored`, filled from the last token of
-- the pattern to the first, each row from the end of the value to its start.
use native_watcher.Base.{
  ◌≡◌, ap, refl, Bool, true, false, ◌||◌, List, [], ◌∷◌, arith, if◌then◌else◌, get_or,
}
use native_watcher.Wildcard.{wild}

abbrev drop_one : List Bool → List Bool
drop_one [] = []
drop_one (b ∷ row) = row

module _ {ℓ κ} {A : Type ℓ} {B : Type κ} (star : A → Bool) (same : A → B → Bool) where
  -- `current` from `next`, which has one entry more than the value has tokens.
  unfoldable pub table_row : A → List B → List Bool → List Bool
  table_row x [] next = (if star x then get_or next 0 false else false) ∷ []
  table_row x (c ∷ v) next =
      let current = table_row x v (drop_one next) in
      (if star x
        then get_or next 0 false || get_or current 0 false
        else if same x c
        then get_or next 1 false
        else false)
      ∷ current

  -- The first `next`: true at the end of the value only.
  unfoldable pub first_row : List B → List Bool
  first_row [] = true ∷ []
  first_row (c ∷ v) = false ∷ first_row v

  unfoldable pub table : List A → List B → List Bool
  unfolding table_row first_row
  table [] v = first_row v
  table (x ∷ p) v = table_row x v (table p v)

  unfoldable pub match_table : List A → List B → Bool
  unfolding table
  match_table p v = get_or (table p v) 0 false

  -- What a predicate says of each rest of the value.
  at_rests : (List B → Bool) → List B → List Bool
  at_rests f [] = f [] ∷ []
  at_rests f (c ∷ v) = f (c ∷ v) ∷ at_rests f v

  first_row-wild : (v : List B) → first_row v ≡ at_rests (wild star same []) v
  unfolding first_row at_rests wild
  first_row-wild [] = refl
  first_row-wild (c ∷ v) = ap (◌∷◌ false) (first_row-wild v)

  head-at_rests : (f : List B → Bool) (v : List B) → get_or (at_rests f v) 0 false ≡ f v
  unfolding at_rests
  head-at_rests f [] = refl
  head-at_rests f (c ∷ v) = refl

  table_row-wild :
      (x : A) (p : List A) (v : List B)
      → table_row x v (at_rests (wild star same p) v) ≡ at_rests (wild star same (x ∷ p)) v
  unfolding table_row at_rests wild
  table_row-wild x p [] = ground arith
  table_row-wild x p (c ∷ v) = ground (
    arith,
    table_row-wild x p v,
    head-at_rests (wild star same (x ∷ p)) v,
    head-at_rests (wild star same p) v,
  )

  table-wild : (p : List A) (v : List B) → table p v ≡ at_rests (wild star same p) v
  unfolding table
  table-wild [] v = first_row-wild v
  table-wild (x ∷ p) v = rw (table-wild p v) (table_row-wild x p v)

  -- The table answers as the reference matcher does.
  pub match_table-wild : (p : List A) (v : List B) → match_table p v ≡ wild star same p v
  unfolding match_table
  match_table-wild p v = rw (table-wild p v) (head-at_rests (wild star same p) v)
