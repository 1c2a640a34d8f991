-- ===== src/Event/Order.antt =====
-- The order of `std::map` over the keys of src/Event.hh: strict and total.
use native_watcher.Base.{◌≡◌, refl, true, false, [], ◌∷◌, arith, Bytes}
use native_watcher.Event.{EventKey, file, directory, bytes_lt, kind_lt, key_lt}

bytes_lt_irrefl : (x : Bytes) → bytes_lt x x ≡ false
unfolding bytes_lt
bytes_lt_irrefl [] = refl
bytes_lt_irrefl (x ∷ xs) = ground (arith, bytes_lt_irrefl xs)

bytes_lt_trans : (x y z : Bytes) → bytes_lt x y ≡ true → bytes_lt y z ≡ true → bytes_lt x z ≡ true
unfolding bytes_lt
bytes_lt_trans x y [] h k = cc
bytes_lt_trans x [] (c ∷ z) h k = cc
bytes_lt_trans [] (b ∷ y) (c ∷ z) h k = refl
bytes_lt_trans (a ∷ x) (b ∷ y) (c ∷ z) h k = ground (arith, bytes_lt_trans x y z)

bytes_lt_connex : (x y : Bytes) → bytes_lt x y ≡ false → bytes_lt y x ≡ false → x ≡ y
unfolding bytes_lt
bytes_lt_connex [] [] h k = refl
bytes_lt_connex [] (b ∷ y) h k = cc
bytes_lt_connex (a ∷ x) [] h k = cc
bytes_lt_connex (a ∷ x) (b ∷ y) h k = ground (arith, bytes_lt_connex x y)

pub key_lt_irrefl : (k : EventKey) → key_lt k k ≡ false
unfolding key_lt kind_lt
key_lt_irrefl (p, file) = ground (arith, bytes_lt_irrefl p)
key_lt_irrefl (p, directory) = ground (arith, bytes_lt_irrefl p)

pub key_lt_trans : (a b c : EventKey) → key_lt a b ≡ true → key_lt b c ≡ true → key_lt a c ≡ true
unfolding key_lt kind_lt
key_lt_trans (p, i) (q, j) (r, k) h h' = ground (
  arith,
  bytes_lt_trans p q r,
  bytes_lt_connex p q,
  bytes_lt_connex q r,
  bytes_lt_connex p r,
  bytes_lt_trans p r q,
  bytes_lt_trans r p q,
  bytes_lt_trans q r p,
)

pub key_lt_connex : (a b : EventKey) → key_lt a b ≡ false → ¬ (a ≡ b) → key_lt b a ≡ true
unfolding key_lt kind_lt
key_lt_connex (p, i) (q, j) h ne =
    ground (arith, bytes_lt_connex p q, bytes_lt_connex q p, bytes_lt_irrefl p)
