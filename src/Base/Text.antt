-- ===== src/Base/Text.antt =====
-- `std::string` as the list of its bytes, and the tests on paths that several files of src/ repeat.
use Prim.Native.Nat.{ℕ}
use Prim.Native.Char.{code}
use Prim.Native.String.{String}
use mathlib.Core.Path.{◌≡◌, refl, ap}
use mathlib.Core.Logic.{inl, inr}
use mathlib.Core.Bool.{Bool, true, false, ◌&&◌, ◌||◌}
use mathlib.Core.List.{List, [], ◌∷◌, ◌++◌}
use native.Mathlib.Omega.{arith}
use native_watcher.Base.Tests.{◌==◌, ltb, Bool-cases}
use native_watcher.Base.Lists.{length, take, drop, get_or}

abbrev pub Bytes : Type 0
Bytes = List ℕ

abbrev pub codes : String → Bytes
codes String.[] = []
codes (String.◌∷◌ c s) = code c ∷ codes s

-- `==` of two strings.
unfoldable pub bytes_eq : Bytes → Bytes → Bool
bytes_eq [] [] = true
bytes_eq [] (y ∷ ys) = false
bytes_eq (x ∷ xs) [] = false
bytes_eq (x ∷ xs) (y ∷ ys) = x == y && bytes_eq xs ys

pub eq_of_bytes_eq : (x y : Bytes) → bytes_eq x y ≡ true → x ≡ y
unfolding bytes_eq
eq_of_bytes_eq [] [] h = refl
eq_of_bytes_eq [] (y ∷ ys) h = cc
eq_of_bytes_eq (x ∷ xs) [] h = cc
eq_of_bytes_eq (x ∷ xs) (y ∷ ys) h = ground (arith, eq_of_bytes_eq xs ys)

pub bytes_eq_refl : (x : Bytes) → bytes_eq x x ≡ true
unfolding bytes_eq
bytes_eq_refl [] = refl
bytes_eq_refl (x ∷ xs) = ground (arith, bytes_eq_refl xs)

pub bytes_eq-ne : (x y : Bytes) → bytes_eq x y ≡ false → ¬ (x ≡ y)
bytes_eq-ne x y h p = let e : bytes_eq x y ≡ true = rw p (bytes_eq_refl y) in cc

unfoldable pub Bytes-discrete : Discrete Bytes
unfolding bytes_eq Bool-cases
Bytes-discrete x y = elim (Bool-cases (bytes_eq x y)) [
  | inl e ↦ yes (eq_of_bytes_eq x y e)
  | inr e ↦ no (λ p. bytes_eq-ne x y e p)
]

abbrev pub slash : ℕ
slash = 47

-- `path.compare(0, prefix.size(), prefix) == 0 && path[prefix.size()] == '/'`, in a longer `path`.
unfoldable pub has_path_prefix : Bytes → Bytes → Bool
has_path_prefix path prefix =
    ltb (length prefix) (length path)
    && bytes_eq (take (length prefix) path) prefix
    && get_or path (length prefix) 0 == slash

unfoldable pub is_path_or_descendant : Bytes → Bytes → Bool
is_path_or_descendant path base = bytes_eq path base || has_path_prefix path base

-- `value.rfind(prefix, 0) == 0`
unfoldable pub starts_with : Bytes → Bytes → Bool
starts_with value [] = true
starts_with [] (p ∷ prefix) = false
starts_with (c ∷ value) (p ∷ prefix) = c == p && starts_with value prefix

pub starts_with-append : (prefix rest : Bytes) → starts_with (prefix ++ rest) prefix ≡ true
unfolding starts_with
starts_with-append [] [] = refl
starts_with-append [] (c ∷ rest) = refl
starts_with-append (p ∷ prefix) rest = ground (arith, starts_with-append prefix rest)

pub starts_with-split :
    (value prefix : Bytes)
    → starts_with value prefix ≡ true
    → value ≡ prefix ++ drop (length prefix) value
unfolding starts_with
starts_with-split value [] h = refl
starts_with-split [] (p ∷ prefix) h = cc
starts_with-split (c ∷ value) (p ∷ prefix) h =
    let same : c ≡ p = ground arith in
    rw same (ap (◌∷◌ p) (starts_with-split value prefix (ground arith)))
