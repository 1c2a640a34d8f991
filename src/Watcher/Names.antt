-- ===== src/Watcher/Names.antt =====
-- src/Watcher.cc: how `isIgnored` and `resolveDirGlobState` cut a path at its slashes.
use native_watcher.Base.{
  ℕ, suc, ◌+◌, ◌≡◌, refl, ap, ◌∙◌, Bool, true, false, not, Option, none, some, List, [], ◌∷◌, ◌++◌,
  arith, Bytes, ◌==◌, if◌then◌else◌, Bool-cases, inl, inr, slash, length, drop, All, append_assoc,
  append-nil, ==_iff,
}
use native_watcher.Glob.Text.{split_at_slashes, cons_head}
use native_watcher.Glob.Ignore.{child_of, slash_prefixes}
use native_watcher.Watcher.Root.{split_cases}
use native_watcher.Watcher.Ignore.{split_leaf, push_front, without_empty_end, reverse_onto}

-- Where a walk along components ends.
abbrev pub reached : Option Bytes → List Bytes → Option Bytes
reached parent [] = parent
reached parent (c ∷ path) = reached (some (child_of parent c)) path

-- Not empty, and the last byte is no slash.
abbrev pub is_clean : Bytes → Bool
is_clean [] = false
is_clean (c ∷ []) = not (c == slash)
is_clean (c ∷ d ∷ path) = is_clean (d ∷ path)

split-cons :
    (c : ℕ) (path : Bytes)
    → split_at_slashes (c ∷ path)
      ≡ (if c == slash then [] ∷ split_at_slashes path else cons_head c (split_at_slashes path))
unfolding split_at_slashes
split-cons c path = refl

pub split-append :
    (before after : Bytes)
    → split_at_slashes (before ++ slash ∷ after) ≡ split_at_slashes before ++ split_at_slashes after
split-append [] after = split-cons slash after ∙ (unfold split_at_slashes in refl)
split-append (c ∷ before) after =
    let (a, r, e) = split_cases before in
    elim (Bool-cases (c == slash)) [
      | inl s ↦
          rw
            (
              split-cons c before,
              split-cons c (before ++ slash ∷ after),
              s,
              split-append before after,
            )
            refl
      | inr n ↦
          rw
            (
              split-cons c before,
              split-cons c (before ++ slash ∷ after),
              n,
              split-append before after,
              e,
            )
            refl
    ]

-- The name behind the last slash, and what stands before it.
abbrev pub LeafOf : Bytes → Option Bytes × Bytes → Type 0
LeafOf path (none, leaf) = split_at_slashes path ≡ leaf ∷ []
LeafOf path (some dir, leaf) = split_at_slashes path ≡ split_at_slashes dir ++ leaf ∷ []

push_front-LeafOf :
    (c : ℕ) (path : Bytes) (r : Option Bytes × Bytes)
    → LeafOf path r
    → LeafOf (c ∷ path) (push_front c r)
push_front-LeafOf c path (none, leaf) h = elim (Bool-cases (c == slash)) [
  | inl s ↦ rw (s, split-cons c path, s, h) (unfold split_at_slashes in refl)
  | inr n ↦ rw (n, split-cons c path, n, h) refl
]
push_front-LeafOf c path (some dir, leaf) h =
    let (a, r, e) = split_cases dir in
    elim (Bool-cases (c == slash)) [
      | inl s ↦ rw (split-cons c path, split-cons c dir, s, h) refl
      | inr n ↦ rw (split-cons c path, split-cons c dir, n, h, e) refl
    ]

pub split_leaf-LeafOf : (path : Bytes) → LeafOf path (split_leaf path)
unfolding split_leaf
split_leaf-LeafOf [] = unfold split_at_slashes in refl
split_leaf-LeafOf (c ∷ path) = push_front-LeafOf c path (split_leaf path) (split_leaf-LeafOf path)

abbrev pub IsName : Bytes → Type 0
IsName part = split_at_slashes part ≡ part ∷ []

cons_head-names :
    (c : ℕ) (parts : List Bytes)
    → (c == slash) ≡ false
    → All IsName parts
    → All IsName (cons_head c parts)
cons_head-names c [] n h = (rw (split-cons c [], n) (unfold split_at_slashes in refl), tt)
cons_head-names c (part ∷ parts) n h = (rw (split-cons c part, n, h.0) refl, h.1)

pub split_at_slashes-names : (path : Bytes) → All IsName (split_at_slashes path)
split_at_slashes-names [] = unfold split_at_slashes in (refl, tt)
split_at_slashes-names (c ∷ path) =
    let ih = split_at_slashes-names path in
    elim (Bool-cases (c == slash)) [
      | inl s ↦ rw (split-cons c path, s) (unfold split_at_slashes in refl, ih)
      | inr n ↦ rw (split-cons c path, n) (cons_head-names c (split_at_slashes path) n ih)
    ]

pub without_empty_end-names :
    (parts : List Bytes) → All IsName parts → All IsName (without_empty_end parts)
unfolding without_empty_end
without_empty_end-names [] h = tt
without_empty_end-names ([] ∷ []) h = tt
without_empty_end-names ((c ∷ part) ∷ []) h = h
without_empty_end-names ([] ∷ next ∷ parts) h = (h.0, without_empty_end-names (next ∷ parts) h.1)
without_empty_end-names ((c ∷ part) ∷ next ∷ parts) h =
    (h.0, without_empty_end-names (next ∷ parts) h.1)

without_empty_end-tail :
    (a next : Bytes) (parts : List Bytes)
    → without_empty_end (a ∷ next ∷ parts) ≡ a ∷ without_empty_end (next ∷ parts)
unfolding without_empty_end
without_empty_end-tail [] next parts = refl
without_empty_end-tail (c ∷ a) next parts = refl

longer_head :
    (c : ℕ) (a : Bytes) (r : List Bytes)
    → without_empty_end (a ∷ r) ≡ a ∷ r
    → without_empty_end ((c ∷ a) ∷ r) ≡ (c ∷ a) ∷ r
longer_head c a [] h = unfold without_empty_end in refl
longer_head c a (next ∷ parts) h =
    let e = without_empty_end-tail a next parts in
    rw (without_empty_end-tail (c ∷ a) next parts) (cc)

-- A clean text has no empty component at its end.
pub clean_end :
    (path : Bytes)
    → is_clean path ≡ true
    → without_empty_end (split_at_slashes path) ≡ split_at_slashes path
clean_end [] h = cc
clean_end (c ∷ []) h = elim (Bool-cases (c == slash)) [
  | inl s ↦ absurd (ground arith)
  | inr n ↦ rw (split-cons c [], n) (unfold split_at_slashes without_empty_end in refl)
]
clean_end (c ∷ d ∷ path) h =
    let (a, r, e) = split_cases (d ∷ path) in
    let ih = clean_end (d ∷ path) h in
    elim (Bool-cases (c == slash)) [
      | inl s ↦
          rw (split-cons c (d ∷ path), s)
            (rw (e, without_empty_end-tail [] a r) (ap (◌∷◌ []) (rw e at ih)))
      | inr n ↦ rw (split-cons c (d ∷ path), n, e) (longer_head c a r (rw e at ih))
    ]

abbrev from_head : Bytes → List Bytes → Option Bytes
from_head before [] = some before
from_head before (part ∷ parts) = reached (some (before ++ part)) parts

from_head-split :
    (before path : Bytes) → from_head before (split_at_slashes path) ≡ some (before ++ path)
from_head-split before [] = unfold split_at_slashes in refl
from_head-split before (c ∷ path) =
    let (a, r, e) = split_cases path in
    let ih = from_head-split (before ++ c ∷ []) path in
    let ih' : reached (some (before ++ c ∷ a)) r ≡ some (before ++ c ∷ path) =
      rw (e, append_assoc before (c ∷ []) a, append_assoc before (c ∷ []) path) at ih in
    elim (Bool-cases (c == slash)) [
      | inl s ↦
          let same = (==_iff c slash).0 s in
          rw (split-cons c path, s, e, append-nil before, same) (rw same at ih')
      | inr n ↦ rw (split-cons c path, n, e) ih'
    ]

pub reached-split-some :
    (parent path : Bytes)
    → reached (some parent) (split_at_slashes path) ≡ some (parent ++ slash ∷ path)
reached-split-some parent path =
    let (a, r, e) = split_cases path in
    let whole = from_head-split (parent ++ slash ∷ []) path in
    rw e
      (rw (e, append_assoc parent (slash ∷ []) a, append_assoc parent (slash ∷ []) path) at whole)

pub reached-split : (path : Bytes) → reached none (split_at_slashes path) ≡ some path
reached-split path =
    let (a, r, e) = split_cases path in let whole = from_head-split [] path in rw e (rw e at whole)

-- The end of a text that is clean is clean.
pub is_clean-append :
    (before path : Bytes) → is_clean (before ++ slash ∷ path) ≡ true → is_clean path ≡ true
is_clean-append [] [] h = cc
is_clean-append [] (c ∷ path) h = h
is_clean-append (b ∷ []) path h = is_clean-append [] path h
is_clean-append (b ∷ d ∷ before) path h = is_clean-append (d ∷ before) path h

-- Each text before a slash, with the slash and what is behind it.
abbrev pub Cuts : Bytes → Bytes → Type 0
Cuts path prefix = path ≡ prefix ++ slash ∷ drop (length prefix + 1) path

drop_past :
    (before : Bytes) (c : ℕ) (path : Bytes) → drop (length before + 1) (before ++ c ∷ path) ≡ path
drop_past [] c path = refl
drop_past (b ∷ before) c path =
    let e : length (b ∷ before) + 1 ≡ suc (length before + 1) = omega arith in
    rw e (drop_past before c path)

cut_at :
    (before : Bytes) (c : ℕ) (path : Bytes) → (c == slash) ≡ true → Cuts (before ++ c ∷ path) before
cut_at before c path s = rw ((==_iff c slash).0 s, drop_past before slash path) refl

slash_prefixes-Cuts :
    (before path : Bytes) → All (Cuts (before ++ path)) (slash_prefixes before path)
unfolding slash_prefixes
slash_prefixes-Cuts before [] = tt
slash_prefixes-Cuts before (c ∷ path) =
    let ih = slash_prefixes-Cuts (before ++ c ∷ []) path in
    let ih' : All (Cuts (before ++ c ∷ path)) (slash_prefixes (before ++ c ∷ []) path) =
      rw (append_assoc before (c ∷ []) path) at ih in
    elim (Bool-cases (c == slash)) [
      | inl s ↦ rw (slash_prefixes, s) (cut_at before c path s, ih')
      | inr n ↦ rw (slash_prefixes, n) ih'
    ]

reverse_onto-All :
    (A : Bytes → Type 0) (xs done : List Bytes)
    → All A xs
    → All A done
    → All A (reverse_onto xs done)
reverse_onto-All A [] done h k = k
reverse_onto-All A (x ∷ xs) done h k = reverse_onto-All A xs (x ∷ done) h.1 (h.0, k)

pub longest_first-Cuts : (path : Bytes) → All (Cuts path) (reverse_onto (slash_prefixes [] path) [])
longest_first-Cuts path =
    reverse_onto-All (Cuts path) (slash_prefixes [] path) [] (slash_prefixes-Cuts [] path) tt
