-- ===== src/Glob/Masks.antt =====
-- src/Glob.cc: the masks and the first state that `Glob::Glob` fills in agree with the parts, and no
-- two `**` stand side by side.
use native_watcher.Base.{
  ℕ, zero, suc, ◌+◌, ◌<◌, ◌≡◌, refl, ap, sym, ◌∙◌, Bool, true, false, not, ◌&&◌, ◌||◌, none, some,
  List, [], ◌∷◌, arith, Bytes, bytes_eq, ltb, ◌==◌, length, get_elem?, Bool-cases, inl, inr,
}
use native_watcher.Glob.Text.{components}
use native_watcher.Glob.Component.{GlobComponent, compile_component, double_star_text}
use native_watcher.Glob.Word.{
  Word, width, bit, one_shifted, or_word, and_word, shift_left, bit-one_shifted, bit-or_word,
  bit-zeros, length-zeros, length-one_shifted, length-or_word,
}
use native_watcher.Glob.Automaton.{
  Glob, compile_parts, fill_masks, word_zero, word_one, with_masks, new_glob, non_empty,
}

abbrev pub part_at : (GlobComponent → Bool) → List GlobComponent → ℕ → Bool
part_at f parts i = elim (get_elem? parts i) [ none ↦ false | some part ↦ f part ]

abbrev pub double_at : List GlobComponent → ℕ → Bool
double_at = part_at (λ part. part.is_double_star)

abbrev pub plain_at : List GlobComponent → ℕ → Bool
plain_at = part_at (λ part. not part.is_double_star)

-- No `**` behind a `**`.
abbrev pub Apart : List GlobComponent → Type 0
Apart parts = (i : ℕ) → double_at parts i ≡ true → double_at parts (suc i) ≡ false

pub record WellMasked (g : Glob) : Type 0 where
  pub few : length g.parts < 63
  pub some_parts : 0 < length g.parts
  pub sized_double : length g.double_star_mask ≡ width
  pub sized_active : length g.active_mask ≡ width
  pub doubles : (j : ℕ) → j < width → bit g.double_star_mask j ≡ double_at g.parts j
  pub actives : (j : ℕ) → j < width → bit g.active_mask j ≡ plain_at g.parts j
  pub apart : Apart g.parts
  pub initial :
      g.initial_state ≡ or_word word_one (shift_left (and_word word_one g.double_star_mask))
  pub accept : g.accept_bit ≡ one_shifted width (length g.parts)

is_double_star_compiled :
    (part : Bytes) → (compile_component part).is_double_star ≡ bytes_eq part double_star_text
unfolding compile_component
is_double_star_compiled part = refl

compile_parts_head : (comps : List Bytes) → double_at (compile_parts true comps) 0 ≡ false
unfolding compile_parts
compile_parts_head [] = refl
compile_parts_head (part ∷ comps) = elim (Bool-cases (bytes_eq part double_star_text)) [
  | inl d ↦ rw d (compile_parts_head comps)
  | inr d ↦ rw (d, is_double_star_compiled) d
]

Apart-cons :
    (part : GlobComponent) (parts : List GlobComponent)
    → (part.is_double_star ≡ true → double_at parts 0 ≡ false)
    → Apart parts
    → Apart (part ∷ parts)
Apart-cons part parts h a zero d = h d
Apart-cons part parts h a (suc i) d = a i d

compile_parts-Apart : (b : Bool) (comps : List Bytes) → Apart (compile_parts b comps)
unfolding compile_parts
compile_parts-Apart b [] = λ i d. refl
compile_parts-Apart b (part ∷ comps) = elim (Bool-cases (bytes_eq part double_star_text && b)) [
  | inl d ↦ rw d (compile_parts-Apart (bytes_eq part double_star_text) comps)
  | inr d ↦ rw d (
      Apart-cons (compile_component part) _
        (λ e. rw (sym (is_double_star_compiled part) ∙ e) (compile_parts_head comps))
        (compile_parts-Apart (bytes_eq part double_star_text) comps))
]

-- Whether a part from index `i` on is at `j` and passes a test.
set_from : (GlobComponent → Bool) → ℕ → List GlobComponent → ℕ → Bool
set_from f i [] j = false
set_from f i (part ∷ parts) j = (j == i && f part) || set_from f (suc i) parts j

set_from_below :
    (f : GlobComponent → Bool) (i : ℕ) (parts : List GlobComponent) (j : ℕ)
    → j < i
    → set_from f i parts j ≡ false
unfolding set_from
set_from_below f i [] j h = refl
set_from_below f i (part ∷ parts) j h = ground (arith, set_from_below f (suc i) parts j)

set_from_at :
    (f : GlobComponent → Bool) (i : ℕ) (parts : List GlobComponent) (k j : ℕ)
    → j ≡ i + k
    → set_from f i parts j ≡ part_at f parts k
unfolding set_from
set_from_at f i [] k j e = refl
set_from_at f i (part ∷ parts) zero j e = ground (arith, set_from_below f (suc i) parts j)
set_from_at f i (part ∷ parts) (suc k) j e =
    ground (arith, set_from_at f (suc i) parts k j (omega arith))

-- The two masks after the loop, below the width of a word.
record Filled (i : ℕ) (parts : List GlobComponent) (double active : Word) (r : Word × Word)
    : Type 0 where
  pub sized_double : length r.0 ≡ width
  pub sized_active : length r.1 ≡ width
  pub doubles :
      (j : ℕ)
      → j < width
      → bit r.0 j ≡ (bit double j || set_from (λ part. part.is_double_star) i parts j)
  pub actives :
      (j : ℕ)
      → j < width
      → bit r.1 j ≡ (bit active j || set_from (λ part. not part.is_double_star) i parts j)

fill_masks-Filled :
    (i : ℕ) (parts : List GlobComponent) (double active : Word)
    → length double ≡ width
    → length active ≡ width
    → Filled i parts double active (fill_masks i parts double active)
unfolding fill_masks set_from
fill_masks-Filled i [] double active ld la = record {
  sized_double = ld;
  sized_active = la;
  doubles = λ j h. ground arith;
  actives = λ j h. ground arith;
}
fill_masks-Filled i (part ∷ parts) double active ld la = elim (Bool-cases part.is_double_star) [
  | inl d ↦
      let rest =
        fill_masks-Filled (suc i) parts (or_word double (one_shifted width i)) active
          (length-or_word double _ width ld (length-one_shifted width i)) la in
      rw (fill_masks, d)
        (record {
          sized_double = rest.sized_double;
          sized_active = rest.sized_active;
          doubles = λ j h. ground (
            arith,
            rest.doubles j h,
            bit-or_word double (one_shifted width i) j,
            bit-one_shifted width i j,
          );
          actives = λ j h. ground (arith, rest.actives j h);
        })
  | inr d ↦
      let rest =
        fill_masks-Filled (suc i) parts double (or_word active (one_shifted width i)) ld
          (length-or_word active _ width la (length-one_shifted width i)) in
      rw (fill_masks, d)
        (record {
          sized_double = rest.sized_double;
          sized_active = rest.sized_active;
          doubles = λ j h. ground (arith, rest.doubles j h);
          actives = λ j h. ground (
            arith,
            rest.actives j h,
            bit-or_word active (one_shifted width i) j,
            bit-one_shifted width i j,
          );
        })
]

filled_at :
    (f : GlobComponent → Bool) (parts : List GlobComponent) (j : ℕ)
    → (bit word_zero j || set_from f 0 parts j) ≡ part_at f parts j
filled_at f parts j =
    ap (λ b. b || set_from f 0 parts j) (bit-zeros width j)
    ∙ set_from_at f 0 parts j j (omega arith)

some_of_non_empty : (parts : List GlobComponent) → non_empty parts ≡ true → 0 < length parts
some_of_non_empty [] h = cc
some_of_non_empty (part ∷ parts) h = omega arith

with_masks-WellMasked :
    (raw : Bytes) (comps : List Bytes) (parts : List GlobComponent)
    → Apart parts
    → (with_masks raw comps parts).use_bitmask ≡ true
    → WellMasked (with_masks raw comps parts)
unfolding with_masks
with_masks-WellMasked raw comps parts a u =
    elim (Bool-cases (non_empty parts && ltb (length parts) 63)) [
      | inl fits ↦
          let f =
            fill_masks-Filled 0 parts word_zero word_zero (length-zeros width)
              (length-zeros width) in
          rw (with_masks, fits)
            (record {
              few = ground arith;
              some_parts = some_of_non_empty parts (ground arith);
              sized_double = f.sized_double;
              sized_active = f.sized_active;
              doubles = λ j h. f.doubles j h ∙ filled_at _ parts j;
              actives = λ j h. f.actives j h ∙ filled_at _ parts j;
              apart = a;
              initial = refl;
              accept = refl;
            })
      | inr large ↦ absurd (ground arith)
    ]

-- Every glob that uses the bitmask has masks that fit its parts.
pub new_glob-WellMasked :
    (raw : Bytes) → (new_glob raw).use_bitmask ≡ true → WellMasked (new_glob raw)
unfolding new_glob
new_glob-WellMasked raw u =
    let comps = components raw in
    with_masks-WellMasked raw comps (compile_parts false comps) (compile_parts-Apart false comps) u
