-- ===== src/IdentityIndex/Agreement.antt =====
-- src/macos/IdentityIndex.cc: the two maps of the index say the same.
use native_watcher.Base.{
  ◌≡◌, refl, ap, sym, ◌∙◌, Bool, true, false, not, ◌&&◌, ◌||◌, Option, none, some, List, [], ◌∷◌,
  Bytes, Bytes-discrete, bytes_eq, if◌then◌else◌, arith, find, assign, find-erase, find-assign,
  find-emplace, eq_of_bytes_eq, bytes_eq-ne, bytes_eq_refl, Option-cases, inl, inr,
}
use native_watcher.IdentityIndex.{
  FileIdentity, FileIdentity-discrete, same_identity, IndexedPath, IdentityIndex, has_path,
  insert_path, erase_path, or_empty, paths_of, find_indexed, is_nil, erase_identity, remove_exact,
  add_indexed, is_exact_file, paths_below, remove_each, remove_indexed, moved_below, add_each,
  rename_all, rename_file, rename_indexed,
}

abbrev pub has_identity : FileIdentity → Option IndexedPath → Bool
has_identity i none = false
has_identity i (some e) = same_identity e.identity i

-- A path is in the set of an identity exactly if the path is indexed with that identity.
abbrev pub Agrees : IdentityIndex → Type 0
Agrees x =
    (i : FileIdentity) (p : Bytes) → has_path p (paths_of i x) ≡ has_identity i (find_indexed p x)

has_path-erase_path :
    (p q : Bytes) (ps : List Bytes)
    → has_path q (erase_path p ps) ≡ (has_path q ps && not (bytes_eq p q))
unfolding has_path erase_path
has_path-erase_path p q [] = refl
has_path-erase_path p q (r ∷ ps) = ground (
  arith,
  has_path-erase_path p q ps,
  eq_of_bytes_eq r p,
  eq_of_bytes_eq r q,
  eq_of_bytes_eq p q,
  bytes_eq_refl p,
  bytes_eq_refl q,
  bytes_eq_refl r,
)

has_path_same :
    (p q : Bytes) (ps : List Bytes)
    → has_path p ps ≡ true
    → bytes_eq p q ≡ true
    → has_path q ps ≡ true
has_path_same p q ps h e = ap (λ x. has_path x ps) (sym (eq_of_bytes_eq p q e)) ∙ h

has_path-insert_path :
    (p q : Bytes) (ps : List Bytes)
    → has_path q (insert_path p ps) ≡ (bytes_eq p q || has_path q ps)
unfolding insert_path has_path
has_path-insert_path p q ps = ground (arith, has_path_same p q ps)

nil_no_path : (q : Bytes) (ps : List Bytes) → is_nil ps ≡ true → has_path q ps ≡ false
unfolding has_path
nil_no_path q [] h = refl
nil_no_path q (p ∷ ps) h = cc

paths-erase_identity :
    (p q : Bytes) (i j : FileIdentity) (m : List (FileIdentity × List Bytes))
    → has_path q (or_empty (find FileIdentity-discrete j (erase_identity p i m))) ≡ (
        has_path q (or_empty (find FileIdentity-discrete j m))
        && not (same_identity i j && bytes_eq p q))
unfolding erase_identity has_path
paths-erase_identity p q i j m = elim (Option-cases (find FileIdentity-discrete i m)) [
  | inl n ↦
      rw (erase_identity, n)
        (ground
          (arith, n, λ (e : i ≡ j). ap (λ (x : FileIdentity). find FileIdentity-discrete x m) e))
  | inr (ps, s) ↦
      rw (erase_identity, s)
        (ground (
          arith,
          s,
          (λ (e : i ≡ j). ap (λ (x : FileIdentity). find FileIdentity-discrete x m) e),
          find-erase FileIdentity-discrete i j m,
          find-assign FileIdentity-discrete i j (erase_path p ps) m,
          has_path-erase_path p q ps,
          nil_no_path q (erase_path p ps),
        ))
]

paths-insert :
    (p q : Bytes) (i j : FileIdentity) (m : List (FileIdentity × List Bytes))
    → has_path q (
        or_empty (
          find FileIdentity-discrete j (
            assign FileIdentity-discrete i
              (insert_path p (or_empty (find FileIdentity-discrete i m)))
              m)))
      ≡ (has_path q (or_empty (find FileIdentity-discrete j m))
          || (same_identity i j && bytes_eq p q))
paths-insert p q i j m =
    let ps = or_empty (find FileIdentity-discrete i m) in
    ground (
      arith,
      (λ (e : i ≡ j). ap (λ (x : FileIdentity). find FileIdentity-discrete x m) e),
      find-assign FileIdentity-discrete i j (insert_path p ps) m,
      has_path-insert_path p q ps,
    )

pub remove_exact-Agrees : (p : Bytes) (x : IdentityIndex) → Agrees x → Agrees (remove_exact p x)
unfolding paths_of remove_exact
remove_exact-Agrees p x a i q = elim (Option-cases (find_indexed p x)) [
  | inl n ↦ rw (remove_exact, n) (a i q)
  | inr (e, s) ↦
      rw (remove_exact, s)
        (ground (
          arith,
          s,
          a i q,
          paths-erase_identity p q e.identity i x.by_identity,
          find-erase Bytes-discrete p q x.by_path,
          eq_of_bytes_eq p q,
          bytes_eq-ne p q,
          (λ (h : p ≡ q). ap (λ (y : Bytes). find Bytes-discrete y x.by_path) h),
        ))
]

-- The exact path is not indexed any more.
pub find-remove_exact : (p : Bytes) (x : IdentityIndex) → find_indexed p (remove_exact p x) ≡ none
unfolding remove_exact
find-remove_exact p x = elim (Option-cases (find_indexed p x)) [
  | inl n ↦ rw (remove_exact, n) n
  | inr (e, s) ↦ rw (remove_exact, s) (ground (arith, find-erase Bytes-discrete p p x.by_path))
]

pub add_indexed-Agrees :
    (p : Bytes) (e : IndexedPath) (x : IdentityIndex) → Agrees x → Agrees (add_indexed p e x)
unfolding paths_of add_indexed
add_indexed-Agrees p e x a i q =
    let y = remove_exact p x in
    let b : has_path q (paths_of i y) ≡ has_identity i (find_indexed q y) =
      remove_exact-Agrees p x a i q in
    ground (
      arith,
      b,
      paths-insert p q e.identity i y.by_identity,
      find-emplace Bytes-discrete p q e y.by_path,
      find-remove_exact p x,
      eq_of_bytes_eq p q,
      bytes_eq-ne p q,
      (λ (h : p ≡ q). ap (λ (z : Bytes). find Bytes-discrete z y.by_path) h),
    )

remove_each-Agrees : (ps : List Bytes) (x : IdentityIndex) → Agrees x → Agrees (remove_each ps x)
unfolding remove_each
remove_each-Agrees [] x a = a
remove_each-Agrees (p ∷ ps) x a =
    remove_each-Agrees ps (remove_exact p x) (remove_exact-Agrees p x a)

pub add_each-Agrees :
    (es : List (Bytes × IndexedPath)) (x : IdentityIndex) → Agrees x → Agrees (add_each es x)
unfolding add_each
add_each-Agrees [] x a = a
add_each-Agrees ((p, e) ∷ es) x a =
    add_each-Agrees es (add_indexed p e x) (add_indexed-Agrees p e x a)

if-Agrees : (b : Bool) (x y : IdentityIndex) → Agrees x → Agrees y → Agrees (if b then x else y)
if-Agrees true x y h k = h
if-Agrees false x y h k = k

pub remove_indexed-Agrees : (p : Bytes) (x : IdentityIndex) → Agrees x → Agrees (remove_indexed p x)
unfolding remove_indexed
remove_indexed-Agrees p x a =
    if-Agrees (is_exact_file (find_indexed p x)) (remove_exact p x)
      (remove_each (paths_below p x.by_path) x) (remove_exact-Agrees p x a)
      (remove_each-Agrees (paths_below p x.by_path) x a)

rename_file-Agrees :
    (old new : Bytes) (o : Option IndexedPath) (x : IdentityIndex)
    → Agrees x
    → Agrees (rename_file old new o x)
rename_file-Agrees old new none x a = a
rename_file-Agrees old new (some e) x a =
    add_indexed-Agrees new e (remove_exact old x) (remove_exact-Agrees old x a)

-- The calls that change an index.
pub data IndexCall : Type 0 where
  add_call : Bytes → IndexedPath → IndexCall
  remove_call : Bytes → IndexCall
  rename_call : Bytes → Bytes → IndexCall

abbrev pub run_call : IndexCall → IdentityIndex → IdentityIndex
run_call (add_call p e) x = add_indexed p e x
run_call (remove_call p) x = remove_indexed p x
run_call (rename_call old new) x = rename_indexed old new x

pub run_call-Agrees : (c : IndexCall) (x : IdentityIndex) → Agrees x → Agrees (run_call c x)
unfolding rename_indexed rename_all
run_call-Agrees (add_call p e) x a = add_indexed-Agrees p e x a
run_call-Agrees (remove_call p) x a = remove_indexed-Agrees p x a
run_call-Agrees (rename_call old new) x a =
    if-Agrees (is_exact_file (find_indexed old x)) (rename_file old new (find_indexed old x) x)
      (rename_all old new x) (rename_file-Agrees old new (find_indexed old x) x a)
      (add_each-Agrees (moved_below old new x.by_path) (remove_indexed old x)
        (remove_indexed-Agrees old x a))

unfoldable pub run_calls : List IndexCall → IdentityIndex → IdentityIndex
run_calls [] x = x
run_calls (c ∷ cs) x = run_calls cs (run_call c x)

abbrev pub empty_index : IdentityIndex
empty_index = record { by_path = []; by_identity = [] }

run_calls-kept : (cs : List IndexCall) (x : IdentityIndex) → Agrees x → Agrees (run_calls cs x)
unfolding run_calls
run_calls-kept [] x a = a
run_calls-kept (c ∷ cs) x a = run_calls-kept cs (run_call c x) (run_call-Agrees c x a)

pub empty-Agrees : Agrees empty_index
unfolding paths_of has_path find
empty-Agrees i p = refl

-- After any calls on an empty index, a path is in the set of an identity exactly if the index finds
-- it with that identity.
pub run_calls-Agrees : (cs : List IndexCall) → Agrees (run_calls cs empty_index)
run_calls-Agrees cs = run_calls-kept cs empty_index empty-Agrees
