-- ===== src/IdentityIndex.antt =====
-- src/macos/IdentityIndex.cc and src/macos/IdentityIndex.hh: the index of the macOS backend by path
-- and by file identity. What reads the filesystem into it is in FsEvents.
pub mod Agreement
use native_watcher.Base.{
  ℕ, ◌≡◌, ap, Bool, true, false, not, ◌&&◌, ◌||◌, Option, none, some, List, [], ◌∷◌, ◌++◌, Bytes,
  Bytes-discrete, bytes_eq, ◌==◌, if◌then◌else◌, find, erase, assign, emplace, length, drop,
  has_path_prefix, ℕ_discrete,
}

pub record FileIdentity : Type 0 where
  pub device : ℕ
  pub inode : ℕ

unfoldable pub FileIdentity-discrete : Discrete FileIdentity
FileIdentity-discrete a b = elim (ℕ_discrete a.device b.device) [
  | yes p ↦ elim (ℕ_discrete a.inode b.inode) [
    | yes q ↦ yes (λ i. record { device = p i; inode = q i })
    | no n ↦ no (λ e. n (λ i. (e i).inode))
  ]
  | no n ↦ no (λ e. n (λ i. (e i).device))
]

-- `operator==`
abbrev pub same_identity : FileIdentity → FileIdentity → Bool
same_identity i j = elim (FileIdentity-discrete i j) [ yes _ ↦ true | no _ ↦ false ]

pub record IndexedPath : Type 0 where
  pub identity : FileIdentity
  pub mtime : ℕ
  pub link_count : ℕ
  pub is_directory : Bool

pub record IdentityIndex : Type 0 where
  pub by_path : List (Bytes × IndexedPath)
  pub by_identity : List (FileIdentity × List Bytes)

-- `std::unordered_set` of paths.
unfoldable pub has_path : Bytes → List Bytes → Bool
has_path p [] = false
has_path p (q ∷ ps) = bytes_eq q p || has_path p ps

unfoldable pub insert_path : Bytes → List Bytes → List Bytes
unfolding has_path
insert_path p ps = if has_path p ps then ps else p ∷ ps

unfoldable pub erase_path : Bytes → List Bytes → List Bytes
erase_path p [] = []
erase_path p (q ∷ ps) = let rest = erase_path p ps in if bytes_eq q p then rest else q ∷ rest

abbrev pub or_empty : Option (List Bytes) → List Bytes
or_empty none = []
or_empty (some ps) = ps

-- `mByIdentity[identity]`, empty where there is none.
unfoldable pub paths_of : FileIdentity → IdentityIndex → List Bytes
paths_of i x = or_empty (find FileIdentity-discrete i x.by_identity)

-- `find` and `pathCount`
abbrev pub find_indexed : Bytes → IdentityIndex → Option IndexedPath
find_indexed p x = find Bytes-discrete p x.by_path

unfoldable pub path_count : FileIdentity → IdentityIndex → ℕ
unfolding paths_of
path_count i x = length (paths_of i x)

abbrev pub is_nil : List Bytes → Bool
is_nil [] = true
is_nil (p ∷ ps) = false

-- The set of an identity without a path; a set that becomes empty is erased.
unfoldable pub erase_identity :
    Bytes → FileIdentity → List (FileIdentity × List Bytes) → List (FileIdentity × List Bytes)
unfolding erase_path
erase_identity p i m = elim (find FileIdentity-discrete i m) [
  | none ↦ m
  | some ps ↦
      if is_nil (erase_path p ps)
      then erase FileIdentity-discrete i m
      else assign FileIdentity-discrete i (erase_path p ps) m
]

unfoldable pub remove_exact : Bytes → IdentityIndex → IdentityIndex
unfolding erase_identity
remove_exact p x = elim (find_indexed p x) [
  | none ↦ x
  | some e ↦ record {
    by_path = erase Bytes-discrete p x.by_path;
    by_identity = erase_identity p e.identity x.by_identity;
  }
]

unfoldable pub add_indexed : Bytes → IndexedPath → IdentityIndex → IdentityIndex
unfolding remove_exact insert_path paths_of
add_indexed p e x =
    let cleared = remove_exact p x in
    record {
      by_path = emplace Bytes-discrete p e cleared.by_path;
      by_identity =
          assign FileIdentity-discrete e.identity (insert_path p (paths_of e.identity cleared))
            cleared.by_identity;
    }

-- A file, for which only the path itself is taken.
abbrev pub is_exact_file : Option IndexedPath → Bool
is_exact_file none = false
is_exact_file (some e) = not e.is_directory

abbrev pub is_below : Bytes → Bytes → Bool
is_below p q = bytes_eq q p || has_path_prefix q p

unfoldable pub paths_below : Bytes → List (Bytes × IndexedPath) → List Bytes
paths_below p [] = []
paths_below p ((q, e) ∷ m) = let rest = paths_below p m in if is_below p q then q ∷ rest else rest

unfoldable pub remove_each : List Bytes → IdentityIndex → IdentityIndex
unfolding remove_exact
remove_each [] x = x
remove_each (p ∷ ps) x = remove_each ps (remove_exact p x)

unfoldable pub remove_indexed : Bytes → IdentityIndex → IdentityIndex
unfolding remove_each paths_below
remove_indexed p x =
    if is_exact_file (find_indexed p x)
    then remove_exact p x
    else remove_each (paths_below p x.by_path) x

unfoldable pub moved_below : Bytes → Bytes → List (Bytes × IndexedPath) → List (Bytes × IndexedPath)
moved_below old new [] = []
moved_below old new ((q, e) ∷ m) =
    let rest = moved_below old new m in
    if is_below old q then (new ++ drop (length old) q, e) ∷ rest else rest

unfoldable pub add_each : List (Bytes × IndexedPath) → IdentityIndex → IdentityIndex
unfolding add_indexed
add_each [] x = x
add_each ((p, e) ∷ es) x = add_each es (add_indexed p e x)

unfoldable pub rename_all : Bytes → Bytes → IdentityIndex → IdentityIndex
unfolding add_each moved_below remove_indexed
rename_all old new x = add_each (moved_below old new x.by_path) (remove_indexed old x)

abbrev pub rename_file : Bytes → Bytes → Option IndexedPath → IdentityIndex → IdentityIndex
rename_file old new none x = x
rename_file old new (some e) x = add_indexed new e (remove_exact old x)

unfoldable pub rename_indexed : Bytes → Bytes → IdentityIndex → IdentityIndex
unfolding rename_all add_indexed
rename_indexed old new x =
    if is_exact_file (find_indexed old x)
    then rename_file old new (find_indexed old x) x
    else rename_all old new x
