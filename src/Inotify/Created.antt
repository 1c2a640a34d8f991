-- ===== src/Inotify/Created.antt =====
-- src/linux/InotifyBackend.cc: `addCreatedTree`. The answers of the filesystem are a parameter: they
-- do not change while one event is handled, and neither does `isCancelled`.
use native_watcher.Base.{
  ℕ, zero, suc, ◌+◌, Bool, true, false, not, ◌&&◌, ◌||◌, Option, none, some, List, [], ◌∷◌, ◌++◌,
  Bytes, ◌==◌, if◌then◌else◌, has_value, codes, slash, bytes_eq,
}
use native_watcher.Event.{entry_kind, create}
use native_watcher.DirTree.{DirTree, find_entry, add, remove_path}
use native_watcher.Inotify.{watch_dir, remove_subscriptions}
use native_watcher.Inotify.Session.{Session, change, report}

-- A system call returns a value or sets `errno`.
pub data Reply (A : Type 0) : Type 0 where
  done : A → Reply A
  failed : ℕ → Reply A

pub data FileType : Type 0 where
  regular folder special : FileType

pub record Stat : Type 0 where
  pub type : FileType
  pub mtime : ℕ

-- What `opendir` gives: the names that `readdir` returns, and `fstat` of the directory.
pub record Listing : Type 0 where
  pub names : List Bytes
  pub mtime : Reply ℕ

pub record Files : Type 0 where
  pub lstat : Bytes → Option Stat
  pub open_dir : Bytes → Reply Listing
  pub add_watch : Bytes → Reply ℕ

-- A watcher as the backend asks about it.
pub record Rules : Type 0 where
  pub dir : ℕ → Bytes
  pub is_ignored : ℕ → Bytes → Bool
  pub has_ignores : ℕ → Bool
  pub is_cancelled : ℕ → Bool

abbrev pub enoent : ℕ
enoent = 2

abbrev pub enotdir : ℕ
enotdir = 20

abbrev pub is_gone : ℕ → Bool
is_gone errno = errno == enoent || errno == enotdir

abbrev pub is_folder : FileType → Bool
is_folder folder = true
is_folder regular = false
is_folder special = false

abbrev pub is_special : FileType → Bool
is_special special = true
is_special regular = false
is_special folder = false

abbrev pub on_tree : ℕ → (DirTree → DirTree) → Session → Session
on_tree tree f s = record s { trees = change tree f s.trees }

abbrev pub child : Bytes → Bytes → Bytes
child path name = path ++ slash ∷ name

abbrev pub is_dots : Bytes → Bool
is_dots name = bytes_eq name (codes ".") || bytes_eq name (codes "..")

-- Where the loop over the names ends: it stops when the watcher is cancelled.
pub data Scan : Type 0 where
  stopped : Session → Scan
  scanned : Session → List Bytes → Scan

module _ (rules : Rules) (files : Files) where
  -- `watchDir` with the call of `inotify_add_watch`.
  unfoldable pub watch : ℕ → Bytes → ℕ → Session → Session × Reply Unit
  watch watcher path tree s = elim (files.add_watch path) [
    | failed errno ↦ (s, failed errno)
    | done wd ↦ (
      record s {
        inotify = (watch_dir (some wd) s.next_id watcher path tree s.inotify).0;
        next_id = s.next_id + 1;
      },
      done tt,
    )
  ]

  module _ (watcher tree : ℕ) (report_events : Bool) where
    abbrev pub cancelled : Bool
    cancelled = not report_events && rules.is_cancelled watcher

    -- An entry that is not in the tree yet, and its event.
    unfoldable pub note_found : Bytes → ℕ → Bool → Session → Session
    note_found candidate mtime is_directory s =
        if has_value (find_entry candidate (s.trees tree))
        then s
        else (let added = on_tree tree (add candidate mtime is_directory) s in
            if report_events
            then report watcher (create candidate (entry_kind is_directory)) added
            else added)

    -- The loop over `readdir`; the last argument is `subdirectories`.
    unfoldable pub scan : Bytes → List Bytes → Session → List Bytes → Scan
    scan path [] s found = scanned s found
    scan path (name ∷ names) s found = elim cancelled [
      | true ↦ stopped s
      | false ↦ elim (is_dots name || rules.is_ignored watcher (child path name)) [
        | true ↦ scan path names s found
        | false ↦ elim (files.lstat (child path name)) [
          | none ↦ scan path names s found
          | some st ↦ elim st.type [
            | special ↦ scan path names s found
            | regular ↦ scan path names (note_found (child path name) st.mtime false s) found
            | folder ↦
                scan path names (note_found (child path name) st.mtime true s)
                  (found ++ child path name ∷ [])
          ]
        ]
      ]
    ]

    abbrev pub Outcome : Type 0
    Outcome = Option (Session × Reply Unit)

    -- What the loop over the subdirectories does about an error.
    unfoldable pub skip_gone : Bytes → Session → Session
    skip_gone candidate s = on_tree tree (remove_path candidate) (record s {
      inotify = remove_subscriptions watcher (rules.dir watcher) candidate s.inotify;
    })

    -- The loop over the subdirectories, with the function for the call inside.
    unfoldable pub descend : (Bytes → Session → Outcome) → List Bytes → Session → Outcome
    unfolding skip_gone watch
    descend inner [] s = some (s, done tt)
    descend inner (candidate ∷ rest) s = elim cancelled [
      | true ↦ some (s, done tt)
      | false ↦
          let (s', reply) = watch watcher candidate tree s in
          elim reply [
            | failed errno ↦ elim (is_gone errno) [
              | true ↦ descend inner rest (skip_gone candidate s')
              | false ↦ some (s', failed errno)
            ]
            | done _ ↦ elim (inner candidate s') [
              | none ↦ none
              | some (s'', answer) ↦ elim answer [
                | done _ ↦ descend inner rest s''
                | failed errno ↦ elim (is_gone errno) [
                  | true ↦ descend inner rest (skip_gone candidate s'')
                  | false ↦ some (s'', failed errno)
                ]
              ]
            ]
          ]
    ]

    -- The entry of the directory itself.
    unfoldable pub note_folder : Bytes → Reply ℕ → Session → Session × Reply Unit
    note_folder path mtime s =
        if has_value (find_entry path (s.trees tree)) then (s, done tt) else elim mtime [
          | failed errno ↦ (s, failed errno)
          | done t ↦ (on_tree tree (add path t true) s, done tt)
        ]

    -- `addCreatedTree`; `none` is fuel that ran out, and each level of directories takes one.
    unfoldable pub add_created_tree : ℕ → Bytes → Session → Outcome
    unfolding scan descend note_folder note_found
    add_created_tree zero path s = none
    add_created_tree (suc fuel) path s = elim (files.open_dir path) [
      | failed errno ↦ some (s, failed errno)
      | done listing ↦
          let (s', reply) = note_folder path listing.mtime s in
          elim reply [
            | failed errno ↦ some (s', failed errno)
            | done _ ↦ elim (scan path listing.names s' []) [
              | stopped s'' ↦ some (s'', done tt)
              | scanned s'' found ↦ descend (add_created_tree fuel) found s''
            ]
          ]
    ]
