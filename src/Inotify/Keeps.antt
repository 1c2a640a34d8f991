-- ===== src/Inotify/Keeps.antt =====
-- src/linux/InotifyBackend.cc: handling an event keeps the watches of the kernel covered.
use native_watcher.Base.{
  ℕ, zero, suc, ◌≡◌, refl, Bool, true, false, ◌||◌, Option, none, some, List, [], ◌∷◌, ◌++◌, Bytes,
  arith, Bool-cases, Option-cases, ◌⊎◌, inl, inr,
}
use native_watcher.Inotify.Covered.{Covered, watch_dir-Covered, remove_subscriptions-Covered}
use native_watcher.Inotify.Session.{Session}
use native_watcher.Inotify.Created.{
  Rules, Files, FileType, regular, folder, special, Reply, done, failed, Scan, stopped, scanned,
  watch, note_found, scan, skip_gone, descend, note_folder, add_created_tree, cancelled, is_dots,
  child, is_gone,
}

-- A handler that comes to an end leaves the watches covered.
abbrev pub Kept {ℓ} : {A : Type ℓ} → Option (Session × A) → Type 0
Kept none = Unit
Kept (some (s, a)) = Covered s.inotify

pub Reply-cases :
    {A : Type 0} (r : Reply A) → ((a : A) × (r ≡ done a)) ⊎ ((errno : ℕ) × (r ≡ failed errno))
Reply-cases (done a) = inl (a, refl)
Reply-cases (failed errno) = inr (errno, refl)

pub FileType-cases : (t : FileType) → (t ≡ special) ⊎ (t ≡ regular) ⊎ (t ≡ folder)
FileType-cases special = inl refl
FileType-cases regular = inr (inl refl)
FileType-cases folder = inr (inr refl)

pub Scan-cases :
    (r : Scan)
    → ((s : Session) × (r ≡ stopped s))
      ⊎ ((s : Session) × (found : List Bytes) × (r ≡ scanned s found))
Scan-cases (stopped s) = inl (s, refl)
Scan-cases (scanned s found) = inr (s, found, refl)

abbrev pub ScanKept : Scan → Type 0
ScanKept (stopped s) = Covered s.inotify
ScanKept (scanned s found) = Covered s.inotify

module _ (rules : Rules) (files : Files) where
  pub watch-Covered :
      (watcher : ℕ) (path : Bytes) (tree : ℕ) (s : Session)
      → Covered s.inotify
      → Covered (watch rules files watcher path tree s).0.inotify
  unfolding watch
  watch-Covered watcher path tree s c = elim (Reply-cases (files.add_watch path)) [
    | inl (wd, e) ↦
        rw (watch, e) (watch_dir-Covered (some wd) s.next_id watcher path tree s.inotify c)
    | inr (errno, e) ↦ rw (watch, e) c
  ]

  module _ (watcher tree : ℕ) (report_events : Bool) where
    note_found-Covered :
        (candidate : Bytes) (mtime : ℕ) (is_directory : Bool) (s : Session)
        → Covered s.inotify
        → Covered
            (note_found rules files watcher tree report_events candidate mtime is_directory
              s).inotify
    unfolding note_found
    note_found-Covered candidate mtime is_directory s c = ground (arith, c)

    scan-Kept :
        (path : Bytes) (names : List Bytes) (s : Session) (found : List Bytes)
        → Covered s.inotify
        → ScanKept (scan rules files watcher tree report_events path names s found)
    unfolding scan
    scan-Kept path [] s found c = c
    scan-Kept path (name ∷ names) s found c =
        elim (Bool-cases (cancelled rules files watcher tree report_events)) [
          | inl stop ↦ rw (scan, stop) c
          | inr on ↦
              elim (Bool-cases (is_dots name || rules.is_ignored watcher (child path name))) [
                | inl skip ↦ rw (scan, on, skip) (scan-Kept path names s found c)
                | inr see ↦ elim (Option-cases (files.lstat (child path name))) [
                  | inl gone ↦ rw (scan, on, see, gone) (scan-Kept path names s found c)
                  | inr (st, here) ↦ elim (FileType-cases st.type) [
                    | inl t ↦ rw (scan, on, see, here, t) (scan-Kept path names s found c)
                    | inr (inl t) ↦
                        rw (scan, on, see, here, t)
                          (scan-Kept path names _ found
                            (note_found-Covered (child path name) st.mtime false s c))
                    | inr (inr t) ↦
                        rw (scan, on, see, here, t)
                          (scan-Kept path names _ (found ++ child path name ∷ [])
                            (note_found-Covered (child path name) st.mtime true s c))
                  ]
                ]
              ]
        ]

    skip_gone-Covered :
        (candidate : Bytes) (s : Session)
        → Covered s.inotify
        → Covered (skip_gone rules files watcher tree report_events candidate s).inotify
    unfolding skip_gone
    skip_gone-Covered candidate s c =
        remove_subscriptions-Covered watcher (rules.dir watcher) candidate s.inotify c

    descend-Kept :
        (inner : Bytes → Session → Option (Session × Reply Unit))
        → ((path : Bytes) (s : Session) → Covered s.inotify → Kept (inner path s))
        → (found : List Bytes) (s : Session) → Covered s.inotify
        → Kept (descend rules files watcher tree report_events inner found s)
    unfolding descend
    descend-Kept inner h [] s c = c
    descend-Kept inner h (candidate ∷ rest) s c =
        let s' = (watch rules files watcher candidate tree s).0 in
        let c' = watch-Covered watcher candidate tree s c in
        elim (Bool-cases (cancelled rules files watcher tree report_events)) [
          | inl stop ↦ rw (descend, stop) c
          | inr on ↦ elim (Reply-cases (watch rules files watcher candidate tree s).1) [
            | inr (errno, e) ↦ elim (Bool-cases (is_gone errno)) [
              | inl g ↦
                  rw (descend, on, e, g)
                    (descend-Kept inner h rest _ (skip_gone-Covered candidate s' c'))
              | inr g ↦ rw (descend, on, e, g) c'
            ]
            | inl (u, e) ↦
                let inside : Kept (inner candidate s') = h candidate s' c' in
                elim (Option-cases (inner candidate s')) [
                  | inl none_left ↦ rw (descend, on, e, none_left) tt
                  | inr ((s'', answer), r) ↦
                      let c'' : Covered s''.inotify = rw r at inside in
                      elim (Reply-cases answer) [
                        | inl (v, a) ↦ rw (descend, on, e, r, a) (descend-Kept inner h rest s'' c'')
                        | inr (errno, a) ↦ elim (Bool-cases (is_gone errno)) [
                          | inl g ↦
                              rw (descend, on, e, r, a, g)
                                (descend-Kept inner h rest _ (skip_gone-Covered candidate s'' c''))
                          | inr g ↦ rw (descend, on, e, r, a, g) c''
                        ]
                      ]
                ]
          ]
        ]

    note_folder-Covered :
        (path : Bytes) (mtime : Reply ℕ) (s : Session)
        → Covered s.inotify
        → Covered (note_folder rules files watcher tree report_events path mtime s).0.inotify
    unfolding note_folder
    note_folder-Covered path (done t) s c = ground (arith, c)
    note_folder-Covered path (failed errno) s c = ground (arith, c)

    pub add_created_tree-Kept :
        (fuel : ℕ) (path : Bytes) (s : Session)
        → Covered s.inotify
        → Kept (add_created_tree rules files watcher tree report_events fuel path s)
    unfolding add_created_tree
    add_created_tree-Kept zero path s c = tt
    add_created_tree-Kept (suc fuel) path s c = elim (Reply-cases (files.open_dir path)) [
      | inr (errno, e) ↦ rw (add_created_tree, e) c
      | inl (listing, e) ↦
          let noted = note_folder rules files watcher tree report_events path listing.mtime s in
          let c' : Covered noted.0.inotify = note_folder-Covered path listing.mtime s c in
          let kept = scan-Kept path listing.names noted.0 [] c' in
          elim (Reply-cases noted.1) [
            | inr (errno, f) ↦ rw (add_created_tree, e, f) c'
            | inl (u, f) ↦
                elim (Scan-cases
                  (scan rules files watcher tree report_events path listing.names noted.0 [])) [
                    | inl (s'', g) ↦
                        let c'' : Covered s''.inotify = rw g at kept in
                        rw (add_created_tree, e, f, g) c''
                    | inr (s'', found, g) ↦
                        let c'' : Covered s''.inotify = rw g at kept in
                        rw (add_created_tree, e, f, g)
                          (descend-Kept
                            (add_created_tree rules files watcher tree report_events fuel)
                            (add_created_tree-Kept fuel) found s'' c'')
                  ]
          ]
    ]
