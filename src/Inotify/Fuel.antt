-- ===== src/Inotify/Fuel.antt =====
-- src/linux/InotifyBackend.cc: the recursion of `addCreatedTree` ends, and so does every handler.
use native_watcher.Base.{
  ℕ, zero, suc, ◌+◌, ◌≤◌, ◌<◌, ◌≡◌, refl, sym, ◌∙◌, Bool, true, false, ◌||◌, Option, List, [], ◌∷◌,
  ◌++◌, Bytes, if◌then◌else◌, arith, Bool-cases, Option-cases, inl, inr, length, length-append,
  slash, has_value, All, ltb,
}
use native_watcher.Inotify.Session.{Session}
use native_watcher.Inotify.Created.{
  Rules, Files, Listing, Reply, done, failed, Scan, stopped, scanned, watch, note_found, scan,
  skip_gone, descend, note_folder, add_created_tree, cancelled, is_dots, child, is_gone,
}
use native_watcher.Inotify.Keeps.{Reply-cases, FileType-cases, Scan-cases}

-- PATH_MAX of Linux.
abbrev pub path_max : ℕ
path_max = 4096

-- `opendir` refuses a path of PATH_MAX bytes or more with ENAMETOOLONG.
abbrev pub RefusesLongPaths : Files → Type 0
RefusesLongPaths files =
    (path : Bytes) → path_max ≤ length path → (errno : ℕ) × (files.open_dir path ≡ failed errno)

abbrev pub Ends {ℓ} : {A : Type ℓ} → Option A → Type 0
Ends o = has_value o ≡ true

pub if-Ends : {A : Type 0} (b : Bool) (x y : Option A) → Ends x → Ends y → Ends (if b then x else y)
if-Ends true x y h k = h
if-Ends false x y h k = k

-- Paths that are longer than this.
abbrev pub Longer : ℕ → List Bytes → Type 0
Longer n paths = All (λ p. n < length p) paths

Longer-append : (n : ℕ) (xs ys : List Bytes) → Longer n xs → Longer n ys → Longer n (xs ++ ys)
Longer-append n [] ys h k = k
Longer-append n (x ∷ xs) ys h k = (h.0, Longer-append n xs ys h.1 k)

abbrev pub ScanLonger : ℕ → Scan → Type 0
ScanLonger n (stopped s) = Unit
ScanLonger n (scanned s found) = Longer n found

done≢failed : {A : Type 0} (a : A) (errno : ℕ) → ¬ (◌≡◌ {A = Reply A} (done a) (failed errno))
done≢failed a errno e = cc

module _ (rules : Rules) (files : Files) where
  module _ (watcher tree : ℕ) (report_events : Bool) where
    scan-ScanLonger :
        (path : Bytes) (names : List Bytes) (s : Session) (found : List Bytes)
        → Longer (length path) found
        → ScanLonger (length path) (scan rules files watcher tree report_events path names s found)
    unfolding scan
    scan-ScanLonger path [] s found c = c
    scan-ScanLonger path (name ∷ names) s found c =
        elim (Bool-cases (cancelled rules files watcher tree report_events)) [
          | inl stop ↦ rw (scan, stop) tt
          | inr on ↦
              elim (Bool-cases (is_dots name || rules.is_ignored watcher (child path name))) [
                | inl skip ↦ rw (scan, on, skip) (scan-ScanLonger path names s found c)
                | inr see ↦ elim (Option-cases (files.lstat (child path name))) [
                  | inl gone ↦ rw (scan, on, see, gone) (scan-ScanLonger path names s found c)
                  | inr (st, here) ↦ elim (FileType-cases st.type) [
                    | inl t ↦ rw (scan, on, see, here, t) (scan-ScanLonger path names s found c)
                    | inr (inl t) ↦
                        rw (scan, on, see, here, t)
                          (scan-ScanLonger path names
                            (note_found rules files watcher tree report_events (child path name)
                              st.mtime false s)
                            found c)
                    | inr (inr t) ↦
                        rw (scan, on, see, here, t)
                          (scan-ScanLonger path names
                            (note_found rules files watcher tree report_events (child path name)
                              st.mtime true s)
                            (found ++ child path name ∷ [])
                            (Longer-append (length path) found (child path name ∷ []) c
                              (omega (arith, length-append path (slash ∷ name)), tt)))
                  ]
                ]
              ]
        ]

    descend-Ends :
        (inner : Bytes → Session → Option (Session × Reply Unit)) (n : ℕ)
        → ((path : Bytes) (s : Session) → n < length path → Ends (inner path s))
        → (found : List Bytes) (s : Session) → Longer n found
        → Ends (descend rules files watcher tree report_events inner found s)
    unfolding descend
    descend-Ends inner n h [] s l = refl
    descend-Ends inner n h (candidate ∷ rest) s l =
        let s' = (watch rules files watcher candidate tree s).0 in
        elim (Bool-cases (cancelled rules files watcher tree report_events)) [
          | inl stop ↦ rw (descend, stop) refl
          | inr on ↦ elim (Reply-cases (watch rules files watcher candidate tree s).1) [
            | inr (errno, e) ↦ elim (Bool-cases (is_gone errno)) [
              | inl g ↦
                  rw (descend, on, e, g)
                    (descend-Ends inner n h rest
                      (skip_gone rules files watcher tree report_events candidate s') l.1)
              | inr g ↦ rw (descend, on, e, g) refl
            ]
            | inl (u, e) ↦
                let ends : Ends (inner candidate s') = h candidate s' l.0 in
                elim (Option-cases (inner candidate s')) [
                  | inl nothing ↦ absurd (ground (arith, ends, nothing))
                  | inr ((s'', answer), r) ↦ elim (Reply-cases answer) [
                    | inl (v, a) ↦ rw (descend, on, e, r, a) (descend-Ends inner n h rest s'' l.1)
                    | inr (errno, a) ↦ elim (Bool-cases (is_gone errno)) [
                      | inl g ↦
                          rw (descend, on, e, r, a, g)
                            (descend-Ends inner n h rest
                              (skip_gone rules files watcher tree report_events candidate s'') l.1)
                      | inr g ↦ rw (descend, on, e, r, a, g) refl
                    ]
                  ]
                ]
          ]
        ]

    opened_short :
        RefusesLongPaths files
        → (path : Bytes) (listing : Listing) → files.open_dir path ≡ done listing
        → length path < path_max
    opened_short long path listing e = elim (Bool-cases (ltb (length path) path_max)) [
      | inl lt ↦ ground arith
      | inr ge ↦
          let (errno, f) = long path (ground arith) in
          absurd (done≢failed listing errno (sym e ∙ f))
    ]

    -- Each level of the recursion has a longer path, and a path of PATH_MAX bytes is not opened.
    pub add_created_tree-Ends :
        RefusesLongPaths files
        → (fuel : ℕ) (path : Bytes) (s : Session) → 0 < fuel
        → path_max < length path + fuel
        → Ends (add_created_tree rules files watcher tree report_events fuel path s)
    unfolding add_created_tree
    add_created_tree-Ends long zero path s pos lt = absurd (omega arith)
    add_created_tree-Ends long (suc fuel) path s pos lt = elim (Reply-cases (files.open_dir path)) [
      | inr (errno, e) ↦ rw (add_created_tree, e) refl
      | inl (listing, e) ↦
          let noted = note_folder rules files watcher tree report_events path listing.mtime s in
          let longer = scan-ScanLonger path listing.names noted.0 [] tt in
          let short : length path < path_max = opened_short long path listing e in
          elim (Reply-cases noted.1) [
            | inr (errno, f) ↦ rw (add_created_tree, e, f) refl
            | inl (u, f) ↦
                elim (Scan-cases
                  (scan rules files watcher tree report_events path listing.names noted.0 [])) [
                    | inl (s'', g) ↦ rw (add_created_tree, e, f, g) refl
                    | inr (s'', found, g) ↦
                        let l : Longer (length path) found = rw g at longer in
                        rw (add_created_tree, e, f, g)
                          (descend-Ends
                            (add_created_tree rules files watcher tree report_events fuel)
                            (length path)
                            (λ p t lp.
                              add_created_tree-Ends long fuel p t (omega arith) (omega arith))
                            found s'' l)
                  ]
          ]
    ]
