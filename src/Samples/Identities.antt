-- ===== src/Samples/Identities.antt =====
-- src/macos/IdentityIndex.cc: a hard link, a rename of a directory, and a removal.
use native_watcher.Base.{
  Bytes-discrete, assign, emplace, erase, find, has_path_prefix, ℕ_discrete, ◌≡◌, refl, false, List,
  [], ◌∷◌, codes,
}
use native_watcher.IdentityIndex.{
  FileIdentity-discrete, remove_indexed, rename_indexed, IndexedPath, path_count,
}
use native_watcher.IdentityIndex.Agreement.{
  Agrees, IndexCall, add_call, remove_call, rename_call, run_calls, run_calls-Agrees, empty_index,
}

abbrev linked : IndexedPath
linked = record {
  identity = record { device = 1; inode = 10 };
  mtime = 5;
  link_count = 2;
  is_directory = false;
}

abbrev index_calls : List IndexCall
index_calls =
    add_call (codes "/d/a") linked
    ∷ add_call (codes "/d/b") linked
    ∷ rename_call (codes "/d") (codes "/e")
    ∷ remove_call (codes "/e/a")
    ∷ []

one_link_left : path_count linked.identity (run_calls index_calls empty_index) ≡ 1
unfolding run_calls path_count find remove_indexed rename_indexed emplace Bytes-discrete
    has_path_prefix erase assign FileIdentity-discrete ℕ_discrete
one_link_left = refl

run_calls-Agrees_example : Agrees (run_calls index_calls empty_index)
run_calls-Agrees_example = run_calls-Agrees index_calls
