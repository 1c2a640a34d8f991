-- ===== src/Samples/Trees.antt =====
-- src/DirTree.cc: a tree with a directory that is renamed and removed.
use native_watcher.Base.{
  ◌≡◌, refl, true, false, none, some, Bytes-discrete, codes, find, emplace, bytes_eq, starts_with,
}
use native_watcher.Event.{file}
use native_watcher.Event.Entries.{entry}
use native_watcher.Event.Report.{no_events}
use native_watcher.DirTree.Changes.{difference, get_changes_lem}
use native_watcher.DirTree.{
  get_changes, DirTree, new_tree, add, find_entry, rename_path, remove_path, within,
}
use native_watcher.DirTree.Shape.{Keyed, renames, run_op, run_op-Keyed}
use native_watcher.DirTree.Moves.{find-rename_path, find-remove_path}

abbrev tree : DirTree
tree =
    add (codes "/r/d") 1 true
      (add (codes "/r/d/f") 2 false (add (codes "/r/dd") 3 false (new_tree (codes "/r"))))

tree-Keyed : Keyed tree.entries
unfolding add new_tree find emplace Bytes-discrete bytes_eq
tree-Keyed = (refl, refl, (refl, refl, (refl, refl, tt)))

run_op-Keyed_example : Keyed (run_op (renames (codes "/r/d") (codes "/r/e")) tree).entries
run_op-Keyed_example = run_op-Keyed (renames (codes "/r/d") (codes "/r/e")) tree tree-Keyed

find-rename_path_example :
    find_entry (codes "/r/e/f") (rename_path (codes "/r/d") (codes "/r/e") tree)
    ≡ some (record { path = codes "/r/e/f"; mtime = 2; is_dir = false })
unfolding add new_tree within find emplace Bytes-discrete bytes_eq starts_with
find-rename_path_example =
    find-rename_path (codes "/r/d") (codes "/r/e") (codes "/r/d/f")
      (record { path = codes "/r/d/f"; mtime = 2; is_dir = false }) tree tree-Keyed refl refl

find-remove_path_example : find_entry (codes "/r/d/f") (remove_path (codes "/r/d") tree) ≡ none
unfolding add new_tree find emplace Bytes-discrete bytes_eq starts_with
find-remove_path_example = find-remove_path (codes "/r/d") (codes "/r/d/f") tree

abbrev tree_before : DirTree
tree_before = add (codes "/r/d") 1 true (add (codes "/r/x") 9 false (new_tree (codes "/r")))

before-Keyed : Keyed tree_before.entries
unfolding add new_tree find emplace Bytes-discrete bytes_eq
before-Keyed = (refl, refl, (refl, refl, tt))

get_changes_lem_example :
    entry (codes "/r/x", file) (get_changes tree tree_before no_events).events
    ≡ difference
        (codes "/r/x", file)
        (find_entry (codes "/r/x") tree)
        (find_entry (codes "/r/x") tree_before)
get_changes_lem_example =
    get_changes_lem tree tree_before (codes "/r/x", file) tree-Keyed before-Keyed
