-- ===== src/Vfs/Tests.antt =====
-- A small tree, built and walked.
use fuse_nx.Prelude.{Option, none, some, ℕ, ◌≡◌, refl, Bool, true, false, List, [], ◌∷◌, ◌++◌}
use fuse_nx.Io
use fuse_nx.Keyset.Text.{codes}
use fuse_nx.Romfs.Types.{Run, ok, ◌>>=◌}
use fuse_nx.Vfs.Path.{join}
use fuse_nx.Vfs.Tree.{FileSystem, get_folder, find_folder, process_dir}
use fuse_nx.Vfs.Walk.{Callback, walk}
use fuse_nx.Vfs.Resolved.{find_folder-Resolves, next, lost}
use fuse_nx.Vfs.Visited.{
  Visits, walk-replay, folder, file, one_file, no_file, one_folder, no_folder,
}
use fuse_nx.Vfs.Toy.{toy, tree}

abbrev log : Callback (List (List ℕ))
log path paths = (false, paths ++ (path ∷ []))

abbrev logged : Run (Bool × List (List ℕ) × FileSystem ℕ (Unit {0})) → List (List ℕ)
logged (ok (stop, paths, s)) = paths
logged _ = []

walk-tree :
    logged (process_dir toy (codes "/") tree >>= λ r. walk toy log log 5 (codes "/") [] r.1)
    ≡ codes "/d" ∷ codes "/d/f" ∷ codes "/d.x" ∷ codes "/g" ∷ []
unfolding walk process_dir
walk-tree = refl

-- A tree with one folder, and a file in it and one beside it, looked into.
abbrev looked_into : FileSystem ℕ (Unit {0})
looked_into = record {
  keep_raw = true;
  files = (codes "/d/f", 0) ∷ (codes "/g", 1) ∷ [];
  folders = (codes "/", 0) ∷ (codes "/d", 1) ∷ [];
  file_nodes =
      record { name = codes "f"; base = Io.file 0 0 }
      ∷ record { name = codes "g"; base = Io.file 0 7 }
      ∷ [];
  folder_nodes =
      record { name = []; processed = true; base = none; files = 1 ∷ []; children = 1 ∷ [] }
      ∷ record { name = codes "d"; processed = true; base = none; files = 0 ∷ []; children = [] }
      ∷ [];
  world = tt;
}

-- The folder, its file, and then the file beside it, where the walk stops if it is to.
abbrev stop_at_file : Callback (List (List ℕ))
stop_at_file path paths = (true, paths ++ (path ∷ []))

looked_into-Visits :
    Visits looked_into 3
      (codes "/")
      (folder (codes "/d") ∷ file (codes "/d/f") ∷ file (codes "/g") ∷ [])
unfolding get_folder join
looked_into-Visits = (
  0,
  _,
  folder (codes "/d") ∷ file (codes "/d/f") ∷ [],
  file (codes "/g") ∷ [],
  refl,
  refl,
  one_folder {j = 1} refl refl refl refl
      (1, _, [], file (codes "/d/f") ∷ [], refl, refl, no_folder, one_file refl no_file, refl)
      no_folder,
  one_file refl no_file,
  refl,
)

walk-replay_example :
    walk toy log stop_at_file 3 (codes "/") [] looked_into
    ≡ ok (true, codes "/d" ∷ codes "/d/f" ∷ [], looked_into)
walk-replay_example =
    walk-replay log stop_at_file toy looked_into 3 (codes "/")
      (folder (codes "/d") ∷ file (codes "/d/f") ∷ file (codes "/g") ∷ []) [] looked_into-Visits

-- A folder that is there on the way to one that is not.
find_folder-Resolves_example : find_folder toy (codes "/d/x") looked_into ≡ ok (none, looked_into)
unfolding get_folder
find_folder-Resolves_example =
    find_folder-Resolves toy looked_into 0 (codes "d" ∷ codes "x" ∷ []) none
      (record { folder = _; registered = refl; there = refl; looked = refl }) (λ e. cc)
      (refl, (refl, tt))
      (next {j = 1} (record { folder = _; registered = refl; there = refl; looked = refl })
        (lost refl))

-- A separator at the end of a path hides the folder.
abbrev was_found : Run (Option ℕ × FileSystem ℕ (Unit {0})) → Option ℕ
was_found (ok (found, s)) = found
was_found _ = none

find_with_slash : was_found (find_folder toy (codes "/d/") tree) ≡ none
unfolding find_folder
find_with_slash = refl

find_without_slash : was_found (find_folder toy (codes "/d") tree) ≡ some 1
unfolding find_folder
find_without_slash = refl
