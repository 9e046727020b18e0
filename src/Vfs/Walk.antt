-- ===== src/Vfs/Walk.antt =====
-- `FileSystem::walk`. The callbacks work on a state `T` of their own and tell whether to stop.
use fuse_nx.Prelude.{ℕ, zero, suc, Bool, true, false, List, [], ◌∷◌, get_elem?, none, some}
use fuse_nx.Romfs.Types.{Run, ok, ◌>>=◌, lift}
use fuse_nx.Vfs.Path.{join}
use fuse_nx.Vfs.Interface.{Interface}
use fuse_nx.Vfs.Tree.{FileSystem, get_folder, process_dir}

abbrev pub Callback : Type 0 → Type 0
Callback T = List ℕ → T → Bool × T

module _ {C W T : Type 0} (ops : Interface C W) (on_folder on_file : Callback T) where
  abbrev pub Visit : Type 0
  Visit = List ℕ → T → FileSystem C W → Run (Bool × T × FileSystem C W)

  -- The loop over the children, with the call that goes one level down.
  unfoldable pub walk_folders :
      Visit → List ℕ → List ℕ → T → FileSystem C W → Run (Bool × T × FileSystem C W)
  unfolding process_dir join
  walk_folders visit location [] t s = ok (false, t, s)
  walk_folders visit location (i ∷ is) t s = do
    d ← lift (get_elem? s.folder_nodes i)
    (_, s1) ← process_dir ops (join location d.name) s
    let (stop, t1) = on_folder (join location d.name) t
    elim stop [
      | true ↦ ok (true, t1, s1)
      | false ↦ do
        (stopped, t2, s2) ← visit (join location d.name) t1 s1
        elim stopped [ true ↦ ok (true, t2, s2) | false ↦ walk_folders visit location is t2 s2 ]
    ]

  unfoldable pub walk_files : List ℕ → List ℕ → T → FileSystem C W → Run (Bool × T × FileSystem C W)
  unfolding join
  walk_files location [] t s = ok (false, t, s)
  walk_files location (i ∷ is) t s = do
    f ← lift (get_elem? s.file_nodes i)
    let (stop, t1) = on_file (join location f.name) t
    elim stop [ true ↦ ok (true, t1, s) | false ↦ walk_files location is t1 s ]

  -- `walk(location, depth, …)`: a location without a folder stops the walk.
  unfoldable pub walk : ℕ → Visit
  unfolding walk_folders walk_files get_folder
  walk zero location t s = ok (false, t, s)
  walk (suc depth) location t s = elim (get_folder location s) [
    | none ↦ ok (true, t, s)
    | some id ↦ do
      dir ← lift (get_elem? s.folder_nodes id)
      (stop, t1, s1) ← walk_folders (walk depth) location dir.children t s
      elim stop [ true ↦ ok (true, t1, s1) | false ↦ walk_files location dir.files t1 s1 ]
  ]
