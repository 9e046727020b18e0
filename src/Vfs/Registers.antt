-- ===== src/Vfs/Registers.antt =====
-- `process_dir` registers the nodes of a folder.
use fuse_nx.Prelude.{ℕ, ◌≡◌, refl, ◌∙◌, ap, false, List, [], ◌∷◌, get_elem?, Option, some}
use fuse_nx.Romfs.Types.{◌>>=◌}
use fuse_nx.Vfs.Path.{join}
use fuse_nx.Vfs.Interface.{Interface}
use fuse_nx.Vfs.Stops.{Allows, Allows->>=, Allows-any, Allows-lift, Allows-weaken}
use fuse_nx.Vfs.Maps.{try_emplace-IsThere, try_emplace-keeps, AreNamed, Keeps}
use fuse_nx.Vfs.Tree.{
  File, Folder, FileSystem, get_folder, add_file, add_folder, add_files, add_folders, process,
  process_dir,
}

module _ {C W : Type 0} where
  abbrev RegistersFolders : List ℕ → List ℕ → FileSystem C W → FileSystem C W → Type 0
  RegistersFolders path is s s' =
      (s'.folder_nodes ≡ s.folder_nodes)
      × (s'.file_nodes ≡ s.file_nodes)
      × Keeps s.folders s'.folders
      × AreNamed (λ (d : Folder C). d.name) path s'.folders s.folder_nodes is

  add_folders-Registers :
      (path is : List ℕ) (s : FileSystem C W)
      → Allows (RegistersFolders path is s) (add_folders path is s)
  unfolding add_folders add_folder
  add_folders-Registers path [] s = (refl, refl, (λ p h. h), tt)
  add_folders-Registers path (i ∷ is) s =
      Allows-lift (RegistersFolders path (i ∷ is) s) (get_elem? s.folder_nodes i) _ (λ d e.
        Allows-weaken _ _ (add_folders path is (add_folder (join path d.name) i s))
          (add_folders-Registers path is (add_folder (join path d.name) i s))
          (λ s' r. (
            r.0,
            r.1,
            (λ p h. r.2 p (try_emplace-keeps p (join path d.name) i s.folders h)),
            (
              rw e (r.2 (join path d.name) (try_emplace-IsThere (join path d.name) i s.folders)),
              r.3,
            ),
          )))

  abbrev RegistersFiles : List ℕ → List ℕ → FileSystem C W → FileSystem C W → Type 0
  RegistersFiles path is s s' =
      (s'.folder_nodes ≡ s.folder_nodes)
      × (s'.folders ≡ s.folders)
      × (s'.file_nodes ≡ s.file_nodes)
      × Keeps s.files s'.files
      × AreNamed (λ (f : File). f.name) path s'.files s.file_nodes is

  add_files-Registers :
      (path is : List ℕ) (s : FileSystem C W)
      → Allows (RegistersFiles path is s) (add_files path is s)
  unfolding add_files add_file
  add_files-Registers path [] s = (refl, refl, refl, (λ p h. h), tt)
  add_files-Registers path (i ∷ is) s =
      Allows-lift (RegistersFiles path (i ∷ is) s) (get_elem? s.file_nodes i) _ (λ f e.
        Allows-weaken _ _ (add_files path is (add_file (join path f.name) i s))
          (add_files-Registers path is (add_file (join path f.name) i s))
          (λ s' r. (
            r.0,
            r.1,
            r.2,
            (λ p h. r.3 p (try_emplace-keeps p (join path f.name) i s.files h)),
            (rw e (r.3 (join path f.name) (try_emplace-IsThere (join path f.name) i s.files)), r.4),
          )))

  -- After `process_dir` of a folder: its nodes are registered.
  pub record Registered (path : List ℕ) (id : ℕ) (found : Option ℕ) (s : FileSystem C W)
      : Type 0 where
    pub dir : Folder C
    pub same : found ≡ some id
    pub there : get_elem? s.folder_nodes id ≡ some dir
    pub children : AreNamed (λ (d : Folder C). d.name) path s.folders s.folder_nodes dir.children
    pub files : AreNamed (λ (f : File). f.name) path s.files s.file_nodes dir.files

  module _ (ops : Interface C W) where
    pub process_dir-Registered :
        (path : List ℕ) (id : ℕ) (folder : Folder C) (s : FileSystem C W)
        → get_folder path s ≡ some id
        → get_elem? s.folder_nodes id ≡ some folder
        → folder.processed ≡ false
        → Allows
            (λ (r : Option ℕ × FileSystem C W). Registered path id r.0 r.1)
            (process_dir ops path s)
    unfolding process_dir
    process_dir-Registered path id folder s found at fresh =
        rw (found, at, process_dir)
          (rw (fresh, ◌>>=◌)
            (Allows-any _ (process ops id s) _ (λ s1.
              Allows-lift _ (get_elem? s1.folder_nodes id) _ (λ dir e.
                Allows->>= (RegistersFolders path dir.children s1) _
                  (add_folders path dir.children s1) _ (add_folders-Registers path dir.children s1)
                  (λ s2 r2.
                    Allows->>= (RegistersFiles path dir.files s2) _ (add_files path dir.files s2) _
                      (add_files-Registers path dir.files s2)
                      (λ s3 r3. record {
                        dir = dir;
                        same = refl;
                        there = ap (λ ds. get_elem? ds id) (r3.0 ∙ r2.0) ∙ e;
                        children = rw (r3.0, r3.1, r2.0) (r2.3);
                        files = rw (r3.2) (r3.4);
                      }))))))
