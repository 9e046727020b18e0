-- ===== src/Fuse/Agree.antt =====
-- What readdir lists is there for the other operations.
use mathlib.Core.Path.{subst}
use fuse_nx.Prelude.{ℕ, ◌≡◌, refl, false, List, [], ◌∷◌, ◌++◌, get_elem?, Option, none, some}
use fuse_nx.Romfs.Types.{ok, ◌>>=◌, lift}
use fuse_nx.Vfs.Path.{join}
use fuse_nx.Vfs.Interface.{Interface}
use fuse_nx.Vfs.Every.{All}
use fuse_nx.Vfs.Stops.{Allows, Allows->>=, Allows-lift, Allows-ok}
use fuse_nx.Vfs.Maps.{IsThere, IsNamed, AreNamed}
use fuse_nx.Vfs.Registers.{Registered, process_dir-Registered}
use fuse_nx.Vfs.Tree.{File, Folder, FileSystem, get_file, get_folder, process_dir}
use fuse_nx.Fuse.{
  Reply, done, failed, enoent, DirItem, regular, wrap_opendir, wrap_open, wrap_readdir,
  fill_children, fill_files,
}

module _ {C W : Type 0} where
  -- An item of a listing that opens as a folder, or as a file; the listing calls both regular files.
  abbrev pub IsFolder : List ℕ → FileSystem C W → DirItem → Type 0
  IsFolder path s item = (wrap_opendir (join path item.0) s ≡ done 0) × (item.1 ≡ regular)

  abbrev pub IsFile : List ℕ → FileSystem C W → DirItem → Type 0
  IsFile path s item = (wrap_open (join path item.0) s ≡ done 0) × (item.1 ≡ regular)

  folder_there :
      (path : List ℕ) (s : FileSystem C W)
      → IsThere (get_folder path s)
      → wrap_opendir path s ≡ done 0
  unfolding wrap_opendir
  folder_there path s h = go (get_folder path s) h
    where
      go : (o : Option ℕ) → IsThere o → (elim o [ some i ↦ done 0 | none ↦ failed enoent ]) ≡ done 0
      go none h = absurd h
      go (some i) h = refl

  file_there :
      (path : List ℕ) (s : FileSystem C W) → IsThere (get_file path s) → wrap_open path s ≡ done 0
  unfolding wrap_open
  file_there path s h = go (get_file path s) h
    where
      go : (o : Option ℕ) → IsThere o → (elim o [ some i ↦ done 0 | none ↦ failed enoent ]) ≡ done 0
      go none h = absurd h
      go (some i) h = refl

  fill_children-IsFolder :
      (path is : List ℕ) (s : FileSystem C W)
      → AreNamed (λ (d : Folder C). d.name) path s.folders s.folder_nodes is
      → Allows (All (IsFolder path s)) (fill_children is s)
  unfolding fill_children get_folder
  fill_children-IsFolder path [] s p = tt
  fill_children-IsFolder path (i ∷ is) s p =
      Allows-lift (All (IsFolder path s)) (get_elem? s.folder_nodes i) _ (λ d e.
        Allows->>= (All (IsFolder path s)) (All (IsFolder path s)) (fill_children is s) _
          (fill_children-IsFolder path is s p.1)
          (λ rest q. (
            (
              folder_there (join path d.name) s
                  (subst (IsNamed (λ (d : Folder C). d.name) path s.folders) e p.0),
              refl,
            ),
            q,
          )))

  fill_files-IsFile :
      (path is : List ℕ) (s : FileSystem C W)
      → AreNamed (λ (f : File). f.name) path s.files s.file_nodes is
      → Allows (All (IsFile path s)) (fill_files is s)
  unfolding fill_files get_file
  fill_files-IsFile path [] s p = tt
  fill_files-IsFile path (i ∷ is) s p =
      Allows-lift (All (IsFile path s)) (get_elem? s.file_nodes i) _ (λ f e.
        Allows->>= (All (IsFile path s)) (All (IsFile path s)) (fill_files is s) _
          (fill_files-IsFile path is s p.1)
          (λ rest q. (
            (
              file_there (join path f.name) s
                  (subst (IsNamed (λ (f : File). f.name) path s.files) e p.0),
              refl,
            ),
            q,
          )))

  -- What `wrap_readdir` gives out for a folder.
  abbrev Lists : List ℕ → Reply × List DirItem × FileSystem C W → Type 0
  Lists path (reply, items, s) =
      (reply ≡ done 0)
      × (folders : List DirItem) × (files : List DirItem) × (items ≡ folders ++ files)
      × All (IsFolder path s) folders
      × All (IsFile path s) files

  -- readdir of a folder that is there and not processed yet, when it returns, answers 0 and lists folders
  -- and then files, such that afterwards opendir of every folder's path and open of every file's path
  -- answer 0. The listing calls each of them, the folders too, a regular file.
  pub readdir_lists :
      (ops : Interface C W) (path : List ℕ) (id : ℕ) (folder : Folder C) (s s' : FileSystem C W)
      (reply : Reply) (items : List DirItem)
      → get_folder path s ≡ some id
      → get_elem? s.folder_nodes id ≡ some folder
      → folder.processed ≡ false
      → wrap_readdir ops path s ≡ ok (reply, items, s')
      → (reply ≡ done 0)
        × (folders : List DirItem) × (files : List DirItem) × (items ≡ folders ++ files)
        × All (IsFolder path s') folders
        × All (IsFile path s') files
  unfolding wrap_readdir
  readdir_lists ops path id folder s s' reply items found at fresh returns =
      Allows-ok (Lists path) (wrap_readdir ops path s) (reply, items, s')
        (Allows->>= (λ (r : Option ℕ × FileSystem C W). Registered path id r.0 r.1) (Lists path)
          (process_dir ops path s) _ (process_dir-Registered ops path id folder s found at fresh)
          (λ r p. listed r.0 r.1 p))
        returns
    where
      listed :
          (o : Option ℕ) (s1 : FileSystem C W)
          → Registered path id o s1
          → Allows (Lists path) (elim o [
            | none ↦ ok (failed enoent, [], s1)
            | some i ↦ do
              dir ← lift (get_elem? s1.folder_nodes i)
              children ← fill_children dir.children s1
              files ← fill_files dir.files s1
              ok (done 0, children ++ files, s1)
          ])
      listed o s1 p = rw (p.same) (
          rw (p.there, ◌>>=◌)
            (Allows->>= (All (IsFolder path s1)) (Lists path) (fill_children p.dir.children s1) _
              (fill_children-IsFolder path p.dir.children s1 p.children)
              (λ cs q.
                Allows->>= (All (IsFile path s1)) (Lists path) (fill_files p.dir.files s1) _
                  (fill_files-IsFile path p.dir.files s1 p.files)
                  (λ fs q'. (refl, cs, fs, refl, q, q')))))
