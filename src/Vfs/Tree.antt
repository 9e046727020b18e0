-- ===== src/Vfs/Tree.antt =====
-- The nodes, the maps of the file system, and the processing of folders.
use fuse_nx.Prelude.{
  ℕ, Bool, true, false, if◌then◌else◌, ◌==◌, List, [], ◌∷◌, ◌++◌, length, get_elem?, Option, none,
  some,
}
use fuse_nx.Io.{FileBase}
use fuse_nx.Keyset.Titles.{bytes_eq}
use fuse_nx.Romfs.Types.{Run, ok, fault, ◌>>=◌, lift}
use fuse_nx.Romfs.Parse.{modify}
use fuse_nx.Vfs.Path.{join, relative_path}
use fuse_nx.Vfs.Interface.{Interface}

pub record File : Type 0 where
  pub name : List ℕ
  pub base : FileBase

pub record Folder (C : Type 0) : Type 0 where
  pub name : List ℕ
  pub processed : Bool
  pub base : Option C
  pub files : List ℕ
  pub children : List ℕ

-- `FileSystem`, with the objects it shares; `files` and `folders` are its two maps.
pub record FileSystem (C W : Type 0) : Type 0 where
  pub keep_raw : Bool
  pub files : List (List ℕ × ℕ)
  pub folders : List (List ℕ × ℕ)
  pub file_nodes : List File
  pub folder_nodes : List (Folder C)
  pub world : W

-- The lookup of a map, and `try_emplace`, which leaves an element that is there.
unfoldable pub lookup : List ℕ → List (List ℕ × ℕ) → Option ℕ
unfolding bytes_eq
lookup path [] = none
lookup path ((p, i) ∷ m) = if bytes_eq p path then some i else lookup path m

unfoldable pub try_emplace : List ℕ → ℕ → List (List ℕ × ℕ) → List (List ℕ × ℕ)
unfolding lookup
try_emplace path i m = elim (lookup path m) [ none ↦ m ++ ((path, i) ∷ []) | some j ↦ m ]

-- The part of a name before the last dot, the whole name if there is none.
unfoldable pub before_dot : List ℕ → Option (List ℕ)
before_dot [] = none
before_dot (c ∷ cs) = elim (before_dot cs) [
  | some rest ↦ some (c ∷ rest)
  | none ↦ if c == b'.' then some [] else none
]

unfoldable pub stem : List ℕ → List ℕ
unfolding before_dot
stem name = elim (before_dot name) [ none ↦ name | some s ↦ s ]

module _ {C W : Type 0} where
  abbrev pub new_file : List ℕ → FileBase → FileSystem C W → FileSystem C W
  new_file name base s = record s {
    file_nodes = s.file_nodes ++ (record { name = name; base = base } ∷ []);
  }

  abbrev pub new_folder : List ℕ → C → FileSystem C W → FileSystem C W
  new_folder name c s = record s {
    folder_nodes =
        s.folder_nodes
        ++ (record { name = name; processed = false; base = some c; files = []; children = [] }
            ∷ []);
  }

  unfoldable pub get_file : List ℕ → FileSystem C W → Option ℕ
  unfolding lookup
  get_file path s = lookup path s.files

  unfoldable pub get_folder : List ℕ → FileSystem C W → Option ℕ
  unfolding lookup
  get_folder path s = lookup path s.folders

  unfoldable pub add_file : List ℕ → ℕ → FileSystem C W → FileSystem C W
  unfolding try_emplace
  add_file path i s = record s { files = try_emplace path i s.files }

  unfoldable pub add_folder : List ℕ → ℕ → FileSystem C W → FileSystem C W
  unfolding try_emplace
  add_folder path i s = record s { folders = try_emplace path i s.folders }

  -- A file that is read is another one afterwards: its position moves.
  unfoldable pub set_base : ℕ → FileBase → FileSystem C W → FileSystem C W
  unfolding modify
  set_base i base s = record s {
    file_nodes = modify i (λ (f : File). record f { base = base }) s.file_nodes;
  }

  -- The loop of `Folder::process` over the folders.
  unfoldable pub process_folders : List (List ℕ × C) → FileSystem C W → List ℕ × FileSystem C W
  process_folders [] s = ([], s)
  process_folders ((name, c) ∷ rest) s =
      let (children, s') = process_folders rest (new_folder name c s) in
      (length s.folder_nodes ∷ children, s')

  -- The loops of `process_dir` that register the nodes of a folder under their paths.
  unfoldable pub add_folders : List ℕ → List ℕ → FileSystem C W → Run (FileSystem C W)
  unfolding join add_folder
  add_folders path [] s = ok s
  add_folders path (i ∷ is) s = do
    d ← lift (get_elem? s.folder_nodes i)
    add_folders path is (add_folder (join path d.name) i s)

  unfoldable pub add_files : List ℕ → List ℕ → FileSystem C W → Run (FileSystem C W)
  unfolding join add_file
  add_files path [] s = ok s
  add_files path (i ∷ is) s = do
    f ← lift (get_elem? s.file_nodes i)
    add_files path is (add_file (join path f.name) i s)

  module _ (ops : Interface C W) where
    -- The loop of `Folder::process` over the files: the numbers of the new files and folders.
    unfoldable pub process_files :
        List (List ℕ × FileBase × Bool) → FileSystem C W → Run (List ℕ × List ℕ × FileSystem C W)
    unfolding stem
    process_files [] s = ok ([], [], s)
    process_files ((name, base, false) ∷ rest) s = do
      (files, children, s') ← process_files rest (new_file name base s)
      ok (length s.file_nodes ∷ files, children, s')
    process_files ((name, base, true) ∷ rest) s = do
      (base', made, w) ← ops.make_container base s.world
      let s1 : FileSystem C W = record s { world = w }
      elim made [
        | none ↦ do
          (files, children, s') ← process_files rest (new_file name base' s1)
          ok (length s1.file_nodes ∷ files, children, s')
        | some c ↦ elim s.keep_raw [
          | true ↦ do
            (files, children, s') ←
                process_files rest (new_file name base' (new_folder (stem name) c s1))
            ok (length s1.file_nodes ∷ files, length s1.folder_nodes ∷ children, s')
          | false ↦ do
            (files, children, s') ← process_files rest (new_folder (stem name) c s1)
            ok (files, length s1.folder_nodes ∷ children, s')
        ]
      ]

    -- `Folder::process`. The early return asks for a folder without a container; without one that is not
    -- processed, a null pointer is followed.
    unfoldable pub process : ℕ → FileSystem C W → Run (FileSystem C W)
    unfolding process_files process_folders modify
    process id s = do
      folder ← lift (get_elem? s.folder_nodes id)
      elim folder.base [
        | none ↦ if folder.processed then ok s else fault
        | some c ↦ do
          (items, c1, w1) ← ops.read_files c s.world
          (files, children, s1) ← process_files items (record s { world = w1 })
          (dirs, c2, w2) ← ops.read_folders c1 s1.world
          let (more, s2) = process_folders dirs (record s1 { world = w2 })
          ok (record s2 {
            folder_nodes =
                modify id
                  (λ (d : Folder C). record d {
                    processed = true;
                    base = some c2;
                    files = d.files ++ files;
                    children = d.children ++ (children ++ more);
                  })
                  s2.folder_nodes;
          })
      ]

    unfoldable pub process_dir : List ℕ → FileSystem C W → Run (Option ℕ × FileSystem C W)
    unfolding get_folder process add_folders add_files
    process_dir path s = elim (get_folder path s) [
      | none ↦ ok (none, s)
      | some id ↦ do
        folder ← lift (get_elem? s.folder_nodes id)
        elim folder.processed [
          | true ↦ ok (some id, s)
          | false ↦ do
            s1 ← process id s
            dir ← lift (get_elem? s1.folder_nodes id)
            s2 ← add_folders path dir.children s1
            s3 ← add_files path dir.files s2
            ok (some id, s3)
        ]
    ]

    -- The loop of `find_folder` over the elements of a path.
    unfoldable pub descend :
        List ℕ → Option ℕ → List (List ℕ) → FileSystem C W → Run (Option ℕ × FileSystem C W)
    unfolding process_dir join
    descend cur found [] s = ok (found, s)
    descend cur found (loc ∷ rest) s = do
      (opt, s1) ← process_dir (join cur loc) s
      elim opt [ none ↦ ok (none, s1) | some i ↦ descend (join cur loc) (some i) rest s1 ]

    unfoldable pub find_folder : List ℕ → FileSystem C W → Run (Option ℕ × FileSystem C W)
    unfolding process_dir descend relative_path bytes_eq
    find_folder path s = do
      (root, s1) ← process_dir (b'/' ∷ []) s
      elim (bytes_eq path (b'/' ∷ [])) [
        | true ↦ ok (root, s1)
        | false ↦ descend (b'/' ∷ []) root (relative_path path) s1
      ]

    -- The constructor: the root, if the file is a container.
    unfoldable pub file_system : Bool → FileBase → W → Run (FileSystem C W)
    unfolding stem add_folder
    file_system keep_raw base w = do
      (base', made, w') ← ops.make_container base w
      let s : FileSystem C W = record {
        keep_raw = keep_raw;
        files = [];
        folders = [];
        file_nodes = [];
        folder_nodes = [];
        world = w';
      }
      elim made [ none ↦ ok s | some c ↦ ok (add_folder (b'/' ∷ []) 0 (new_folder (stem []) c s)) ]
