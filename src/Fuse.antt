-- ===== src/Fuse.antt =====
-- src/fuse.cpp: the operations that FUSE calls. The memory for a result is an argument and a result.
mod Agree
mod Tests
use fuse_nx.Prelude.{
  ℕ, Bool, true, false, not, ◌==◌, List, [], ◌∷◌, ◌++◌, map, if◌then◌else◌, get_elem?, Option, none,
  some, bit_and,
}
use fuse_nx.Prelude.Words.{u32}
use fuse_nx.Io.{FileBase}
use fuse_nx.Keyset.Text.{codes}
use fuse_nx.Io
use fuse_nx.Romfs.Types.{Run, ok, fault, out_of_fuel, ◌>>=◌, lift}
use fuse_nx.Vfs.Interface.{Interface}
use fuse_nx.Vfs.Tree.{File, Folder, FileSystem, get_file, get_folder, process_dir, set_base}

-- What an operation answers: a number, or an error that it negates.
pub data Errno : Type 0 where
  enoent erofs : Errno

pub data Reply : Type 0 where
  done : ℕ → Reply
  failed : Errno → Reply

-- `st_mode`: the type of the file, and the permissions.
pub data FileType : Type 0 where
  directory regular : FileType

pub record Stat : Type 0 where
  pub mode : Option (FileType × ℕ)
  pub size : ℕ
  pub uid : ℕ
  pub gid : ℕ

-- `O_WRONLY | O_RDWR | O_CREAT | O_EXCL | O_TRUNC | O_APPEND`, as on Linux.
abbrev pub write_flags : ℕ
write_flags = 0x6c3

-- What the filler is given: a name, and the mode that goes with it.
abbrev pub DirItem : Type 0
DirItem = List ℕ × FileType × ℕ

-- The arguments that `run` hands to libfuse: an empty name of the program, the mount point, `-f` unless it is
-- to go to the background, the user's options, and synchronous reads.
unfoldable pub fuse_arguments : List ℕ → Bool → List (List ℕ) → List (List ℕ)
fuse_arguments mountpoint background fuse_args =
    []
    ∷ mountpoint
    ∷ ((if background then [] else codes "-f" ∷ [])
        ++ (map (λ (arg : List ℕ). codes "-o" ++ arg) fuse_args ++ (codes "-osync_read" ∷ [])))

module _ {C W : Type 0} where
  -- `FuseContext::run`, up to the mount: the root is used without asking for it.
  unfoldable pub run : Bool → FileSystem C W → Run (FileSystem C W)
  unfolding get_folder
  run raw_containers s = elim (get_folder (b'/' ∷ []) s) [
    | none ↦ fault
    | some i ↦ ok (record s { keep_raw = raw_containers })
  ]

  unfoldable pub wrap_getattr : ℕ → ℕ → List ℕ → FileSystem C W → Run (Reply × Stat)
  unfolding get_folder get_file Io.size
  wrap_getattr uid gid path s =
      let st : Stat = record { mode = none; size = 0; uid = uid; gid = gid } in
      elim (get_folder path s) [
        | some i ↦ ok (done 0, record st { mode = some (directory, 0x16d) })
        | none ↦ elim (get_file path s) [
          | some i ↦ elim (get_elem? s.file_nodes i) [
            | none ↦ fault
            | some f ↦
                ok (done 0, record st { mode = some (regular, 0x124); size = Io.size f.base })
          ]
          | none ↦ ok (failed enoent, st)
        ]
      ]

  unfoldable pub wrap_opendir : List ℕ → FileSystem C W → Reply
  unfolding get_folder
  wrap_opendir path s = elim (get_folder path s) [ some i ↦ done 0 | none ↦ failed enoent ]

  unfoldable pub wrap_open : List ℕ → FileSystem C W → Reply
  unfolding get_file
  wrap_open path s = elim (get_file path s) [ some i ↦ done 0 | none ↦ failed enoent ]

  unfoldable pub fill_children : List ℕ → FileSystem C W → Run (List DirItem)
  fill_children [] s = ok []
  fill_children (i ∷ is) s = do
    d ← lift (get_elem? s.folder_nodes i)
    rest ← fill_children is s
    ok ((d.name, regular, 0x16d) ∷ rest)

  unfoldable pub fill_files : List ℕ → FileSystem C W → Run (List DirItem)
  fill_files [] s = ok []
  fill_files (i ∷ is) s = do
    f ← lift (get_elem? s.file_nodes i)
    rest ← fill_files is s
    ok ((f.name, regular, 0x124) ∷ rest)

  module _ (ops : Interface C W) where
    unfoldable pub wrap_readdir :
        List ℕ → FileSystem C W → Run (Reply × List DirItem × FileSystem C W)
    unfolding process_dir fill_children fill_files
    wrap_readdir path s = do
      (found, s1) ← process_dir ops path s
      elim found [
        | none ↦ ok (failed enoent, [], s1)
        | some i ↦ do
          dir ← lift (get_elem? s1.folder_nodes i)
          children ← fill_children dir.children s1
          files ← fill_files dir.files s1
          ok (done 0, children ++ files, s1)
      ]

    -- The answer is the count as an `int`, here its 32 bits. A file keeps its position, so the node
    -- changes too.
    unfoldable pub wrap_read :
        ℕ → List ℕ → List ℕ → ℕ → FileSystem C W → Run (Reply × List ℕ × FileSystem C W)
    unfolding get_file set_base
    wrap_read flags path buf offset s = elim (bit_and flags write_flags == 0) [
      | false ↦ ok (failed erofs, buf, s)
      | true ↦ elim (get_file path s) [
        | none ↦ ok (failed enoent, buf, s)
        | some i ↦ do
          f ← lift (get_elem? s.file_nodes i)
          (count, buf', base, w) ← ops.read_at offset f.base buf s.world
          ok (done (u32 count), buf', set_base i base (record s { world = w }))
      ]
    ]
