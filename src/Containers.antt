-- ===== src/Containers.antt =====
-- src/containers.hpp and src/containers.cpp, each format as a folder of files and folders.
pub mod Make
pub mod Opens
pub mod Sections
pub mod Nested
mod SealedExample
mod Tests
use fuse_nx.Prelude.{
  ℕ, zero, suc, ◌-◌, Bool, true, false, ◌||◌, if◌then◌else◌, ◌==◌, List, [], ◌∷◌, ◌++◌, map,
  get_elem?, Option, none, some,
}
use fuse_nx.Crypto.Xts.{AesXts}
use fuse_nx.Io.{FileBase, Stream, clone}
use fuse_nx.Keyset.Text.{codes}
use fuse_nx.Keyset.Titles.{bytes_eq}
use fuse_nx.Keys.{Keys}
use fuse_nx.Formats.Table.{Table, Entry}
use fuse_nx.Formats.Pfs
use fuse_nx.Formats.Hfs
use fuse_nx.Romfs.Types.{RomFs, Run, ok, fault, ◌>>=◌, lift}
use fuse_nx.Romfs.Types
use fuse_nx.Romfs.Parse.{parse_dir}
use fuse_nx.Romfs.Find.{find_dir}
use fuse_nx.Nca
use fuse_nx.Xci

-- What the containers share: the bytes on disk, the keys, the static context of Nca, the RomFs objects,
-- each at the number that a shared pointer stands for, the option `--search-romfs`, and what the tickets that
-- are found print.
pub record World : Type 0 where
  pub stream : Stream
  pub keys : Keys
  pub header_ctx : Option AesXts
  pub romfs : List RomFs
  pub search_containers : Bool
  pub stdout : List ℕ

-- The classes derived from `ContainerBase`.
pub data Container : Type 0 where
  pfs hfs : Table → Container
  romfs : ℕ → Bool → List ℕ → Container
  nca : Nca.Nca → Container
  xci : Xci.Xci → Container

-- A name, a file, and whether it may hold a container; a name and a folder.
abbrev pub FileItem : Type 0
FileItem = List ℕ × FileBase × Bool

abbrev pub DirItem : Type 0
DirItem = List ℕ × Container

-- The part of a string behind the last place of a character, the whole if there is none.
unfoldable pub behind_last : ℕ → List ℕ → Option (List ℕ)
behind_last c [] = none
behind_last c (x ∷ xs) = elim (behind_last c xs) [
  | some rest ↦ some rest
  | none ↦ if x == c then some xs else none
]

abbrev pub extension_whitelist : List (List ℕ)
extension_whitelist =
    codes "nca" ∷ codes "nsp" ∷ codes "pfs" ∷ codes "romfs" ∷ codes "hfs" ∷ codes "xci" ∷ []

unfoldable pub is_member : List ℕ → List (List ℕ) → Bool
unfolding bytes_eq
is_member name [] = false
is_member name (n ∷ ns) = bytes_eq n name || is_member name ns

-- `name.rfind('.') + 1` is 0 for a name without a dot.
unfoldable pub should_try_container : List ℕ → Bool
unfolding behind_last is_member
should_try_container name =
    is_member (elim (behind_last b'.' name) as (λ _. List ℕ) [ none ↦ name | some ext ↦ ext ])
      extension_whitelist

unfoldable pub table_files : (Table → Entry → FileBase) → Table → List FileItem
table_files open_file t = map (λ (e : Entry). (e.name, open_file t e, true)) t.entries

abbrev pub section_names : List (List ℕ)
section_names = codes "section 0" ∷ codes "section 1" ∷ codes "section 2" ∷ codes "section 3" ∷ []

-- The file of a section, by the name that its number has.
unfoldable pub section_item : List ℕ → Nca.Section → FileItem
unfolding Nca.contained_base
section_item name s = (
  name ++ elim s.type as (λ _. List ℕ) [
    | Nca.SectionType.pfs ↦ codes ".nsp"
    | Nca.SectionType.romfs ↦ codes ".romfs"
  ],
  clone (Nca.contained_base s.container),
  true,
)

-- The loop over the sections of an Nca, `n` of them from number `i` on: one that is not there is an access
-- out of bounds.
unfoldable pub section_files : ℕ → ℕ → List Nca.Section → Run (List FileItem)
unfolding section_item
section_files zero i sections = ok []
section_files (suc n) i sections = do
  s ← lift (get_elem? sections i)
  name ← lift (get_elem? section_names i)
  rest ← section_files n (suc i) sections
  ok (section_item name s ∷ rest)

unfoldable pub partition_files : List Xci.Partition → List FileItem
unfolding Xci.get_name
partition_files ps =
    map (λ (p : Xci.Partition). (Xci.get_name p.type ++ codes ".hfs", clone p.hfs.base, true)) ps

-- The files and folders of a directory of a RomFs, by their numbers.
unfoldable pub romfs_files : Bool → RomFs → List ℕ → Run (List FileItem)
unfolding should_try_container Types.open_file
romfs_files search r [] = ok []
romfs_files search r (i ∷ is) = elim (get_elem? r.file_entries i) [
  | none ↦ fault
  | some f ↦ do
    rest ← romfs_files search r is
    ok ((f.name, Types.open_file r f, search || should_try_container f.name) ∷ rest)
]

unfoldable pub romfs_folders : ℕ → RomFs → List ℕ → List ℕ → Run (List DirItem)
romfs_folders id r path [] = ok []
romfs_folders id r path (i ∷ is) = elim (get_elem? r.dir_entries i) [
  | none ↦ fault
  | some d ↦ do
    rest ← romfs_folders id r path is
    ok ((d.name, romfs id false (path ++ (d.name ++ (b'/' ∷ [])))) ∷ rest)
]

unfoldable pub set_romfs : ℕ → RomFs → List RomFs → List RomFs
set_romfs i r [] = []
set_romfs zero r (x ∷ xs) = r ∷ xs
set_romfs (suc i) r (x ∷ xs) = x ∷ set_romfs i r xs

-- The directory of a `RomFsContainer`, parsed if it is not yet: the object, and the number of the
-- directory, which there may not be. `k` rounds are given to each loop over a RomFs.
unfoldable pub romfs_dir : ℕ → RomFs → Bool → List ℕ → Run (Option ℕ × Bool × RomFs)
unfolding find_dir parse_dir
romfs_dir k r parsed path = do
  found ← find_dir k r path
  elim found [
    | none ↦ ok (none, parsed, r)
    | some i ↦ elim parsed [
      | true ↦ ok (some i, true, r)
      | false ↦ do r' ← parse_dir k false i r; ok (some i, true, r')
    ]
  ]

-- `read_files`, with the container and the world that it leaves.
unfoldable pub read_files : ℕ → Container → World → Run (List FileItem × Container × World)
unfolding table_files Pfs.open_file Hfs.open_file section_files partition_files romfs_dir
    romfs_files set_romfs
read_files k (pfs t) w = ok (table_files Pfs.open_file t, pfs t, w)
read_files k (hfs t) w = ok (table_files Hfs.open_file t, hfs t, w)
read_files k (nca n) w = do items ← section_files n.num_sections 0 n.sections; ok (items, nca n, w)
read_files k (xci x) w = ok (partition_files x.partitions, xci x, w)
read_files k (romfs id parsed path) w = do
  r ← lift (get_elem? w.romfs id)
  (found, parsed', r') ← romfs_dir k r parsed path
  let w' : World = record w { romfs = set_romfs id r' w.romfs }
  elim found [
    | none ↦ ok ([], romfs id parsed' path, w')
    | some i ↦ do
      d ← lift (get_elem? r'.dir_entries i)
      items ← romfs_files w.search_containers r' d.files
      ok (items, romfs id parsed' path, w')
  ]

-- `read_folders`: only a RomFs has folders of its own.
unfoldable pub read_folders : ℕ → Container → World → Run (List DirItem × Container × World)
unfolding romfs_dir romfs_folders set_romfs
read_folders k (pfs t) w = ok ([], pfs t, w)
read_folders k (hfs t) w = ok ([], hfs t, w)
read_folders k (nca n) w = ok ([], nca n, w)
read_folders k (xci x) w = ok ([], xci x, w)
read_folders k (romfs id parsed path) w = do
  r ← lift (get_elem? w.romfs id)
  (found, parsed', r') ← romfs_dir k r parsed path
  let w' : World = record w { romfs = set_romfs id r' w.romfs }
  elim found [
    | none ↦ ok ([], romfs id parsed' path, w')
    | some i ↦ do
      d ← lift (get_elem? r'.dir_entries i)
      items ← romfs_folders id r' path d.children
      ok (items, romfs id parsed' path, w')
  ]
