-- ===== src/Romfs/Types.antt =====
-- The state of a `RomFs`, and the records of its tables.
use fuse_nx.Prelude.{ℕ, ◌+◌, Bool, if◌then◌else◌, leb, ◌==◌, List, length, Option, none, some}
use fuse_nx.Prelude.Bytes.{field_at}
use fuse_nx.Prelude.Slices.{slice}
use fuse_nx.Prelude.Words.{u64}
use fuse_nx.Io.{FileBase, clone, new_offset_file}

-- What a call does: it returns, it touches memory out of bounds, or it goes on after the given rounds.
pub data Run {ℓ} (A : Type ℓ) : Type ℓ where
  ok : A → Run A
  fault : Run A
  out_of_fuel : Run A

infixl 5 ◌>>=◌
abbrev pub ◌>>=◌ {ℓ κ} : {A : Type ℓ} {B : Type κ} → Run A → (A → Run B) → Run B
ok a >>= f = f a
fault >>= f = fault
out_of_fuel >>= f = out_of_fuel

-- What is not there is an access out of bounds.
abbrev pub lift {ℓ} : {A : Type ℓ} → Option A → Run A
lift none = fault
lift (some a) = ok a

abbrev pub invalid_meta : ℕ
invalid_meta = 0xffffffff

-- `Header`.
pub record Header : Type 0 where
  pub header_size : ℕ
  pub dir_tbl_off : ℕ
  pub dir_tbl_sz : ℕ
  pub dir_meta_off : ℕ
  pub dir_meta_sz : ℕ
  pub file_tbl_off : ℕ
  pub file_tbl_sz : ℕ
  pub file_meta_off : ℕ
  pub file_meta_sz : ℕ
  pub file_dat_off : ℕ

unfoldable pub header_of : List ℕ → Header
header_of bytes = record {
  header_size = field_at 0x0 8 bytes;
  dir_tbl_off = field_at 0x8 8 bytes;
  dir_tbl_sz = field_at 0x10 8 bytes;
  dir_meta_off = field_at 0x18 8 bytes;
  dir_meta_sz = field_at 0x20 8 bytes;
  file_tbl_off = field_at 0x28 8 bytes;
  file_tbl_sz = field_at 0x30 8 bytes;
  file_meta_off = field_at 0x38 8 bytes;
  file_meta_sz = field_at 0x40 8 bytes;
  file_dat_off = field_at 0x48 8 bytes;
}

-- `DirEntryMeta` and `FileEntryMeta`, with the name behind them.
pub record DirMeta : Type 0 where
  pub parent_off : ℕ
  pub sibling_off : ℕ
  pub child_off : ℕ
  pub file_off : ℕ
  pub next : ℕ
  pub name : List ℕ

pub record FileMeta : Type 0 where
  pub sibling_off : ℕ
  pub data_off : ℕ
  pub data_sz : ℕ
  pub name : List ℕ

-- The record at an offset. A record that leaves the table is read out of bounds; one whose name alone
-- leaves it makes a view past the end in the source, and is taken for the same.
unfoldable pub dir_meta_at : List ℕ → ℕ → Run DirMeta
dir_meta_at tbl off =
    let size = field_at (off + 0x14) 4 tbl in
    if leb (off + 0x18 + size) (length tbl)
    then ok (record {
      parent_off = field_at off 4 tbl;
      sibling_off = field_at (off + 0x4) 4 tbl;
      child_off = field_at (off + 0x8) 4 tbl;
      file_off = field_at (off + 0xc) 4 tbl;
      next = field_at (off + 0x10) 4 tbl;
      name = slice (off + 0x18) size tbl;
    })
    else fault

unfoldable pub file_meta_at : List ℕ → ℕ → Run FileMeta
file_meta_at tbl off =
    let size = field_at (off + 0x1c) 4 tbl in
    if leb (off + 0x20 + size) (length tbl)
    then ok (record {
      sibling_off = field_at (off + 0x4) 4 tbl;
      data_off = field_at (off + 0x8) 8 tbl;
      data_sz = field_at (off + 0x10) 8 tbl;
      name = slice (off + 0x20) size tbl;
    })
    else fault

-- `DirEntry` and `FileEntry`. The fast path leaves out the parent, the record and the lists.
pub record DirEntry : Type 0 where
  pub parent : Option ℕ
  pub meta : Option ℕ
  pub name : List ℕ
  pub children : List ℕ
  pub files : List ℕ

pub record FileEntry : Type 0 where
  pub parent : Option ℕ
  pub meta : Option ℕ
  pub name : List ℕ
  pub offset : ℕ
  pub size : ℕ

pub record RomFs : Type 0 where
  pub base : FileBase
  pub header : Header
  pub dir_hash_tbl : List ℕ
  pub file_hash_tbl : List ℕ
  pub dir_meta_tbl : List ℕ
  pub file_meta_tbl : List ℕ
  pub dir_entries : List DirEntry
  pub file_entries : List FileEntry

-- `open(entry)`: a window on the data.
unfoldable pub open_file : RomFs → FileEntry → FileBase
open_file r e = new_offset_file (clone r.base) e.size (u64 (e.offset + r.header.file_dat_off))

-- `match` on a file's first bytes, and `is_valid`.
abbrev pub magic : ℕ
magic = 0x50

unfoldable pub matches : List ℕ → Bool
matches bytes = field_at 0 8 bytes == magic

unfoldable pub is_valid : RomFs → Bool
is_valid r = r.header.header_size == magic
