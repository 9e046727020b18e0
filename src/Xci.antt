-- ===== src/Xci.antt =====
-- include/fnx/formats/xci.hpp and lib/xci.cpp. The root table of an Xci is laid out as that of an Hfs, and
-- its entries are read likewise; each partition that has a known name is an Hfs.
mod Names
pub mod Partitions
pub mod Behind
pub mod Image
mod Tests
use mathlib.Core.Option
use fuse_nx.Prelude.{
  ℕ, ◌+◌, ◌*◌, Bool, List, [], ◌∷◌, ◌++◌, length, replicate, Option, none, some, ◌==◌,
  if◌then◌else◌,
}
use fuse_nx.Prelude.Words.{u64}
use fuse_nx.Prelude.Bytes.{field_at}
use fuse_nx.Utils.{four_cc}
use fuse_nx.Crypto.{Backend}
use fuse_nx.Io.{FileBase, Stream, Read, read_at, clone, new_offset_file}
use fuse_nx.Keyset.Text.{codes}
use fuse_nx.Keyset.Titles.{bytes_eq}
use fuse_nx.Formats.Table.{Table, Entry, header_of, entries_of, construct, ◌>>=◌}

unfoldable pub magic : ℕ
unfolding four_cc
magic = four_cc b'H' b'E' b'A' b'D'

-- `PartitionType`, without the count.
pub data PartitionType : Type 0 where
  update normal secure logo : PartitionType

unfoldable pub partition_map : List (List ℕ × PartitionType)
partition_map =
    (codes "update", update)
    ∷ (codes "normal", normal)
    ∷ (codes "secure", secure)
    ∷ (codes "logo", logo)
    ∷ []

-- `std::find_if` by the name.
unfoldable pub type_in : List (List ℕ × PartitionType) → List ℕ → Option PartitionType
unfolding bytes_eq
type_in [] name = none
type_in ((n, t) ∷ rest) name = if bytes_eq n name then some t else type_in rest name

unfoldable pub is_type : PartitionType → PartitionType → Bool
is_type update update = Bool.true
is_type normal normal = Bool.true
is_type secure secure = Bool.true
is_type logo logo = Bool.true
is_type _ _ = Bool.false

-- `std::find_if` by the type, with the name that stands for a missing one.
unfoldable pub name_in : List (List ℕ × PartitionType) → PartitionType → List ℕ
unfolding is_type
name_in [] type = codes "unknown"
name_in ((n, t) ∷ rest) type = if is_type t type then n else name_in rest type

unfoldable pub get_name : PartitionType → List ℕ
unfolding name_in partition_map
get_name type = name_in partition_map type

pub record Partition : Type 0 where
  pub type : PartitionType
  pub hfs : Table

pub record Xci : Type 0 where
  pub base : FileBase
  pub header : List ℕ
  pub partitions : List Partition

abbrev pub hfs_offset : List ℕ → ℕ
hfs_offset header = field_at 0x130 8 header

unfoldable pub matches : List ℕ → Bool
unfolding magic
matches bytes = field_at 0x100 4 bytes == magic

unfoldable pub is_valid : Xci → Bool
unfolding magic
is_valid x = field_at 0x100 4 x.header == magic

module _ (b : Backend) where
  -- The constructor.
  unfoldable pub xci : FileBase → List ℕ → Stream → Option (Xci × Stream)
  xci base uninit s = do
    r ← read_at b 0 base uninit s
    some (record { base = r.after; header = r.dest; partitions = [] }, r.stream)

  -- The loop over the entries; an `Hfs` reads its header when it is constructed, over memory of any
  -- content, here the same for all.
  unfoldable pub partitions_of :
      FileBase → ℕ → List Entry → List ℕ → Stream → Option (List Partition × Stream)
  unfolding type_in partition_map construct
  partitions_of base data_offset [] uninit s = some ([], s)
  partitions_of base data_offset (e ∷ rest) uninit s = elim (type_in partition_map e.name) [
    | none ↦ partitions_of base data_offset rest uninit s
    | some type ↦
        construct b (new_offset_file (clone base) e.size (u64 (e.offset + data_offset))) uninit s
        >>= (λ (q : Table × Stream).
            partitions_of base data_offset rest uninit q.1 >>= (λ (ps : List Partition × Stream).
              some (record { type = type; hfs = q.0 } ∷ ps.0, ps.1)))
  ]

  -- `parse`; the three reads move the file's position on, and the partitions are windows on clones.
  unfoldable pub parse : Xci → List ℕ → Stream → Option (Xci × Stream)
  unfolding header_of entries_of partitions_of
  parse x uninit s = do
    let start = hfs_offset x.header
    root ← read_at b start x.base uninit s
    let n = (header_of root.dest).num_files
    let names_size = (header_of root.dest).string_table_size
    table ← read_at b (u64 (start + 0x10)) root.after (replicate (n * 0x40) 0) root.stream
    let strings_offset = u64 (start + 0x10 + n * 0x40)
    names ← read_at b strings_offset table.after (replicate names_size 0) table.stream
    entries ← entries_of 0x40 n table.dest names.dest
    (ps, s') ←
        partitions_of names.after (u64 (strings_offset + names_size)) entries uninit names.stream
    some (record x { base = names.after; partitions = x.partitions ++ ps }, s')
