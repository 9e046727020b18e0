-- ===== src/Formats/Table.antt =====
-- What `Pfs` and `Hfs` share: a header, a table of entries of a fixed size, a table of names, and
-- the data. `none` is an access out of bounds, here a name offset past the name table, or a name
-- that the table does not terminate.
pub mod Layout
pub mod Parse
pub mod Open
use mathlib.Core.Option
use fuse_nx.Prelude.{
  ℕ, zero, suc, ◌+◌, ◌-◌, ◌*◌, List, [], ◌∷◌, ◌++◌, length, take, drop, replicate, Option, none,
  some,
}
use fuse_nx.Prelude.Bytes.{field_at}
use fuse_nx.Io.{FileBase, Read, Stream, read_at, clone, new_offset_file}
use fuse_nx.Crypto.{Backend}

-- `Header`, of 16 bytes; `_res1` is not read.
pub record Header : Type 0 where
  pub magic : ℕ
  pub num_files : ℕ
  pub string_table_size : ℕ

unfoldable pub header_of : List ℕ → Header
header_of bytes = record {
  magic = field_at 0 4 bytes;
  num_files = field_at 4 4 bytes;
  string_table_size = field_at 8 4 bytes;
}

pub record Entry : Type 0 where
  pub offset : ℕ
  pub size : ℕ
  pub name : List ℕ

-- `std::vector::resize`.
unfoldable pub resize : ℕ → List ℕ → List ℕ
resize n xs = take n xs ++ replicate (n - length xs) 0

-- `std::string_view(const char *)`: the characters up to the terminator.
unfoldable pub c_string : List ℕ → Option (List ℕ)
c_string [] = none
c_string (zero ∷ cs) = some []
c_string (suc c ∷ cs) = Option.map (◌∷◌ (suc c)) (c_string cs)

infixl 5 ◌>>=◌
abbrev pub ◌>>=◌ {ℓ κ} : {A : Type ℓ} {B : Type κ} → Option A → (A → Option B) → Option B
none >>= f = none
some a >>= f = f a

-- The loop over the entries: `n` are left, and `table` starts at the first of them.
unfoldable pub entries_of : ℕ → ℕ → List ℕ → List ℕ → Option (List Entry)
unfolding c_string
entries_of esize zero table names = some []
entries_of esize (suc n) table names = do
  name ← c_string (drop (field_at 16 4 table) names)
  rest ← entries_of esize n (drop esize table) names
  some (record { offset = field_at 0 8 table; size = field_at 8 8 table; name = name } ∷ rest)

-- The state of a `Pfs` or an `Hfs`.
pub record Table : Type 0 where
  pub base : FileBase
  pub header : Header
  pub strings_offset : ℕ
  pub data_offset : ℕ
  pub entries : List Entry
  pub names_table : List ℕ

module _ (b : Backend) where
  -- The constructor reads the header, over memory of any content.
  unfoldable pub construct : FileBase → List ℕ → Stream → Option (Table × Stream)
  unfolding header_of
  construct base uninit s = do
    r ← read_at b 0 base uninit s
    some (
      record {
        base = r.after;
        header = header_of r.dest;
        strings_offset = 0;
        data_offset = 0;
        entries = [];
        names_table = [];
      },
      r.stream,
    )

  -- `parse`, for entries of `esize` bytes.
  unfoldable pub parse_table : ℕ → Table → Stream → Option (Table × Stream)
  unfolding resize entries_of
  parse_table esize t s = do
    let n = t.header.num_files
    let strings_offset = 0x10 + n * esize
    table ← read_at b 0x10 t.base (replicate (n * esize) 0) s
    names ←
        read_at b strings_offset table.after (resize t.header.string_table_size t.names_table)
          table.stream
    entries ← entries_of esize n table.dest names.dest
    some (
      record {
        base = names.after;
        header = t.header;
        strings_offset = strings_offset;
        data_offset = strings_offset + t.header.string_table_size;
        entries = entries;
        names_table = names.dest;
      },
      names.stream,
    )

-- `open(entry)`: a window on the data.
unfoldable pub open_entry : Table → Entry → FileBase
open_entry t e = new_offset_file (clone t.base) e.size (e.offset + t.data_offset)

-- What `Container` does with a file: the constructor, then `parse`.
unfoldable pub load : Backend → ℕ → FileBase → List ℕ → Stream → Option (Table × Stream)
unfolding construct parse_table
load b esize base uninit s = do (t, s') ← construct b base uninit s; parse_table b esize t s'
