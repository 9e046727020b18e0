-- ===== src/Nca.antt =====
-- include/fnx/formats/nca.hpp and lib/nca.cpp. The header stays the 0xc00 bytes that it is in memory,
-- with its fields at the offsets of the `struct`s. `uninit` is memory of so many bytes, of any content.
mod Fields
pub mod Header
pub mod Made
pub mod Parse
pub mod Sections
pub mod Contents
mod Tests
use mathlib.Core.Option
use fuse_nx.Prelude.{
  ℕ, zero, suc, ◌+◌, ◌-◌, ◌*◌, min, Bool, true, false, ◌&&◌, ◌||◌, not, if◌then◌else◌, ltb, ◌==◌,
  List, [], ◌∷◌, ◌++◌, map, length, take, drop, replicate, get_elem?, Option, none, some,
}
use fuse_nx.Prelude.Words.{u64, sub64}
use fuse_nx.Prelude.Bytes.{field_at}
use fuse_nx.Prelude.Slices.{slice, overwrite}
use fuse_nx.Formats.Table.{Table, construct, ◌>>=◌}
use fuse_nx.Romfs.Types.{RomFs}
use fuse_nx.Romfs.Tables.{romfs as romfs_of}
unfoldable pub use Fields.*
use fuse_nx.Utils.{is_nonzero}
use fuse_nx.Io.{FileBase, Stream, Read, read_at, clone, new_offset_file, new_ctr_file}
use fuse_nx.Crypto.{Backend, bswap64, aes_ctr, aes_ecb, gen_aes_kek}
use fuse_nx.Crypto.Xts.{AesXts, aes_xts, set_sector, decrypt_xts, Decrypted}
use fuse_nx.Keyset.{KeySet, get_kaek}
use fuse_nx.Keyset.Titles.{TitlekeySet, get_key}
use fuse_nx.Keyset.Text.{Outcome, ok, thrown, fault}

pub data SectionType : Type 0 where
  pfs romfs : SectionType

pub record SectionInfo : Type 0 where
  pub type : SectionType
  pub offset : ℕ
  pub size : ℕ
  pub container_offset : ℕ
  pub container_size : ℕ

-- `FsType::Pfs` is 1 and `HashType::HierarchicalSha256` is 2; a `Pfs` is at `pfs_offset`, a `RomFs`
-- at the last of the six levels.
unfoldable pub make_section_info : List ℕ → List ℕ → SectionInfo
unfolding start_offset end_offset
make_section_info entry header =
    let offset = start_offset entry in
    let size = sub64 (end_offset entry) (start_offset entry) in
    if (fs_type header == 1) && (hash_type header == 2)
    then record {
      type = pfs;
      offset = offset;
      size = size;
      container_offset = u64 (field_at 0x40 8 header + offset);
      container_size = field_at 0x48 8 header;
    }
    else record {
      type = romfs;
      offset = offset;
      size = size;
      container_offset = u64 (field_at 0x90 8 header + offset);
      container_size = field_at 0x98 8 header;
    }

-- `container`, the storage of either kind.
pub data Contained : Type 0 where
  as_pfs : Table → Contained
  as_romfs : RomFs → Contained

pub record Section : Type 0 where
  pub type : SectionType
  pub offset : ℕ
  pub size : ℕ
  pub container : Contained

-- The base of `get_pfs()` or `get_romfs()`.
unfoldable pub contained_base : Contained → FileBase
contained_base (as_pfs t) = t.base
contained_base (as_romfs r) = r.base

-- The window that `Section`'s constructor makes.
unfoldable pub section_file : SectionInfo → List ℕ → List ℕ → FileBase → FileBase
unfolding bswap64 aes_ctr
section_file info header key base =
    if encryption_type header == 3
    then new_ctr_file base (aes_ctr key (bswap64 (nonce header))) info.container_size
        info.container_offset
    else new_offset_file base info.container_size info.container_offset

-- `std::construct_at` of the one container or the other.
unfoldable pub contain :
    Backend → (ℕ → List ℕ) → SectionType → FileBase → Stream → Option (Contained × Stream)
unfolding construct romfs_of
contain b uninit pfs window s = do (t, s') ← construct b window (uninit 0x10) s; some (as_pfs t, s')
contain b uninit romfs window s = do
  (r, s') ← romfs_of b window (uninit 0x50) s
  some (as_romfs r, s')

-- `Section`'s constructor.
unfoldable pub section :
    Backend
    → (ℕ → List ℕ)
    → List ℕ
    → List ℕ
    → List ℕ
    → FileBase
    → Stream
    → Option (Section × Stream)
unfolding make_section_info section_file contain
section b uninit entry header key base s = do
  let info = make_section_info entry header
  (c, s') ← contain b uninit info.type (section_file info header key base) s
  some (record { type = info.type; offset = info.offset; size = info.size; container = c }, s')

-- The last loop of `decrypt_header`: each of the `n` headers that are left as sector 0.
unfoldable pub decrypt_fs_headers : Backend → ℕ → AesXts → List ℕ → Option (List ℕ × AesXts)
unfolding set_sector decrypt_xts
decrypt_fs_headers b zero ctx bytes = some (bytes, ctx)
decrypt_fs_headers b (suc n) ctx bytes = do
  r ← decrypt_xts b (set_sector b ctx 0).1 (take 0x200 bytes)
  (rest, ctx') ← decrypt_fs_headers b n r.after (drop 0x200 bytes)
  some (r.bytes ++ rest, ctx')

-- The static context: made of the header key at the first call, and set back to sector 0 after.
unfoldable pub header_ctx : Backend → List ℕ → Option AesXts → AesXts
unfolding aes_xts set_sector
header_ctx b key none = aes_xts key 0
header_ctx b key (some ctx) = (set_sector b ctx 0).1

-- `decrypt_header`: the bytes of the header, and the static context after the call.
unfoldable pub decrypt_header : Backend → List ℕ → Option AesXts → List ℕ → Option (List ℕ × AesXts)
unfolding header_ctx decrypt_xts decrypt_fs_headers nca2_magic nca3_magic
decrypt_header b key ctx header = do
  r ← decrypt_xts b (header_ctx b key ctx) (take 0x400 header)
  let header' = r.bytes ++ drop 0x400 header
  let rest = drop 0x400 header
  if magic header' == nca3_magic
      then Option.map {A = Decrypted} (λ r'. (r.bytes ++ r'.bytes, r'.after))
          (decrypt_xts b r.after rest)
      else if magic header' == nca2_magic
      then Option.map {A = List ℕ × AesXts} (λ q. (r.bytes ++ q.0, q.1))
          (decrypt_fs_headers b 4 r.after rest)
      else some (header', r.after)

unfoldable pub is_magic : ℕ → Bool
unfolding nca2_magic nca3_magic
is_magic m = (m == nca2_magic) || (m == nca3_magic)

-- `match` on the first bytes of a file, over a header of any content; more bytes than a header has
-- are copied out of bounds.
unfoldable pub matches : Backend → List ℕ → Option AesXts → List ℕ → List ℕ → Option (Bool × AesXts)
unfolding decrypt_header is_magic
matches b key ctx uninit bytes =
    if ltb (length uninit) (length bytes)
    then none
    else Option.map {A = List ℕ × AesXts} (λ q. (is_magic (magic q.0), q.1))
        (decrypt_header b key ctx (overwrite uninit bytes))

pub record Nca : Type 0 where
  pub base : FileBase
  pub header : List ℕ
  pub has_rights_id : Bool
  pub crypto_type : ℕ
  pub body_key : List ℕ
  pub num_sections : ℕ
  pub sections : List Section

-- The entries and file system headers of the sections that exist, of the `n` from number `i` on.
unfoldable pub existing : ℕ → ℕ → List ℕ → List (List ℕ × List ℕ)
existing zero i h = []
existing (suc n) i h =
    if media_start_offset (fs_entry h i) == 0
    then existing n (suc i) h
    else (fs_entry h i, fs_header h i) ∷ existing n (suc i) h

-- The constructor. `crypto_type` and `body_key` are not set yet, which is the content of `garbage`.
unfoldable pub nca :
    Backend
    → List ℕ
    → Option AesXts
    → FileBase
    → List ℕ
    → ℕ × List ℕ
    → Stream
    → Option (Nca × AesXts × Stream)
unfolding decrypt_header existing
nca b key ctx base uninit garbage s = do
  r ← read_at b 0 base uninit s
  (header, ctx') ← decrypt_header b key ctx r.dest
  some (
    record {
      base = r.after;
      header = header;
      has_rights_id = false;
      crypto_type = garbage.0;
      body_key = garbage.1;
      num_sections = length (existing 4 0 header);
      sections = [];
    },
    ctx',
    r.stream,
  )

unfoldable pub is_valid : Nca → Bool
unfolding is_magic
is_valid n = is_magic (magic n.header)

-- `std::clamp(v - 1, 0, 0x1f)`; the subtraction is one of `int`, and -1 is clamped to 0 as well.
unfoldable pub clamp_type : ℕ → ℕ
clamp_type v = min (v - 1) 0x1f

-- An array of keys at an index; one behind the array's end is an access out of bounds.
unfoldable pub key_at : List (List ℕ) → ℕ → Outcome (List ℕ)
key_at keys i = elim (get_elem? keys i) [ none ↦ fault | some key ↦ ok key ]

-- `decrypt_titlekey`; `false` when the title key is missing, with the exception that tells caught.
unfoldable pub decrypt_titlekey : Backend → KeySet → TitlekeySet → Nca → Outcome (Bool × Nca)
unfolding get_key key_at aes_ecb
decrypt_titlekey b keys titles n = elim (get_key titles (right_id n.header)) [
  | thrown ↦ ok (false, n)
  | fault ↦ fault
  | ok tkey ↦ elim (key_at keys.titlekeks n.crypto_type) [
    | ok tkek ↦ ok (true, record n { body_key = aes_ecb b tkek tkey })
    | thrown ↦ thrown
    | fault ↦ fault
  ]
]

-- `decrypt_keyarea`, which decrypts the four keys in the header.
unfoldable pub decrypt_keyarea : Backend → KeySet → Nca → Outcome Nca
unfolding get_kaek key_at gen_aes_kek aes_ecb
decrypt_keyarea b keys n = elim (key_at keys.master_keys n.crypto_type) [
  | ok mkey ↦
      let area_key =
        gen_aes_kek b (get_kaek keys (kaek_idx n.header)) mkey keys.aes_kek_generation_source
          keys.aes_key_generation_source in
      ok (record n {
        header =
            take 0x300 n.header ++ (aes_ecb b area_key (key_area n.header) ++ drop 0x340 n.header);
      })
  | thrown ↦ thrown
  | fault ↦ fault
]

unfoldable pub is_supported : List ℕ → Bool
is_supported f = (encryption_type f == 1) || (encryption_type f == 3)

-- The loop that makes the sections: one of an unsupported encryption is left out.
unfoldable pub sections_of :
    Backend
    → (ℕ → List ℕ)
    → List ℕ
    → FileBase
    → List (List ℕ × List ℕ)
    → Stream
    → Option (List Section × Stream)
unfolding section is_supported
sections_of b uninit key base [] s = some ([], s)
sections_of b uninit key base ((entry, header) ∷ rest) s = elim (is_supported header) [
  | true ↦ do
    (made, s') ← section b uninit entry header key (clone base) s
    (others, s'') ← sections_of b uninit key base rest s'
    some (made ∷ others, s'')
  | false ↦ sections_of b uninit key base rest s
]

unfoldable pub with_sections : Backend → (ℕ → List ℕ) → Nca → Stream → Outcome (Bool × Nca × Stream)
unfolding sections_of existing
with_sections b uninit n s =
    elim (sections_of b uninit n.body_key n.base (existing 4 0 n.header) s) [
      | none ↦ fault
      | some (made, s') ↦ ok (true, record n { sections = n.sections ++ made }, s')
    ]

-- The generation of the keys: the newer of the two fields, from 1 on.
unfoldable pub with_type : Nca → Nca
unfolding clamp_type
with_type n =
    let t = old_crypto_type n.header in
    let g = crypto_gen n.header in record n { crypto_type = clamp_type (if ltb g t then t else g) }

-- `parse` up to the loop over the sections: the keys. `false` is a title key that is missing.
unfoldable pub with_body_key : Backend → KeySet → TitlekeySet → Nca → Outcome (Bool × Nca)
unfolding with_type decrypt_titlekey decrypt_keyarea
with_body_key b keys titles n =
    let n1 = with_type n in
    if is_nonzero (right_id n1.header)
    then decrypt_titlekey b keys titles (record n1 { has_rights_id = true })
    else elim (decrypt_keyarea b keys n1) [
      | ok n2 ↦ ok (true, record n2 { body_key = slice 0x20 0x10 (key_area n2.header) })
      | thrown ↦ thrown
      | fault ↦ fault
    ]

unfoldable pub parse :
    Backend → (ℕ → List ℕ) → KeySet → TitlekeySet → Nca → Stream → Outcome (Bool × Nca × Stream)
unfolding with_body_key with_sections
parse b uninit keys titles n s = elim (with_body_key b keys titles n) [
  | ok (true, n') ↦ with_sections b uninit n' s
  | ok (false, n') ↦ ok (false, n', s)
  | thrown ↦ thrown
  | fault ↦ fault
]

unfoldable pub get_section_infos : Nca → List SectionInfo
unfolding make_section_info existing
get_section_infos n =
    map (λ (e : List ℕ × List ℕ). make_section_info e.0 e.1) (existing 4 0 n.header)
