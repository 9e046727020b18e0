-- ===== src/Nca/Fields.antt =====
-- The layout of the header and of its entries, include/fnx/formats/nca.hpp: each field at its offset in the
-- `struct`s, little-endian.
use fuse_nx.Prelude.{ℕ, ◌+◌, ◌*◌, ◌/◌, ◌%◌, ◌^◌, List, [], ◌∷◌}
use fuse_nx.Prelude.Words.{u64}
use fuse_nx.Prelude.Bytes.{field_at}
use fuse_nx.Prelude.Slices.{slice}
use fuse_nx.Utils.{four_cc}

unfoldable pub nca2_magic : ℕ
unfolding four_cc
nca2_magic = four_cc b'N' b'C' b'A' b'2'

unfoldable pub nca3_magic : ℕ
unfolding four_cc
nca3_magic = four_cc b'N' b'C' b'A' b'3'

-- The fields of `Header` that the code reads.
abbrev pub magic : List ℕ → ℕ
magic h = field_at 0x200 4 h

abbrev pub old_crypto_type : List ℕ → ℕ
old_crypto_type h = field_at 0x206 1 h

abbrev pub kaek_idx : List ℕ → ℕ
kaek_idx h = field_at 0x207 1 h

abbrev pub crypto_gen : List ℕ → ℕ
crypto_gen h = field_at 0x220 1 h

abbrev pub right_id : List ℕ → List ℕ
right_id h = slice 0x230 0x10 h

-- The fields that the accessors give out. The two enumerations are a byte each, of any value.
abbrev pub get_distribution_type : List ℕ → ℕ
get_distribution_type h = field_at 0x204 1 h

abbrev pub get_content_type : List ℕ → ℕ
get_content_type h = field_at 0x205 1 h

abbrev pub get_size : List ℕ → ℕ
get_size h = field_at 0x208 8 h

abbrev pub get_title_id : List ℕ → ℕ
get_title_id h = field_at 0x210 8 h

abbrev pub sdk_ver : List ℕ → ℕ
sdk_ver h = field_at 0x21c 4 h

abbrev pub get_sdk_ver : List ℕ → List ℕ
get_sdk_ver h =
    (sdk_ver h / 2 ^ 24) % 2 ^ 8
    ∷ (sdk_ver h / 2 ^ 16) % 2 ^ 8
    ∷ (sdk_ver h / 2 ^ 8) % 2 ^ 8
    ∷ sdk_ver h % 2 ^ 8
    ∷ []

-- `fs_entries[i]`, `key_area` and `fs_headers[i]`.
abbrev pub fs_entry : List ℕ → ℕ → List ℕ
fs_entry h i = slice (0x240 + i * 0x10) 0x10 h

abbrev pub key_area : List ℕ → List ℕ
key_area h = slice 0x300 0x40 h

abbrev pub fs_header : List ℕ → ℕ → List ℕ
fs_header h i = slice (0x400 + i * 0x200) 0x200 h

-- `FsEntry`.
abbrev pub media_start_offset : List ℕ → ℕ
media_start_offset e = field_at 0 4 e

unfoldable pub start_offset : List ℕ → ℕ
start_offset e = u64 (field_at 0 4 e * 0x200)

unfoldable pub end_offset : List ℕ → ℕ
end_offset e = u64 (field_at 4 4 e * 0x200)

-- `FsHeader`, with the superblock that is of use in each case.
abbrev pub fs_type : List ℕ → ℕ
fs_type f = field_at 2 1 f

abbrev pub hash_type : List ℕ → ℕ
hash_type f = field_at 3 1 f

abbrev pub encryption_type : List ℕ → ℕ
encryption_type f = field_at 4 1 f

abbrev pub nonce : List ℕ → ℕ
nonce f = field_at 0x140 8 f
