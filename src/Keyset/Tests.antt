-- ===== src/Keyset/Tests.antt =====
-- A console with its 32 slots empty and a few lines of a key file, and the theorems at them.
use fuse_nx.Prelude.{
  ℕ, ◌*◌, ◌^◌, ◌≡◌, refl, arith, true, if◌then◌else◌, ltb, List, [], ◌∷◌, ◌++◌, replicate, none,
  set, bit_or,
}
use fuse_nx.Keyset.Text.{string_view, codes, ok, fault}
use fuse_nx.Keyset.Hex.{is_hex, htoi, to_hex_array, print_hex, to_hex_array-print_hex}
use fuse_nx.Keyset.{KeySet, set_key, master_prefix}
use fuse_nx.Keyset.Console.{set_key_master, set_key_abbreviated}
use fuse_nx.Keyset.Titles.{TitlekeySet, set_title_key, get_key, bytes_eq, get_key-set_title_key}

abbrev zeros : List ℕ
zeros = replicate 16 0

abbrev empty_set : KeySet
empty_set = record {
  master_keys = replicate 32 zeros;
  titlekeks = replicate 32 zeros;
  header_key = replicate 32 0;
  aes_kek_generation_source = zeros;
  aes_key_generation_source = zeros;
  key_area_key_application_source = zeros;
  key_area_key_ocean_source = zeros;
  key_area_key_system_source = zeros;
}

abbrev value : List ℕ
value = replicate 32 b'a'

set_key_master_example :
    set_key empty_set (string_view (master_prefix ++ (b'0' ∷ b'B' ∷ [])) []) (string_view value [])
    ≡ (let gen = bit_or (htoi b'0' * 2 ^ 4) (htoi b'B') in
        if ltb gen 32
        then ok (record empty_set {
          master_keys = set empty_set.master_keys gen (to_hex_array 0x10 value);
        })
        else fault)
unfolding is_hex
set_key_master_example = set_key_master empty_set b'0' b'B' value [] [] refl refl

set_key_abbreviated_example :
    set_key empty_set (string_view (codes "aes_") []) (string_view value [])
    ≡ ok (record empty_set { aes_kek_generation_source = to_hex_array 0x10 value })
unfolding is_hex
set_key_abbreviated_example = set_key_abbreviated empty_set 3 value [] [] refl

to_hex_array-print_hex_example :
    (is_hex (print_hex true (0xa5 ∷ 0x1f ∷ [])) ≡ true)
    × (to_hex_array 2 (print_hex true (0xa5 ∷ 0x1f ∷ [])) ≡ 0xa5 ∷ 0x1f ∷ [])
to_hex_array-print_hex_example =
    to_hex_array-print_hex true (0xa5 ∷ 0x1f ∷ []) (omega arith, (omega arith, tt))

abbrev titles : TitlekeySet
titles = record { cli_key = none; keys = (zeros, value) ∷ [] }

get_key-set_title_key_example :
    get_key (set_title_key titles (1 ∷ []) zeros) (1 ∷ [])
    ≡ (if bytes_eq (1 ∷ []) (1 ∷ []) then ok zeros else get_key titles (1 ∷ []))
get_key-set_title_key_example = get_key-set_title_key titles (1 ∷ []) (1 ∷ []) zeros
