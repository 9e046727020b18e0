-- ===== src/Nca/Tests.antt =====
-- The theorems on Nca files at a header of each layout, with a cipher that changes nothing.
use fuse_nx.Prelude.{
  ℕ, ◌≤◌, ◌≡◌, ◌↔◌, refl, Bool, true, false, List, [], ◌∷◌, ◌++◌, length, replicate, none, some,
}
use fuse_nx.Io.{file, Stream}
use fuse_nx.Crypto.{Backend, key_of}
use fuse_nx.Crypto.Xts.{AesXts, SectorCipher, IsXtsMode}
use fuse_nx.Keyset.Text.{ok, thrown}
use fuse_nx.Keyset.Titles.{get_key}
use fuse_nx.Keys.{no_keys, no_titles}
use fuse_nx.Utils.{is_nonzero}
use fuse_nx.Nca.{Nca, Section, nca2_magic, nca3_magic, decrypt_header, parse, right_id, sections_of}
use fuse_nx.Nca.Header.{
  nca2_header, nca3_header, decrypt_header-nca2_header, decrypt_header-nca3_header,
}
use fuse_nx.Nca.Made.{length-sections_of_iff, ArePlainOrCtr}
use fuse_nx.Nca.Parse.{parse_returns}

abbrev plain_backend : Backend
plain_backend = record {
  run = λ m h bytes. record { error = 0; bytes = bytes };
  set_iv_error = λ h. 0;
}

abbrev identity : SectorCipher
identity key iv bytes = bytes

plain-IsXtsMode : IsXtsMode plain_backend identity
plain-IsXtsMode = record {
  tweaked = λ h iv e. refl;
  keeps_length = λ key iv plain. refl;
  undone = λ h iv plain e e'. refl;
}

abbrev key : List ℕ
key = replicate 32 7

abbrev main3 : List ℕ
main3 = replicate 0x200 1 ++ ((b'N' ∷ b'C' ∷ b'A' ∷ b'3' ∷ []) ++ replicate 0x1fc 2)

abbrev main2 : List ℕ
main2 = replicate 0x200 1 ++ ((b'N' ∷ b'C' ∷ b'A' ∷ b'2' ∷ []) ++ replicate 0x1fc 2)

abbrev fs : List ℕ
fs = replicate 0x800 5

decrypt_header-nca3_header_example :
    (ctx' : AesXts) × (decrypt_header plain_backend key none (nca3_header identity key main3 fs)
      ≡ some (main3 ++ fs, ctx'))
    × (key_of ctx'.handle ≡ key)
unfolding nca3_magic
decrypt_header-nca3_header_example =
    decrypt_header-nca3_header plain-IsXtsMode key none main3 fs tt refl refl refl

decrypt_header-nca2_header_example :
    (ctx' : AesXts) × (decrypt_header plain_backend key none (nca2_header identity key main2 fs)
      ≡ some (main2 ++ fs, ctx'))
    × (key_of ctx'.handle ≡ key)
unfolding nca2_magic
decrypt_header-nca2_header_example =
    decrypt_header-nca2_header plain-IsXtsMode key none main2 fs tt refl refl refl

abbrev content : Nca
content = record {
  base = file 0 0xc00;
  header = main3 ++ fs;
  has_rights_id = false;
  crypto_type = 0;
  body_key = [];
  num_sections = 0;
  sections = [];
}

abbrev memory : ℕ → List ℕ
memory n = replicate n 0xcc

abbrev disk : Stream
disk = record { contents = main3 ++ fs; at = 0 }

parse_returns_example :
    (ready : Bool) × (n' : Nca) × (s' : Stream) × (parse plain_backend memory no_keys no_titles
        content disk
      ≡ ok (ready, n', s'))
    × ((ready ≡ false) ↔ (
        (is_nonzero (right_id content.header) ≡ true)
        × (get_key no_titles (right_id content.header) ≡ thrown)))
parse_returns_example =
    parse_returns plain_backend memory no_keys no_titles content disk refl refl tt

abbrev unsupported : List (List ℕ × List ℕ)
unsupported = (replicate 16 1, replicate 0x200 4) ∷ []

length-sections_of_iff_example :
    (made : List Section) × (s' : Stream) × (sections_of plain_backend memory key
        (file 0 0xc00)
        unsupported
        disk
      ≡ some (made, s'))
    × (length made ≤ 1)
    × ((length made ≡ 1) ↔ ArePlainOrCtr unsupported)
length-sections_of_iff_example =
    length-sections_of_iff plain_backend memory key (file 0 0xc00) unsupported disk tt
