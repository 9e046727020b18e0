-- ===== src/Keyset.antt =====
-- include/fnx/keyset.hpp and lib/keyset.cpp: the keys of a console, and the keys of titles.
pub mod Text
pub mod Hex
pub mod Console
pub mod Titles
mod Tests
use Text.{
  StringView, string_view, literal, Outcome, ok, thrown, fault, ◌>>=◌, view_eq, substr, at, codes,
}
use Hex.{is_hex, htoi, to_hex_array}
use fuse_nx.Prelude.{
  ℕ, ◌+◌, ◌*◌, ◌%◌, ◌^◌, Bool, true, false, if◌then◌else◌, ltb, ◌==◌, List, [], ◌∷◌, length, set,
  Option, none, some, bit_or,
}

pub record KeySet : Type 0 where
  pub master_keys : List (List ℕ)
  pub titlekeks : List (List ℕ)
  pub header_key : List ℕ
  pub aes_kek_generation_source : List ℕ
  pub aes_key_generation_source : List ℕ
  pub key_area_key_application_source : List ℕ
  pub key_area_key_ocean_source : List ℕ
  pub key_area_key_system_source : List ℕ

-- `arr[gen] = key` on an array of 32 keys; a store behind its end is a fault.
unfoldable pub store : List (List ℕ) → ℕ → List ℕ → Outcome (List (List ℕ))
store keys gen key = if ltb gen (length keys) then ok (set keys gen key) else fault

-- `(htoi(id.at(len)) << 4) | (htoi(id.at(len + 1)) << 0)`
unfoldable pub generation : StringView → ℕ → Outcome ℕ
unfolding at htoi
generation id len = do hi ← at id len; lo ← at id (len + 1); ok (bit_or (htoi hi * 2 ^ 4) (htoi lo))

-- `if (test) … else …`, for a test that may throw or fault.
abbrev pub branch {ℓ} : {A : Type ℓ} → Outcome Bool → Outcome A → Outcome A → Outcome A
branch (ok true) x y = x
branch (ok false) x y = y
branch thrown x y = thrown
branch fault x y = fault

abbrev pub master_prefix : List ℕ
master_prefix = codes "master_key_"

abbrev pub titlekek_prefix : List ℕ
titlekek_prefix = codes "titlekek_"

-- `prefix == id && is_hex(id.substr(len))`.
unfoldable pub is_numbered : StringView → List ℕ → Outcome Bool
unfolding view_eq substr is_hex
is_numbered id prefix =
    branch (view_eq (literal prefix) id)
      (do rest ← substr id (length prefix); ok (is_hex rest.chars)) (ok false)

unfoldable pub set_master : KeySet → StringView → List ℕ → Outcome KeySet
unfolding generation store to_hex_array
set_master s id value = do
  gen ← generation id (length master_prefix)
  keys ← store s.master_keys gen (to_hex_array 0x10 value)
  ok (record s { master_keys = keys })

unfoldable pub set_titlekek : KeySet → StringView → List ℕ → Outcome KeySet
unfolding generation store to_hex_array
set_titlekek s id value = do
  gen ← generation id (length titlekek_prefix)
  keys ← store s.titlekeks gen (to_hex_array 0x10 value)
  ok (record s { titlekeks = keys })

-- The cases of `set_key`, in their order.
unfoldable pub set_named : KeySet → StringView → List ℕ → Outcome KeySet
unfolding set_master set_titlekek is_numbered view_eq to_hex_array
set_named s id value =
    branch (view_eq id (literal (codes "aes_kek_generation_source")))
      (ok (record s { aes_kek_generation_source = to_hex_array 0x10 value }))
      (branch (view_eq id (literal (codes "aes_key_generation_source")))
        (ok (record s { aes_key_generation_source = to_hex_array 0x10 value }))
        (branch (view_eq id (literal (codes "key_area_key_application_source")))
          (ok (record s { key_area_key_application_source = to_hex_array 0x10 value }))
          (branch (view_eq id (literal (codes "key_area_key_ocean_source")))
            (ok (record s { key_area_key_ocean_source = to_hex_array 0x10 value }))
            (branch (view_eq id (literal (codes "key_area_key_system_source")))
              (ok (record s { key_area_key_system_source = to_hex_array 0x10 value }))
              (branch (view_eq id (literal (codes "header_key")))
                (ok (record s { header_key = to_hex_array 0x20 value }))
                (branch (is_numbered id master_prefix) (set_master s id value)
                  (branch (is_numbered id titlekek_prefix) (set_titlekek s id value) (ok s))))))))

-- `set_key`. A value that is not hexadecimal is reported and dropped.
unfoldable pub set_key : KeySet → StringView → StringView → Outcome KeySet
unfolding set_named is_hex
set_key s id value = if is_hex value.chars then set_named s id value.chars else ok s

unfoldable pub get_kaek : KeySet → ℕ → List ℕ
get_kaek s idx =
    if idx == 1
    then s.key_area_key_ocean_source
    else if idx == 2
    then s.key_area_key_system_source
    else s.key_area_key_application_source
