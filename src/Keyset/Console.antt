-- ===== src/Keyset/Console.antt =====
-- Which key a line of a key file sets.
use fuse_nx.Prelude.{
  ℕ, ◌*◌, ◌^◌, ◌<◌, ◌≡◌, arith, true, if◌then◌else◌, ltb, List, [], ◌∷◌, ◌++◌, length, set, bit_or,
  take, zero, suc, refl,
}
use fuse_nx.Keyset.Text.{string_view, ok, thrown, fault, equal, codes}
use fuse_nx.Keyset.Hex.{is_hex, htoi, to_hex_array}
use fuse_nx.Keyset.{KeySet, set_key, master_prefix, titlekek_prefix}

-- A master key of generation `gen`, two hexadecimal digits of either case, is stored from a
-- hexadecimal value in the slot of that number, if there is one, and nothing else changes; a number
-- past the slots is a store out of bounds.
pub set_key_master :
    (s : KeySet) (a b : ℕ) (value beyond beyond' : List ℕ)
    → is_hex (a ∷ b ∷ []) ≡ true
    → is_hex value ≡ true
    → set_key s (string_view (master_prefix ++ (a ∷ b ∷ [])) beyond) (string_view value beyond') ≡ (
        let gen = bit_or (htoi a * 2 ^ 4) (htoi b) in
        if ltb gen (length s.master_keys)
        then ok (record s { master_keys = set s.master_keys gen (to_hex_array 0x10 value) })
        else fault)
unfolding set_key
set_key_master s a b value beyond beyond' digits hex = ground arith

-- A titlekek of generation `gen`, two hexadecimal digits of either case, is stored from a hexadecimal
-- value in the titlekek slot of that number, if there is one, and nothing else changes; a number past
-- the slots is a store out of bounds.
pub set_key_titlekek :
    (s : KeySet) (a b : ℕ) (value beyond beyond' : List ℕ)
    → is_hex (a ∷ b ∷ []) ≡ true
    → is_hex value ≡ true
    → set_key s (string_view (titlekek_prefix ++ (a ∷ b ∷ [])) beyond) (string_view value beyond')
      ≡ (let gen = bit_or (htoi a * 2 ^ 4) (htoi b) in
          if ltb gen (length s.titlekeks)
          then ok (record s { titlekeks = set s.titlekeks gen (to_hex_array 0x10 value) })
          else fault)
unfolding set_key
set_key_titlekek s a b value beyond beyond' digits hex = ground arith

-- With a hexadecimal value, the name `master_key_` alone, or with one hexadecimal digit behind it,
-- throws.
set_key_short :
    (s : KeySet) (digits value beyond beyond' : List ℕ)
    → length digits < 2
    → is_hex digits ≡ true
    → is_hex value ≡ true
    → set_key s (string_view (master_prefix ++ digits) beyond) (string_view value beyond') ≡ thrown
unfolding set_key
set_key_short s [] value beyond beyond' short digit hex = ground arith
set_key_short s (a ∷ []) value beyond beyond' short digit hex = ground arith
set_key_short s (a ∷ b ∷ rest) value beyond beyond' short digit hex = absurd (omega arith)

equal-take : (n : ℕ) (xs ys : List ℕ) → equal (take n xs) (xs ++ ys) ≡ ok true
unfolding equal
equal-take zero xs ys = refl
equal-take (suc n) [] ys = refl
equal-take (suc n) (x ∷ xs) ys = ground (arith, equal-take n xs ys)

abbrev pub kek_source : List ℕ
kek_source = codes "aes_kek_generation_source"

-- The comparison stops at the end of the first operand: an identifier that is any nonempty
-- beginning of `aes_kek_generation_source` sets that key from a hexadecimal value.
pub set_key_abbreviated :
    (s : KeySet) (n : ℕ) (value beyond beyond' : List ℕ)
    → is_hex value ≡ true
    → set_key s (string_view (take (suc n) kek_source) beyond) (string_view value beyond')
      ≡ ok (record s { aes_kek_generation_source = to_hex_array 0x10 value })
unfolding set_key
set_key_abbreviated s n value beyond beyond' hex =
    rw (hex, equal-take (suc n) kek_source (0 ∷ [])) refl

-- The six unnumbered keys: each name, as it is written in the source, sets its own key from a
-- hexadecimal value and leaves the others.
pub set_key_named :
    (s : KeySet) (value beyond beyond' : List ℕ)
    → is_hex value ≡ true
    → let sets =
        λ (name : List ℕ). set_key s (string_view name beyond) (string_view value beyond') in
      (sets (codes "aes_kek_generation_source")
        ≡ ok (record s { aes_kek_generation_source = to_hex_array 0x10 value }))
      × (sets (codes "aes_key_generation_source")
          ≡ ok (record s { aes_key_generation_source = to_hex_array 0x10 value }))
      × (sets (codes "key_area_key_application_source")
          ≡ ok (record s { key_area_key_application_source = to_hex_array 0x10 value }))
      × (sets (codes "key_area_key_ocean_source")
          ≡ ok (record s { key_area_key_ocean_source = to_hex_array 0x10 value }))
      × (sets (codes "key_area_key_system_source")
          ≡ ok (record s { key_area_key_system_source = to_hex_array 0x10 value }))
      × (sets (codes "header_key") ≡ ok (record s { header_key = to_hex_array 0x20 value }))
unfolding set_key
set_key_named s value beyond beyond' hex = rw hex (refl, refl, refl, refl, refl, refl)
