-- ===== src/Keyset/Hex.antt =====
-- Hexadecimal digits: tests, values, and arrays of bytes.
use fuse_nx.Prelude.{
  ℕ, zero, suc, ◌+◌, ◌-◌, ◌*◌, ◌/◌, ◌%◌, ◌^◌, ◌<◌, ◌≡◌, refl, ap₂, ◌∙◌, arith, Bool, true, false,
  if◌then◌else◌, leb, ltb, ◌&&◌, ◌||◌, List, [], ◌∷◌, length, bit_or,
}
use fuse_nx.Prelude.Bytes.{IsBytes}
use fuse_nx.Prelude.Words.{bit_or_fields}

unfoldable pub is_hex_digit : ℕ → Bool
is_hex_digit c =
    (leb b'a' c && leb c b'f') || (leb b'A' c && leb c b'F') || (leb b'0' c && leb c b'9')

unfoldable pub is_hex : List ℕ → Bool
unfolding is_hex_digit
is_hex [] = true
is_hex (c ∷ cs) = is_hex_digit c && is_hex cs

unfoldable pub htoi : ℕ → ℕ
htoi c =
    if leb b'a' c && leb c b'f'
    then c - b'a' + 0xa
    else if leb b'A' c && leb c b'F'
    then c - b'A' + 0xa
    else if leb b'0' c && leb c b'9'
    then c - b'0'
    else 0

-- `to_hex_array<T>` for arrays of `n` bytes: what the text does not reach stays 0.
unfoldable pub to_hex_array : ℕ → List ℕ → List ℕ
unfolding htoi
to_hex_array zero str = []
to_hex_array (suc n) [] = 0 ∷ to_hex_array n []
to_hex_array (suc n) (a ∷ []) = 0 ∷ to_hex_array n []
to_hex_array (suc n) (a ∷ b ∷ rest) = bit_or (htoi a * 2 ^ 4) (htoi b) ∷ to_hex_array n rest

-- A digit as `%x` prints it, and with capitals.
pub digit : Bool → ℕ → ℕ
digit capital d =
    if ltb d 10 then b'0' + d else if capital then b'A' + (d - 10) else b'a' + (d - 10)

pub print_hex : Bool → List ℕ → List ℕ
print_hex capital [] = []
print_hex capital (x ∷ xs) = digit capital (x / 16) ∷ digit capital (x % 16) ∷ print_hex capital xs

htoi-digit : (capital : Bool) (d : ℕ) → d < 16 → htoi (digit capital d) ≡ d
unfolding htoi digit
htoi-digit true d h = ground arith
htoi-digit false d h = ground arith

is_hex_digit-digit : (capital : Bool) (d : ℕ) → d < 16 → is_hex_digit (digit capital d) ≡ true
unfolding is_hex_digit digit
is_hex_digit-digit true d h = ground arith
is_hex_digit-digit false d h = ground arith

-- A key printed in hexadecimal, in either case, passes the test and reads back as its bytes.
pub to_hex_array-print_hex :
    (capital : Bool) (xs : List ℕ)
    → IsBytes xs
    → (is_hex (print_hex capital xs) ≡ true)
      × (to_hex_array (length xs) (print_hex capital xs) ≡ xs)
unfolding is_hex to_hex_array print_hex
to_hex_array-print_hex capital [] h = (refl, refl)
to_hex_array-print_hex capital (x ∷ xs) h =
    let (all, back) = to_hex_array-print_hex capital xs h.1 in
    (
      rw
          (
            is_hex_digit-digit capital (x / 16) (omega arith),
            is_hex_digit-digit capital (x % 16) (omega arith),
          )
          all,
      rw (htoi-digit capital (x / 16) (omega arith), htoi-digit capital (x % 16) (omega arith))
          (ap₂ ◌∷◌ (bit_or_fields 4 (x / 16) (x % 16) (omega arith) ∙ omega arith) back),
    )
