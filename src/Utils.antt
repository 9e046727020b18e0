-- ===== src/Utils.antt =====
-- include/fnx/utils.hpp: alignment, four-character codes, and the test for a nonzero array.
pub mod Laws
mod Tests
use fuse_nx.Prelude.{
  ℕ, ◌+◌, ◌-◌, ◌*◌, ◌%◌, ◌^◌, Bool, false, true, ◌||◌, not, ◌==◌, List, [], ◌∷◌, bit_and, bit_or,
}
use fuse_nx.Prelude.Words.{bit_not, u32}

-- `val & ~(align - 1)` on a word of `w` bits.
unfoldable pub align_down : ℕ → ℕ → ℕ → ℕ
align_down w val align = bit_and val (bit_not w (align - 1))

-- `(val + align - 1) & ~(align - 1)`; the sum wraps at `w` bits.
unfoldable pub align_up : ℕ → ℕ → ℕ → ℕ
align_up w val align = bit_and ((val + align - 1) % 2 ^ w) (bit_not w (align - 1))

-- `FourCC(a, b, c, d)`, over the codes of ASCII characters.
unfoldable pub four_cc : ℕ → ℕ → ℕ → ℕ → ℕ
four_cc a b c d = u32 (bit_or (bit_or (bit_or (d * 2 ^ 0x18) (c * 2 ^ 0x10)) (b * 2 ^ 0x8)) a)

unfoldable pub is_nonzero : List ℕ → Bool
is_nonzero [] = false
is_nonzero (x ∷ xs) = not (x == 0) || is_nonzero xs
