-- ===== src/Utils/Laws.antt =====
-- What the alignment masks and the four-character codes mean as arithmetic.
use native.Mathlib.Nat.{
  pow-suc, one-le-pow, div-lt_iff_lt-mul, mul-mod_left, div-mul-le_self, lt-div-mul-add,
  mod-eq_of_lt,
}
use fuse_nx.Prelude.{
  ℕ, zero, suc, ◌+◌, ◌-◌, ◌*◌, ◌/◌, ◌%◌, ◌^◌, ◌≤◌, ◌<◌, ◌≡◌, refl, ap, ◌∙◌, ◌↔◌, arith, bit_and,
  bit_or, List, [], ◌∷◌, false, length, replicate,
}
use fuse_nx.Prelude.Bytes.{le}
use fuse_nx.Prelude.Words.{bit_not, bit_and_ones, bit_and_shifted, bit_or_fields}
use fuse_nx.Utils.{align_down, align_up, four_cc, is_nonzero}

two-pow-add : (j k : ℕ) → 2 ^ (j + k) ≡ 2 ^ j * 2 ^ k
two-pow-add zero k = ap (λ (t : ℕ). 2 ^ t) {y = k} (omega arith) ∙ omega arith
two-pow-add (suc j) k =
    ap (λ (t : ℕ). 2 ^ t) {y = suc (j + k)} (omega arith)
    ∙ omega (
      arith,
      pow-suc 2 (j + k),
      pow-suc 2 j,
      two-pow-add j k,
      ap (λ (t : ℕ). t * 2 ^ k) (pow-suc 2 j),
    )

pred-mul : (a b : ℕ) → 1 ≤ a → (a - 1) * b + b ≡ a * b
pred-mul zero b h = absurd (omega arith)
pred-mul (suc a) b h = ap (λ (t : ℕ). t * b + b) {x = suc a - 1} {y = a} (omega arith) ∙ omega arith

high_mask : (j k : ℕ) → bit_not (j + k) (2 ^ k - 1) ≡ (2 ^ j - 1) * 2 ^ k
high_mask j k = omega (
  arith,
  two-pow-add j k,
  one-le-pow k 2,
  one-le-pow j 2,
  pred-mul (2 ^ j) (2 ^ k) (one-le-pow j 2 (omega arith)),
)

mask-eq :
    (j k a : ℕ) → a < 2 ^ (j + k) → bit_and a (bit_not (j + k) (2 ^ k - 1)) ≡ a / 2 ^ k * 2 ^ k
mask-eq j k a h =
    rw (high_mask j k, bit_and_shifted k a (2 ^ j - 1))
      (ap (λ (t : ℕ). t * 2 ^ k)
        (bit_and_ones j (a / 2 ^ k)
          ((div-lt_iff_lt-mul (one-le-pow k 2 (omega arith))).1 (rw (← two-pow-add j k) h))))

pub align_down-eq :
    (j k val : ℕ) → val < 2 ^ (j + k) → align_down (j + k) val (2 ^ k) ≡ val / 2 ^ k * 2 ^ k
unfolding align_down
align_down-eq j k val h = mask-eq j k val h

-- With a power of two and no wrap, `align_down` is the greatest multiple not above the value.
align_down_floor :
    (j k val : ℕ)
    → val < 2 ^ (j + k)
    → (align_down (j + k) val (2 ^ k) % 2 ^ k ≡ 0)
      × (align_down (j + k) val (2 ^ k) ≤ val)
      × (val < align_down (j + k) val (2 ^ k) + 2 ^ k)
align_down_floor j k val h = rw (align_down-eq j k val h) (
  mul-mod_left (val / 2 ^ k) (2 ^ k),
  div-mul-le_self val (2 ^ k),
  lt-div-mul-add (one-le-pow k 2 (omega arith)),
)

pub align_up-eq :
    (j k val : ℕ)
    → val + 2 ^ k ≤ 2 ^ (j + k)
    → align_up (j + k) val (2 ^ k) ≡ (val + 2 ^ k - 1) / 2 ^ k * 2 ^ k
unfolding align_up
align_up-eq j k val h =
    let below : val + 2 ^ k - 1 < 2 ^ (j + k) = omega (arith, one-le-pow k 2) in
    rw (mod-eq_of_lt below) (mask-eq j k (val + 2 ^ k - 1) below)

-- With a power of two and no wrap, `align_up` is the least multiple not below the value.
align_up_ceiling :
    (j k val : ℕ)
    → val + 2 ^ k ≤ 2 ^ (j + k)
    → (align_up (j + k) val (2 ^ k) % 2 ^ k ≡ 0)
      × (val ≤ align_up (j + k) val (2 ^ k))
      × (align_up (j + k) val (2 ^ k) < val + 2 ^ k)
align_up_ceiling j k val h = rw (align_up-eq j k val h) (
  mul-mod_left ((val + 2 ^ k - 1) / 2 ^ k) (2 ^ k),
  omega (arith, lt-div-mul-add {a = val + 2 ^ k - 1} pos),
  omega (arith, div-mul-le_self (val + 2 ^ k - 1) (2 ^ k), pos),
)
  where
    pos : 0 < 2 ^ k
    pos = one-le-pow k 2 (omega arith)

-- With a power of two and no wrap, `align_down` is the greatest multiple not above the value, and `align_up` the
-- least one not below it.
pub align_floor_ceiling :
    (j k val : ℕ)
    → val + 2 ^ k ≤ 2 ^ (j + k)
    → (align_down (j + k) val (2 ^ k) % 2 ^ k ≡ 0)
      × (align_down (j + k) val (2 ^ k) ≤ val)
      × (val < align_down (j + k) val (2 ^ k) + 2 ^ k)
      × (align_up (j + k) val (2 ^ k) % 2 ^ k ≡ 0)
      × (val ≤ align_up (j + k) val (2 ^ k))
      × (align_up (j + k) val (2 ^ k) < val + 2 ^ k)
align_floor_ceiling j k val h =
    let (down, below, near) = align_down_floor j k val (omega (arith, one-le-pow k 2)) in
    let (up, above, close) = align_up_ceiling j k val h in (down, below, near, up, above, close)

-- The code of four characters, each a byte, is the number that they are in memory.
pub four_cc-le :
    (a b c d : ℕ)
    → a < 256
    → b < 256
    → c < 256
    → d < 256
    → four_cc a b c d ≡ le (a ∷ b ∷ c ∷ d ∷ [])
unfolding four_cc
four_cc-le a b c d ha hb hc hd = rw (top, middle, low) (omega arith)
  where
    top : bit_or (d * 2 ^ 0x18) (c * 2 ^ 0x10) ≡ (d * 256 + c) * 2 ^ 0x10
    top = omega (arith, bit_or_fields 0x18 d (c * 2 ^ 0x10) (omega arith))

    middle : bit_or ((d * 256 + c) * 2 ^ 0x10) (b * 2 ^ 0x8) ≡ (d * 65536 + c * 256 + b) * 2 ^ 0x8
    middle = omega (arith, bit_or_fields 0x10 (d * 256 + c) (b * 2 ^ 0x8) (omega arith))

    low : bit_or ((d * 65536 + c * 256 + b) * 2 ^ 0x8) a ≡ (d * 65536 + c * 256 + b) * 256 + a
    low = bit_or_fields 0x8 (d * 65536 + c * 256 + b) a ha

-- `is_nonzero` fails exactly on arrays of zeros.
pub is_nonzero-replicate : (xs : List ℕ) → (is_nonzero xs ≡ false) ↔ (xs ≡ replicate (length xs) 0)
unfolding is_nonzero
is_nonzero-replicate [] = (λ h. refl, λ h. refl)
is_nonzero-replicate (x ∷ xs) =
    let ih = is_nonzero-replicate xs in (λ h. ground (arith, ih.0), λ h. ground (arith, ih.1))
