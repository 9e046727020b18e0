-- ===== src/Prelude/Words.antt =====
-- Unsigned words: the wrap of `uint64_t` and `uint32_t` arithmetic, and masks as arithmetic.
use Prim.Native.Nat.{
  ℕ, zero, suc, ◌+◌, ◌-◌, ◌*◌, ◌/◌, ◌%◌, ◌^◌, ◌≤◌, ◌<◌, min, max, bit_and, bit_or, digits,
  bit_and-bitwise, bit_or-bitwise,
}
use mathlib.Core.Path.{◌≡◌, refl, sym, ap, ◌∙◌}
use native.Mathlib.Nat.{pow-suc, one-le-pow, div-div-eq-div-mul}
use native.Mathlib.Omega.{arith}

abbrev pub u64 : ℕ → ℕ
u64 n = n % 2 ^ 64

abbrev pub u32 : ℕ → ℕ
u32 n = n % 2 ^ 32

-- `a - b` on `uint64_t`.
abbrev pub sub64 : ℕ → ℕ → ℕ
sub64 a b = (a + 2 ^ 64 - b) % 2 ^ 64

-- `~x` on a word of `w` bits.
abbrev pub bit_not : ℕ → ℕ → ℕ
bit_not w x = 2 ^ w - 1 - x

-- The native operations count their rounds on the first number. A number of no digits needs none.
no_digits : (rest : ℕ → ℕ) (op : ℕ → ℕ → ℕ) (rounds y : ℕ) → digits rest op rounds 0 y ≡ rest y
no_digits rest op zero y = refl
no_digits rest op (suc rounds) y = refl

-- Any two counts that reach over the first number give the same.
pub same_digits :
    (rest : ℕ → ℕ) (op : ℕ → ℕ → ℕ) (x y i j : ℕ)
    → x ≤ i
    → x ≤ j
    → digits rest op i x y ≡ digits rest op j x y
same_digits rest op zero y i j hi hj = no_digits rest op i y ∙ sym (no_digits rest op j y)
same_digits rest op (suc x) y zero j hi hj = absurd (omega arith)
same_digits rest op (suc x) y (suc i) zero hi hj = absurd (omega arith)
same_digits rest op (suc x) y (suc i) (suc j) hi hj =
    let halved = same_digits rest op (suc x / 2) (y / 2) i j (omega arith) (omega arith) in
    omega (arith, halved)

-- The lowest digit, and the others.
pub bit_and_halves : (x y : ℕ) → bit_and x y ≡ min (x % 2) (y % 2) + 2 * bit_and (x / 2) (y / 2)
bit_and_halves zero y = omega (arith, bit_and-bitwise 0 (y / 2), bit_and-bitwise 0 y)
bit_and_halves (suc x) y =
    let half = suc x / 2 in
    let others = same_digits (λ d. zero) min half (y / 2) x half (omega arith) (omega arith) in
    omega (arith, others, bit_and-bitwise half (y / 2), bit_and-bitwise (suc x) y)

pub bit_or_halves : (x y : ℕ) → bit_or x y ≡ max (x % 2) (y % 2) + 2 * bit_or (x / 2) (y / 2)
bit_or_halves zero y = omega (arith, bit_or-bitwise 0 (y / 2), bit_or-bitwise 0 y)
bit_or_halves (suc x) y =
    let half = suc x / 2 in
    let others = same_digits (λ d. d) max half (y / 2) x half (omega arith) (omega arith) in
    omega (arith, others, bit_or-bitwise half (y / 2), bit_or-bitwise (suc x) y)

bit_or-none : (rounds x : ℕ) → x ≤ rounds → bit_or x 0 ≡ x
bit_or-none rounds zero h = refl
bit_or-none zero (suc x) h = absurd (omega arith)
bit_or-none (suc rounds) (suc x) h =
    let others = bit_or-none rounds (suc x / 2) (omega arith) in
    omega (arith, others, bit_or_halves (suc x) 0)

doubled : (k n : ℕ) → n * 2 ^ suc k ≡ n * 2 ^ k * 2
doubled k n = let twice = ap (λ (power : ℕ). n * power) (pow-suc 2 k) in omega (arith, twice)

-- `(hi << k) | lo` is a sum where `lo` has `k` bits.
pub bit_or_fields : (k hi lo : ℕ) → lo < 2 ^ k → bit_or (hi * 2 ^ k) lo ≡ hi * 2 ^ k + lo
bit_or_fields zero hi lo small = ground (arith, bit_or-none hi hi)
bit_or_fields (suc k) hi lo small =
    let others = bit_or_fields k hi (lo / 2) (omega (arith, pow-suc 2 k)) in
    ground (arith, others, doubled k hi, pow-suc 2 k, bit_or_halves (hi * 2 ^ suc k) lo)

-- A mask of `w` ones changes nothing below `2 ^ w`.
pub bit_and_ones : (w x : ℕ) → x < 2 ^ w → bit_and x (2 ^ w - 1) ≡ x
bit_and_ones zero x h = ground (arith, bit_and-bitwise 0 0)
bit_and_ones (suc w) x h =
    let others = bit_and_ones w (x / 2) (omega (arith, pow-suc 2 w)) in
    ground (arith, others, one-le-pow w 2, pow-suc 2 w, bit_and_halves x (2 ^ suc w - 1))

-- A mask with `k` zeros at its low end acts on the digits above.
pub bit_and_shifted : (k x mask : ℕ) → bit_and x (mask * 2 ^ k) ≡ bit_and (x / 2 ^ k) mask * 2 ^ k
bit_and_shifted zero x mask = ground arith
bit_and_shifted (suc k) x mask =
    let others = bit_and_shifted k (x / 2) mask in
    let power =
      ap (λ (t : ℕ). x / t) {x = 2 * 2 ^ k} {y = 2 ^ suc k} (omega (arith, pow-suc 2 k)) in
    ground (
      arith,
      others,
      bit_and_halves x (mask * 2 ^ suc k),
      doubled k mask,
      doubled k (bit_and (x / 2 ^ suc k) mask),
      ap (λ (t : ℕ). bit_and t mask) (div-div-eq-div-mul x 2 (2 ^ k) ∙ power),
    )
