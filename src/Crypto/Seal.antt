-- ===== src/Crypto/Seal.antt =====
-- Counter mode combines bytes by exclusive or, so that a second time undoes the first.
use fuse_nx.Prelude.{
  ℕ, zero, suc, ◌+◌, ◌*◌, ◌/◌, ◌%◌, ◌≤◌, ◌<◌, ◌≡◌, refl, ap, ap₂, arith, bit_xor, List, [], ◌∷◌,
}
use Prim.Native.Nat.{differ, bit_xor-bitwise}
use fuse_nx.Prelude.Words.{same_digits}
use fuse_nx.Crypto.Ctr.{xor_from}

differ_digit : (a b : ℕ) → a < 2 → b < 2 → differ a b ≡ (a + b) % 2
differ_digit zero zero h k = refl
differ_digit zero (suc zero) h k = refl
differ_digit (suc zero) zero h k = refl
differ_digit (suc zero) (suc zero) h k = refl
differ_digit zero (suc (suc b)) h k = absurd (omega arith)
differ_digit (suc zero) (suc (suc b)) h k = absurd (omega arith)
differ_digit (suc (suc a)) b h k = absurd (omega arith)

bit_xor_halves : (x y : ℕ) → bit_xor x y ≡ (x % 2 + y % 2) % 2 + 2 * bit_xor (x / 2) (y / 2)
bit_xor_halves zero y = omega (arith, bit_xor-bitwise 0 (y / 2), bit_xor-bitwise 0 y)
bit_xor_halves (suc x) y =
    let half = suc x / 2 in
    let others = same_digits (λ d. d) differ half (y / 2) x half (omega arith) (omega arith) in
    omega (
      arith,
      others,
      bit_xor-bitwise half (y / 2),
      bit_xor-bitwise (suc x) y,
      differ_digit (suc x % 2) (y % 2) (omega arith) (omega arith),
    )

undone : (n x y : ℕ) → x + y ≤ n → bit_xor (bit_xor x y) y ≡ x
undone zero zero zero h = refl
undone zero zero (suc y) h = absurd (omega arith)
undone zero (suc x) y h = absurd (omega arith)
undone (suc n) x y h =
    let z = bit_xor x y in
    let half : z / 2 ≡ bit_xor (x / 2) (y / 2) = omega (arith, bit_xor_halves x y) in
    omega (
      arith,
      bit_xor_halves z y,
      bit_xor_halves x y,
      ap (λ (t : ℕ). bit_xor t (y / 2)) half,
      undone n (x / 2) (y / 2) (omega arith),
    )

-- Combined with the same key stream twice, the bytes are as before.
pub xor_from-xor_from : (g : ℕ → ℕ) (q : ℕ) (xs : List ℕ) → xor_from g q (xor_from g q xs) ≡ xs
unfolding xor_from
xor_from-xor_from g q [] = refl
xor_from-xor_from g q (x ∷ xs) =
    ap₂ ◌∷◌ (undone (x + g q) x (g q) (omega arith)) (xor_from-xor_from g (suc q) xs)
