-- ===== src/Prelude/Bytes.antt =====
-- Numbers as bytes: how a struct that is read over raw memory gets its fields.
use Prim.Native.Nat.{ℕ, zero, suc, ◌+◌, ◌*◌, ◌/◌, ◌%◌, ◌^◌, ◌≤◌, ◌<◌}
use mathlib.Core.Path.{◌≡◌, refl, ap, ap₂, ◌∙◌}
use mathlib.Core.List.{List, [], ◌∷◌, ◌++◌}
use native.Mathlib.Nat.{pow-suc, pow-zero, mul-le-mul_right}
use native.Mathlib.Omega.{arith}
use fuse_nx.Prelude.Lists.{length, length-append}
use fuse_nx.Prelude.Slices.{slice}

-- A little-endian number, as the machines that the program runs on read it.
abbrev pub le : List ℕ → ℕ
le [] = 0
le (b ∷ bs) = b + 256 * le bs

unfoldable pub to_le : ℕ → ℕ → List ℕ
to_le zero v = []
to_le (suc n) v = (v % 256) ∷ to_le n (v / 256)

-- The unsigned field of `n` bytes at `off` in a buffer.
abbrev pub field_at : ℕ → ℕ → List ℕ → ℕ
field_at off n buf = le (slice off n buf)

abbrev pub be : List ℕ → ℕ
be [] = 0
be (b ∷ bs) = b * 256 ^ length bs + be bs

unfoldable pub to_be : ℕ → ℕ → List ℕ
to_be zero v = []
to_be (suc n) v = (v / 256 ^ n % 256) ∷ to_be n v

pub length-to_le : (n v : ℕ) → length (to_le n v) ≡ n
unfolding to_le
length-to_le zero v = refl
length-to_le (suc n) v = ap suc (length-to_le n (v / 256))

pub length-to_be : (n v : ℕ) → length (to_be n v) ≡ n
unfolding to_be
length-to_be zero v = refl
length-to_be (suc n) v = ap suc (length-to_be n v)

pub le-to_le : (n v : ℕ) → v < 256 ^ n → le (to_le n v) ≡ v
unfolding to_le
le-to_le zero v h = omega arith
le-to_le (suc n) v h = omega (arith, le-to_le n (v / 256) (omega (arith, pow-suc 256 n)))

-- Every element is a byte.
abbrev pub IsBytes : List ℕ → Type 0
IsBytes [] = Unit {0}
IsBytes (b ∷ bs) = (b < 256) × IsBytes bs

pub le-lt : (bs : List ℕ) → IsBytes bs → le bs < 256 ^ length bs
le-lt [] h = omega arith
le-lt (b ∷ bs) h = omega (arith, le-lt bs h.1, pow-suc 256 (length bs))

pub to_le-IsBytes : (n v : ℕ) → IsBytes (to_le n v)
unfolding to_le
to_le-IsBytes zero v = tt
to_le-IsBytes (suc n) v = (omega arith, to_le-IsBytes n (v / 256))

pub to_be-IsBytes : (n v : ℕ) → IsBytes (to_be n v)
unfolding to_be
to_be-IsBytes zero v = tt
to_be-IsBytes (suc n) v = (omega arith, to_be-IsBytes n v)

pub pow-add : (b m n : ℕ) → b ^ (m + n) ≡ b ^ m * b ^ n
pow-add b zero n =
    ap (λ (t : ℕ). b ^ t) {y = n} (omega arith)
    ∙ omega (arith, pow-zero b, ap (λ (t : ℕ). t * b ^ n) (pow-zero b))
pow-add b (suc m) n =
    ap (λ (t : ℕ). b ^ t) {y = suc (m + n)} (omega arith)
    ∙ pow-suc b (m + n)
    ∙ rw (pow-add b m n, pow-suc b m) (omega arith)

pub be-append : (xs ys : List ℕ) → be (xs ++ ys) ≡ be xs * 256 ^ length ys + be ys
be-append [] ys = omega arith
be-append (x ∷ xs) ys =
    rw (length-append xs ys, pow-add 256 (length xs) (length ys), be-append xs ys) (omega arith)

pub to_le-le : (n : ℕ) (xs : List ℕ) → length xs ≡ n → IsBytes xs → to_le n (le xs) ≡ xs
unfolding to_le
to_le-le zero [] e h = refl
to_le-le zero (x ∷ xs) e h = absurd (omega arith)
to_le-le (suc n) [] e h = absurd (omega arith)
to_le-le (suc n) (x ∷ xs) e h =
    ap₂ ◌∷◌ (omega arith) (ap (to_le n) {y = le xs} (omega arith) ∙ to_le-le n xs (omega arith) h.1)

pub be-lt : (bs : List ℕ) → IsBytes bs → be bs < 256 ^ length bs
be-lt [] h = omega arith
be-lt (b ∷ bs) h =
    let step : suc b * 256 ^ length bs ≤ 256 * 256 ^ length bs = mul-le-mul_right _ h.0 in
    omega (arith, be-lt bs h.1, pow-suc 256 (length bs), step)

-- Eight big-endian bytes hold every number of 64 bits.
pub be-to_be : (v : ℕ) → v < 2 ^ 64 → be (to_be 8 v) ≡ v
unfolding to_be
be-to_be v h = omega arith
