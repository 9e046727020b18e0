-- ===== src/Prelude/Slices.antt =====
-- Windows of a list of bytes: what a read at an offset returns, and a buffer after it.
use Prim.Native.Nat.{ℕ, zero, suc, ◌+◌, ◌-◌, ◌≤◌, min}
use mathlib.Core.Path.{◌≡◌, refl, sym, ap, ◌∙◌}
use mathlib.Core.List.{List, [], ◌∷◌, ◌++◌, append-nil}
use native.Mathlib.Omega.{arith}
use fuse_nx.Prelude.Lists.{length, take, drop, length-take, length-drop, length-append}

module _ {ℓ} {A : Type ℓ} where
  -- `n` elements from index `off`, fewer at the end of the list.
  abbrev pub slice : ℕ → ℕ → List A → List A
  slice off n xs = take n (drop off xs)

  -- A buffer after its first bytes have been overwritten.
  abbrev pub overwrite : List A → List A → List A
  overwrite dest xs = xs ++ drop (length xs) dest

  pub length-slice : (off n : ℕ) (xs : List A) → length (slice off n xs) ≡ min n (length xs - off)
  length-slice off n xs = omega (arith, length-take n (drop off xs), length-drop off xs)

  pub length-slice_of_le :
      (off n : ℕ) (xs : List A) → off + n ≤ length xs → length (slice off n xs) ≡ n
  length-slice_of_le off n xs h = omega (arith, length-slice off n xs)

  pub drop-nil : (n : ℕ) → drop {A = A} n [] ≡ []
  drop-nil zero = refl
  drop-nil (suc n) = refl

  pub take-nil : (n : ℕ) → take {A = A} n [] ≡ []
  take-nil zero = refl
  take-nil (suc n) = refl

  pub drop_all : (n : ℕ) (xs : List A) → length xs ≤ n → drop n xs ≡ []
  drop_all n [] h = drop-nil n
  drop_all zero (x ∷ xs) h = absurd (omega arith)
  drop_all (suc n) (x ∷ xs) h = drop_all n xs (omega arith)

  pub take_all : (n : ℕ) (xs : List A) → length xs ≤ n → take n xs ≡ xs
  take_all n [] h = take-nil n
  take_all zero (x ∷ xs) h = absurd (omega arith)
  take_all (suc n) (x ∷ xs) h = ap (◌∷◌ x) (take_all n xs (omega arith))

  pub drop-drop : (m n : ℕ) (xs : List A) → drop m (drop n xs) ≡ drop (n + m) xs
  drop-drop m zero xs = ap (λ k. drop k xs) (omega arith)
  drop-drop m (suc n) [] = drop-nil m ∙ sym (drop-nil (suc n + m))
  drop-drop m (suc n) (x ∷ xs) =
      drop-drop m n xs ∙ ap (λ k. drop k (x ∷ xs)) {x = suc (n + m)} (omega arith)

  pub take-take : (m n : ℕ) (xs : List A) → m ≤ n → take m (take n xs) ≡ take m xs
  take-take zero n xs h = refl
  take-take (suc m) zero xs h = absurd (omega arith)
  take-take (suc m) (suc n) [] h = refl
  take-take (suc m) (suc n) (x ∷ xs) h = ap (◌∷◌ x) (take-take m n xs (omega arith))

  pub drop-take : (m n : ℕ) (xs : List A) → drop m (take n xs) ≡ take (n - m) (drop m xs)
  drop-take zero n xs = ap (λ k. take k xs) (omega arith)
  drop-take (suc m) zero xs = ap (λ k. take k (drop (suc m) xs)) {x = 0} (omega arith)
  drop-take (suc m) (suc n) [] = sym (take-nil (suc n - suc m))
  drop-take (suc m) (suc n) (x ∷ xs) = drop-take m n xs ∙ ap (λ k. take k (drop m xs)) (omega arith)

  pub take-append : (n : ℕ) (xs ys : List A) → n ≤ length xs → take n (xs ++ ys) ≡ take n xs
  take-append zero xs ys h = refl
  take-append (suc n) [] ys h = absurd (omega arith)
  take-append (suc n) (x ∷ xs) ys h = ap (◌∷◌ x) (take-append n xs ys (omega arith))

  pub drop-append :
      (n : ℕ) (xs ys : List A) → length xs ≤ n → drop n (xs ++ ys) ≡ drop (n - length xs) ys
  drop-append n [] ys h = ap (λ k. drop k ys) (omega arith)
  drop-append zero (x ∷ xs) ys h = absurd (omega arith)
  drop-append (suc n) (x ∷ xs) ys h =
      drop-append n xs ys (omega arith) ∙ ap (λ k. drop k ys) (omega arith)

  pub take-take-min : (m n : ℕ) (xs : List A) → take m (take n xs) ≡ take (min m n) xs
  take-take-min zero n xs = ap (λ k. take k xs) {x = 0} (omega arith)
  take-take-min (suc m) zero xs = ap (λ k. take k xs) {x = 0} (omega arith)
  take-take-min (suc m) (suc n) [] = sym (take-nil (min (suc m) (suc n)))
  take-take-min (suc m) (suc n) (x ∷ xs) =
      ap (◌∷◌ x) (take-take-min m n xs)
      ∙ ap (λ k. take k (x ∷ xs)) {x = suc (min m n)} (omega arith)

  -- A window of a window.
  pub slice-slice :
      (p m off n : ℕ) (xs : List A)
      → slice p m (slice off n xs) ≡ slice (off + p) (min m (n - p)) xs
  slice-slice p m off n xs =
      ap (take m) (drop-take p n (drop off xs))
      ∙ (take-take-min m (n - p) (drop p (drop off xs))
          ∙ ap (take (min m (n - p))) (drop-drop p off xs))

  pub slice-append_left :
      (off n : ℕ) (xs ys : List A) → off + n ≤ length xs → slice off n (xs ++ ys) ≡ slice off n xs
  slice-append_left zero n xs ys h = take-append n xs ys (omega arith)
  slice-append_left (suc off) n [] ys h = absurd (omega arith)
  slice-append_left (suc off) n (x ∷ xs) ys h = slice-append_left off n xs ys (omega arith)

  pub overwrite_all : (dest xs : List A) → length xs ≡ length dest → overwrite dest xs ≡ xs
  overwrite_all dest xs h = ap (◌++◌ xs) (drop_all (length xs) dest (omega arith)) ∙ append-nil xs

  pub length-overwrite :
      (dest xs : List A) → length xs ≤ length dest → length (overwrite dest xs) ≡ length dest
  length-overwrite dest xs h =
      omega (arith, length-append xs (drop (length xs) dest), length-drop (length xs) dest)
