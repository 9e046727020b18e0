-- ===== src/Crypto/Counts.antt =====
-- The handles that are open, and those that the objects own.
use fuse_nx.Prelude.{
  ℕ, zero, suc, ◌+◌, ◌≤◌, ◌<◌, ◌≡◌, refl, ap, arith, Bool, true, false, List, [], ◌∷◌, ◌++◌, length,
  none, some, get_elem?, set,
}
use mathlib.Core.Option.{some-injective}
use fuse_nx.Crypto.Owners.{Cipher, Ciphers, Use, assigned}

module _ {ℓ} {A : Type ℓ} where
  abbrev pub sum_of : (A → ℕ) → List A → ℕ
  sum_of f [] = 0
  sum_of f (x ∷ xs) = f x + sum_of f xs

  pub sum_of-set :
      (f : A → ℕ) (xs : List A) (i : ℕ) (v x : A)
      → get_elem? xs i ≡ some x
      → sum_of f (set xs i v) + f x ≡ sum_of f xs + f v
  sum_of-set f [] i v x at = cc
  sum_of-set f (y ∷ xs) zero v x at = omega (arith, ap f (some-injective y x at))
  sum_of-set f (y ∷ xs) (suc i) v x at = omega (arith, sum_of-set f xs i v x at)

  pub sum_of-append :
      (f : A → ℕ) (xs : List A) (x : A) → sum_of f (xs ++ (x ∷ [])) ≡ sum_of f xs + f x
  sum_of-append f [] x = omega arith
  sum_of-append f (y ∷ xs) x = omega (arith, sum_of-append f xs x)

  pub sum_of-at :
      (f : A → ℕ) (xs : List A) (i : ℕ) (x : A) → get_elem? xs i ≡ some x → f x ≤ sum_of f xs
  sum_of-at f [] i x at = cc
  sum_of-at f (y ∷ xs) zero x at = omega (arith, ap f (some-injective y x at))
  sum_of-at f (y ∷ xs) (suc i) x at = omega (arith, sum_of-at f xs i x at)

  pub elem_at : (xs : List A) (i : ℕ) → i < length xs → (x : A) × (get_elem? xs i ≡ some x)
  elem_at [] i h = absurd (omega arith)
  elem_at (x ∷ xs) zero h = (x, refl)
  elem_at (x ∷ xs) (suc i) h = elem_at xs i (omega arith)

abbrev pub same : ℕ → ℕ → ℕ
same zero zero = 1
same zero (suc j) = 0
same (suc k) zero = 0
same (suc k) (suc j) = same k j

pub same_self : (k : ℕ) → same k k ≡ 1
same_self zero = refl
same_self (suc k) = same_self k

abbrev pub weight : Bool → ℕ
weight true = 1
weight false = 0

-- Whether a handle is open, and how many are.
abbrev pub open_at : ℕ → List Bool → ℕ
open_at k [] = 0
open_at zero (h ∷ hs) = weight h
open_at (suc k) (h ∷ hs) = open_at k hs

abbrev pub open_handles : Ciphers → ℕ
open_handles s = sum_of weight s.handles

pub open_at-append :
    (k : ℕ) (hs : List Bool) → open_at k (hs ++ (true ∷ [])) ≡ open_at k hs + same k (length hs)
open_at-append zero [] = refl
open_at-append (suc k) [] = refl
open_at-append zero (h ∷ hs) = omega arith
open_at-append (suc k) (h ∷ hs) = open_at-append k hs

pub open_at-set :
    (m k : ℕ) (hs : List Bool)
    → get_elem? hs k ≡ some true
    → open_at m (set hs k false) + same m k ≡ open_at m hs
open_at-set m k [] at = cc
open_at-set zero zero (h ∷ hs) at = rw (some-injective h true at) refl
open_at-set (suc m) zero (h ∷ hs) at = omega arith
open_at-set zero (suc k) (h ∷ hs) at = omega arith
open_at-set (suc m) (suc k) (h ∷ hs) at = open_at-set m k hs at

pub open_at-true : (k : ℕ) (hs : List Bool) → 1 ≤ open_at k hs → get_elem? hs k ≡ some true
open_at-true k [] h = absurd (omega arith)
open_at-true zero (true ∷ hs) h = refl
open_at-true zero (false ∷ hs) h = absurd (omega arith)
open_at-true (suc k) (h ∷ hs) le = open_at-true k hs le

-- Whether an object owns a handle, and any.
abbrev pub owns : ℕ → Cipher → ℕ
owns k c = elim c.handle [ none ↦ 0 | some j ↦ same k j ]

abbrev pub is_owner : Cipher → ℕ
is_owner c = elim c.handle [ none ↦ 0 | some j ↦ 1 ]

abbrev pub owners : Ciphers → ℕ
owners s = sum_of is_owner s.objects

-- No handle has two owners, and what is owned is open.
abbrev pub IsOwned : Ciphers → Type 0
IsOwned s = (k : ℕ) → sum_of (owns k) s.objects ≤ open_at k s.handles

-- The handles that a use loses: the one that the target of an assignment still owns.
abbrev pub loses : Use → Ciphers → ℕ
loses (assigned i j) s = elim (get_elem? s.objects j) [
  | none ↦ 0
  | some other ↦ elim (get_elem? (set s.objects j (record other { handle = none })) i) [
    | none ↦ 0
    | some this ↦ is_owner this
  ]
]
loses _ s = 0
