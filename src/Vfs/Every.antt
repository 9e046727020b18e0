-- ===== src/Vfs/Every.antt =====
-- A predicate on every element of a list.
use fuse_nx.Prelude.{List, [], ◌∷◌}

module _ {ℓ κ} {A : Type ℓ} (R : A → Type κ) where
  abbrev pub All : List A → Type κ
  All [] = Unit
  All (x ∷ xs) = R x × All xs

module _ {ℓ κ ρ} {A : Type ℓ} (R : A → Type κ) (S : A → Type ρ) where
  pub All-map : (xs : List A) → ((x : A) → R x → S x) → All R xs → All S xs
  All-map [] h p = tt
  All-map (x ∷ xs) h p = (h x p.0, All-map xs h p.1)
