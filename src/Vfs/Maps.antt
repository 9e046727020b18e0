-- ===== src/Vfs/Maps.antt =====
-- The maps from paths to nodes.
use fuse_nx.Prelude.{
  ℕ, ◌≡◌, refl, Bool, true, false, if◌then◌else◌, List, [], ◌∷◌, ◌++◌, get_elem?, Option, none,
  some,
}
use fuse_nx.Keyset.Titles.{bytes_eq, bytes_eq_iff}
use fuse_nx.Vfs.Path.{join}
use fuse_nx.Vfs.Every.{All, All-map}
use fuse_nx.Vfs.Tree.{lookup, try_emplace}

abbrev pub IsThere : {A : Type 0} → Option A → Type 0
IsThere none = ⊥
IsThere (some i) = Unit

then_rest :
    {A : Type 0} (c : Bool) (j : A) (o o' : Option A)
    → (IsThere o → IsThere o')
    → IsThere (if c then some j else o)
    → IsThere (if c then some j else o')
then_rest true j o o' f h = tt
then_rest false j o o' f h = f h

lookup-append :
    (p q : List ℕ) (i : ℕ) (m : List (List ℕ × ℕ))
    → IsThere (lookup p m)
    → IsThere (lookup p (m ++ ((q, i) ∷ [])))
unfolding lookup
lookup-append p q i [] h = absurd h
lookup-append p q i ((r, j) ∷ m) h = then_rest (bytes_eq r p) j _ _ (lookup-append p q i m) h

lookup-last : (p : List ℕ) (i : ℕ) (m : List (List ℕ × ℕ)) → IsThere (lookup p (m ++ ((p, i) ∷ [])))
unfolding lookup
lookup-last p i [] = rw ((bytes_eq_iff p p).1 refl) tt
lookup-last p i ((r, j) ∷ m) =
    then_rest (bytes_eq r p) j (some i) _ (λ _. lookup-last p i m) (always (bytes_eq r p))
  where
    always : (c : Bool) → IsThere (if c then some j else some i)
    always true = tt
    always false = tt

pub try_emplace-IsThere :
    (p : List ℕ) (i : ℕ) (m : List (List ℕ × ℕ)) → IsThere (lookup p (try_emplace p i m))
unfolding try_emplace
try_emplace-IsThere p i m = go (lookup p m) refl
  where
    go :
        (o : Option ℕ)
        → lookup p m ≡ o
        → IsThere (lookup p (elim o [ none ↦ m ++ ((p, i) ∷ []) | some j ↦ m ]))
    go none e = lookup-last p i m
    go (some j) e = rw e tt

pub try_emplace-keeps :
    (p q : List ℕ) (i : ℕ) (m : List (List ℕ × ℕ))
    → IsThere (lookup p m)
    → IsThere (lookup p (try_emplace q i m))
unfolding try_emplace
try_emplace-keeps p q i m h =
    elim (lookup q m)
      as (λ o. IsThere (lookup p (elim o [ none ↦ m ++ ((q, i) ∷ []) | some j ↦ m ]))) [
        | none ↦ lookup-append p q i m h
        | some j ↦ h
      ]

-- A node is registered under its path.
abbrev pub IsNamed : {N : Type 0} → (N → List ℕ) → List ℕ → List (List ℕ × ℕ) → Option N → Type 0
IsNamed name path m none = Unit
IsNamed name path m (some d) = IsThere (lookup (join path (name d)) m)

abbrev pub Keeps : List (List ℕ × ℕ) → List (List ℕ × ℕ) → Type 0
Keeps m m' = (p : List ℕ) → IsThere (lookup p m) → IsThere (lookup p m')

abbrev pub AreNamed :
    {N : Type 0} → (N → List ℕ) → List ℕ → List (List ℕ × ℕ) → List N → List ℕ → Type 0
AreNamed name path m nodes is = All (λ i. IsNamed name path m (get_elem? nodes i)) is

pub AreNamed-widen :
    {N : Type 0} (name : N → List ℕ) (path : List ℕ) (m m' : List (List ℕ × ℕ)) (nodes : List N)
    (is : List ℕ)
    → Keeps m m'
    → AreNamed name path m nodes is
    → AreNamed name path m' nodes is
AreNamed-widen name path m m' nodes is k p = All-map _ _ is (λ i q. each (get_elem? nodes i) q) p
  where
    each : (o : Option _) → IsNamed name path m o → IsNamed name path m' o
    each none q = tt
    each (some d) q = k _ q
