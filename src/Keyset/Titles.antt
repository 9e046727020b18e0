-- ===== src/Keyset/Titles.antt =====
-- `TitlekeySet`: the keys of titles by rights id, and the one given on the command line.
use fuse_nx.Prelude.{
  ℕ, ◌≡◌, refl, arith, Bool, true, false, if◌then◌else◌, ◌==◌, ◌&&◌, ◌↔◌, List, [], ◌∷◌, Option,
  none, some,
}
use fuse_nx.Keyset.Text.{Outcome, ok, thrown, StringView}
use fuse_nx.Keyset.Hex.{to_hex_array}

-- `std::array`'s `==`.
unfoldable pub bytes_eq : List ℕ → List ℕ → Bool
bytes_eq [] [] = true
bytes_eq [] (y ∷ ys) = false
bytes_eq (x ∷ xs) [] = false
bytes_eq (x ∷ xs) (y ∷ ys) = x == y && bytes_eq xs ys

pub bytes_eq_iff : (xs ys : List ℕ) → (bytes_eq xs ys ≡ true) ↔ (xs ≡ ys)
unfolding bytes_eq
bytes_eq_iff [] [] = (λ h. refl, λ h. refl)
bytes_eq_iff [] (y ∷ ys) = (λ h. cc, λ h. cc)
bytes_eq_iff (x ∷ xs) [] = (λ h. cc, λ h. cc)
bytes_eq_iff (x ∷ xs) (y ∷ ys) =
    let ih = bytes_eq_iff xs ys in (λ h. ground (arith, ih.0), λ h. ground (arith, ih.1))

pub record TitlekeySet : Type 0 where
  pub cli_key : Option (List ℕ)
  pub keys : List (List ℕ × List ℕ)

-- `insert_or_assign`.
unfoldable pub insert_or_assign : List ℕ → List ℕ → List (List ℕ × List ℕ) → List (List ℕ × List ℕ)
unfolding bytes_eq
insert_or_assign id key [] = (id, key) ∷ []
insert_or_assign id key ((j, k) ∷ m) =
    if bytes_eq j id then (j, key) ∷ m else (j, k) ∷ insert_or_assign id key m

-- `map.at`, which throws on a missing key.
unfoldable pub map_at : List ℕ → List (List ℕ × List ℕ) → Outcome (List ℕ)
unfolding bytes_eq
map_at id [] = thrown
map_at id ((j, k) ∷ m) = if bytes_eq j id then ok k else map_at id m

-- `set_key(const RightsId &, const AesKey &)`, and from text.
unfoldable pub set_title_key : TitlekeySet → List ℕ → List ℕ → TitlekeySet
unfolding insert_or_assign
set_title_key t id key = record t { keys = insert_or_assign id key t.keys }

unfoldable pub set_title_text : TitlekeySet → StringView → StringView → TitlekeySet
unfolding set_title_key to_hex_array
set_title_text t id value =
    set_title_key t (to_hex_array 0x10 id.chars) (to_hex_array 0x10 value.chars)

unfoldable pub set_cli_key : TitlekeySet → StringView → TitlekeySet
unfolding to_hex_array
set_cli_key t key = record t { cli_key = some (to_hex_array 0x10 key.chars) }

unfoldable pub remove_cli_key : TitlekeySet → TitlekeySet
remove_cli_key t = record t { cli_key = none }

unfoldable pub get_key : TitlekeySet → List ℕ → Outcome (List ℕ)
unfolding map_at
get_key t id = elim t.cli_key [ some key ↦ ok key | none ↦ map_at id t.keys ]

map_at-insert_or_assign :
    (id id' key : List ℕ) (m : List (List ℕ × List ℕ))
    → map_at id' (insert_or_assign id key m) ≡ (if bytes_eq id id' then ok key else map_at id' m)
unfolding map_at insert_or_assign
map_at-insert_or_assign id id' key [] = refl
map_at-insert_or_assign id id' key ((j, k) ∷ m) = ground (
  arith,
  bytes_eq_iff j id,
  bytes_eq_iff j id',
  bytes_eq_iff id id',
  map_at-insert_or_assign id id' key m,
)

-- After a key is set, its rights id leads to it and every other rights id to what it led to before,
-- unless a key was given on the command line: then every rights id leads to that one.
pub get_key-set_title_key :
    (t : TitlekeySet) (id id' key : List ℕ)
    → get_key (set_title_key t id key) id' ≡ (
        if bytes_eq id id'
        then elim t.cli_key [ some cli ↦ ok cli | none ↦ ok key ]
        else get_key t id')
unfolding get_key set_title_key
get_key-set_title_key t id id' key = ground (arith, map_at-insert_or_assign id id' key t.keys)
