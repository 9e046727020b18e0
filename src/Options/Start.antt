-- ===== src/Options/Start.antt =====
-- `init` of the options: the keys, and whether a RomFs is searched for containers.
use fuse_nx.Prelude.{ℕ, Bool, if◌then◌else◌, List, Option, none, some}
use fuse_nx.Keyset.Text.{Outcome, StringView, ok, ◌>>=◌}
use fuse_nx.Keys.{Keys, prod, dev, title, init_keyset, set_cli_titlekey}
use fuse_nx.Containers.{World}

-- `KeyOptions`: what the paths of the key files lead to, and a title key, `none` for the empty string.
pub record KeyOptions : Type 0 where
  pub keyset_dev : Bool
  pub keyset : Option (List ℕ)
  pub titles : Option (List ℕ)
  pub titlekey : Option StringView

-- `KeyOptions::init`.
unfoldable pub init_keys : KeyOptions → Keys → Outcome Keys
unfolding init_keyset set_cli_titlekey
init_keys o keys = do
  k ← init_keyset (if o.keyset_dev then dev else prod) o.keyset keys
  k' ← init_keyset title o.titles k
  ok (elim o.titlekey [ none ↦ k' | some key ↦ set_cli_titlekey key k' ])

-- `KeyOptions::init` and `GeneralOptions::init`.
unfoldable pub init : KeyOptions → Bool → World → Outcome World
unfolding init_keys
init o search_romfs w = do
  keys ← init_keys o w.keys
  ok (record w { keys = keys; search_containers = search_romfs })
