-- ===== src/Crypto/Owners.antt =====
-- include/fnx/crypto.hpp: which object of `CipherBase` owns which of libgcrypt's handles. Here `gcry_cipher_open`
-- succeeds; what is done with a handle is in Crypto.
use fuse_nx.Prelude.{
  ℕ, Bool, true, false, List, [], ◌∷◌, ◌++◌, length, Option, none, some, get_elem?, set,
}
use fuse_nx.Formats.Table.{◌>>=◌}

-- An object: its field `handle`, the number of a handle or a null pointer, and its key.
pub record Cipher : Type 0 where
  pub handle : Option ℕ
  pub key : List ℕ

-- The objects of a program, and whether each handle that it has opened still is. An object that is destroyed
-- is left with a null pointer.
pub record Ciphers : Type 0 where
  pub objects : List Cipher
  pub handles : List Bool

abbrev pub gcry_cipher_open : List Bool → ℕ × List Bool
gcry_cipher_open hs = (length hs, hs ++ (true ∷ []))

-- `none` is a handle that is not open.
abbrev pub gcry_cipher_close : ℕ → List Bool → Option (List Bool)
gcry_cipher_close k hs = elim (get_elem? hs k) [ some true ↦ some (set hs k false) | _ ↦ none ]

abbrev pub add_object : Cipher → Ciphers → Ciphers
add_object c s = record s { objects = s.objects ++ (c ∷ []) }

-- The constructor from a key.
unfoldable pub construct_cipher : List ℕ → Ciphers → Ciphers
construct_cipher key s =
    let (k, hs) = gcry_cipher_open s.handles in
    add_object (record { handle = some k; key = key }) (record s { handles = hs })

-- The copy and the move constructor from the object with a number.
unfoldable pub copy_cipher : ℕ → Ciphers → Option Ciphers
unfolding construct_cipher
copy_cipher i s = do other ← get_elem? s.objects i; some (construct_cipher other.key s)

unfoldable pub move_cipher : ℕ → Ciphers → Option Ciphers
move_cipher i s = do
  other ← get_elem? s.objects i
  some (record s { objects = set s.objects i (record other { handle = none }) ++ (other ∷ []) })

-- The assignment of the `j`th object to the `i`th, which may be the same.
unfoldable pub assign_cipher : ℕ → ℕ → Ciphers → Option Ciphers
assign_cipher i j s = do
  other ← get_elem? s.objects j
  let moved = set s.objects j (record other { handle = none })
  some (record s { objects = set moved i (record { handle = other.handle; key = other.key }) })

-- The destructor.
unfoldable pub destroy_cipher : ℕ → Ciphers → Option Ciphers
destroy_cipher i s = do
  this ← get_elem? s.objects i
  elim this.handle [
    | none ↦ some s
    | some k ↦ do
      hs ← gcry_cipher_close k s.handles
      some (record { objects = set s.objects i (record this { handle = none }); handles = hs })
  ]

-- What a program does to its ciphers.
pub data Use : Type 0 where
  constructed : List ℕ → Use
  copied moved destroyed : ℕ → Use
  assigned : ℕ → ℕ → Use

unfoldable pub use_cipher : Use → Ciphers → Option Ciphers
unfolding construct_cipher copy_cipher move_cipher assign_cipher destroy_cipher
use_cipher (constructed key) s = some (construct_cipher key s)
use_cipher (copied i) s = copy_cipher i s
use_cipher (moved i) s = move_cipher i s
use_cipher (destroyed i) s = destroy_cipher i s
use_cipher (assigned i j) s = assign_cipher i j s

unfoldable pub use_ciphers : List Use → Ciphers → Option Ciphers
unfolding use_cipher
use_ciphers [] s = some s
use_ciphers (u ∷ us) s = do s' ← use_cipher u s; use_ciphers us s'
