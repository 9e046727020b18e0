-- ===== src/Crypto/OwnerTests.antt =====
-- The static context of decrypt_header, from its making to the end of the program.
use fuse_nx.Prelude.{◌+◌, ◌≡◌, refl, arith, false, true, List, [], ◌∷◌, replicate, some, none}
use fuse_nx.Crypto.Owners.{Ciphers, Use, constructed, assigned, destroyed, use_ciphers}
use fuse_nx.Crypto.Counts.{open_handles, owners, IsOwned}
use fuse_nx.Crypto.Owned.{lost_by, use_ciphers-IsOwned}

abbrev none_yet : Ciphers
none_yet = record { objects = []; handles = [] }

-- The context without a key, the temporary with the key, the assignment, and the end of both.
abbrev header_context : List Use
header_context =
    constructed (replicate 32 0)
    ∷ constructed (replicate 32 7)
    ∷ assigned 0 1
    ∷ destroyed 1
    ∷ destroyed 0
    ∷ []

use_ciphers-IsOwned_example :
    (s' : Ciphers) × (use_ciphers header_context none_yet ≡ some s')
    × IsOwned s'
    × (open_handles s' + owners none_yet
        ≡ open_handles none_yet + owners s' + lost_by header_context none_yet)
use_ciphers-IsOwned_example =
    use_ciphers-IsOwned header_context none_yet
      (tt, (tt, ((omega arith, omega arith), (omega arith, (omega arith, tt))))) (λ k. omega arith)

-- The handle of the context without a key stays open.
header_context_leaves :
    use_ciphers header_context none_yet
    ≡ some (record {
      objects =
          record { handle = none; key = replicate 32 7 }
          ∷ record { handle = none; key = replicate 32 7 }
          ∷ [];
      handles = true ∷ false ∷ [];
    })
unfolding use_ciphers
header_context_leaves = refl
