-- ===== src/Crypto/Owned.antt =====
-- The handles of ciphers are each owned once, and which of them are lost.
use fuse_nx.Prelude.{ℕ, ◌+◌, ◌<◌, ◌≡◌, refl, sym, arith, List, [], ◌∷◌, length, none, some}
use mathlib.Core.Path.{subst}
use fuse_nx.Formats.Table.{◌>>=◌}
use fuse_nx.Crypto.Owners.{
  Ciphers, Use, constructed, copied, moved, destroyed, assigned, use_cipher, use_ciphers,
}
use fuse_nx.Crypto.Counts.{open_handles, owners, IsOwned, loses}
use fuse_nx.Crypto.Uses.{
  Uses, construct_cipher-Uses, copy_cipher-Uses, move_cipher-Uses, assign_cipher-Uses,
  destroy_cipher-Uses,
}

-- The objects that a use makes.
abbrev makes : Use → ℕ
makes (constructed key) = 1
makes (copied i) = 1
makes (moved i) = 1
makes (destroyed i) = 0
makes (assigned i j) = 0

-- A use of objects that there are.
abbrev IsNamed : Use → ℕ → Type 0
IsNamed (constructed key) n = Unit {0}
IsNamed (copied i) n = i < n
IsNamed (moved i) n = i < n
IsNamed (destroyed i) n = i < n
IsNamed (assigned i j) n = (i < n) × (j < n)

use_cipher-Uses :
    (u : Use) (s : Ciphers)
    → IsNamed u (length s.objects)
    → IsOwned s
    → Uses s (loses u s) (makes u) (use_cipher u s)
unfolding use_cipher
use_cipher-Uses (constructed key) s named owned = construct_cipher-Uses key s owned
use_cipher-Uses (copied i) s named owned = copy_cipher-Uses i s named owned
use_cipher-Uses (moved i) s named owned = move_cipher-Uses i s named owned
use_cipher-Uses (destroyed i) s named owned = destroy_cipher-Uses i s named owned
use_cipher-Uses (assigned i j) s named owned = assign_cipher-Uses i j s named.0 named.1 owned

-- A program whose uses are of objects that there are, from so many on.
abbrev pub AllNamed : List Use → ℕ → Type 0
AllNamed [] n = Unit {0}
AllNamed (u ∷ us) n = IsNamed u n × AllNamed us (n + makes u)

-- The handles that a program loses.
abbrev pub lost_by : List Use → Ciphers → ℕ
lost_by [] s = 0
lost_by (u ∷ us) s = loses u s + elim (use_cipher u s) [ none ↦ 0 | some s' ↦ lost_by us s' ]

-- A program over ciphers, from a state in which every handle that is owned is open and has one owner, never
-- closes a handle that is not open, and comes to such a state; beyond the handles that are owned, as many more are
-- open as it has assigned to ciphers that still owned theirs.
pub use_ciphers-IsOwned :
    (us : List Use) (s : Ciphers)
    → AllNamed us (length s.objects)
    → IsOwned s
    → (s' : Ciphers) × (use_ciphers us s ≡ some s')
      × IsOwned s'
      × (open_handles s' + owners s ≡ open_handles s + owners s' + lost_by us s)
unfolding use_ciphers
use_ciphers-IsOwned [] s named owned = (s, refl, owned, omega arith)
use_ciphers-IsOwned (u ∷ us) s named owned =
    let r = use_cipher-Uses u s named.0 owned in
    let (s', e, owned', balance) =
      use_ciphers-IsOwned us r.state (subst (AllNamed us) (sym r.objects) named.1) r.owned in
    (
      s',
      rw (r.returns, ◌>>=◌) e,
      owned',
      rw (r.returns, lost_by) (omega (arith, r.balance, balance)),
    )
