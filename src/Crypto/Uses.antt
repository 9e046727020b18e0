-- ===== src/Crypto/Uses.antt =====
-- What each operation of a cipher does to the handles and their owners.
use fuse_nx.Prelude.{
  ℕ, ◌+◌, ◌<◌, ◌≡◌, refl, arith, true, false, List, [], ◌∷◌, ◌++◌, length, length-append,
  length-set, Option, none, some, get_elem?, set,
}
use fuse_nx.Formats.Table.{◌>>=◌}
use fuse_nx.Crypto.Owners.{
  Cipher, Ciphers, assigned, construct_cipher, copy_cipher, move_cipher, assign_cipher,
  destroy_cipher,
}
use fuse_nx.Crypto.Counts.{
  sum_of, sum_of-set, sum_of-append, sum_of-at, elem_at, same_self, weight, open_handles,
  open_at-append, open_at-set, open_at-true, owns, is_owner, owners, IsOwned, loses,
}

-- A use that returns, keeps the handles owned, and has lost so many.
pub record Uses (s : Ciphers) (lost more : ℕ) (o : Option Ciphers) : Type 0 where
  pub state : Ciphers
  pub returns : o ≡ some state
  pub owned : IsOwned state
  pub balance : open_handles state + owners s ≡ open_handles s + owners state + lost
  pub objects : length state.objects ≡ length s.objects + more

pub construct_cipher-Uses :
    (key : List ℕ) (s : Ciphers) → IsOwned s → Uses s 0 1 (some (construct_cipher key s))
unfolding construct_cipher
construct_cipher-Uses key s owned = record {
  state = construct_cipher key s;
  returns = refl;
  owned = λ k. omega (
    arith,
    owned k,
    open_at-append k s.handles,
    sum_of-append (owns k) s.objects (record { handle = some (length s.handles); key = key }),
  );
  balance = omega (
    arith,
    sum_of-append is_owner s.objects (record { handle = some (length s.handles); key = key }),
    sum_of-append weight s.handles true,
  );
  objects = length-append s.objects _;
}

pub copy_cipher-Uses :
    (i : ℕ) (s : Ciphers) → i < length s.objects → IsOwned s → Uses s 0 1 (copy_cipher i s)
unfolding copy_cipher
copy_cipher-Uses i s h owned =
    let (other, at) = elem_at s.objects i h in rw at (construct_cipher-Uses other.key s owned)

pub move_cipher-Uses :
    (i : ℕ) (s : Ciphers) → i < length s.objects → IsOwned s → Uses s 0 1 (move_cipher i s)
unfolding move_cipher
move_cipher-Uses i s h owned =
    let (other, at) = elem_at s.objects i h in
    let empty : Cipher = record other { handle = none } in
    let kept : (f : Cipher → ℕ)
        → f empty ≡ 0
        → sum_of f (set s.objects i empty ++ (other ∷ [])) ≡ sum_of f s.objects =
      λ f z. omega (
        arith,
        sum_of-append f (set s.objects i empty) other,
        sum_of-set f s.objects i empty other at,
        z,
      ) in
    record {
      state = record s { objects = set s.objects i empty ++ (other ∷ []) };
      returns = rw at refl;
      owned = λ k. omega (arith, owned k, kept (owns k) refl);
      balance = omega (arith, kept is_owner refl);
      objects =
          omega (
            arith,
            length-append (set s.objects i empty) (other ∷ []),
            length-set s.objects i empty,
          );
    }

-- The assignment from one object to another.
assigned-Uses :
    (i j : ℕ) (s : Ciphers) (other this : Cipher)
    → get_elem? s.objects j ≡ some other
    → get_elem? (set s.objects j (record other { handle = none })) i ≡ some this
    → IsOwned s
    → Uses s (loses (assigned i j) s) 0 (assign_cipher i j s)
unfolding assign_cipher
assigned-Uses i j s other this at at' owned =
    let empty : Cipher = record other { handle = none } in
    let moved = set s.objects j empty in
    let given : Cipher = record { handle = other.handle; key = other.key } in
    let kept : (f : Cipher → ℕ)
        → f empty ≡ 0
        → f given ≡ f other
        → sum_of f (set moved i given) + f this ≡ sum_of f s.objects =
      λ f z e. omega (
        arith,
        sum_of-set f s.objects j empty other at,
        sum_of-set f moved i given this at',
        z,
        e,
      ) in
    let lost : loses (assigned i j) s ≡ is_owner this = rw (at, loses) (rw at' refl) in
    record {
      state = record s { objects = set moved i given };
      returns = rw at refl;
      owned = λ k. omega (arith, owned k, kept (owns k) refl refl);
      balance = omega (arith, kept is_owner refl refl, lost);
      objects = omega (arith, length-set moved i given, length-set s.objects j empty);
    }

pub assign_cipher-Uses :
    (i j : ℕ) (s : Ciphers)
    → i < length s.objects
    → j < length s.objects
    → IsOwned s
    → Uses s (loses (assigned i j) s) 0 (assign_cipher i j s)
assign_cipher-Uses i j s hi hj owned =
    let (other, at) = elem_at s.objects j hj in
    let empty : Cipher = record other { handle = none } in
    let (this, at') =
      elem_at (set s.objects j empty) i (omega (arith, hi, length-set s.objects j empty)) in
    assigned-Uses i j s other this at at' owned

-- The destructor of an object with a null pointer, and with a handle.
destroyed-Uses :
    (i : ℕ) (s : Ciphers) (handle : Option ℕ) (key : List ℕ)
    → get_elem? s.objects i ≡ some (record { handle = handle; key = key })
    → IsOwned s
    → Uses s 0 0 (destroy_cipher i s)
unfolding destroy_cipher
destroyed-Uses i s none key at owned = record {
  state = s;
  returns = rw at refl;
  owned = owned;
  balance = omega arith;
  objects = omega arith;
}
destroyed-Uses i s (some k) key at owned =
    let this : Cipher = record { handle = some k; key = key } in
    let empty : Cipher = record { handle = none; key = key } in
    let is_open : get_elem? s.handles k ≡ some true =
      open_at-true k s.handles
        (omega (arith, owned k, sum_of-at (owns k) s.objects i this at, same_self k)) in
    record {
      state = record { objects = set s.objects i empty; handles = set s.handles k false };
      returns = rw at (rw (is_open, ◌>>=◌) refl);
      owned = λ m. omega (
        arith,
        owned m,
        open_at-set m k s.handles is_open,
        sum_of-set (owns m) s.objects i empty this at,
      );
      balance = omega (
        arith,
        sum_of-set is_owner s.objects i empty this at,
        sum_of-set weight s.handles k false true is_open,
      );
      objects = omega (arith, length-set s.objects i empty);
    }

pub destroy_cipher-Uses :
    (i : ℕ) (s : Ciphers) → i < length s.objects → IsOwned s → Uses s 0 0 (destroy_cipher i s)
destroy_cipher-Uses i s h owned =
    let (this, at) = elem_at s.objects i h in destroyed-Uses i s this.handle this.key at owned
