-- ===== src/Io/Handles.antt =====
-- include/fnx/io.hpp and lib/io.cpp: who owns the `FILE`s. A `File` and its clones share a `FILE` by a
-- `std::shared_ptr`, whose deleter closes it; `open` closes the `FILE` that the object had as well.
use mathlib.Core.Option.{some-injective}
use fuse_nx.Prelude.{
  ℕ, zero, suc, ◌<◌, ◌≡◌, refl, arith, Bool, true, false, List, [], ◌∷◌, ◌++◌, length, Option, none,
  some, get_elem?, set, get_elem?-set_self, ◌⊎◌, inl, inr,
}

-- What a call comes to: it is done, it closes a `FILE` that is closed, or it is about no `FILE` or an end
-- of an owner that there is not.
pub data Closing (A : Type 0) : Type 0 where
  done : A → Closing A
  closed_twice : Closing A
  no_owner : Closing A

infixl 5 ◌>>=◌
abbrev pub ◌>>=◌ : {A B : Type 0} → Closing A → (A → Closing B) → Closing B
done a >>= f = f a
closed_twice >>= f = closed_twice
no_owner >>= f = no_owner

-- A `FILE`, and how many objects own it; a `FILE` is known by its number.
pub record Handle : Type 0 where
  pub is_open : Bool
  pub owners : ℕ

-- What is done to the handle with a number.
abbrev pub at_handle : (Handle → Closing Handle) → ℕ → List Handle → Closing (List Handle)
at_handle f k [] = no_owner
at_handle f zero (h ∷ hs) = do h' ← f h; done (h' ∷ hs)
at_handle f (suc k) (h ∷ hs) = do hs' ← at_handle f k hs; done (h ∷ hs')

abbrev pub fclose : Handle → Closing Handle
fclose h = elim h.is_open [ true ↦ done (record h { is_open = false }) | false ↦ closed_twice ]

-- The end of a `shared_ptr`: the last one calls the deleter.
abbrev pub release : Handle → Closing Handle
release h = elim h.owners [
  | zero ↦ no_owner
  | suc zero ↦ fclose (record h { owners = 0 })
  | suc (suc n) ↦ done (record h { owners = suc n })
]

abbrev pub acquire : Handle → Closing Handle
acquire h = done (record h { owners = suc h.owners })

-- The field `fp`: the number of a `FILE`, or a null pointer, which the deleter and `open` leave alone.
abbrev pub with_fp : (Handle → Closing Handle) → Option ℕ → List Handle → Closing (List Handle)
with_fp f none hs = done hs
with_fp f (some k) hs = at_handle f k hs

-- `fopen`, which may fail.
abbrev pub fopen : Bool → List Handle → Option ℕ × List Handle
fopen true hs = (some (length hs), hs ++ (record { is_open = true; owners = 1 } ∷ []))
fopen false hs = (none, hs)

-- `File::open`: the field before, and whether `fopen` succeeds.
unfoldable pub open_file : Option ℕ → Bool → List Handle → Closing (Option ℕ × List Handle)
open_file fp succeeds hs = do
  hs1 ← with_fp fclose fp hs
  let (fp', hs2) = fopen succeeds hs1
  hs3 ← with_fp release fp hs2
  done (fp', hs3)

-- The constructor, `clone` and the destructor.
unfoldable pub new_file : Bool → List Handle → Closing (Option ℕ × List Handle)
unfolding open_file
new_file succeeds hs = open_file none succeeds hs

unfoldable pub clone_file : Option ℕ → List Handle → Closing (List Handle)
clone_file fp hs = with_fp acquire fp hs

unfoldable pub destroy : Option ℕ → List Handle → Closing (List Handle)
destroy fp hs = with_fp release fp hs

-- The destructors of so many objects that share a `FILE`.
abbrev pub destroy_all : ℕ → ℕ → List Handle → Closing (List Handle)
destroy_all zero k hs = done hs
destroy_all (suc n) k hs = do hs' ← at_handle release k hs; destroy_all n k hs'

at_handle-set :
    (f : Handle → Closing Handle) (k : ℕ) (hs : List Handle) (h h' : Handle)
    → get_elem? hs k ≡ some h
    → f h ≡ done h'
    → at_handle f k hs ≡ done (set hs k h')
at_handle-set f k [] h h' at e = cc
at_handle-set f zero (x ∷ hs) h h' at e = rw (some-injective x h at) (rw e refl)
at_handle-set f (suc k) (x ∷ hs) h h' at e = rw (at_handle-set f k hs h h' at e) refl

at_handle-twice :
    (f : Handle → Closing Handle) (k : ℕ) (hs : List Handle) (h : Handle)
    → get_elem? hs k ≡ some h
    → f h ≡ closed_twice
    → at_handle f k hs ≡ closed_twice
at_handle-twice f k [] h at e = cc
at_handle-twice f zero (x ∷ hs) h at e = rw (some-injective x h at) (rw e refl)
at_handle-twice f (suc k) (x ∷ hs) h at e = rw (at_handle-twice f k hs h at e) refl

within : (k : ℕ) (hs : List Handle) (h : Handle) → get_elem? hs k ≡ some h → k < length hs
within k [] h at = cc
within zero (x ∷ hs) h at = omega arith
within (suc k) (x ∷ hs) h at = omega (arith, within k hs h at)

get_after :
    (k : ℕ) (hs more : List Handle) (h : Handle)
    → get_elem? hs k ≡ some h
    → get_elem? (hs ++ more) k ≡ some h
get_after k [] more h at = cc
get_after zero (x ∷ hs) more h at = at
get_after (suc k) (x ∷ hs) more h at = get_after k hs more h at

-- All but the last owner of a closed `FILE` go, and the last closes it again.
destroy_all-twice :
    (n k : ℕ) (hs : List Handle)
    → get_elem? hs k ≡ some (record { is_open = false; owners = suc n })
    → (hs' : List Handle) × (destroy_all n k hs ≡ done hs')
      × (at_handle release k hs' ≡ closed_twice)
destroy_all-twice zero k hs at = (hs, refl, at_handle-twice release k hs _ at refl)
destroy_all-twice (suc n) k hs at =
    let less : Handle = record { is_open = false; owners = suc n } in
    let (hs', e, last) =
      destroy_all-twice n k (set hs k less) (get_elem?-set_self hs k _ (within k hs _ at)) in
    (hs', rw (at_handle-set release k hs _ less at refl) e, last)

-- The owners of a `FILE` that is open close it once, the last of them.
pub destroy_all-closes :
    (n k : ℕ) (hs : List Handle)
    → get_elem? hs k ≡ some (record { is_open = true; owners = suc n })
    → (hs' : List Handle) × (destroy_all (suc n) k hs ≡ done hs')
      × (get_elem? hs' k ≡ some (record { is_open = false; owners = 0 }))
destroy_all-closes zero k hs at = (
  set hs k (record { is_open = false; owners = 0 }),
  rw (at_handle-set release k hs _ (record { is_open = false; owners = 0 }) at refl) refl,
  get_elem?-set_self hs k _ (within k hs _ at),
)
destroy_all-closes (suc n) k hs at =
    let less : Handle = record { is_open = true; owners = suc n } in
    let (hs', e, closed) =
      destroy_all-closes n k (set hs k less) (get_elem?-set_self hs k _ (within k hs _ at)) in
    (hs', rw (at_handle-set release k hs _ less at refl) e, closed)

fopen-keeps :
    (succeeds : Bool) (k : ℕ) (hs : List Handle) (h : Handle)
    → get_elem? hs k ≡ some h
    → get_elem? (fopen succeeds hs).1 k ≡ some h
fopen-keeps true k hs h at = get_after k hs _ h at
fopen-keeps false k hs h at = at

-- `open` on an object with number `k` in its field: with the `FILE` marked closed and the new one opened, what
-- is left to do is the end of the old owner.
open_file-release :
    (n k : ℕ) (hs : List Handle) (succeeds : Bool)
    → get_elem? hs k ≡ some (record { is_open = true; owners = suc n })
    → (fp : Option ℕ) × (hs2 : List Handle) × (get_elem? hs2 k
        ≡ some (record { is_open = false; owners = suc n }))
      × (open_file (some k) succeeds hs
          ≡ (at_handle release k hs2 >>= λ (hs3 : List Handle). done (fp, hs3)))
unfolding open_file
open_file-release n k hs succeeds at =
    let closed : Handle = record { is_open = false; owners = suc n } in
    let hs1 = set hs k closed in
    (
      (fopen succeeds hs1).0,
      (fopen succeeds hs1).1,
      fopen-keeps succeeds k hs1 closed (get_elem?-set_self hs k _ (within k hs _ at)),
      rw (at_handle-set fclose k hs _ closed at refl) refl,
    )

-- Where `open` is called on an object whose `FILE` is open and has `n` further owners, the `FILE` is closed a
-- second time, whether `fopen` succeeds or not: with no further owner, by `open` itself; otherwise `open`
-- returns, the destructors of all further owners but one do as well, and that of the last closes it again.
pub open_file-closes_twice :
    (n k : ℕ) (hs : List Handle) (succeeds : Bool)
    → get_elem? hs k ≡ some (record { is_open = true; owners = suc n })
    → ((n ≡ 0) × (open_file (some k) succeeds hs ≡ closed_twice))
      ⊎ ((m : ℕ) × (fp : Option ℕ) × (hs' : List Handle) × (hs'' : List Handle) × (n ≡ suc m)
          × (open_file (some k) succeeds hs ≡ done (fp, hs'))
          × (destroy_all m k hs' ≡ done hs'')
          × (at_handle release k hs'' ≡ closed_twice))
open_file-closes_twice zero k hs succeeds at =
    let (fp, hs2, closed, e) = open_file-release 0 k hs succeeds at in
    inl (refl, rw (e, at_handle-twice release k hs2 _ closed refl) refl)
open_file-closes_twice (suc m) k hs succeeds at =
    let (fp, hs2, closed, e) = open_file-release (suc m) k hs succeeds at in
    let less : Handle = record { is_open = false; owners = suc m } in
    let (hs'', kept, last) =
      destroy_all-twice m k (set hs2 k less) (get_elem?-set_self hs2 k _ (within k hs2 _ closed)) in
    inr (
      m,
      fp,
      set hs2 k less,
      hs'',
      refl,
      rw (e, at_handle-set release k hs2 _ less closed refl) refl,
      kept,
      last,
    )
