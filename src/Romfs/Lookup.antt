-- ===== src/Romfs/Lookup.antt =====
-- What `find_dir` finds, from what the buckets of the hash table hold.
use fuse_nx.Prelude.{
  ℕ, zero, suc, ◌/◌, ◌≤◌, ◌<◌, ◌≡◌, ◌≢◌, refl, ap, ◌∙◌, arith, Bool, true, false, ◌&&◌, ◌==◌, List,
  [], ◌∷◌, ◌++◌, length, length-append, take, drop, get_elem?, some,
}
use fuse_nx.Prelude.Words.{u32}
use fuse_nx.Keys.{find}
use fuse_nx.Keys.Lines.{AllFail, find_stop, take_prefix}
use fuse_nx.Keyset.Titles.{bytes_eq}
use fuse_nx.Romfs.Types.{Run, ok, ◌>>=◌, RomFs, DirEntry, DirMeta, dir_meta_at, invalid_meta}
use fuse_nx.Romfs.Find.{
  calc_path_hash, bucket_at, bucket_loop, child_with, find_child, is_slash, find_loop, find_dir,
}
use fuse_nx.Romfs.Siblings.{differ}

-- Whether a record is that of a name in the directory whose record is at `parent`.
abbrev pub is_match : ℕ → List ℕ → DirMeta → Bool
is_match parent name m = bytes_eq name m.name && (parent == m.parent_off)

-- From an offset on, the chain of a bucket leads in `n` steps to the record at `target`: the first one
-- that is looked for, or else the last one, as `hit` tells.
pub data Bucket (tbl : List ℕ) (parent : ℕ) (name : List ℕ) : Bool → ℕ → ℕ → ℕ → Type 0 where
  hit :
      {off : ℕ} {m : DirMeta}
      → dir_meta_at tbl off ≡ ok m
      → is_match parent name m ≡ true
      → Bucket tbl parent name true off off 0
  miss :
      {off : ℕ} {m : DirMeta}
      → dir_meta_at tbl off ≡ ok m
      → is_match parent name m ≡ false
      → m.next ≡ invalid_meta
      → Bucket tbl parent name false off off 0
  step :
      {hits : Bool} {off target n : ℕ} {m : DirMeta}
      → dir_meta_at tbl off ≡ ok m
      → is_match parent name m ≡ false
      → m.next ≢ invalid_meta
      → Bucket tbl parent name hits m.next target n
      → Bucket tbl parent name hits off target (suc n)

-- The first of these directories whose record is at an offset.
pub data ChildAt (dirs : List DirEntry) (off : ℕ) : List ℕ → ℕ → Type 0 where
  here :
      {i : ℕ} {is : List ℕ} {d : DirEntry}
      → get_elem? dirs i ≡ some d
      → d.meta ≡ some off
      → ChildAt dirs off (i ∷ is) i
  there :
      {i c o : ℕ} {is : List ℕ} {d : DirEntry}
      → get_elem? dirs i ≡ some d
      → d.meta ≡ some o
      → o ≢ off
      → ChildAt dirs off is c
      → ChildAt dirs off (i ∷ is) c

bucket_round :
    (k : ℕ) (tbl : List ℕ) (parent : ℕ) (name : List ℕ) (off : ℕ) (m : DirMeta)
    → dir_meta_at tbl off ≡ ok m
    → bucket_loop (suc k) tbl parent name off ≡ (elim (is_match parent name m) as (λ _. Run ℕ) [
      | true ↦ ok off
      | false ↦ elim (m.next == invalid_meta) as (λ _. Run ℕ) [
        | true ↦ ok off
        | false ↦ bucket_loop k tbl parent name m.next
      ]
    ])
unfolding bucket_loop
bucket_round k tbl parent name off m read = rw (read, bucket_loop) refl

bucket_loop-Bucket :
    (tbl : List ℕ) (parent : ℕ) (name : List ℕ) (hits : Bool) (off target n : ℕ)
    → Bucket tbl parent name hits off target n
    → (k : ℕ) → n < k
    → bucket_loop k tbl parent name off ≡ ok target
unfolding bucket_loop
bucket_loop-Bucket tbl parent name hits off target n b zero h = absurd (omega arith)
bucket_loop-Bucket tbl parent name hits off target n (hit {m} read found) (suc k) h =
    bucket_round k tbl parent name off m read ∙ rw found refl
bucket_loop-Bucket tbl parent name hits off target n (miss {m} read other end) (suc k) h =
    bucket_round k tbl parent name off m read ∙ rw (other, end) refl
bucket_loop-Bucket tbl parent name hits off target n (step {m} read other valid rest) (suc k) h =
    bucket_round k tbl parent name off m read
    ∙ rw (other, differ m.next invalid_meta valid)
        (bucket_loop-Bucket tbl parent name _ m.next target _ rest k (omega arith))

child_with-ChildAt :
    (dirs : List DirEntry) (off c : ℕ) (is : List ℕ)
    → ChildAt dirs off is c
    → child_with dirs off is ≡ ok (some c)
unfolding child_with
child_with-ChildAt dirs off c is (here {d} got at) = ground (arith, got, at)
child_with-ChildAt dirs off c is (there {o} got at other rest) =
    ground (arith, got, at, other, child_with-ChildAt dirs off c _ rest)

-- When the bucket of a name leads to a record, in fewer steps than the rounds given, one round of
-- `find_dir` finds the directory's child with that record. If the bucket has a record of the name, that
-- is the child of the name; if not, it is the child that has the last record of the bucket.
pub find_child-Bucket :
    (k : ℕ) (r : RomFs) (entry : ℕ) (d : DirEntry) (p : ℕ) (name : List ℕ) (bucket : ℕ)
    (hits : Bool) (target n c : ℕ)
    → get_elem? r.dir_entries entry ≡ some d
    → d.meta ≡ some p
    → bucket_at r.dir_hash_tbl (r.header.dir_tbl_sz / 4) (calc_path_hash (u32 p) name) ≡ ok bucket
    → bucket ≢ invalid_meta
    → Bucket r.dir_meta_tbl p name hits bucket target n
    → n < k
    → ChildAt r.dir_entries target d.children c
    → find_child k r entry name ≡ ok (some c)
unfolding find_child
find_child-Bucket k r entry d p name bucket hits target n c got at hashed valid chain h child =
    rw (got, at, hashed, find_child)
      (rw (differ bucket invalid_meta valid, ◌>>=◌)
        (ap (λ (o : Run ℕ). o >>= λ off. child_with r.dir_entries off d.children)
            (bucket_loop-Bucket r.dir_meta_tbl p name hits bucket target n chain k h)
          ∙ child_with-ChildAt r.dir_entries target c d.children child))

-- A path, written with a separator behind each name.
abbrev pub path_text : List (List ℕ) → List ℕ
path_text [] = []
path_text (name ∷ names) = name ++ (b'/' ∷ path_text names)

-- The child of a name: the directory whose record is in the bucket of the name, which reaches it in fewer
-- steps than the rounds given, and has that name and the directory for its parent.
pub data Child (k : ℕ) (r : RomFs) (entry : ℕ) (name : List ℕ) (c : ℕ) : Type 0 where
  in_bucket :
      {d : DirEntry} {p bucket target n : ℕ}
      → get_elem? r.dir_entries entry ≡ some d
      → d.meta ≡ some p
      → bucket_at r.dir_hash_tbl (r.header.dir_tbl_sz / 4) (calc_path_hash (u32 p) name) ≡ ok bucket
      → bucket ≢ invalid_meta
      → Bucket r.dir_meta_tbl p name true bucket target n
      → n < k
      → ChildAt r.dir_entries target d.children c
      → Child k r entry name c

find_child-Child :
    (k : ℕ) (r : RomFs) (entry : ℕ) (name : List ℕ) (c : ℕ)
    → Child k r entry name c
    → find_child k r entry name ≡ ok (some c)
find_child-Child k r entry name c
      (in_bucket {d} {p} {bucket} {target} {n} got at hashed valid chain h made) =
    find_child-Bucket k r entry d p name bucket true target n c got at hashed valid chain h made

-- The directory that a path of names leads to, a child at each step.
pub data Leads (k : ℕ) (r : RomFs) : ℕ → List (List ℕ) → ℕ → Type 0 where
  arrived : {entry : ℕ} → Leads k r entry [] entry
  down :
      {entry c target : ℕ} {name : List ℕ} {names : List (List ℕ)}
      → length name ≢ 0
      → AllFail is_slash name
      → Child k r entry name c
      → Leads k r c names target
      → Leads k r entry (name ∷ names) target

length-path_text :
    (k : ℕ) (r : RomFs) (entry target : ℕ) (names : List (List ℕ))
    → Leads k r entry names target
    → length names ≤ length (path_text names)
length-path_text k r entry target names arrived = omega arith
length-path_text k r entry target names
      (down {c} {name} {names = rest} some_name plain found leads) =
    omega
      (arith, length-append name (b'/' ∷ path_text rest), length-path_text k r c target rest leads)

find_loop-round :
    (n k : ℕ) (r : RomFs) (entry child : ℕ) (path : List ℕ) (i c : ℕ) (cs rest : List ℕ)
    → find is_slash path ≡ some i
    → take i path ≡ c ∷ cs
    → drop (suc i) path ≡ rest
    → find_child k r entry (c ∷ cs) ≡ ok (some child)
    → find_loop (suc n) k r entry path ≡ find_loop n k r child rest
unfolding find_loop
find_loop-round n k r entry child path i c cs rest ends name after found =
    rw (ends, name, find_loop) (rw (found, ◌>>=◌) (rw (ends, after) refl))

drop-suc : (xs : List ℕ) (y : ℕ) (ys : List ℕ) → drop (suc (length xs)) (xs ++ (y ∷ ys)) ≡ ys
drop-suc [] y ys = refl
drop-suc (x ∷ xs) y ys = drop-suc xs y ys

find_loop-Leads :
    (k : ℕ) (r : RomFs) (entry target : ℕ) (names : List (List ℕ))
    → Leads k r entry names target
    → (n : ℕ) → length names < n
    → find_loop n k r entry (path_text names) ≡ ok (some target)
unfolding find_loop find
find_loop-Leads k r entry target names leads zero h = absurd (omega arith)
find_loop-Leads k r entry target names arrived (suc n) h = refl
find_loop-Leads k r entry target names (down {c} {name} {names = rest} some_name plain found leads)
      (suc n) h =
    named name some_name plain (find_child-Child k r entry name c found)
    ∙ find_loop-Leads k r c target rest leads n (omega arith)
  where
    named :
        (name : List ℕ)
        → length name ≢ 0
        → AllFail is_slash name
        → find_child k r entry name ≡ ok (some c)
        → find_loop (suc n) k r entry (name ++ (b'/' ∷ path_text rest))
          ≡ find_loop n k r c (path_text rest)
    named [] some_name plain found = absurd (some_name refl)
    named (x ∷ xs) some_name plain found =
        find_loop-round n k r entry c ((x ∷ xs) ++ (b'/' ∷ path_text rest)) (length (x ∷ xs)) x xs
          (path_text rest) (find_stop is_slash (x ∷ xs) b'/' (path_text rest) plain refl)
          (take_prefix (x ∷ xs) (b'/' ∷ path_text rest)) (drop-suc (x ∷ xs) b'/' (path_text rest))
          found

-- `find_dir` of an absolute path with a separator behind each name, also the last, the form that the containers
-- use, arrives where the names lead from the root, one child after another: each is the child whose record is
-- the first in the name's bucket with that name and that parent, within the rounds given.
pub find_dir-Leads :
    (k : ℕ) (r : RomFs) (target : ℕ) (names : List (List ℕ))
    → length r.dir_entries ≢ 0
    → Leads k r 0 names target
    → find_dir k r (b'/' ∷ path_text names) ≡ ok (some target)
unfolding find_dir find bytes_eq
find_dir-Leads k r target names rooted leads =
    from_root r.dir_entries refl rooted target names leads
  where
    from_root :
        (dirs : List DirEntry)
        → r.dir_entries ≡ dirs
        → length dirs ≢ 0
        → (to : ℕ) (names : List (List ℕ)) → Leads k r 0 names to
        → find_dir k r (b'/' ∷ path_text names) ≡ ok (some to)
    from_root [] e some_dir to names leads = absurd (some_dir refl)
    from_root (d ∷ dirs) e some_dir to [] arrived = rw (e, find_dir) refl
    from_root (d ∷ dirs) e some_dir to ([] ∷ names) (down some_name plain found leads) =
        absurd (some_name refl)
    from_root (d ∷ dirs) e some_dir to ((c ∷ cs) ∷ names) leads =
        rw (e, find_dir)
          (find_loop-Leads k r 0 to ((c ∷ cs) ∷ names) leads
            (suc (length (path_text ((c ∷ cs) ∷ names))))
            (omega (arith, length-path_text k r 0 to ((c ∷ cs) ∷ names) leads)))
