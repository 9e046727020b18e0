-- ===== src/Romfs/Find.antt =====
-- `find_dir`, `find_file`, and the paths of entries.
use fuse_nx.Prelude.{
  ℕ, zero, suc, ◌-◌, ◌+◌, ◌*◌, ◌/◌, ◌%◌, ◌^◌, Bool, true, false, ◌&&◌, if◌then◌else◌, ltb, leb,
  ◌==◌, List, [], ◌∷◌, ◌++◌, length, drop, take, get_elem?, Option, none, some, bit_or, bit_xor,
}
use fuse_nx.Prelude.Bytes.{field_at}
use fuse_nx.Prelude.Words.{u32}
use fuse_nx.Keys.{find}
use fuse_nx.Keyset.Titles.{bytes_eq}
use fuse_nx.Romfs.Types.{
  Run, ok, fault, out_of_fuel, ◌>>=◌, RomFs, DirEntry, FileEntry, dir_meta_at, invalid_meta,
}

-- A `char` as it takes part in arithmetic on 32 bits: it has a sign.
unfoldable pub sign_extend : ℕ → ℕ
sign_extend c = if ltb c 0x80 then c else c + (2 ^ 32 - 2 ^ 8)

-- The loop of `calc_path_hash`.
unfoldable pub hash_name : ℕ → List ℕ → ℕ
unfolding sign_extend
hash_name hash [] = hash
hash_name hash (c ∷ name) =
    hash_name (bit_xor (bit_or (hash / 2 ^ 5) (u32 (hash * 2 ^ 27))) (sign_extend c)) name

unfoldable pub calc_path_hash : ℕ → List ℕ → ℕ
unfolding hash_name
calc_path_hash parent_offset name = hash_name (bit_xor parent_offset 123456789) name

-- An element of a hash table of 32-bit words; a division by zero faults, as does a place behind the end.
unfoldable pub bucket_at : List ℕ → ℕ → ℕ → Run ℕ
bucket_at tbl zero hash = fault
bucket_at tbl (suc n) hash =
    let i = hash % suc n in
    if leb (4 * i + 4) (length tbl) then ok (field_at (4 * i) 4 tbl) else fault

-- The walk through a bucket: the place of the record that it stops at, which is the one looked for or
-- the last one.
unfoldable pub bucket_loop : ℕ → List ℕ → ℕ → List ℕ → ℕ → Run ℕ
unfolding dir_meta_at bytes_eq
bucket_loop zero tbl parent name off = out_of_fuel
bucket_loop (suc k) tbl parent name off = do
  m ← dir_meta_at tbl off
  elim (bytes_eq name m.name && (parent == m.parent_off)) [
    | true ↦ ok off
    | false ↦ elim (m.next == invalid_meta) [
      | true ↦ ok off
      | false ↦ bucket_loop k tbl parent name m.next
    ]
  ]

-- `std::find_if` over the children, by the place of their records.
unfoldable pub child_with : List DirEntry → ℕ → List ℕ → Run (Option ℕ)
child_with dirs off [] = ok none
child_with dirs off (i ∷ is) = elim (get_elem? dirs i) [
  | none ↦ fault
  | some d ↦ elim (elim d.meta as (λ _. Bool) [ none ↦ false | some o ↦ o == off ]) [
    | true ↦ ok (some i)
    | false ↦ child_with dirs off is
  ]
]

-- One round of `find_dir`: the child of a directory by its name.
unfoldable pub find_child : ℕ → RomFs → ℕ → List ℕ → Run (Option ℕ)
unfolding calc_path_hash bucket_at bucket_loop child_with
find_child k r entry name = elim (get_elem? r.dir_entries entry) [
  | none ↦ fault
  | some d ↦ elim d.meta [
    | none ↦ fault
    | some offset ↦ do
      bucket ← bucket_at r.dir_hash_tbl (r.header.dir_tbl_sz / 4) (calc_path_hash (u32 offset) name)
      elim (bucket == invalid_meta) [
        | true ↦ ok none
        | false ↦ do
          off ← bucket_loop k r.dir_meta_tbl offset name bucket
          child_with r.dir_entries off d.children
      ]
  ]
]

abbrev pub is_slash : ℕ → Bool
is_slash c = c == b'/'

-- The loop of `find_dir`. `rest` is what follows a separator; each round uses one more of them.
unfoldable pub find_loop : ℕ → ℕ → RomFs → ℕ → List ℕ → Run (Option ℕ)
unfolding find_child find
find_loop zero k r entry rest = out_of_fuel
find_loop (suc n) k r entry rest =
    let sep = find is_slash rest in
    let name = elim sep as (λ _. List ℕ) [ none ↦ rest | some i ↦ take i rest ] in
    elim name [
      | [] ↦ ok (some entry)
      | (c ∷ cs) ↦ do
        found ← find_child k r entry (c ∷ cs)
        elim found [
          | none ↦ ok none
          | some child ↦ elim sep [
            | none ↦ ok (some child)
            | some i ↦ find_loop n k r child (drop (suc i) rest)
          ]
        ]
    ]

-- `find_dir`: `ok none` is the null pointer. A path has fewer separators than characters.
unfoldable pub find_dir : ℕ → RomFs → List ℕ → Run (Option ℕ)
unfolding find_loop find bytes_eq
find_dir k r path = elim r.dir_entries [
  | [] ↦ fault
  | (root ∷ dirs) ↦ elim (bytes_eq path (b'/' ∷ [])) [
    | true ↦ ok (some 0)
    | false ↦ elim (find is_slash path) [
      | none ↦ ok (some 0)
      | some i ↦ find_loop (length path) k r 0 (drop (suc i) path)
    ]
  ]
]

-- The place of the last separator.
unfoldable pub find_last : List ℕ → Option ℕ
find_last [] = none
find_last (c ∷ cs) = elim (find_last cs) [
  | some i ↦ some (suc i)
  | none ↦ if is_slash c then some 0 else none
]

unfoldable pub file_named : List FileEntry → List ℕ → List ℕ → Run (Option ℕ)
unfolding bytes_eq
file_named files name [] = ok none
file_named files name (i ∷ is) = elim (get_elem? files i) [
  | none ↦ fault
  | some f ↦ elim (bytes_eq f.name name) [ true ↦ ok (some i) | false ↦ file_named files name is ]
]

-- `find_file`: without a separator, `sep_pos + 1` wraps around to 0.
unfoldable pub find_file : ℕ → RomFs → List ℕ → Run (Option ℕ)
unfolding find_dir find_last file_named
find_file k r path =
    let n = elim (find_last path) as (λ _. ℕ) [ none ↦ 0 | some i ↦ suc i ] in
    do
      dir ← find_dir k r (take n path)
      elim dir [
        | none ↦ ok none
        | some i ↦ elim (get_elem? r.dir_entries i) [
          | none ↦ fault
          | some d ↦ file_named r.file_entries (drop n path) d.files
        ]
      ]

-- The loop of `Entry::path`, on a pointer to a parent and the path so far.
unfoldable pub path_loop : ℕ → List DirEntry → Option ℕ → List ℕ → Run (List ℕ)
path_loop k dirs none path = ok path
path_loop zero dirs (some i) path = out_of_fuel
path_loop (suc k) dirs (some i) path = elim (get_elem? dirs i) [
  | none ↦ fault
  | some d ↦ path_loop k dirs d.parent (d.name ++ (b'/' ∷ path))
]

-- `Entry::path` of a directory or a file.
unfoldable pub path_of : ℕ → RomFs → Option ℕ → List ℕ → Run (List ℕ)
unfolding path_loop
path_of k r parent name = path_loop k r.dir_entries parent name
