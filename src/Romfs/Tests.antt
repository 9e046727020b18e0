-- ===== src/Romfs/Tests.antt =====
-- A file system of a directory and a file in the root, and the theorems at it.
use mathlib.Core.Path.{subst, sym}
use fuse_nx.Prelude.{ℕ, ◌≡◌, ◌⊎◌, refl, ap, arith, false, List, [], ◌∷◌, ◌++◌, map, none, some}
use fuse_nx.Prelude.Bytes.{to_le}
use fuse_nx.Io.{file}
use fuse_nx.Keyset.Text.{codes}
use fuse_nx.Keyset.Titles.{bytes_eq}
use fuse_nx.Romfs.Types.{
  Run, ok, fault, out_of_fuel, RomFs, Header, DirEntry, DirMeta, FileMeta, dir_meta_at,
  file_meta_at,
}
use fuse_nx.Romfs.Parse.{modify, dir_loop, parse_entry}
use fuse_nx.Romfs.Find.{find_child, find_dir, calc_path_hash, bucket_at}
use fuse_nx.Romfs.Siblings.{last, more, start, sibling, Reaches, IsForward, dir_loop_ends}
use fuse_nx.Romfs.Entries.{range, dir_of, file_of, with_children, with_files, parse_entry-Chain}
use fuse_nx.Romfs.Lookup.{
  hit, in_bucket, Child, miss, here, arrived, down, find_child-Bucket, find_dir-Leads,
}

abbrev root_meta : DirMeta
root_meta = record {
  parent_off = 0;
  sibling_off = 0xffffffff;
  child_off = 0x18;
  file_off = 0;
  next = 0xffffffff;
  name = [];
}

abbrev ab_meta : DirMeta
ab_meta = record {
  parent_off = 0;
  sibling_off = 0xffffffff;
  child_off = 0xffffffff;
  file_off = 0xffffffff;
  next = 0xffffffff;
  name = codes "ab";
}

abbrev file_meta : FileMeta
file_meta = record { sibling_off = 0xffffffff; data_off = 5; data_sz = 7; name = codes "f" }

abbrev words : List ℕ → List ℕ
unfolding to_le
words [] = []
words (w ∷ ws) = to_le 4 w ++ words ws

abbrev invalid : ℕ
invalid = 0xffffffff

abbrev dir_table : List ℕ
dir_table =
    words (0 ∷ invalid ∷ 0x18 ∷ 0 ∷ invalid ∷ 0 ∷ [])
    ++ (words (0 ∷ invalid ∷ invalid ∷ invalid ∷ invalid ∷ 2 ∷ []) ++ (b'a' ∷ b'b' ∷ 0 ∷ 0 ∷ []))

abbrev file_table : List ℕ
file_table = words (0 ∷ invalid ∷ 5 ∷ 0 ∷ 7 ∷ 0 ∷ invalid ∷ 1 ∷ []) ++ (b'f' ∷ 0 ∷ 0 ∷ 0 ∷ [])

abbrev root : DirEntry
root = record { parent = none; meta = some 0; name = []; children = []; files = [] }

abbrev header : Header
header = record {
  header_size = 0x50;
  dir_tbl_off = 0;
  dir_tbl_sz = 4;
  dir_meta_off = 0;
  dir_meta_sz = 0;
  file_tbl_off = 0;
  file_tbl_sz = 0;
  file_meta_off = 0;
  file_meta_sz = 0;
  file_dat_off = 0;
}

abbrev fresh : RomFs
fresh = record {
  base = file 0 0;
  header = header;
  dir_hash_tbl = words (0x18 ∷ []);
  file_hash_tbl = [];
  dir_meta_tbl = dir_table;
  file_meta_tbl = file_table;
  dir_entries = root ∷ [];
  file_entries = [];
}

parse_entry-Chain_example :
    (r' : RomFs) × (parse_entry 3 false 0 0 fresh ≡ ok r')
    × (r'.dir_entries
        ≡ modify 0 (λ d. with_files (range 0 1) (with_children (range 1 1) d)) (root ∷ [])
          ++ map (dir_of 0) ((0x18, ab_meta) ∷ []))
    × (r'.file_entries ≡ [] ++ map (file_of 0) ((0, file_meta) ∷ []))
unfolding dir_meta_at file_meta_at to_le
parse_entry-Chain_example =
    parse_entry-Chain 2 0 0 root_meta fresh ((0x18, ab_meta) ∷ []) ((0, file_meta) ∷ []) refl
      (omega arith) (more (omega arith) (omega arith) refl last)
      (more (omega arith) (omega arith) refl last) (omega arith) (omega arith)

-- The same tables, parsed.
abbrev parsed : RomFs
parsed = record fresh {
  dir_entries = record root { children = 1 ∷ []; files = 0 ∷ [] } ∷ dir_of 0 (0x18, ab_meta) ∷ [];
  file_entries = file_of 0 (0, file_meta) ∷ [];
}

-- A name that is not there: the bucket's last record is that of `ab`, whose directory is found.
find_child-Bucket_example : find_child 1 parsed 0 (codes "other") ≡ ok (some 1)
unfolding calc_path_hash bucket_at dir_meta_at bytes_eq to_le
find_child-Bucket_example =
    find_child-Bucket 1 parsed 0 (record root { children = 1 ∷ []; files = 0 ∷ [] }) 0
      (codes "other") 0x18 false 0x18 0 1 refl refl refl (omega arith)
      (miss {m = ab_meta} refl refl refl) (omega arith) (here refl refl)

ab-Child : Child 1 parsed 0 (codes "ab") 1
unfolding calc_path_hash bucket_at dir_meta_at bytes_eq to_le
ab-Child =
    in_bucket {d = record root { children = 1 ∷ []; files = 0 ∷ [] }} {p = 0} {bucket = 0x18} refl
      refl refl (omega arith) (hit {m = ab_meta} refl refl) (omega arith) (here refl refl)

find_dir-Leads_example : find_dir 1 parsed (codes "/ab/") ≡ ok (some 1)
find_dir-Leads_example =
    find_dir-Leads 1 parsed 1 (codes "ab" ∷ []) (omega arith)
      (down (omega arith) (ground arith) ab-Child arrived)

-- Two siblings, one behind the other.
abbrev two_records : List ℕ
two_records =
    words (0 ∷ 0x18 ∷ invalid ∷ invalid ∷ invalid ∷ 0 ∷ [])
    ++ words (0 ∷ invalid ∷ invalid ∷ invalid ∷ invalid ∷ 0 ∷ [])

sibling_of : Run DirMeta → ℕ
sibling_of (ok m) = m.sibling_off
sibling_of fault = 0
sibling_of out_of_fuel = 0

second-IsForward : IsForward two_records 0x18
unfolding dir_meta_at to_le sibling_of
second-IsForward to m start read = omega (arith, ap sibling_of read)
second-IsForward to m (sibling got valid rest) read = absurd (valid (sym (ap sibling_of got)))

two_records-IsForward : IsForward two_records 0
unfolding dir_meta_at to_le sibling_of
two_records-IsForward to m start read = omega (arith, ap sibling_of read)
two_records-IsForward to m (sibling got valid rest) read =
    second-IsForward to m (subst (λ o. Reaches two_records o to) (sym (ap sibling_of got)) rest)
      read

dir_loop_ends_example :
    (dir_loop 49 false 0 0 (record fresh { dir_meta_tbl = two_records }) ≡ fault)
    ⊎ ((r' : RomFs) × (dir_loop 49 false 0 0 (record fresh { dir_meta_tbl = two_records }) ≡ ok r'))
unfolding to_le
dir_loop_ends_example =
    dir_loop_ends 49 0 0 (record fresh { dir_meta_tbl = two_records }) two_records-IsForward
      (omega arith) (omega arith)
