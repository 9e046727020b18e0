-- ===== src/Romfs/Parse.antt =====
-- `parse_dir` and `parse_fast`. An offset behind the end of a table ends a chain, as the comparison with
-- the table's end has it.
use fuse_nx.Prelude.{
  ℕ, zero, suc, ◌+◌, Bool, true, false, ltb, ◌==◌, List, [], ◌∷◌, ◌++◌, length, get_elem?, none,
  some,
}
use fuse_nx.Crypto.{Backend}
use fuse_nx.Io.{Stream}
use fuse_nx.Utils.{align_up}
use fuse_nx.Romfs.Types.{
  Run, ok, fault, out_of_fuel, ◌>>=◌, RomFs, DirEntry, DirMeta, FileMeta, dir_meta_at, file_meta_at,
  invalid_meta,
}
use fuse_nx.Romfs.Tables.{read_tables}

-- An element of a vector, changed in place.
unfoldable pub modify {ℓ} : {A : Type ℓ} → ℕ → (A → A) → List A → List A
modify i f [] = []
modify zero f (x ∷ xs) = f x ∷ xs
modify (suc i) f (x ∷ xs) = x ∷ modify i f xs

-- `emplace_back` of a directory or a file, and the `push_back` into the list of its parent.
unfoldable pub add_dir : ℕ → ℕ → List ℕ → RomFs → RomFs
unfolding modify
add_dir entry off name r = record r {
  dir_entries =
      modify entry
        (λ (d : DirEntry). record d { children = d.children ++ (length r.dir_entries ∷ []) })
        r.dir_entries
      ++ (record { parent = some entry; meta = some off; name = name; children = []; files = [] }
          ∷ []);
}

unfoldable pub add_file : ℕ → ℕ → FileMeta → RomFs → RomFs
unfolding modify
add_file entry off m r = record r {
  dir_entries =
      modify entry (λ (d : DirEntry). record d { files = d.files ++ (length r.file_entries ∷ []) })
        r.dir_entries;
  file_entries =
      r.file_entries
      ++ (record {
        parent = some entry;
        meta = some off;
        name = m.name;
        offset = m.data_off;
        size = m.data_sz;
      }
          ∷ []);
}

-- The loop over the files of a directory.
unfoldable pub file_loop : ℕ → ℕ → ℕ → RomFs → Run RomFs
unfolding file_meta_at add_file
file_loop zero entry off r = out_of_fuel
file_loop (suc k) entry off r = elim (ltb off (length r.file_meta_tbl)) [
  | false ↦ ok r
  | true ↦ do
    m ← file_meta_at r.file_meta_tbl off
    elim (m.sibling_off == invalid_meta) [
      | true ↦ ok (add_file entry off m r)
      | false ↦ file_loop k entry m.sibling_off (add_file entry off m r)
    ]
]

unfoldable pub files_of : ℕ → ℕ → DirMeta → RomFs → Run RomFs
unfolding file_loop
files_of k entry m r = elim (m.file_off == invalid_meta) [
  | true ↦ ok r
  | false ↦ file_loop k entry m.file_off r
]

unfoldable mutual
  unfolding dir_meta_at add_dir files_of

  -- The loop over the directories of a directory, and `parse_dir` from an entry on. Both are given
  -- rounds, of which the innermost call has the fewest.
  pub dir_loop : ℕ → Bool → ℕ → ℕ → RomFs → Run RomFs
  dir_loop zero recursive entry off r = out_of_fuel
  dir_loop (suc k) recursive entry off r = elim (ltb off (length r.dir_meta_tbl)) [
    | false ↦ ok r
    | true ↦ do
      m ← dir_meta_at r.dir_meta_tbl off
      r' ← elim recursive [
        | true ↦ parse_entry k true (length r.dir_entries) off (add_dir entry off m.name r)
        | false ↦ ok (add_dir entry off m.name r)
      ]
      elim (m.sibling_off == invalid_meta) [
        | true ↦ ok r'
        | false ↦ dir_loop k recursive entry m.sibling_off r'
      ]
  ]

  pub parse_entry : ℕ → Bool → ℕ → ℕ → RomFs → Run RomFs
  parse_entry zero recursive entry off r = out_of_fuel
  parse_entry (suc k) recursive entry off r = do
    m ← dir_meta_at r.dir_meta_tbl off
    r' ← elim (m.child_off == invalid_meta) [
      | true ↦ ok r
      | false ↦ dir_loop k recursive entry m.child_off r
    ]
    files_of k entry m r'

-- `parse_dir(nullptr, recursive)`: the tables and the root, then as for an entry.
unfoldable pub parse_root : Backend → ℕ → Bool → RomFs → Stream → Run (RomFs × Stream)
unfolding read_tables parse_entry dir_meta_at
parse_root b k recursive r s = elim (read_tables b r s) [
  | none ↦ fault
  | some (t, s') ↦ do
    m ← dir_meta_at t.dir_meta_tbl 0
    let root : DirEntry = record {
      parent = none;
      meta = some 0;
      name = m.name;
      children = [];
      files = [];
    }
    r' ←
        parse_entry k recursive (length t.dir_entries) 0
          (record t { dir_entries = t.dir_entries ++ (root ∷ []) })
    ok (r', s')
]

-- `parse_dir(entry, recursive)` of an entry that is not null.
unfoldable pub parse_dir : ℕ → Bool → ℕ → RomFs → Run RomFs
unfolding parse_entry
parse_dir k recursive entry r = elim (get_elem? r.dir_entries entry) [
  | none ↦ fault
  | some d ↦ elim d.meta [ none ↦ fault | some off ↦ parse_entry k recursive entry off r ]
]

-- The two loops of `parse_fast`; an offset that passes the end ends them.
unfoldable pub fast_dirs : ℕ → ℕ → RomFs → Run RomFs
unfolding dir_meta_at align_up
fast_dirs zero off r = out_of_fuel
fast_dirs (suc k) off r = elim (ltb off (length r.dir_meta_tbl)) [
  | false ↦ ok r
  | true ↦ do
    m ← dir_meta_at r.dir_meta_tbl off
    fast_dirs k (off + 0x18 + align_up 32 (length m.name) 4) (record r {
      dir_entries =
          r.dir_entries
          ++ (record { parent = none; meta = none; name = m.name; children = []; files = [] } ∷ []);
    })
]

unfoldable pub fast_files : ℕ → ℕ → RomFs → Run RomFs
unfolding file_meta_at align_up
fast_files zero off r = out_of_fuel
fast_files (suc k) off r = elim (ltb off (length r.file_meta_tbl)) [
  | false ↦ ok r
  | true ↦ do
    m ← file_meta_at r.file_meta_tbl off
    fast_files k (off + 0x20 + align_up 32 (length m.name) 4) (record r {
      file_entries =
          r.file_entries
          ++ (record {
            parent = none;
            meta = none;
            name = m.name;
            offset = m.data_off;
            size = m.data_sz;
          }
              ∷ []);
    })
]

unfoldable pub parse_fast : Backend → ℕ → RomFs → Stream → Run (RomFs × Stream)
unfolding read_tables fast_dirs fast_files
parse_fast b k r s = elim (read_tables b r s) [
  | none ↦ fault
  | some (t, s') ↦ do r1 ← fast_dirs k 0 t; r2 ← fast_files k 0 r1; ok (r2, s')
]
