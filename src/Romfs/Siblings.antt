-- ===== src/Romfs/Siblings.antt =====
-- The chains of siblings that `parse_dir` follows.
use fuse_nx.Prelude.{
  ℕ, zero, suc, ◌+◌, ◌≤◌, ◌<◌, ◌≡◌, ◌≢◌, ◌⊎◌, inl, inr, refl, ap, ◌∙◌, arith, true, false, ltb,
  ◌==◌, List, [], ◌∷◌, length,
}
use native.Mathlib.Decide.{dec_lt, ℕ_discrete}
use fuse_nx.Romfs.Types.{
  Run, ok, fault, out_of_fuel, RomFs, DirMeta, FileMeta, dir_meta_at, file_meta_at, invalid_meta,
}
use fuse_nx.Romfs.Parse.{add_dir, add_file, file_loop, dir_loop}

-- From an offset on, the records that the chain of siblings leads through: it ends with the invalid
-- offset, or behind the end of the table.
pub data Chain {M : Type 0} (at : ℕ → Run M) (sibling : M → ℕ) (size : ℕ)
    : ℕ → List (ℕ × M) → Type 0 where
  last : Chain at sibling size invalid_meta []
  past : {off : ℕ} → off ≢ invalid_meta → size ≤ off → Chain at sibling size off []
  more :
      {off : ℕ} {m : M} {ms : List (ℕ × M)}
      → off ≢ invalid_meta
      → off < size
      → at off ≡ ok m
      → Chain at sibling size (sibling m) ms
      → Chain at sibling size off ((off, m) ∷ ms)

abbrev pub Dirs : List ℕ → ℕ → List (ℕ × DirMeta) → Type 0
Dirs tbl = Chain (dir_meta_at tbl) (λ m. m.sibling_off) (length tbl)

abbrev pub Files : List ℕ → ℕ → List (ℕ × FileMeta) → Type 0
Files tbl = Chain (file_meta_at tbl) (λ m. m.sibling_off) (length tbl)

abbrev pub add_dirs : ℕ → List (ℕ × DirMeta) → RomFs → RomFs
add_dirs entry [] r = r
add_dirs entry ((off, m) ∷ ms) r = add_dirs entry ms (add_dir entry off m.name r)

abbrev pub add_files : ℕ → List (ℕ × FileMeta) → RomFs → RomFs
add_files entry [] r = r
add_files entry ((off, m) ∷ ms) r = add_files entry ms (add_file entry off m r)

-- The test before a loop, and the loop.
abbrev pub dirs_from : ℕ → ℕ → ℕ → RomFs → Run RomFs
dirs_from k entry off r = elim (off == invalid_meta) as (λ _. Run RomFs) [
  | true ↦ ok r
  | false ↦ dir_loop k false entry off r
]

abbrev pub files_from : ℕ → ℕ → ℕ → RomFs → Run RomFs
files_from k entry off r = elim (off == invalid_meta) as (λ _. Run RomFs) [
  | true ↦ ok r
  | false ↦ file_loop k entry off r
]

pub differ : (a b : ℕ) → a ≢ b → (a == b) ≡ false
differ a b h = ground (arith, h)

above : (a b : ℕ) → b ≤ a → ltb a b ≡ false
above a b h = ground arith

below : (a b : ℕ) → a < b → ltb a b ≡ true
below a b h = ground arith

-- One round of each loop.
dir_loop_past :
    (k entry off : ℕ) (r : RomFs)
    → length r.dir_meta_tbl ≤ off
    → dir_loop (suc k) false entry off r ≡ ok r
unfolding dir_loop
dir_loop_past k entry off r h = rw (above off (length r.dir_meta_tbl) h, dir_loop) refl

dir_loop_more :
    (k entry off : ℕ) (m : DirMeta) (r : RomFs)
    → off < length r.dir_meta_tbl
    → dir_meta_at r.dir_meta_tbl off ≡ ok m
    → dir_loop (suc k) false entry off r
      ≡ dirs_from k entry m.sibling_off (add_dir entry off m.name r)
unfolding dir_loop
dir_loop_more k entry off m r h read = rw (below off (length r.dir_meta_tbl) h, read, dir_loop) refl

file_loop_past :
    (k entry off : ℕ) (r : RomFs)
    → length r.file_meta_tbl ≤ off
    → file_loop (suc k) entry off r ≡ ok r
unfolding file_loop
file_loop_past k entry off r h = rw (above off (length r.file_meta_tbl) h, file_loop) refl

file_loop_more :
    (k entry off : ℕ) (m : FileMeta) (r : RomFs)
    → off < length r.file_meta_tbl
    → file_meta_at r.file_meta_tbl off ≡ ok m
    → file_loop (suc k) entry off r ≡ files_from k entry m.sibling_off (add_file entry off m r)
unfolding file_loop
file_loop_more k entry off m r h read =
    rw (below off (length r.file_meta_tbl) h, read, file_loop) refl

dirs_from-eq :
    (k entry off : ℕ) (r : RomFs)
    → off ≢ invalid_meta
    → dirs_from k entry off r ≡ dir_loop k false entry off r
dirs_from-eq k entry off r h = rw (differ off invalid_meta h, dirs_from) refl

files_from-eq :
    (k entry off : ℕ) (r : RomFs)
    → off ≢ invalid_meta
    → files_from k entry off r ≡ file_loop k entry off r
files_from-eq k entry off r h = rw (differ off invalid_meta h, files_from) refl

pub dirs_from-Dirs :
    (tbl : List ℕ) (off : ℕ) (ms : List (ℕ × DirMeta))
    → Dirs tbl off ms
    → (k entry : ℕ) (r : RomFs) → r.dir_meta_tbl ≡ tbl
    → length ms < k
    → dirs_from k entry off r ≡ ok (add_dirs entry ms r)
unfolding dir_loop
dirs_from-Dirs tbl off ms last k entry r e h = refl
dirs_from-Dirs tbl off ms (past valid end) (suc k) entry r e h =
    dirs_from-eq (suc k) entry off r valid ∙ dir_loop_past k entry off r (rw e end)
dirs_from-Dirs tbl off ms (past valid end) zero entry r e h = absurd (omega arith)
dirs_from-Dirs tbl off ms (more valid inside read rest) zero entry r e h = absurd (omega arith)
dirs_from-Dirs tbl off ms (more {m} {ms = tail} valid inside read rest) (suc k) entry r e h =
    dirs_from-eq (suc k) entry off r valid
    ∙ dir_loop_more k entry off m r (rw e inside) (rw e read)
    ∙ dirs_from-Dirs tbl m.sibling_off tail rest k entry (add_dir entry off m.name r) e
        (omega arith)

pub files_from-Files :
    (tbl : List ℕ) (off : ℕ) (ms : List (ℕ × FileMeta))
    → Files tbl off ms
    → (k entry : ℕ) (r : RomFs) → r.file_meta_tbl ≡ tbl
    → length ms < k
    → files_from k entry off r ≡ ok (add_files entry ms r)
unfolding file_loop
files_from-Files tbl off ms last k entry r e h = refl
files_from-Files tbl off ms (past valid end) (suc k) entry r e h =
    files_from-eq (suc k) entry off r valid ∙ file_loop_past k entry off r (rw e end)
files_from-Files tbl off ms (past valid end) zero entry r e h = absurd (omega arith)
files_from-Files tbl off ms (more valid inside read rest) zero entry r e h = absurd (omega arith)
files_from-Files tbl off ms (more {m} {ms = tail} valid inside read rest) (suc k) entry r e h =
    files_from-eq (suc k) entry off r valid
    ∙ file_loop_more k entry off m r (rw e inside) (rw e read)
    ∙ files_from-Files tbl m.sibling_off tail rest k entry (add_file entry off m r) e (omega arith)

-- A directory whose record names itself as its sibling makes the loop go on for ever.
dir_loop_endless :
    (k entry off : ℕ) (m : DirMeta) (r : RomFs)
    → off < length r.dir_meta_tbl
    → off ≢ invalid_meta
    → dir_meta_at r.dir_meta_tbl off ≡ ok m
    → m.sibling_off ≡ off
    → dir_loop k false entry off r ≡ out_of_fuel
unfolding dir_loop
dir_loop_endless zero entry off m r inside valid read own = refl
dir_loop_endless (suc k) entry off m r inside valid read own =
    dir_loop_more k entry off m r inside read
    ∙ ap (λ (o : ℕ). dirs_from k entry o (add_dir entry off m.name r)) own
    ∙ dirs_from-eq k entry off (add_dir entry off m.name r) valid
    ∙ (dir_loop_endless k entry off m (add_dir entry off m.name r) inside valid read own)

-- The offsets that a chain of siblings comes to.
pub data Reaches (tbl : List ℕ) : ℕ → ℕ → Type 0 where
  start : {off : ℕ} → Reaches tbl off off
  sibling :
      {off to : ℕ} {m : DirMeta}
      → dir_meta_at tbl off ≡ ok m
      → m.sibling_off ≢ invalid_meta
      → Reaches tbl m.sibling_off to
      → Reaches tbl off to

-- Each record of the chain has its sibling behind it.
abbrev pub IsForward : List ℕ → ℕ → Type 0
IsForward tbl off =
    (to : ℕ) (m : DirMeta) → Reaches tbl off to → dir_meta_at tbl to ≡ ok m → to < m.sibling_off

Run-cases : (o : Run DirMeta) → (o ≡ fault) ⊎ ((o ≡ out_of_fuel) ⊎ ((m : DirMeta) × (o ≡ ok m)))
Run-cases fault = inl refl
Run-cases out_of_fuel = inr (inl refl)
Run-cases (ok m) = inr (inr (m, refl))

dir_meta_at-ends : (tbl : List ℕ) (off : ℕ) → dir_meta_at tbl off ≢ out_of_fuel
unfolding dir_meta_at
dir_meta_at-ends tbl off h = ground arith

-- Where each record that the chain of siblings comes to has its sibling behind it, the loop ends within as many
-- rounds as the table has bytes left, and one more: it returns, or it reads a record that leaves the table.
pub dir_loop_ends :
    (k entry off : ℕ) (r : RomFs)
    → IsForward r.dir_meta_tbl off
    → 0 < k
    → length r.dir_meta_tbl < off + k
    → (dir_loop k false entry off r ≡ fault)
      ⊎ ((r' : RomFs) × (dir_loop k false entry off r ≡ ok r'))
unfolding dir_loop
dir_loop_ends zero entry off r forward pos h = absurd (omega arith)
dir_loop_ends (suc k) entry off r forward pos h = elim (dec_lt off (length r.dir_meta_tbl)) [
  | no outside ↦ inr (r, dir_loop_past k entry off r (omega arith))
  | yes inside ↦ elim (Run-cases (dir_meta_at r.dir_meta_tbl off)) [
    | inl broken ↦ inl (rw (below off (length r.dir_meta_tbl) inside, broken, dir_loop) refl)
    | inr (inl never) ↦ absurd (dir_meta_at-ends r.dir_meta_tbl off never)
    | inr (inr (m, read)) ↦
        let r1 = add_dir entry off m.name r in
        let round = dir_loop_more k entry off m r inside read in
        elim (ℕ_discrete m.sibling_off invalid_meta) [
          | yes is_last ↦ inr (r1, round ∙ ap (λ (o : ℕ). dirs_from k entry o r1) is_last)
          | no valid ↦
              let round' = round ∙ dirs_from-eq k entry m.sibling_off r1 valid in
              elim (dir_loop_ends k entry m.sibling_off r1
                (λ to n reached. forward to n (sibling read valid reached))
                (omega (arith, inside, h)) (omega (arith, forward off m start read, h))) [
                  | inl f ↦ inl (round' ∙ f)
                  | inr (r', f) ↦ inr (r', round' ∙ f)
                ]
        ]
  ]
]

pub add_dirs-keeps :
    (entry : ℕ) (ms : List (ℕ × DirMeta)) (r : RomFs)
    → ((add_dirs entry ms r).file_meta_tbl ≡ r.file_meta_tbl)
      × ((add_dirs entry ms r).file_entries ≡ r.file_entries)
unfolding add_dir
add_dirs-keeps entry [] r = (refl, refl)
add_dirs-keeps entry ((off, m) ∷ ms) r = add_dirs-keeps entry ms (add_dir entry off m.name r)
