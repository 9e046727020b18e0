-- ===== src/Io/Returns.antt =====
-- Reads that return wherever they are: those of files in which nothing is decrypted, and those at the
-- beginning of a window on such a file.
use fuse_nx.Prelude.{
  ℕ, ◌+◌, ◌≡◌, refl, ap, arith, min, leb, inl, inr, Bool-cases, List, length, take, replicate,
  Option, none, some, le→leb,
}
use fuse_nx.Prelude.Words.{u64}
use fuse_nx.Crypto.{Backend, AesCtr}
use fuse_nx.Io.{
  FileBase, file, offset_file, ctr_file, Read, Stream, read_from, read_at, clone, clamped_size,
  aligned_pos, aligned_size, pos_diff, ctr_direct, ctr_bounce, new_offset_file, new_ctr_file,
  read_stream, ◌>>=◌,
}
use fuse_nx.Utils.{align_down}

abbrev pub IsUndecrypted : FileBase → Type 0
IsUndecrypted (file pos fsize) = Unit {0}
IsUndecrypted (offset_file pos fsize base offset) = IsUndecrypted base
IsUndecrypted (ctr_file pos fsize base offset cipher) = ⊥

pub clone-IsUndecrypted : (f : FileBase) → IsUndecrypted f → IsUndecrypted (clone f)
unfolding clone
clone-IsUndecrypted (file pos fsize) h = tt
clone-IsUndecrypted (offset_file pos fsize base offset) h = clone-IsUndecrypted base h
clone-IsUndecrypted (ctr_file pos fsize base offset cipher) h = h

pos_diff_start : (fsize : ℕ) → pos_diff 0 fsize ≡ 0
unfolding pos_diff aligned_pos align_down
pos_diff_start fsize =
    rw (ap (λ (p : ℕ). align_down 64 p 16) {x = min 0 fsize} {y = 0} (omega arith)) refl

-- A read that comes to a result, and what is done with it.
abbrev pub Returns {ℓ} : {A : Type ℓ} → Option A → Type ℓ
Returns {A = A} o = (r : A) × (o ≡ some r)

Returns->>= :
    (o : Option Read) (f : Read → Option Read)
    → Returns o
    → ((r : Read) → Returns (f r))
    → Returns (o >>= f)
Returns->>= none f (r, e) h = cc
Returns->>= (some r) f _ h = h r

module _ (b : Backend) where
  pub read_from-Returns :
      (f : FileBase) (p : ℕ) (dest : List ℕ) (s : Stream)
      → IsUndecrypted f
      → Returns (read_from b f p dest s)
  unfolding read_from
  read_from-Returns (file pos fsize) p dest s h = (read_stream fsize p dest s, refl)
  read_from-Returns (offset_file pos fsize base offset) p dest s h =
      Returns->>= _ _
        (read_from-Returns base (u64 (min p fsize + offset))
          (take (clamped_size p fsize (length dest)) dest) s h)
        (λ r. (_, refl))
  read_from-Returns (ctr_file pos fsize base offset cipher) p dest s h = absurd h

  ctr_bounce-Returns :
      (fsize offset : ℕ) (cipher : AesCtr) (dest : List ℕ) (r : Read)
      → Returns (ctr_bounce b 0 fsize offset cipher dest (pos_diff 0 fsize) r)
  unfolding ctr_bounce
  ctr_bounce-Returns fsize offset cipher dest r =
      rw (pos_diff_start fsize, le→leb 0 (length r.dest) (omega arith)) (_, refl)

  -- A decrypting window at its beginning.
  ctr_file-Returns :
      (pos fsize : ℕ) (base : FileBase) (offset : ℕ) (cipher : AesCtr) (dest : List ℕ) (s : Stream)
      → IsUndecrypted base
      → Returns (read_from b (ctr_file pos fsize base offset cipher) 0 dest s)
  unfolding read_from ctr_direct
  ctr_file-Returns pos fsize base offset cipher dest s h =
      let from = u64 (aligned_pos 0 fsize + offset) in
      let n = aligned_size 0 fsize (length dest) in
      elim (Bool-cases (leb n (length dest))) [
        | inl small ↦
            rw (small, read_from)
              (Returns->>= _ _ (read_from-Returns base from (take n dest) s h) (λ r. (_, refl)))
        | inr large ↦
            rw (large, read_from)
              (Returns->>= _ _ (read_from-Returns base from (replicate n 0) s h)
                (ctr_bounce-Returns fsize offset _ dest))
      ]

  pub ctr_file_head-Returns :
      (base : FileBase) (cipher : AesCtr) (fsize offset : ℕ) (dest : List ℕ) (s : Stream)
      → IsUndecrypted base
      → Returns (read_at b 0 (new_ctr_file base cipher fsize offset) dest s)
  unfolding read_at new_ctr_file
  ctr_file_head-Returns base cipher fsize offset dest s h =
      ctr_file-Returns 0 fsize base (u64 offset) cipher dest s h

  pub offset_file_head-Returns :
      (base : FileBase) (fsize offset : ℕ) (dest : List ℕ) (s : Stream)
      → IsUndecrypted base
      → Returns (read_at b 0 (new_offset_file base fsize offset) dest s)
  unfolding read_at new_offset_file
  offset_file_head-Returns base fsize offset dest s h =
      read_from-Returns (offset_file 0 fsize base (u64 offset)) 0 dest s h
