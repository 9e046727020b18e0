-- ===== src/Io/PastEnd.antt =====
-- Reads that go past the end of a window.
use native.Mathlib.Decide.{dec_le}
use fuse_nx.Prelude.{ℕ, ◌+◌, ◌-◌, ◌≡◌, refl, sym, ap, ◌∙◌, arith, List, [], length, min, some, take}
use fuse_nx.Prelude.Words.{u64}
use fuse_nx.Prelude.Slices.{slice, overwrite, length-slice, length-slice_of_le, drop_all, take-nil}
use fuse_nx.Crypto.{Backend}
use fuse_nx.Crypto.Ctr.{IsCtrMode}
use fuse_nx.Io.{FileBase, offset_file, Read, Stream, read_from, clamped_size}
use fuse_nx.Io.View.{view, IsReady, ReadsWithin, length-view-lt}
use fuse_nx.Io.Reads.{offset_file-ReadsFrom, read_from-ReadsWithin}

module _ {b : Backend} {pad : List ℕ → ℕ → ℕ → ℕ} (mode : IsCtrMode b pad) where
  -- An `OffsetFile` whose window lies within its base never shows a byte from outside: a read at
  -- any position returns the bytes from there to the window's end, as many as were asked for at
  -- most, leaves the rest of the buffer alone, and returns their number, which is 0 at the end and
  -- beyond.
  pub offset_file_clips :
      (pos fsize : ℕ) (base : FileBase) (offset p : ℕ) (dest : List ℕ) (s : Stream)
      → IsReady pad (offset_file pos fsize base offset) s.contents
      → (r : Read) × (read_from b (offset_file pos fsize base offset) p dest s ≡ some r)
        × (r.dest
            ≡ overwrite dest
                (slice p (length dest) (slice offset fsize (view pad base s.contents))))
        × (r.count ≡ min (length dest) (fsize - p))
        × (r.stream.contents ≡ s.contents)
  unfolding read_from
  offset_file_clips pos fsize base offset p dest s ready = elim (dec_le p fsize) [
    | yes inside ↦
        let r =
          offset_file-ReadsFrom b pad pos fsize base offset s.contents ready reads p dest s refl
            (omega (arith, size)) in
        (
          r.result,
          r.returns,
          r.stored,
          r.counted ∙ omega (arith, size, length-slice p (length dest) window),
          r.kept,
        )
    | no outside ↦
        let empty : take (clamped_size p fsize (length dest)) dest ≡ [] =
          ap (λ (n : ℕ). take n dest) {y = 0} (omega arith) in
        let r =
          reads (u64 (min p fsize + offset)) [] s refl
            (omega (arith, ready, length-view-lt pad base s.contents ready.0)) in
        let beyond : slice p (length dest) window ≡ [] =
          ap (take (length dest)) (drop_all p window (omega (arith, size)))
          ∙ take-nil (length dest) in
        (
          record {
            dest = overwrite dest r.result.dest;
            count = r.result.count;
            after = offset_file (u64 (p + length dest)) fsize r.result.after offset;
            stream = r.result.stream;
          },
          rw (empty, r.returns) refl,
          ap (overwrite dest) (r.stored ∙ sym beyond),
          r.counted ∙ omega arith,
          r.kept,
        )
  ]
    where
      vb : List ℕ
      vb = view pad base s.contents

      window : List ℕ
      window = slice offset fsize vb

      size : length window ≡ fsize
      size = length-slice_of_le offset fsize vb ready.1

      reads : ReadsWithin pad b base s.contents
      reads = read_from-ReadsWithin mode base s.contents ready.0
