-- ===== src/Io/Reads.antt =====
-- Every read within a file gives its view's bytes.
use fuse_nx.Prelude.{
  ℕ, ◌+◌, ◌^◌, ◌≤◌, ◌<◌, ◌≡◌, refl, sym, ap, ap₂, ◌∙◌, arith, List, length, some, min, lt→ltb, take,
  length-take,
}
use fuse_nx.Prelude.Words.{u64}
use fuse_nx.Prelude.Slices.{
  slice, overwrite, length-slice, length-slice_of_le, slice-slice, overwrite_all,
}
use fuse_nx.Crypto.{Backend}
use fuse_nx.Crypto.Ctr.{IsCtrMode}
use fuse_nx.Io.{
  FileBase, file, offset_file, ctr_file, Read, Stream, read_from, read_at, set_pos, tell,
  read_stream, fseek, clamped_size,
}
use fuse_nx.Io.Decrypts.{ctr_file-Reads}
use fuse_nx.Io.View.{view, IsReady, Reads, ReadsWithin, ReadsFrom, length-view-lt}

module _ (b : Backend) (pad : List ℕ → ℕ → ℕ → ℕ) where
  pub file-ReadsFrom :
      (pos fsize : ℕ) (xs : List ℕ) → length xs < 2 ^ 63 → ReadsFrom pad b (file pos fsize) xs
  unfolding read_from
  file-ReadsFrom pos fsize xs bound p dest s e h = record {
    result = read_stream fsize p dest s;
    returns = refl;
    stored = rw (lt→ltb p (2 ^ 63) (omega arith), read_stream, fseek, e) refl;
    counted = rw (lt→ltb p (2 ^ 63) (omega arith), read_stream, fseek, e) refl;
    kept = rw (lt→ltb p (2 ^ 63) (omega arith), read_stream, fseek) e;
    ready = bound;
    same_view = refl;
    plain = λ h. h;
  }

  pub offset_file-ReadsFrom :
      (pos fsize : ℕ) (base : FileBase) (offset : ℕ) (xs : List ℕ)
      → IsReady pad (offset_file pos fsize base offset) xs
      → ReadsWithin pad b base xs
      → ReadsFrom pad b (offset_file pos fsize base offset) xs
  unfolding read_from
  offset_file-ReadsFrom pos fsize base offset xs ready reads p dest s e h = record {
    result = record {
      dest = overwrite dest inner.result.dest;
      count = inner.result.count;
      after = offset_file (u64 (p + length dest)) fsize inner.result.after offset;
      stream = inner.result.stream;
    };
    returns = rw inner.returns refl;
    stored = ap (overwrite dest) got;
    counted =
        inner.counted
        ∙ omega (
          arith,
          n-eq,
          p_fits,
          length-slice_of_le (p + offset) (length (take n dest)) vb (omega (arith, n-eq, p_fits)),
          length-slice p (length dest) (slice offset fsize vb),
          length-slice_of_le offset fsize vb ready.1,
        );
    kept = inner.kept;
    ready = (inner.ready, rw inner.same_view ready.1);
    same_view = ap (slice offset fsize) inner.same_view;
    plain = λ h. h;
  }
    where
      n : ℕ
      n = clamped_size p fsize (length dest)

      vb : List ℕ
      vb = view pad base xs

      p_fits : p ≤ fsize
      p_fits = omega (arith, length-slice_of_le offset fsize vb ready.1)

      from-eq : u64 (min p fsize + offset) ≡ p + offset
      from-eq = omega (arith, p_fits, length-view-lt pad base xs ready.0)

      n-eq : length (take n dest) ≡ n
      n-eq = omega (arith, length-take n dest)

      inner :
          Reads pad base xs
            (take n dest)
            (slice (p + offset) (length (take n dest)) vb)
            (read_from b base (u64 (min p fsize + offset)) (take n dest) s)
      inner = rw from-eq (reads (p + offset) (take n dest) s e (omega (arith, n-eq, p_fits)))

      got : inner.result.dest ≡ slice p (length dest) (slice offset fsize vb)
      got =
          inner.stored
          ∙ (overwrite_all (take n dest) _ (
                length-slice_of_le (p + offset) (length (take n dest)) vb
                  (omega (arith, n-eq, p_fits)))
              ∙ (ap₂ (λ (o m : ℕ). slice o m vb) (omega arith) (omega (arith, n-eq, p_fits))
                  ∙ sym (slice-slice p (length dest) offset fsize vb)))

module _ {b : Backend} {pad : List ℕ → ℕ → ℕ → ℕ} (mode : IsCtrMode b pad) where
  within_of_from : (f : FileBase) (xs : List ℕ) → ReadsFrom pad b f xs → ReadsWithin pad b f xs
  within_of_from f xs reads p dest s e h = reads p dest s e (omega arith)

  -- By recursion on the nesting.
  pub read_from-ReadsWithin :
      (f : FileBase) (xs : List ℕ) → IsReady pad f xs → ReadsWithin pad b f xs
  read_from-ReadsWithin (file pos fsize) xs ready =
      within_of_from (file pos fsize) xs (file-ReadsFrom b pad pos fsize xs ready)
  read_from-ReadsWithin (offset_file pos fsize base offset) xs ready =
      within_of_from (offset_file pos fsize base offset) xs (
        offset_file-ReadsFrom b pad pos fsize base offset xs ready
          (read_from-ReadsWithin base xs ready.0))
  read_from-ReadsWithin (ctr_file pos fsize (file q n) offset cipher) xs ready =
      ctr_file-Reads mode pos fsize (file q n) offset cipher xs ready
        (file-ReadsFrom b pad q n xs ready.0)
  read_from-ReadsWithin (ctr_file pos fsize (offset_file q n base o) offset cipher) xs ready =
      ctr_file-Reads mode pos fsize (offset_file q n base o) offset cipher xs ready (
        offset_file-ReadsFrom b pad q n base o xs ready.0 (read_from-ReadsWithin base xs ready.0.0))
  read_from-ReadsWithin (ctr_file pos fsize (ctr_file q n base o c) offset cipher) xs ready =
      absurd ready.4

  pub set_pos-view :
      (p : ℕ) (f : FileBase) (xs : List ℕ) → view pad (set_pos p f) xs ≡ view pad f xs
  unfolding set_pos
  set_pos-view p (file pos fsize) xs = refl
  set_pos-view p (offset_file pos fsize base offset) xs = refl
  set_pos-view p (ctr_file pos fsize base offset cipher) xs = refl

  pub set_pos-IsReady :
      (p : ℕ) (f : FileBase) (xs : List ℕ) → IsReady pad f xs → IsReady pad (set_pos p f) xs
  unfolding set_pos
  set_pos-IsReady p (file pos fsize) xs h = h
  set_pos-IsReady p (offset_file pos fsize base offset) xs h = h
  set_pos-IsReady p (ctr_file pos fsize base offset cipher) xs h = h

  pub tell-set_pos : (p : ℕ) (f : FileBase) → tell (set_pos p f) ≡ p
  unfolding tell set_pos
  tell-set_pos p (file pos fsize) = refl
  tell-set_pos p (offset_file pos fsize base offset) = refl
  tell-set_pos p (ctr_file pos fsize base offset cipher) = refl

  -- For every nesting of windows that lie within their bases, over fewer than 2^63 bytes on disk, a decrypting
  -- window with its key set and at a block boundary of a base that does not decrypt itself: `read_at`
  -- inside the file returns, fills its buffer with exactly the file's bytes from that position on, says that
  -- it did, and leaves the file's bytes and the stream's as they were.
  pub read_at-view :
      (f : FileBase) (p : ℕ) (dest : List ℕ) (s : Stream)
      → IsReady pad f s.contents
      → p + length dest ≤ length (view pad f s.contents)
      → (r : Read) × (read_at b p f dest s ≡ some r)
        × (r.dest ≡ slice p (length dest) (view pad f s.contents))
        × (r.count ≡ length dest)
        × (r.stream.contents ≡ s.contents)
        × IsReady pad r.after s.contents
        × (view pad r.after s.contents ≡ view pad f s.contents)
  unfolding read_at
  read_at-view f p dest s ready h = (
    r.result,
    r.returns,
    r.stored ∙ (overwrite_all dest _ (got-length ∙ refl) ∙ ap (slice p (length dest)) same),
    r.counted ∙ got-length,
    r.kept,
    r.ready,
    r.same_view ∙ same,
  )
    where
      g : FileBase
      g = set_pos (u64 p) f

      same : view pad g s.contents ≡ view pad f s.contents
      same = set_pos-view (u64 p) f s.contents

      got-length : length (slice p (length dest) (view pad g s.contents)) ≡ length dest
      got-length = length-slice_of_le p (length dest) (view pad g s.contents) (rw same h)

      at : tell g ≡ p
      at = tell-set_pos (u64 p) f ∙ omega (arith, length-view-lt pad f s.contents ready)

      r :
          Reads pad g s.contents dest
            (slice p (length dest) (view pad g s.contents))
            (read_from b g (tell g) dest s)
      r = rw at (
          read_from-ReadsWithin g s.contents (set_pos-IsReady (u64 p) f s.contents ready) p dest s
            refl (rw same h))
