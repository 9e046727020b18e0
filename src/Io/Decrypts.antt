-- ===== src/Io/Decrypts.antt =====
-- `CtrFile::read` within the file: both branches give the decrypted bytes of the window.
use fuse_nx.Prelude.{
  ℕ, ◌+◌, ◌-◌, ◌*◌, ◌/◌, ◌%◌, ◌^◌, ◌≤◌, ◌<◌, ◌≡◌, refl, sym, ap, ap₂, ◌∙◌, arith, List, length, min,
  take, replicate, length-take, length-replicate, leb, Bool-cases, inl, inr, true, false, leb→le,
  le→leb,
}
use fuse_nx.Prelude.Words.{u64}
use fuse_nx.Prelude.Slices.{
  slice, overwrite, length-slice, length-slice_of_le, slice-slice, overwrite_all, slice-append_left,
  length-overwrite,
}
use fuse_nx.Crypto.{Backend, AesCtr, set_ctr, decrypt_ctr}
use fuse_nx.Crypto.Ctr.{
  xor_from, length-xor_from, slice-xor_from, key_stream, IsCtrMode, decrypt_ctr-set_ctr,
  decrypt_ctr-keeps,
}
use fuse_nx.Io.{
  FileBase, ctr_file, Stream, read_from, aligned_pos, pos_diff, aligned_size, ctr_direct,
  ctr_bounce,
}
use fuse_nx.Io.View.{view, IsReady, Reads, ReadsFrom, length-view-lt}
use fuse_nx.Io.Aligned.{aligned_pos-eq, pos_diff-eq, aligned_size-eq}

module _ {b : Backend} {pad : List ℕ → ℕ → ℕ → ℕ} (mode : IsCtrMode b pad) (pos fsize : ℕ)
    (base : FileBase) (offset : ℕ) (cipher : AesCtr) (xs : List ℕ)
    (ready : IsReady pad (ctr_file pos fsize base offset cipher) xs)
    (reads : ReadsFrom pad b base xs) (p : ℕ) (dest : List ℕ) (s : Stream) (e : s.contents ≡ xs)
    (h : p + length dest ≤ length (view pad (ctr_file pos fsize base offset cipher) xs)) where
  abbrev f : FileBase
  f = ctr_file pos fsize base offset cipher

  abbrev vb : List ℕ
  vb = view pad base xs

  abbrev ks : ℕ → ℕ
  ks = key_stream pad cipher.key cipher.nonce

  abbrev from : ℕ
  from = u64 (aligned_pos p fsize + offset)

  abbrev asize : ℕ
  asize = aligned_size p fsize (length dest)

  abbrev cipher' : AesCtr
  cipher' = set_ctr cipher (from / 16)

  within : (p + length dest ≤ fsize) × (offset + fsize ≤ length vb) × (length vb < 2 ^ 63)
  within = omega (
    arith,
    length-slice_of_le offset fsize (xor_from ks 0 vb),
    length-xor_from ks 0 vb,
    length-view-lt pad base xs ready.0,
    ready.1,
  )

  bound : fsize < 2 ^ 63
  bound = omega (arith, within)

  from-eq : from ≡ p / 16 * 16 + offset
  from-eq = omega (arith, within, aligned_pos-eq p fsize (length dest) within.0 bound)

  asize-eq : asize ≡ (length dest + p % 16 + 15) / 16 * 16
  asize-eq = aligned_size-eq p fsize (length dest) within.0 bound

  diff-eq : pos_diff p fsize ≡ p % 16
  diff-eq = pos_diff-eq p fsize (length dest) within.0 bound

  -- The bytes that the read has to store.
  got-eq :
      slice p (length dest) (view pad f xs)
      ≡ xor_from ks (offset + p) (slice (offset + p) (length dest) vb)
  got-eq =
      slice-slice p (length dest) offset fsize (xor_from ks 0 vb)
      ∙ (ap (λ (n : ℕ). slice (offset + p) n (xor_from ks 0 vb)) (omega (arith, within))
          ∙ (slice-xor_from ks 0 (offset + p) (length dest) vb
              ∙ ap (λ (q : ℕ). xor_from ks q (slice (offset + p) (length dest) vb)) (omega arith)))

  decrypts :
      (bytes : List ℕ)
      → length bytes ≤ length dest + 31
      → (decrypt_ctr b cipher' bytes).0 ≡ xor_from ks from bytes
  decrypts bytes size =
      decrypt_ctr-set_ctr mode cipher from bytes ready.3 (omega (arith, from-eq, ready.2))
        (omega (arith, from-eq, asize-eq, within))

  inner :
      (buf : List ℕ)
      → Reads pad base xs buf (slice from (length buf) vb) (read_from b base from buf s)
  inner buf = reads from buf s e (omega (arith, from-eq, within))

  after-IsReady :
      (buf bytes : List ℕ) (q : ℕ)
      → let g = ctr_file q fsize (inner buf).result.after offset (decrypt_ctr b cipher' bytes).1 in
        IsReady pad g xs × (view pad g xs ≡ view pad f xs)
  after-IsReady buf bytes q =
      let k = decrypt_ctr-keeps b cipher (from / 16) bytes in
      let r = inner buf in
      rw (k.0, k.1, k.2, r.same_view) ((r.ready, ready.1, ready.2, ready.3, r.plain ready.4), refl)

  direct-Reads :
      leb asize (length dest) ≡ true
      → Reads pad f xs dest (slice p (length dest) (view pad f xs)) (read_from b f p dest s)
  unfolding read_from
  direct-Reads t = record {
    result = record {
      dest = (decrypt_ctr b cipher' whole).0;
      count = length dest;
      after =
          ctr_file (u64 (p + length dest)) fsize r.result.after offset
            (decrypt_ctr b cipher' whole).1;
      stream = r.result.stream;
    };
    returns = rw (t, read_from, r.returns, ctr_direct) refl;
    stored =
        decrypts whole (omega (arith, whole-length))
        ∙ (ap₂ (λ (q : ℕ) (ys : List ℕ). xor_from ks q ys) (omega (arith, at)) whole-eq
            ∙ (sym got-eq
                ∙ sym
                    (overwrite_all dest _ (length-slice_of_le p (length dest) (view pad f xs) h))));
    counted = sym (length-slice_of_le p (length dest) (view pad f xs) h);
    kept = r.kept;
    ready = (after-IsReady buf whole (u64 (p + length dest))).0;
    same_view = (after-IsReady buf whole (u64 (p + length dest))).1;
    plain = λ x. x;
  }
    where
      buf : List ℕ
      buf = take asize dest

      at : (asize ≡ length dest) × (p % 16 ≡ 0) × (from ≡ offset + p)
      at = omega (arith, leb→le asize (length dest) t, asize-eq, from-eq)

      buf-length : length buf ≡ length dest
      buf-length = omega (arith, length-take asize dest, at)

      r : Reads pad base xs buf (slice from (length buf) vb) (read_from b base from buf s)
      r = inner buf

      whole : List ℕ
      whole = overwrite dest r.result.dest

      whole-eq : whole ≡ slice (offset + p) (length dest) vb
      whole-eq =
          ap (overwrite dest) (
            r.stored
            ∙ overwrite_all buf _
                (length-slice_of_le from (length buf) vb (omega (arith, at, buf-length, within))))
          ∙ (ap₂ (λ (o m : ℕ). overwrite dest (slice o m vb)) (omega (arith, at)) buf-length
              ∙ overwrite_all dest _
                  (length-slice_of_le (offset + p) (length dest) vb (omega (arith, within))))

      whole-length : length whole ≡ length dest
      whole-length =
          ap length whole-eq
          ∙ length-slice_of_le (offset + p) (length dest) vb (omega (arith, within))

  bounce-Reads :
      leb asize (length dest) ≡ false
      → Reads pad f xs dest (slice p (length dest) (view pad f xs)) (read_from b f p dest s)
  unfolding read_from
  bounce-Reads t = record {
    result = record {
      dest = overwrite dest copied;
      count = length dest;
      after =
          ctr_file (u64 (p + length dest)) fsize r.result.after offset
            (decrypt_ctr b cipher' r.result.dest).1;
      stream = r.result.stream;
    };
    returns =
        rw
          (
            t,
            read_from,
            r.returns,
            ctr_bounce,
            le→leb (pos_diff p fsize) (length r.result.dest)
                (omega (arith, r-length, diff-eq, asize-eq)),
          )
          refl;
    stored = ap (overwrite dest) copied-eq;
    counted = sym (length-slice_of_le p (length dest) (view pad f xs) h);
    kept = r.kept;
    ready = (after-IsReady buf r.result.dest (u64 (p + length dest))).0;
    same_view = (after-IsReady buf r.result.dest (u64 (p + length dest))).1;
    plain = λ x. x;
  }
    where
      buf : List ℕ
      buf = replicate asize 0

      r : Reads pad base xs buf (slice from (length buf) vb) (read_from b base from buf s)
      r = inner buf

      got : List ℕ
      got = slice from (length buf) vb

      got-length : length got ≡ min asize (length vb - from)
      got-length =
          omega (arith, length-slice from (length buf) vb, length-replicate {0} {A = ℕ} asize 0)

      r-length : length r.result.dest ≡ asize
      r-length =
          ap length r.stored
          ∙ omega
              (arith, length-overwrite buf got, got-length, length-replicate {0} {A = ℕ} asize 0)

      copied : List ℕ
      copied =
          slice (pos_diff p fsize) (min (length dest) (length r.result.dest - pos_diff p fsize))
            (decrypt_ctr b cipher' r.result.dest).0

      window : slice (p % 16) (length dest) r.result.dest ≡ slice (offset + p) (length dest) vb
      window =
          ap (slice (p % 16) (length dest)) r.stored
          ∙ (slice-append_left (p % 16) (length dest) got _
                (omega (arith, got-length, asize-eq, from-eq, within))
              ∙ (slice-slice (p % 16) (length dest) from (length buf) vb
                  ∙ ap₂ (λ (o m : ℕ). slice o m vb) (omega (arith, from-eq))
                      (omega (arith, length-replicate {0} {A = ℕ} asize 0, asize-eq))))

      copied-eq : copied ≡ slice p (length dest) (view pad f xs)
      copied-eq =
          ap₂ (λ (d : ℕ) (ys : List ℕ). slice d (min (length dest) (length r.result.dest - d)) ys)
            diff-eq (decrypts r.result.dest (omega (arith, r-length, asize-eq)))
          ∙ (ap (λ (m : ℕ). slice (p % 16) m (xor_from ks from r.result.dest)) {y = length dest}
                (omega (arith, r-length, asize-eq))
              ∙ (slice-xor_from ks from (p % 16) (length dest) r.result.dest
                  ∙ (ap₂ (λ (q : ℕ) (ys : List ℕ). xor_from ks q ys) (omega (arith, from-eq)) window
                      ∙ sym got-eq)))

  pub ctr_file-Reads :
      Reads pad f xs dest (slice p (length dest) (view pad f xs)) (read_from b f p dest s)
  ctr_file-Reads = elim (Bool-cases (leb asize (length dest))) [
    | inl t ↦ direct-Reads t
    | inr t ↦ bounce-Reads t
  ]
