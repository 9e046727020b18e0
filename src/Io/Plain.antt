-- ===== src/Io/Plain.antt =====
-- Reads from within a file that may end behind it, of files that do not decrypt themselves.
use fuse_nx.Prelude.{
  ℕ, ◌+◌, min, ◌≤◌, ◌≡◌, refl, sym, ap, ◌∙◌, arith, List, length, Option, none, some, take,
}
use fuse_nx.Prelude.Words.{u64}
use fuse_nx.Prelude.Slices.{slice, overwrite}
use fuse_nx.Crypto.{Backend}
use fuse_nx.Crypto.Ctr.{IsCtrMode}
use fuse_nx.Io.{
  FileBase, file, offset_file, ctr_file, Read, Stream, read_from, read_at, set_pos, tell, size,
  read_stream, clamped_size, ◌>>=◌,
}
use fuse_nx.Io.View.{view, IsReady, IsPlain, Reads, ReadsFrom, length-view-lt}
use fuse_nx.Io.Reads.{
  file-ReadsFrom, offset_file-ReadsFrom, read_from-ReadsWithin, set_pos-view, set_pos-IsReady,
  tell-set_pos,
}

abbrev after_size : Option Read → ℕ
after_size none = 0
after_size (some r) = size r.after

module _ (b : Backend) where
  size-read_from :
      (f : FileBase) (p : ℕ) (dest : List ℕ) (s : Stream) (r : Read)
      → IsPlain f
      → read_from b f p dest s ≡ some r
      → size r.after ≡ size f
  unfolding read_from size read_stream
  size-read_from (file pos fsize) p dest s r plain e = sym (ap after_size e)
  size-read_from (offset_file pos fsize base offset) p dest s r plain e =
      go
        (read_from b base (u64 (min p fsize + offset))
          (take (clamped_size p fsize (length dest)) dest) s)
        e
    where
      go :
          (o : Option Read)
          → (o >>= λ (r : Read). some (record {
            dest = overwrite dest r.dest;
            count = r.count;
            after = offset_file (u64 (p + length dest)) fsize r.after offset;
            stream = r.stream;
          }))
            ≡ some r
          → size r.after ≡ fsize
      go none h = cc
      go (some q) h = sym (ap after_size h)
  size-read_from (ctr_file pos fsize base offset cipher) p dest s r plain e = absurd plain

size-set_pos : (p : ℕ) (f : FileBase) → size (set_pos p f) ≡ size f
unfolding size set_pos
size-set_pos p (file pos fsize) = refl
size-set_pos p (offset_file pos fsize base offset) = refl
size-set_pos p (ctr_file pos fsize base offset cipher) = refl

set_pos-IsPlain : (p : ℕ) (f : FileBase) → IsPlain f → IsPlain (set_pos p f)
unfolding set_pos
set_pos-IsPlain p (file pos fsize) h = tt
set_pos-IsPlain p (offset_file pos fsize base offset) h = tt
set_pos-IsPlain p (ctr_file pos fsize base offset cipher) h = h

module _ {b : Backend} {pad : List ℕ → ℕ → ℕ → ℕ} (mode : IsCtrMode b pad) where
  plain-ReadsFrom :
      (f : FileBase) (xs : List ℕ) → IsPlain f → IsReady pad f xs → ReadsFrom pad b f xs
  plain-ReadsFrom (file pos fsize) xs plain ready = file-ReadsFrom b pad pos fsize xs ready
  plain-ReadsFrom (offset_file pos fsize base offset) xs plain ready =
      offset_file-ReadsFrom b pad pos fsize base offset xs ready
        (read_from-ReadsWithin mode base xs ready.0)
  plain-ReadsFrom (ctr_file pos fsize base offset cipher) xs plain ready = absurd plain

  -- What `read_at` answers, with the file after it.
  pub record ReadsAt (f : FileBase) (p : ℕ) (dest xs : List ℕ) (o : Option Read) : Type 0 where
    pub result : Read
    pub returns : o ≡ some result
    pub stored : result.dest ≡ overwrite dest (slice p (length dest) (view pad f xs))
    pub counted : result.count ≡ length (slice p (length dest) (view pad f xs))
    pub kept : result.stream.contents ≡ xs
    pub ready : IsReady pad result.after xs
    pub same_view : view pad result.after xs ≡ view pad f xs
    pub plain : IsPlain result.after
    pub same_size : size result.after ≡ size f

  pub read_at-ReadsAt :
      (f : FileBase) (p : ℕ) (dest : List ℕ) (s : Stream)
      → IsPlain f
      → IsReady pad f s.contents
      → p ≤ length (view pad f s.contents)
      → ReadsAt f p dest s.contents (read_at b p f dest s)
  unfolding read_at
  read_at-ReadsAt f p dest s plain ready h = record {
    result = r.result;
    returns = r.returns;
    stored = r.stored ∙ ap (λ v. overwrite dest (slice p (length dest) v)) same;
    counted = r.counted ∙ ap (λ v. length (slice p (length dest) v)) same;
    kept = r.kept;
    ready = r.ready;
    same_view = r.same_view ∙ same;
    plain = r.plain (set_pos-IsPlain (u64 p) f plain);
    same_size =
        size-read_from b g (tell g) dest s r.result (set_pos-IsPlain (u64 p) f plain) r.returns
        ∙ size-set_pos (u64 p) f;
  }
    where
      g : FileBase
      g = set_pos (u64 p) f

      same : view pad g s.contents ≡ view pad f s.contents
      same = set_pos-view mode (u64 p) f s.contents

      at : tell g ≡ p
      at = tell-set_pos mode (u64 p) f ∙ omega (arith, length-view-lt pad f s.contents ready)

      r :
          Reads pad g s.contents dest
            (slice p (length dest) (view pad g s.contents))
            (read_from b g (tell g) dest s)
      r = rw at (
          plain-ReadsFrom g s.contents (set_pos-IsPlain (u64 p) f plain)
            (set_pos-IsReady mode (u64 p) f s.contents ready) p dest s refl (rw same h))
