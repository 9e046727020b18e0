-- ===== src/Io/View.antt =====
-- What a file stands for: the bytes of its window, decrypted, as a function of the stream's.
use fuse_nx.Prelude.{ℕ, ◌+◌, ◌%◌, ◌^◌, ◌≤◌, ◌<◌, ◌≡◌, arith, List, length, Option, some}
use fuse_nx.Prelude.Slices.{slice, length-slice_of_le, overwrite}
use fuse_nx.Crypto.{Backend, key_of}
use fuse_nx.Crypto.Ctr.{xor_from, length-xor_from, key_stream}
use fuse_nx.Io.{FileBase, file, offset_file, ctr_file, Read, Stream, read_from}

module _ (pad : List ℕ → ℕ → ℕ → ℕ) where
  abbrev pub view : FileBase → List ℕ → List ℕ
  view (file pos fsize) xs = xs
  view (offset_file pos fsize base offset) xs = slice offset fsize (view base xs)
  view (ctr_file pos fsize base offset cipher) xs =
      slice offset fsize (xor_from (key_stream pad cipher.key cipher.nonce) 0 (view base xs))

-- A file whose reads may go past its end: not a decrypting one.
abbrev pub IsPlain : FileBase → Type 0
IsPlain (file pos fsize) = Unit {0}
IsPlain (offset_file pos fsize base offset) = Unit {0}
IsPlain (ctr_file pos fsize base offset cipher) = ⊥

module _ (pad : List ℕ → ℕ → ℕ → ℕ) where
  -- Each window lies within its base; a decrypting one starts at a block and has its key set.
  abbrev pub IsReady : FileBase → List ℕ → Type 0
  IsReady (file pos fsize) xs = length xs < 2 ^ 63
  IsReady (offset_file pos fsize base offset) xs =
      IsReady base xs × (offset + fsize ≤ length (view pad base xs))
  IsReady (ctr_file pos fsize base offset cipher) xs =
      IsReady base xs
      × (offset + fsize ≤ length (view pad base xs))
      × (offset % 16 ≡ 0)
      × (key_of cipher.handle ≡ cipher.key)
      × IsPlain base

  pub length-view-lt : (f : FileBase) (xs : List ℕ) → IsReady f xs → length (view pad f xs) < 2 ^ 63
  length-view-lt (file pos fsize) xs h = h
  length-view-lt (offset_file pos fsize base offset) xs h =
      omega
        (arith, length-view-lt base xs h.0, length-slice_of_le offset fsize (view pad base xs) h.1)
  length-view-lt (ctr_file pos fsize base offset cipher) xs h = omega (
    arith,
    length-view-lt base xs h.0,
    length-xor_from (key_stream pad cipher.key cipher.nonce) 0 (view pad base xs),
    length-slice_of_le offset fsize
        (xor_from (key_stream pad cipher.key cipher.nonce) 0 (view pad base xs)),
  )

  -- A read that stored `got` and returned its length, and left the file and the stream as they were but for their
  -- positions.
  pub record Reads (f : FileBase) (xs : List ℕ) (dest got : List ℕ) (o : Option Read) : Type 0 where
    pub result : Read
    pub returns : o ≡ some result
    pub stored : result.dest ≡ overwrite dest got
    pub counted : result.count ≡ length got
    pub kept : result.stream.contents ≡ xs
    pub ready : IsReady result.after xs
    pub same_view : view pad result.after xs ≡ view pad f xs
    pub plain : IsPlain f → IsPlain result.after

  module _ (b : Backend) where
    -- Reads within the file, and reads from within the file.
    abbrev pub ReadsWithin : FileBase → List ℕ → Type 0
    ReadsWithin f xs =
        (p : ℕ) (dest : List ℕ) (s : Stream)
        → s.contents ≡ xs
        → p + length dest ≤ length (view pad f xs)
        → Reads f xs dest (slice p (length dest) (view pad f xs)) (read_from b f p dest s)

    abbrev pub ReadsFrom : FileBase → List ℕ → Type 0
    ReadsFrom f xs =
        (p : ℕ) (dest : List ℕ) (s : Stream)
        → s.contents ≡ xs
        → p ≤ length (view pad f xs)
        → Reads f xs dest (slice p (length dest) (view pad f xs)) (read_from b f p dest s)
