-- ===== src/Io.antt =====
-- include/fnx/io.hpp and lib/io.cpp: files over a stream, windows of files, and decrypting windows.
-- A position is the bit pattern of the `std::int64_t`. A call is atomic: the source holds the
-- stream's lock, or the cipher's mutex, for its length. A read is given the buffer that it fills,
-- and its `size` is the buffer's length.
pub mod View
pub mod Aligned
pub mod Decrypts
pub mod Reads
pub mod Returns
pub mod Handles
pub mod PastEnd
pub mod Clone
pub mod Plain
mod Tests
use fuse_nx.Prelude.{
  ℕ, ◌+◌, ◌-◌, ◌/◌, ◌^◌, min, Bool, true, false, ltb, leb, if◌then◌else◌, List, ◌++◌, length, take,
  drop, replicate, Option, none, some,
}
use fuse_nx.Prelude.Slices.{slice, overwrite}
use fuse_nx.Prelude.Words.{u64, sub64}
use fuse_nx.Utils.{align_down, align_up}
use fuse_nx.Crypto.{Backend, AesCtr, set_ctr, decrypt_ctr}

-- The `FILE` that a `File` and its clones share: what is in it, and its position.
pub record Stream : Type 0 where
  pub contents : List ℕ
  pub at : ℕ

-- `fseek(fp, pos, SEEK_SET)`, which refuses a negative position.
unfoldable pub fseek : ℕ → Stream → Stream
fseek pos s = if ltb pos (2 ^ 63) then record s { at = pos } else s

-- `fread(dest, 1, size, fp)`: the bytes that it stores.
abbrev pub fread : ℕ → Stream → List ℕ
fread size s = slice s.at size s.contents

-- `fwrite(src, 1, size, fp)`; a gap behind the end is filled with zeros.
abbrev pub fwrite : List ℕ → Stream → Stream
fwrite src s = record {
  contents =
      take s.at s.contents
      ++ (replicate (s.at - length s.contents) 0 ++ overwrite (drop s.at s.contents) src);
  at = s.at + length src;
}

-- `File::update_size` of a `File` at position `pos`: the size that it stores, and the stream, back where it was.
unfoldable pub update_size : ℕ → Stream → ℕ × Stream
unfolding fseek
update_size pos s = (length s.contents, fseek pos (record s { at = length s.contents }))

pub data Whence : Type 0 where
  set cur end : Whence

-- `FileBase` and its three subclasses. A `File` has its stream outside.
pub data FileBase : Type 0 where
  file : ℕ → ℕ → FileBase
  offset_file : ℕ → ℕ → FileBase → ℕ → FileBase
  ctr_file : ℕ → ℕ → FileBase → ℕ → AesCtr → FileBase

-- `tell`, the field `pos`.
unfoldable pub tell : FileBase → ℕ
tell (file pos fsize) = pos
tell (offset_file pos fsize base offset) = pos
tell (ctr_file pos fsize base offset cipher) = pos

unfoldable pub size : FileBase → ℕ
size (file pos fsize) = fsize
size (offset_file pos fsize base offset) = fsize
size (ctr_file pos fsize base offset cipher) = fsize

unfoldable pub set_pos : ℕ → FileBase → FileBase
set_pos p (file pos fsize) = file p fsize
set_pos p (offset_file pos fsize base offset) = offset_file p fsize base offset
set_pos p (ctr_file pos fsize base offset cipher) = ctr_file p fsize base offset cipher

-- `seek(pos, whence)`.
unfoldable pub seek : ℕ → Whence → FileBase → FileBase
unfolding set_pos tell size
seek pos set f = set_pos (u64 pos) f
seek pos cur f = set_pos (u64 (tell f + pos)) f
seek pos end f = set_pos (u64 (size f + pos)) f

-- `clone`: a copy of a window starts at its beginning.
unfoldable pub clone : FileBase → FileBase
clone (file pos fsize) = file pos fsize
clone (offset_file pos fsize base offset) = offset_file 0 fsize (clone base) offset
clone (ctr_file pos fsize base offset cipher) = ctr_file 0 fsize (clone base) offset cipher

unfoldable pub parent_offset : FileBase → ℕ
parent_offset (file pos fsize) = 0
parent_offset (offset_file pos fsize base offset) = u64 (parent_offset base + offset)
parent_offset (ctr_file pos fsize base offset cipher) = u64 (parent_offset base + offset)

-- The constructors of the two windows.
unfoldable pub new_offset_file : FileBase → ℕ → ℕ → FileBase
new_offset_file base fsize offset = offset_file 0 fsize base (u64 offset)

unfoldable pub new_ctr_file : FileBase → AesCtr → ℕ → ℕ → FileBase
new_ctr_file base cipher fsize offset = ctr_file 0 fsize base (u64 offset) cipher

-- What a call of `read` leaves: the buffer, the returned count, the file and the stream.
pub record Read : Type 0 where
  pub dest : List ℕ
  pub count : ℕ
  pub after : FileBase
  pub stream : Stream

-- `File::read` at position `p`.
unfoldable pub read_stream : ℕ → ℕ → List ℕ → Stream → Read
unfolding fseek
read_stream fsize p dest s =
    let s' = fseek p s in
    let got = fread (length dest) s' in
    record {
      dest = overwrite dest got;
      count = length got;
      after = file (u64 (p + length got)) fsize;
      stream = record s' { at = s'.at + length got };
    }

-- `OffsetFile::read`: the clamped position and size.
abbrev pub clamped_size : ℕ → ℕ → ℕ → ℕ
clamped_size p fsize n = min n (fsize - min p fsize)

-- `CtrFile::read`: the position and the size in whole blocks, and the way from the one to `pos`.
unfoldable pub aligned_pos : ℕ → ℕ → ℕ
aligned_pos p fsize = align_down 64 (min p fsize) 16

unfoldable pub pos_diff : ℕ → ℕ → ℕ
unfolding aligned_pos
pos_diff p fsize = sub64 p (aligned_pos p fsize)

unfoldable pub aligned_size : ℕ → ℕ → ℕ → ℕ
unfolding aligned_pos pos_diff
aligned_size p fsize n =
    align_up 64 (min (u64 (n + pos_diff p fsize)) (fsize - aligned_pos p fsize)) 16

-- The branch that reads and decrypts in place. The whole of `dest` is decrypted.
unfoldable pub ctr_direct : Backend → ℕ → ℕ → ℕ → AesCtr → List ℕ → ℕ → Read → Option Read
ctr_direct b p fsize offset cipher dest asize r =
    let (out, cipher') = decrypt_ctr b cipher (overwrite dest r.dest) in
    some (record {
      dest = out;
      count = length dest;
      after = ctr_file (u64 (p + length dest)) fsize r.after offset cipher';
      stream = r.stream;
    })

-- The branch with a buffer of its own; `none` is a copy from beyond that buffer's end.
unfoldable pub ctr_bounce : Backend → ℕ → ℕ → ℕ → AesCtr → List ℕ → ℕ → Read → Option Read
ctr_bounce b p fsize offset cipher dest diff r =
    let (out, cipher') = decrypt_ctr b cipher r.dest in
    if leb diff (length r.dest)
    then some (record {
      dest = overwrite dest (slice diff (min (length dest) (length r.dest - diff)) out);
      count = length dest;
      after = ctr_file (u64 (p + length dest)) fsize r.after offset cipher';
      stream = r.stream;
    })
    else none

infixl 5 ◌>>=◌
abbrev pub ◌>>=◌ : Option Read → (Read → Option Read) → Option Read
none >>= f = none
some r >>= f = f r

module _ (b : Backend) where
  -- `read` of a file whose position is `p`.
  unfoldable pub read_from : FileBase → ℕ → List ℕ → Stream → Option Read
  unfolding read_stream aligned_pos pos_diff aligned_size ctr_direct ctr_bounce
  read_from (file pos fsize) p dest s = some (read_stream fsize p dest s)
  read_from (offset_file pos fsize base offset) p dest s = do
    let n = clamped_size p fsize (length dest)
    r ← read_from base (u64 (min p fsize + offset)) (take n dest) s
    some (record {
      dest = overwrite dest r.dest;
      count = r.count;
      after = offset_file (u64 (p + length dest)) fsize r.after offset;
      stream = r.stream;
    })
  read_from (ctr_file pos fsize base offset cipher) p dest s =
      let from = u64 (aligned_pos p fsize + offset) in
      let n = aligned_size p fsize (length dest) in
      let c = set_ctr cipher (from / 16) in
      elim (leb n (length dest)) [
        | true ↦ read_from base from (take n dest) s >>= ctr_direct b p fsize offset c dest n
        | false ↦
            read_from base from (replicate n 0) s
            >>= ctr_bounce b p fsize offset c dest (pos_diff p fsize)
      ]

  -- `read(void *, std::uint64_t)`.
  unfoldable pub read : FileBase → List ℕ → Stream → Option Read
  unfolding read_from tell
  read f dest s = read_from f (tell f) dest s

  -- `read_at(offset, …)`.
  unfoldable pub read_at : ℕ → FileBase → List ℕ → Stream → Option Read
  unfolding read seek
  read_at offset f dest s = read (seek offset set f) dest s

  -- `read_at(offset, size)`, which returns a vector.
  unfoldable pub read_vector : ℕ → FileBase → ℕ → Stream → Option Read
  unfolding read_at
  read_vector offset f n s = read_at offset f (replicate n 0) s

-- `write`: only a `File` writes, and where its stream stands.
unfoldable pub write : FileBase → List ℕ → Stream → ℕ × FileBase × Stream
write (file pos fsize) src s = (length src, file (u64 (pos + length src)) fsize, fwrite src s)
write (offset_file pos fsize base offset) src s = (0, offset_file pos fsize base offset, s)
write (ctr_file pos fsize base offset cipher) src s = (0, ctr_file pos fsize base offset cipher, s)

unfoldable pub write_at : ℕ → FileBase → List ℕ → Stream → ℕ × FileBase × Stream
unfolding write seek
write_at offset f src s = write (seek offset set f) src s
