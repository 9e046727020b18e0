-- ===== src/Io/Tests.antt =====
-- Three nested files, the inner one encrypted with the toy cipher, and the theorems at them.
use fuse_nx.Prelude.{
  ℕ, ◌≡◌, refl, arith, List, [], ◌∷◌, ◌++◌, replicate, Option, some, true, suc, ◌⊎◌,
}
use mathlib.Core.Option
use fuse_nx.Prelude.Bytes.{to_be, to_le}
use fuse_nx.Prelude.Slices.{slice, overwrite}
use fuse_nx.Utils.{align_down, align_up}
use fuse_nx.ToyCipher.{toy, toy_run, toy_pad, toy-IsCtrMode}
use fuse_nx.Io.View.{view, IsReady}
use fuse_nx.Io.Handles.{
  Handle, done, closed_twice, at_handle, release, open_file, destroy_all, open_file-closes_twice,
}
use fuse_nx.Io.Reads.{read_at-view}
use fuse_nx.Io.PastEnd.{offset_file_clips}
use fuse_nx.Crypto.{set_key, AesCtr, set_ctr, decrypt_ctr, bswap64}
use fuse_nx.Crypto.Ctr.{xor_from}
use fuse_nx.Io.{FileBase, file, offset_file, ctr_file, Read, Stream, read_at, read_from}

abbrev key : List ℕ
key = replicate 16 3

abbrev cipher : AesCtr
cipher = record { base = record { handle = set_key key ∷ []; key = key }; nonce = 5 }

abbrev disk : Stream
disk = record { contents = replicate 40 1 ++ replicate 56 2; at = 0 }

abbrev window : FileBase
window = offset_file 0 80 (file 0 0) 8

abbrev section : FileBase
section = ctr_file 0 50 window 16 cipher

section-IsReady : IsReady toy_pad section disk.contents
section-IsReady = ((omega arith, omega arith), omega arith, refl, refl, tt)

-- Five decrypted bytes from an unaligned position.
section_bytes :
    Option.map (λ r. r.dest) (read_at toy 5 section (replicate 5 0) disk)
    ≡ some (8 ∷ 11 ∷ 10 ∷ 13 ∷ 12 ∷ [])
unfolding toy_run read_at xor_from set_ctr decrypt_ctr bswap64 to_be to_le align_down align_up
section_bytes = refl

read_at-view_example :
    (r : Read) × (read_at toy 5 section (replicate 5 0) disk ≡ some r)
    × (r.dest ≡ slice 5 5 (view toy_pad section disk.contents))
    × (r.count ≡ 5)
    × (r.stream.contents ≡ disk.contents)
    × IsReady toy_pad r.after disk.contents
    × (view toy_pad r.after disk.contents ≡ view toy_pad section disk.contents)
unfolding xor_from
read_at-view_example =
    read_at-view toy-IsCtrMode section 5 (replicate 5 0) disk section-IsReady (omega arith)

offset_file_clips_example :
    (r : Read) × (read_from toy window 78 (replicate 5 0) disk ≡ some r)
    × (r.dest ≡ overwrite (replicate 5 0) (slice 78 5 (slice 8 80 disk.contents)))
    × (r.count ≡ 2)
    × (r.stream.contents ≡ disk.contents)
offset_file_clips_example =
    offset_file_clips toy-IsCtrMode 0 80 (file 0 0) 8 78 (replicate 5 0) disk
      (omega arith, omega arith)

-- Ten bytes asked for at the end of the section, of which there are none.
past_end : Read
unfolding read_from
past_end = elim (read_from toy section 50 (replicate 10 0) disk) [
  | some r ↦ r
  | Option.none ↦ record { dest = []; count = 0; after = section; stream = disk }
]

past_end_read : read_from toy section 50 (replicate 10 0) disk ≡ some past_end
unfolding read_from past_end xor_from set_ctr decrypt_ctr bswap64 to_be to_le align_down align_up
past_end_read = refl

-- Two objects that share a `FILE`.
abbrev shared : List Handle
shared = record { is_open = true; owners = 2 } ∷ []

open_file-closes_twice_example :
    ((◌≡◌ {A = ℕ} 1 0) × (open_file (some 0) true shared ≡ closed_twice))
    ⊎ ((m : ℕ) × (fp : Option ℕ) × (hs' : List Handle) × (hs'' : List Handle) × (◌≡◌ {A = ℕ} 1
          (suc m))
        × (open_file (some 0) true shared ≡ done (fp, hs'))
        × (destroy_all m 0 hs' ≡ done hs'')
        × (at_handle release 0 hs'' ≡ closed_twice))
open_file-closes_twice_example = open_file-closes_twice 1 0 shared true refl
