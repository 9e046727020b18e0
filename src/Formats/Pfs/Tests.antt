-- ===== src/Formats/Pfs/Tests.antt =====
-- An archive of two files, loaded.
use fuse_nx.Prelude.{ℕ, ◌+◌, ◌≤◌, ◌≡◌, refl, arith, true, List, [], ◌∷◌, replicate, some}
use mathlib.Core.Option
use fuse_nx.Prelude.Bytes.{to_le}
use fuse_nx.Prelude.Slices.{slice}
use fuse_nx.ToyCipher.{toy, toy_pad, toy-IsCtrMode}
use fuse_nx.Io.{file, Stream, read_at}
use fuse_nx.Io.View.{view, IsReady}
use fuse_nx.Formats.Table.{Table, Entry}
use fuse_nx.Formats.Table.Layout.{table_of, entry_bytes}
use fuse_nx.Formats.Table.Parse.{image, header_bytes}
use fuse_nx.Formats.Pfs.{magic, is_valid, open_file, load_pfs, load_pfs-image}

abbrev files : List Entry
files =
    record { offset = 0; size = 3; name = b'a' ∷ b'.' ∷ b'x' ∷ [] }
    ∷ record { offset = 3; size = 2; name = b'b' ∷ [] }
    ∷ []

abbrev contents : List ℕ
contents = 10 ∷ 11 ∷ 12 ∷ 13 ∷ 14 ∷ []

abbrev disk : Stream
disk = record { contents = image magic 7 (replicate 4 9) files contents; at = 0 }

disk-IsReady : IsReady toy_pad (file 0 0) disk.contents
unfolding header_bytes table_of entry_bytes to_le magic
disk-IsReady = omega arith

load_pfs-entries :
    Option.map (λ r. r.0.entries) (load_pfs toy (file 0 0) (replicate 16 255) disk) ≡ some files
unfolding load_pfs read_at header_bytes table_of entry_bytes to_le magic
load_pfs-entries = refl

load_pfs-image_example :
    (t : Table) × (s' : Stream) × (load_pfs toy (file 0 0) (replicate 16 255) disk ≡ some (t, s'))
    × (is_valid t ≡ true)
    × (t.entries ≡ files)
    × (s'.contents ≡ disk.contents)
    × ((e : Entry)
        → e.offset + e.size ≤ 5
        → IsReady toy_pad (open_file t e) s'.contents
          × (view toy_pad (open_file t e) s'.contents ≡ slice e.offset e.size contents))
load_pfs-image_example =
    load_pfs-image toy-IsCtrMode 7 (replicate 4 9) files contents (file 0 0) (replicate 16 255) disk
      (omega arith) (omega arith) (omega arith) refl refl disk-IsReady refl
