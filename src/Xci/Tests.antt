-- ===== src/Xci/Tests.antt =====
-- A game card whose root table has two entries, one of them with the name of a partition.
use fuse_nx.Prelude.{ℕ, ◌≡◌, refl, arith, List, [], ◌∷◌, ◌++◌, replicate, some}
use fuse_nx.Prelude.Bytes.{to_le}
use fuse_nx.ToyCipher.{toy, toy_pad, toy-IsCtrMode}
use fuse_nx.Keyset.Text.{codes}
use fuse_nx.Io.{file, Stream}
use fuse_nx.Formats.Table.{Entry}
use fuse_nx.Formats.Table.Layout.{table_of, entry_bytes}
use fuse_nx.Formats.Table.Parse.{image, header_bytes}
use fuse_nx.Xci.{Xci, xci, parse}
use fuse_nx.Xci.Partitions.{AreWindows, known}
use fuse_nx.Xci.Image.{parse-image}

-- The root table is at 0x200.
abbrev front : List ℕ
front = replicate 0x131 0 ++ ((2 ∷ []) ++ replicate 0xce 0)

abbrev entries : List Entry
entries =
    record { offset = 4; size = 20; name = codes "logo" }
    ∷ record { offset = 24; size = 16; name = codes "other" }
    ∷ []

abbrev disk : Stream
disk = record { contents = front ++ image 9 7 (replicate 44 1) entries (replicate 40 3); at = 0 }

parse-image_example :
    (x : Xci) × (s1 : Stream) × (x' : Xci) × (s' : Stream) × (xci toy
        (file 0 0)
        (replicate 0x200 5)
        disk
      ≡ some (x, s1))
    × (parse toy x (replicate 16 5) s1 ≡ some (x', s'))
    × (s'.contents ≡ disk.contents)
    × AreWindows toy_pad (replicate 40 3) disk.contents 0 x'.partitions (known entries)
unfolding header_bytes table_of entry_bytes to_le
parse-image_example =
    parse-image toy-IsCtrMode front 9 7 (replicate 44 1) entries (replicate 40 3) (file 0 0)
      (replicate 0x200 5) (replicate 16 5) disk (omega arith) refl (omega arith) (omega arith)
      (omega arith) (omega arith) refl (omega arith, omega arith, (omega arith, omega arith, tt))
      refl refl (omega arith) refl
