-- ===== src/Formats/Hfs.antt =====
-- include/fnx/formats/hfs.hpp and lib/hfs.cpp. The state is `Table`, whose functions the two
-- classes share line by line.
mod Tests
use fuse_nx.Prelude.{
  ℕ, ◌+◌, ◌*◌, ◌^◌, ◌≤◌, ◌<◌, ◌≡◌, refl, sym, ap, ◌∙◌, arith, Bool, true, List, length, Option,
  some, ◌==◌,
}
use fuse_nx.Prelude.Bytes.{field_at}
use fuse_nx.Prelude.Slices.{slice}
use fuse_nx.Utils.{four_cc}
use fuse_nx.Crypto.{Backend}
use fuse_nx.Crypto.Ctr.{IsCtrMode}
use fuse_nx.Io.{FileBase, Stream}
use fuse_nx.Io.View.{view, IsReady}
use fuse_nx.Formats.Table.{Table, Entry, Header, construct, parse_table, open_entry, load}
use fuse_nx.Formats.Table.Layout.{names_of, AreEntries}
use fuse_nx.Formats.Table.Parse.{image}
use fuse_nx.Formats.Table.Open.{load-image}

unfoldable pub magic : ℕ
unfolding four_cc
magic = four_cc b'H' b'F' b'S' b'0'

-- `sizeof(FileEntryMeta)`.
abbrev pub entry_size : ℕ
entry_size = 0x40

-- `match`: only the magic is looked at.
unfoldable pub matches : List ℕ → Bool
unfolding magic
matches bytes = field_at 0 4 bytes == magic

unfoldable pub is_valid : Table → Bool
unfolding magic
is_valid t = t.header.magic == magic

unfoldable pub parse : Backend → Table → Stream → Option (Table × Stream)
unfolding parse_table
parse b t s = parse_table b entry_size t s

unfoldable pub open_file : Table → Entry → FileBase
unfolding open_entry
open_file t e = open_entry t e

unfoldable pub load_hfs : Backend → FileBase → List ℕ → Stream → Option (Table × Stream)
unfolding load
load_hfs b base uninit s = load b entry_size base uninit s

-- On any file that shows a Hfs image, plain or inside other archives and encrypted, loading
-- succeeds over memory of any content: the archive is valid, its entries are the laid-out ones in
-- order, the stream keeps its bytes, and opening an entry that lies within the data gives a file of
-- exactly the entry's bytes.
pub load_hfs-image :
    {b : Backend} {pad : List ℕ → ℕ → ℕ → ℕ}
    → IsCtrMode b pad
    → (res : ℕ) (tail : List ℕ) (es : List Entry) (contents : List ℕ) (f : FileBase)
    → (uninit : List ℕ) (s : Stream) → length es < 2 ^ 32
    → length (names_of es) < 2 ^ 32
    → AreEntries es
    → length tail ≡ 44
    → length uninit ≡ 16
    → IsReady pad f s.contents
    → view pad f s.contents ≡ image magic res tail es contents
    → (t : Table) × (s' : Stream) × (load_hfs b f uninit s ≡ some (t, s'))
      × (is_valid t ≡ true)
      × (t.entries ≡ es)
      × (s'.contents ≡ s.contents)
      × ((e : Entry)
          → e.offset + e.size ≤ length contents
          → IsReady pad (open_file t e) s'.contents
            × (view pad (open_file t e) s'.contents ≡ slice e.offset e.size contents))
unfolding load_hfs is_valid open_file
load_hfs-image {b} mode res tail es contents f uninit s count names valid tail_size size ready
      shows =
    let (t, s', loaded, head, got, kept, opens) =
      load-image mode magic res tail es contents (omega arith) count names valid f uninit s size
        ready shows in
    (
      t,
      s',
      ap (λ (n : ℕ). load b n f uninit s) {x = entry_size} (omega (arith, tail_size)) ∙ loaded,
      rw head refl,
      got,
      kept,
      opens,
    )
