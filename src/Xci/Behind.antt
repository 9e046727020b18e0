-- ===== src/Xci/Behind.antt =====
-- Reads of the root table that lies behind the first part of a game card.
use fuse_nx.Prelude.{
  ℕ, ◌+◌, ◌-◌, ◌*◌, ◌≤◌, ◌≡◌, refl, ap, ap₂, ◌∙◌, arith, List, [], ◌∷◌, ◌++◌, length, length-append,
  take, drop, replicate, some,
}
use fuse_nx.Prelude.Words.{u64}
use fuse_nx.Prelude.Bytes.{field_at, le}
use fuse_nx.Prelude.Slices.{slice, slice-slice, slice-append_left, drop-append}
use fuse_nx.Crypto.{Backend}
use fuse_nx.Crypto.Ctr.{IsCtrMode}
use fuse_nx.Io.{FileBase, Stream, Read, read_at}
use fuse_nx.Io.View.{view, IsReady}
use fuse_nx.Io.Reads.{read_at-view}
use fuse_nx.Formats.Table.{Entry, header_of, entries_of, ◌>>=◌}
use fuse_nx.Xci.{Xci, Partition, PartitionType, parse, hfs_offset, partitions_of}
use fuse_nx.Xci.Partitions.{AreInside, AreWindows}

slice_behind :
    (p n : ℕ) (front ys : List ℕ) → slice (length front + p) n (front ++ ys) ≡ slice p n ys
slice_behind p n front ys = ap (take n) (
    drop-append (length front + p) front ys (omega arith)
    ∙ ap (λ (k : ℕ). drop k ys) {x = length front + p - length front} (omega arith))

-- The entries lie within the data, each with room for the header of an `Hfs`.
abbrev pub AreHfs : ℕ → List Entry → Type 0
AreHfs size [] = Unit {0}
AreHfs size (e ∷ es) = (e.offset + e.size ≤ size) × (16 ≤ e.size) × AreHfs size es

pub AreHfs-AreInside :
    (at size : ℕ) (es : List Entry) → AreHfs size es → AreInside (at + size) at es
AreHfs-AreInside at size [] h = tt
AreHfs-AreInside at size (e ∷ es) h = (omega (arith, h.0), h.1, AreHfs-AreInside at size es h.2)

-- What windows show behind other bytes.
pub AreWindows-behind :
    (pad : List ℕ → ℕ → ℕ → ℕ) (front bytes xs : List ℕ) (at : ℕ) (ps : List Partition)
    (ks : List (PartitionType × Entry))
    → at ≡ length front
    → AreWindows pad (front ++ bytes) xs at ps ks
    → AreWindows pad bytes xs 0 ps ks
AreWindows-behind pad front bytes xs at [] [] e h = tt
AreWindows-behind pad front bytes xs at [] (k ∷ ks) e h = absurd h
AreWindows-behind pad front bytes xs at (p ∷ ps) [] e h = absurd h
AreWindows-behind pad front bytes xs at (p ∷ ps) ((t, k) ∷ ks) e h = (
  h.0,
  h.1,
  h.2
      ∙ ap (λ (o : ℕ). slice (o + k.offset) k.size (front ++ bytes)) e
      ∙ slice_behind k.offset k.size front bytes
      ∙ ap (λ (o : ℕ). slice o k.size bytes) {x = k.offset} (omega arith),
  AreWindows-behind pad front bytes xs at ps ks e h.3,
)

-- `parse` from what its calls return.
pub parse_of :
    (b : Backend) (x : Xci) (uninit : List ℕ) (s : Stream) (start n m : ℕ) (root table names : Read)
    (es : List Entry) (ps : List Partition) (s' : Stream)
    → hfs_offset x.header ≡ start
    → read_at b start x.base uninit s ≡ some root
    → (header_of root.dest).num_files ≡ n
    → (header_of root.dest).string_table_size ≡ m
    → read_at b (u64 (start + 0x10)) root.after (replicate (n * 0x40) 0) root.stream ≡ some table
    → read_at b (u64 (start + 0x10 + n * 0x40)) table.after (replicate m 0) table.stream
      ≡ some names
    → entries_of 0x40 n table.dest names.dest ≡ some es
    → partitions_of b names.after (u64 (u64 (start + 0x10 + n * 0x40) + m)) es uninit names.stream
      ≡ some (ps, s')
    → parse b x uninit s
      ≡ some (record x { base = names.after; partitions = x.partitions ++ ps }, s')
unfolding parse
parse_of b x uninit s start n m root table names es ps s' at e0 count size e1 e2 e3 e4 =
    rw (at, parse)
      (rw (e0, ◌>>=◌)
        (rw (count, size) (rw (e1, ◌>>=◌) (rw (e2, ◌>>=◌) (rw (e3, ◌>>=◌) (rw (e4, ◌>>=◌) refl))))))

module _ {b : Backend} {pad : List ℕ → ℕ → ℕ → ℕ} (mode : IsCtrMode b pad)
    (front img : List ℕ) where
  -- A file that shows the root table's image behind other bytes.
  pub record Behind (f : FileBase) (xs : List ℕ) : Type 0 where
    pub ready : IsReady pad f xs
    pub shows : view pad f xs ≡ front ++ img

  pub read-Behind :
      (f : FileBase) (at p : ℕ) (dest part : List ℕ) (s : Stream)
      → Behind f s.contents
      → at ≡ length front + p
      → p + length dest ≤ length img
      → slice p (length dest) img ≡ part
      → (r : Read) × (read_at b at f dest s ≡ some r)
        × (r.dest ≡ part)
        × Behind r.after r.stream.contents
        × (r.stream.contents ≡ s.contents)
  read-Behind f at p dest part s h e within is =
      let (r, reads, got, n, kept, ready, same) =
        read_at-view mode f at dest s h.ready
          (omega (arith, e, within, ap length h.shows, length-append front img)) in
      (
        r,
        reads,
        got
            ∙ ap₂ (λ (o : ℕ) (xs : List ℕ). slice o (length dest) xs) e h.shows
            ∙ slice_behind p (length dest) front img
            ∙ is,
        record { ready = rw kept ready; shows = rw kept (same ∙ h.shows) },
        kept,
      )

  -- The first bytes, in which the offset of the table lies.
  pub hfs_offset-start :
      (header : List ℕ)
      → header ≡ slice 0 0x200 (front ++ img)
      → 0x200 ≤ length front
      → field_at 0x130 8 front ≡ length front
      → hfs_offset header ≡ length front
  hfs_offset-start header e long at =
      ap le (
        ap (slice 0x130 8) e
        ∙ slice-slice 0x130 8 0 0x200 (front ++ img)
        ∙ slice-append_left 0x130 8 front img (omega arith))
      ∙ at
