-- ===== src/Xci/Partitions.antt =====
-- The partitions that `parse` makes of the entries of the root table.
use fuse_nx.Prelude.{
  ℕ, ◌+◌, ◌≤◌, ◌<◌, ◌^◌, ◌≡◌, inl, inr, refl, ap, ◌∙◌, arith, List, [], ◌∷◌, length, none, some,
  Option-cases,
}
use fuse_nx.Prelude.Words.{u64}
use fuse_nx.Prelude.Slices.{slice, length-slice_of_le}
use fuse_nx.Crypto.{Backend}
use fuse_nx.Crypto.Ctr.{IsCtrMode}
use fuse_nx.Io.{FileBase, Stream, clone, new_offset_file}
use fuse_nx.Io.View.{view, IsReady, length-view-lt}
use fuse_nx.Io.Reads.{read_at-view}
use fuse_nx.Io.Clone.{clone-view, clone-IsReady}
use fuse_nx.Formats.Table.{Table, Entry, construct, header_of}
use fuse_nx.Xci.{PartitionType, Partition, partition_map, type_in, partitions_of}

-- The entries that have the name of a partition, in order.
abbrev pub known : List Entry → List (PartitionType × Entry)
known [] = []
known (e ∷ es) = elim (type_in partition_map e.name) [
  | none ↦ known es
  | some t ↦ (t, e) ∷ known es
]

-- Every entry lies within `size` bytes, and has room for the header of an `Hfs`.
abbrev pub AreInside : ℕ → ℕ → List Entry → Type 0
AreInside size data_offset [] = Unit {0}
AreInside size data_offset (e ∷ es) =
    (data_offset + (e.offset + e.size) ≤ size) × (16 ≤ e.size) × AreInside size data_offset es

module _ (pad : List ℕ → ℕ → ℕ → ℕ) (bytes xs : List ℕ) (data_offset : ℕ) where
  -- The partition for each entry has its type and shows its bytes.
  abbrev pub AreWindows : List Partition → List (PartitionType × Entry) → Type 0
  AreWindows [] [] = Unit {0}
  AreWindows [] (k ∷ ks) = ⊥
  AreWindows (p ∷ ps) [] = ⊥
  AreWindows (p ∷ ps) ((t, e) ∷ ks) =
      (p.type ≡ t)
      × IsReady pad p.hfs.base xs
      × (view pad p.hfs.base xs ≡ slice (data_offset + e.offset) e.size bytes)
      × AreWindows ps ks

module _ {b : Backend} {pad : List ℕ → ℕ → ℕ → ℕ} (mode : IsCtrMode b pad) (uninit : List ℕ)
    (header_size : length uninit ≡ 16) where
  construct-view :
      (f : FileBase) (s : Stream)
      → IsReady pad f s.contents
      → 16 ≤ length (view pad f s.contents)
      → (t : Table) × (s' : Stream) × (construct b f uninit s ≡ some (t, s'))
        × IsReady pad t.base s.contents
        × (view pad t.base s.contents ≡ view pad f s.contents)
        × (s'.contents ≡ s.contents)
  unfolding construct
  construct-view f s ready room =
      let (r, returns, _, _, kept, still, same) =
        read_at-view mode f 0 uninit s ready (omega (arith, header_size)) in
      (
        record {
          base = r.after;
          header = header_of r.dest;
          strings_offset = 0;
          data_offset = 0;
          entries = [];
          names_table = [];
        },
        r.stream,
        rw returns refl,
        still,
        same,
        kept,
      )

  window-view :
      (base : FileBase) (offset size : ℕ) (xs : List ℕ)
      → IsReady pad base xs
      → offset + size ≤ length (view pad base xs)
      → IsReady pad (new_offset_file (clone base) size (u64 offset)) xs
        × (view pad (new_offset_file (clone base) size (u64 offset)) xs
            ≡ slice offset size (view pad base xs))
  unfolding new_offset_file
  window-view base offset size xs ready within = (
    (clone-IsReady pad xs base ready, rw (clone-view pad xs base) (omega (arith, small, within))),
    rw (clone-view pad xs base)
        (ap (λ (o : ℕ). slice o size (view pad base xs)) (omega (arith, small))),
  )
    where
      small : offset < 2 ^ 63
      small = omega (arith, within, length-view-lt pad base xs ready)

  -- On a base whose windows are in order, and over entries that lie within it, the loop of `parse`
  -- returns: it leaves the stream's bytes, and makes a partition for each entry with a known name and
  -- for no other, in their order, each of the type of the name and showing exactly the entry's bytes.
  pub partitions_of-known :
      (base : FileBase) (data_offset : ℕ) (es : List Entry) (s : Stream)
      → IsReady pad base s.contents
      → AreInside (length (view pad base s.contents)) data_offset es
      → (ps : List Partition) × (s' : Stream) × (partitions_of b base data_offset es uninit s
          ≡ some (ps, s'))
        × (s'.contents ≡ s.contents)
        × AreWindows pad (view pad base s.contents) s.contents data_offset ps (known es)
  unfolding partitions_of
  partitions_of-known base data_offset [] s ready inside = ([], s, refl, refl, tt)
  partitions_of-known base data_offset (e ∷ es) s ready (within, room, inside) =
      elim (Option-cases (type_in partition_map e.name)) [
        | inl unknown ↦
            let (ps, s', run, kept, windows) =
              partitions_of-known base data_offset es s ready inside in
            (ps, s', rw unknown run, kept, rw unknown windows)
        | inr (t, found) ↦
            let (w_ready, w_view) =
              window-view base (e.offset + data_offset) e.size s.contents ready
                (omega (arith, within)) in
            let (hfs, s1, made, hfs_ready, hfs_view, kept1) =
              construct-view (new_offset_file (clone base) e.size (u64 (e.offset + data_offset))) s
                w_ready
                (omega (
                  arith,
                  room,
                  within,
                  ap (length {A = ℕ}) w_view,
                  length-slice_of_le (e.offset + data_offset) e.size (view pad base s.contents)
                      (omega (arith, within)),
                )) in
            let (ps, s', run, kept, windows) =
              partitions_of-known base data_offset es s1 (rw kept1 ready) (rw kept1 inside) in
            (
              record { type = t; hfs = hfs } ∷ ps,
              s',
              rw (found, made, run) refl,
              kept ∙ kept1,
              rw found (
                refl,
                hfs_ready,
                hfs_view
                    ∙ (w_view
                        ∙ ap (λ (o : ℕ). slice o e.size (view pad base s.contents)) (omega arith)),
                rw kept1 at windows,
              ),
            )
      ]
