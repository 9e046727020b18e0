-- ===== src/Xci/Image.antt =====
-- Constructing and parsing a laid-out game card.
use mathlib.Core.Path.{subst}
use fuse_nx.Prelude.{
  ℕ, ◌+◌, ◌*◌, ◌^◌, ◌≤◌, ◌<◌, ◌≡◌, refl, sym, ap, ap₂, ◌∙◌, arith, List, [], ◌++◌, length,
  length-append, replicate, length-replicate, some, append-nil, append_assoc,
}
use fuse_nx.Prelude.Words.{u64}
use fuse_nx.Prelude.Bytes.{field_at}
use fuse_nx.Prelude.Slices.{slice}
use fuse_nx.Crypto.{Backend}
use fuse_nx.Crypto.Ctr.{IsCtrMode}
use fuse_nx.Io.{FileBase, Stream, Read, read_at}
use fuse_nx.Io.View.{view, IsReady, length-view-lt}
use fuse_nx.Io.Reads.{read_at-view}
use fuse_nx.Formats.Table.{Entry, Header, header_of, entries_of}
use fuse_nx.Formats.Table.Layout.{names_of, table_of, AreEntries, entries_of-table_of}
use fuse_nx.Formats.Table.Parse.{
  image, image-head, image-table, image-names, image-length, header_bytes, header_of-header_bytes,
}
use fuse_nx.Xci.{Xci, Partition, xci, parse, hfs_offset, partitions_of}
use fuse_nx.Xci.Partitions.{AreInside, AreWindows, known, partitions_of-known}
use fuse_nx.Xci.Behind.{
  AreHfs, AreHfs-AreInside, AreWindows-behind, parse_of, Behind, read-Behind, hfs_offset-start,
}

module _ {b : Backend} {pad : List ℕ → ℕ → ℕ → ℕ} (mode : IsCtrMode b pad) (front : List ℕ)
    (magic res : ℕ) (tail : List ℕ) (es : List Entry) (contents : List ℕ)
    (magic_fits : magic < 2 ^ 32) (count : length es < 2 ^ 32)
    (names_fit : length (names_of es) < 2 ^ 32) (valid : AreEntries es)
    (tail_size : length tail ≡ 44) (inside : AreHfs (length contents) es) (uninit : List ℕ)
    (size : length uninit ≡ 0x10) where
  abbrev img : List ℕ
  img = image magic res tail es contents

  abbrev before_data : List ℕ
  before_data =
      front
      ++ (header_bytes magic (length es) (length (names_of es)) res
          ++ (table_of tail 0 es ++ names_of es))

  regroup : front ++ img ≡ before_data ++ contents
  regroup = simp append_assoc

  total : length img ≡ 16 + length es * 0x40 + length (names_of es) + length contents
  total = omega (
    arith,
    image-length mode magic res tail es contents magic_fits count names_fit valid,
    ap (λ (t : ℕ). length es * (20 + t)) tail_size,
  )

  before_data-length :
      length before_data ≡ length front + 16 + length es * 0x40 + length (names_of es)
  before_data-length =
      omega (
        arith,
        total,
        ap length regroup,
        length-append before_data contents,
        length-append front img,
      )

  fits :
      (f : FileBase) (xs : List ℕ) → Behind mode front img f xs → length front + length img < 2 ^ 63
  fits f xs h =
      omega (arith, length-view-lt pad f xs h.ready, ap length h.shows, length-append front img)

  -- The loop over the entries.
  after_names :
      (f : FileBase) (s : Stream)
      → Behind mode front img f s.contents
      → (ps : List Partition) × (s' : Stream) × (partitions_of b f
            (u64 (u64 (length front + 0x10 + length es * 0x40) + length (names_of es)))
            es
            uninit
            s
          ≡ some (ps, s'))
        × (s'.contents ≡ s.contents)
        × AreWindows pad contents s.contents 0 ps (known es)
  after_names f s h =
      let at = u64 (u64 (length front + 0x10 + length es * 0x40) + length (names_of es)) in
      let at-eq : at ≡ length before_data =
        omega (arith, fits f s.contents h, total, before_data-length) in
      let shows = h.shows ∙ regroup in
      let (ps, s', made, kept, windows) = partitions_of-known mode uninit size f at es s h.ready (
        subst (λ (n : ℕ). AreInside n at es) {x = at + length contents}
          (omega (arith, at-eq, ap length shows, length-append before_data contents))
          (AreHfs-AreInside at (length contents) es inside)) in
      (
        ps,
        s',
        made,
        kept,
        AreWindows-behind pad before_data contents s.contents at ps (known es) at-eq (
            subst (λ (bytes : List ℕ). AreWindows pad bytes s.contents at ps (known es)) shows
              windows),
      )

  abbrev IsRead : FileBase → Stream → ℕ → List ℕ → List ℕ → Type 0
  IsRead f s at dest part =
      (r : Read) × (read_at b at f dest s ≡ some r)
      × (r.dest ≡ part)
      × Behind mode front img r.after r.stream.contents
      × (r.stream.contents ≡ s.contents)

  root-IsRead :
      (f : FileBase) (s : Stream)
      → Behind mode front img f s.contents
      → IsRead f s (length front) uninit (header_bytes magic (length es) (length (names_of es)) res)
  root-IsRead f s h =
      read-Behind mode front img f (length front) 0 uninit _ s h (omega arith)
        (omega (arith, size, total))
        (ap (λ (n : ℕ). slice 0 n img) size ∙ image-head magic res tail es contents)

  table-IsRead :
      (f : FileBase) (s : Stream)
      → Behind mode front img f s.contents
      → IsRead f s (u64 (length front + 0x10)) (replicate (length es * 0x40) 0) (table_of tail 0 es)
  table-IsRead f s h =
      let n = length-replicate {0} {A = ℕ} (length es * 0x40) 0 in
      let esize = ap (λ (t : ℕ). length es * (20 + t)) tail_size in
      read-Behind mode front img f (u64 (length front + 0x10)) 16 (replicate (length es * 0x40) 0) _
        s h (omega (arith, fits f s.contents h)) (omega (arith, n, total))
        (ap (λ (k : ℕ). slice 16 k img) (omega (arith, n, esize))
          ∙ image-table magic res tail es contents)

  names-IsRead :
      (f : FileBase) (s : Stream)
      → Behind mode front img f s.contents
      → IsRead f s
          (u64 (length front + 0x10 + length es * 0x40))
          (replicate (length (names_of es)) 0)
          (names_of es)
  names-IsRead f s h =
      let n = length-replicate {0} {A = ℕ} (length (names_of es)) 0 in
      let esize = ap (λ (t : ℕ). length es * (20 + t)) tail_size in
      read-Behind mode front img f (u64 (length front + 0x10 + length es * 0x40))
        (16 + length es * (20 + length tail)) (replicate (length (names_of es)) 0) _ s h
        (omega (arith, fits f s.contents h, total, esize)) (omega (arith, n, total, esize))
        (ap (λ (k : ℕ). slice (16 + length es * (20 + length tail)) k img) n
          ∙ image-names magic res tail es contents)

  entries_read :
      (xs ys : List ℕ)
      → xs ≡ table_of tail 0 es
      → ys ≡ names_of es
      → entries_of 0x40 (length es) xs ys ≡ some es
  entries_read xs ys e e' =
      ap₂ (λ (xs ys : List ℕ). entries_of 0x40 (length es) xs ys) e
        (e' ∙ sym (append-nil (names_of es)))
      ∙ ap (λ (t : ℕ). entries_of (20 + t) (length es) (table_of tail 0 es) (names_of es ++ []))
          (sym tail_size)
      ∙ entries_of-table_of tail 0 es [] [] refl valid (omega (arith, names_fit))

  parse-Behind :
      (x : Xci) (s : Stream)
      → Behind mode front img x.base s.contents
      → hfs_offset x.header ≡ length front
      → x.partitions ≡ []
      → (x' : Xci) × (s' : Stream) × (parse b x uninit s ≡ some (x', s'))
        × (s'.contents ≡ s.contents)
        × AreWindows pad contents s.contents 0 x'.partitions (known es)
  parse-Behind x s h start none_yet =
      let (root, reads1, got1, b1, kept1) = root-IsRead x.base s h in
      let (table, reads2, got2, b2, kept2) = table-IsRead root.after root.stream b1 in
      let (names, reads3, got3, b3, kept3) = names-IsRead table.after table.stream b2 in
      let (ps, s', made, kept4, windows) = after_names names.after names.stream b3 in
      let fields =
        ap header_of got1
        ∙ header_of-header_bytes magic (length es) (length (names_of es)) res magic_fits count
            names_fit in
      let kept = kept3 ∙ kept2 ∙ kept1 in
      (
        record x { base = names.after; partitions = x.partitions ++ ps },
        s',
        parse_of b x uninit s (length front) (length es) (length (names_of es)) root table names es
            ps s' start reads1 (ap (λ (h : Header). h.num_files) fields)
            (ap (λ (h : Header). h.string_table_size) fields) reads2 reads3
            (entries_read table.dest names.dest got2 got3) made,
        kept4 ∙ kept,
        rw none_yet
            (subst (λ (xs : List ℕ). AreWindows pad contents xs 0 ps (known es)) kept windows),
      )

-- On any file that shows a game card, whose header names the place behind the 0x200 or more bytes of `front` where the root table lies,
-- with 44 further bytes in each of its entries, all of which, also those with an unknown name, have at least 16
-- bytes and lie within the data, constructing and parsing it succeeds over memory of any
-- content: it makes a partition for each entry with a known name and for no other, in their order, each of the
-- type of the name and an Hfs constructed on exactly the entry's bytes; the bytes on disk are as before.
pub parse-image :
    {b : Backend} {pad : List ℕ → ℕ → ℕ → ℕ}
    → IsCtrMode b pad
    → (front : List ℕ) (magic res : ℕ) (tail : List ℕ) (es : List Entry) (contents : List ℕ)
    → (f : FileBase) (uninit uninit' : List ℕ) (s : Stream) → 0x200 ≤ length front
    → field_at 0x130 8 front ≡ length front
    → magic < 2 ^ 32
    → length es < 2 ^ 32
    → length (names_of es) < 2 ^ 32
    → AreEntries es
    → length tail ≡ 44
    → AreHfs (length contents) es
    → length uninit ≡ 0x200
    → length uninit' ≡ 0x10
    → IsReady pad f s.contents
    → view pad f s.contents ≡ front ++ image magic res tail es contents
    → (x : Xci) × (s1 : Stream) × (x' : Xci) × (s' : Stream) × (xci b f uninit s ≡ some (x, s1))
      × (parse b x uninit' s1 ≡ some (x', s'))
      × (s'.contents ≡ s.contents)
      × AreWindows pad contents s.contents 0 x'.partitions (known es)
unfolding xci
parse-image {b} {pad} mode front magic res tail es contents f uninit uninit' s long at magic_fits
      count names_fit valid tail_size inside size size' ready shows =
    let img = image magic res tail es contents in
    let (r, reads, got, _, kept, ready1, same) =
      read_at-view mode f 0 uninit s ready
        (omega (arith, size, long, ap length shows, length-append front img)) in
    let x : Xci = record { base = r.after; header = r.dest; partitions = [] } in
    let (x', s', parsed, kept', windows) =
      parse-Behind mode front magic res tail es contents magic_fits count names_fit valid tail_size
        inside uninit' size' x r.stream
        (record { ready = rw kept ready1; shows = rw kept (same ∙ shows) })
        (hfs_offset-start mode front img r.dest
          (got ∙ ap₂ (λ (n : ℕ) (xs : List ℕ). slice 0 n xs) size shows) long at)
        refl in
    (
      x,
      r.stream,
      x',
      s',
      rw reads refl,
      parsed,
      kept' ∙ kept,
      subst (λ (xs : List ℕ). AreWindows pad contents xs 0 x'.partitions (known es)) kept windows,
    )
