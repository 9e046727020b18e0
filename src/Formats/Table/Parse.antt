-- ===== src/Formats/Table/Parse.antt =====
-- Constructing and parsing a laid-out archive gives back its entries, and opening an entry its data.
use fuse_nx.Prelude.{
  ℕ, ◌+◌, ◌-◌, ◌*◌, ◌^◌, ◌≤◌, ◌<◌, ◌≡◌, refl, sym, ap, ap₂, ◌∙◌, arith, List, [], ◌++◌, length,
  length-append, take, replicate, length-replicate, some, length-take, append_assoc, append-nil,
}
use fuse_nx.Prelude.Bytes.{field_at, to_le, le-to_le, length-to_le}
use fuse_nx.Prelude.Slices.{slice, take-append, take_all}
use fuse_nx.Crypto.{Backend}
use fuse_nx.Crypto.Ctr.{IsCtrMode}
use fuse_nx.Io.{FileBase, Read, Stream, read_at}
use fuse_nx.Io.View.{view, IsReady}
use fuse_nx.Io.Reads.{read_at-view}
use fuse_nx.Formats.Table.{
  Table, Entry, Header, header_of, resize, construct, parse_table, entries_of,
}
use fuse_nx.Formats.Table.Layout.{
  names_of, table_of, AreEntries, length-table_of, entries_of-table_of, field_at_head,
  field_at_next, drop_next,
}

unfoldable pub header_bytes : ℕ → ℕ → ℕ → ℕ → List ℕ
header_bytes magic n names res = to_le 4 magic ++ (to_le 4 n ++ (to_le 4 names ++ to_le 4 res))

-- An archive of these entries, whose table has `tail` behind the fields that are read.
abbrev pub image : ℕ → ℕ → List ℕ → List Entry → List ℕ → List ℕ
image magic res tail es contents =
    header_bytes magic (length es) (length (names_of es)) res
    ++ (table_of tail 0 es ++ (names_of es ++ contents))

length-header_bytes : (magic n names res : ℕ) → length (header_bytes magic n names res) ≡ 16
unfolding header_bytes
length-header_bytes magic n names res = omega (
  arith,
  length-append (to_le 4 magic) (to_le 4 n ++ (to_le 4 names ++ to_le 4 res)),
  length-append (to_le 4 n) (to_le 4 names ++ to_le 4 res),
  length-append (to_le 4 names) (to_le 4 res),
  length-to_le 4 magic,
  length-to_le 4 n,
  length-to_le 4 names,
  length-to_le 4 res,
)

slice_middle :
    (m n : ℕ) (xs ys zs : List ℕ)
    → length xs ≡ m
    → length ys ≡ n
    → slice m n (xs ++ (ys ++ zs)) ≡ ys
slice_middle m n xs ys zs h k =
    ap (take n) (drop_next m xs (ys ++ zs) h)
    ∙ (take-append n ys zs (omega arith) ∙ take_all n ys (omega arith))

pub header_of-header_bytes :
    (magic n names res : ℕ)
    → magic < 2 ^ 32
    → n < 2 ^ 32
    → names < 2 ^ 32
    → header_of (header_bytes magic n names res)
      ≡ record { magic = magic; num_files = n; string_table_size = names }
unfolding header_of header_bytes
header_of-header_bytes magic n names res hm hn hs =
    λ i. record { magic = first i; num_files = second i; string_table_size = third i }
  where
    bytes : List ℕ
    bytes = header_bytes magic n names res

    first : field_at 0 4 bytes ≡ magic
    first = field_at_head 4 (to_le 4 magic) _ (length-to_le 4 magic) ∙ le-to_le 4 magic hm

    second : field_at 4 4 bytes ≡ n
    second =
        field_at_next 4 0 4 (to_le 4 magic) _ (length-to_le 4 magic)
        ∙ (field_at_head 4 (to_le 4 n) _ (length-to_le 4 n) ∙ le-to_le 4 n hn)

    third : field_at 8 4 bytes ≡ names
    third =
        field_at_next 4 4 4 (to_le 4 magic) _ (length-to_le 4 magic)
        ∙ (field_at_next 4 0 4 (to_le 4 n) _ (length-to_le 4 n)
            ∙ (field_at_head 4 (to_le 4 names) _ (length-to_le 4 names) ∙ le-to_le 4 names hs))

length-resize : (n : ℕ) (xs : List ℕ) → length (resize n xs) ≡ n
unfolding resize
length-resize n xs = omega (
  arith,
  length-append (take n xs) (replicate (n - length xs) 0),
  length-take n xs,
  length-replicate {0} {A = ℕ} (n - length xs) 0,
)

-- The three parts of an image that `parse` reads.
pub image-head :
    (magic res : ℕ) (tail : List ℕ) (es : List Entry) (contents : List ℕ)
    → slice 0 16 (image magic res tail es contents)
      ≡ header_bytes magic (length es) (length (names_of es)) res
image-head magic res tail es contents =
    let size = length-header_bytes magic (length es) (length (names_of es)) res in
    take-append 16 (header_bytes magic (length es) (length (names_of es)) res) _ (omega arith)
    ∙ take_all 16 (header_bytes magic (length es) (length (names_of es)) res) (omega arith)

pub image-table :
    (magic res : ℕ) (tail : List ℕ) (es : List Entry) (contents : List ℕ)
    → slice 16 (length es * (20 + length tail)) (image magic res tail es contents)
      ≡ table_of tail 0 es
image-table magic res tail es contents =
    slice_middle 16 (length es * (20 + length tail))
      (header_bytes magic (length es) (length (names_of es)) res) (table_of tail 0 es)
      (names_of es ++ contents) (length-header_bytes magic (length es) (length (names_of es)) res)
      (length-table_of tail 0 es)

pub image-names :
    (magic res : ℕ) (tail : List ℕ) (es : List Entry) (contents : List ℕ)
    → slice
        (16 + length es * (20 + length tail))
        (length (names_of es))
        (image magic res tail es contents)
      ≡ names_of es
image-names magic res tail es contents =
    let head = header_bytes magic (length es) (length (names_of es)) res in
    ap (slice (16 + length es * (20 + length tail)) (length (names_of es)))
      (sym (append_assoc head (table_of tail 0 es) (names_of es ++ contents)))
    ∙ slice_middle (16 + length es * (20 + length tail)) (length (names_of es))
        (head ++ table_of tail 0 es) (names_of es) contents
        (omega (
          arith,
          length-append head (table_of tail 0 es),
          length-header_bytes magic (length es) (length (names_of es)) res,
          length-table_of tail 0 es,
        ))
        refl

module _ {b : Backend} {pad : List ℕ → ℕ → ℕ → ℕ} (mode : IsCtrMode b pad) (magic res : ℕ)
    (tail : List ℕ) (es : List Entry) (contents : List ℕ) (magic_fits : magic < 2 ^ 32)
    (count_fits : length es < 2 ^ 32) (names_fit : length (names_of es) < 2 ^ 32)
    (valid : AreEntries es) where
  abbrev pub header : Header
  header = record { magic = magic; num_files = length es; string_table_size = length (names_of es) }

  -- The file of a table shows the image.
  pub record Shows (f : FileBase) (s : Stream) : Type 0 where
    pub ready : IsReady pad f s.contents
    pub shows : view pad f s.contents ≡ image magic res tail es contents

  head : List ℕ
  head = header_bytes magic (length es) (length (names_of es)) res

  head-length : length head ≡ 16
  unfolding head
  head-length = length-header_bytes magic (length es) (length (names_of es)) res

  table-length : length (table_of tail 0 es) ≡ length es * (20 + length tail)
  table-length = length-table_of tail 0 es

  pub image-length :
      length (image magic res tail es contents)
      ≡ 16 + length es * (20 + length tail) + length (names_of es) + length contents
  image-length = omega (
    arith,
    length-header_bytes magic (length es) (length (names_of es)) res,
    table-length,
    length-append (header_bytes magic (length es) (length (names_of es)) res)
        (table_of tail 0 es ++ (names_of es ++ contents)),
    length-append (table_of tail 0 es) (names_of es ++ contents),
    length-append (names_of es) contents,
  )

  -- A read of a part of the image.
  read_part :
      (f : FileBase) (p : ℕ) (dest part : List ℕ) (s : Stream)
      → Shows f s
      → p + length dest ≤ length (image magic res tail es contents)
      → slice p (length dest) (image magic res tail es contents) ≡ part
      → (r : Read) × (read_at b p f dest s ≡ some r)
        × (r.dest ≡ part)
        × Shows r.after r.stream
        × (r.stream.contents ≡ s.contents)
  read_part f p dest part s h within e =
      let (r, returns, stored, _, kept, ready, same) =
        read_at-view mode f p dest s h.ready (rw h.shows within) in
      (
        r,
        returns,
        stored ∙ (ap (slice p (length dest)) h.shows ∙ e),
        record { ready = rw kept ready; shows = rw kept (same ∙ h.shows) },
        kept,
      )

  pub construct-Shows :
      (f : FileBase) (uninit : List ℕ) (s : Stream)
      → length uninit ≡ 16
      → Shows f s
      → (t : Table) × (s' : Stream) × (construct b f uninit s ≡ some (t, s'))
        × (t.header ≡ header)
        × Shows t.base s'
        × (s'.contents ≡ s.contents)
  unfolding construct head
  construct-Shows f uninit s size h =
      let (r, returns, stored, shows, kept) =
        read_part f 0 uninit head s h (omega (arith, image-length))
          (rw size (image-head magic res tail es contents)) in
      (
        record {
          base = r.after;
          header = header_of r.dest;
          strings_offset = 0;
          data_offset = 0;
          entries = [];
          names_table = [];
        },
        r.stream,
        rw returns refl,
        ap header_of stored
            ∙ header_of-header_bytes magic (length es) (length (names_of es)) res magic_fits
                count_fits names_fit,
        shows,
        kept,
      )

  pub parse_table-Shows :
      (t : Table) (s : Stream)
      → t.header ≡ header
      → Shows t.base s
      → (t' : Table) × (s' : Stream) × (parse_table b (20 + length tail) t s ≡ some (t', s'))
        × (t'.header ≡ header)
        × (t'.entries ≡ es)
        × (t'.data_offset ≡ 16 + length es * (20 + length tail) + length (names_of es))
        × Shows t'.base s'
        × (s'.contents ≡ s.contents)
  unfolding parse_table head
  parse_table-Shows t s e h =
      let (r1, returns1, stored1, shows1, kept1) =
        read_part t.base 16 (replicate (t.header.num_files * esize) 0) (table_of tail 0 es) s h
          (omega (arith, image-length, sizes, count))
          (ap (λ (n : ℕ). slice 16 n (image magic res tail es contents))
              (omega (arith, sizes, count))
            ∙ image-table magic res tail es contents) in
      let (r2, returns2, stored2, shows2, kept2) =
        read_part r1.after (16 + t.header.num_files * esize) buf (names_of es) r1.stream shows1
          (omega (arith, image-length, sizes, count))
          (ap₂ (λ (o n : ℕ). slice o n (image magic res tail es contents)) (omega (arith, count))
              (omega (arith, sizes))
            ∙ image-names magic res tail es contents) in
      (
        record {
          base = r2.after;
          header = t.header;
          strings_offset = 16 + t.header.num_files * esize;
          data_offset = 16 + t.header.num_files * esize + t.header.string_table_size;
          entries = es;
          names_table = r2.dest;
        },
        r2.stream,
        rw (returns1, returns2, stored1, stored2, entries) refl,
        e,
        refl,
        omega (arith, count, sizes),
        shows2,
        kept2 ∙ kept1,
      )
    where
      esize : ℕ
      esize = 20 + length tail

      buf : List ℕ
      buf = resize t.header.string_table_size t.names_table

      count : t.header.num_files * esize ≡ length es * esize
      count = ap (λ (x : Header). x.num_files * esize) e

      sizes :
          (length buf ≡ length (names_of es))
          × (length (replicate {A = ℕ} (t.header.num_files * esize) 0) ≡ t.header.num_files * esize)
          × (t.header.string_table_size ≡ length (names_of es))
      sizes = (
        length-resize t.header.string_table_size t.names_table
            ∙ ap (λ (x : Header). x.string_table_size) e,
        length-replicate {0} {A = ℕ} (t.header.num_files * esize) 0,
        ap (λ (x : Header). x.string_table_size) e,
      )

      entries : entries_of esize t.header.num_files (table_of tail 0 es) (names_of es) ≡ some es
      entries =
          ap₂ (λ (n : ℕ) (names : List ℕ). entries_of esize n (table_of tail 0 es) names)
            (ap (λ (x : Header). x.num_files) e) (sym (append-nil (names_of es)))
          ∙ entries_of-table_of tail 0 es [] [] refl valid (omega (arith, names_fit))
