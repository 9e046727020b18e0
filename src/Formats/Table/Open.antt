-- ===== src/Formats/Table/Open.antt =====
-- Loading an archive and opening its entries.
use fuse_nx.Prelude.{
  ℕ, ◌+◌, ◌*◌, ◌^◌, ◌≤◌, ◌<◌, ◌≡◌, refl, ap, ap₂, ◌∙◌, arith, List, ◌++◌, length, length-append,
  drop, take, some, append_assoc,
}
use fuse_nx.Prelude.Slices.{slice, drop-append}
use fuse_nx.Prelude.Words.{u64}
use fuse_nx.Crypto.{Backend}
use fuse_nx.Crypto.Ctr.{IsCtrMode}
use fuse_nx.Io.{FileBase, Stream, new_offset_file}
use fuse_nx.Io.View.{view, IsReady, length-view-lt}
use fuse_nx.Io.Clone.{clone-view, clone-IsReady}
use fuse_nx.Formats.Table.{Table, Entry, Header, open_entry, load}
use fuse_nx.Formats.Table.Layout.{names_of, table_of, AreEntries}
use fuse_nx.Formats.Table.Parse.{
  image, header_bytes, image-length, construct-Shows, parse_table-Shows,
}

drop_behind :
    {A : Type 0} (o m : ℕ) (xs ys : List A) → length xs ≡ m → drop (m + o) (xs ++ ys) ≡ drop o ys
drop_behind o m xs ys h =
    drop-append (m + o) xs ys (omega arith) ∙ ap (λ (k : ℕ). drop k ys) {y = o} (omega arith)

module _ {b : Backend} {pad : List ℕ → ℕ → ℕ → ℕ} (mode : IsCtrMode b pad) (magic res : ℕ)
    (tail : List ℕ) (es : List Entry) (contents : List ℕ) (magic_fits : magic < 2 ^ 32)
    (count_fits : length es < 2 ^ 32) (names_fit : length (names_of es) < 2 ^ 32)
    (valid : AreEntries es) where
  abbrev front : List ℕ
  front =
      header_bytes magic (length es) (length (names_of es)) res
      ++ (table_of tail 0 es ++ names_of es)

  abbrev data_start : ℕ
  data_start = 16 + length es * (20 + length tail) + length (names_of es)

  image-eq : image magic res tail es contents ≡ front ++ contents
  image-eq = simp append_assoc

  front-length : length front ≡ data_start
  front-length = omega (
    arith,
    image-length mode magic res tail es contents magic_fits count_fits names_fit valid,
    ap length image-eq,
    length-append front contents,
  )

  -- The window of an entry that lies within the data.
  pub open_entry-view :
      (t : Table) (s : Stream) (e : Entry)
      → t.data_offset ≡ data_start
      → IsReady pad t.base s.contents
      → view pad t.base s.contents ≡ image magic res tail es contents
      → e.offset + e.size ≤ length contents
      → IsReady pad (open_entry t e) s.contents
        × (view pad (open_entry t e) s.contents ≡ slice e.offset e.size contents)
  unfolding open_entry new_offset_file
  open_entry-view t s e at ready shows within = (
    (
      clone-IsReady pad s.contents t.base ready,
      rw (clone-view pad s.contents t.base, shows) (omega (arith, size, bound, offset-eq)),
    ),
    rw (clone-view pad s.contents t.base, shows)
        (ap₂ (λ (o : ℕ) (xs : List ℕ). slice o e.size xs) offset-eq image-eq
          ∙ ap (take e.size) (drop_behind e.offset data_start front contents front-length)),
  )
    where
      size : length (image magic res tail es contents) ≡ data_start + length contents
      size = image-length mode magic res tail es contents magic_fits count_fits names_fit valid

      bound : length (image magic res tail es contents) < 2 ^ 63
      bound = rw (← shows) (length-view-lt pad t.base s.contents ready)

      offset-eq : u64 (e.offset + t.data_offset) ≡ data_start + e.offset
      offset-eq = omega (arith, size, bound)

  -- Loading succeeds, gives the entries as they were laid out, and each that lies within the data
  -- opens as its bytes.
  pub load-image :
      (f : FileBase) (uninit : List ℕ) (s : Stream)
      → length uninit ≡ 16
      → IsReady pad f s.contents
      → view pad f s.contents ≡ image magic res tail es contents
      → (t : Table) × (s' : Stream) × (load b (20 + length tail) f uninit s ≡ some (t, s'))
        × (t.header.magic ≡ magic)
        × (t.entries ≡ es)
        × (s'.contents ≡ s.contents)
        × ((e : Entry)
            → e.offset + e.size ≤ length contents
            → IsReady pad (open_entry t e) s'.contents
              × (view pad (open_entry t e) s'.contents ≡ slice e.offset e.size contents))
  unfolding load
  load-image f uninit s size ready shows =
      let (t0, s0, made, head, shows0, kept0) =
        construct-Shows mode magic res tail es contents magic_fits count_fits names_fit valid f
          uninit s size (record { ready = ready; shows = shows }) in
      let (t, s', parsed, same_head, got, at, shows', kept) =
        parse_table-Shows mode magic res tail es contents magic_fits count_fits names_fit valid t0
          s0 head shows0 in
      (
        t,
        s',
        rw (made, parsed) refl,
        ap (λ (x : Header). x.magic) same_head,
        got,
        kept ∙ kept0,
        λ e. open_entry-view t s' e at shows'.ready shows'.shows,
      )
