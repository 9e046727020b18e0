-- ===== src/Containers/Opens.antt =====
-- A file that shows a Pfs becomes a folder of its entries.
use mathlib.Core.Path.{subst}
use fuse_nx.Prelude.{
  ℕ, ◌+◌, ◌≤◌, ◌<◌, ◌^◌, ◌≡◌, refl, sym, ap, ◌∙◌, arith, Bool, true, false, ◌==◌, List, [], ◌∷◌,
  map, length, replicate, Option, none, some, append_assoc, length-replicate,
}
use fuse_nx.Prelude.Bytes.{field_at, le, to_le, length-to_le, le-to_le}
use fuse_nx.Prelude.Slices.{slice, take-take}
use fuse_nx.Crypto.{Backend}
use fuse_nx.Crypto.Xts.{AesXts}
use fuse_nx.Crypto.Ctr.{IsCtrMode}
use fuse_nx.Io.{FileBase, Stream, Read, read_at, clone}
use fuse_nx.Io.View.{view, IsReady}
use fuse_nx.Io.Clone.{clone-view, clone-IsReady}
use fuse_nx.Io.Reads.{read_at-view}
use fuse_nx.Keyset.Text.{codes}
use fuse_nx.Formats.Table.{Table, Entry, construct, parse_table, load, ◌>>=◌ as ◌>>?◌}
use fuse_nx.Formats.Table.Layout.{names_of, AreEntries, field_at_head}
use fuse_nx.Formats.Table.Parse.{image, header_bytes}
use fuse_nx.Formats.Pfs.{magic, matches, is_valid, load_pfs, load_pfs-image}
use fuse_nx.Formats.Pfs
use fuse_nx.Romfs.Types.{Run, ok, ◌>>=◌, lift}
use fuse_nx.Hac.{match_format}
use fuse_nx.Hac
use fuse_nx.Containers.{World, Container, FileItem, pfs, table_files, read_files}
use fuse_nx.Containers.Make.{ends_with, load_tickets, open_container, make_container}

-- The first bytes of an archive are those of a Pfs.
matches-image :
    (res : ℕ) (tail : List ℕ) (es : List Entry) (contents : List ℕ) (n : ℕ)
    → 4 ≤ n
    → matches (slice 0 n (image magic res tail es contents)) ≡ true
unfolding matches magic header_bytes
matches-image res tail es contents n h =
    ap (λ v. v == magic)
      (ap le (take-take 4 n (image magic res tail es contents) h)
        ∙ ap (field_at 0 4) (append_assoc (to_le 4 magic) _ _)
        ∙ field_at_head 4 (to_le 4 magic) _ (length-to_le 4 magic)
        ∙ le-to_le 4 magic (omega arith))
    ∙ refl

-- Names that no ticket has.
abbrev pub HaveNoTickets : List Entry → Type 0
HaveNoTickets [] = Unit
HaveNoTickets (e ∷ es) = (ends_with (codes ".tik") e.name ≡ false) × HaveNoTickets es

module _ (b : Backend) (uninit : ℕ → List ℕ) where
  load_tickets_none_found :
      (open_file : Entry → FileBase) (es : List Entry) (w : World)
      → HaveNoTickets es
      → load_tickets b uninit (map (λ (e : Entry). (e.name, open_file e, true)) es) w ≡ ok w
  unfolding load_tickets
  load_tickets_none_found open_file [] w h = refl
  load_tickets_none_found open_file (e ∷ es) w h =
      rw (h.0, load_tickets) (load_tickets_none_found open_file es w h.1)

  abbrev opened : World → Table × Stream → Run (Bool × Option Container × World)
  opened w q = ok (true, some (pfs q.0), record w { stream = q.1 })

  open_container-load :
      (k : ℕ) (f : FileBase) (w : World) (t : Table) (s : Stream)
      → load_pfs b f (uninit 0x10) w.stream ≡ some (t, s)
      → open_container b uninit k Hac.pfs f w ≡ opened w (t, s)
  unfolding open_container load_pfs load Pfs.parse
  open_container-load k f w t s e =
      together (construct b f (uninit 0x10) w.stream) ∙ ap (λ o. lift o >>= opened w) e
    where
      together :
          (o : Option (Table × Stream))
          → (lift o >>= λ r. lift (parse_table b 0x18 r.0 r.1) >>= opened w)
            ≡ (lift (o >>? λ r. parse_table b 0x18 r.0 r.1) >>= opened w)
      together none = refl
      together (some r) = refl

  make_container-pfs :
      (k : ℕ) (f : FileBase) (w : World) (r : Read) (ctx : Option AesXts) (t : Table) (s : Stream)
      (items : List FileItem)
      → read_at b 0 f (replicate 0x400 0) w.stream ≡ some r
      → match_format b w.keys.console.header_key w.header_ctx (uninit 0xc00) r.dest
        ≡ some (Hac.pfs, ctx)
      → open_container b uninit k Hac.pfs
          (clone r.after)
          (record w { stream = r.stream; header_ctx = ctx })
        ≡ opened (record w { stream = r.stream; header_ctx = ctx }) (t, s)
      → table_files Pfs.open_file t ≡ items
      → load_tickets b uninit items (record w { stream = s; header_ctx = ctx })
        ≡ ok (record w { stream = s; header_ctx = ctx })
      → make_container b uninit k f w
        ≡ ok (r.after, some (pfs t), record w { stream = s; header_ctx = ctx })
  unfolding make_container read_files
  make_container-pfs k f w r ctx t s items reads fits opens lists tickets =
      rw (reads, make_container)
        (rw (fits, ◌>>=◌) (rw (opens, ◌>>=◌) (rw (lists, ◌>>=◌) (rw (tickets, ◌>>=◌) refl))))

-- On any file that shows a Pfs image of at least the bytes that are looked at, and none of whose names is a
-- ticket's, `make_container` returns a Pfs container, whatever the memory it reads into held before: its
-- `read_files` lists the laid-out entries in order, each that lies within the data as a file of exactly the
-- entry's bytes, and the keys and the bytes on disk are as before.
pub make_container-image :
    {b : Backend} {pad : List ℕ → ℕ → ℕ → ℕ}
    → IsCtrMode b pad
    → (uninit : ℕ → List ℕ) (k res : ℕ) (tail : List ℕ) (es : List Entry) (contents : List ℕ)
    → (f : FileBase) (w : World) → length (uninit 0x10) ≡ 16
    → length es < 2 ^ 32
    → length (names_of es) < 2 ^ 32
    → AreEntries es
    → length tail ≡ 4
    → HaveNoTickets es
    → IsReady pad f w.stream.contents
    → view pad f w.stream.contents ≡ image magic res tail es contents
    → 0x400 ≤ length (image magic res tail es contents)
    → (t : Table) × (f' : FileBase) × (w' : World) × (make_container b uninit k f w
        ≡ ok (f', some (pfs t), w'))
      × (w'.keys ≡ w.keys)
      × (w'.stream.contents ≡ w.stream.contents)
      × (read_files k (pfs t) w'
          ≡ ok (map (λ (e : Entry). (e.name, Pfs.open_file t e, true)) es, pfs t, w'))
      × ((e : Entry)
          → e.offset + e.size ≤ length contents
          → IsReady pad (Pfs.open_file t e) w'.stream.contents
            × (view pad (Pfs.open_file t e) w'.stream.contents ≡ slice e.offset e.size contents))
unfolding match_format read_files table_files
make_container-image {b} {pad} mode uninit k res tail es contents f w size count names valid
      tail_size plain ready shows long =
    let buf : List ℕ = replicate 0x400 0 in
    let n = length-replicate {A = ℕ} 0x400 0 in
    let (r, reads, got, _, kept, ready1, same) =
      read_at-view mode f 0 buf w.stream ready (omega (arith, n, ap length shows, long)) in
    let w1 : World = record w { stream = r.stream } in
    let fits : matches r.dest ≡ true =
      ap matches (got ∙ ap (slice 0 (length buf)) shows)
      ∙ matches-image res tail es contents (length buf) (omega (arith, n)) in
    let (t, s, loaded, _, entries, kept2, opens) =
      load_pfs-image mode res tail es contents (clone r.after) (uninit 0x10) r.stream count names
        valid tail_size size
        (clone-IsReady pad r.stream.contents r.after
          (subst (IsReady pad r.after) (sym kept) ready1))
        (clone-view pad r.stream.contents r.after ∙ ap (view pad r.after) kept ∙ same ∙ shows) in
    let items = map (λ (e : Entry). (e.name, Pfs.open_file t e, true)) es in
    let lists : table_files Pfs.open_file t ≡ items =
      ap (map (λ (e : Entry). (e.name, Pfs.open_file t e, true))) entries in
    let w' : World = record w { stream = s } in
    (
      t,
      r.after,
      w',
      make_container-pfs b uninit k f w r w.header_ctx t s items reads
          (rw (fits, match_format) refl)
          (open_container-load b uninit k (clone r.after) w1 t s loaded) lists
          (load_tickets_none_found b uninit (Pfs.open_file t) es w' plain),
      refl,
      kept2 ∙ kept,
      ap (λ is. ok (is, pfs t, w')) lists,
      opens,
    )
