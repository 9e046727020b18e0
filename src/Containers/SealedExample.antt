-- ===== src/Containers/SealedExample.antt =====
-- A file with one encrypted section, in which a Pfs lies.
use mathlib.Core.Path.{subst}
use fuse_nx.Prelude.{
  ℕ, ◌+◌, ◌≤◌, ◌<◌, ◌^◌, ◌≡◌, refl, sym, arith, length-replicate, true, false, List, [], ◌∷◌, ◌++◌,
  map, length, replicate, get_elem?, none, some,
}
use fuse_nx.Prelude.Bytes.{to_le}
use fuse_nx.Prelude.Slices.{slice}
use fuse_nx.Utils.{is_nonzero}
use fuse_nx.ToyCipher.{toy, toy_run, toy_pad, toy-IsCtrMode}
use fuse_nx.Crypto.Ctr.{xor_from}
use fuse_nx.Io.{FileBase, Stream, file}
use fuse_nx.Io.View.{view, IsReady}
use fuse_nx.Keyset.Text.{codes}
use fuse_nx.Keyset.Text
use fuse_nx.Keys.{no_keys, no_titles}
use fuse_nx.Romfs.Types.{ok}
use fuse_nx.Nca.{
  Nca, existing, parse, with_body_key, is_supported, start_offset, end_offset, make_section_info,
}
use fuse_nx.Nca.Sections.{IsLaidOut, sealed, section_pad}
use fuse_nx.Nca.Contents.{AreLaidOut, AllShow, parse-AllShow}
use fuse_nx.Formats.Table.{Table, Entry}
use fuse_nx.Formats.Table.Layout.{table_of, entry_bytes}
use fuse_nx.Formats.Table.Parse.{image, header_bytes}
use fuse_nx.Formats.Pfs.{magic}
use fuse_nx.Formats.Pfs
use fuse_nx.Containers.{World, FileItem, pfs, nca, read_files}
use fuse_nx.Containers.Make.{make_container, ends_with}
use fuse_nx.Containers.Opens.{HaveNoTickets}
use fuse_nx.Containers.Nested.{nca_section-image}

abbrev files : List Entry
files =
    record { offset = 0; size = 1000; name = codes "a.x" }
    ∷ record { offset = 1000; size = 24; name = codes "b" }
    ∷ []

abbrev contents : List ℕ
contents = replicate 1024 7

unfoldable plain : List ℕ
unfolding header_bytes table_of entry_bytes to_le magic
plain = image magic 7 (replicate 4 9) files contents

-- One section from 0x200 on, of 0x446 bytes.
abbrev header : List ℕ
header =
    replicate 0x240 0
    ++ ((1 ∷ 0 ∷ 0 ∷ 0 ∷ 4 ∷ [])
        ++ (replicate 0x1bb 0
            ++ ((0 ∷ 0 ∷ 1 ∷ 2 ∷ 3 ∷ [])
                ++ (replicate 0x43 0
                    ++ ((0x46 ∷ 4 ∷ [])
                        ++ (replicate 0xf6 0 ++ ((5 ∷ []) ++ replicate 0x6bf 0)))))))

abbrev key : List ℕ
key = replicate 16 0

abbrev fs : List ℕ
fs = slice 0x400 0x200 header

unfoldable disk_bytes : List ℕ
unfolding plain sealed section_pad xor_from
disk_bytes = replicate 0x200 0 ++ sealed toy_pad key fs 0x200 plain

abbrev disk : World
disk = record {
  stream = record { contents = disk_bytes; at = 0 };
  keys = record { console = no_keys; titles = no_titles };
  header_ctx = none;
  romfs = [];
  search_containers = false;
  stdout = [];
}

abbrev memory : ℕ → List ℕ
memory n = replicate n 0xcc

abbrev content : Nca
content = record {
  base = file 0 0;
  header = header;
  has_rights_id = false;
  crypto_type = 0;
  body_key = [];
  num_sections = 1;
  sections = [];
}

keyed :
    with_body_key toy no_keys no_titles content ≡ Text.ok (true, record content { body_key = key })
unfolding with_body_key is_nonzero toy_run
keyed = refl

there : existing 4 0 header ≡ (slice 0x240 0x10 header, fs) ∷ []
unfolding existing
there = refl

disk_small : length disk_bytes < 2 ^ 63
unfolding disk_bytes plain
disk_small = omega arith

plain_long : 0x50 ≤ length plain
unfolding plain
plain_long = omega arith

fits : IsLaidOut toy_pad key (file 0 0) disk_bytes (slice 0x240 0x10 header) fs plain
unfolding disk_bytes plain make_section_info start_offset end_offset
fits = record {
  inside = omega arith;
  whole = refl;
  shown = refl;
  small = omega arith;
  aligned = λ e. (refl, tt);
}

files-HaveNoTickets : HaveNoTickets files
unfolding ends_with
files-HaveNoTickets = (refl, (refl, tt))

laid : AreLaidOut toy_pad key (file 0 0) disk_bytes (existing 4 0 header) (plain ∷ [])
unfolding is_supported
laid =
    subst (λ es. AreLaidOut toy_pad key (file 0 0) disk_bytes es (plain ∷ [])) (sym there)
      (refl, plain_long, fits, tt)

parse-AllShow_example :
    (n' : Nca) × (s' : Stream) × (parse toy memory no_keys no_titles content disk.stream
      ≡ Text.ok (true, n', s'))
    × (s'.contents ≡ disk_bytes)
    × (n'.num_sections ≡ 1)
    × AllShow toy_pad n'.sections disk_bytes (plain ∷ [])
parse-AllShow_example =
    parse-AllShow toy-IsCtrMode memory (λ n. length-replicate n 0xcc) no_keys no_titles content
      (record content { body_key = key }) disk.stream (plain ∷ []) keyed refl disk_small laid

nca_section-image_example :
    (n' : Nca) × (s' : Stream) × (items : List FileItem) × (item : FileItem) × (t : Table)
    × (f' : FileBase) × (w' : World) × (parse toy memory no_keys no_titles content disk.stream
        ≡ Text.ok (true, n', s'))
    × (read_files 9 (nca n') (record disk { stream = s' })
        ≡ ok (items, nca n', record disk { stream = s' }))
    × (get_elem? items 0 ≡ some item)
    × (make_container toy memory 9 item.1 (record disk { stream = s' }) ≡ ok (f', some (pfs t), w'))
    × (read_files 9 (pfs t) w'
        ≡ ok (map (λ (e : Entry). (e.name, Pfs.open_file t e, true)) files, pfs t, w'))
    × ((e : Entry)
        → e.offset + e.size ≤ length contents
        → IsReady toy_pad (Pfs.open_file t e) w'.stream.contents
          × (view toy_pad (Pfs.open_file t e) w'.stream.contents ≡ slice e.offset e.size contents))
unfolding plain
nca_section-image_example =
    nca_section-image toy-IsCtrMode memory (λ n. length-replicate n 0xcc) 9 no_keys no_titles
      content (record content { body_key = key }) disk (plain ∷ []) keyed refl refl (omega arith)
      disk_small laid 0 7 (replicate 4 9) files contents refl (omega arith) (omega arith)
      (omega arith) refl files-HaveNoTickets (omega arith)
