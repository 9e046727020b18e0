-- ===== src/Containers/Tests.antt =====
-- An archive on disk, opened as a container.
use fuse_nx.Prelude.{
  ℕ, ◌+◌, ◌≤◌, ◌<◌, ◌⊎◌, ◌≡◌, refl, arith, true, false, List, [], ◌∷◌, map, length, replicate, none,
  some,
}
use fuse_nx.Prelude.Bytes.{to_le}
use fuse_nx.Prelude.Slices.{slice}
use fuse_nx.ToyCipher.{toy, toy_pad, toy-IsCtrMode}
use fuse_nx.Io.{FileBase, file}
use fuse_nx.Io.View.{view, IsReady}
use fuse_nx.Keyset.Text.{codes}
use fuse_nx.Keys.{no_keys, no_titles}
use fuse_nx.Romfs.Types.{ok, fault}
use fuse_nx.Nca.{Nca, Section, SectionType, as_pfs}
use fuse_nx.Formats.Table.{Table, Entry}
use fuse_nx.Formats.Table.Layout.{table_of, entry_bytes}
use fuse_nx.Formats.Table.Parse.{image, header_bytes}
use fuse_nx.Formats.Pfs.{magic}
use fuse_nx.Formats.Pfs
use fuse_nx.Containers.Sections.{read_files-nca}
use fuse_nx.Containers.{World, FileItem, pfs, nca, read_files}
use fuse_nx.Containers.Make.{make_container, ends_with}
use fuse_nx.Containers.Opens.{HaveNoTickets, make_container-image}

abbrev files : List Entry
files =
    record { offset = 0; size = 1000; name = codes "a.x" }
    ∷ record { offset = 1000; size = 24; name = codes "b" }
    ∷ []

abbrev contents : List ℕ
contents = replicate 1024 7

abbrev disk : World
disk = record {
  stream = record { contents = image magic 7 (replicate 4 9) files contents; at = 0 };
  keys = record { console = no_keys; titles = no_titles };
  header_ctx = none;
  romfs = [];
  search_containers = false;
  stdout = [];
}

abbrev memory : ℕ → List ℕ
memory n = replicate n 0xcc

files-HaveNoTickets : HaveNoTickets files
unfolding ends_with
files-HaveNoTickets = (refl, (refl, tt))

make_container-image_example :
    (t : Table) × (f' : FileBase) × (w' : World) × (make_container toy memory 9 (file 0 0) disk
      ≡ ok (f', some (pfs t), w'))
    × (w'.keys ≡ disk.keys)
    × (w'.stream.contents ≡ disk.stream.contents)
    × (read_files 9 (pfs t) w'
        ≡ ok (map (λ (e : Entry). (e.name, Pfs.open_file t e, true)) files, pfs t, w'))
    × ((e : Entry)
        → e.offset + e.size ≤ length contents
        → IsReady toy_pad (Pfs.open_file t e) w'.stream.contents
          × (view toy_pad (Pfs.open_file t e) w'.stream.contents ≡ slice e.offset e.size contents))
unfolding header_bytes table_of entry_bytes to_le magic
make_container-image_example =
    make_container-image toy-IsCtrMode memory 9 7 (replicate 4 9) files contents (file 0 0) disk
      refl (omega arith) (omega arith) (omega arith) refl files-HaveNoTickets (omega arith) refl
      (omega arith)

abbrev torn_section : Section
torn_section = record {
  type = SectionType.pfs;
  offset = 0;
  size = 0;
  container = as_pfs (record {
    base = file 0 0;
    header = record { magic = 0; num_files = 0; string_table_size = 0 };
    strings_offset = 0;
    data_offset = 0;
    entries = [];
    names_table = [];
  });
}

-- An Nca one of whose two sections was left out.
abbrev torn : Nca
torn = record {
  base = file 0 0;
  header = [];
  has_rights_id = false;
  crypto_type = 0;
  body_key = [];
  num_sections = 2;
  sections = torn_section ∷ [];
}

read_files-nca_example :
    ((length torn.sections ≡ torn.num_sections)
      × (items : List FileItem) × (read_files 9 (nca torn) disk ≡ ok (items, nca torn, disk))
      × (length items ≡ torn.num_sections))
    ⊎ ((length torn.sections < torn.num_sections) × (read_files 9 (nca torn) disk ≡ fault))
read_files-nca_example = read_files-nca 9 torn disk (omega arith) (omega arith)
