-- ===== src/Containers/Make.antt =====
-- The part of src/vfs.cpp that makes a container of a file, and the containers as the tree sees them.
use fuse_nx.Prelude.{
  ℕ, ◌-◌, Bool, true, false, ◌&&◌, leb, List, [], ◌∷◌, ◌++◌, length, drop, replicate, Option, none,
  some,
}
use fuse_nx.Prelude.Slices.{slice}
use fuse_nx.Crypto.{Backend}
use fuse_nx.Io.{FileBase, Stream, Read, read, read_at, clone}
use fuse_nx.Io
use fuse_nx.Keyset.Text.{codes}
use fuse_nx.Keyset.Text
use fuse_nx.Keyset.Titles.{bytes_eq, set_title_key}
use fuse_nx.Formats.Table.{construct}
use fuse_nx.Formats.Pfs
use fuse_nx.Formats.Hfs
use fuse_nx.Romfs.Types.{Run, ok, fault, ◌>>=◌, lift}
use fuse_nx.Romfs.Tables
use fuse_nx.Romfs.Parse.{parse_root}
use fuse_nx.Nca
use fuse_nx.Xci
use fuse_nx.Hac.{match_format}
use fuse_nx.Hac
use fuse_nx.Vfs.Interface.{Interface}
use fuse_nx.Containers.{
  World, Container, FileItem, pfs, hfs, romfs, nca, xci, read_files, read_folders,
}

unfoldable pub ends_with : List ℕ → List ℕ → Bool
unfolding bytes_eq
ends_with suffix name =
    leb (length suffix) (length name) && bytes_eq (drop (length name - length suffix) name) suffix

abbrev pub tik_size : ℕ
tik_size = 0x2c0

module _ (b : Backend) (uninit : ℕ → List ℕ) where
  -- `try_load_ticket_key`, over the files of a container, with the line that it prints for each ticket;
  -- `uninit` is memory of so many bytes, of any content.
  unfoldable pub load_tickets : List FileItem → World → Run World
  unfolding ends_with read set_title_key
  load_tickets [] w = ok w
  load_tickets ((name, f, _) ∷ rest) w =
      elim (ends_with (codes ".tik") name && leb tik_size (Io.size f)) [
        | false ↦ load_tickets rest w
        | true ↦ do
          r ← lift (read b f (replicate tik_size 0) w.stream)
          load_tickets rest (record w {
            stream = r.stream;
            stdout =
                w.stdout
                ++ (codes "Detected ticket "
                    ++ (name ++ (codes ", loading title key" ++ (10 ∷ []))));
            keys = record (w.keys) {
              titles =
                  set_title_key w.keys.titles (slice 0x2a0 0x10 r.dest) (slice 0x180 0x10 r.dest);
            };
          })
      ]

  -- The constructor of each container on a file, and `parse`; `false` is a file that does not parse.
  unfoldable pub open_container :
      ℕ → Hac.Format → FileBase → World → Run (Bool × Option Container × World)
  unfolding construct Pfs.parse Hfs.parse Tables.romfs parse_root Nca.nca Nca.parse Xci.xci
      Xci.parse
  open_container k Hac.pfs f w = do
    (t, s) ← lift (construct b f (uninit 0x10) w.stream)
    (t', s') ← lift (Pfs.parse b t s)
    ok (true, some (pfs t'), record w { stream = s' })
  open_container k Hac.hfs f w = do
    (t, s) ← lift (construct b f (uninit 0x10) w.stream)
    (t', s') ← lift (Hfs.parse b t s)
    ok (true, some (hfs t'), record w { stream = s' })
  open_container k Hac.romfs f w = do
    (r, s) ← lift (Tables.romfs b f (uninit 0x50) w.stream)
    (r', s') ← parse_root b k false r s
    ok (
      true,
      some (romfs (length w.romfs) true (b'/' ∷ [])),
      record w { stream = s'; romfs = w.romfs ++ (r' ∷ []) },
    )
  open_container k Hac.nca f w = do
    (n, ctx, s) ← lift (
        Nca.nca b w.keys.console.header_key w.header_ctx f (uninit 0xc00) (0, uninit 0x10) w.stream)
    elim (Nca.parse b uninit w.keys.console w.keys.titles n s) [
      | Text.ok (parsed, n', s') ↦
          ok (parsed, some (nca n'), record w { stream = s'; header_ctx = some ctx })
      | Text.thrown ↦ fault
      | Text.fault ↦ fault
    ]
  open_container k Hac.xci f w = do
    (x, s) ← lift (Xci.xci b f (uninit 0x200) w.stream)
    (x', s') ← lift (Xci.parse b x (uninit 0x10) s)
    ok (true, some (xci x'), record w { stream = s' })
  open_container k Hac.unknown f w = ok (false, none, w)

  -- `File::make_container`, up to the folder that it makes: the file after the read of its first bytes,
  -- and the container if the file holds one that parses. Only a Pfs is searched for tickets.
  unfoldable pub make_container : ℕ → FileBase → World → Run (FileBase × Option Container × World)
  unfolding read_at match_format open_container load_tickets read_files
  make_container k f w = do
    r ← lift (read_at b 0 f (replicate 0x400 0) w.stream)
    (fmt, ctx) ← lift (match_format b w.keys.console.header_key w.header_ctx (uninit 0xc00) r.dest)
    let w1 : World = record w { stream = r.stream; header_ctx = ctx }
    (parsed, made, w2) ← open_container k fmt (clone r.after) w1
    elim made [
      | none ↦ ok (r.after, none, w2)
      | some c ↦ elim parsed [
        | false ↦ ok (r.after, none, w2)
        | true ↦ elim fmt [
          | Hac.pfs ↦ do
            (items, c', w3) ← read_files k c w2
            w4 ← load_tickets items w3
            ok (r.after, some c', w4)
          | _ ↦ ok (r.after, some c, w2)
        ]
      ]
    ]

  -- `File::read` of vfs.hpp.
  unfoldable pub read_file : ℕ → FileBase → List ℕ → World → Run (ℕ × List ℕ × FileBase × World)
  unfolding read_at
  read_file offset f dest w = do
    r ← lift (read_at b offset f dest w.stream)
    ok (r.count, r.dest, r.after, record w { stream = r.stream })

  -- The containers as the tree sees them, `k` rounds for each loop over a RomFs.
  unfoldable pub containers : ℕ → Interface Container World
  unfolding make_container read_files read_folders read_file
  containers k = record {
    make_container = make_container k;
    read_files = read_files k;
    read_folders = read_folders k;
    read_at = read_file;
  }
