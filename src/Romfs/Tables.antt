-- ===== src/Romfs/Tables.antt =====
-- The constructor, and `read_tables`. The hash tables stay the bytes that they are read from.
use fuse_nx.Prelude.{ℕ, ◌*◌, ◌/◌, List, [], Option, some}
use fuse_nx.Crypto.{Backend}
use fuse_nx.Io.{FileBase, Stream, read_at}
use fuse_nx.Formats.Table.{resize, ◌>>=◌}
use fuse_nx.Romfs.Types.{RomFs, header_of}

module _ (b : Backend) where
  unfoldable pub romfs : FileBase → List ℕ → Stream → Option (RomFs × Stream)
  unfolding header_of
  romfs base uninit s = do
    r ← read_at b 0 base uninit s
    some (
      record {
        base = r.after;
        header = header_of r.dest;
        dir_hash_tbl = [];
        file_hash_tbl = [];
        dir_meta_tbl = [];
        file_meta_tbl = [];
        dir_entries = [];
        file_entries = [];
      },
      r.stream,
    )

  unfoldable pub read_tables : RomFs → Stream → Option (RomFs × Stream)
  unfolding resize
  read_tables r s = do
    let h = r.header
    dirs ← read_at b h.dir_tbl_off r.base (resize (h.dir_tbl_sz / 4 * 4) r.dir_hash_tbl) s
    files ←
        read_at b h.file_tbl_off dirs.after (resize (h.file_tbl_sz / 4 * 4) r.file_hash_tbl)
          dirs.stream
    dir_metas ←
        read_at b h.dir_meta_off files.after (resize h.dir_meta_sz r.dir_meta_tbl) files.stream
    file_metas ←
        read_at b h.file_meta_off dir_metas.after (resize h.file_meta_sz r.file_meta_tbl)
          dir_metas.stream
    some (
      record r {
        base = file_metas.after;
        dir_hash_tbl = dirs.dest;
        file_hash_tbl = files.dest;
        dir_meta_tbl = dir_metas.dest;
        file_meta_tbl = file_metas.dest;
      },
      file_metas.stream,
    )
