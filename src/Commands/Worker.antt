-- ===== src/Commands/Worker.antt =====
-- The worker of dump on the files of containers.
use fuse_nx.Prelude.{ℕ, ◌≡◌, List, length, length-replicate}
use fuse_nx.Prelude.Slices.{slice, overwrite}
use fuse_nx.Crypto.{Backend}
use fuse_nx.Crypto.Ctr.{IsCtrMode}
use fuse_nx.Io.{FileBase, size}
use fuse_nx.Io.View.{view, IsReady, IsPlain}
use fuse_nx.Romfs.Types.{ok}
use fuse_nx.Containers.{World}
use fuse_nx.Containers.Make.{read_file}
use fuse_nx.Commands.Dump.{buffer}

pub length-buffer : (n : ℕ) → length (buffer n) ≡ n
unfolding buffer
length-buffer n = length-replicate n 0

module _ {b : Backend} {pad : List ℕ → ℕ → ℕ → ℕ} (mode : IsCtrMode b pad) where
  -- A file that does not decrypt itself, with windows that lie within their bases, stands for some bytes,
  -- as many as its size says.
  abbrev pub Shows : FileBase → World → List ℕ → Type 0
  Shows f w xs =
      IsPlain f
      × IsReady pad f w.stream.contents
      × (view pad f w.stream.contents ≡ xs)
      × (size f ≡ length xs)

  -- A read of such a file, as `IsReader` asks for it.
  abbrev ReadsFile : (ℕ → List ℕ) → ℕ → List ℕ → FileBase → World → List ℕ → Type 0
  ReadsFile uninit p buf f w xs =
      (f' : FileBase) × (w' : World) × (read_file b uninit p f buf w
        ≡ ok (length (slice p (length buf) xs), overwrite buf (slice p (length buf) xs), f', w'))
      × Shows f' w' xs
