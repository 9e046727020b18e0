-- ===== src/Vfs/Interface.antt =====
-- What the tree asks of containers.
use fuse_nx.Prelude.{ℕ, Bool, List, Option}
use fuse_nx.Io.{FileBase}
use fuse_nx.Romfs.Types.{Run}

-- For containers `C` in a world `W`: `File::make_container` up to the folder, `read_files` and
-- `read_folders` of a container, and `read_at` of a file: the count, the buffer and the file after it.
pub record Interface (C W : Type 0) : Type 0 where
  pub make_container : FileBase → W → Run (FileBase × Option C × W)
  pub read_files : C → W → Run (List (List ℕ × FileBase × Bool) × C × W)
  pub read_folders : C → W → Run (List (List ℕ × C) × C × W)
  pub read_at : ℕ → FileBase → List ℕ → W → Run (ℕ × List ℕ × FileBase × W)
