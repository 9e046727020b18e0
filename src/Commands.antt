-- ===== src/Commands.antt =====
-- src/context.hpp and the commands find, list and dump over the tree.
pub mod Find
pub mod Listing
pub mod Dump
pub mod Copy
pub mod Worker
pub mod Threads
pub mod Nodes
pub mod Course
pub mod Progress
pub mod Schedules
pub mod Interleaved
pub mod Prefixes
pub mod Printed
mod Tests
mod ThreadTests
use fuse_nx.Prelude.{ℕ, Bool, List, [], ◌∷◌, Option, none, some}
use fuse_nx.Io.{FileBase}
use fuse_nx.Romfs.Types.{Run, ok, fault, out_of_fuel, ◌>>=◌}
use fuse_nx.Vfs.Interface.{Interface}
use fuse_nx.Vfs.Tree.{FileSystem, get_folder, file_system}

-- `Context::Context`: without a root the program exits. The three commands set `keep_raw` afterwards, to
-- `raw`; before that it has any value, `keep`.
unfoldable pub context :
    {C W : Type 0} → Interface C W → Bool → Bool → FileBase → W → Run (Option (FileSystem C W))
unfolding file_system get_folder
context ops keep raw base w = do
  s ← file_system ops keep base w
  elim (get_folder (b'/' ∷ []) s) [
    | none ↦ ok none
    | some i ↦ ok (some (record s { keep_raw = raw }))
  ]
