-- ===== src/Options.antt =====
-- src/options.hpp: what the program does with its options.
pub mod Start
mod Tests
use fuse_nx.Prelude.{ℕ, Bool, true, false, if◌then◌else◌, List, [], ◌∷◌, Option, none, some}
use fuse_nx.Io.{FileBase}
use fuse_nx.Romfs.Types.{Run, ok, fault, out_of_fuel, ◌>>=◌}
use fuse_nx.Vfs.Interface.{Interface}
use fuse_nx.Vfs.Tree.{FileSystem}
use fuse_nx.Fuse
use fuse_nx.Commands.{context}
use fuse_nx.Commands.Find.{Matchers}
use fuse_nx.Commands.Find
use fuse_nx.Commands.Listing
use fuse_nx.Commands.Dump.{Disk}
use fuse_nx.Commands.Dump

-- The subcommand that was parsed, with its options. A mount has `--keep-raw`.
pub data Command : Type 0 where
  mount : Bool → Command
  find : List ℕ → Find.Options → Command
  dump : ℕ → ℕ → List ℕ → List (List ℕ) → Command
  list : ℕ → Command

module _ {C W D : Type 0} (ops : Interface C W) (ms : Matchers) (disk : Disk D)
    (fuse_main : FileSystem C W → ℕ) where
  -- What a subcommand does with the tree: the exit code, what it prints, and the disk.
  unfoldable pub run_on : Command → FileSystem C W → D → Run (ℕ × List ℕ × D)
  unfolding Fuse.run Find.run Listing.run Dump.run
  run_on (mount keep_raw) s d = do s' ← Fuse.run keep_raw s; ok (fuse_main s', [], d)
  run_on (find pattern options) s d = do
    (code, t, _) ← Find.run ops ms pattern options s
    ok (code, t.output, d)
  run_on (dump k depth dest paths) s d = do
    (code, d', _) ← Dump.run ops disk dest k depth paths d s
    ok (code, [], d')
  run_on (list depth) s d = do (code, out, _) ← Listing.run ops depth s; ok (code, out, d)

  -- `ProgramOptions::run` behind the `init`s: the context of the subcommand, on a file, and its `run`. The
  -- exit code is 1 if the file is no container. The constructor of a mount leaves `keep_raw`, which its
  -- `run` sets.
  unfoldable pub run : Bool → Command → FileBase → W → D → Run (ℕ × List ℕ × D)
  unfolding context run_on
  run keep command base w d = do
    opt ← context ops keep true base w
    elim opt [ none ↦ ok (1, [], d) | some s ↦ run_on command s d ]
