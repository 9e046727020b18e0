-- ===== src/Options/Tests.antt =====
-- The program on a small container.
use fuse_nx.Prelude.{◌≡◌, refl, true, false, [], ◌∷◌, ◌++◌, none}
use fuse_nx.Io.{file}
use fuse_nx.Keyset.Text.{codes}
use fuse_nx.Romfs.Types.{ok}
use fuse_nx.Vfs.Toy.{toy}
use fuse_nx.Commands.Find.{Matchers}
use fuse_nx.Commands.Dump.{Disk}
use fuse_nx.Options.{list, run}

abbrev nothing : Matchers
nothing = record { regex = λ p c. none; fnmatch = λ p c name. false }

abbrev no_disk : Disk (Unit {0})
no_disk = record { create_directories = λ path d. (true, d); write_file = λ path d. none }

list_file :
    run toy nothing no_disk (λ s. 0) false (list 1) (file 0 2) tt tt
    ≡ ok (
      0,
      codes "/" ++ (10 ∷ codes "  d" ++ (10 ∷ codes "  d.x" ++ (10 ∷ codes "  g" ++ (10 ∷ [])))),
      tt,
    )
unfolding run
list_file = refl
