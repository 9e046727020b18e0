-- ===== src/Vfs/Toy.antt =====
-- Containers for tests and examples: a number is how deep a container goes.
use fuse_nx.Prelude.{ℕ, zero, suc, Bool, true, false, List, [], ◌∷◌, Option, none, some}
use fuse_nx.Io.{FileBase, file}
use fuse_nx.Keyset.Text.{codes}
use fuse_nx.Romfs.Types.{ok}
use fuse_nx.Vfs.Interface.{Interface}
use fuse_nx.Vfs.Tree.{FileSystem}

abbrev made : FileBase → Option ℕ
made (file pos (suc n)) = some n
made _ = none

abbrev held : ℕ → List (List ℕ × FileBase × Bool)
held zero = (codes "f", file 0 0, false) ∷ []
held (suc n) = (codes "d.x", file 0 (suc n), true) ∷ (codes "g", file 0 7, false) ∷ []

abbrev pub toy : Interface ℕ (Unit {0})
toy = record {
  make_container = λ f w. ok (f, made f, w);
  read_files = λ c w. ok (held c, c, w);
  read_folders = λ c w. ok ([], c, w);
  read_at = λ p f buf w. ok (0, buf, f, w);
}

-- A root that has not been looked into.
abbrev pub tree : FileSystem ℕ (Unit {0})
tree = record {
  keep_raw = true;
  files = [];
  folders = (codes "/", 0) ∷ [];
  file_nodes = [];
  folder_nodes =
      record { name = []; processed = false; base = some 1; files = []; children = [] } ∷ [];
  world = tt;
}
