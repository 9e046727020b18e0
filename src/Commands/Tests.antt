-- ===== src/Commands/Tests.antt =====
-- The commands on small trees.
use fuse_nx.Prelude.{ℕ, ◌≤◌, ◌≡◌, refl, true, false, List, [], ◌∷◌, ◌++◌, none, some}
use fuse_nx.Keyset.Text.{codes}
use fuse_nx.Keyset.Titles.{bytes_eq}
use fuse_nx.ToyCipher
use fuse_nx.ToyCipher.{toy_pad}
use fuse_nx.Io.{file, offset_file}
use fuse_nx.Romfs.Types.{Run, ok}
use fuse_nx.Vfs.Tree.{FileSystem, File}
use fuse_nx.Vfs.Toy.{toy, tree}
use fuse_nx.Commands.Find.{Options, Matchers, Found, run}
use fuse_nx.Commands.Listing
use fuse_nx.Commands.Dump.{Disk}
use fuse_nx.Commands.Printed.{Printed, IsMatch, run_prints}
use fuse_nx.Keys.{no_keys, no_titles}
use fuse_nx.Containers.{World, Container}

-- A pattern that is the name itself.
abbrev exact : Matchers
exact = record { regex = λ p c. none; fnmatch = λ p c name. bytes_eq p name }

abbrev options : Options
options = record {
  start = codes "/";
  max_count = 3;
  depth = 9;
  is_regex = false;
  case_insensitive = false;
  null_terminator = false;
}

abbrev state_of : {A : Type 0} → Run (ℕ × A × FileSystem ℕ (Unit {0})) → FileSystem ℕ (Unit {0})
state_of (ok (code, t, s)) = s
state_of _ = tree

abbrev hit : Found
hit = record { count = 1; output = codes "/d/f" ++ (10 ∷ []) }

find_tree :
    run toy exact (codes "f") options tree
    ≡ ok (0, hit, state_of (run toy exact (codes "f") options tree))
unfolding run
find_tree = refl

run_prints_example :
    (1 ≤ 3) × Printed (IsMatch toy exact (codes "f") options) 10 1 (codes "/d/f" ++ (10 ∷ []))
run_prints_example =
    run_prints toy exact (codes "f") options tree
      (state_of (run toy exact (codes "f") options tree)) 0 hit find_tree

list_tree :
    Listing.run toy 9 tree
    ≡ ok (
      0,
      codes "/"
          ++ (10 ∷ codes "  d"
              ++ (10 ∷ codes "    f" ++ (10 ∷ codes "  d.x" ++ (10 ∷ codes "  g" ++ (10 ∷ []))))),
      state_of (Listing.run toy 9 tree),
    )
unfolding Listing.run
list_tree = refl

-- A disk that keeps what is written, and to what path.
abbrev keeping : Disk (List (List ℕ × List ℕ))
keeping = record {
  create_directories = λ path d. (false, d);
  write_file = λ path d. some (λ bytes. (path, bytes) ∷ d);
}

abbrev world : World
world = record {
  stream = record { contents = 5 ∷ 6 ∷ 7 ∷ 8 ∷ 9 ∷ []; at = 0 };
  keys = record { console = no_keys; titles = no_titles };
  header_ctx = none;
  romfs = [];
  search_containers = false;
  stdout = [];
}

-- A file of three bytes of the disk.
abbrev source : File
source = record { name = codes "f"; base = offset_file 0 3 (file 0 5) 1 }

abbrev dumped : FileSystem Container World
dumped = record {
  keep_raw = true;
  files = (codes "/f", 0) ∷ [];
  folders = [];
  file_nodes = source ∷ [];
  folder_nodes = [];
  world = world;
}
