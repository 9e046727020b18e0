-- ===== src/Commands/ThreadTests.antt =====
-- Two threads of dump on a small file system.
use fuse_nx.Prelude.{ℕ, ◌≡◌, refl, arith, true, false, List, [], ◌∷◌, map, get_elem?, none, some}
use fuse_nx.Keyset.Text.{codes}
use fuse_nx.ToyCipher
use fuse_nx.ToyCipher.{toy_pad, toy-IsCtrMode}
use fuse_nx.Io.{file, offset_file, size}
use fuse_nx.Romfs.Types.{Run, ok}
use fuse_nx.Vfs.Tree.{FileSystem, get_file}
use fuse_nx.Keys.{no_keys, no_titles}
use fuse_nx.Containers.{World, Container}
use fuse_nx.Commands.Threads.{Copy, Thread, copying, reading, interleave}
use fuse_nx.Commands.Course.{Job}
use fuse_nx.Commands.Interleaved.{IsPlan, start}
use fuse_nx.Commands.Prefixes.{HasPrefix, interleaved_targets_are_prefixes}

abbrev shared : FileSystem Container World
shared = record {
  keep_raw = true;
  files = (codes "/f", 0) ∷ (codes "/g", 1) ∷ [];
  folders = [];
  file_nodes =
      record { name = codes "f"; base = offset_file 0 3 (file 0 5) 1 }
      ∷ record { name = codes "g"; base = offset_file 0 2 (file 0 5) 0 }
      ∷ [];
  folder_nodes = [];
  world = record {
    stream = record { contents = 5 ∷ 6 ∷ 7 ∷ 8 ∷ 9 ∷ []; at = 0 };
    keys = record { console = no_keys; titles = no_titles };
    header_ctx = none;
    romfs = [];
    search_containers = false;
    stdout = [];
  };
}

abbrev jobs : List Job
jobs =
    record { path = codes "/f"; src = 0; bytes = 6 ∷ 7 ∷ 8 ∷ [] }
    ∷ record { path = codes "/g"; src = 1; bytes = 5 ∷ 6 ∷ [] }
    ∷ []

-- Each seeks before the other reads.
abbrev order : List ℕ
order = 0 ∷ 1 ∷ 0 ∷ 1 ∷ 0 ∷ 1 ∷ 1 ∷ 0 ∷ []

plan : IsPlan toy-IsCtrMode (λ p. true) (codes "out") shared jobs
unfolding get_file size
plan = (
  refl,
  (
    record { name = codes "f"; base = offset_file 0 3 (file 0 5) 1 },
    refl,
    (tt, (omega arith, omega arith), refl, refl),
  ),
  ((λ h. absurd (omega (arith, h))), tt),
  (
    refl,
    (
      record { name = codes "g"; base = offset_file 0 2 (file 0 5) 0 },
      refl,
      (tt, (omega arith, omega arith), refl, refl),
    ),
    tt,
    tt,
  ),
)

-- The first file has been read, the second has not.
interleaved_targets_are_prefixes_example :
    (ts : List Thread) × (s' : FileSystem Container World) × (t : Thread) × (interleave
        ToyCipher.toy
        (λ p. true)
        (codes "out")
        (0 ∷ 1 ∷ 0 ∷ 1 ∷ 0 ∷ [])
        (map start jobs)
        shared
      ≡ ok (ts, s'))
    × (get_elem? ts 0 ≡ some t)
    × HasPrefix (record { path = codes "/f"; src = 0; bytes = 6 ∷ 7 ∷ 8 ∷ [] }) t
interleaved_targets_are_prefixes_example =
    interleaved_targets_are_prefixes toy-IsCtrMode (λ p. true) (codes "out")
      (0 ∷ 1 ∷ 0 ∷ 1 ∷ 0 ∷ []) shared jobs 0
      (record { path = codes "/f"; src = 0; bytes = 6 ∷ 7 ∷ 8 ∷ [] }) plan refl

-- Two copies of one node, as for a path that the command line names twice: one seeks between the other's
-- `seek` and `read`, which then reads the end of the file in place of its beginning.
abbrev copy_from : ℕ → Copy
copy_from offset = record {
  path = codes "/f";
  src = 0;
  buf = 0 ∷ 0 ∷ [];
  offset = offset;
  written = [];
}

abbrev threads_of : Run (List Thread × FileSystem Container World) → List Thread
threads_of (ok (ts, s)) = ts
threads_of _ = []

race :
    threads_of (
      interleave ToyCipher.toy
        (λ p. true)
        (codes "out")
        (0 ∷ 1 ∷ 0 ∷ [])
        (copying (copy_from 0) ∷ copying (copy_from 2) ∷ [])
        shared)
    ≡ copying
        (record { path = codes "/f"; src = 0; buf = 8 ∷ 0 ∷ []; offset = 1; written = 8 ∷ [] })
      ∷ reading (copy_from 2)
      ∷ []
unfolding interleave
race = refl
