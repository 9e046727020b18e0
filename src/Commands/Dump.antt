-- ===== src/Commands/Dump.antt =====
-- src/dump.cpp. What it does to the disk goes through `Disk`.
use fuse_nx.Prelude.{
  ℕ, zero, suc, ◌+◌, Bool, true, false, ltb, leb, List, [], ◌∷◌, ◌++◌, length, take, replicate,
  get_elem?, Option, none, some,
}
use fuse_nx.Prelude.Words.{u64}
use fuse_nx.Io.{FileBase, size}
use fuse_nx.Romfs.Types.{Run, ok, fault, out_of_fuel, ◌>>=◌, lift}
use fuse_nx.Vfs.Path.{parent_path}
use fuse_nx.Vfs.Interface.{Interface}
use fuse_nx.Vfs.Tree.{FileSystem, get_file, find_folder, set_base}
use fuse_nx.Vfs.Walk.{Callback, walk}

-- The host's disk: `create_directories` tells whether it failed; a file that cannot be opened for writing
-- is `none`, one that can is written at once.
pub record Disk (D : Type 0) : Type 0 where
  pub create_directories : List ℕ → D → Bool × D
  pub write_file : List ℕ → D → Option (List ℕ → D)

abbrev pub chunk : ℕ
chunk = 0x400000

-- `std::vector<std::uint8_t>(n)`.
unfoldable pub buffer : ℕ → List ℕ
buffer n = replicate n 0

module _ {C W : Type 0} (ops : Interface C W) where
  -- The loop of the worker, from an offset on, at most `k` rounds: the bytes that are written.
  unfoldable pub copy : ℕ → ℕ → FileBase → List ℕ → W → Run (List ℕ × FileBase × W)
  unfolding size
  copy zero offset f buf w = elim (ltb offset (size f)) [
    | true ↦ out_of_fuel
    | false ↦ ok ([], f, w)
  ]
  copy (suc k) offset f buf w = elim (ltb offset (size f)) [
    | false ↦ ok ([], f, w)
    | true ↦ do
      (count, buf', f', w') ← ops.read_at offset f buf w
      elim (leb count (length buf')) [
        | false ↦ fault
        | true ↦ do
          (rest, f'', w'') ← copy k (u64 (offset + count)) f' buf' w'
          ok (take count buf' ++ rest, f'', w'')
      ]
  ]

  module _ {D : Type 0} (disk : Disk D) (dest : List ℕ) where
    -- The worker on one path; the buffer starts with zeros.
    unfoldable pub worker : ℕ → List ℕ → D → FileSystem C W → Run (D × FileSystem C W)
    unfolding get_file copy set_base
    worker k path d s = do
      i ← lift (get_file path s)
      src ← lift (get_elem? s.file_nodes i)
      elim (disk.write_file (dest ++ path) d) [
        | none ↦ ok (d, s)
        | some store ↦ do
          (bytes, f, w) ← copy k 0 src.base (buffer chunk) s.world
          ok (store bytes, set_base i f (record s { world = w }))
      ]

    -- The state of the callbacks: the queue of the pool, and the disk.
    unfoldable pub on_folder : Callback (List (List ℕ) × D)
    on_folder path (queue, d) =
        let (failed, d') = disk.create_directories (dest ++ path) d in (failed, (queue, d'))

    unfoldable pub on_file : Callback (List (List ℕ) × D)
    on_file path (queue, d) = (false, (queue ++ (path ∷ []), d))

    -- The loop over the paths of the command line; `true` is the early return.
    unfoldable pub queue_paths :
        ℕ
        → List (List ℕ)
        → List (List ℕ) × D
        → FileSystem C W
        → Run (Bool × (List (List ℕ) × D) × FileSystem C W)
    unfolding find_folder walk get_file on_folder on_file parent_path
    queue_paths depth [] t s = ok (false, t, s)
    queue_paths depth (path ∷ paths) t s = do
      (found, s1) ← find_folder ops path s
      elim found [
        | some i ↦
            let (failed, t1) = on_folder path t in
            elim failed [
              | true ↦ ok (true, t1, s1)
              | false ↦ do
                (stop, t2, s2) ← walk ops on_folder on_file depth path t1 s1
                elim stop [ true ↦ ok (true, t2, s2) | false ↦ queue_paths depth paths t2 s2 ]
            ]
        | none ↦ elim (get_file path s1) [
          | none ↦ queue_paths depth paths t s1
          | some i ↦
              let (failed, t1) = on_folder (parent_path path) t in
              elim failed [
                | true ↦ ok (true, t1, s1)
                | false ↦ queue_paths depth paths (on_file path t1).1 s1
              ]
        ]
      ]

    unfoldable pub drain : ℕ → List (List ℕ) → D → FileSystem C W → Run (D × FileSystem C W)
    unfolding worker
    drain k [] d s = ok (d, s)
    drain k (path ∷ queue) d s = do (d', s') ← worker k path d s; drain k queue d' s'

    -- The exit code, and the disk. The workers run in the order of the queue, one at a time and after the
    -- walk; with the early return none has run yet.
    unfoldable pub run : ℕ → ℕ → List (List ℕ) → D → FileSystem C W → Run (ℕ × D × FileSystem C W)
    unfolding queue_paths drain
    run k depth paths d s = do
      (stop, t, s1) ← queue_paths depth paths ([], d) s
      elim stop [
        | true ↦ ok (1, t.1, s1)
        | false ↦ do (d', s2) ← drain k t.0 t.1 s1; ok (0, d', s2)
      ]
