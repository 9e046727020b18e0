-- ===== src/Commands/Threads.antt =====
-- The threads of dump's pool, src/dump.cpp, between whose steps those of the others run.
use fuse_nx.Prelude.{
  ℕ, zero, suc, ◌+◌, Bool, true, false, ltb, leb, List, [], ◌∷◌, ◌++◌, length, take, get_elem?,
}
use fuse_nx.Prelude.Words.{u64}
use fuse_nx.Crypto.{Backend}
use fuse_nx.Io.{size, seek, set, read}
use fuse_nx.Romfs.Types.{Run, ok, fault, ◌>>=◌, lift}
use fuse_nx.Vfs.Tree.{FileSystem, get_file, set_base}
use fuse_nx.Containers.{World, Container}
use fuse_nx.Commands.Dump.{chunk, buffer}

-- The variables of a worker that copies: its path, the node that `src` points to, `buf`, `offset`, and what
-- it has written to `fp`.
pub record Copy : Type 0 where
  pub path : List ℕ
  pub src : ℕ
  pub buf : List ℕ
  pub offset : ℕ
  pub written : List ℕ

-- Where a call of the worker stands: it has not begun, it is before the loop's test, it is in `read_at`
-- between the `seek` and the `read`, it has closed its target, or it has returned without one.
pub data Thread : Type 0 where
  queued : List ℕ → Thread
  copying : Copy → Thread
  reading : Copy → Thread
  closed : List ℕ → List ℕ → Thread
  not_opened : List ℕ → Thread

-- `opens` tells whether `fopen` opens a path for writing.
module _ (b : Backend) (opens : List ℕ → Bool) (dest : List ℕ) where
  -- One step of a worker. A `seek` changes the node alone, and a `read` holds the locks that it needs.
  unfoldable pub thread_step :
      Thread → FileSystem Container World → Run (Thread × FileSystem Container World)
  unfolding get_file size seek read set_base
  thread_step (queued path) s = do
    i ← lift (get_file path s)
    elim (opens (dest ++ path)) [
      | false ↦ ok (not_opened path, s)
      | true ↦ ok (
        copying (record { path = path; src = i; buf = buffer chunk; offset = 0; written = [] }),
        s,
      )
    ]
  thread_step (copying c) s = do
    src ← lift (get_elem? s.file_nodes c.src)
    elim (ltb c.offset (size src.base)) [
      | false ↦ ok (closed c.path c.written, s)
      | true ↦ ok (reading c, set_base c.src (seek c.offset set src.base) s)
    ]
  thread_step (reading c) s = do
    src ← lift (get_elem? s.file_nodes c.src)
    r ← lift (read b src.base c.buf s.world.stream)
    elim (leb r.count (length r.dest)) [
      | false ↦ fault
      | true ↦ ok (
        copying (record c {
          buf = r.dest;
          offset = u64 (c.offset + r.count);
          written = c.written ++ take r.count r.dest;
        }),
        set_base c.src r.after (record s { world = record s.world { stream = r.stream } }),
      )
    ]
  thread_step (closed path bytes) s = ok (closed path bytes, s)
  thread_step (not_opened path) s = ok (not_opened path, s)

  -- The `j`th of the workers takes a step.
  unfoldable pub step_at :
      ℕ → List Thread → FileSystem Container World → Run (List Thread × FileSystem Container World)
  unfolding thread_step
  step_at j [] s = ok ([], s)
  step_at zero (t ∷ ts) s = do (t', s') ← thread_step t s; ok (t' ∷ ts, s')
  step_at (suc j) (t ∷ ts) s = do (ts', s') ← step_at j ts s; ok (t ∷ ts', s')

  -- The workers take turns as the host's scheduler has it.
  unfoldable pub interleave :
      List ℕ
      → List Thread
      → FileSystem Container World
      → Run (List Thread × FileSystem Container World)
  unfolding step_at
  interleave [] ts s = ok (ts, s)
  interleave (j ∷ js) ts s = do (ts', s') ← step_at j ts s; interleave js ts' s'
