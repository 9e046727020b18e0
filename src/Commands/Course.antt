-- ===== src/Commands/Course.antt =====
-- The course of a thread of dump that copies a file, whatever the others do between its steps.
use fuse_nx.Prelude.{
  ℕ, ◌+◌, ◌*◌, ◌-◌, ◌/◌, ◌≤◌, ◌<◌, ◌≡◌, ◌∙◌, Bool, true, false, List, ◌++◌, length, take, get_elem?,
  some,
}
use fuse_nx.Crypto.{Backend}
use fuse_nx.Crypto.Ctr.{IsCtrMode}
use fuse_nx.Io.{FileBase, seek, set}
use fuse_nx.Vfs.Tree.{File, FileSystem, get_file}
use fuse_nx.Containers.{World, Container}
use fuse_nx.Commands.Dump.{chunk}
use fuse_nx.Commands.Nodes.{Keeps}
use fuse_nx.Commands.Worker.{Shows}
use fuse_nx.Commands.Threads.{Copy, Thread, queued, copying, reading, closed, not_opened}

-- A file that is to be copied: its path, its node, and the bytes that it stands for.
pub record Job : Type 0 where
  pub path : List ℕ
  pub src : ℕ
  pub bytes : List ℕ

-- The chunks that so many bytes have.
abbrev pub chunks : ℕ → ℕ
chunks n = (n + 0x3fffff) / 0x400000

-- The steps that a thread still takes.
abbrev pub steps_left : Job → Thread → ℕ
steps_left e (queued path) = 2 * chunks (length e.bytes) + 2
steps_left e (copying c) = 2 * chunks (length e.bytes - c.offset) + 1
steps_left e (reading c) = 2 * chunks (length e.bytes - c.offset)
steps_left e (closed path ys) = 0
steps_left e (not_opened path) = 0

module _ {b : Backend} {pad : List ℕ → ℕ → ℕ → ℕ} (mode : IsCtrMode b pad) (opens : List ℕ → Bool)
    (dest : List ℕ) where
  -- The node of a number stands for some bytes.
  abbrev pub NodeShows : FileSystem Container World → ℕ → List ℕ → Type 0
  NodeShows s i xs =
      (src : File) × (get_elem? s.file_nodes i ≡ some src) × Shows mode src.base s.world xs

  -- A worker in the middle of a job: its target is open, and what is before its offset is written.
  pub record IsCopy (e : Job) (c : Copy) : Type 0 where
    pub path : c.path ≡ e.path
    pub src : c.src ≡ e.src
    pub buf : length c.buf ≡ chunk
    pub written : c.written ≡ take c.offset e.bytes
    pub opened : opens (dest ++ e.path) ≡ true

  -- Where a thread is on its job.
  abbrev pub OnCourse : FileSystem Container World → Job → Thread → Type 0
  OnCourse s e (queued p) = (p ≡ e.path) × (get_file p s ≡ some e.src) × NodeShows s e.src e.bytes
  OnCourse s e (copying c) = IsCopy e c × (c.offset ≤ length e.bytes) × NodeShows s e.src e.bytes
  OnCourse s e (reading c) =
      IsCopy e c
      × (c.offset < length e.bytes)
      × ((src : File) × (f : FileBase) × (get_elem? s.file_nodes e.src ≡ some src)
          × (src.base ≡ seek c.offset set f)
          × Shows mode f s.world e.bytes)
  OnCourse s e (closed p ys) = (p ≡ e.path) × (ys ≡ e.bytes) × (opens (dest ++ e.path) ≡ true)
  OnCourse s e (not_opened p) = (p ≡ e.path) × (opens (dest ++ e.path) ≡ false)

  pub Shows-contents :
      (f : FileBase) (w w' : World) (xs : List ℕ)
      → w'.stream.contents ≡ w.stream.contents
      → Shows mode f w xs
      → Shows mode f w' xs
  Shows-contents f w w' xs e h = (h.0, rw e h.1, rw e h.2, h.3)

  -- A step that keeps its node leaves a thread where it is.
  pub Keeps-OnCourse :
      (s s' : FileSystem Container World) (e : Job) (t : Thread)
      → Keeps e.src s s'
      → OnCourse s e t
      → OnCourse s' e t
  unfolding get_file
  Keeps-OnCourse s s' e (queued p) k (at, found, (src, node, shows)) = (
    at,
    rw k.files found,
    (src, k.node ∙ node, Shows-contents src.base s.world s'.world e.bytes k.contents shows),
  )
  Keeps-OnCourse s s' e (copying c) k (is, le, (src, node, shows)) = (
    is,
    le,
    (src, k.node ∙ node, Shows-contents src.base s.world s'.world e.bytes k.contents shows),
  )
  Keeps-OnCourse s s' e (reading c) k (is, lt, (src, f, node, sought, shows)) = (
    is,
    lt,
    (src, f, k.node ∙ node, sought, Shows-contents f s.world s'.world e.bytes k.contents shows),
  )
  Keeps-OnCourse s s' e (closed p ys) k h = h
  Keeps-OnCourse s s' e (not_opened p) k h = h
