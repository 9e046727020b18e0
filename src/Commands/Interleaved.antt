-- ===== src/Commands/Interleaved.antt =====
-- The threads of dump in any order.
use fuse_nx.Prelude.{
  ℕ, ◌+◌, ◌*◌, ◌≤◌, ◌≡◌, refl, Bool, if◌then◌else◌, List, [], ◌∷◌, ◌++◌, length, map, get_elem?,
  some,
}
use fuse_nx.Crypto.{Backend}
use fuse_nx.Crypto.Ctr.{IsCtrMode}
use fuse_nx.Vfs.Tree.{FileSystem, get_file}
use fuse_nx.Containers.{World, Container}
use fuse_nx.Commands.Threads.{Thread, queued, closed, not_opened}
use fuse_nx.Commands.Course.{Job, chunks, NodeShows}
use fuse_nx.Commands.Schedules.{turns, Apart, Distinct, AllOnCourse}

abbrev pub start : Job → Thread
start e = queued e.path

-- Every thread has a turn for each step of its job.
abbrev pub IsFair : List ℕ → List Job → Type 0
IsFair js es =
    (k : ℕ) (e : Job) → get_elem? es k ≡ some e → 2 * chunks (length e.bytes) + 2 ≤ turns k js

module _ {b : Backend} {pad : List ℕ → ℕ → ℕ → ℕ} (mode : IsCtrMode b pad) (opens : List ℕ → Bool)
    (dest : List ℕ) where
  -- What a thread comes to: a target with the bytes of its file, or none.
  abbrev pub outcome : Job → Thread
  outcome e = if opens (dest ++ e.path) then closed e.path e.bytes else not_opened e.path

  -- Jobs for the file system: each path has its node, which stands for the bytes, and no two have the same
  -- node.
  abbrev pub IsPlan : FileSystem Container World → List Job → Type 0
  IsPlan s [] = Unit {0}
  IsPlan s (e ∷ es) =
      (get_file e.path s ≡ some e.src)
      × NodeShows mode opens dest s e.src e.bytes
      × Apart e.src es
      × IsPlan s es

  pub plan-Distinct : (s : FileSystem Container World) (es : List Job) → IsPlan s es → Distinct es
  plan-Distinct s [] h = tt
  plan-Distinct s (e ∷ es) h = (h.2, plan-Distinct s es h.3)

  pub plan-AllOnCourse :
      (s : FileSystem Container World) (es : List Job)
      → IsPlan s es
      → AllOnCourse mode opens dest s es (map start es)
  plan-AllOnCourse s [] h = tt
  plan-AllOnCourse s (e ∷ es) h = ((refl, h.0, h.1), plan-AllOnCourse s es h.3)
