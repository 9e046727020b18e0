-- ===== src/Commands/Prefixes.antt =====
-- The targets of dump's threads in the middle of a run.
use mathlib.Core.Path.{subst}
use mathlib.Core.Option.{some-injective}
use fuse_nx.Prelude.{
  ℕ, zero, suc, ◌≡◌, refl, sym, ◌∙◌, arith, Bool, List, [], ◌∷◌, length, map, take, get_elem?, some,
}
use fuse_nx.Prelude.Slices.{take_all}
use fuse_nx.Crypto.{Backend}
use fuse_nx.Crypto.Ctr.{IsCtrMode}
use fuse_nx.Romfs.Types.{ok}
use fuse_nx.Vfs.Tree.{FileSystem}
use fuse_nx.Containers.{World, Container}
use fuse_nx.Commands.Threads.{Thread, queued, copying, reading, closed, not_opened, interleave}
use fuse_nx.Commands.Course.{Job, OnCourse}
use fuse_nx.Commands.Schedules.{AllOnCourse, interleave-Runs}
use fuse_nx.Commands.Interleaved.{IsPlan, start, plan-Distinct, plan-AllOnCourse}

-- What a thread has written to its target.
abbrev pub target : Thread → List ℕ
target (queued path) = []
target (copying c) = c.written
target (reading c) = c.written
target (closed path bytes) = bytes
target (not_opened path) = []

-- A thread whose target has the beginning of the job's bytes.
abbrev pub HasPrefix : Job → Thread → Type 0
HasPrefix e t = (n : ℕ) × (target t ≡ take n e.bytes)

module _ {b : Backend} {pad : List ℕ → ℕ → ℕ → ℕ} (mode : IsCtrMode b pad) (opens : List ℕ → Bool)
    (dest : List ℕ) where
  course-HasPrefix :
      (s : FileSystem Container World) (e : Job) (t : Thread)
      → OnCourse mode opens dest s e t
      → HasPrefix e t
  course-HasPrefix s e (queued p) h = (0, refl)
  course-HasPrefix s e (copying c) h = (c.offset, h.0.written)
  course-HasPrefix s e (reading c) h = (c.offset, h.0.written)
  course-HasPrefix s e (closed p ys) h =
      (length e.bytes, h.1 ∙ sym (take_all (length e.bytes) e.bytes (omega arith)))
  course-HasPrefix s e (not_opened p) h = (0, refl)

  course-at :
      (s : FileSystem Container World) (es : List Job) (ts : List Thread) (k : ℕ) (e : Job)
      → AllOnCourse mode opens dest s es ts
      → get_elem? es k ≡ some e
      → (t : Thread) × (get_elem? ts k ≡ some t) × HasPrefix e t
  course-at s [] ts k e h at = cc
  course-at s (d ∷ es) [] k e h at = absurd h
  course-at s (d ∷ es) (t ∷ ts) zero e h at =
      (t, refl, subst (λ x. HasPrefix x t) (some-injective d e at) (course-HasPrefix s d t h.0))
  course-at s (d ∷ es) (t ∷ ts) (suc k) e h at = course-at s es ts k e h.1 at

  -- Whatever steps the threads of dump have taken so far, on files that do not decrypt themselves and no two of
  -- them on the same node, none has faulted, and the target of each has the beginning of its file's bytes.
  pub interleaved_targets_are_prefixes :
      (js : List ℕ) (s : FileSystem Container World) (es : List Job) (k : ℕ) (e : Job)
      → IsPlan mode opens dest s es
      → get_elem? es k ≡ some e
      → (ts : List Thread) × (s' : FileSystem Container World) × (t : Thread) × (interleave b opens
            dest js
            (map start es)
            s
          ≡ ok (ts, s'))
        × (get_elem? ts k ≡ some t)
        × HasPrefix e t
  interleaved_targets_are_prefixes js s es k e plan at =
      let r =
        interleave-Runs mode opens dest js s es (map start es)
          (plan-Distinct mode opens dest s es plan) (plan-AllOnCourse mode opens dest s es plan) in
      let (t, found, prefix) = course-at r.state es r.threads k e r.course at in
      (r.threads, r.state, t, r.returns, found, prefix)
