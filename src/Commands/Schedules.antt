-- ===== src/Commands/Schedules.antt =====
-- A schedule of dump's threads, and what it leaves of the way of each.
use fuse_nx.Prelude.{ℕ, zero, suc, ◌+◌, ◌-◌, ◌≤◌, ◌≡◌, ◌≢◌, refl, sym, arith, Bool, List, [], ◌∷◌}
use fuse_nx.Crypto.{Backend}
use fuse_nx.Crypto.Ctr.{IsCtrMode}
use fuse_nx.Romfs.Types.{Run, ok, ◌>>=◌}
use fuse_nx.Vfs.Tree.{FileSystem}
use fuse_nx.Containers.{World, Container}
use fuse_nx.Commands.Threads.{Thread, step_at, interleave}
use fuse_nx.Commands.Nodes.{Keeps, Frame, Keeps-same, Keeps-trans}
use fuse_nx.Commands.Course.{Job, steps_left, OnCourse, Keeps-OnCourse}
use fuse_nx.Commands.Progress.{thread_step-Steps}

-- The turns that a schedule gives to a thread.
abbrev turn : ℕ → ℕ → ℕ
turn zero zero = 1
turn zero (suc j) = 0
turn (suc k) zero = 0
turn (suc k) (suc j) = turn k j

abbrev pub turns : ℕ → List ℕ → ℕ
turns k [] = 0
turns k (j ∷ js) = turn k j + turns k js

-- The node of no job.
abbrev pub Apart : ℕ → List Job → Type 0
Apart i [] = Unit {0}
Apart i (e ∷ es) = (e.src ≢ i) × Apart i es

abbrev pub Distinct : List Job → Type 0
Distinct [] = Unit {0}
Distinct (e ∷ es) = Apart e.src es × Distinct es

-- The steps that the thread of a number still takes.
abbrev pub left_at : ℕ → List Job → List Thread → ℕ
left_at k [] ts = 0
left_at k (e ∷ es) [] = 0
left_at zero (e ∷ es) (t ∷ ts) = steps_left e t
left_at (suc k) (e ∷ es) (t ∷ ts) = left_at k es ts

left_at-nil : (k : ℕ) (es : List Job) → left_at k es [] ≡ 0
left_at-nil k [] = refl
left_at-nil zero (e ∷ es) = refl
left_at-nil (suc k) (e ∷ es) = refl

head_fewer :
    (e : Job) (es : List Job) (t t' : Thread) (ts : List Thread)
    → steps_left e t' ≤ steps_left e t - 1
    → (k : ℕ) → left_at k (e ∷ es) (t' ∷ ts) ≤ left_at k (e ∷ es) (t ∷ ts) - turn k 0
head_fewer e es t t' ts h zero = h
head_fewer e es t t' ts h (suc k) = omega arith

tail_fewer :
    (j : ℕ) (e : Job) (es : List Job) (t : Thread) (ts ts' : List Thread)
    → ((k : ℕ) → left_at k es ts' ≤ left_at k es ts - turn k j)
    → (k : ℕ) → left_at k (e ∷ es) (t ∷ ts') ≤ left_at k (e ∷ es) (t ∷ ts) - turn k (suc j)
tail_fewer j e es t ts ts' h zero = omega arith
tail_fewer j e es t ts ts' h (suc k) = h k

module _ {b : Backend} {pad : List ℕ → ℕ → ℕ → ℕ} (mode : IsCtrMode b pad) (opens : List ℕ → Bool)
    (dest : List ℕ) where
  abbrev pub AllOnCourse : FileSystem Container World → List Job → List Thread → Type 0
  AllOnCourse s [] [] = Unit {0}
  AllOnCourse s [] (t ∷ ts) = ⊥
  AllOnCourse s (e ∷ es) [] = ⊥
  AllOnCourse s (e ∷ es) (t ∷ ts) = OnCourse mode opens dest s e t × AllOnCourse s es ts

  Frame-AllOnCourse :
      (i : ℕ) (s s' : FileSystem Container World) (es : List Job) (ts : List Thread)
      → Frame i s s'
      → Apart i es
      → AllOnCourse s es ts
      → AllOnCourse s' es ts
  Frame-AllOnCourse i s s' [] [] fr ne h = tt
  Frame-AllOnCourse i s s' [] (t ∷ ts) fr ne h = h
  Frame-AllOnCourse i s s' (e ∷ es) [] fr ne h = h
  Frame-AllOnCourse i s s' (e ∷ es) (t ∷ ts) fr ne h = (
    Keeps-OnCourse mode opens dest s s' e t (fr e.src (λ q. ne.0 (sym q))) h.0,
    Frame-AllOnCourse i s s' es ts fr ne.1 h.1,
  )

  -- A run that returns and keeps all threads to their courses, each as many steps nearer to its end.
  pub record Runs (s : FileSystem Container World) (es : List Job) (ts : List Thread) (had : ℕ → ℕ)
      (o : Run (List Thread × FileSystem Container World)) : Type 0 where
    pub threads : List Thread
    pub state : FileSystem Container World
    pub returns : o ≡ ok (threads, state)
    pub course : AllOnCourse state es threads
    pub frame : (i : ℕ) → Apart i es → Keeps i s state
    pub fewer : (k : ℕ) → left_at k es threads ≤ left_at k es ts - had k

  step_at-Runs :
      (j : ℕ) (s : FileSystem Container World) (es : List Job) (ts : List Thread)
      → Distinct es
      → AllOnCourse s es ts
      → Runs s es ts (λ k. turn k j) (step_at b opens dest j ts s)
  unfolding step_at
  step_at-Runs j s [] [] apart h = record {
    threads = [];
    state = s;
    returns = refl;
    course = tt;
    frame = λ i ne. Keeps-same i s;
    fewer = λ k. omega arith;
  }
  step_at-Runs j s [] (t ∷ ts) apart h = absurd h
  step_at-Runs j s (e ∷ es) [] apart h = absurd h
  step_at-Runs zero s (e ∷ es) (t ∷ ts) apart h =
      let r = thread_step-Steps mode opens dest s e t h.0 in
      record {
        threads = r.thread ∷ ts;
        state = r.state;
        returns = rw (r.returns, ◌>>=◌) refl;
        course = (r.course, Frame-AllOnCourse e.src s r.state es ts r.frame apart.0 h.1);
        frame = λ i ne. r.frame i ne.0;
        fewer = head_fewer e es t r.thread ts r.fewer;
      }
  step_at-Runs (suc j) s (e ∷ es) (t ∷ ts) apart h =
      let r = step_at-Runs j s es ts apart.1 h.1 in
      record {
        threads = t ∷ r.threads;
        state = r.state;
        returns = rw (r.returns, ◌>>=◌) refl;
        course =
            (Keeps-OnCourse mode opens dest s r.state e t (r.frame e.src apart.0) h.0, r.course);
        frame = λ i ne. r.frame i ne.1;
        fewer = tail_fewer j e es t ts r.threads r.fewer;
      }

  pub interleave-Runs :
      (js : List ℕ) (s : FileSystem Container World) (es : List Job) (ts : List Thread)
      → Distinct es
      → AllOnCourse s es ts
      → Runs s es ts (λ k. turns k js) (interleave b opens dest js ts s)
  unfolding interleave
  interleave-Runs [] s es ts apart h = record {
    threads = ts;
    state = s;
    returns = refl;
    course = h;
    frame = λ i ne. Keeps-same i s;
    fewer = λ k. omega arith;
  }
  interleave-Runs (j ∷ js) s es ts apart h =
      let r = step_at-Runs j s es ts apart h in
      let q = interleave-Runs js r.state es r.threads apart r.course in
      record {
        threads = q.threads;
        state = q.state;
        returns = rw (r.returns, ◌>>=◌) q.returns;
        course = q.course;
        frame = λ i ne. Keeps-trans i s r.state q.state (r.frame i ne) (q.frame i ne);
        fewer = λ k. omega (arith, r.fewer k, q.fewer k);
      }
