-- ===== src/Commands/Progress.antt =====
-- A step of a thread of dump on its own job.
use mathlib.Core.Path.{subst}
use fuse_nx.Prelude.{
  inl, inr, Bool-cases, ℕ, zero, suc, ◌+◌, ◌-◌, ◌≤◌, ◌<◌, ◌^◌, ◌≡◌, refl, sym, ap, ap₂, ◌∙◌, arith,
  Bool, true, false, ltb, leb, le→leb, List, [], ◌∷◌, ◌++◌, length, take, drop, get_elem?, some,
  min, ltb→lt,
}
use fuse_nx.Prelude.Slices.{slice, overwrite, take_all, take-nil, length-slice, length-overwrite}
use fuse_nx.Prelude.Words.{u64}
use fuse_nx.Keys.Lines.{take_prefix}
use fuse_nx.Crypto.{Backend}
use fuse_nx.Crypto.Ctr.{IsCtrMode}
use fuse_nx.Io.{FileBase, size, seek, set, Read, read, read_at}
use fuse_nx.Io.Plain.{read_at-ReadsAt}
use fuse_nx.Io.View.{length-view-lt}
use fuse_nx.Romfs.Types.{Run, ok, ◌>>=◌}
use fuse_nx.Vfs.Tree.{File, FileSystem, get_file, set_base}
use fuse_nx.Containers.{World, Container}
use fuse_nx.Commands.Dump.{chunk, buffer}
use fuse_nx.Commands.Worker.{Shows, length-buffer}
use fuse_nx.Commands.Threads.{
  Copy, Thread, queued, copying, reading, closed, not_opened, thread_step,
}
use fuse_nx.Commands.Nodes.{Frame, Frame-same, set_base-Frame, set_base_self}
use fuse_nx.Commands.Course.{Job, steps_left, NodeShows, IsCopy, OnCourse, Shows-contents}

ltb→le : (a b : ℕ) → ltb a b ≡ false → b ≤ a
ltb→le a b h = ground arith

take_own_length : (n : ℕ) (xs : List ℕ) → take n xs ≡ take (length (take n xs)) xs
take_own_length n [] = take-nil n ∙ sym (take-nil (length (take n [])))
take_own_length zero (x ∷ xs) = refl
take_own_length (suc n) (x ∷ xs) = ap (◌∷◌ x) (take_own_length n xs)

take-slice :
    (p n : ℕ) (xs : List ℕ) → take p xs ++ slice p n xs ≡ take (p + length (slice p n xs)) xs
take-slice zero n xs = take_own_length n xs ∙ ap (λ k. take k xs) (omega arith)
take-slice (suc p) n [] = take-nil n ∙ sym (take-nil (suc p + length (slice (suc p) n [])))
take-slice (suc p) n (x ∷ xs) =
    ap (◌∷◌ x) (take-slice p n xs)
    ∙ ap (λ k. take k (x ∷ xs)) {x = suc (p + length (slice p n xs))} (omega arith)

module _ {b : Backend} {pad : List ℕ → ℕ → ℕ → ℕ} (mode : IsCtrMode b pad) (opens : List ℕ → Bool)
    (dest : List ℕ) where
  -- A step that returns, keeps to the course, and brings the end nearer.
  pub record Steps (s : FileSystem Container World) (e : Job) (t : Thread)
      (o : Run (Thread × FileSystem Container World)) : Type 0 where
    pub thread : Thread
    pub state : FileSystem Container World
    pub returns : o ≡ ok (thread, state)
    pub course : OnCourse mode opens dest state e thread
    pub frame : Frame e.src s state
    pub fewer : steps_left e thread ≤ steps_left e t - 1

  set_base-Shows :
      (i : ℕ) (base f : FileBase) (s : FileSystem Container World) (xs : List ℕ)
      → Shows mode f s.world xs
      → Shows mode f (set_base i base s).world xs
  unfolding set_base
  set_base-Shows i base f s xs h = h

  queued-Steps :
      (s : FileSystem Container World) (e : Job)
      → get_file e.path s ≡ some e.src
      → NodeShows mode opens dest s e.src e.bytes
      → Steps s e (queued e.path) (thread_step b opens dest (queued e.path) s)
  unfolding thread_step
  queued-Steps s e found shows = elim (Bool-cases (opens (dest ++ e.path))) [
    | inl opened ↦ record {
      thread =
          copying
            (record { path = e.path; src = e.src; buf = buffer chunk; offset = 0; written = [] });
      state = s;
      returns = rw (found, ◌>>=◌) (rw opened refl);
      course = (
        record {
          path = refl;
          src = refl;
          buf = length-buffer chunk;
          written = refl;
          opened = opened;
        },
        omega arith,
        shows,
      );
      frame = Frame-same e.src s;
      fewer = omega arith;
    }
    | inr not ↦ record {
      thread = not_opened e.path;
      state = s;
      returns = rw (found, ◌>>=◌) (rw not refl);
      course = (refl, not);
      frame = Frame-same e.src s;
      fewer = omega arith;
    }
  ]

  copying-Steps :
      (s : FileSystem Container World) (e : Job) (c : Copy)
      → IsCopy mode opens dest e c
      → c.offset ≤ length e.bytes
      → NodeShows mode opens dest s e.src e.bytes
      → Steps s e (copying c) (thread_step b opens dest (copying c) s)
  unfolding thread_step
  copying-Steps s e c is le (src, node, shows) =
      let here : get_elem? s.file_nodes c.src ≡ some src =
        ap (get_elem? s.file_nodes) is.src ∙ node in
      elim (Bool-cases (ltb c.offset (size src.base))) [
        | inl inside ↦ record {
          thread = reading c;
          state = set_base c.src (seek c.offset set src.base) s;
          returns = rw (here, ◌>>=◌) (rw inside refl);
          course = (
            is,
            omega (arith, ltb→lt c.offset (size src.base) inside, shows.3),
            (
              record src { base = seek c.offset set src.base },
              src.base,
              rw is.src (set_base_self e.src (seek c.offset set src.base) s src node),
              refl,
              set_base-Shows c.src (seek c.offset set src.base) src.base s e.bytes shows,
            ),
          );
          frame =
              rw is.src (set_base-Frame e.src (seek c.offset set src.base) s.world.stream s refl);
          fewer = omega arith;
        }
        | inr past ↦ record {
          thread = closed c.path c.written;
          state = s;
          returns = rw (here, ◌>>=◌) (rw past refl);
          course = (
            is.path,
            is.written
                ∙ take_all c.offset e.bytes
                    (omega (arith, ltb→le c.offset (size src.base) past, shows.3)),
            is.opened,
          );
          frame = Frame-same e.src s;
          fewer = omega (arith, le, ltb→le c.offset (size src.base) past, shows.3);
        }
      ]

  -- A read that stores what there is from the offset on.
  read-Steps :
      (s : FileSystem Container World) (e : Job) (c : Copy) (src : File) (r : Read)
      → IsCopy mode opens dest e c
      → c.offset < length e.bytes
      → length e.bytes < 2 ^ 63
      → get_elem? s.file_nodes e.src ≡ some src
      → read b src.base c.buf s.world.stream ≡ some r
      → r.count ≡ length (slice c.offset (length c.buf) e.bytes)
      → r.dest ≡ overwrite c.buf (slice c.offset (length c.buf) e.bytes)
      → r.stream.contents ≡ s.world.stream.contents
      → Shows mode r.after s.world e.bytes
      → Steps s e (reading c) (thread_step b opens dest (reading c) s)
  unfolding thread_step
  read-Steps s e c src r is lt bound node reads counted stored kept shows =
      let got = slice c.offset (length c.buf) e.bytes in
      let n : length got ≡ min (length c.buf) (length e.bytes - c.offset) =
        length-slice c.offset (length c.buf) e.bytes in
      let wide : length r.dest ≡ chunk =
        ap length stored ∙ (length-overwrite c.buf got (omega (arith, n)) ∙ is.buf) in
      let here : u64 (c.offset + r.count) ≡ c.offset + length got =
        omega (arith, counted, n, bound, is.buf) in
      let fits : leb r.count (length r.dest) ≡ true =
        le→leb r.count (length r.dest) (omega (arith, counted, n, wide, is.buf)) in
      let s' : FileSystem Container World = record s {
        world = record s.world { stream = r.stream };
      } in
      record {
        thread = copying (record c {
          buf = r.dest;
          offset = u64 (c.offset + r.count);
          written = c.written ++ take r.count r.dest;
        });
        state = set_base c.src r.after s';
        returns =
            rw (ap (get_elem? s.file_nodes) is.src ∙ node, ◌>>=◌)
              (rw (reads, ◌>>=◌) (rw fits refl));
        course = (
          record {
            path = is.path;
            src = is.src;
            buf = wide;
            written =
                ap₂ ◌++◌ is.written
                  (ap₂ take counted stored ∙ take_prefix got (drop (length got) c.buf))
                ∙ (take-slice c.offset (length c.buf) e.bytes
                    ∙ ap (λ k. take k e.bytes) (sym here));
            opened = is.opened;
          },
          omega (arith, here, n),
          (
            record src { base = r.after },
            rw is.src (set_base_self e.src r.after s' src node),
            set_base-Shows c.src r.after r.after s' e.bytes
                (Shows-contents mode opens dest r.after s.world s'.world e.bytes kept shows),
          ),
        );
        frame = rw is.src (set_base-Frame e.src r.after r.stream s kept);
        fewer = omega (arith, here, n, is.buf, lt);
      }

  reading-Steps :
      (s : FileSystem Container World) (e : Job) (c : Copy)
      → IsCopy mode opens dest e c
      → c.offset < length e.bytes
      → (src : File) → (f : FileBase) → get_elem? s.file_nodes e.src ≡ some src
      → src.base ≡ seek c.offset set f
      → Shows mode f s.world e.bytes
      → Steps s e (reading c) (thread_step b opens dest (reading c) s)
  unfolding thread_step read_at
  reading-Steps s e c is lt src f node sought shows =
      let r =
        read_at-ReadsAt mode f c.offset c.buf s.world.stream shows.0 shows.1
          (omega (arith, ap length shows.2, lt)) in
      read-Steps s e c src r.result is lt
        (omega (arith, ap length shows.2, length-view-lt pad f s.world.stream.contents shows.1))
        node (ap (λ g. read b g c.buf s.world.stream) sought ∙ r.returns)
        (r.counted ∙ ap (λ v. length (slice c.offset (length c.buf) v)) shows.2)
        (r.stored ∙ ap (λ v. overwrite c.buf (slice c.offset (length c.buf) v)) shows.2) r.kept
        (r.plain, r.ready, r.same_view ∙ shows.2, r.same_size ∙ shows.3)

  pub thread_step-Steps :
      (s : FileSystem Container World) (e : Job) (t : Thread)
      → OnCourse mode opens dest s e t
      → Steps s e t (thread_step b opens dest t s)
  unfolding thread_step
  thread_step-Steps s e (queued p) (at, found, shows) =
      subst (λ q. Steps s e (queued q) (thread_step b opens dest (queued q) s)) (sym at)
        (queued-Steps s e (ap (λ q. get_file q s) (sym at) ∙ found) shows)
  thread_step-Steps s e (copying c) (is, le, shows) = copying-Steps s e c is le shows
  thread_step-Steps s e (reading c) (is, lt, (src, f, node, sought, shows)) =
      reading-Steps s e c is lt src f node sought shows
  thread_step-Steps s e (closed p ys) h = record {
    thread = closed p ys;
    state = s;
    returns = refl;
    course = h;
    frame = Frame-same e.src s;
    fewer = omega arith;
  }
  thread_step-Steps s e (not_opened p) h = record {
    thread = not_opened p;
    state = s;
    returns = refl;
    course = h;
    frame = Frame-same e.src s;
    fewer = omega arith;
  }
