-- ===== src/Commands/Printed.antt =====
-- What find prints.
use fuse_nx.Prelude.{
  ℕ, suc, ◌≤◌, ◌<◌, ◌≡◌, refl, ◌==◌, Bool, true, false, List, [], ◌∷◌, ◌++◌, some, arith, leb,
}
use fuse_nx.Romfs.Types.{ok}
use fuse_nx.Vfs.Path.{filename}
use fuse_nx.Vfs.Interface.{Interface}
use fuse_nx.Vfs.Tree.{FileSystem, find_folder}
use fuse_nx.Vfs.Walk.{walk}
use fuse_nx.Vfs.Stops.{
  Allows, Allows->>=, Allows-any, Allows-option, Allows-option_eq, Allows-bool, Allows-ok, Outcome,
  goes, stops, walk-Allows,
}
use fuse_nx.Commands.Find.{Options, Matchers, Found, visit, matcher, run, terminator}

-- The lines of paths whose names match, so many of them.
pub data Printed (IsMatch : List ℕ → Type 0) (end : ℕ) : ℕ → List ℕ → Type 0 where
  blank : Printed IsMatch end 0 []
  line :
      {n : ℕ} {out : List ℕ} (path : List ℕ)
      → Printed IsMatch end n out
      → IsMatch (filename path)
      → Printed IsMatch end (suc n) (out ++ (path ++ (end ∷ [])))

module _ (matches : List ℕ → Bool) (options : Options) (IsMatch : List ℕ → Type 0) where
  abbrev Before : Found → Type 0
  Before t =
      (t.count < options.max_count)
      × Printed IsMatch (terminator options.null_terminator) t.count t.output

  abbrev After : Found → Type 0
  After t =
      (t.count ≤ options.max_count)
      × Printed IsMatch (terminator options.null_terminator) t.count t.output

  visit-Outcome :
      ((name : List ℕ) → matches name ≡ true → IsMatch name)
      → (path : List ℕ) (t : Found) → Before t
      → Outcome Before After (visit matches options path t).0 (visit matches options path t).1
  unfolding visit
  visit-Outcome right path t p = go (matches (filename path)) refl
    where
      counted :
          (full : Bool) (n : ℕ) (out : List ℕ)
          → leb options.max_count n ≡ full
          → n ≤ options.max_count
          → Printed IsMatch (terminator options.null_terminator) n out
          → Outcome Before After full (record { count = n; output = out })
      counted true n out e h lines = stops (h, lines)
      counted false n out e h lines = goes (ground arith, lines)

      go :
          (hit : Bool)
          → matches (filename path) ≡ hit
          → Outcome Before After (visit matches options path t).0 (visit matches options path t).1
      go true e =
          rw (e, visit) (counted _ _ _ refl (omega (arith, p.0)) (line path p.1 (right _ e)))
      go false e = rw (e, visit) (counted _ t.count t.output refl (omega (arith, p.0)) p.1)

module _ {C W : Type 0} (ops : Interface C W) (ms : Matchers) (pattern : List ℕ) where
  -- The names that the pattern stands for.
  abbrev pub IsMatch : Options → List ℕ → Type 0
  IsMatch options name =
      (m : List ℕ → Bool) × (matcher ops ms pattern options ≡ some m) × (m name ≡ true)

  abbrev Prints : Options → ℕ × Found × FileSystem C W → Type 0
  Prints options (code, t, s) = After (λ _. true) options (IsMatch options) t

  run-Prints :
      (options : Options) (s : FileSystem C W)
      → Allows (Prints options) (run ops ms pattern options s)
  unfolding run
  run-Prints options s =
      Allows-bool (Prints options) (options.max_count == 0) _ _ (λ e. (omega arith, blank))
        (λ e.
          Allows-option_eq (Prints options) (matcher ops ms pattern options) _ _
            (λ f. (omega arith, blank))
            (λ m f. Allows-any (Prints options) (find_folder ops options.start s) _ (λ found.
              Allows-option (Prints options) found.0 _ _ (omega arith, blank)
                (λ i.
                  Allows->>= (Walked m) (Prints options)
                    (walk ops (visit m options) (visit m options) options.depth options.start
                      nothing found.1)
                    _
                    (walk-Allows ops _ _ (Before m options (IsMatch options))
                      (After m options (IsMatch options)) (λ t p. (omega (arith, p.0), p.1))
                      options.depth options.start nothing found.1
                      (visit-Outcome m options (IsMatch options) (λ name h. (m, f, h)))
                      (visit-Outcome m options (IsMatch options) (λ name h. (m, f, h)))
                      (ground arith, blank))
                    (λ r o. last_state m r.0 r.1 o)))))
    where
      nothing : Found
      nothing = record { count = 0; output = [] }

      Walked : (List ℕ → Bool) → Bool × Found × FileSystem C W → Type 0
      Walked m r =
          Outcome (Before m options (IsMatch options)) (After m options (IsMatch options)) r.0 r.1

      last_state :
          (m : List ℕ → Bool) (stop : Bool) (t : Found)
          → Outcome (Before m options (IsMatch options)) (After m options (IsMatch options)) stop t
          → After (λ _. true) options (IsMatch options) t
      last_state m _ t (goes p) = (omega (arith, p.0), p.1)
      last_state m _ t (stops q) = q

  -- What find itself prints when it returns, whatever the tree and the exit code, beside what opening
  -- containers prints for tickets: as many lines as it counts, at most `max_count`, each of them a path
  -- whose name matches the pattern.
  pub run_prints :
      (options : Options) (s s' : FileSystem C W) (code : ℕ) (t : Found)
      → run ops ms pattern options s ≡ ok (code, t, s')
      → (t.count ≤ options.max_count)
        × Printed (IsMatch options) (terminator options.null_terminator) t.count t.output
  run_prints options s s' code t e =
      Allows-ok (Prints options) _ (code, t, s') (run-Prints options s) e
