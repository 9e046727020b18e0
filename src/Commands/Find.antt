-- ===== src/Commands/Find.antt =====
-- src/find.cpp.
use fuse_nx.Prelude.{
  ℕ, suc, Bool, true, false, if◌then◌else◌, leb, ◌==◌, List, [], ◌∷◌, ◌++◌, Option, none, some,
}
use fuse_nx.Romfs.Types.{Run, ok, ◌>>=◌}
use fuse_nx.Vfs.Path.{filename}
use fuse_nx.Vfs.Interface.{Interface}
use fuse_nx.Vfs.Tree.{FileSystem, find_folder}
use fuse_nx.Vfs.Walk.{Callback, walk}

pub record Options : Type 0 where
  pub start : List ℕ
  pub max_count : ℕ
  pub depth : ℕ
  pub is_regex : Bool
  pub case_insensitive : Bool
  pub null_terminator : Bool

-- RE2 and `fnmatch`, given whether case counts: a regular expression may not compile.
pub record Matchers : Type 0 where
  pub regex : List ℕ → Bool → Option (List ℕ → Bool)
  pub fnmatch : List ℕ → Bool → List ℕ → Bool

-- `cur_count`, and what is printed.
pub record Found : Type 0 where
  pub count : ℕ
  pub output : List ℕ

abbrev pub terminator : Bool → ℕ
terminator null_terminator = if null_terminator then 0 else 10

module _ (matches : List ℕ → Bool) (options : Options) where
  unfoldable pub visit : Callback Found
  unfolding filename
  visit path t = elim (matches (filename path)) [
    | true ↦
        let t' : Found = record {
          count = suc t.count;
          output = t.output ++ (path ++ (terminator options.null_terminator ∷ []));
        } in
        (leb options.max_count t'.count, t')
    | false ↦ (leb options.max_count t.count, t)
  ]

module _ {C W : Type 0} (ops : Interface C W) (ms : Matchers) (pattern : List ℕ) where
  -- The matching of both callbacks, if the pattern is one.
  unfoldable pub matcher : Options → Option (List ℕ → Bool)
  matcher options =
      if options.is_regex
      then ms.regex pattern options.case_insensitive
      else some (ms.fnmatch pattern options.case_insensitive)

  -- The exit code, and what was found.
  unfoldable pub run : Options → FileSystem C W → Run (ℕ × Found × FileSystem C W)
  unfolding matcher find_folder walk visit
  run options s =
      let nothing : Found = record { count = 0; output = [] } in
      elim (options.max_count == 0) [
        | true ↦ ok (0, nothing, s)
        | false ↦ elim (matcher options) [
          | none ↦ ok (1, nothing, s)
          | some matches ↦ do
            (start, s1) ← find_folder ops options.start s
            elim start [
              | none ↦ ok (1, nothing, s1)
              | some i ↦ do
                (_, t, s2) ←
                    walk ops (visit matches options) (visit matches options) options.depth
                      options.start nothing s1
                ok (0, t, s2)
            ]
        ]
      ]
