-- ===== src/Commands/Listing.antt =====
-- src/list.cpp.
use fuse_nx.Prelude.{
  ℕ, ◌-◌, ◌*◌, false, if◌then◌else◌, List, [], ◌∷◌, ◌++◌, length, replicate, none, some,
}
use fuse_nx.Romfs.Types.{Run, ok, ◌>>=◌}
use fuse_nx.Vfs.Path.{slash, starts_with_slash, relative_path, last_name}
use fuse_nx.Vfs.Interface.{Interface}
use fuse_nx.Vfs.Tree.{FileSystem, find_folder}
use fuse_nx.Vfs.Walk.{Callback, walk}

-- The elements of a path, the root directory one of them.
unfoldable pub elements : List ℕ → List (List ℕ)
unfolding starts_with_slash relative_path
elements path =
    if starts_with_slash path then (slash ∷ []) ∷ relative_path path else relative_path path

unfoldable pub indents : ℕ → List ℕ
indents n = replicate (2 * n) b' '

-- One line per node, indented by the number of the elements before its own.
unfoldable pub visit : Callback (List ℕ)
unfolding elements indents last_name
visit path out = (
  false,
  out ++ (indents (length (elements path) - 1) ++ (last_name (elements path) ++ (10 ∷ []))),
)

unfoldable pub run :
    {C W : Type 0} → Interface C W → ℕ → FileSystem C W → Run (ℕ × List ℕ × FileSystem C W)
unfolding find_folder walk visit
run ops depth s = do
  (root, s1) ← find_folder ops (slash ∷ []) s
  elim root [
    | none ↦ ok (1, [], s1)
    | some i ↦ do
      (_, out, s2) ← walk ops visit visit depth (slash ∷ []) (slash ∷ 10 ∷ []) s1
      ok (0, out, s2)
  ]
