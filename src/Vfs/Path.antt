-- ===== src/Vfs/Path.antt =====
-- `std::filesystem::path` as text, with what vfs.cpp uses of it.
use fuse_nx.Prelude.{
  ℕ, Bool, true, false, if◌then◌else◌, ◌==◌, List, [], ◌∷◌, ◌++◌, Option, none, some,
}

abbrev pub slash : ℕ
slash = b'/'

unfoldable pub starts_with_slash : List ℕ → Bool
starts_with_slash [] = false
starts_with_slash (c ∷ cs) = c == slash

unfoldable pub ends_with_slash : List ℕ → Bool
ends_with_slash [] = false
ends_with_slash (c ∷ []) = c == slash
ends_with_slash (c ∷ d ∷ cs) = ends_with_slash (d ∷ cs)

-- `operator /`: an absolute right side takes the place of the left.
unfoldable pub join : List ℕ → List ℕ → List ℕ
unfolding starts_with_slash ends_with_slash
join path name = if starts_with_slash name then name else elim path [
  | [] ↦ name
  | (c ∷ cs) ↦ if ends_with_slash (c ∷ cs) then (c ∷ cs) ++ name else (c ∷ cs) ++ (slash ∷ name)
]

-- The names between the separators, of a text that follows none; a separator at the end is followed by
-- an empty name.
unfoldable pub names_of : List ℕ → List (List ℕ)
names_of [] = [] ∷ []
names_of (c ∷ cs) = elim (c == slash) [
  | true ↦ [] ∷ names_of cs
  | false ↦ elim (names_of cs) [ [] ↦ (c ∷ []) ∷ [] | name ∷ names ↦ (c ∷ name) ∷ names ]
]

-- A run of separators counts as one, so empty names before the last are left out.
unfoldable pub drop_empty : List (List ℕ) → List (List ℕ)
drop_empty [] = []
drop_empty (name ∷ []) = name ∷ []
drop_empty ([] ∷ n ∷ names) = drop_empty (n ∷ names)
drop_empty ((c ∷ cs) ∷ n ∷ names) = (c ∷ cs) ∷ drop_empty (n ∷ names)

unfoldable pub drop_slashes : List ℕ → List ℕ
drop_slashes [] = []
drop_slashes (c ∷ cs) = if c == slash then drop_slashes cs else c ∷ cs

-- The elements of `path.relative_path()`.
unfoldable pub relative_path : List ℕ → List (List ℕ)
unfolding names_of drop_empty drop_slashes
relative_path path = elim (drop_slashes path) [
  | [] ↦ []
  | (c ∷ cs) ↦ drop_empty (names_of (c ∷ cs))
]

-- The last element of a path, which is its `filename()`.
unfoldable pub last_name : List (List ℕ) → List ℕ
last_name [] = []
last_name (n ∷ []) = n
last_name (n ∷ m ∷ ns) = last_name (m ∷ ns)

unfoldable pub filename : List ℕ → List ℕ
unfolding names_of last_name
filename path = last_name (names_of path)

-- The part of a path before its last separator.
unfoldable pub before_last : List ℕ → Option (List ℕ)
before_last [] = none
before_last (c ∷ cs) = elim (before_last cs) [
  | some rest ↦ some (c ∷ rest)
  | none ↦ if c == slash then some [] else none
]

-- `parent_path()` of an absolute path: the root is its own parent.
unfoldable pub parent_path : List ℕ → List ℕ
unfolding before_last
parent_path path = elim (before_last path) as (λ _. List ℕ) [
  | none ↦ []
  | some [] ↦ slash ∷ []
  | some (c ∷ cs) ↦ c ∷ cs
]
