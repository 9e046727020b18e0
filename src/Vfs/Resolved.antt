-- ===== src/Vfs/Resolved.antt =====
-- `find_folder` of a path in a tree whose folders have been looked into.
use fuse_nx.Prelude.{
  ℕ, ◌≡◌, ◌≢◌, refl, ap, ◌∙◌, true, false, ◌==◌, List, [], ◌∷◌, ◌++◌, get_elem?, append-nil, Option,
  none, some,
}
use fuse_nx.Romfs.Types.{ok, ◌>>=◌}
use fuse_nx.Keyset.Titles.{bytes_eq}
use fuse_nx.Vfs.Path.{
  join, slash, relative_path, names_of, drop_empty, drop_slashes, starts_with_slash,
  ends_with_slash,
}
use fuse_nx.Vfs.Interface.{Interface}
use fuse_nx.Vfs.Tree.{Folder, FileSystem, get_folder, process_dir, descend, find_folder}
use fuse_nx.Vfs.Visited.{process_dir-again}

-- A name is not empty and has no separator.
abbrev pub IsSimple : List ℕ → Type 0
IsSimple [] = ⊥
IsSimple (c ∷ []) = (c == slash) ≡ false
IsSimple (c ∷ d ∷ cs) = ((c == slash) ≡ false) × IsSimple (d ∷ cs)

abbrev pub AreSimple : List (List ℕ) → Type 0
AreSimple [] = Unit
AreSimple (name ∷ names) = IsSimple name × AreSimple names

-- A path of names, each behind a separator.
abbrev pub path_of : List (List ℕ) → List ℕ
path_of [] = []
path_of (name ∷ names) = slash ∷ (name ++ path_of names)

names_of-simple : (name : List ℕ) → IsSimple name → names_of name ≡ name ∷ []
unfolding names_of
names_of-simple [] h = absurd h
names_of-simple (c ∷ []) h = rw (h, names_of) refl
names_of-simple (c ∷ d ∷ cs) h = rw (h.0, names_of) (rw (names_of-simple (d ∷ cs) h.1) refl)

names_of-append :
    (name rest : List ℕ) → IsSimple name → names_of (name ++ (slash ∷ rest)) ≡ name ∷ names_of rest
unfolding names_of
names_of-append [] rest h = absurd h
names_of-append (c ∷ []) rest h = rw (h, names_of) refl
names_of-append (c ∷ d ∷ cs) rest h =
    rw (h.0, names_of) (rw (names_of-append (d ∷ cs) rest h.1) refl)

-- The elements of a path of simple names are these.
names_of-path_of :
    (name : List ℕ) (names : List (List ℕ))
    → IsSimple name
    → AreSimple names
    → names_of (name ++ path_of names) ≡ name ∷ names
unfolding names_of
names_of-path_of name [] h hs = ap names_of (append-nil name) ∙ names_of-simple name h
names_of-path_of name (n ∷ ns) h hs =
    names_of-append name (n ++ path_of ns) h
    ∙ ap (λ ms. name ∷ ms) (names_of-path_of n ns hs.0 hs.1)

drop_empty-simple : (names : List (List ℕ)) → AreSimple names → drop_empty names ≡ names
unfolding drop_empty
drop_empty-simple [] h = refl
drop_empty-simple (n ∷ []) h = refl
drop_empty-simple ([] ∷ m ∷ ms) h = absurd h.0
drop_empty-simple ((c ∷ cs) ∷ m ∷ ms) h = ap (λ ns. (c ∷ cs) ∷ ns) (drop_empty-simple (m ∷ ms) h.1)

starts_with_slash-simple : (name : List ℕ) → IsSimple name → starts_with_slash name ≡ false
unfolding starts_with_slash
starts_with_slash-simple [] h = absurd h
starts_with_slash-simple (c ∷ []) h = h
starts_with_slash-simple (c ∷ d ∷ cs) h = h.0

relative_path-path_of :
    (names : List (List ℕ)) → AreSimple names → relative_path (path_of names) ≡ names
unfolding relative_path drop_slashes starts_with_slash
relative_path-path_of [] h = refl
relative_path-path_of ([] ∷ ns) h = absurd h.0
relative_path-path_of ((c ∷ cs) ∷ ns) h =
    let plain : (c == slash) ≡ false = starts_with_slash-simple (c ∷ cs) h.0 in
    rw (plain, relative_path, drop_slashes)
      (ap drop_empty (names_of-path_of (c ∷ cs) ns h.0 h.1) ∙ drop_empty-simple ((c ∷ cs) ∷ ns) h)

module _ {C W : Type 0} (s : FileSystem C W) where
  -- A folder that is registered under a path and has been looked into.
  pub record LooksUp (path : List ℕ) (i : ℕ) : Type 0 where
    pub folder : Folder C
    pub registered : get_folder path s ≡ some i
    pub there : get_elem? s.folder_nodes i ≡ some folder
    pub looked : folder.processed ≡ true

  -- From a folder on, the names lead through folders that have been looked into to the last one, or to
  -- a path under which there is none.
  pub data Resolves : List ℕ → ℕ → List (List ℕ) → Option ℕ → Type 0 where
    last : {front : List ℕ} {i : ℕ} → Resolves front i [] (some i)
    lost :
        {front : List ℕ} {i : ℕ} {name : List ℕ} {names : List (List ℕ)}
        → get_folder (front ++ (slash ∷ name)) s ≡ none
        → Resolves front i (name ∷ names) none
    next :
        {front : List ℕ} {i : ℕ} {name : List ℕ} {names : List (List ℕ)} {j : ℕ} {o : Option ℕ}
        → LooksUp (front ++ (slash ∷ name)) j
        → Resolves (front ++ (slash ∷ name)) j names o
        → Resolves front i (name ∷ names) o

ends_with_slash-simple : (name : List ℕ) → IsSimple name → ends_with_slash name ≡ false
unfolding ends_with_slash
ends_with_slash-simple [] h = absurd h
ends_with_slash-simple (c ∷ []) h = h
ends_with_slash-simple (c ∷ d ∷ cs) h = ends_with_slash-simple (d ∷ cs) h.1

ends_with_slash-behind :
    (front name : List ℕ) → IsSimple name → ends_with_slash (front ++ (slash ∷ name)) ≡ false
unfolding ends_with_slash
ends_with_slash-behind [] [] h = absurd h
ends_with_slash-behind [] (c ∷ cs) h = ends_with_slash-simple (c ∷ cs) h
ends_with_slash-behind (c ∷ []) name h = ends_with_slash-behind [] name h
ends_with_slash-behind (c ∷ d ∷ cs) name h = ends_with_slash-behind (d ∷ cs) name h

-- A path that `operator /` puts a separator behind.
join-simple :
    (c : ℕ) (cs name : List ℕ)
    → ends_with_slash (c ∷ cs) ≡ false
    → IsSimple name
    → join (c ∷ cs) name ≡ (c ∷ cs) ++ (slash ∷ name)
unfolding join
join-simple c cs name h simple = rw (starts_with_slash-simple name simple, join) (rw h refl)

join-behind :
    (front name following : List ℕ)
    → IsSimple name
    → IsSimple following
    → join (front ++ (slash ∷ name)) following ≡ (front ++ (slash ∷ name)) ++ (slash ∷ following)
join-behind [] name following h h' =
    join-simple slash name following (ends_with_slash-behind [] name h) h'
join-behind (c ∷ cs) name following h h' =
    join-simple c (cs ++ (slash ∷ name)) following (ends_with_slash-behind (c ∷ cs) name h) h'

join-root : (name : List ℕ) → IsSimple name → join (slash ∷ []) name ≡ slash ∷ name
unfolding join ends_with_slash
join-root name simple = rw (starts_with_slash-simple name simple, join) refl

module _ {C W : Type 0} (ops : Interface C W) (s : FileSystem C W) where
  process_dir-LooksUp :
      (path : List ℕ) (i : ℕ) → LooksUp s path i → process_dir ops path s ≡ ok (some i, s)
  process_dir-LooksUp path i h =
      process_dir-again ops s path i h.folder h.registered h.there h.looked

  process_dir-none :
      (path : List ℕ) → get_folder path s ≡ none → process_dir ops path s ≡ ok (none, s)
  unfolding process_dir
  process_dir-none path h = rw (h, process_dir) refl

  -- A round of the loop that finds a folder.
  descend_further :
      (cur : List ℕ) (i j : ℕ) (name : List ℕ) (names : List (List ℕ))
      → process_dir ops (join cur name) s ≡ ok (some j, s)
      → descend ops cur (some i) (name ∷ names) s ≡ descend ops (join cur name) (some j) names s
  unfolding descend
  descend_further cur i j name names found = rw (found, ◌>>=◌) refl

  descend-Resolves :
      (cur front : List ℕ) (i : ℕ) (names : List (List ℕ)) (o : Option ℕ)
      → ((name : List ℕ) → IsSimple name → join cur name ≡ front ++ (slash ∷ name))
      → AreSimple names
      → Resolves s front i names o
      → descend ops cur (some i) names s ≡ ok (o, s)
  unfolding descend
  descend-Resolves cur front i names o joins simple last = refl
  descend-Resolves cur front i names o joins simple (lost {name} none_there) =
      rw (joins name simple.0, descend) (rw (process_dir-none _ none_there, ◌>>=◌) refl)
  descend-Resolves cur front i all o joins simple (next {name} {names} {j} found rest) =
      descend_further cur i j name names (rw (joins name simple.0) (process_dir-LooksUp _ j found))
      ∙ ap (λ path. descend ops path (some j) names s) (joins name simple.0)
      ∙ (descend-Resolves (front ++ (slash ∷ name)) (front ++ (slash ∷ name)) j names o
          (λ following h. join-behind front name following simple.0 h) simple.1 rest)

  -- `find_folder` of a path of one or more names, each behind a separator, none of them empty or with a
  -- separator in it, in a tree where the root and the folders on the way have been looked into: it returns the
  -- folder that is registered under the whole path, or none where a beginning of the path, or the whole of it,
  -- has no folder, and leaves the tree as it was.
  pub find_folder-Resolves :
      (root : ℕ) (names : List (List ℕ)) (o : Option ℕ)
      → LooksUp s (slash ∷ []) root
      → names ≢ []
      → AreSimple names
      → Resolves s [] root names o
      → find_folder ops (path_of names) s ≡ ok (o, s)
  unfolding find_folder bytes_eq
  find_folder-Resolves root [] o at_root some_name simple resolves = absurd (some_name refl)
  find_folder-Resolves root ([] ∷ names) o at_root some_name simple resolves = absurd simple.0
  find_folder-Resolves root ((c ∷ cs) ∷ names) o at_root some_name simple resolves =
      rw (process_dir-LooksUp (slash ∷ []) root at_root, ◌>>=◌)
        (rw (relative_path-path_of ((c ∷ cs) ∷ names) simple)
          (descend-Resolves (slash ∷ []) [] root ((c ∷ cs) ∷ names) o join-root simple resolves))
