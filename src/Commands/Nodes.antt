-- ===== src/Commands/Nodes.antt =====
-- The nodes of a file system, and what a step on one of them keeps.
use mathlib.Core.Option.{some-injective}
use fuse_nx.Prelude.{ℕ, zero, suc, ◌≡◌, ◌≢◌, refl, ap, ◌∙◌, List, [], ◌∷◌, get_elem?, some}
use fuse_nx.Io.{FileBase, Stream}
use fuse_nx.Romfs.Parse.{modify}
use fuse_nx.Vfs.Tree.{File, FileSystem, set_base}
use fuse_nx.Containers.{World, Container}

module _ {ℓ} {A : Type ℓ} where
  pub get_elem?-modify :
      (i : ℕ) (f : A → A) (xs : List A) (x : A)
      → get_elem? xs i ≡ some x
      → get_elem? (modify i f xs) i ≡ some (f x)
  unfolding modify
  get_elem?-modify i f [] x h = cc
  get_elem?-modify zero f (y ∷ xs) x h = ap (λ z. some (f z)) (some-injective y x h)
  get_elem?-modify (suc i) f (y ∷ xs) x h = get_elem?-modify i f xs x h

  pub get_elem?-modify_of_ne :
      (i j : ℕ) (f : A → A) (xs : List A) → i ≢ j → get_elem? (modify i f xs) j ≡ get_elem? xs j
  unfolding modify
  get_elem?-modify_of_ne i j f [] h = refl
  get_elem?-modify_of_ne zero zero f (y ∷ xs) h = absurd (h refl)
  get_elem?-modify_of_ne zero (suc j) f (y ∷ xs) h = refl
  get_elem?-modify_of_ne (suc i) zero f (y ∷ xs) h = refl
  get_elem?-modify_of_ne (suc i) (suc j) f (y ∷ xs) h =
      get_elem?-modify_of_ne i j f xs (λ e. h (ap suc e))

-- The map of the files, the stream's bytes and a node stay as they are.
pub record Keeps (i : ℕ) (s s' : FileSystem Container World) : Type 0 where
  pub files : s'.files ≡ s.files
  pub contents : s'.world.stream.contents ≡ s.world.stream.contents
  pub node : get_elem? s'.file_nodes i ≡ get_elem? s.file_nodes i

-- A step of a thread keeps every node but its own.
abbrev pub Frame : ℕ → FileSystem Container World → FileSystem Container World → Type 0
Frame i s s' = (j : ℕ) → i ≢ j → Keeps j s s'

-- A node that is read, and the stream that has moved.
pub set_base-Frame :
    (i : ℕ) (base : FileBase) (stream : Stream) (s : FileSystem Container World)
    → stream.contents ≡ s.world.stream.contents
    → Frame i s (set_base i base (record s { world = record s.world { stream = stream } }))
unfolding set_base
set_base-Frame i base stream s kept j ne = record {
  files = refl;
  contents = kept;
  node = get_elem?-modify_of_ne i j (λ (f : File). record f { base = base }) s.file_nodes ne;
}

pub set_base_self :
    (i : ℕ) (base : FileBase) (s : FileSystem Container World) (src : File)
    → get_elem? s.file_nodes i ≡ some src
    → get_elem? (set_base i base s).file_nodes i ≡ some (record src { base = base })
unfolding set_base
set_base_self i base s src at =
    get_elem?-modify i (λ (f : File). record f { base = base }) s.file_nodes src at

pub Frame-same : (i : ℕ) (s : FileSystem Container World) → Frame i s s
Frame-same i s j ne = record { files = refl; contents = refl; node = refl }

pub Keeps-same : (i : ℕ) (s : FileSystem Container World) → Keeps i s s
Keeps-same i s = record { files = refl; contents = refl; node = refl }

pub Keeps-trans :
    (i : ℕ) (s s' s'' : FileSystem Container World) → Keeps i s s' → Keeps i s' s'' → Keeps i s s''
Keeps-trans i s s' s'' k l = record {
  files = l.files ∙ k.files;
  contents = l.contents ∙ k.contents;
  node = l.node ∙ k.node;
}
