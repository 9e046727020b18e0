-- ===== src/Vfs/Stops.antt =====
-- What holds of the result of a run, and of a walk whose callbacks keep something.
use mathlib.Core.Path.{subst}
use fuse_nx.Prelude.{
  ℕ, zero, suc, ◌≡◌, refl, Bool, true, false, List, [], ◌∷◌, get_elem?, Option, none, some,
}
use fuse_nx.Romfs.Types.{Run, ok, fault, out_of_fuel, ◌>>=◌, lift}
use fuse_nx.Vfs.Path.{join}
use fuse_nx.Vfs.Interface.{Interface}
use fuse_nx.Vfs.Tree.{FileSystem, get_folder, process_dir}
use fuse_nx.Vfs.Walk.{Callback, walk_folders, walk_files, walk}

module _ {ℓ κ} {A : Type ℓ} (P : A → Type κ) where
  -- If the run returns, it returns what is asked for.
  abbrev pub Allows : Run A → Type κ
  Allows (ok a) = P a
  Allows fault = Unit
  Allows out_of_fuel = Unit

module _ {ℓ κ ρ} {A B : Type ℓ} (P : A → Type κ) (Q : B → Type ρ) where
  pub Allows->>= :
      (r : Run A) (f : A → Run B)
      → Allows P r
      → ((a : A) → P a → Allows Q (f a))
      → Allows Q (r >>= f)
  Allows->>= (ok a) f p q = q a p
  Allows->>= fault f p q = tt
  Allows->>= out_of_fuel f p q = tt

module _ {ℓ κ ρ} {A : Type ℓ} {B : Type κ} (Q : B → Type ρ) where
  pub Allows-any : (r : Run A) (f : A → Run B) → ((a : A) → Allows Q (f a)) → Allows Q (r >>= f)
  Allows-any (ok a) f q = q a
  Allows-any fault f q = tt
  Allows-any out_of_fuel f q = tt

  pub Allows-lift :
      (o : Option A) (f : A → Run B)
      → ((a : A) → o ≡ some a → Allows Q (f a))
      → Allows Q (lift o >>= f)
  Allows-lift none f q = tt
  Allows-lift (some a) f q = q a refl

  pub Allows-option :
      (o : Option A) (n : Run B) (f : A → Run B)
      → Allows Q n
      → ((a : A) → Allows Q (f a))
      → Allows Q (elim o [ none ↦ n | some a ↦ f a ])
  Allows-option none n f p q = p
  Allows-option (some a) n f p q = q a

  pub Allows-option_eq :
      (o : Option A) (n : Run B) (f : A → Run B)
      → (o ≡ none → Allows Q n)
      → ((a : A) → o ≡ some a → Allows Q (f a))
      → Allows Q (elim o [ none ↦ n | some a ↦ f a ])
  Allows-option_eq none n f p q = p refl
  Allows-option_eq (some a) n f p q = q a refl

module _ {ℓ κ} {A : Type ℓ} (P : A → Type κ) where
  pub Allows-bool :
      (c : Bool) (r s : Run A)
      → (c ≡ true → Allows P r)
      → (c ≡ false → Allows P s)
      → Allows P (elim c [ true ↦ r | false ↦ s ])
  Allows-bool true r s p q = p refl
  Allows-bool false r s p q = q refl

-- Where a callback left its state, and whether the walk goes on.
pub data Outcome {T : Type 0} (P Q : T → Type 0) : Bool → T → Type 0 where
  goes : {t : T} → P t → Outcome P Q false t
  stops : {t : T} → Q t → Outcome P Q true t

module _ {C W T : Type 0} (ops : Interface C W) (on_folder on_file : Callback T)
    (P Q : T → Type 0) where
  abbrev pub Goes : Bool × T × FileSystem C W → Type 0
  Goes (stop, t, s) = Outcome P Q stop t

  abbrev pub Keeps : Callback T → Type 0
  Keeps visit = (path : List ℕ) (t : T) → P t → Outcome P Q (visit path t).0 (visit path t).1

  after_call :
      (stop : Bool) (t : T) (s : FileSystem C W) (go : Run (Bool × T × FileSystem C W))
      → Outcome P Q stop t
      → (P t → Allows Goes go)
      → Allows Goes (elim stop [ true ↦ ok (true, t, s) | false ↦ go ])
  after_call stop t s go (stops q) h = stops q
  after_call stop t s go (goes p) h = h p

  walk_files-Allows :
      (location : List ℕ) (is : List ℕ) (t : T) (s : FileSystem C W)
      → Keeps on_file
      → P t
      → Allows Goes (walk_files ops on_folder on_file location is t s)
  unfolding walk_files
  walk_files-Allows location [] t s keeps p = goes p
  walk_files-Allows location (i ∷ is) t s keeps p =
      Allows-any Goes (lift (get_elem? s.file_nodes i)) _ (λ f.
        after_call _ _ s _ (keeps (join location f.name) t p)
          (λ p'. walk_files-Allows location is _ s keeps p'))

  walk_folders-Allows :
      (visit : List ℕ → T → FileSystem C W → Run (Bool × T × FileSystem C W))
      → ((path : List ℕ) (t : T) (s : FileSystem C W) → P t → Allows Goes (visit path t s))
      → (location : List ℕ) (is : List ℕ) (t : T) (s : FileSystem C W) → Keeps on_folder
      → P t
      → Allows Goes (walk_folders ops on_folder on_file visit location is t s)
  unfolding walk_folders
  walk_folders-Allows visit below location [] t s keeps p = goes p
  walk_folders-Allows visit below location (i ∷ is) t s keeps p =
      Allows-any Goes (lift (get_elem? s.folder_nodes i)) _ (λ d.
        Allows-any Goes (process_dir ops (join location d.name) s) _ (λ found.
          after_call _ _ found.1 _ (keeps (join location d.name) t p) (λ p'.
            Allows->>= Goes Goes (visit (join location d.name) _ found.1) _ (below _ _ _ p') (λ r o.
              after_call r.0 r.1 r.2 _ o
                (λ p''. walk_folders-Allows visit below location is _ _ keeps p'')))))

  -- A walk whose callbacks keep a property of their state, or stop with another, returns with the first
  -- property if it was not stopped.
  pub walk-Allows :
      (weaken : (t : T) → P t → Q t) (depth : ℕ) (location : List ℕ) (t : T) (s : FileSystem C W)
      → Keeps on_folder
      → Keeps on_file
      → P t
      → Allows Goes (walk ops on_folder on_file depth location t s)
  unfolding walk
  walk-Allows weaken zero location t s folders files p = goes p
  walk-Allows weaken (suc depth) location t s folders files p =
      Allows-option Goes (get_folder location s) _ _ (stops (weaken t p)) (λ id.
        Allows-any Goes (lift (get_elem? s.folder_nodes id)) _ (λ dir.
          Allows->>= Goes Goes
            (walk_folders ops on_folder on_file (walk ops on_folder on_file depth) location
              dir.children t s)
            _
            (walk_folders-Allows _ (λ path t' s'. walk-Allows weaken depth path t' s' folders files)
              location dir.children t s folders p)
            (λ r o.
              after_call r.0 r.1 r.2 _ o
                (λ p'. walk_files-Allows location dir.files _ _ files p'))))

pub Allows-ok {ℓ κ} :
    {A : Type ℓ} (P : A → Type κ) (r : Run A) (a : A) → Allows P r → r ≡ ok a → P a
Allows-ok P r a h e = subst (Allows P) e h

pub Allows-weaken {ℓ κ ρ} :
    {A : Type ℓ} (P : A → Type κ) (Q : A → Type ρ) (r : Run A)
    → Allows P r
    → ((a : A) → P a → Q a)
    → Allows Q r
Allows-weaken P Q (ok a) p h = h a p
Allows-weaken P Q fault p h = tt
Allows-weaken P Q out_of_fuel p h = tt
