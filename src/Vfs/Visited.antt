-- ===== src/Vfs/Visited.antt =====
-- A walk of a tree whose folders have been looked into.
use fuse_nx.Prelude.{
  ℕ, zero, suc, ◌≡◌, refl, Bool, Bool-cases, inl, inr, true, false, List, [], ◌∷◌, ◌++◌, get_elem?,
  some,
}
use fuse_nx.Romfs.Types.{Run, ok, ◌>>=◌}
use fuse_nx.Vfs.Path.{join}
use fuse_nx.Vfs.Interface.{Interface}
use fuse_nx.Vfs.Tree.{File, Folder, FileSystem, get_folder, process_dir}
use fuse_nx.Vfs.Walk.{Callback, walk_folders, walk_files, walk}

-- A call of one of the callbacks, with its path.
pub data Event : Type 0 where
  folder file : List ℕ → Event

module _ {C W : Type 0} (s : FileSystem C W) where
  -- The files of a folder, in their order.
  pub data Files (location : List ℕ) : List ℕ → List Event → Type 0 where
    no_file : Files location [] []
    one_file :
        {i : ℕ} {is : List ℕ} {f : File} {es : List Event}
        → get_elem? s.file_nodes i ≡ some f
        → Files location is es
        → Files location (i ∷ is) (file (join location f.name) ∷ es)

  -- The folders of a folder, in their order, each of them looked into and followed by what is below it.
  pub data Folders (Below : List ℕ → List Event → Type 0) (location : List ℕ)
      : List ℕ → List Event → Type 0 where
    no_folder : Folders Below location [] []
    one_folder :
        {i j : ℕ} {is : List ℕ} {d e : Folder C} {below es : List Event}
        → get_elem? s.folder_nodes i ≡ some d
        → get_folder (join location d.name) s ≡ some j
        → get_elem? s.folder_nodes j ≡ some e
        → e.processed ≡ true
        → Below (join location d.name) below
        → Folders Below location is es
        → Folders Below location (i ∷ is) (folder (join location d.name) ∷ (below ++ es))

  -- What is below a location, to a depth: the folders with what is below them, and then the files.
  abbrev pub Visits : ℕ → List ℕ → List Event → Type 0
  Visits zero location es = es ≡ []
  Visits (suc depth) location es =
      (id : ℕ) × (dir : Folder C) × (xs : List Event) × (ys : List Event) × (get_folder location s
        ≡ some id)
      × (get_elem? s.folder_nodes id ≡ some dir)
      × Folders (Visits depth) location dir.children xs
      × Files location dir.files ys
      × (es ≡ xs ++ ys)

module _ {C W : Type 0} (ops : Interface C W) (s : FileSystem C W) where
  pub process_dir-again :
      (path : List ℕ) (j : ℕ) (e : Folder C)
      → get_folder path s ≡ some j
      → get_elem? s.folder_nodes j ≡ some e
      → e.processed ≡ true
      → process_dir ops path s ≡ ok (some j, s)
  unfolding process_dir
  process_dir-again path j e found got looked =
      rw (found, process_dir) (rw (got, ◌>>=◌) (rw looked refl))

module _ {T : Type 0} (on_folder on_file : Callback T) where
  abbrev pub call : Event → T → Bool × T
  call (folder path) t = on_folder path t
  call (file path) t = on_file path t

  -- The calls one after another, up to the first that stops.
  abbrev pub replay : List Event → T → Bool × T
  replay [] t = (false, t)
  replay (e ∷ es) t = elim (call e t).0 [
    | true ↦ (true, (call e t).1)
    | false ↦ replay es (call e t).1
  ]

  replay-append_stop :
      (xs ys : List Event) (t : T) → (replay xs t).0 ≡ true → replay (xs ++ ys) t ≡ replay xs t
  replay-append_stop [] ys t h = cc
  replay-append_stop (x ∷ xs) ys t h = elim (Bool-cases (call x t).0) [
    | inl stops ↦ rw (stops, replay) refl
    | inr goes ↦ rw (goes, replay) (replay-append_stop xs ys (call x t).1 (rw (goes, replay) at h))
  ]

  replay-append_go :
      (xs ys : List Event) (t : T)
      → (replay xs t).0 ≡ false
      → replay (xs ++ ys) t ≡ replay ys (replay xs t).1
  replay-append_go [] ys t h = refl
  replay-append_go (x ∷ xs) ys t h = elim (Bool-cases (call x t).0) [
    | inl stops ↦ let h' = rw (stops, replay) at h in cc
    | inr goes ↦ rw (goes, replay) (replay-append_go xs ys (call x t).1 (rw (goes, replay) at h))
  ]

  module _ {C W : Type 0} (ops : Interface C W) (s : FileSystem C W) where
    -- A walk that has made its calls, and changed nothing in the tree.
    abbrev Replays : Run (Bool × T × FileSystem C W) → List Event → T → Type 0
    Replays o es t = o ≡ ok ((replay es t).0, (replay es t).1, s)

    walk_files-Replays :
        (location is : List ℕ) (es : List Event) (t : T)
        → Files s location is es
        → Replays (walk_files ops on_folder on_file location is t s) es t
    unfolding walk_files
    walk_files-Replays location is es t no_file = refl
    walk_files-Replays location is es t (one_file {f} got rest) =
        elim (Bool-cases (on_file (join location f.name) t).0) [
          | inl stops ↦ rw (got, ◌>>=◌) (rw (stops, replay) refl)
          | inr goes ↦ rw (got, ◌>>=◌) (rw (goes, replay) (walk_files-Replays location _ _ _ rest))
        ]

    -- One folder with what is below it, and then the others.
    folder_round :
        (visit : List ℕ → T → FileSystem C W → Run (Bool × T × FileSystem C W)) (location : List ℕ)
        (i j : ℕ) (is : List ℕ) (d e : Folder C) (below es : List Event) (t : T)
        → get_elem? s.folder_nodes i ≡ some d
        → process_dir ops (join location d.name) s ≡ ok (some j, s)
        → ((u : T) → Replays (visit (join location d.name) u s) below u)
        → ((u : T) → Replays (walk_folders ops on_folder on_file visit location is u s) es u)
        → Replays
            (walk_folders ops on_folder on_file visit location (i ∷ is) t s)
            (folder (join location d.name) ∷ (below ++ es))
            t
    unfolding walk_folders
    folder_round visit location i j is d e below es t got again visited rest =
        rw (got, ◌>>=◌)
          (rw (again, ◌>>=◌)
            (elim (Bool-cases (on_folder (join location d.name) t).0) [
              | inl stops ↦ rw (stops, replay) refl
              | inr goes ↦ rw (goes, replay) (after (on_folder (join location d.name) t).1)
            ]))
      where
        after :
            (u : T)
            → Replays
                (visit (join location d.name) u s >>= λ (q : Bool × T × FileSystem C W). elim q.0 [
                  | true ↦ ok (true, q.1, q.2)
                  | false ↦ walk_folders ops on_folder on_file visit location is q.1 q.2
                ])
                (below ++ es)
                u
        after u =
            rw (visited u, ◌>>=◌)
              (elim (Bool-cases (replay below u).0) [
                | inl stops ↦ rw stops (rw (replay-append_stop below es u stops) (rw stops refl))
                | inr goes ↦
                    rw goes (rw (replay-append_go below es u goes) (rest (replay below u).1))
              ])

    walk_folders-Replays :
        (depth : ℕ)
        → ((location : List ℕ) (es : List Event) (t : T)
            → Visits s depth location es
            → Replays (walk ops on_folder on_file depth location t s) es t)
        → (location is : List ℕ) (es : List Event) (t : T)
        → Folders s (Visits s depth) location is es
        → Replays
            (walk_folders ops on_folder on_file (walk ops on_folder on_file depth) location is t s)
            es
            t
    unfolding walk_folders
    walk_folders-Replays depth visited location is es t no_folder = refl
    walk_folders-Replays depth visited location ids events t
          (one_folder {i} {j} {is} {d} {e} {below} {es} got found at_j looked under rest) =
        folder_round (walk ops on_folder on_file depth) location i j is d e below es t got
          (process_dir-again ops s (join location d.name) j e found at_j looked)
          (λ u. visited (join location d.name) below u under)
          (λ u. walk_folders-Replays depth visited location is es u rest)

    -- A walk from a folder that is there, where the folders below have been looked into and are registered
    -- under their paths, as far down as its depth goes: it makes the
    -- calls of `Visits`, each folder before what is below it, which comes before the next folder, and a
    -- folder's own files after its folders. It makes them in that order up to the first that stops,
    -- returns what they made of the callbacks' state and whether one stopped, and leaves the tree as it
    -- was.
    pub walk-replay :
        (depth : ℕ) (location : List ℕ) (es : List Event) (t : T)
        → Visits s depth location es
        → walk ops on_folder on_file depth location t s ≡ ok ((replay es t).0, (replay es t).1, s)
    unfolding walk
    walk-replay zero location es t none_yet = rw none_yet refl
    walk-replay (suc depth) location es t (id, dir, xs, ys, found, at, folders, files, all) =
        rw (found, walk)
          (rw (at, ◌>>=◌)
            (rw
              (
                walk_folders-Replays depth (walk-replay depth) location dir.children xs t folders,
                ◌>>=◌,
              )
              (rw all (elim (Bool-cases (replay xs t).0) [
                | inl stops ↦ rw stops (rw (replay-append_stop xs ys t stops) (rw stops refl))
                | inr goes ↦ rw goes (
                    rw (replay-append_go xs ys t goes)
                      (walk_files-Replays location _ ys (replay xs t).1 files))
              ]))))
