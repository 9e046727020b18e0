-- ===== src/Romfs/Entries.antt =====
-- The entries that `parse_dir` makes of the chains of a directory.
use fuse_nx.Prelude.{
  ℕ, zero, suc, ◌<◌, ◌≡◌, refl, sym, ap, ap₂, ◌∙◌, arith, fun_ext, List, [], ◌∷◌, ◌++◌, length,
  length-append, map, some, append_assoc, append-nil, false,
}
use fuse_nx.Romfs.Types.{Run, ok, ◌>>=◌, RomFs, DirEntry, FileEntry, DirMeta, FileMeta, dir_meta_at}
use fuse_nx.Romfs.Parse.{modify, add_dir, add_file, files_of, parse_entry}
use fuse_nx.Romfs.Siblings.{
  Dirs, Files, add_dirs, add_files, dirs_from-Dirs, files_from-Files, add_dirs-keeps,
}

-- The numbers of `n` new elements of a vector.
abbrev pub range : ℕ → ℕ → List ℕ
range from zero = []
range from (suc n) = from ∷ range (suc from) n

module _ {ℓ} {A : Type ℓ} where
  modify-append :
      (i : ℕ) (f : A → A) (xs ys : List A)
      → i < length xs
      → modify i f (xs ++ ys) ≡ modify i f xs ++ ys
  unfolding modify
  modify-append i f [] ys h = absurd (omega arith)
  modify-append zero f (x ∷ xs) ys h = refl
  modify-append (suc i) f (x ∷ xs) ys h = ap (◌∷◌ x) (modify-append i f xs ys (omega arith))

  pub length-modify : (i : ℕ) (f : A → A) (xs : List A) → length (modify i f xs) ≡ length xs
  unfolding modify
  length-modify i f [] = refl
  length-modify zero f (x ∷ xs) = refl
  length-modify (suc i) f (x ∷ xs) = omega (arith, length-modify i f xs)

  modify-modify :
      (i : ℕ) (f g : A → A) (xs : List A) → modify i g (modify i f xs) ≡ modify i (λ x. g (f x)) xs
  unfolding modify
  modify-modify i f g [] = refl
  modify-modify zero f g (x ∷ xs) = refl
  modify-modify (suc i) f g (x ∷ xs) = ap (◌∷◌ x) (modify-modify i f g xs)

  modify-same : (i : ℕ) (xs : List A) → modify i (λ x. x) xs ≡ xs
  unfolding modify
  modify-same i [] = refl
  modify-same zero (x ∷ xs) = refl
  modify-same (suc i) (x ∷ xs) = ap (◌∷◌ x) (modify-same i xs)

-- The directory that a record makes, and the file.
abbrev pub dir_of : ℕ → ℕ × DirMeta → DirEntry
dir_of entry (off, m) = record {
  parent = some entry;
  meta = some off;
  name = m.name;
  children = [];
  files = [];
}

abbrev pub file_of : ℕ → ℕ × FileMeta → FileEntry
file_of entry (off, m) = record {
  parent = some entry;
  meta = some off;
  name = m.name;
  offset = m.data_off;
  size = m.data_sz;
}

abbrev pub with_children : List ℕ → DirEntry → DirEntry
with_children is d = record d { children = d.children ++ is }

abbrev pub with_files : List ℕ → DirEntry → DirEntry
with_files is d = record d { files = d.files ++ is }

add_dirs-dir_entries :
    (entry : ℕ) (ms : List (ℕ × DirMeta)) (r : RomFs)
    → entry < length r.dir_entries
    → (add_dirs entry ms r).dir_entries
      ≡ modify entry (with_children (range (length r.dir_entries) (length ms))) r.dir_entries
        ++ map (dir_of entry) ms
unfolding add_dir
add_dirs-dir_entries entry [] r h = sym (
    append-nil (modify entry (with_children []) r.dir_entries)
    ∙ ap (λ f. modify entry f r.dir_entries) (fun_ext nothing)
    ∙ modify-same entry r.dir_entries)
  where
    nothing : (d : DirEntry) → with_children [] d ≡ d
    nothing d = ap (λ is. record d { children = is }) (append-nil d.children)
add_dirs-dir_entries entry ((off, m) ∷ ms) r h =
    add_dirs-dir_entries entry ms r1 (omega (arith, h, size))
    ∙ ap₂
        (λ (n : ℕ) ds.
          modify entry (with_children (range n (length ms))) ds ++ map (dir_of entry) ms)
        size refl
    ∙ ap (λ ds. ds ++ map (dir_of entry) ms)
        (modify-append entry (with_children later)
            (modify entry (with_children (n ∷ [])) r.dir_entries) (d ∷ [])
            (omega (arith, h, length-modify entry (with_children (n ∷ [])) r.dir_entries))
          ∙ ap (λ ds. ds ++ (d ∷ []))
              (modify-modify entry (with_children (n ∷ [])) (with_children later) r.dir_entries
                ∙ ap (λ f. modify entry f r.dir_entries) (fun_ext together)))
    ∙ append_assoc (modify entry (with_children (n ∷ later)) r.dir_entries) (d ∷ [])
        (map (dir_of entry) ms)
  where
    n : ℕ
    n = length r.dir_entries

    later : List ℕ
    later = range (suc n) (length ms)

    r1 : RomFs
    r1 = add_dir entry off m.name r

    d : DirEntry
    d = dir_of entry (off, m)

    size : length r1.dir_entries ≡ suc n
    size = omega (
      arith,
      length-append (modify entry (with_children (n ∷ [])) r.dir_entries) (d ∷ []),
      length-modify entry (with_children (n ∷ [])) r.dir_entries,
    )

    together :
        (e : DirEntry)
        → with_children later (with_children (n ∷ []) e) ≡ with_children (n ∷ later) e
    together e = ap (λ is. record e { children = is }) (append_assoc e.children (n ∷ []) later)

add_files-entries :
    (entry : ℕ) (ms : List (ℕ × FileMeta)) (r : RomFs)
    → ((add_files entry ms r).dir_entries
        ≡ modify entry (with_files (range (length r.file_entries) (length ms))) r.dir_entries)
      × ((add_files entry ms r).file_entries ≡ r.file_entries ++ map (file_of entry) ms)
unfolding add_file
add_files-entries entry [] r = (
  sym (ap (λ f. modify entry f r.dir_entries) (fun_ext nothing) ∙ modify-same entry r.dir_entries),
  sym (append-nil r.file_entries),
)
  where
    nothing : (d : DirEntry) → with_files [] d ≡ d
    nothing d = ap (λ is. record d { files = is }) (append-nil d.files)
add_files-entries entry ((off, m) ∷ ms) r =
    let (dirs, files) = add_files-entries entry ms (add_file entry off m r) in
    (
      dirs
          ∙ ap
              (λ (k : ℕ).
                modify entry (with_files (range k (length ms)))
                  (modify entry (with_files (n ∷ [])) r.dir_entries))
              {y = suc n}
              (omega (arith, length-append r.file_entries (file_of entry (off, m) ∷ [])))
          ∙ modify-modify entry (with_files (n ∷ [])) (with_files later) r.dir_entries
          ∙ ap (λ f. modify entry f r.dir_entries) (fun_ext together),
      files ∙ append_assoc r.file_entries (file_of entry (off, m) ∷ []) (map (file_of entry) ms),
    )
  where
    n : ℕ
    n = length r.file_entries

    later : List ℕ
    later = range (suc n) (length ms)

    together : (e : DirEntry) → with_files later (with_files (n ∷ []) e) ≡ with_files (n ∷ later) e
    together e = ap (λ is. record e { files = is }) (append_assoc e.files (n ∷ []) later)

parse_entry-chains :
    (k entry off : ℕ) (m : DirMeta) (r : RomFs) (ds : List (ℕ × DirMeta)) (fs : List (ℕ × FileMeta))
    → dir_meta_at r.dir_meta_tbl off ≡ ok m
    → Dirs r.dir_meta_tbl m.child_off ds
    → Files r.file_meta_tbl m.file_off fs
    → length ds < k
    → length fs < k
    → parse_entry (suc k) false entry off r ≡ ok (add_files entry fs (add_dirs entry ds r))
unfolding parse_entry files_of
parse_entry-chains k entry off m r ds fs read dirs files hd hf =
    rw (read, parse_entry)
      (ap (λ (o : Run RomFs). o >>= files_of k entry m)
          (dirs_from-Dirs r.dir_meta_tbl m.child_off ds dirs k entry r refl hd)
        ∙ files_from-Files r.file_meta_tbl m.file_off fs files k entry (add_dirs entry ds r)
            (add_dirs-keeps entry ds r).0 hf)

-- When the children and the files of a directory are the chains `ds` and `fs`, which are shorter than the
-- rounds given, `parse_dir` of the directory returns. It adds a directory for each record of `ds` and a
-- file for each of `fs`, in order, with the names, parents, offsets and sizes of the records, adds the
-- numbers of these to the directory's own lists, and changes no other entry.
pub parse_entry-Chain :
    (k entry off : ℕ) (m : DirMeta) (r : RomFs) (ds : List (ℕ × DirMeta)) (fs : List (ℕ × FileMeta))
    → dir_meta_at r.dir_meta_tbl off ≡ ok m
    → entry < length r.dir_entries
    → Dirs r.dir_meta_tbl m.child_off ds
    → Files r.file_meta_tbl m.file_off fs
    → length ds < k
    → length fs < k
    → (r' : RomFs) × (parse_entry (suc k) false entry off r ≡ ok r')
      × (r'.dir_entries
          ≡ modify entry
              (λ d.
                with_files
                  (range (length r.file_entries) (length fs))
                  (with_children (range (length r.dir_entries) (length ds)) d))
              r.dir_entries
            ++ map (dir_of entry) ds)
      × (r'.file_entries ≡ r.file_entries ++ map (file_of entry) fs)
parse_entry-Chain k entry off m r ds fs read there dirs files hd hf = (
  add_files entry fs (add_dirs entry ds r),
  parse_entry-chains k entry off m r ds fs read dirs files hd hf,
  (add_files-entries entry fs r1).0
      ∙ ap₂ (λ (n : ℕ) xs. modify entry (with_files (range n (length fs))) xs)
          (ap (length {A = FileEntry}) (add_dirs-keeps entry ds r).1)
          (add_dirs-dir_entries entry ds r there)
      ∙ modify-append entry (with_files numbers)
          (modify entry (with_children children) r.dir_entries) (map (dir_of entry) ds)
          (omega (arith, there, length-modify entry (with_children children) r.dir_entries))
      ∙ ap (λ xs. xs ++ map (dir_of entry) ds)
          (modify-modify entry (with_children children) (with_files numbers) r.dir_entries),
  (add_files-entries entry fs r1).1
      ∙ ap (λ xs. xs ++ map (file_of entry) fs) (add_dirs-keeps entry ds r).1,
)
  where
    r1 : RomFs
    r1 = add_dirs entry ds r

    children : List ℕ
    children = range (length r.dir_entries) (length ds)

    numbers : List ℕ
    numbers = range (length r.file_entries) (length fs)
