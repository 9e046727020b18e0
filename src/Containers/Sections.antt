-- ===== src/Containers/Sections.antt =====
-- The files of an Nca are its sections.
use native.Mathlib.Decide.{dec_lt}
use fuse_nx.Prelude.{
  ℕ, zero, suc, ◌+◌, ◌≤◌, ◌<◌, ◌≡◌, ◌⊎◌, inl, inr, refl, ap, ◌∙◌, arith, List, [], ◌∷◌, length,
  get_elem?, Option, none, some,
}
use fuse_nx.Romfs.Types.{ok, fault, ◌>>=◌, lift}
use fuse_nx.Nca.{Nca, Section}
use fuse_nx.Containers.{
  World, FileItem, nca, read_files, section_files, section_names, section_item,
}

get_of_lt {ℓ} :
    {A : Type ℓ} (xs : List A) (i : ℕ) → i < length xs → (x : A) × (get_elem? xs i ≡ some x)
get_of_lt [] i h = absurd (omega arith)
get_of_lt (x ∷ xs) zero h = (x, refl)
get_of_lt (x ∷ xs) (suc i) h = get_of_lt xs i (omega arith)

get_of_le {ℓ} : {A : Type ℓ} (xs : List A) (i : ℕ) → length xs ≤ i → get_elem? xs i ≡ none
get_of_le [] i h = refl
get_of_le (x ∷ xs) zero h = absurd (omega arith)
get_of_le (x ∷ xs) (suc i) h = get_of_le xs i (omega arith)

-- The files of the sections from number `i` on, each by its own number.
pub section_files-listed :
    (n i : ℕ) (sections : List Section)
    → i + n ≤ length sections
    → i + n ≤ 4
    → (items : List FileItem) × (section_files n i sections ≡ ok items)
      × (length items ≡ n)
      × ((j : ℕ)
          → j < n
          → (name : List ℕ) × (s : Section) × (get_elem? sections (i + j) ≡ some s)
            × (get_elem? items j ≡ some (section_item name s)))
unfolding section_files
section_files-listed zero i sections h k = ([], refl, refl, λ j lt. absurd (omega (arith, lt)))
section_files-listed (suc n) i sections h k =
    let (s, found) = get_of_lt sections i (omega arith) in
    let (name, named) = get_of_lt section_names i (omega arith) in
    let (rest, e, size, each) =
      section_files-listed n (suc i) sections (omega arith) (omega arith) in
    (
      section_item name s ∷ rest,
      rw (found, section_files) (rw (named, ◌>>=◌) (rw (e, ◌>>=◌) refl)),
      ap suc size,
      at_number name s found rest each,
    )
  where
    at_number :
        (name : List ℕ) (s : Section)
        → get_elem? sections i ≡ some s
        → (rest : List FileItem)
        → ((j : ℕ)
            → j < n
            → (name' : List ℕ) × (s' : Section) × (get_elem? sections (suc i + j) ≡ some s')
              × (get_elem? rest j ≡ some (section_item name' s')))
        → (j : ℕ) → j < suc n
        → (name' : List ℕ) × (s' : Section) × (get_elem? sections (i + j) ≡ some s')
          × (get_elem? (section_item name s ∷ rest) j ≡ some (section_item name' s'))
    at_number name s found rest each zero lt =
        (name, s, ap (get_elem? sections) {x = i + 0} (omega arith) ∙ found, refl)
    at_number name s found rest each (suc j) lt =
        let (name', s', found', listed) = each j (omega (arith, lt)) in
        (
          name',
          s',
          ap (get_elem? sections) {x = i + suc j} {y = suc i + j} (omega arith) ∙ found',
          listed,
        )

section_files-fault :
    (n i : ℕ) (sections : List Section)
    → length sections < i + n
    → i ≤ length sections
    → section_files n i sections ≡ fault
unfolding section_files
section_files-fault zero i sections h k = absurd (omega arith)
section_files-fault (suc n) i sections h k = elim (dec_lt i (length sections)) [
  | no outside ↦ rw (get_of_le sections i (omega (arith, outside)), section_files) refl
  | yes inside ↦
      let (s, found) = get_of_lt sections i inside in
      rw (found, section_files)
        (after_name s
          (section_files-fault n (suc i) sections (omega arith) (omega (arith, inside))))
]
  where
    after_name :
        (s : Section)
        → section_files n (suc i) sections ≡ fault
        → (lift (get_elem? section_names i) >>= λ name.
            section_files n (suc i) sections >>= λ rest. ok (section_item name s ∷ rest))
          ≡ fault
    after_name s e = named (get_elem? section_names i)
      where
        named :
            (o : Option (List ℕ))
            → (lift o >>= λ name.
                section_files n (suc i) sections >>= λ rest. ok (section_item name s ∷ rest))
              ≡ fault
        named none = refl
        named (some name) = ap (λ r. r >>= λ rest. ok (section_item name s ∷ rest)) e

-- For an Nca whose header counts at most four sections, and no fewer than were made: either all were made,
-- and `read_files` returns one file for each, or some were left out, and it goes out of bounds.
pub read_files-nca :
    (k : ℕ) (n : Nca) (w : World)
    → length n.sections ≤ n.num_sections
    → n.num_sections ≤ 4
    → ((length n.sections ≡ n.num_sections)
        × (items : List FileItem) × (read_files k (nca n) w ≡ ok (items, nca n, w))
        × (length items ≡ n.num_sections))
      ⊎ ((length n.sections < n.num_sections) × (read_files k (nca n) w ≡ fault))
unfolding read_files
read_files-nca k n w counted few = elim (dec_lt (length n.sections) n.num_sections) [
  | yes more ↦ inr (
    more,
    ap (λ r. r >>= λ is. ok (is, nca n, w))
        (section_files-fault n.num_sections 0 n.sections (omega (arith, more)) (omega arith)),
  )
  | no same ↦
      let (items, e, size, each) =
        section_files-listed n.num_sections 0 n.sections (omega (arith, same)) (omega arith) in
      inl (omega (arith, same, counted), items, ap (λ r. r >>= λ is. ok (is, nca n, w)) e, size)
]
