-- ===== src/Nca/Made.antt =====
-- What the loop over the sections makes: it returns wherever they lie, and leaves out those of an
-- encryption that is not supported.
use fuse_nx.Prelude.{
  ℕ, suc, ◌≤◌, ◌≡◌, ◌↔◌, inl, inr, Bool-cases, refl, ap, arith, Bool, true, ◌&&◌, ◌||◌, ◌⊎◌, ◌==◌,
  some, none, Option, List, [], ◌∷◌, ◌++◌, length,
}
use fuse_nx.Io.{FileBase, Stream, read_at, clone}
use fuse_nx.Io.Returns.{
  IsUndecrypted, clone-IsUndecrypted, Returns, ctr_file_head-Returns, offset_file_head-Returns,
}
use fuse_nx.Formats.Table.{construct, ◌>>=◌}
use fuse_nx.Romfs.Tables.{romfs as romfs_of}
use fuse_nx.Crypto.{Backend}
use fuse_nx.Keyset.Text.{ok}
use fuse_nx.Nca.{
  Nca, Section, SectionInfo, SectionType, pfs, romfs, contain, section, section_file,
  make_section_info, encryption_type, sections_of, existing, is_supported, with_sections,
}

abbrev all_supported : List (List ℕ × List ℕ) → Bool
all_supported [] = true
all_supported ((entry, header) ∷ rest) = is_supported header && all_supported rest

Returns->>= :
    {A B : Type 0} (o : Option A) (f : A → Option B)
    → Returns o
    → ((a : A) → Returns (f a))
    → Returns (o >>= f)
Returns->>= none f (a, e) h = cc
Returns->>= (some a) f _ h = h a

module _ (b : Backend) (uninit : ℕ → List ℕ) where
  contain-Returns :
      (type : SectionType) (f : FileBase) (s : Stream)
      → ((dest : List ℕ) → Returns (read_at b 0 f dest s))
      → Returns (contain b uninit type f s)
  unfolding contain construct romfs_of
  contain-Returns pfs f s h =
      Returns->>= _ _ (Returns->>= _ _ (h (uninit 0x10)) (λ r. (_, refl))) (λ q. (_, refl))
  contain-Returns romfs f s h =
      Returns->>= _ _ (Returns->>= _ _ (h (uninit 0x50)) (λ r. (_, refl))) (λ q. (_, refl))

  section_file-Returns :
      (info : SectionInfo) (header key : List ℕ) (base : FileBase) (dest : List ℕ) (s : Stream)
      → IsUndecrypted base
      → Returns (read_at b 0 (section_file info header key base) dest s)
  unfolding section_file
  section_file-Returns info header key base dest s h =
      elim (Bool-cases (encryption_type header == 3)) [
        | inl e ↦
            rw e (ctr_file_head-Returns b base _ info.container_size info.container_offset dest s h)
        | inr e ↦
            rw e
              (offset_file_head-Returns b base info.container_size info.container_offset dest s h)
      ]

  section-Returns :
      (entry header key : List ℕ) (base : FileBase) (s : Stream)
      → IsUndecrypted base
      → Returns (section b uninit entry header key base s)
  unfolding section
  section-Returns entry header key base s h =
      let info = make_section_info entry header in
      Returns->>= _ _
        (contain-Returns info.type (section_file info header key base) s
          (λ dest. section_file-Returns info header key base dest s h))
        (λ q. (_, refl))

  -- What the loop over the sections makes.
  MadeOf : List (List ℕ × List ℕ) → Option (List Section × Stream) → Type 0
  MadeOf es o =
      (made : List Section) × (s' : Stream) × (o ≡ some (made, s'))
      × (length made ≤ length es)
      × ((length made ≡ length es) ↔ (all_supported es ≡ true))

  sections_of-MadeOf :
      (key : List ℕ) (base : FileBase) (es : List (List ℕ × List ℕ)) (s : Stream)
      → IsUndecrypted base
      → MadeOf es (sections_of b uninit key base es s)
  unfolding MadeOf sections_of
  sections_of-MadeOf key base [] s h = ([], s, refl, omega arith, (λ e. refl, λ e. refl))
  sections_of-MadeOf key base ((entry, header) ∷ rest) s h =
      elim (Bool-cases (is_supported header)) [
        | inl e ↦
            let ((one, s1), e1) =
              section-Returns entry header key (clone base) s (clone-IsUndecrypted base h) in
            let (others, s2, e2, le, same) = sections_of-MadeOf key base rest s1 h in
            (
              one ∷ others,
              s2,
              rw (e, sections_of) (rw (e1, ◌>>=◌) (rw (e2, ◌>>=◌) refl)),
              omega (arith, le),
              rw e (λ n. same.0 (omega (arith, n)), λ a. ap suc (same.1 a)),
            )
        | inr e ↦
            let (others, s2, e2, le, same) = sections_of-MadeOf key base rest s h in
            (
              others,
              s2,
              rw (e, sections_of) e2,
              omega (arith, le),
              rw e (λ n. absurd (omega (arith, n, le)), λ a. cc),
            )
      ]

  pub with_sections-Returns :
      (n : Nca) (s : Stream)
      → IsUndecrypted n.base
      → (n' : Nca) × (s' : Stream) × (with_sections b uninit n s ≡ ok (true, n', s'))
  unfolding with_sections MadeOf
  with_sections-Returns n s h =
      let (made, s', e, le, same) =
        sections_of-MadeOf n.body_key n.base (existing 4 0 n.header) s h in
      (record n { sections = n.sections ++ made }, s', rw (e, with_sections) refl)

one_or_three : (n : ℕ) → ((n == 1) || (n == 3)) ≡ true → (n ≡ 1) ⊎ (n ≡ 3)
one_or_three n h = elim (Bool-cases (n == 1)) [
  | inl e ↦ inl (ground arith)
  | inr e ↦ inr (ground arith)
]

-- The encryptions that are supported: 1, which is none, and 3, which is the counter mode.
abbrev pub IsPlainOrCtr : List ℕ → Type 0
IsPlainOrCtr header = (encryption_type header ≡ 1) ⊎ (encryption_type header ≡ 3)

abbrev pub ArePlainOrCtr : List (List ℕ × List ℕ) → Type 0
ArePlainOrCtr [] = Unit {0}
ArePlainOrCtr ((entry, header) ∷ es) = IsPlainOrCtr header × ArePlainOrCtr es

supported-IsPlainOrCtr : (header : List ℕ) → is_supported header ≡ true → IsPlainOrCtr header
unfolding is_supported
supported-IsPlainOrCtr header h = one_or_three (encryption_type header) h

is_supported-true : (header : List ℕ) → IsPlainOrCtr header → is_supported header ≡ true
unfolding is_supported
is_supported-true header (inl e) = rw e refl
is_supported-true header (inr e) = rw e refl

supported-ArePlainOrCtr : (es : List (List ℕ × List ℕ)) → all_supported es ≡ true → ArePlainOrCtr es
supported-ArePlainOrCtr [] h = tt
supported-ArePlainOrCtr ((entry, header) ∷ es) h = elim (Bool-cases (is_supported header)) [
  | inl e ↦
      (supported-IsPlainOrCtr header e, supported-ArePlainOrCtr es (rw (e, all_supported) at h))
  | inr e ↦ let h' = rw (e, all_supported) at h in cc
]

all_supported-true : (es : List (List ℕ × List ℕ)) → ArePlainOrCtr es → all_supported es ≡ true
all_supported-true [] h = refl
all_supported-true ((entry, header) ∷ es) h =
    rw (is_supported-true header h.0, all_supported) (all_supported-true es h.1)

-- For any entries over a file that is not within a decrypting window, the loop of `Nca::parse` over the
-- sections returns, wherever they lie. There is a section for each entry exactly when the encryption of every
-- entry is none or the counter mode; otherwise there are fewer sections than entries.
pub length-sections_of_iff :
    (b : Backend) (uninit : ℕ → List ℕ) (key : List ℕ) (base : FileBase)
    → (es : List (List ℕ × List ℕ)) (s : Stream) → IsUndecrypted base
    → (made : List Section) × (s' : Stream) × (sections_of b uninit key base es s ≡ some (made, s'))
      × (length made ≤ length es)
      × ((length made ≡ length es) ↔ ArePlainOrCtr es)
unfolding MadeOf
length-sections_of_iff b uninit key base es s h =
    let (made, s', e, le, same) = sections_of-MadeOf b uninit key base es s h in
    (
      made,
      s',
      e,
      le,
      (λ n. supported-ArePlainOrCtr es (same.0 n), λ a. same.1 (all_supported-true es a)),
    )
