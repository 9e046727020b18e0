-- ===== src/Formats/Table/Layout.antt =====
-- The layout that the parsers expect, as a function that writes it, and its fields read back.
use fuse_nx.Prelude.{
  ℕ, zero, suc, ◌+◌, ◌*◌, ◌^◌, ◌<◌, ◌≡◌, refl, ap, ◌∙◌, arith, List, [], ◌∷◌, ◌++◌, append_assoc,
  length, length-append, take, drop, some,
}
use fuse_nx.Prelude.Bytes.{le, field_at, to_le, le-to_le, length-to_le}
use fuse_nx.Prelude.Slices.{take-append, drop-append, take_all}
use fuse_nx.Formats.Table.{Entry, c_string, entries_of}

-- A field behind `xs`, and a field that is `xs`.
pub drop_next : (m : ℕ) (xs ys : List ℕ) → length xs ≡ m → drop m (xs ++ ys) ≡ ys
drop_next m xs ys h =
    drop-append m xs ys (omega arith) ∙ ap (λ (k : ℕ). drop k ys) {y = 0} (omega arith)

pub field_at_next :
    (m o n : ℕ) (xs ys : List ℕ) → length xs ≡ m → field_at (m + o) n (xs ++ ys) ≡ field_at o n ys
field_at_next m o n xs ys h =
    ap (λ zs. le (take n zs))
      (drop-append (m + o) xs ys (omega arith) ∙ ap (λ (k : ℕ). drop k ys) {y = o} (omega arith))

pub field_at_head : (n : ℕ) (xs ys : List ℕ) → length xs ≡ n → field_at 0 n (xs ++ ys) ≡ le xs
field_at_head n xs ys h = ap le (take-append n xs ys (omega arith) ∙ take_all n xs (omega arith))

-- Every entry's name, terminated.
abbrev pub names_of : List Entry → List ℕ
names_of [] = []
names_of (e ∷ es) = e.name ++ (0 ∷ names_of es)

-- An entry of the table, with `tail` for the bytes that are not read.
unfoldable pub entry_bytes : List ℕ → ℕ → Entry → List ℕ
entry_bytes tail name_offset e =
    to_le 8 e.offset ++ (to_le 8 e.size ++ (to_le 4 name_offset ++ tail))

-- The table of entries whose names start at `k` in the name table.
unfoldable pub table_of : List ℕ → ℕ → List Entry → List ℕ
table_of tail k [] = []
table_of tail k (e ∷ es) = entry_bytes tail k e ++ table_of tail (k + length e.name + 1) es

abbrev pub IsName : List ℕ → Type 0
IsName [] = Unit {0}
IsName (c ∷ cs) = (0 < c) × IsName cs

-- Offsets and sizes of 64 bits, and names without a zero.
abbrev pub AreEntries : List Entry → Type 0
AreEntries [] = Unit {0}
AreEntries (e ∷ es) = (e.offset < 2 ^ 64) × (e.size < 2 ^ 64) × IsName e.name × AreEntries es

pub c_string-IsName : (name rest : List ℕ) → IsName name → c_string (name ++ (0 ∷ rest)) ≡ some name
unfolding c_string
c_string-IsName [] rest h = refl
c_string-IsName (zero ∷ cs) rest h = absurd (omega arith)
c_string-IsName (suc c ∷ cs) rest h = rw (c_string-IsName cs rest h.1) refl

module _ (tail : List ℕ) where
  length-entry_bytes : (k : ℕ) (e : Entry) → length (entry_bytes tail k e) ≡ 20 + length tail
  unfolding entry_bytes
  length-entry_bytes k e = omega (
    arith,
    length-append (to_le 8 e.offset) (to_le 8 e.size ++ (to_le 4 k ++ tail)),
    length-append (to_le 8 e.size) (to_le 4 k ++ tail),
    length-append (to_le 4 k) tail,
    length-to_le 8 e.offset,
    length-to_le 8 e.size,
    length-to_le 4 k,
  )

  pub length-table_of :
      (k : ℕ) (es : List Entry) → length (table_of tail k es) ≡ length es * (20 + length tail)
  unfolding table_of
  length-table_of k [] = omega arith
  length-table_of k (e ∷ es) = omega (
    arith,
    length-append (entry_bytes tail k e) (table_of tail (k + length e.name + 1) es),
    length-entry_bytes k e,
    length-table_of (k + length e.name + 1) es,
  )

  entry_fields :
      (k : ℕ) (e : Entry) (rest : List ℕ)
      → e.offset < 2 ^ 64
      → e.size < 2 ^ 64
      → k < 2 ^ 32
      → (field_at 0 8 (entry_bytes tail k e ++ rest) ≡ e.offset)
        × (field_at 8 8 (entry_bytes tail k e ++ rest) ≡ e.size)
        × (field_at 16 4 (entry_bytes tail k e ++ rest) ≡ k)
        × (drop (20 + length tail) (entry_bytes tail k e ++ rest) ≡ rest)
  unfolding entry_bytes
  entry_fields k e rest ho hs hk = (
    rw regroup (field_at_head 8 first _ first-length ∙ le-to_le 8 e.offset ho),
    rw regroup (
        field_at_next 8 0 8 first _ first-length
        ∙ (field_at_head 8 second _ second-length ∙ le-to_le 8 e.size hs)),
    rw regroup (
        field_at_next 8 8 4 first _ first-length
        ∙ (field_at_next 8 0 4 second _ second-length
            ∙ (field_at_head 4 third _ (length-to_le 4 k) ∙ le-to_le 4 k hk))),
    drop_next (20 + length tail) (entry_bytes tail k e) rest (length-entry_bytes k e),
  )
    where
      first : List ℕ
      first = to_le 8 e.offset

      second : List ℕ
      second = to_le 8 e.size

      third : List ℕ
      third = to_le 4 k

      first-length : length first ≡ 8
      first-length = length-to_le 8 e.offset

      second-length : length second ≡ 8
      second-length = length-to_le 8 e.size

      regroup : entry_bytes tail k e ++ rest ≡ first ++ (second ++ (third ++ (tail ++ rest)))
      regroup = simp append_assoc

  -- The loop reads back the entries of a table that was laid out so.
  pub entries_of-table_of :
      (k : ℕ) (es : List Entry) (before after : List ℕ)
      → length before ≡ k
      → AreEntries es
      → k + length (names_of es) < 2 ^ 32
      → entries_of
          (20 + length tail)
          (length es)
          (table_of tail k es)
          (before ++ (names_of es ++ after))
        ≡ some es
  unfolding entries_of table_of
  entries_of-table_of k [] before after at h fits = refl
  entries_of-table_of k (e ∷ es) before after at h fits =
      let rest-eq =
        entries_of-table_of (k + length e.name + 1) es before' after
          (omega (arith, length-append before (e.name ++ (0 ∷ [])), length-append e.name (0 ∷ [])))
          h.3 (omega (arith, length-append e.name (0 ∷ names_of es))) in
      rw (fields.2, fields.0, fields.1, fields.3, name-eq, regroup, rest-eq) refl
    where
      rest : List ℕ
      rest = table_of tail (k + length e.name + 1) es

      fields :
          (field_at 0 8 (entry_bytes tail k e ++ rest) ≡ e.offset)
          × (field_at 8 8 (entry_bytes tail k e ++ rest) ≡ e.size)
          × (field_at 16 4 (entry_bytes tail k e ++ rest) ≡ k)
          × (drop (20 + length tail) (entry_bytes tail k e ++ rest) ≡ rest)
      fields = entry_fields k e rest h.0 h.1 (omega arith)

      names : List ℕ
      names = before ++ (names_of (e ∷ es) ++ after)

      name-eq : c_string (drop k names) ≡ some e.name
      name-eq =
          ap c_string (drop_next k before _ at ∙ append_assoc e.name (0 ∷ names_of es) after)
          ∙ c_string-IsName e.name (names_of es ++ after) h.2

      before' : List ℕ
      before' = before ++ (e.name ++ (0 ∷ []))

      regroup : names ≡ before' ++ (names_of es ++ after)
      regroup = simp append_assoc
