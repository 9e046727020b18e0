-- ===== src/Containers/Nested.antt =====
-- A Pfs within a section of an Nca, opened as a container of its own.
use mathlib.Core.Path.{subst}
use mathlib.Core.Option.{some-injective}
use fuse_nx.Prelude.{
  ℕ, zero, suc, ◌+◌, ◌≤◌, ◌<◌, ◌^◌, ◌≡◌, refl, sym, ap, ◌∙◌, arith, true, List, [], ◌∷◌, map,
  length, get_elem?, some,
}
use fuse_nx.Prelude.Slices.{slice}
use fuse_nx.Crypto.{Backend}
use fuse_nx.Crypto.Ctr.{IsCtrMode}
use fuse_nx.Io.{FileBase, Stream}
use fuse_nx.Io.View.{view, IsReady}
use fuse_nx.Io.Clone.{clone-view, clone-IsReady}
use fuse_nx.Keyset.{KeySet}
use fuse_nx.Keyset.Titles.{TitlekeySet}
use fuse_nx.Keyset.Text
use fuse_nx.Formats.Table.{Table, Entry}
use fuse_nx.Formats.Table.Layout.{names_of, AreEntries}
use fuse_nx.Formats.Table.Parse.{image}
use fuse_nx.Formats.Pfs.{magic}
use fuse_nx.Formats.Pfs
use fuse_nx.Romfs.Types.{ok, ◌>>=◌}
use fuse_nx.Nca.{Nca, Section, existing, parse, with_body_key, contained_base}
use fuse_nx.Nca.Sections.{Shows, IsSized}
use fuse_nx.Nca.Contents.{AreLaidOut, AllShow, parse-AllShow}
use fuse_nx.Containers.{World, FileItem, pfs, nca, read_files, section_item}
use fuse_nx.Containers.Make.{make_container}
use fuse_nx.Containers.Opens.{HaveNoTickets, make_container-image}
use fuse_nx.Containers.Sections.{section_files-listed}

module _ (pad : List ℕ → ℕ → ℕ → ℕ) (xs : List ℕ) where
  -- A listed file is ready and has the bytes `plain`.
  ItemShows : FileItem → List ℕ → Type 0
  ItemShows (name, f, flag) plain = IsReady pad f xs × (view pad f xs ≡ plain)

  item-ItemShows :
      (name : List ℕ) (s : Section) (plain : List ℕ)
      → Shows pad (contained_base s.container) xs plain
      → ItemShows (section_item name s) plain
  unfolding ItemShows section_item Shows
  item-ItemShows name s plain (ready, shows) = (
    clone-IsReady pad xs (contained_base s.container) ready,
    clone-view pad xs (contained_base s.container) ∙ shows,
  )

  AllShow-length :
      (sections : List Section) (plains : List (List ℕ))
      → AllShow pad sections xs plains
      → length sections ≡ length plains
  AllShow-length [] [] h = refl
  AllShow-length [] (plain ∷ plains) h = absurd h
  AllShow-length (s ∷ sections) [] h = absurd h
  AllShow-length (s ∷ sections) (plain ∷ plains) h = ap suc (AllShow-length sections plains h.1)

  AllShow-get :
      (sections : List Section) (plains : List (List ℕ)) (i : ℕ) (s : Section) (plain : List ℕ)
      → AllShow pad sections xs plains
      → get_elem? sections i ≡ some s
      → get_elem? plains i ≡ some plain
      → Shows pad (contained_base s.container) xs plain
  AllShow-get [] plains i s plain h e e' = cc
  AllShow-get (t ∷ sections) [] i s plain h e e' = absurd h
  AllShow-get (t ∷ sections) (p ∷ plains) zero s plain h e e' =
      subst (λ u. Shows pad (contained_base (Section.container u)) xs plain) (some-injective _ _ e)
        (subst (Shows pad (contained_base t.container) xs) (some-injective _ _ e') h.0)
  AllShow-get (t ∷ sections) (p ∷ plains) (suc i) s plain h e e' =
      AllShow-get sections plains i s plain h.1 e e'

get_elem?-lt : (xs : List (List ℕ)) (i : ℕ) (x : List ℕ) → get_elem? xs i ≡ some x → i < length xs
get_elem?-lt [] i x e = cc
get_elem?-lt (y ∷ xs) zero x e = omega arith
get_elem?-lt (y ∷ xs) (suc i) x e = omega (arith, get_elem?-lt xs i x e)

-- The files that `read_files` lists of an Nca whose sections show `plains`.
listed :
    (pad : List ℕ → ℕ → ℕ → ℕ) (k : ℕ) (n : Nca) (w : World) (xs : List ℕ) (plains : List (List ℕ))
    (i : ℕ) (plain : List ℕ)
    → n.num_sections ≡ length plains
    → length plains ≤ 4
    → AllShow pad n.sections xs plains
    → get_elem? plains i ≡ some plain
    → (items : List FileItem) × (item : FileItem) × (read_files k (nca n) w ≡ ok (items, nca n, w))
      × (get_elem? items i ≡ some item)
      × ItemShows pad xs item plain
unfolding read_files
listed pad k n w xs plains i plain count few shows found =
    let i_lt = get_elem?-lt plains i plain found in
    let total = AllShow-length pad xs n.sections plains shows in
    let (items, e, size, each) =
      section_files-listed n.num_sections 0 n.sections (omega (arith, total, count))
        (omega (arith, count, few)) in
    let (name, s, at, here) = each i (omega (arith, i_lt, count)) in
    (
      items,
      section_item name s,
      ap (λ r. r >>= λ is. ok (is, nca n, w)) e,
      here,
      item-ItemShows pad xs name s plain (
          AllShow-get pad xs n.sections plains i s plain shows
            (ap (get_elem? n.sections) {x = i} (omega arith) ∙ at) found),
    )

-- Where an Nca without sections as yet has at most four in its file, all of supported encryptions, each of at least
-- 0x50 bytes and sealed with the content's key, and the one with number `i` is a Pfs image of at least 0x400 bytes
-- none of whose names is a ticket's: `parse` returns,
-- `read_files` of the container lists the section as its file number `i`, and `make_container` of that file
-- returns a Pfs container, whose `read_files` lists the laid-out entries in order, each that lies within the
-- data as a file of exactly the entry's plain bytes.
pub nca_section-image :
    {b : Backend} {pad : List ℕ → ℕ → ℕ → ℕ}
    → IsCtrMode b pad
    → (uninit : ℕ → List ℕ) → IsSized uninit
    → (k : ℕ) (keys : KeySet) (titles : TitlekeySet) (n n1 : Nca) (w : World)
      (plains : List (List ℕ))
    → with_body_key b keys titles n ≡ Text.ok (true, n1)
    → n1.sections ≡ []
    → n1.num_sections ≡ length plains
    → length plains ≤ 4
    → IsReady pad n1.base w.stream.contents
    → AreLaidOut pad n1.body_key n1.base w.stream.contents (existing 4 0 n1.header) plains
    → (i res : ℕ) (tail : List ℕ) (es : List Entry) (contents : List ℕ)
    → get_elem? plains i ≡ some (image magic res tail es contents)
    → length es < 2 ^ 32
    → length (names_of es) < 2 ^ 32
    → AreEntries es
    → length tail ≡ 4
    → HaveNoTickets es
    → 0x400 ≤ length (image magic res tail es contents)
    → (n' : Nca) × (s' : Stream) × (items : List FileItem) × (item : FileItem) × (t : Table)
      × (f' : FileBase) × (w' : World) × (parse b uninit keys titles n w.stream
          ≡ Text.ok (true, n', s'))
      × (read_files k (nca n') (record w { stream = s' })
          ≡ ok (items, nca n', record w { stream = s' }))
      × (get_elem? items i ≡ some item)
      × (make_container b uninit k item.1 (record w { stream = s' }) ≡ ok (f', some (pfs t), w'))
      × (read_files k (pfs t) w'
          ≡ ok (map (λ (e : Entry). (e.name, Pfs.open_file t e, true)) es, pfs t, w'))
      × ((e : Entry)
          → e.offset + e.size ≤ length contents
          → IsReady pad (Pfs.open_file t e) w'.stream.contents
            × (view pad (Pfs.open_file t e) w'.stream.contents ≡ slice e.offset e.size contents))
unfolding ItemShows
nca_section-image {b} {pad} mode uninit sized k keys titles n n1 w plains keyed none_yet count few
      ready laid i res tail es contents found many names valid tail_size plain long =
    let (n', s', parsed, kept, count', shows) =
      parse-AllShow mode uninit sized keys titles n n1 w.stream plains keyed none_yet ready laid in
    let w1 : World = record w { stream = s' } in
    let (items, item, lists, at, (item_ready, item_shows)) =
      listed pad k n' w1 w.stream.contents plains i (image magic res tail es contents)
        (count' ∙ count) few shows found in
    let (t, f', w', made, keys_kept, bytes_kept, entries, opens) =
      make_container-image mode uninit k res tail es contents item.1 w1 (sized 0x10) many names
        valid tail_size plain (subst (IsReady pad item.1) (sym kept) item_ready)
        (ap (view pad item.1) kept ∙ item_shows) long in
    (n', s', items, item, t, f', w', parsed, lists, at, made, entries, opens)
