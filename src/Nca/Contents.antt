-- ===== src/Nca/Contents.antt =====
-- The sections that `parse` makes show the plain bytes that the content's key sealed.
use fuse_nx.Prelude.{ℕ, ◌≤◌, ◌≡◌, refl, ◌∙◌, true, List, [], ◌∷◌, ◌++◌, length, some}
use fuse_nx.Crypto.{Backend}
use fuse_nx.Crypto.Ctr.{IsCtrMode}
use fuse_nx.Io.{FileBase, Stream, clone}
use fuse_nx.Io.Clone.{clone-IsReady}
use fuse_nx.Io.View.{IsReady}
use fuse_nx.Formats.Table.{◌>>=◌}
use fuse_nx.Keyset.{KeySet}
use fuse_nx.Keyset.Titles.{TitlekeySet}
use fuse_nx.Keyset.Text.{ok}
use fuse_nx.Nca.{
  Nca, Section, make_section_info, contained_base, section, section_file, sections_of, is_supported,
  existing, parse, with_sections, with_body_key,
}
use fuse_nx.Nca.Sections.{IsLaidOut, Shows, IsSized, window-Shows, clone-IsLaidOut, contain-Shows}

module _ (pad : List ℕ → ℕ → ℕ → ℕ) where
  -- The entries have supported encryptions, and lie in the file as what `plains` was sealed to, one by one;
  -- each has the bytes of a RomFs's header at least.
  abbrev pub AreLaidOut :
      List ℕ → FileBase → List ℕ → List (List ℕ × List ℕ) → List (List ℕ) → Type 0
  AreLaidOut key base xs [] [] = Unit {0}
  AreLaidOut key base xs ((entry, header) ∷ es) (plain ∷ plains) =
      (is_supported header ≡ true)
      × (0x50 ≤ length plain)
      × IsLaidOut pad key base xs entry header plain
      × AreLaidOut key base xs es plains
  AreLaidOut key base xs [] (plain ∷ plains) = ⊥
  AreLaidOut key base xs (e ∷ es) [] = ⊥

  abbrev pub AllShow : List Section → List ℕ → List (List ℕ) → Type 0
  AllShow [] xs [] = Unit {0}
  AllShow (s ∷ ss) xs (plain ∷ plains) =
      Shows pad (contained_base s.container) xs plain × AllShow ss xs plains
  AllShow [] xs (plain ∷ plains) = ⊥
  AllShow (s ∷ ss) xs [] = ⊥

module _ {b : Backend} {pad : List ℕ → ℕ → ℕ → ℕ} (mode : IsCtrMode b pad) (uninit : ℕ → List ℕ)
    (sized : IsSized uninit) where
  section-Shows :
      (key : List ℕ) (base : FileBase) (entry header plain : List ℕ) (s : Stream)
      → IsReady pad base s.contents
      → IsLaidOut pad key base s.contents entry header plain
      → 0x50 ≤ length plain
      → (made : Section) × (s' : Stream) × (section b uninit entry header key base s
          ≡ some (made, s'))
        × (s'.contents ≡ s.contents)
        × Shows pad (contained_base made.container) s.contents plain
  unfolding section
  section-Shows key base entry header plain s ready laid long =
      let info = make_section_info entry header in
      let (c, s', e, kept, shows) =
        contain-Shows mode uninit sized info.type (section_file info header key base) s plain
          (window-Shows pad key base s.contents entry header plain ready laid) long in
      (
        record { type = info.type; offset = info.offset; size = info.size; container = c },
        s',
        rw (e, section) refl,
        kept,
        shows,
      )

  sections_of-AllShow :
      (key : List ℕ) (base : FileBase) (xs : List ℕ) (es : List (List ℕ × List ℕ))
      (plains : List (List ℕ)) (s : Stream)
      → s.contents ≡ xs
      → IsReady pad base xs
      → AreLaidOut pad key base xs es plains
      → (made : List Section) × (s' : Stream) × (sections_of b uninit key base es s
          ≡ some (made, s'))
        × (s'.contents ≡ xs)
        × AllShow pad made xs plains
  unfolding sections_of
  sections_of-AllShow key base xs [] [] s e ready laid = ([], s, refl, e, tt)
  sections_of-AllShow key base xs [] (plain ∷ plains) s e ready laid = absurd laid
  sections_of-AllShow key base xs (entry ∷ es) [] s e ready laid = absurd laid
  sections_of-AllShow key base xs ((entry, header) ∷ es) (plain ∷ plains) s e ready laid =
      let (one, s1, e1, kept, shows) =
        section-Shows key (clone base) entry header plain s (rw e (clone-IsReady pad xs base ready))
          (rw e (clone-IsLaidOut pad key base xs entry header plain laid.2)) laid.1 in
      let (others, s2, e2, kept2, show) =
        sections_of-AllShow key base xs es plains s1 (kept ∙ e) ready laid.3 in
      (
        one ∷ others,
        s2,
        rw (laid.0, sections_of) (rw (e1, ◌>>=◌) (rw (e2, ◌>>=◌) refl)),
        kept2,
        (rw e at shows, show),
      )

-- Once the content's key is found, `parse` of a file whose sections are sealed with it, all of supported
-- encryptions and no smaller than the header that is read of them, returns `true` and one section for each
-- that exists: `get_pfs()` or `get_romfs()` is on a file that has exactly the plain bytes of the section's
-- container, decrypted if it is encrypted; the bytes on disk are as before.
pub parse-AllShow :
    {b : Backend} {pad : List ℕ → ℕ → ℕ → ℕ}
    → IsCtrMode b pad
    → (uninit : ℕ → List ℕ) → IsSized uninit
    → (keys : KeySet) (titles : TitlekeySet) (n n1 : Nca) (s : Stream) (plains : List (List ℕ))
    → with_body_key b keys titles n ≡ ok (true, n1)
    → n1.sections ≡ []
    → IsReady pad n1.base s.contents
    → AreLaidOut pad n1.body_key n1.base s.contents (existing 4 0 n1.header) plains
    → (n' : Nca) × (s' : Stream) × (parse b uninit keys titles n s ≡ ok (true, n', s'))
      × (s'.contents ≡ s.contents)
      × (n'.num_sections ≡ n1.num_sections)
      × AllShow pad n'.sections s.contents plains
unfolding parse with_sections
parse-AllShow {b} {pad} mode uninit sized keys titles n n1 s plains keyed none_yet ready laid =
    let (made, s', e, kept, show) =
      sections_of-AllShow mode uninit sized n1.body_key n1.base s.contents (existing 4 0 n1.header)
        plains s refl ready laid in
    (
      record n1 { sections = n1.sections ++ made },
      s',
      rw (keyed, parse) (rw (e, with_sections) refl),
      kept,
      refl,
      rw none_yet show,
    )
