-- ===== src/Nca/Sections.antt =====
-- What the sections of an Nca show: the plain bytes of those that the content key sealed.
use fuse_nx.Prelude.{
  ℕ, ◌+◌, ◌*◌, ◌/◌, ◌%◌, ◌^◌, ◌≤◌, ◌<◌, ◌≡◌, refl, ap, ◌∙◌, arith, true, Bool-cases, inl, inr, List,
  [], length, some, if◌then◌else◌, ◌==◌,
}
use fuse_nx.Prelude.Slices.{slice}
use fuse_nx.Prelude.Words.{u64}
use fuse_nx.Crypto.{Backend, bswap64, aes_ctr}
use fuse_nx.Crypto.Ctr.{
  IsCtrMode, xor_from, xor_from-shift, slice-xor_from, key_stream, key_stream-bswap64,
}
use fuse_nx.Crypto.Seal.{xor_from-xor_from}
use fuse_nx.Io.{FileBase, Stream, clone, new_ctr_file, new_offset_file}
use fuse_nx.Io.Clone.{clone-view, clone-IsPlain}
use fuse_nx.Io.Reads.{read_at-view}
use fuse_nx.Formats.Table.{Table, construct, ◌>>=◌}
use fuse_nx.Romfs.Types.{RomFs}
use fuse_nx.Formats.Table
use fuse_nx.Romfs.Types as Romfs
use fuse_nx.Romfs.Tables.{romfs as romfs_of}
use fuse_nx.Io.View.{view, IsReady, IsPlain, length-view-lt}
use fuse_nx.Nca.{
  SectionType, pfs, romfs, Contained, as_pfs, as_romfs, contained_base, contain, section_file,
  make_section_info, encryption_type, nonce,
}

module _ (pad : List ℕ → ℕ → ℕ → ℕ) where
  -- The bytes of a section as they lie in the content's file from position `at` on: the counter is the
  -- header's nonce as its upper half, and the number of the block in the file as its lower.
  unfoldable pub section_pad : List ℕ → List ℕ → ℕ → ℕ
  section_pad key header q = pad key (nonce header * 2 ^ 64 + q / 16) (q % 16)

  unfoldable pub sealed : List ℕ → List ℕ → ℕ → List ℕ → List ℕ
  unfolding section_pad
  sealed key header at plain =
      if encryption_type header == 3 then xor_from (section_pad key header) at plain else plain

  -- The container of a section lies in the content's file, and is what `plain` was sealed to. One that is
  -- encrypted starts at a block of the cipher, in a file that does not decrypt itself.
  pub record IsLaidOut (key : List ℕ) (base : FileBase) (xs entry header plain : List ℕ)
      : Type 0 where
    pub inside :
        (make_section_info entry header).container_offset + length plain ≤ length (view pad base xs)
    pub whole : (make_section_info entry header).container_size ≡ length plain
    pub shown :
        slice (make_section_info entry header).container_offset (length plain) (view pad base xs)
        ≡ sealed key header (make_section_info entry header).container_offset plain
    pub small : nonce header < 2 ^ 64
    pub aligned :
        (encryption_type header == 3) ≡ true
        → ((make_section_info entry header).container_offset % 16 ≡ 0) × IsPlain base

  unfoldable pub Shows : FileBase → List ℕ → List ℕ → Type 0
  Shows f xs plain = IsReady pad f xs × (view pad f xs ≡ plain)

  word_of :
      (base : FileBase) (xs : List ℕ) (at n : ℕ)
      → IsReady pad base xs
      → at + n ≤ length (view pad base xs)
      → u64 at ≡ at
  word_of base xs at n ready inside = omega (arith, length-view-lt pad base xs ready)

  ctr_file-Shows :
      (base : FileBase) (xs key header : List ℕ) (at : ℕ) (plain : List ℕ)
      → IsReady pad base xs
      → at + length plain ≤ length (view pad base xs)
      → at % 16 ≡ 0
      → IsPlain base
      → nonce header < 2 ^ 64
      → slice at (length plain) (view pad base xs) ≡ xor_from (section_pad key header) at plain
      → Shows (new_ctr_file base (aes_ctr key (bswap64 (nonce header))) (length plain) at) xs plain
  unfolding Shows new_ctr_file aes_ctr section_pad
  ctr_file-Shows base xs key header at plain ready inside aligned direct small shown =
      rw (word_of base xs at (length plain) ready inside) (
        (ready, inside, aligned, refl, direct),
        slice-xor_from (key_stream pad key (bswap64 (nonce header))) 0 at (length plain)
              (view pad base xs)
            ∙ ap (xor_from (key_stream pad key (bswap64 (nonce header))) (0 + at)) shown
            ∙ xor_from-shift (key_stream pad key (bswap64 (nonce header))) (section_pad key header)
                (0 + at) at (xor_from (section_pad key header) at plain)
                (λ i lt.
                  key_stream-bswap64 pad key (nonce header) (0 + at + i) small
                  ∙ ap (section_pad key header) {x = 0 + at + i} (omega arith))
            ∙ xor_from-xor_from (section_pad key header) at plain,
      )

  offset_file-Shows :
      (base : FileBase) (xs : List ℕ) (at : ℕ) (plain : List ℕ)
      → IsReady pad base xs
      → at + length plain ≤ length (view pad base xs)
      → slice at (length plain) (view pad base xs) ≡ plain
      → Shows (new_offset_file base (length plain) at) xs plain
  unfolding Shows new_offset_file
  offset_file-Shows base xs at plain ready inside shown =
      rw (word_of base xs at (length plain) ready inside) ((ready, inside), shown)

  pub window-Shows :
      (key : List ℕ) (base : FileBase) (xs entry header plain : List ℕ)
      → IsReady pad base xs
      → IsLaidOut key base xs entry header plain
      → Shows (section_file (make_section_info entry header) header key base) xs plain
  unfolding section_file sealed
  window-Shows key base xs entry header plain ready laid =
      elim (Bool-cases (encryption_type header == 3)) [
        | inl e ↦
            rw (e, laid.whole)
              (ctr_file-Shows base xs key header (make_section_info entry header).container_offset
                plain ready laid.inside (laid.aligned e).0 (laid.aligned e).1 laid.small
                (rw e at laid.shown))
        | inr e ↦
            rw (e, laid.whole)
              (offset_file-Shows base xs (make_section_info entry header).container_offset plain
                ready laid.inside (rw e at laid.shown))
      ]

  pub clone-IsLaidOut :
      (key : List ℕ) (base : FileBase) (xs entry header plain : List ℕ)
      → IsLaidOut key base xs entry header plain
      → IsLaidOut key (clone base) xs entry header plain
  clone-IsLaidOut key base xs entry header plain laid = record {
    inside = rw (clone-view pad xs base) laid.inside;
    whole = laid.whole;
    shown = rw (clone-view pad xs base) laid.shown;
    small = laid.small;
    aligned = λ e. ((laid.aligned e).0, clone-IsPlain base (laid.aligned e).1);
  }

-- The memory that is read into has the size that was asked for.
abbrev pub IsSized : (ℕ → List ℕ) → Type 0
IsSized uninit = (n : ℕ) → length (uninit n) ≡ n

module _ {b : Backend} {pad : List ℕ → ℕ → ℕ → ℕ} (mode : IsCtrMode b pad) (uninit : ℕ → List ℕ)
    (sized : IsSized uninit) where
  -- The container, built on a window, has a base with the same bytes.
  pub contain-Shows :
      (type : SectionType) (f : FileBase) (s : Stream) (plain : List ℕ)
      → Shows pad f s.contents plain
      → 0x50 ≤ length plain
      → (c : Contained) × (s' : Stream) × (contain b uninit type f s ≡ some (c, s'))
        × (s'.contents ≡ s.contents)
        × Shows pad (contained_base c) s.contents plain
  unfolding contain construct romfs_of contained_base Shows
  contain-Shows pfs f s plain (ready, shows) long =
      let (r, reads, got, n, kept, ready1, same) =
        read_at-view mode f 0 (uninit 0x10) s ready
          (omega (arith, sized 0x10, ap length shows, long)) in
      (
        as_pfs (record {
          base = r.after;
          header = Table.header_of r.dest;
          strings_offset = 0;
          data_offset = 0;
          entries = [];
          names_table = [];
        }),
        r.stream,
        rw (reads, construct) refl,
        kept,
        (ready1, same ∙ shows),
      )
  contain-Shows romfs f s plain (ready, shows) long =
      let (r, reads, got, n, kept, ready1, same) =
        read_at-view mode f 0 (uninit 0x50) s ready
          (omega (arith, sized 0x50, ap length shows, long)) in
      (
        as_romfs (record {
          base = r.after;
          header = Romfs.header_of r.dest;
          dir_hash_tbl = [];
          file_hash_tbl = [];
          dir_meta_tbl = [];
          file_meta_tbl = [];
          dir_entries = [];
          file_entries = [];
        }),
        r.stream,
        rw (reads, romfs_of) refl,
        kept,
        (ready1, same ∙ shows),
      )
