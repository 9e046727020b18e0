-- ===== src/Nca/Header.antt =====
-- The encrypted header of an Nca, in its two layouts.
use fuse_nx.Prelude.{
  ℕ, zero, suc, ◌*◌, ◌≡◌, refl, ap, ◌∙◌, arith, List, ◌++◌, length, take, drop, length-take,
  length-drop, Option, none, some,
}
use fuse_nx.Prelude.Bytes.{le}
use fuse_nx.Prelude.Slices.{take-append, drop-append, take_all, slice-append_left}
use fuse_nx.Crypto.{Backend, key_of}
use fuse_nx.Crypto.Xts.{
  take_append_drop, AesXts, SectorCipher, IsXtsMode, set_sector, decrypt_xts, encrypt_sectors,
  length-encrypt_sectors, decrypt_xts-encrypt_sectors,
}
use fuse_nx.Nca.{magic, nca2_magic, nca3_magic, decrypt_header, decrypt_fs_headers, header_ctx}

-- The header of an `NCA3`: sectors 0 to 5.
pub nca3_header : SectorCipher → List ℕ → List ℕ → List ℕ → List ℕ
nca3_header encrypt key main fs =
    encrypt_sectors encrypt key 0 2 main ++ encrypt_sectors encrypt key 2 4 fs

-- Each file system header as a sector 0 of its own.
pub encrypt_each : SectorCipher → List ℕ → ℕ → List ℕ → List ℕ
encrypt_each encrypt key zero fs = fs
encrypt_each encrypt key (suc n) fs =
    encrypt_sectors encrypt key 0 1 (take 0x200 fs) ++ encrypt_each encrypt key n (drop 0x200 fs)

pub nca2_header : SectorCipher → List ℕ → List ℕ → List ℕ → List ℕ
nca2_header encrypt key main fs =
    encrypt_sectors encrypt key 0 2 main ++ encrypt_each encrypt key 4 fs

-- The static context holds the header key, once it is made.
abbrev pub IsKeyed : List ℕ → Option AesXts → Type 0
IsKeyed key none = Unit {0}
IsKeyed key (some x) = key_of x.handle ≡ key

first_part :
    (c1 c2 : List ℕ) (n : ℕ) → length c1 ≡ n → (take n (c1 ++ c2) ≡ c1) × (drop n (c1 ++ c2) ≡ c2)
first_part c1 c2 n e = (
  take-append n c1 c2 (omega arith) ∙ take_all n c1 (omega arith),
  drop-append n c1 c2 (omega arith) ∙ ap (λ (k : ℕ). drop k c2) {y = 0} (omega arith),
)

magic-append : (main rest : List ℕ) → length main ≡ 0x400 → magic (main ++ rest) ≡ magic main
magic-append main rest e = ap le (slice-append_left 0x200 4 main rest (omega arith))

-- An `NCA3`: what the first two sectors and the next four decrypt to.
nca3_steps :
    (b : Backend) (key : List ℕ) (ctx : Option AesXts) (c1 c2 main fs : List ℕ) (x1 x2 : AesXts)
    → length c1 ≡ 0x400
    → length main ≡ 0x400
    → magic main ≡ nca3_magic
    → decrypt_xts b (header_ctx b key ctx) c1
      ≡ some (record { error = 0; bytes = main; after = x1 })
    → decrypt_xts b x1 c2 ≡ some (record { error = 0; bytes = fs; after = x2 })
    → decrypt_header b key ctx (c1 ++ c2) ≡ some (main ++ fs, x2)
unfolding decrypt_header
nca3_steps b key ctx c1 c2 main fs x1 x2 size main_size is_nca3 run1 run2 =
    let (t, d) = first_part c1 c2 0x400 size in
    rw (t, d, run1, magic-append main c2 main_size, is_nca3, run2) refl

-- An `NCA2`: the first two sectors, and the four headers.
nca2_steps :
    (b : Backend) (key : List ℕ) (ctx : Option AesXts) (c1 c2 main fs : List ℕ) (x1 x2 : AesXts)
    → length c1 ≡ 0x400
    → length main ≡ 0x400
    → magic main ≡ nca2_magic
    → decrypt_xts b (header_ctx b key ctx) c1
      ≡ some (record { error = 0; bytes = main; after = x1 })
    → decrypt_fs_headers b 4 x1 c2 ≡ some (fs, x2)
    → decrypt_header b key ctx (c1 ++ c2) ≡ some (main ++ fs, x2)
unfolding decrypt_header
nca2_steps b key ctx c1 c2 main fs x1 x2 size main_size is_nca2 run1 run2 =
    let (t, d) = first_part c1 c2 0x400 size in
    rw (t, d, run1, magic-append main c2 main_size, is_nca2, run2) refl

module _ {b : Backend} {encrypt : SectorCipher} (mode : IsXtsMode b encrypt) where
  header_ctx-IsKeyed :
      (key : List ℕ) (ctx : Option AesXts)
      → IsKeyed key ctx
      → (key_of (header_ctx b key ctx).handle ≡ key) × ((header_ctx b key ctx).sector ≡ 0)
  unfolding header_ctx
  header_ctx-IsKeyed key none h = (refl, refl)
  header_ctx-IsKeyed key (some x) h = (h, refl)

  -- With a static context that is not made yet or holds the header key, the decryption of an encrypted
  -- `NCA3` header gives its 0xc00 bytes, and leaves a context that holds the header key.
  pub decrypt_header-nca3_header :
      (key : List ℕ) (ctx : Option AesXts) (main fs : List ℕ)
      → IsKeyed key ctx
      → length main ≡ 0x400
      → length fs ≡ 0x800
      → magic main ≡ nca3_magic
      → (ctx' : AesXts) × (decrypt_header b key ctx (nca3_header encrypt key main fs)
          ≡ some (main ++ fs, ctx'))
        × (key_of ctx'.handle ≡ key)
  unfolding nca3_header
  decrypt_header-nca3_header key ctx main fs keyed main_size fs_size is_nca3 =
      let (k, z) = header_ctx-IsKeyed key ctx keyed in
      let (x1, run1, k1, s1) =
        decrypt_xts-encrypt_sectors mode 2 (header_ctx b key ctx) key 0 main main_size k z
          (omega arith) in
      let (x2, run2, k2, s2) =
        decrypt_xts-encrypt_sectors mode 4 x1 key 2 fs fs_size k1 s1 (omega arith) in
      (
        x2,
        nca3_steps b key ctx (encrypt_sectors encrypt key 0 2 main)
            (encrypt_sectors encrypt key 2 4 fs) main fs x1 x2
            (length-encrypt_sectors mode key 0 2 main ∙ main_size) main_size is_nca3 run1 run2,
        k2,
      )

  step_fs_headers :
      (n : ℕ) (x x1 x2 : AesXts) (c1 c2 fs1 fs2 : List ℕ)
      → length c1 ≡ 0x200
      → decrypt_xts b (set_sector b x 0).1 c1 ≡ some (record { error = 0; bytes = fs1; after = x1 })
      → decrypt_fs_headers b n x1 c2 ≡ some (fs2, x2)
      → decrypt_fs_headers b (suc n) x (c1 ++ c2) ≡ some (fs1 ++ fs2, x2)
  unfolding decrypt_fs_headers
  step_fs_headers n x x1 x2 c1 c2 fs1 fs2 size run1 run2 =
      let (t, d) = first_part c1 c2 0x200 size in rw (t, d, run1, run2) refl

  decrypt_fs_headers-encrypt_each :
      (n : ℕ) (x : AesXts) (key fs : List ℕ)
      → length fs ≡ n * 0x200
      → key_of x.handle ≡ key
      → (x' : AesXts) × (decrypt_fs_headers b n x (encrypt_each encrypt key n fs) ≡ some (fs, x'))
        × (key_of x'.handle ≡ key)
  unfolding encrypt_each decrypt_fs_headers
  decrypt_fs_headers-encrypt_each zero x key fs size keyed = (x, refl, keyed)
  decrypt_fs_headers-encrypt_each (suc n) x key fs size keyed =
      let (x1, run1, k1, s1) =
        decrypt_xts-encrypt_sectors mode 1 (set_sector b x 0).1 key 0 (take 0x200 fs) head_size
          keyed refl (omega arith) in
      let (x2, run2, k2) =
        decrypt_fs_headers-encrypt_each n x1 key (drop 0x200 fs)
          (omega (arith, length-drop 0x200 fs)) k1 in
      (
        x2,
        step_fs_headers n x x1 x2 (encrypt_sectors encrypt key 0 1 (take 0x200 fs))
              (encrypt_each encrypt key n (drop 0x200 fs)) (take 0x200 fs) (drop 0x200 fs)
              (length-encrypt_sectors mode key 0 1 (take 0x200 fs) ∙ head_size) run1 run2
            ∙ ap (λ (bytes : List ℕ). some (bytes, x2)) (take_append_drop 0x200 fs),
        k2,
      )
    where
      head_size : length (take 0x200 fs) ≡ 1 * 0x200
      head_size = length-take 0x200 fs ∙ omega arith

  -- With a static context that is not made yet or holds the header key, the decryption of an encrypted
  -- `NCA2` header, whose four file system headers are each a sector 0, gives its 0xc00 bytes, and leaves a
  -- context that holds the header key.
  pub decrypt_header-nca2_header :
      (key : List ℕ) (ctx : Option AesXts) (main fs : List ℕ)
      → IsKeyed key ctx
      → length main ≡ 0x400
      → length fs ≡ 0x800
      → magic main ≡ nca2_magic
      → (ctx' : AesXts) × (decrypt_header b key ctx (nca2_header encrypt key main fs)
          ≡ some (main ++ fs, ctx'))
        × (key_of ctx'.handle ≡ key)
  unfolding nca2_header
  decrypt_header-nca2_header key ctx main fs keyed main_size fs_size is_nca2 =
      let (k, z) = header_ctx-IsKeyed key ctx keyed in
      let (x1, run1, k1, s1) =
        decrypt_xts-encrypt_sectors mode 2 (header_ctx b key ctx) key 0 main main_size k z
          (omega arith) in
      let (x2, run2, k2) = decrypt_fs_headers-encrypt_each 4 x1 key fs fs_size k1 in
      (
        x2,
        nca2_steps b key ctx (encrypt_sectors encrypt key 0 2 main) (encrypt_each encrypt key 4 fs)
            main fs x1 x2 (length-encrypt_sectors mode key 0 2 main ∙ main_size) main_size is_nca2
            run1 run2,
        k2,
      )
