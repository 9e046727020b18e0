-- ===== src/Crypto/Xts.antt =====
-- include/fnx/crypto.hpp, `AesXtsNintendo`: sectors of 0x200 bytes, each with its number as tweak.
use mathlib.Core.Option
use fuse_nx.Prelude.{
  ℕ, ◌≤◌, zero, suc, ◌+◌, ◌*◌, ◌/◌, ◌^◌, ◌<◌, ◌≡◌, refl, sym, ap, ◌∙◌, arith, false, not,
  if◌then◌else◌, ltb, ◌==◌, List, [], ◌∷◌, ◌++◌, length, take, drop, length-append, length-take,
  Option, none, some,
}
use fuse_nx.Prelude.Words.{u64}
use fuse_nx.Prelude.Slices.{take-append, drop-append, take_all}
use fuse_nx.Prelude.Bytes.{to_le, length-to_le}
use fuse_nx.Crypto.{
  Backend, Handle, CipherBase, cipher_base, decrypt, xts, set_iv, key_of, bswap64, decrypted,
}

pub record AesXts : Type 0 where
  pub base : CipherBase
  pub open base use {handle, key}
  pub sector : ℕ

unfoldable pub aes_xts : List ℕ → ℕ → AesXts
unfolding cipher_base
aes_xts key sector = record { base = cipher_base key; sector = sector }

-- Nintendo's tweak is the byte-swapped number.
unfoldable pub tweak : ℕ → List ℕ
unfolding bswap64
tweak sector = to_le 8 0 ++ to_le 8 (bswap64 sector)

-- `set_sector`, with the error code that it returns.
unfoldable pub set_sector : Backend → AesXts → ℕ → ℕ × AesXts
unfolding tweak
set_sector b x sector =
    let handle = set_iv (tweak sector) ∷ x.handle in
    (
      b.set_iv_error handle,
      record x { base = record (x.base) { handle = handle }; sector = sector },
    )

pub record Decrypted : Type 0 where
  pub error : ℕ
  pub bytes : List ℕ
  pub after : AesXts

-- The loop of `decrypt`, for the sectors that are left. A sector is decrypted whole, so one that
-- the buffer does not hold is an access out of bounds.
unfoldable pub decrypt_sectors : Backend → ℕ → AesXts → List ℕ → Option Decrypted
unfolding set_sector decrypt
decrypt_sectors b zero x bytes = some (record { error = 0; bytes = bytes; after = x })
decrypt_sectors b (suc n) x bytes =
    let (rc, x1) = set_sector b x x.sector in
    let (out, base) = decrypt b xts x1.base (take 0x200 bytes) in
    let x2 : AesXts = record x1 { base = base } in
    let rest =
      decrypt_sectors b n (record x2 { sector = u64 (x2.sector + 1) }) (drop 0x200 bytes) in
    if ltb (length bytes) 0x200
    then none
    else if not (rc == 0)
    then some (record { error = rc; bytes = bytes; after = x1 })
    else if not (out.error == 0)
    then some (record { error = out.error; bytes = out.bytes ++ drop 0x200 bytes; after = x2 })
    else Option.map {A = Decrypted} (λ r. record r { bytes = out.bytes ++ r.bytes }) rest

-- `decrypt` in place.
unfoldable pub decrypt_xts : Backend → AesXts → List ℕ → Option Decrypted
unfolding decrypt_sectors
decrypt_xts b x bytes = decrypt_sectors b ((length bytes + 0x1ff) / 0x200) x bytes

-- A cipher on sectors: from a key and a tweak, the encryption of a sector.
abbrev pub SectorCipher : Type 0
SectorCipher = List ℕ → List ℕ → List ℕ → List ℕ

-- XTS mode as it is documented: with a tweak set, one sector is decrypted by the key and the tweak
-- alone, which undoes the encryption.
pub record IsXtsMode (b : Backend) (encrypt : SectorCipher) : Type 0 where
  pub tweaked : (h : Handle) (iv : List ℕ) → length iv ≡ 16 → b.set_iv_error (set_iv iv ∷ h) ≡ 0
  pub keeps_length : (key iv plain : List ℕ) → length (encrypt key iv plain) ≡ length plain
  pub undone :
      (h : Handle) (iv plain : List ℕ)
      → length iv ≡ 16
      → length plain ≡ 0x200
      → b.run xts (set_iv iv ∷ h) (encrypt (key_of h) iv plain)
        ≡ record { error = 0; bytes = plain }

-- Consecutive sectors from a number on, encrypted.
pub encrypt_sectors : SectorCipher → List ℕ → ℕ → ℕ → List ℕ → List ℕ
encrypt_sectors encrypt key s zero plain = plain
encrypt_sectors encrypt key s (suc n) plain =
    encrypt key (tweak s) (take 0x200 plain)
    ++ encrypt_sectors encrypt key (u64 (s + 1)) n (drop 0x200 plain)

length-tweak : (s : ℕ) → length (tweak s) ≡ 16
unfolding tweak
length-tweak s = omega (
  arith,
  length-append (to_le 8 0) (to_le 8 (bswap64 s)),
  length-to_le 8 0,
  length-to_le 8 (bswap64 s),
)

pub take_append_drop : (n : ℕ) (xs : List ℕ) → take n xs ++ drop n xs ≡ xs
take_append_drop zero xs = refl
take_append_drop (suc n) [] = refl
take_append_drop (suc n) (x ∷ xs) = ap (◌∷◌ x) (take_append_drop n xs)

pub length-encrypt_sectors :
    {b : Backend} {encrypt : SectorCipher}
    → IsXtsMode b encrypt
    → (key : List ℕ) (s n : ℕ) (plain : List ℕ)
    → length (encrypt_sectors encrypt key s n plain) ≡ length plain
unfolding encrypt_sectors
length-encrypt_sectors mode key s zero plain = refl
length-encrypt_sectors {b} {encrypt} mode key s (suc n) plain = omega (
  arith,
  length-append (encrypt key (tweak s) (take 0x200 plain))
      (encrypt_sectors encrypt key (u64 (s + 1)) n (drop 0x200 plain)),
  mode.keeps_length key (tweak s) (take 0x200 plain),
  length-encrypt_sectors mode key (u64 (s + 1)) n (drop 0x200 plain),
  length-append (take 0x200 plain) (drop 0x200 plain),
  ap (length {A = ℕ}) (take_append_drop 0x200 plain),
)

not_below : (xs : List ℕ) → 0x200 ≤ length xs → ltb (length xs) 0x200 ≡ false
not_below xs h = ground arith

-- Decrypting so many sectors from a number on gives what was encrypted from that number on,
-- reports no error, keeps the key, and leaves the number of the next sector.
pub decrypt_sectors-encrypt_sectors :
    {b : Backend} {encrypt : SectorCipher}
    → IsXtsMode b encrypt
    → (n : ℕ) (x : AesXts) (plain : List ℕ) → length plain ≡ n * 0x200
    → x.sector + n < 2 ^ 64
    → (x' : AesXts) × (decrypt_sectors b n x
          (encrypt_sectors encrypt (key_of x.handle) x.sector n plain)
        ≡ some (record { error = 0; bytes = plain; after = x' }))
      × (key_of x'.handle ≡ key_of x.handle)
      × (x'.sector ≡ x.sector + n)
unfolding decrypt_sectors encrypt_sectors
decrypt_sectors-encrypt_sectors mode zero x plain size room = (x, refl, refl, omega arith)
decrypt_sectors-encrypt_sectors {b} {encrypt} mode (suc n) x plain size room =
    let (x', run_rest, keyed, counted) =
      decrypt_sectors-encrypt_sectors mode n next (drop 0x200 plain)
        (omega (arith, halves, head_size)) (omega arith) in
    (
      x',
      rw
          (
            taken,
            dropped,
            large,
            mode.tweaked x.handle (tweak x.sector) (length-tweak x.sector),
            mode.undone x.handle (tweak x.sector) (take 0x200 plain) (length-tweak x.sector)
                head_size,
            run_rest,
            take_append_drop 0x200 plain,
          )
          refl,
      keyed,
      counted ∙ omega arith,
    )
  where
    coded : List ℕ
    coded = encrypt (key_of x.handle) (tweak x.sector) (take 0x200 plain)

    coded_rest : List ℕ
    coded_rest = encrypt_sectors encrypt (key_of x.handle) (u64 (x.sector + 1)) n (drop 0x200 plain)

    next : AesXts
    next = record {
      base = record {
        handle = decrypted (length coded) ∷ set_iv (tweak x.sector) ∷ x.handle;
        key = x.key;
      };
      sector = u64 (x.sector + 1);
    }

    halves : length (take 0x200 plain) + length (drop 0x200 plain) ≡ length plain
    halves =
        sym (length-append (take 0x200 plain) (drop 0x200 plain))
        ∙ ap (length {A = ℕ}) (take_append_drop 0x200 plain)

    head_size : length (take 0x200 plain) ≡ 0x200
    head_size = length-take 0x200 plain ∙ omega arith

    coded_size : length coded ≡ 0x200
    coded_size = mode.keeps_length (key_of x.handle) (tweak x.sector) (take 0x200 plain) ∙ head_size

    taken : take 0x200 (coded ++ coded_rest) ≡ coded
    taken =
        take-append 0x200 coded coded_rest (omega (arith, coded_size))
        ∙ take_all 0x200 coded (omega (arith, coded_size))

    dropped : drop 0x200 (coded ++ coded_rest) ≡ coded_rest
    dropped =
        drop-append 0x200 coded coded_rest (omega (arith, coded_size))
        ∙ ap (λ (k : ℕ). drop k coded_rest) {y = 0} (omega (arith, coded_size))

    large : ltb (length (coded ++ coded_rest)) 0x200 ≡ false
    large =
        not_below (coded ++ coded_rest) (omega (arith, length-append coded coded_rest, coded_size))

-- The same of `decrypt`, which counts the sectors itself.
pub decrypt_xts-encrypt_sectors :
    {b : Backend} {encrypt : SectorCipher}
    → IsXtsMode b encrypt
    → (n : ℕ) (x : AesXts) (key : List ℕ) (sector : ℕ) (plain : List ℕ) → length plain ≡ n * 0x200
    → key_of x.handle ≡ key
    → x.sector ≡ sector
    → sector + n < 2 ^ 64
    → (x' : AesXts) × (decrypt_xts b x (encrypt_sectors encrypt key sector n plain)
        ≡ some (record { error = 0; bytes = plain; after = x' }))
      × (key_of x'.handle ≡ key)
      × (x'.sector ≡ sector + n)
unfolding decrypt_xts
decrypt_xts-encrypt_sectors {b} {encrypt} mode n x key sector plain size keyed numbered room =
    let (x', run, kept, counted) =
      decrypt_sectors-encrypt_sectors mode n x plain size (omega (arith, numbered)) in
    (
      x',
      ap (λ (m : ℕ). decrypt_sectors b m x (encrypt_sectors encrypt key sector n plain)) {y = n}
            (omega (arith, length-encrypt_sectors mode key sector n plain))
          ∙ rw (sym keyed, sym numbered) run,
      kept ∙ keyed,
      counted ∙ omega (arith, numbered),
    )
