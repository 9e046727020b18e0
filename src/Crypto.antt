-- ===== src/Crypto.antt =====
-- include/fnx/crypto.hpp and lib/crypto.cpp, as built against libgcrypt (`USE_GCRYPT`).
-- A handle of libgcrypt is the list of the calls made on it, newest first, and what the library
-- answers is a function of these: `Backend` is a parameter of everything that decrypts.
pub mod Ctr
pub mod Xts
pub mod Seal
pub mod Owners
pub mod Counts
pub mod Uses
pub mod Owned
mod OwnerTests
use fuse_nx.Prelude.{
  ℕ, zero, suc, ◌+◌, ◌*◌, ◌<◌, List, [], ◌∷◌, ◌++◌, length, Option, none, some, if◌then◌else◌, ◌==◌,
}
use fuse_nx.Prelude.Bytes.{le, to_le, to_be}

-- `GCRY_CIPHER_MODE_ECB`, `_CTR` and `_XTS`.
pub data CipherMode : Type 0 where
  ecb ctr xts : CipherMode

-- `gcry_cipher_setkey`, `gcry_cipher_setctr` or `gcry_cipher_setiv`, and a decryption of so many
-- bytes.
pub data Call : Type 0 where
  set_key set_iv : List ℕ → Call
  decrypted : ℕ → Call

abbrev pub Handle : Type 0
Handle = List Call

-- An error code (0 is success) and the contents of the output buffer after the call.
pub record Output : Type 0 where
  pub error : ℕ
  pub bytes : List ℕ

pub record Backend : Type 0 where
  pub run : CipherMode → Handle → List ℕ → Output
  pub set_iv_error : Handle → ℕ

-- The key that a handle was last given.
abbrev pub key_of : Handle → List ℕ
key_of [] = []
key_of (set_key k ∷ h) = k
key_of (set_iv v ∷ h) = key_of h
key_of (decrypted n ∷ h) = key_of h

pub record CipherBase : Type 0 where
  pub handle : Handle
  pub key : List ℕ

-- The constructor from a key: it opens a handle and sets the key.
unfoldable pub cipher_base : List ℕ → CipherBase
cipher_base key = record { handle = set_key key ∷ []; key = key }

abbrev after : CipherBase → ℕ → CipherBase
after c n = record c { handle = decrypted n ∷ c.handle }

-- `CipherBase::decrypt` in place, and from one buffer to another of its size.
unfoldable pub decrypt : Backend → CipherMode → CipherBase → List ℕ → Output × CipherBase
decrypt b mode c bytes = (b.run mode c.handle bytes, after c (length bytes))

-- `__builtin_bswap64`.
unfoldable pub bswap64 : ℕ → ℕ
bswap64 v = le (to_be 8 v)

pub record AesCtr : Type 0 where
  pub base : CipherBase
  pub open base use {handle, key}
  pub nonce : ℕ

-- `set_ctr(const Ctr &)`, the two words as they lie in memory.
unfoldable pub set_ctr_words : AesCtr → ℕ → ℕ → AesCtr
set_ctr_words c w0 w1 = record c {
  base = record (c.base) { handle = set_iv (to_le 8 w0 ++ to_le 8 w1) ∷ c.handle };
}

-- `set_ctr(std::uint64_t)`.
unfoldable pub set_ctr : AesCtr → ℕ → AesCtr
unfolding bswap64 set_ctr_words
set_ctr c val = set_ctr_words c c.nonce (bswap64 val)

unfoldable pub aes_ctr : List ℕ → ℕ → AesCtr
unfolding set_ctr cipher_base
aes_ctr key nonce = set_ctr (record { base = cipher_base key; nonce = nonce }) 0

unfoldable pub decrypt_ctr : Backend → AesCtr → List ℕ → List ℕ × AesCtr
unfolding decrypt
decrypt_ctr b c bytes =
    let (out, base) = decrypt b ctr c.base bytes in (out.bytes, record c { base = base })

-- `AesEcb(key).decrypt(src, dst)`; the callers do not look at the error.
unfoldable pub aes_ecb : Backend → List ℕ → List ℕ → List ℕ
unfolding decrypt cipher_base
aes_ecb b key src = (decrypt b ecb (cipher_base key) src).0.bytes

-- The key encryption key of a key area.
unfoldable pub gen_aes_kek : Backend → List ℕ → List ℕ → List ℕ → List ℕ → List ℕ
unfolding aes_ecb
gen_aes_kek b src mkey kek_seed key_seed =
    let key = aes_ecb b mkey kek_seed in let kek = aes_ecb b key src in aes_ecb b kek key_seed
