-- ===== src/Crypto/Ctr.antt =====
-- Counter mode: what `AesCtr` relies on, and that a counter set from a position gives the key
-- stream from that position on.
use fuse_nx.Prelude.{
  ℕ, zero, suc, ◌+◌, ◌*◌, ◌/◌, ◌%◌, ◌^◌, ◌≤◌, ◌<◌, ◌≡◌, refl, ap, ap₂, ◌∙◌, arith, bit_xor, List,
  [], ◌∷◌, ◌++◌, length, take, drop, length-append,
}
use fuse_nx.Prelude.Bytes.{
  be, to_le, to_be, length-to_le, length-to_be, to_le-le, be-append, be-to_be, be-lt, to_le-IsBytes,
  to_be-IsBytes,
}
use fuse_nx.Prelude.Slices.{slice}
use fuse_nx.Crypto.{Backend, Handle, set_iv, ctr, AesCtr, key_of, bswap64, set_ctr, decrypt_ctr}

-- The bytes from position `q` on, each with the key stream's byte at its position.
unfoldable pub xor_from : (ℕ → ℕ) → ℕ → List ℕ → List ℕ
xor_from g q [] = []
xor_from g q (x ∷ xs) = bit_xor x (g q) ∷ xor_from g (suc q) xs

pub length-xor_from : (g : ℕ → ℕ) (q : ℕ) (xs : List ℕ) → length (xor_from g q xs) ≡ length xs
unfolding xor_from
length-xor_from g q [] = refl
length-xor_from g q (x ∷ xs) = ap suc (length-xor_from g (suc q) xs)

pub take-xor_from :
    (g : ℕ → ℕ) (q n : ℕ) (xs : List ℕ) → take n (xor_from g q xs) ≡ xor_from g q (take n xs)
unfolding xor_from
take-xor_from g q zero xs = refl
take-xor_from g q (suc n) [] = refl
take-xor_from g q (suc n) (x ∷ xs) = ap (◌∷◌ (bit_xor x (g q))) (take-xor_from g (suc q) n xs)

pub drop-xor_from :
    (g : ℕ → ℕ) (q n : ℕ) (xs : List ℕ) → drop n (xor_from g q xs) ≡ xor_from g (q + n) (drop n xs)
unfolding xor_from
drop-xor_from g q zero xs = ap (λ (k : ℕ). xor_from g k xs) (omega arith)
drop-xor_from g q (suc n) [] = refl
drop-xor_from g q (suc n) (x ∷ xs) =
    drop-xor_from g (suc q) n xs
    ∙ ap (λ (k : ℕ). xor_from g k (drop n xs)) {x = suc q + n} (omega arith)

pub slice-xor_from :
    (g : ℕ → ℕ) (q o n : ℕ) (xs : List ℕ)
    → slice o n (xor_from g q xs) ≡ xor_from g (q + o) (slice o n xs)
slice-xor_from g q o n xs =
    ap (take n) (drop-xor_from g q o xs) ∙ take-xor_from g (q + o) n (drop o xs)

-- The key stream may be computed from another origin.
pub xor_from-shift :
    (f g : ℕ → ℕ) (p q : ℕ) (xs : List ℕ)
    → ((i : ℕ) → i < length xs → f (p + i) ≡ g (q + i))
    → xor_from f p xs ≡ xor_from g q xs
unfolding xor_from
xor_from-shift f g p q [] h = refl
xor_from-shift f g p q (x ∷ xs) h =
    ap₂ ◌∷◌ (ap (bit_xor x) (at_suc 0 (omega arith) (omega arith) (omega arith))) (
      xor_from-shift f g (suc p) (suc q) xs
        λ i lt. at_suc (suc i) (omega arith) (omega arith) (omega arith))
  where
    at_suc : {m n : ℕ} (i : ℕ) → m ≡ p + i → n ≡ q + i → i < length (x ∷ xs) → f m ≡ g n
    at_suc i e e' lt = rw (e, e') (h i lt)

-- Counter mode as it is documented: byte `i` of a message is combined with byte `i % 16` of the
-- block that the key makes of the counter plus `i / 16`, the counter being a big-endian number of
-- 128 bits. `pad` is the cipher itself, of which nothing is assumed.
pub record IsCtrMode (b : Backend) (pad : List ℕ → ℕ → ℕ → ℕ) : Type 0 where
  pub stream :
      (h : Handle) (iv bytes : List ℕ)
      → length iv ≡ 16
      → (b.run ctr (set_iv iv ∷ h) bytes).bytes
        ≡ xor_from (λ i. pad (key_of h) ((be iv + i / 16) % 2 ^ 128) (i % 16)) 0 bytes

-- The key stream of a file at its position `q`.
pub key_stream : (List ℕ → ℕ → ℕ → ℕ) → List ℕ → ℕ → ℕ → ℕ
key_stream pad key nonce q = pad key (be (to_le 8 nonce) * 2 ^ 64 + q / 16) (q % 16)

-- A nonce that was swapped is swapped back on its way into the counter.
pub key_stream-bswap64 :
    (pad : List ℕ → ℕ → ℕ → ℕ) (key : List ℕ) (v q : ℕ)
    → v < 2 ^ 64
    → key_stream pad key (bswap64 v) q ≡ pad key (v * 2 ^ 64 + q / 16) (q % 16)
unfolding key_stream bswap64
key_stream-bswap64 pad key v q h =
    ap (λ (n : ℕ). pad key (n * 2 ^ 64 + q / 16) (q % 16))
      (ap be (to_le-le 8 (to_be 8 v) (length-to_be 8 v) (to_be-IsBytes 8 v)) ∙ be-to_be v h)

-- The counter as `set_ctr` stores it: the nonce's bytes in memory, then `val`, big-endian.
counter_words :
    (c : AesCtr) (val : ℕ)
    → val < 2 ^ 64
    → be (to_le 8 c.nonce ++ to_le 8 (bswap64 val)) ≡ be (to_le 8 c.nonce) * 2 ^ 64 + val
unfolding bswap64
counter_words c val h = rw (
  to_le-le 8 (to_be 8 val) (length-to_be 8 val) (to_be-IsBytes 8 val),
  be-append (to_le 8 c.nonce) (to_be 8 val),
  length-to_be 8 val,
  be-to_be val h,
)

module _ {b : Backend} {pad : List ℕ → ℕ → ℕ → ℕ} (mode : IsCtrMode b pad) where
  -- With the counter set from a block's position, decryption gives the key stream from there on.
  pub decrypt_ctr-set_ctr :
      (c : AesCtr) (p : ℕ) (bytes : List ℕ)
      → key_of c.handle ≡ c.key
      → p % 16 ≡ 0
      → p + length bytes ≤ 2 ^ 64
      → (decrypt_ctr b (set_ctr c (p / 16)) bytes).0
        ≡ xor_from (key_stream pad c.key c.nonce) p bytes
  unfolding decrypt_ctr set_ctr key_stream
  decrypt_ctr-set_ctr c p bytes keyed aligned fits =
      mode.stream c.handle (to_le 8 c.nonce ++ to_le 8 (bswap64 (p / 16))) bytes iv_size
      ∙ rw (counter_words c (p / 16) (omega arith), keyed)
          (xor_from-shift _ _ 0 p bytes
            λ i lt. ap₂ (pad c.key) (omega (arith, nonce_fits)) (omega arith))
    where
      iv_size : length (to_le 8 c.nonce ++ to_le 8 (bswap64 (p / 16))) ≡ 16
      iv_size = omega (
        arith,
        length-append (to_le 8 c.nonce) (to_le 8 (bswap64 (p / 16))),
        length-to_le 8 c.nonce,
        length-to_le 8 (bswap64 (p / 16)),
      )

      nonce_fits : be (to_le 8 c.nonce) < 256 ^ 8
      nonce_fits =
          rw (length-to_le 8 c.nonce) at (be-lt (to_le 8 c.nonce) (to_le-IsBytes 8 c.nonce))

-- A decryption leaves the key and the nonce.
pub decrypt_ctr-keeps :
    (b : Backend) (c : AesCtr) (val : ℕ) (bytes : List ℕ)
    → let c' = (decrypt_ctr b (set_ctr c val) bytes).1 in
      (key_of c'.handle ≡ key_of c.handle) × (c'.key ≡ c.key) × (c'.nonce ≡ c.nonce)
unfolding decrypt_ctr set_ctr
decrypt_ctr-keeps b c val bytes = (refl, refl, refl)
