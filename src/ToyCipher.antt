-- ===== src/ToyCipher.antt =====
-- A backend for tests and examples: counter mode over a toy cipher.
use fuse_nx.Prelude.{ℕ, ◌+◌, ◌%◌, ◌^◌, ◌/◌, refl, List, ◌∷◌}
use fuse_nx.Prelude.Bytes.{le, be}
use fuse_nx.Crypto.{Backend, CipherMode, ctr, Handle, set_iv, key_of}
use fuse_nx.Crypto.Ctr.{IsCtrMode, xor_from}

-- The block of a counter, as the toy cipher makes it.
abbrev pub toy_pad : List ℕ → ℕ → ℕ → ℕ
toy_pad key counter i = (le key + counter + i) % 256

unfoldable pub toy_run : CipherMode → Handle → List ℕ → List ℕ
unfolding xor_from
toy_run ctr (set_iv iv ∷ h) bytes =
    xor_from (λ i. toy_pad (key_of h) ((be iv + i / 16) % 2 ^ 128) (i % 16)) 0 bytes
toy_run _ h bytes = bytes

abbrev pub toy : Backend
toy = record {
  run = λ m h bytes. record { error = 0; bytes = toy_run m h bytes };
  set_iv_error = λ h. 0;
}

pub toy-IsCtrMode : IsCtrMode toy toy_pad
unfolding toy_run xor_from
toy-IsCtrMode = record { stream = λ h iv bytes e. refl }
