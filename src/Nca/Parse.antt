-- ===== src/Nca/Parse.antt =====
-- What `parse` does with any header: it returns, with keys of a generation that exists, and makes
-- sections for the entries of a supported encryption.
use mathlib.Core.Path.{subst}
use fuse_nx.Prelude.{
  ℕ, zero, suc, ◌<◌, ◌≡◌, ◌↔◌, ◌⊎◌, inl, inr, Bool-cases, Option-cases, refl, sym, arith, Bool,
  true, false, List, [], ◌∷◌, ◌++◌, take, drop, length,
}
use fuse_nx.Io.{Stream}
use fuse_nx.Io.Returns.{IsUndecrypted}
use fuse_nx.Crypto.{Backend, aes_ecb, gen_aes_kek}
use fuse_nx.Prelude.Slices.{slice}
use fuse_nx.Utils.{is_nonzero}
use fuse_nx.Keyset.{KeySet, get_kaek}
use fuse_nx.Keyset.Titles.{TitlekeySet, get_key, map_at, bytes_eq}
use fuse_nx.Keyset.Text.{ok, thrown}
use fuse_nx.Nca.{
  Nca, parse, key_at, clamp_type, right_id, decrypt_titlekey, decrypt_keyarea, with_body_key,
  with_type, key_area, kaek_idx,
}
use fuse_nx.Nca.Made.{with_sections-Returns}

key_at_below :
    (keys : List (List ℕ)) (i : ℕ) → i < length keys → (key : List ℕ) × (key_at keys i ≡ ok key)
unfolding key_at
key_at_below [] i h = absurd (omega arith)
key_at_below (k ∷ keys) zero h = (k, refl)
key_at_below (k ∷ keys) (suc i) h = key_at_below keys i (omega arith)

map_at_cases :
    (id : List ℕ) (m : List (List ℕ × List ℕ))
    → (map_at id m ≡ thrown) ⊎ ((key : List ℕ) × (map_at id m ≡ ok key))
unfolding map_at
map_at_cases id [] = inl refl
map_at_cases id ((j, k) ∷ m) = elim (Bool-cases (bytes_eq j id)) [
  | inl e ↦ inr (k, rw e refl)
  | inr e ↦ elim (map_at_cases id m) [
    | inl t ↦ inl (rw (e, t) refl)
    | inr (key, t) ↦ inr (key, rw (e, t) refl)
  ]
]

get_key_cases :
    (t : TitlekeySet) (id : List ℕ)
    → (get_key t id ≡ thrown) ⊎ ((key : List ℕ) × (get_key t id ≡ ok key))
unfolding get_key
get_key_cases t id = elim (Option-cases t.cli_key) [
  | inl e ↦ elim (map_at_cases id t.keys) [
    | inl c ↦ inl (rw (e, c) refl)
    | inr (key, c) ↦ inr (key, rw (e, c) refl)
  ]
  | inr (key, e) ↦ inr (key, rw e refl)
]

type_below :
    (n : Nca) (keys : List (List ℕ)) → length keys ≡ 0x20 → (with_type n).crypto_type < length keys
unfolding with_type clamp_type
type_below n keys e = omega arith

decrypt_keyarea_returns :
    (b : Backend) (keys : KeySet) (n : Nca)
    → n.crypto_type < length keys.master_keys
    → (n' : Nca) × (decrypt_keyarea b keys n ≡ ok n') × (n'.base ≡ n.base)
unfolding decrypt_keyarea
decrypt_keyarea_returns b keys n h =
    let (mkey, at) = key_at_below keys.master_keys n.crypto_type h in
    let area_key =
      gen_aes_kek b (get_kaek keys (kaek_idx n.header)) mkey keys.aes_kek_generation_source
        keys.aes_key_generation_source in
    (
      record n {
        header =
            take 0x300 n.header ++ (aes_ecb b area_key (key_area n.header) ++ drop 0x340 n.header);
      },
      rw (at, decrypt_keyarea) refl,
      refl,
    )

-- The choice of the key.
with_body_key_returns :
    (b : Backend) (keys : KeySet) (titles : TitlekeySet) (n : Nca)
    → length keys.master_keys ≡ 0x20
    → length keys.titlekeks ≡ 0x20
    → (ready : Bool) × (n' : Nca) × (with_body_key b keys titles n ≡ ok (ready, n'))
      × (n'.base ≡ n.base)
      × ((ready ≡ false) ↔ (
          (is_nonzero (right_id n.header) ≡ true) × (get_key titles (right_id n.header) ≡ thrown)))
unfolding with_body_key
with_body_key_returns b keys titles n masters teks =
    elim (Bool-cases (is_nonzero (right_id n.header))) [
      | inl named ↦ elim (get_key_cases titles (right_id n.header)) [
        | inl missing ↦ (
          false,
          record (with_type n) { has_rights_id = true },
          rw named (rw (missing, decrypt_titlekey) refl),
          refl,
          (λ h. (named, missing), λ h. refl),
        )
        | inr (tkey, found) ↦
            let n1 : Nca = record (with_type n) { has_rights_id = true } in
            let (tkek, at) =
              key_at_below keys.titlekeks n1.crypto_type (type_below n keys.titlekeks teks) in
            (
              true,
              record n1 { body_key = aes_ecb b tkek tkey },
              rw named (rw (found, decrypt_titlekey) (rw at refl)),
              refl,
              (λ h. cc, λ h. cc),
            )
      ]
      | inr unnamed ↦
          let (n2, done, same) =
            decrypt_keyarea_returns b keys (with_type n) (type_below n keys.master_keys masters) in
          (
            true,
            record n2 { body_key = slice 0x20 0x10 (key_area n2.header) },
            rw (unnamed, done) refl,
            same,
            (λ h. cc, λ h. cc),
          )
    ]

parse_after :
    (b : Backend) (uninit : ℕ → List ℕ) (keys : KeySet) (titles : TitlekeySet) (n : Nca)
    (s : Stream) (ready : Bool) (n1 : Nca)
    → with_body_key b keys titles n ≡ ok (ready, n1)
    → IsUndecrypted n1.base
    → (n' : Nca) × (s' : Stream) × (parse b uninit keys titles n s ≡ ok (ready, n', s'))
unfolding parse
parse_after b uninit keys titles n s true n1 keyed direct =
    let (n', s', e) = with_sections-Returns b uninit n1 s direct in (n', s', rw (keyed, parse) e)
parse_after b uninit keys titles n s false n1 keyed direct = (n1, s, rw (keyed, parse) refl)

-- With the 32 keys of both kinds that a key set has, and a file that is not within a decrypting window,
-- `parse` returns for every header, every set of title keys and whatever the file holds, whichever
-- generation the header names and wherever its sections lie: no index leaves the arrays, no copy leaves
-- a buffer, and no exception gets out. It fails exactly when the header names a rights id that no title key
-- belongs to.
pub parse_returns :
    (b : Backend) (uninit : ℕ → List ℕ) (keys : KeySet) (titles : TitlekeySet) (n : Nca)
    (s : Stream)
    → length keys.master_keys ≡ 0x20
    → length keys.titlekeks ≡ 0x20
    → IsUndecrypted n.base
    → (ready : Bool) × (n' : Nca) × (s' : Stream) × (parse b uninit keys titles n s
        ≡ ok (ready, n', s'))
      × ((ready ≡ false) ↔ (
          (is_nonzero (right_id n.header) ≡ true) × (get_key titles (right_id n.header) ≡ thrown)))
parse_returns b uninit keys titles n s masters teks direct =
    let (ready, n1, keyed, same, fails) = with_body_key_returns b keys titles n masters teks in
    let (n', s', e) =
      parse_after b uninit keys titles n s ready n1 keyed (subst IsUndecrypted (sym same) direct) in
    (ready, n', s', e, fails)
