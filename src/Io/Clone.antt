-- ===== src/Io/Clone.antt =====
-- A clone shows the same bytes.
use fuse_nx.Prelude.{ℕ, ◌≡◌, refl, ap, List}
use fuse_nx.Prelude.Slices.{slice}
use fuse_nx.Crypto.Ctr.{xor_from, key_stream}
use fuse_nx.Io.{FileBase, file, offset_file, ctr_file, clone}
use fuse_nx.Io.View.{view, IsReady, IsPlain}

pub clone-IsPlain : (f : FileBase) → IsPlain f → IsPlain (clone f)
unfolding clone
clone-IsPlain (file pos fsize) h = tt
clone-IsPlain (offset_file pos fsize base offset) h = tt
clone-IsPlain (ctr_file pos fsize base offset cipher) h = h

module _ (pad : List ℕ → ℕ → ℕ → ℕ) (xs : List ℕ) where
  pub clone-view : (f : FileBase) → view pad (clone f) xs ≡ view pad f xs
  unfolding clone
  clone-view (file pos fsize) = refl
  clone-view (offset_file pos fsize base offset) = ap (slice offset fsize) (clone-view base)
  clone-view (ctr_file pos fsize base offset cipher) =
      ap (λ ys. slice offset fsize (xor_from (key_stream pad cipher.key cipher.nonce) 0 ys))
        (clone-view base)

  pub clone-IsReady : (f : FileBase) → IsReady pad f xs → IsReady pad (clone f) xs
  unfolding clone
  clone-IsReady (file pos fsize) h = h
  clone-IsReady (offset_file pos fsize base offset) h =
      (clone-IsReady base h.0, rw (clone-view base) h.1)
  clone-IsReady (ctr_file pos fsize base offset cipher) h =
      (clone-IsReady base h.0, rw (clone-view base) h.1, h.2, h.3, clone-IsPlain base h.4)
