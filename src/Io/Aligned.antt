-- ===== src/Io/Aligned.antt =====
-- The block arithmetic of `CtrFile::read`, for a read within the file.
use fuse_nx.Prelude.{ℕ, ◌+◌, ◌-◌, ◌*◌, ◌/◌, ◌%◌, ◌^◌, ◌≤◌, ◌<◌, ◌≡◌, arith, ap, ◌∙◌, min}
use fuse_nx.Prelude.Words.{u64}
use fuse_nx.Utils.Laws.{align_down-eq, align_up-eq}
use fuse_nx.Io.{aligned_pos, pos_diff, aligned_size}

module _ (p fsize n : ℕ) (within : p + n ≤ fsize) (bound : fsize < 2 ^ 63) where
  pub aligned_pos-eq : aligned_pos p fsize ≡ p / 16 * 16
  unfolding aligned_pos
  aligned_pos-eq =
      align_down-eq 60 4 (min p fsize) (omega arith)
      ∙ ap (λ (t : ℕ). t / 16 * 16) {y = p} (omega arith)

  pub pos_diff-eq : pos_diff p fsize ≡ p % 16
  unfolding pos_diff
  pos_diff-eq = rw aligned_pos-eq (omega arith)

  pub aligned_size-eq : aligned_size p fsize n ≡ (n + p % 16 + 15) / 16 * 16
  unfolding aligned_size
  aligned_size-eq =
      rw (pos_diff-eq, aligned_pos-eq)
        (align_up-eq 60 4 (min (u64 (n + p % 16)) (fsize - p / 16 * 16)) (omega arith)
          ∙ ap (λ (t : ℕ). (t + 16 - 1) / 16 * 16) {y = n + p % 16} (omega arith)
          ∙ omega arith)
