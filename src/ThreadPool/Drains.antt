-- ===== src/ThreadPool/Drains.antt =====
-- What the workers of a pool that does not exit come to: an empty queue, and every item handled.
use fuse_nx.Prelude.{
  ℕ, ◌+◌, ◌≤◌, ◌<◌, ◌≡◌, ◌⊎◌, inl, inr, refl, sym, ap, ◌∙◌, arith, false, List, [], ◌∷◌, ◌++◌,
  length, append-nil,
}
use mathlib.Core.Path.{subst}
use mathlib.Core.List.{Perm}
use mathlib.Core.List.Perm
use fuse_nx.ThreadPool.Counts.{hands, alert}
use fuse_nx.ThreadPool.{
  Worker, testing, locking, checking, passed, parking, waiting, returned, working, ThreadPool, sum,
  WorkerStep, loop, leave, lock, pass, fail, sleep, exit, take_item, finish, by_worker, Reachable,
  stepped, WorkerRun, halted, worked,
}
use fuse_nx.ThreadPool.Safety.{IsSafe, Reachable-IsSafe}
use fuse_nx.ThreadPool.Awake.{IsAwake, Reachable-IsAwake}
use fuse_nx.ThreadPool.Progress.{effort, WorkerStep-effort, Goes, IsSafe-Goes}

module _ {ℓ} {A : Type ℓ} where
  -- A worker by itself neither ends the pool nor queues items.
  pub WorkerStep-keeps :
      {p q : ThreadPool A}
      → WorkerStep p q
      → (q.is_exiting ≡ p.is_exiting) × (q.queued ≡ p.queued) × (q.caller ≡ p.caller)
  WorkerStep-keeps (loop p before after at e) = (refl, refl, refl)
  WorkerStep-keeps (leave p before after at e) = (refl, refl, refl)
  WorkerStep-keeps (lock p before after at e) = (refl, refl, refl)
  WorkerStep-keeps (pass p before after at e) = (refl, refl, refl)
  WorkerStep-keeps (fail p before after at e none_left) = (refl, refl, refl)
  WorkerStep-keeps (sleep p before after at) = (refl, refl, refl)
  WorkerStep-keeps (exit p before after at e) = (refl, refl, refl)
  WorkerStep-keeps (take_item p before after x rest at e shape) = (refl, refl, refl)
  WorkerStep-keeps (finish p before after x at) = (refl, refl, refl)

  pub WorkerRun-keeps :
      {n : ℕ} {p q : ThreadPool A}
      → WorkerRun n p q
      → (q.is_exiting ≡ p.is_exiting) × (q.queued ≡ p.queued) × (q.caller ≡ p.caller)
  WorkerRun-keeps halted = (refl, refl, refl)
  WorkerRun-keeps (worked run step) =
      let (e, queue, c) = WorkerRun-keeps run in
      let (e', queue', c') = WorkerStep-keeps step in (e' ∙ e, queue' ∙ queue, c' ∙ c)

  pub WorkerRun-effort : {n : ℕ} {p q : ThreadPool A} → WorkerRun n p q → n + effort q ≤ effort p
  WorkerRun-effort halted = omega arith
  WorkerRun-effort (worked run step) = omega (arith, WorkerRun-effort run, WorkerStep-effort step)

  pub WorkerRun-Reachable :
      {num_workers n : ℕ} {p q : ThreadPool A}
      → Reachable num_workers p
      → WorkerRun n p q
      → Reachable num_workers q
  WorkerRun-Reachable r halted = r
  WorkerRun-Reachable r (worked run step) = stepped (WorkerRun-Reachable r run) (by_worker step)

  pub hands-still : (ws : List (Worker A)) → sum alert ws ≡ 0 → hands ws ≡ []
  hands-still [] e = refl
  hands-still (waiting ∷ ws) e = hands-still ws (omega (arith, e))
  hands-still (returned ∷ ws) e = hands-still ws (omega (arith, e))
  hands-still (testing ∷ ws) e = absurd (omega (arith, e))
  hands-still (locking ∷ ws) e = absurd (omega (arith, e))
  hands-still (checking ∷ ws) e = absurd (omega (arith, e))
  hands-still (passed ∷ ws) e = absurd (omega (arith, e))
  hands-still (parking ∷ ws) e = absurd (omega (arith, e))
  hands-still (working x ∷ ws) e = absurd (omega (arith, e))

  -- Where the workers hold nothing, what came out of the queue is handled.
  pub done-Perm : (p : ThreadPool A) → IsSafe p → sum alert p.workers ≡ 0 → Perm p.done p.taken
  done-Perm p s still = Perm.symm (
      subst (Perm p.taken) (ap (◌++◌ p.done) (hands-still p.workers still) ∙ append-nil p.done)
        s.handled)

  empty : (xs : List A) → (0 < length xs → ⊥) → xs ≡ []
  empty [] h = refl
  empty (x ∷ xs) h = absurd (h (omega arith))

  drained :
      (p : ThreadPool A)
      → IsSafe p
      → IsAwake p
      → p.is_exiting ≡ false
      → sum alert p.workers ≡ 0
      → (p.pending_args ≡ []) × Perm p.done p.queued
  drained p s a e still =
      let none_left = empty p.pending_args (λ h. omega (arith, a.awake e h, still)) in
      (
        none_left,
        subst (Perm p.done)
            (sym (append-nil p.taken) ∙ ap (◌++◌ p.taken) (sym none_left) ∙ s.ordered)
            (done-Perm p s still),
      )

  -- From a state that a pool comes to and in which it does not exit, with no new item and no thread but the
  -- workers: they make at most as many steps as the effort counts, five for each item in the queue and
  -- what each worker has before it; and at any point of such a run some worker has a step, or the queue
  -- is empty and the handled items are, in some order, all that were queued.
  pub drains :
      (num_workers n : ℕ) (p q : ThreadPool A)
      → Reachable num_workers p
      → p.is_exiting ≡ false
      → WorkerRun n p q
      → (n + effort q ≤ effort p) × (Goes q ⊎ ((q.pending_args ≡ []) × Perm q.done p.queued))
  drains num_workers n p q r e run =
      let (e', queue, c) = WorkerRun-keeps run in
      let r' = WorkerRun-Reachable r run in
      let s = Reachable-IsSafe num_workers q r' in
      (
        WorkerRun-effort run,
        elim (IsSafe-Goes q s) [
          | inl step ↦ inl step
          | inr still ↦
              let (none_left, all) =
                drained q s (Reachable-IsAwake num_workers q r') (e' ∙ e) still in
              inr (none_left, subst (Perm q.done) queue all)
        ],
      )
