-- ===== src/ThreadPool/Joins.antt =====
-- When `stop_workers` returns, and when it does not.
use fuse_nx.Prelude.{
  ℕ, ◌+◌, ◌≤◌, ◌<◌, ◌≡◌, ◌⊎◌, inl, inr, refl, ap, ◌∙◌, arith, true, List, [], ◌∷◌, ◌++◌, length,
  replicate,
}
use fuse_nx.ThreadPool.Counts.{sum_at, sum-replicate, alert}
use fuse_nx.ThreadPool.{
  Worker, testing, locking, checking, passed, parking, waiting, returned, working, ThreadPool,
  joining, exited, waits, sum, WorkerStep, loop, leave, lock, pass, fail, sleep, exit, take_item,
  finish, CallerStep, begin_wait, end_wait, stop, notify_all, join, Reachable, WorkerRun, halted,
  worked,
}
use fuse_nx.ThreadPool.Safety.{Reachable-IsSafe}
use fuse_nx.ThreadPool.Progress.{effort, Goes, IsSafe-Goes}
use fuse_nx.ThreadPool.Drains.{WorkerRun-keeps, WorkerRun-effort, WorkerRun-Reachable}
use fuse_nx.ThreadPool.Exits.{Reachable-IsOwned, stopping}

module _ {ℓ} {A : Type ℓ} where
  -- Whether a worker is asleep or on its way there.
  abbrev pub dozes : Worker A → ℕ
  dozes parking = 1
  dozes waiting = 1
  dozes _ = 0

  replaced :
      (f : Worker A → ℕ) (ws before after : List (Worker A)) (w w' : Worker A)
      → ws ≡ before ++ (w ∷ after)
      → sum f (before ++ (w' ∷ after)) + f w ≡ sum f ws + f w'
  replaced f ws before after w w' at =
      omega (arith, ap (sum f) at ∙ sum_at f before after w, sum_at f before after w')

  WorkerStep-waits :
      {p q : ThreadPool A} → WorkerStep p q → sum waits p.workers ≤ sum waits q.workers
  WorkerStep-waits (loop p before after at e) =
      omega (arith, replaced waits p.workers before after testing locking at)
  WorkerStep-waits (leave p before after at e) =
      omega (arith, replaced waits p.workers before after testing returned at)
  WorkerStep-waits (lock p before after at e) =
      omega (arith, replaced waits p.workers before after locking checking at)
  WorkerStep-waits (pass p before after at e) =
      omega (arith, replaced waits p.workers before after checking passed at)
  WorkerStep-waits (fail p before after at e none_left) =
      omega (arith, replaced waits p.workers before after checking parking at)
  WorkerStep-waits (sleep p before after at) =
      omega (arith, replaced waits p.workers before after parking waiting at)
  WorkerStep-waits (exit p before after at e) =
      omega (arith, replaced waits p.workers before after passed returned at)
  WorkerStep-waits (take_item p before after x rest at e shape) =
      omega (arith, replaced waits p.workers before after passed (working x) at)
  WorkerStep-waits (finish p before after x at) =
      omega (arith, replaced waits p.workers before after (working x) testing at)

  WorkerStep-dozes :
      {p q : ThreadPool A}
      → WorkerStep p q
      → p.is_exiting ≡ true
      → sum dozes q.workers ≤ sum dozes p.workers
  WorkerStep-dozes (loop p before after at e) e' =
      omega (arith, replaced dozes p.workers before after testing locking at)
  WorkerStep-dozes (leave p before after at e) e' =
      omega (arith, replaced dozes p.workers before after testing returned at)
  WorkerStep-dozes (lock p before after at e) e' =
      omega (arith, replaced dozes p.workers before after locking checking at)
  WorkerStep-dozes (pass p before after at e) e' =
      omega (arith, replaced dozes p.workers before after checking passed at)
  WorkerStep-dozes (fail p before after at e none_left) e' = cc
  WorkerStep-dozes (sleep p before after at) e' =
      omega (arith, replaced dozes p.workers before after parking waiting at)
  WorkerStep-dozes (exit p before after at e) e' =
      omega (arith, replaced dozes p.workers before after passed returned at)
  WorkerStep-dozes (take_item p before after x rest at e shape) e' =
      omega (arith, replaced dozes p.workers before after passed (working x) at)
  WorkerStep-dozes (finish p before after x at) e' =
      omega (arith, replaced dozes p.workers before after (working x) testing at)

  WorkerRun-waits :
      {n : ℕ} {p q : ThreadPool A} → WorkerRun n p q → sum waits p.workers ≤ sum waits q.workers
  WorkerRun-waits halted = omega arith
  WorkerRun-waits (worked run step) = omega (arith, WorkerRun-waits run, WorkerStep-waits step)

  WorkerRun-dozes :
      {n : ℕ} {p q : ThreadPool A}
      → WorkerRun n p q
      → p.is_exiting ≡ true
      → sum dozes q.workers ≤ sum dozes p.workers
  WorkerRun-dozes halted e = omega arith
  WorkerRun-dozes (worked run step) e =
      omega (arith, WorkerRun-dozes run e, WorkerStep-dozes step ((WorkerRun-keeps run).0 ∙ e))

  no_join : {p q : ThreadPool A} → CallerStep p q → p.caller ≡ joining → 0 < sum waits p.workers → ⊥
  no_join (begin_wait p c) c' h = cc
  no_join (end_wait p c none_left) c' h = cc
  no_join (stop p c) c' h = cc
  no_join (notify_all p c) c' h = cc
  no_join (join p n c all) c' h =
      omega (arith, h, ap (sum waits) all ∙ sum-replicate waits n returned refl)

  -- When the owner is at its joins and a worker is asleep, which its notification came too early for, then
  -- however far the workers run, unless a wait ends without a notification or a further item is queued:
  -- a worker is asleep still and the owner has no step, so `stop_workers` and the destructor block.
  pub lost_wakeup :
      (num_workers n : ℕ) (p q : ThreadPool A)
      → Reachable num_workers p
      → p.caller ≡ joining
      → 0 < sum waits p.workers
      → WorkerRun n p q
      → Reachable num_workers q
        × (q.caller ≡ joining)
        × (0 < sum waits q.workers)
        × ¬ ((q' : ThreadPool A) × CallerStep q q')
  lost_wakeup num_workers n p q r c h run =
      let (e, queue, c') = WorkerRun-keeps run in
      let h' = WorkerRun-waits run in
      (
        WorkerRun-Reachable r run,
        c' ∙ c,
        omega (arith, h, h'),
        λ (q', step). no_join step (c' ∙ c) (omega (arith, h, h')),
      )

  all_returned :
      (ws : List (Worker A))
      → sum alert ws ≡ 0
      → sum dozes ws ≡ 0
      → ws ≡ replicate (length ws) returned
  all_returned [] e d = refl
  all_returned (returned ∷ ws) e d =
      ap (◌∷◌ returned) (all_returned ws (omega (arith, e)) (omega (arith, d)))
  all_returned (waiting ∷ ws) e d = absurd (omega (arith, d))
  all_returned (testing ∷ ws) e d = absurd (omega (arith, e))
  all_returned (locking ∷ ws) e d = absurd (omega (arith, e))
  all_returned (checking ∷ ws) e d = absurd (omega (arith, e))
  all_returned (passed ∷ ws) e d = absurd (omega (arith, e))
  all_returned (parking ∷ ws) e d = absurd (omega (arith, e))
  all_returned (working x ∷ ws) e d = absurd (omega (arith, e))

  -- When the owner is at its joins and no worker is asleep or between a predicate that failed and its sleep,
  -- the workers make at most as many steps as the effort counts, and at any point of such a run some
  -- worker has a step, or the joins are done and `stop_workers` returns.
  pub stop_workers-returns :
      (num_workers n : ℕ) (p q : ThreadPool A)
      → Reachable num_workers p
      → p.caller ≡ joining
      → sum dozes p.workers ≡ 0
      → WorkerRun n p q
      → (n + effort q ≤ effort p) × (Goes q ⊎ CallerStep q (record q { caller = exited }))
  stop_workers-returns num_workers n p q r c none_dozes run =
      let (e, queue, c') = WorkerRun-keeps run in
      let exiting = (Reachable-IsOwned num_workers p r).flagged ∙ ap stopping c in
      let none_dozes' = WorkerRun-dozes run exiting in
      (
        WorkerRun-effort run,
        elim (IsSafe-Goes q (Reachable-IsSafe num_workers q (WorkerRun-Reachable r run))) [
          | inl step ↦ inl step
          | inr still ↦ inr (
              join q (length q.workers) (c' ∙ c)
                (all_returned q.workers still (omega (arith, none_dozes, none_dozes'))))
        ],
      )
