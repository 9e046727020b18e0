-- ===== src/ThreadPool/Awake.antt =====
-- While the pool does not exit, items are never left with all workers asleep.
use fuse_nx.Prelude.{
  ℕ, ◌+◌, ◌≤◌, ◌<◌, ◌≡◌, ◌⊎◌, inl, inr, refl, ap, ◌∙◌, arith, Bool, true, false, List, [], ◌∷◌,
  ◌++◌, length, length-append, length-map, max,
}
use fuse_nx.ThreadPool.{
  Worker, testing, locking, checking, passed, parking, waiting, returned, working, ThreadPool, sum,
  woken, start_workers, WorkerStep, loop, leave, lock, pass, fail, sleep, exit, take_item, finish,
  CallerStep, begin_wait, end_wait, stop, notify_all, join, Step, by_worker, by_caller,
  spurious_wake, queue_item_waking, queue_item, Reachable, started, stepped,
}
use fuse_nx.ThreadPool.Safety.{holder_locks, IsSafe, Reachable-IsSafe}
use fuse_nx.ThreadPool.Counts.{
  held, holds, sum_at, sum-woken, sum_le, sum-replicate, alert, gone, parks, each_counted,
  parks-holds, alert-woken, length-replicate,
}

module _ {ℓ} {A : Type ℓ} where
  -- There are workers, none returns before the pool exits, one that is about to sleep saw an empty queue
  -- that is empty still, and items in the queue have a worker that can go on.
  pub record IsAwake (p : ThreadPool A) : Type ℓ where
    pub staffed : 0 < length p.workers
    pub present : p.is_exiting ≡ false → sum gone p.workers ≡ 0
    pub parked : 0 < sum parks p.workers → length p.pending_args ≡ 0
    pub awake : p.is_exiting ≡ false → 0 < length p.pending_args → 0 < sum alert p.workers

  start_workers-IsAwake : (n : ℕ) → IsAwake (start_workers n)
  start_workers-IsAwake n = record {
    staffed = omega (arith, length-replicate {A = A} (max 1 n) testing);
    present = λ e. sum-replicate {A = A} gone (max 1 n) testing refl;
    parked = λ h. refl;
    awake = λ e h. omega (arith, h);
  }

  -- A worker that goes from one place to another where the queue stays.
  shifted :
      (p : ThreadPool A) (before after : List (Worker A)) (w w' : Worker A) (locked' : Bool)
      → p.workers ≡ before ++ (w ∷ after)
      → IsAwake p
      → gone w' ≤ gone w ⊎ (p.is_exiting ≡ true)
      → parks w' ≤ parks w ⊎ (length p.pending_args ≡ 0)
      → alert w ≤ alert w' ⊎ ((p.is_exiting ≡ true) ⊎ (length p.pending_args ≡ 0))
      → IsAwake (record p { workers = before ++ (w' ∷ after); locked = locked' })
  shifted p before after w w' locked' at a stays parks' alert' = record {
    staffed = omega (arith, length-append before (w' ∷ after));
    present = λ e. elim stays [
      | inl le ↦ omega (arith, a.present e, split gone, sum_at gone before after w', le)
      | inr e' ↦ cc
    ];
    parked = λ h. elim parks' [
      | inl le ↦ a.parked (omega (arith, h, split parks, sum_at parks before after w', le))
      | inr none_left ↦ none_left
    ];
    awake = λ e h. elim alert' [
      | inl le ↦ omega (arith, a.awake e h, split alert, sum_at alert before after w', le)
      | inr (inl e') ↦ cc
      | inr (inr none_left) ↦ omega (arith, h, none_left)
    ];
  }
    where
      split : (f : Worker A → ℕ) → sum f p.workers ≡ f w + (sum f before + sum f after)
      split f = ap (sum f) at ∙ sum_at f before after w

  -- Whoever holds the mutex is the only one who could park.
  free_parks : (p : ThreadPool A) → IsSafe p → p.locked ≡ false → sum parks p.workers ≡ 0
  free_parks p s e = omega (arith, s.exclusive, ap held e, sum_le parks holds parks-holds p.workers)

  taken-IsAwake :
      (p : ThreadPool A) (before after : List (Worker A)) (x : A) (rest : List A)
      → p.workers ≡ before ++ (passed ∷ after)
      → IsSafe p
      → IsAwake p
      → IsAwake (record p {
        workers = before ++ (working x ∷ after);
        pending_args = rest;
        taken = p.taken ++ (x ∷ []);
        locked = false;
      })
  taken-IsAwake p before after x rest at s a =
      let (one, none_else) = holder_locks p before after passed at s refl in
      record {
        staffed = omega (arith, length-append before (working x ∷ after));
        present = λ e. omega (
          arith,
          a.present e,
          ap (sum gone) at ∙ sum_at gone before after passed,
          sum_at gone before after (working x),
        );
        parked = λ h. absurd (
            omega (
              arith,
              h,
              none_else,
              sum_at parks before after (working x),
              sum_le parks holds parks-holds before,
              sum_le parks holds parks-holds after,
            ));
        awake = λ e h. omega (arith, sum_at alert before after (working x));
      }

  moved_on :
      (p : ThreadPool A) (before after : List (Worker A)) (w w' : Worker A)
      → p.workers ≡ before ++ (w ∷ after)
      → IsAwake p
      → gone w' ≤ gone w
      → parks w' ≤ parks w
      → alert w ≤ alert w'
      → IsAwake (record p { workers = before ++ (w' ∷ after) })
  moved_on p before after w w' at a stays parks' alert' =
      shifted p before after w w' p.locked at a (inl stays) (inl parks') (inl alert')

  WorkerStep-IsAwake : {p q : ThreadPool A} → WorkerStep p q → IsSafe p → IsAwake p → IsAwake q
  WorkerStep-IsAwake (loop p before after at e) s a =
      moved_on p before after testing locking at a (omega arith) (omega arith) (omega arith)
  WorkerStep-IsAwake (leave p before after at e) s a =
      shifted p before after testing returned p.locked at a (inr e) (inl (omega arith))
        (inr (inl e))
  WorkerStep-IsAwake (lock p before after at e) s a =
      shifted p before after locking checking true at a (inl (omega arith)) (inl (omega arith))
        (inl (omega arith))
  WorkerStep-IsAwake (pass p before after at e) s a =
      moved_on p before after checking passed at a (omega arith) (omega arith) (omega arith)
  WorkerStep-IsAwake (fail p before after at e none_left) s a =
      shifted p before after checking parking p.locked at a (inl (omega arith))
        (inr (ap length none_left)) (inl (omega arith))
  WorkerStep-IsAwake (sleep p before after at) s a =
      shifted p before after parking waiting false at a (inl (omega arith)) (inl (omega arith)) (
        inr (inr (a.parked (omega (arith, ap (sum parks) at ∙ sum_at parks before after parking)))))
  WorkerStep-IsAwake (exit p before after at e) s a =
      shifted p before after passed returned false at a (inr e) (inl (omega arith)) (inr (inl e))
  WorkerStep-IsAwake (take_item p before after x rest at e shape) s a =
      taken-IsAwake p before after x rest at s a
  WorkerStep-IsAwake (finish p before after x at) s a =
      let q =
        moved_on p before after (working x) testing at a (omega arith) (omega arith)
          (omega arith) in
      record { staffed = q.staffed; present = q.present; parked = q.parked; awake = q.awake }

  CallerStep-IsAwake : {p q : ThreadPool A} → CallerStep p q → IsAwake p → IsAwake q
  CallerStep-IsAwake (begin_wait p c) a = record {
    staffed = a.staffed;
    present = a.present;
    parked = a.parked;
    awake = a.awake;
  }
  CallerStep-IsAwake (end_wait p c none_left) a = record {
    staffed = a.staffed;
    present = a.present;
    parked = a.parked;
    awake = a.awake;
  }
  CallerStep-IsAwake (stop p c) a = record {
    staffed = a.staffed;
    present = λ e. cc;
    parked = a.parked;
    awake = λ e h. cc;
  }
  CallerStep-IsAwake (notify_all p c) a = record {
    staffed = omega (arith, a.staffed, length-map p.workers woken);
    present = λ e. sum-woken gone p.workers refl ∙ a.present e;
    parked = λ h. a.parked (omega (arith, h, sum-woken parks p.workers refl));
    awake = λ e h. omega (arith, a.awake e h, alert-woken p.workers);
  }
  CallerStep-IsAwake (join p n c all) a = record {
    staffed = a.staffed;
    present = a.present;
    parked = a.parked;
    awake = a.awake;
  }

  roused-IsAwake :
      (p : ThreadPool A) (before after : List (Worker A))
      → p.workers ≡ before ++ (waiting ∷ after)
      → IsAwake p
      → IsAwake (record p { workers = before ++ (locking ∷ after) })
  roused-IsAwake p before after at a =
      moved_on p before after waiting locking at a (omega arith) (omega arith) (omega arith)

  Step-IsAwake : {p q : ThreadPool A} → Step p q → IsSafe p → IsAwake p → IsAwake q
  Step-IsAwake (by_worker step) s a = WorkerStep-IsAwake step s a
  Step-IsAwake (by_caller step) s a = CallerStep-IsAwake step a
  Step-IsAwake (spurious_wake p before after at) s a = roused-IsAwake p before after at a
  Step-IsAwake (queue_item_waking p x before after e at) s a =
      let q = roused-IsAwake p before after at a in
      record {
        staffed = q.staffed;
        present = q.present;
        parked = λ h. absurd (
            omega (
              arith,
              h,
              free_parks p s e,
              ap (sum parks) at ∙ sum_at parks before after waiting,
              sum_at parks before after locking,
            ));
        awake = λ e' h. omega (arith, sum_at alert before after locking);
      }
  Step-IsAwake (queue_item p x e none_waits) s a = record {
    staffed = a.staffed;
    present = a.present;
    parked = λ h. absurd (omega (arith, h, free_parks p s e));
    awake = λ e' h. omega (arith, each_counted p.workers, none_waits, a.present e', a.staffed);
  }

  -- In a state that a pool comes to there are workers; none of them returns before the pool exits; one that
  -- is about to sleep saw an empty queue, which is empty still; and while the pool does not exit, items in
  -- the queue have a worker that is neither asleep nor gone. So no notification of `queue_item` is lost.
  pub Reachable-IsAwake : (num_workers : ℕ) (p : ThreadPool A) → Reachable num_workers p → IsAwake p
  Reachable-IsAwake n p started = start_workers-IsAwake n
  Reachable-IsAwake n q (stepped {p} r step) =
      Step-IsAwake step (Reachable-IsSafe n p r) (Reachable-IsAwake n p r)
