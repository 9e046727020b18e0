-- ===== src/ThreadPool/Tests.antt =====
-- One worker and two items; one worker that handles its item and returns; one that sleeps too late.
use fuse_nx.Prelude.{ℕ, ◌+◌, ◌≤◌, ◌<◌, ◌≡◌, ◌⊎◌, refl, arith, [], ◌∷◌, true, inr, length}
use mathlib.Core.List.{Perm}
use fuse_nx.ThreadPool.{
  waiting, returned, working, ThreadPool, joining, exited, waits, sum, Reachable, started, stepped,
  WorkerRun, halted, worked, Run, stays, goes, CallerStep, start_workers, by_worker, by_caller,
  loop, leave, lock, pass, fail, sleep, take_item, finish, queue_item, begin_wait, end_wait, stop,
  notify_all, join,
}
use fuse_nx.ThreadPool.Counts.{gone}
use fuse_nx.ThreadPool.Safety.{IsSafe, Reachable-IsSafe}
use fuse_nx.ThreadPool.Awake.{IsAwake, Reachable-IsAwake}
use fuse_nx.ThreadPool.Progress.{effort, Goes}
use fuse_nx.ThreadPool.Drains.{drains}
use fuse_nx.ThreadPool.Exits.{wait-then-stop_workers}
use fuse_nx.ThreadPool.Joins.{lost_wakeup, stop_workers-returns}

abbrev queue_two : ThreadPool ℕ
queue_two = record (start_workers 0) { pending_args = 4 ∷ 5 ∷ []; queued = 4 ∷ 5 ∷ [] }

queue_two-Reachable : Reachable 0 queue_two
queue_two-Reachable =
    stepped (stepped started (queue_item _ 4 refl refl)) (queue_item _ 5 refl refl)

abbrev busy : ThreadPool ℕ
busy = record queue_two { pending_args = 5 ∷ []; workers = working 4 ∷ []; taken = 4 ∷ [] }

busy-WorkerRun : WorkerRun 4 queue_two busy
busy-WorkerRun =
    worked
      (worked (worked (worked halted (loop _ [] [] refl refl)) (lock _ [] [] refl refl))
        (pass _ [] [] refl (inr (λ e. cc))))
      (take_item _ [] [] 4 (5 ∷ []) refl refl refl)

busy-Reachable : Reachable 0 busy
busy-Reachable =
    stepped
      (stepped
        (stepped (stepped queue_two-Reachable (by_worker (loop _ [] [] refl refl)))
          (by_worker (lock _ [] [] refl refl)))
        (by_worker (pass _ [] [] refl (inr (λ e. cc)))))
      (by_worker (take_item _ [] [] 4 (5 ∷ []) refl refl refl))

Reachable-IsSafe_example : IsSafe busy
Reachable-IsSafe_example = Reachable-IsSafe 0 busy busy-Reachable

Reachable-IsAwake_example : IsAwake busy
Reachable-IsAwake_example = Reachable-IsAwake 0 busy busy-Reachable

drains_example :
    (4 + effort busy ≤ effort queue_two)
    × (Goes busy ⊎ ((busy.pending_args ≡ []) × Perm busy.done queue_two.queued))
drains_example = drains 0 4 queue_two busy queue_two-Reachable refl busy-WorkerRun

-- The only item is in the worker's hand when `wait` ends.
abbrev last_taken : ThreadPool ℕ
last_taken = record (start_workers 0) { workers = working 4 ∷ []; queued = 4 ∷ []; taken = 4 ∷ [] }

last_taken-Reachable : Reachable 0 last_taken
last_taken-Reachable =
    stepped
      (stepped
        (stepped
          (stepped (stepped started (queue_item _ 4 refl refl))
            (by_worker (loop _ [] [] refl refl)))
          (by_worker (lock _ [] [] refl refl)))
        (by_worker (pass _ [] [] refl (inr (λ e. cc)))))
      (by_worker (take_item _ [] [] 4 [] refl refl refl))

abbrev all_handled : ThreadPool ℕ
all_handled = record last_taken {
  is_exiting = true;
  workers = returned ∷ [];
  caller = exited;
  done = 4 ∷ [];
}

all_handled-Run : Run last_taken all_handled
all_handled-Run =
    goes
      (goes
        (goes
          (goes
            (goes
              (goes (goes stays (by_caller (begin_wait _ refl))) (by_caller (end_wait _ refl refl)))
              (by_caller (stop _ refl)))
            (by_worker (finish _ [] [] 4 refl)))
          (by_caller (notify_all _ refl)))
        (by_worker (leave _ [] [] refl refl)))
      (by_caller (join _ 1 refl refl))

wait-then-stop_workers_example :
    (sum gone all_handled.workers ≡ length all_handled.workers)
    × Perm all_handled.done all_handled.queued
wait-then-stop_workers_example =
    wait-then-stop_workers 0 last_taken all_handled last_taken-Reachable refl all_handled-Run refl
      refl

-- The worker tests `is_exiting`, then the owner sets it and notifies, and then the worker sleeps.
abbrev stuck : ThreadPool ℕ
stuck = record (start_workers 0) { is_exiting = true; workers = waiting ∷ []; caller = joining }

stuck-Reachable : Reachable 0 stuck
stuck-Reachable =
    stepped
      (stepped
        (stepped
          (stepped
            (stepped (stepped started (by_worker (loop _ [] [] refl refl)))
              (by_worker (lock _ [] [] refl refl)))
            (by_worker (fail _ [] [] refl refl refl)))
          (by_caller (stop _ refl)))
        (by_caller (notify_all _ refl)))
      (by_worker (sleep _ [] [] refl))

lost_wakeup_example :
    Reachable 0 stuck
    × (stuck.caller ≡ joining)
    × (0 < sum waits stuck.workers)
    × ¬ ((r : ThreadPool ℕ) × CallerStep stuck r)
lost_wakeup_example = lost_wakeup 0 0 stuck stuck stuck-Reachable refl (omega arith) halted

abbrev notified : ThreadPool ℕ
notified = record (start_workers 0) { is_exiting = true; caller = joining }

notified-Reachable : Reachable 0 notified
notified-Reachable =
    stepped (stepped started (by_caller (stop _ refl))) (by_caller (notify_all _ refl))

stop_workers-returns_example :
    (0 + effort notified ≤ effort notified)
    × (Goes notified ⊎ CallerStep notified (record notified { caller = exited }))
stop_workers-returns_example =
    stop_workers-returns 0 0 notified notified notified-Reachable refl refl halted
