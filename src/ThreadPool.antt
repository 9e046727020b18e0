-- ===== src/ThreadPool.antt =====
-- src/thread_pool.hpp: the queue, the workers, their mutex and condition variable, and the thread that
-- owns the pool, as a step relation. A step is what one thread does between two points where another can
-- come in; `is_exiting` is read and written without the mutex. A wait on the condition variable ends by
-- a notification or, as the standard lets it, at any time. The push and the notification of
-- `queue_item`, both under the mutex, are one step, and so are the joins, since a worker that returned
-- stays so. A second `stop_workers` after the first, which joins threads that are joined, is no step.
pub mod Counts
pub mod Safety
pub mod Awake
pub mod Progress
pub mod Drains
pub mod Exits
pub mod Joins
mod Tests
use fuse_nx.Prelude.{
  Bool, true, false, List, [], ◌∷◌, ◌++◌, ◌≡◌, ◌⊎◌, ◌≢◌, map, replicate, ℕ, suc, ◌+◌, max,
}

-- Where a worker is in `worker_thread_func`: at the test of the loop, before the mutex, inside the wait
-- with the mutex at its predicate, after a predicate that held, after one that failed, asleep, in
-- `worker_func`, or at the end.
pub data Worker {ℓ} (A : Type ℓ) : Type ℓ where
  testing locking checking passed parking waiting returned : Worker A
  working : A → Worker A

-- Where the owner of the pool is: outside or in `queue_item`, in the loop of `wait`, in `stop_workers`
-- before `notify_all`, at its joins, or past it, when `exited` is true.
pub data Caller : Type 0 where
  active draining notifying joining exited : Caller

-- `queued`, `taken` and `done` are no fields of the class: they keep the items that were pushed, popped,
-- and handled, in order.
pub record ThreadPool {ℓ} (A : Type ℓ) : Type ℓ where
  pub pending_args : List A
  pub is_exiting : Bool
  pub locked : Bool
  pub workers : List (Worker A)
  pub caller : Caller
  pub queued : List A
  pub taken : List A
  pub done : List A

-- After `start_workers(num_workers)`: one worker at least.
abbrev pub start_workers {ℓ} : {A : Type ℓ} → ℕ → ThreadPool A
start_workers num_workers = record {
  pending_args = [];
  is_exiting = false;
  locked = false;
  workers = replicate (max 1 num_workers) testing;
  caller = active;
  queued = [];
  taken = [];
  done = [];
}

-- `notify_all` ends each wait; the mutex is taken again next.
abbrev pub woken {ℓ} : {A : Type ℓ} → Worker A → Worker A
woken waiting = locking
woken w = w

abbrev pub waits {ℓ} : {A : Type ℓ} → Worker A → ℕ
waits waiting = 1
waits _ = 0

abbrev pub sum {ℓ} : {A : Type ℓ} → (Worker A → ℕ) → List (Worker A) → ℕ
sum f [] = 0
sum f (w ∷ ws) = f w + sum f ws

-- What a worker does by itself.
pub data WorkerStep {ℓ} {A : Type ℓ} : ThreadPool A → ThreadPool A → Type ℓ where
  -- `while (!this->is_exiting)`
  loop :
      (p : ThreadPool A) (before after : List (Worker A))
      → p.workers ≡ before ++ (testing ∷ after)
      → p.is_exiting ≡ false
      → WorkerStep p (record p { workers = before ++ (locking ∷ after) })
  leave :
      (p : ThreadPool A) (before after : List (Worker A))
      → p.workers ≡ before ++ (testing ∷ after)
      → p.is_exiting ≡ true
      → WorkerStep p (record p { workers = before ++ (returned ∷ after) })
  -- `std::unique_lock lk(…)`, or the mutex taken again when the wait ends.
  lock :
      (p : ThreadPool A) (before after : List (Worker A))
      → p.workers ≡ before ++ (locking ∷ after)
      → p.locked ≡ false
      → WorkerStep p (record p { workers = before ++ (checking ∷ after); locked = true })
  -- The predicate of the wait.
  pass :
      (p : ThreadPool A) (before after : List (Worker A))
      → p.workers ≡ before ++ (checking ∷ after)
      → (p.is_exiting ≡ true) ⊎ (p.pending_args ≢ [])
      → WorkerStep p (record p { workers = before ++ (passed ∷ after) })
  fail :
      (p : ThreadPool A) (before after : List (Worker A))
      → p.workers ≡ before ++ (checking ∷ after)
      → p.is_exiting ≡ false
      → p.pending_args ≡ []
      → WorkerStep p (record p { workers = before ++ (parking ∷ after) })
  sleep :
      (p : ThreadPool A) (before after : List (Worker A))
      → p.workers ≡ before ++ (parking ∷ after)
      → WorkerStep p (record p { workers = before ++ (waiting ∷ after); locked = false })
  -- `if (this->is_exiting) return;`
  exit :
      (p : ThreadPool A) (before after : List (Worker A))
      → p.workers ≡ before ++ (passed ∷ after)
      → p.is_exiting ≡ true
      → WorkerStep p (record p { workers = before ++ (returned ∷ after); locked = false })
  -- `front`, `pop` and the unlock; on an empty queue there is no such step.
  take_item :
      (p : ThreadPool A) (before after : List (Worker A)) (x : A) (rest : List A)
      → p.workers ≡ before ++ (passed ∷ after)
      → p.is_exiting ≡ false
      → p.pending_args ≡ x ∷ rest
      → WorkerStep p (record p {
        workers = before ++ (working x ∷ after);
        pending_args = rest;
        taken = p.taken ++ (x ∷ []);
        locked = false;
      })
  -- The end of `worker_func`.
  finish :
      (p : ThreadPool A) (before after : List (Worker A)) (x : A)
      → p.workers ≡ before ++ (working x ∷ after)
      → WorkerStep p (record p { workers = before ++ (testing ∷ after); done = p.done ++ (x ∷ []) })

-- What the owner does in `wait` and `stop_workers`.
pub data CallerStep {ℓ} {A : Type ℓ} : ThreadPool A → ThreadPool A → Type ℓ where
  begin_wait :
      (p : ThreadPool A) → p.caller ≡ active → CallerStep p (record p { caller = draining })
  end_wait :
      (p : ThreadPool A)
      → p.caller ≡ draining
      → p.pending_args ≡ []
      → CallerStep p (record p { caller = active })
  stop :
      (p : ThreadPool A)
      → p.caller ≡ active
      → CallerStep p (record p { is_exiting = true; caller = notifying })
  notify_all :
      (p : ThreadPool A)
      → p.caller ≡ notifying
      → CallerStep p (record p { workers = map woken p.workers; caller = joining })
  -- `t.join()` for each worker.
  join :
      (p : ThreadPool A) (n : ℕ)
      → p.caller ≡ joining
      → p.workers ≡ replicate n returned
      → CallerStep p (record p { caller = exited })

pub data Step {ℓ} {A : Type ℓ} : ThreadPool A → ThreadPool A → Type ℓ where
  by_worker : {p q : ThreadPool A} → WorkerStep p q → Step p q
  by_caller : {p q : ThreadPool A} → CallerStep p q → Step p q
  spurious_wake :
      (p : ThreadPool A) (before after : List (Worker A))
      → p.workers ≡ before ++ (waiting ∷ after)
      → Step p (record p { workers = before ++ (locking ∷ after) })
  -- `queue_item`, where `notify_one` finds a worker that waits, and where it finds none.
  queue_item_waking :
      (p : ThreadPool A) (x : A) (before after : List (Worker A))
      → p.locked ≡ false
      → p.workers ≡ before ++ (waiting ∷ after)
      → Step p (record p {
        pending_args = p.pending_args ++ (x ∷ []);
        queued = p.queued ++ (x ∷ []);
        workers = before ++ (locking ∷ after);
      })
  queue_item :
      (p : ThreadPool A) (x : A)
      → p.locked ≡ false
      → sum waits p.workers ≡ 0
      → Step p
          (record p { pending_args = p.pending_args ++ (x ∷ []); queued = p.queued ++ (x ∷ []) })

-- The states that a pool of so many workers comes to.
pub data Reachable {ℓ} {A : Type ℓ} (num_workers : ℕ) : ThreadPool A → Type ℓ where
  started : Reachable num_workers (start_workers num_workers)
  stepped : {p q : ThreadPool A} → Reachable num_workers p → Step p q → Reachable num_workers q

-- So many steps of the workers.
pub data WorkerRun {ℓ} {A : Type ℓ} : ℕ → ThreadPool A → ThreadPool A → Type ℓ where
  halted : {p : ThreadPool A} → WorkerRun 0 p p
  worked : {n : ℕ} {p q r : ThreadPool A} → WorkerRun n p q → WorkerStep q r → WorkerRun (suc n) p r

-- The steps of all threads from a state on.
pub data Run {ℓ} {A : Type ℓ} : ThreadPool A → ThreadPool A → Type ℓ where
  stays : {p : ThreadPool A} → Run p p
  goes : {p q r : ThreadPool A} → Run p q → Step q r → Run p r
