-- ===== src/ThreadPool/Exits.antt =====
-- What `wait` and `stop_workers` leave behind.
use fuse_nx.Prelude.{
  ℕ, ◌≤◌, ◌≡◌, refl, sym, ap, ◌∙◌, arith, Bool, true, false, List, [], ◌∷◌, ◌++◌, length,
  length-append, append-nil,
}
use mathlib.Core.Path.{subst}
use mathlib.Core.List.{Perm}
use fuse_nx.ThreadPool.Counts.{
  sum_at, sum-replicate_one, alert, gone, each_counted, length-replicate,
}
use fuse_nx.ThreadPool.{
  Worker, testing, locking, checking, passed, parking, waiting, returned, working, ThreadPool,
  Caller, active, draining, notifying, joining, exited, sum, WorkerStep, loop, leave, lock, pass,
  fail, sleep, exit, take_item, finish, CallerStep, begin_wait, end_wait, stop, notify_all, join,
  Step, by_worker, by_caller, spurious_wake, queue_item_waking, queue_item, Reachable, started,
  stepped, Run, stays, goes,
}
use fuse_nx.ThreadPool.Safety.{Reachable-IsSafe}
use fuse_nx.ThreadPool.Drains.{WorkerStep-keeps, done-Perm}

abbrev pub stopping : Caller → Bool
stopping active = false
stopping draining = false
stopping notifying = true
stopping joining = true
stopping exited = true

module _ {ℓ} {A : Type ℓ} where
  -- The flag is what the owner made it, and past the joins the workers are gone.
  pub record IsOwned (p : ThreadPool A) : Type ℓ where
    pub flagged : p.is_exiting ≡ stopping p.caller
    pub joined : p.caller ≡ exited → sum gone p.workers ≡ length p.workers

  -- A worker that moves was not gone, so the joins are not done.
  not_joined :
      (p : ThreadPool A) (before after : List (Worker A)) (w w' : Worker A)
      → p.workers ≡ before ++ (w ∷ after)
      → gone w ≡ 0
      → IsOwned p
      → p.caller ≡ exited
      → sum gone (before ++ (w' ∷ after)) ≡ length (before ++ (w' ∷ after))
  not_joined p before after w w' at e o c = absurd (
      omega (
        arith,
        o.joined c,
        ap (sum gone) at ∙ sum_at gone before after w,
        e,
        each_counted before,
        each_counted after,
        ap length at ∙ length-append before (w ∷ after),
      ))

  WorkerStep-joined :
      {p q : ThreadPool A}
      → WorkerStep p q
      → IsOwned p
      → p.caller ≡ exited
      → sum gone q.workers ≡ length q.workers
  WorkerStep-joined (loop p before after at e) = not_joined p before after testing locking at refl
  WorkerStep-joined (leave p before after at e) = not_joined p before after testing returned at refl
  WorkerStep-joined (lock p before after at e) = not_joined p before after locking checking at refl
  WorkerStep-joined (pass p before after at e) = not_joined p before after checking passed at refl
  WorkerStep-joined (fail p before after at e none_left) =
      not_joined p before after checking parking at refl
  WorkerStep-joined (sleep p before after at) = not_joined p before after parking waiting at refl
  WorkerStep-joined (exit p before after at e) = not_joined p before after passed returned at refl
  WorkerStep-joined (take_item p before after x rest at e shape) =
      not_joined p before after passed (working x) at refl
  WorkerStep-joined (finish p before after x at) =
      not_joined p before after (working x) testing at refl

  CallerStep-IsOwned : {p q : ThreadPool A} → CallerStep p q → IsOwned p → IsOwned q
  CallerStep-IsOwned (begin_wait p c) o = record {
    flagged = o.flagged ∙ ap stopping c;
    joined = λ c'. cc;
  }
  CallerStep-IsOwned (end_wait p c none_left) o = record {
    flagged = o.flagged ∙ ap stopping c;
    joined = λ c'. cc;
  }
  CallerStep-IsOwned (stop p c) o = record { flagged = refl; joined = λ c'. cc }
  CallerStep-IsOwned (notify_all p c) o = record {
    flagged = o.flagged ∙ ap stopping c;
    joined = λ c'. cc;
  }
  CallerStep-IsOwned (join p n c all) o = record {
    flagged = o.flagged ∙ ap stopping c;
    joined =
        λ c'. rw all (sum-replicate_one gone n returned refl ∙ sym (length-replicate n returned));
  }

  Step-IsOwned : {p q : ThreadPool A} → Step p q → IsOwned p → IsOwned q
  Step-IsOwned (by_worker step) o =
      let (e, queue, c) = WorkerStep-keeps step in
      record {
        flagged = e ∙ o.flagged ∙ sym (ap stopping c);
        joined = λ c'. WorkerStep-joined step o (sym c ∙ c');
      }
  Step-IsOwned (by_caller step) o = CallerStep-IsOwned step o
  Step-IsOwned (spurious_wake p before after at) o = record {
    flagged = o.flagged;
    joined = not_joined p before after waiting locking at refl o;
  }
  Step-IsOwned (queue_item_waking p x before after e at) o = record {
    flagged = o.flagged;
    joined = not_joined p before after waiting locking at refl o;
  }
  Step-IsOwned (queue_item p x e none_waits) o = record { flagged = o.flagged; joined = o.joined }

  pub Reachable-IsOwned : (n : ℕ) (p : ThreadPool A) → Reachable n p → IsOwned p
  Reachable-IsOwned n p started = record { flagged = refl; joined = λ c. cc }
  Reachable-IsOwned n q (stepped {p} r step) = Step-IsOwned step (Reachable-IsOwned n p r)

  all_gone : (p : ThreadPool A) → IsOwned p → p.caller ≡ exited → sum alert p.workers ≡ 0
  all_gone p o c = omega (arith, o.joined c, each_counted p.workers)

  taken_grows : {p q : ThreadPool A} → Step p q → length p.taken ≤ length q.taken
  taken_grows (by_worker (take_item p before after x rest at e shape)) =
      omega (arith, length-append p.taken (x ∷ []))
  taken_grows (by_worker (loop p before after at e)) = omega arith
  taken_grows (by_worker (leave p before after at e)) = omega arith
  taken_grows (by_worker (lock p before after at e)) = omega arith
  taken_grows (by_worker (pass p before after at e)) = omega arith
  taken_grows (by_worker (fail p before after at e none_left)) = omega arith
  taken_grows (by_worker (sleep p before after at)) = omega arith
  taken_grows (by_worker (exit p before after at e)) = omega arith
  taken_grows (by_worker (finish p before after x at)) = omega arith
  taken_grows (by_caller (begin_wait p c)) = omega arith
  taken_grows (by_caller (end_wait p c none_left)) = omega arith
  taken_grows (by_caller (stop p c)) = omega arith
  taken_grows (by_caller (notify_all p c)) = omega arith
  taken_grows (by_caller (join p n c all)) = omega arith
  taken_grows (spurious_wake p before after at) = omega arith
  taken_grows (queue_item_waking p x before after e at) = omega arith
  taken_grows (queue_item p x e none_waits) = omega arith

  Run-taken : {p q : ThreadPool A} → Run p q → length p.taken ≤ length q.taken
  Run-taken stays = omega arith
  Run-taken (goes run step) = omega (arith, Run-taken run, taken_grows step)

  Run-Reachable : {n : ℕ} {p q : ThreadPool A} → Reachable n p → Run p q → Reachable n q
  Run-Reachable r stays = r
  Run-Reachable r (goes run step) = stepped (Run-Reachable r run) step

  no_length : (xs : List A) → length xs ≡ 0 → xs ≡ []
  no_length [] e = refl
  no_length (x ∷ xs) e = absurd (omega (arith, e))

  -- When `wait` ends with an empty queue, or the queue is empty for another reason, and nothing is queued
  -- from then on, then `stop_workers`, should it return, leaves no worker and every item that was ever
  -- queued handled, in some order; items that a worker still had in hand when `wait` ended among them.
  pub wait-then-stop_workers :
      (num_workers : ℕ) (p q : ThreadPool A)
      → Reachable num_workers p
      → p.pending_args ≡ []
      → Run p q
      → q.queued ≡ p.queued
      → q.caller ≡ exited
      → (sum gone q.workers ≡ length q.workers) × Perm q.done q.queued
  wait-then-stop_workers num_workers p q r none_left run same c =
      let r' = Run-Reachable r run in
      let s = Reachable-IsSafe num_workers p r in
      let s' = Reachable-IsSafe num_workers q r' in
      let o = Reachable-IsOwned num_workers q r' in
      let empty = no_length q.pending_args (
        omega (
          arith,
          Run-taken run,
          sym (length-append p.taken p.pending_args)
              ∙ ap length (s.ordered ∙ sym same ∙ sym s'.ordered)
              ∙ length-append q.taken q.pending_args,
          ap length none_left,
        )) in
      (
        o.joined c,
        subst (Perm q.done) (sym (append-nil q.taken) ∙ ap (◌++◌ q.taken) (sym empty) ∙ s'.ordered)
            (done-Perm q s' (all_gone q o c)),
      )
