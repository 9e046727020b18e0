-- ===== src/ThreadPool/Safety.antt =====
-- What holds in every state of a thread pool, whatever the interleaving.
use fuse_nx.Prelude.{
  ℕ, ◌+◌, ◌≤◌, ◌<◌, ◌≡◌, ◌⊎◌, inl, inr, refl, sym, ap, ◌∙◌, arith, Bool, true, false, List, [], ◌∷◌,
  ◌++◌, length, length-append, max, append_assoc,
}
use mathlib.Core.Path.{subst}
use mathlib.Core.List.{Perm, perm_middle, perm_append_singleton}
use mathlib.Core.List.Perm
use fuse_nx.ThreadPool.{
  Worker, testing, locking, checking, passed, parking, waiting, returned, working, ThreadPool,
  Caller, active, draining, exited, sum, start_workers, WorkerStep, loop, leave, lock, pass, fail,
  sleep, exit, take_item, finish, CallerStep, begin_wait, end_wait, stop, notify_all, join, Step,
  by_worker, by_caller, spurious_wake, queue_item_waking, queue_item, Reachable, started, stepped,
}
use fuse_nx.ThreadPool.Counts.{
  held, held_le, nonempty, holds, pops, hand, hands, sum_at, hands_at, sum-woken, hands-woken,
  hands-replicate, perm_into, sum_le, pops-holds, sum-replicate,
}

module _ {ℓ} {A : Type ℓ} where
  -- The items come out in the order they went in, those that came out are the handled ones and the ones
  -- in the workers' hands, the mutex has one holder at most, and who is about to pop finds an item unless the pool exits.
  pub record IsSafe (p : ThreadPool A) : Type ℓ where
    pub ordered : p.taken ++ p.pending_args ≡ p.queued
    pub handled : Perm p.taken (p.done ++ hands p.workers)
    pub exclusive : sum holds p.workers ≡ held p.locked
    pub filled : 0 < sum pops p.workers → p.is_exiting ≡ false → 0 < length p.pending_args

  start_workers-IsSafe : (n : ℕ) → IsSafe (start_workers n)
  start_workers-IsSafe n = record {
    ordered = refl;
    handled = rw (hands-replicate {A = A} (max 1 n)) (Perm.refl []);
    exclusive = sum-replicate {A = A} holds (max 1 n) testing refl;
    filled = λ h e. absurd (omega (arith, h, sum-replicate {A = A} pops (max 1 n) testing refl));
  }

  -- A worker that goes from one place to another where the queue stays.
  moved :
      (p : ThreadPool A) (before after : List (Worker A)) (w w' : Worker A) (locked' : Bool)
      → p.workers ≡ before ++ (w ∷ after)
      → IsSafe p
      → hand w ≡ hand w'
      → holds w' + held p.locked ≡ holds w + held locked'
      → pops w' ≤ pops w ⊎ (p.is_exiting ≡ false → 0 < length p.pending_args)
      → IsSafe (record p { workers = before ++ (w' ∷ after); locked = locked' })
  moved p before after w w' locked' at safe same mutex pop = record {
    ordered = safe.ordered;
    handled =
        subst (Perm p.taken)
          (ap (◌++◌ p.done) (
            ap hands at
            ∙ hands_at before after w
            ∙ ap (λ h. hands before ++ (h ++ hands after)) same
            ∙ sym (hands_at before after w')))
          safe.handled;
    exclusive = omega (arith, safe.exclusive, split holds, sum_at holds before after w', mutex);
    filled = λ h e. elim pop [
      | inl le ↦ safe.filled (omega (arith, h, split pops, sum_at pops before after w', le)) e
      | inr full ↦ full e
    ];
  }
    where
      split : (f : Worker A → ℕ) → sum f p.workers ≡ f w + (sum f before + sum f after)
      split f = ap (sum f) at ∙ sum_at f before after w

  pub holder_locks :
      (p : ThreadPool A) (before after : List (Worker A)) (w : Worker A)
      → p.workers ≡ before ++ (w ∷ after)
      → IsSafe p
      → holds w ≡ 1
      → (held p.locked ≡ 1) × (sum holds before + sum holds after ≡ 0)
  holder_locks p before after w at safe one =
      let total = ap (sum holds) at ∙ sum_at holds before after w in
      (
        omega (arith, safe.exclusive, total, one, held_le p.locked),
        omega (arith, safe.exclusive, total, one, held_le p.locked),
      )

  taken-IsSafe :
      (p : ThreadPool A) (before after : List (Worker A)) (x : A) (rest : List A)
      → p.workers ≡ before ++ (passed ∷ after)
      → p.pending_args ≡ x ∷ rest
      → IsSafe p
      → IsSafe (record p {
        workers = before ++ (working x ∷ after);
        pending_args = rest;
        taken = p.taken ++ (x ∷ []);
        locked = false;
      })
  taken-IsSafe p before after x rest at shape safe =
      let (one, none_else) = holder_locks p before after passed at safe refl in
      record {
        ordered = append_assoc p.taken (x ∷ []) rest ∙ ap (◌++◌ p.taken) (sym shape) ∙ safe.ordered;
        handled = Perm.trans (perm_append_singleton x p.taken) (
            Perm.trans
              (Perm.cons x (
                subst (λ h. Perm p.taken (p.done ++ h)) (ap hands at ∙ hands_at before after passed)
                  safe.handled))
              (subst (λ h. Perm (x ∷ (p.done ++ (hands before ++ hands after))) (p.done ++ h))
                (sym (hands_at before after (working x)))
                (perm_into x p.done (hands before) (hands after))));
        exclusive = omega (arith, none_else, sum_at holds before after (working x));
        filled = λ h e. absurd (
            omega (
              arith,
              h,
              none_else,
              sum_at pops before after (working x),
              sum_le pops holds pops-holds before,
              sum_le pops holds pops-holds after,
            ));
      }

  finished-IsSafe :
      (p : ThreadPool A) (before after : List (Worker A)) (x : A)
      → p.workers ≡ before ++ (working x ∷ after)
      → IsSafe p
      → IsSafe (record p { workers = before ++ (testing ∷ after); done = p.done ++ (x ∷ []) })
  finished-IsSafe p before after x at safe = record {
    ordered = safe.ordered;
    handled =
        Perm.trans
          (subst (λ h. Perm p.taken (p.done ++ h)) (ap hands at ∙ hands_at before after (working x))
            safe.handled)
          (Perm.trans (Perm.symm (perm_into x p.done (hands before) (hands after))) (
            rw
              (
                append_assoc p.done (x ∷ []) (hands (before ++ (testing ∷ after))),
                hands_at before after testing,
              )
              (Perm.symm (perm_middle p.done (hands before ++ hands after)))));
    exclusive = omega (
      arith,
      safe.exclusive,
      ap (sum holds) at ∙ sum_at holds before after (working x),
      sum_at holds before after testing,
    );
    filled = λ h e.
        safe.filled
          (omega (
            arith,
            h,
            ap (sum pops) at ∙ sum_at pops before after (working x),
            sum_at pops before after testing,
          ))
          e;
  }

  WorkerStep-IsSafe : {p q : ThreadPool A} → WorkerStep p q → IsSafe p → IsSafe q
  WorkerStep-IsSafe (loop p before after at e) s =
      moved p before after testing locking p.locked at s refl (omega arith) (inl (omega arith))
  WorkerStep-IsSafe (leave p before after at e) s =
      moved p before after testing returned p.locked at s refl (omega arith) (inl (omega arith))
  WorkerStep-IsSafe (lock p before after at e) s =
      moved p before after locking checking true at s refl (rw e (omega arith)) (inl (omega arith))
  WorkerStep-IsSafe (pass p before after at (inl e)) s =
      moved p before after checking passed p.locked at s refl (omega arith) (inr (λ e'. cc))
  WorkerStep-IsSafe (pass p before after at (inr e)) s =
      moved p before after checking passed p.locked at s refl (omega arith)
        (inr (λ e'. nonempty p.pending_args e))
  WorkerStep-IsSafe (fail p before after at e none_left) s =
      moved p before after checking parking p.locked at s refl (omega arith) (inl (omega arith))
  WorkerStep-IsSafe (sleep p before after at) s =
      moved p before after parking waiting false at s refl
        (omega (arith, (holder_locks p before after parking at s refl).0)) (inl (omega arith))
  WorkerStep-IsSafe (exit p before after at e) s =
      moved p before after passed returned false at s refl
        (omega (arith, (holder_locks p before after passed at s refl).0)) (inl (omega arith))
  WorkerStep-IsSafe (take_item p before after x rest at e shape) s =
      taken-IsSafe p before after x rest at shape s
  WorkerStep-IsSafe (finish p before after x at) s = finished-IsSafe p before after x at s

  recalled : (p : ThreadPool A) (c : Caller) → IsSafe p → IsSafe (record p { caller = c })
  recalled p c s = record {
    ordered = s.ordered;
    handled = s.handled;
    exclusive = s.exclusive;
    filled = s.filled;
  }

  CallerStep-IsSafe : {p q : ThreadPool A} → CallerStep p q → IsSafe p → IsSafe q
  CallerStep-IsSafe (begin_wait p c) s = recalled p draining s
  CallerStep-IsSafe (end_wait p c none_left) s = recalled p active s
  CallerStep-IsSafe (stop p c) s = record {
    ordered = s.ordered;
    handled = s.handled;
    exclusive = s.exclusive;
    filled = λ h e. cc;
  }
  CallerStep-IsSafe (notify_all p c) s = record {
    ordered = s.ordered;
    handled = rw (hands-woken p.workers) s.handled;
    exclusive = sum-woken holds p.workers refl ∙ s.exclusive;
    filled = λ h e. s.filled (omega (arith, h, sum-woken pops p.workers refl)) e;
  }
  CallerStep-IsSafe (join p n c all) s = recalled p exited s

  queued-IsSafe :
      (p : ThreadPool A) (x : A)
      → IsSafe p
      → IsSafe
          (record p { pending_args = p.pending_args ++ (x ∷ []); queued = p.queued ++ (x ∷ []) })
  queued-IsSafe p x s = record {
    ordered =
        sym (append_assoc p.taken p.pending_args (x ∷ [])) ∙ ap (λ xs. xs ++ (x ∷ [])) s.ordered;
    handled = s.handled;
    exclusive = s.exclusive;
    filled = λ h e. omega (arith, length-append p.pending_args (x ∷ []));
  }

  roused :
      (p : ThreadPool A) (before after : List (Worker A))
      → p.workers ≡ before ++ (waiting ∷ after)
      → IsSafe p
      → IsSafe (record p { workers = before ++ (locking ∷ after) })
  roused p before after at s =
      moved p before after waiting locking p.locked at s refl (omega arith) (inl (omega arith))

  Step-IsSafe : {p q : ThreadPool A} → Step p q → IsSafe p → IsSafe q
  Step-IsSafe (by_worker step) s = WorkerStep-IsSafe step s
  Step-IsSafe (by_caller step) s = CallerStep-IsSafe step s
  Step-IsSafe (spurious_wake p before after at) s = roused p before after at s
  Step-IsSafe (queue_item_waking p x before after e at) s =
      queued-IsSafe (record p { workers = before ++ (locking ∷ after) }) x
        (roused p before after at s)
  Step-IsSafe (queue_item p x e none_waits) s = queued-IsSafe p x s

  -- Whatever the number of workers and the order of the steps: the items that the workers took, followed
  -- by those that wait, are the queued ones in their order; the taken ones are, in some order, those that
  -- are handled and those in the workers' hands; the mutex has the one holder that it should have; and a
  -- worker that is about to pop while the pool does not exit finds an item.
  pub Reachable-IsSafe : (num_workers : ℕ) (p : ThreadPool A) → Reachable num_workers p → IsSafe p
  Reachable-IsSafe n p started = start_workers-IsSafe n
  Reachable-IsSafe n q (stepped {p} r step) = Step-IsSafe step (Reachable-IsSafe n p r)
