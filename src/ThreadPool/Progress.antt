-- ===== src/ThreadPool/Progress.antt =====
-- A worker that is neither asleep nor gone, or else the one that holds the mutex, has a step; each step
-- leaves less to do.
use fuse_nx.Prelude.{
  ℕ, zero, suc, ◌+◌, ◌*◌, ◌≤◌, ◌<◌, ◌≡◌, ◌⊎◌, inl, inr, refl, ap, ◌∙◌, arith, false, List, [], ◌∷◌,
  ◌++◌, length, Bool-cases,
}
use fuse_nx.ThreadPool.Counts.{held, holds, pops, sum_at, alert}
use fuse_nx.ThreadPool.{
  Worker, testing, locking, checking, passed, parking, waiting, returned, working, ThreadPool, sum,
  WorkerStep, loop, leave, lock, pass, fail, sleep, exit, take_item, finish,
}
use fuse_nx.ThreadPool.Safety.{IsSafe}

zero-or-more : (n : ℕ) → (n ≡ 0) ⊎ (0 < n)
zero-or-more zero = inl refl
zero-or-more (suc n) = inr (omega arith)

module _ {ℓ} {A : Type ℓ} where
  -- The steps that a worker can make before it needs another item or sleeps.
  abbrev pub rank : Worker A → ℕ
  rank (working _) = 5
  rank testing = 4
  rank locking = 3
  rank checking = 2
  rank passed = 1
  rank parking = 1
  rank waiting = 0
  rank returned = 0

  abbrev pub effort : ThreadPool A → ℕ
  effort p = 5 * length p.pending_args + sum rank p.workers

  eased :
      (f : Worker A → ℕ) (ws before after : List (Worker A)) (w w' : Worker A)
      → ws ≡ before ++ (w ∷ after)
      → f w' < f w
      → sum f (before ++ (w' ∷ after)) < sum f ws
  eased f ws before after w w' at lt =
      omega (arith, ap (sum f) at ∙ sum_at f before after w, sum_at f before after w', lt)

  pub WorkerStep-effort : {p q : ThreadPool A} → WorkerStep p q → effort q < effort p
  WorkerStep-effort (loop p before after at e) =
      omega (arith, eased rank p.workers before after testing locking at (omega arith))
  WorkerStep-effort (leave p before after at e) =
      omega (arith, eased rank p.workers before after testing returned at (omega arith))
  WorkerStep-effort (lock p before after at e) =
      omega (arith, eased rank p.workers before after locking checking at (omega arith))
  WorkerStep-effort (pass p before after at e) =
      omega (arith, eased rank p.workers before after checking passed at (omega arith))
  WorkerStep-effort (fail p before after at e none_left) =
      omega (arith, eased rank p.workers before after checking parking at (omega arith))
  WorkerStep-effort (sleep p before after at) =
      omega (arith, eased rank p.workers before after parking waiting at (omega arith))
  WorkerStep-effort (exit p before after at e) =
      omega (arith, eased rank p.workers before after passed returned at (omega arith))
  WorkerStep-effort (take_item p before after x rest at e shape) = omega (
    arith,
    ap length shape,
    ap (sum rank) at ∙ sum_at rank before after passed,
    sum_at rank before after (working x),
  )
  WorkerStep-effort (finish p before after x at) =
      omega (arith, eased rank p.workers before after (working x) testing at (omega arith))

  nil-or-cons : (xs : List A) → (xs ≡ []) ⊎ ((x : A) × (rest : List A) × (xs ≡ x ∷ rest))
  nil-or-cons [] = inl refl
  nil-or-cons (x ∷ xs) = inr (x, xs, refl)

  -- Where some worker counts.
  Found : (Worker A → ℕ) → List (Worker A) → Type ℓ
  Found f ws =
      (before : List (Worker A)) × (w : Worker A) × (after : List (Worker A)) × (ws
        ≡ before ++ (w ∷ after))
      × (0 < f w)

  found : (f : Worker A → ℕ) (ws : List (Worker A)) → 0 < sum f ws → Found f ws
  unfolding Found
  found f [] h = absurd (omega (arith, h))
  found f (w ∷ ws) h = elim (zero-or-more (f w)) [
    | inl e ↦
        let (before, v, after, at, lt) = found f ws (omega (arith, h, e)) in
        (w ∷ before, v, after, ap (◌∷◌ w) at, lt)
    | inr lt ↦ ([], w, ws, refl, lt)
  ]

  abbrev pub Goes : ThreadPool A → Type ℓ
  Goes p = (q : ThreadPool A) × WorkerStep p q

  -- A worker that is not asleep can go on where it holds the mutex or the mutex is free.
  alert-Goes :
      (p : ThreadPool A) (before after : List (Worker A)) (w : Worker A)
      → IsSafe p
      → p.workers ≡ before ++ (w ∷ after)
      → (0 < holds w) ⊎ (p.locked ≡ false)
      → 0 < alert w
      → Goes p
  alert-Goes p before after testing s at may lt = elim (Bool-cases p.is_exiting) [
    | inl e ↦ (_, leave p before after at e)
    | inr e ↦ (_, loop p before after at e)
  ]
  alert-Goes p before after locking s at (inl h) lt = absurd (omega (arith, h))
  alert-Goes p before after locking s at (inr e) lt = (_, lock p before after at e)
  alert-Goes p before after checking s at may lt = elim (nil-or-cons p.pending_args) [
    | inl none_left ↦ elim (Bool-cases p.is_exiting) [
      | inl e ↦ (_, pass p before after at (inl e))
      | inr e ↦ (_, fail p before after at e none_left)
    ]
    | inr (x, rest, shape) ↦ (_, pass p before after at (inr (λ e. cc)))
  ]
  alert-Goes p before after passed s at may lt = elim (Bool-cases p.is_exiting) [
    | inl e ↦ (_, exit p before after at e)
    | inr e ↦ elim (nil-or-cons p.pending_args) [
      | inl none_left ↦ absurd (
          omega (
            arith,
            s.filled (omega (arith, ap (sum pops) at ∙ sum_at pops before after passed)) e,
            ap length none_left,
          ))
      | inr (x, rest, shape) ↦ (_, take_item p before after x rest at e shape)
    ]
  ]
  alert-Goes p before after parking s at may lt = (_, sleep p before after at)
  alert-Goes p before after waiting s at may lt = absurd (omega (arith, lt))
  alert-Goes p before after returned s at may lt = absurd (omega (arith, lt))
  alert-Goes p before after (working x) s at may lt = (_, finish p before after x at)

  holds-alert : (w : Worker A) → holds w ≤ alert w
  holds-alert passed = omega arith
  holds-alert testing = omega arith
  holds-alert locking = omega arith
  holds-alert checking = omega arith
  holds-alert parking = omega arith
  holds-alert waiting = omega arith
  holds-alert returned = omega arith
  holds-alert (working x) = omega arith

  -- A worker has a step, unless all of them are asleep or gone.
  pub IsSafe-Goes : (p : ThreadPool A) → IsSafe p → Goes p ⊎ (sum alert p.workers ≡ 0)
  unfolding Found
  IsSafe-Goes p s = elim (Bool-cases p.locked) [
    | inl e ↦
        let (before, w, after, at, h) =
          found holds p.workers (omega (arith, s.exclusive, ap held e)) in
        inl (alert-Goes p before after w s at (inl h) (omega (arith, h, holds-alert w)))
    | inr e ↦ elim (zero-or-more (sum alert p.workers)) [
      | inl none ↦ inr none
      | inr lt ↦
          let (before, w, after, at, h) = found alert p.workers lt in
          inl (alert-Goes p before after w s at (inr e) h)
    ]
  ]
