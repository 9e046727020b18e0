-- ===== src/ThreadPool/Counts.antt =====
-- What the proofs about the thread pool count over its workers.
use fuse_nx.Prelude.{
  ℕ, zero, suc, ◌+◌, ◌≤◌, ◌<◌, ◌≡◌, ◌≢◌, refl, sym, ap, ◌∙◌, arith, Bool, true, false, List, [],
  ◌∷◌, ◌++◌, map, length, replicate, append_assoc,
}
use mathlib.Core.List.{Perm, perm_middle}
use mathlib.Core.List.Perm
use fuse_nx.ThreadPool.{
  Worker, testing, locking, checking, passed, parking, waiting, returned, working, waits, sum,
  woken,
}

abbrev pub held : Bool → ℕ
held true = 1
held false = 0

pub held_le : (b : Bool) → held b ≤ 1
held_le true = omega arith
held_le false = omega arith

pub nonempty {ℓ} : {A : Type ℓ} (xs : List A) → xs ≢ [] → 0 < length xs
nonempty [] h = absurd (h refl)
nonempty (x ∷ xs) h = omega arith

module _ {ℓ} {A : Type ℓ} where
  -- Whether a worker holds the mutex, is about to pop, or is in `worker_func`.
  abbrev pub holds : Worker A → ℕ
  holds checking = 1
  holds passed = 1
  holds parking = 1
  holds _ = 0

  abbrev pub pops : Worker A → ℕ
  pops passed = 1
  pops _ = 0

  -- The item that a worker handles.
  abbrev pub hand : Worker A → List A
  hand (working x) = x ∷ []
  hand _ = []

  abbrev pub hands : List (Worker A) → List A
  hands [] = []
  hands (w ∷ ws) = hand w ++ hands ws

  pub sum_at :
      (f : Worker A → ℕ) (before after : List (Worker A)) (w : Worker A)
      → sum f (before ++ (w ∷ after)) ≡ f w + (sum f before + sum f after)
  sum_at f [] after w = omega arith
  sum_at f (v ∷ before) after w = omega (arith, sum_at f before after w)

  pub hands_at :
      (before after : List (Worker A)) (w : Worker A)
      → hands (before ++ (w ∷ after)) ≡ hands before ++ (hand w ++ hands after)
  hands_at [] after w = refl
  hands_at (v ∷ before) after w =
      ap (◌++◌ (hand v)) (hands_at before after w)
      ∙ sym (append_assoc (hand v) (hands before) (hand w ++ hands after))

  pub sum-woken :
      (f : Worker A → ℕ) (ws : List (Worker A))
      → f waiting ≡ f locking
      → sum f (map woken ws) ≡ sum f ws
  sum-woken f [] e = refl
  sum-woken f (testing ∷ ws) e = omega (arith, sum-woken f ws e)
  sum-woken f (locking ∷ ws) e = omega (arith, sum-woken f ws e)
  sum-woken f (checking ∷ ws) e = omega (arith, sum-woken f ws e)
  sum-woken f (passed ∷ ws) e = omega (arith, sum-woken f ws e)
  sum-woken f (parking ∷ ws) e = omega (arith, sum-woken f ws e)
  sum-woken f (waiting ∷ ws) e = omega (arith, sum-woken f ws e, e)
  sum-woken f (returned ∷ ws) e = omega (arith, sum-woken f ws e)
  sum-woken f (working x ∷ ws) e = omega (arith, sum-woken f ws e)

  pub hands-woken : (ws : List (Worker A)) → hands (map woken ws) ≡ hands ws
  hands-woken [] = refl
  hands-woken (testing ∷ ws) = hands-woken ws
  hands-woken (locking ∷ ws) = hands-woken ws
  hands-woken (checking ∷ ws) = hands-woken ws
  hands-woken (passed ∷ ws) = hands-woken ws
  hands-woken (parking ∷ ws) = hands-woken ws
  hands-woken (waiting ∷ ws) = hands-woken ws
  hands-woken (returned ∷ ws) = hands-woken ws
  hands-woken (working x ∷ ws) = ap (◌∷◌ x) (hands-woken ws)

  pub hands-replicate : (n : ℕ) → hands (replicate n testing) ≡ []
  hands-replicate zero = refl
  hands-replicate (suc n) = hands-replicate n

  pub perm_into :
      (x : A) (xs ys zs : List A) → Perm (x ∷ (xs ++ (ys ++ zs))) (xs ++ (ys ++ (x ∷ zs)))
  perm_into x xs ys zs =
      rw (sym (append_assoc xs ys zs), sym (append_assoc xs ys (x ∷ zs)))
        (Perm.symm (perm_middle (xs ++ ys) zs))

  pub sum_le :
      (f g : Worker A → ℕ)
      → ((w : Worker A) → f w ≤ g w)
      → (ws : List (Worker A)) → sum f ws ≤ sum g ws
  sum_le f g h [] = omega arith
  sum_le f g h (w ∷ ws) = omega (arith, h w, sum_le f g h ws)

  pub pops-holds : (w : Worker A) → pops w ≤ holds w
  pops-holds passed = omega arith
  pops-holds testing = omega arith
  pops-holds locking = omega arith
  pops-holds checking = omega arith
  pops-holds parking = omega arith
  pops-holds waiting = omega arith
  pops-holds returned = omega arith
  pops-holds (working x) = omega arith

  pub sum-replicate :
      (f : Worker A → ℕ) (n : ℕ) (w : Worker A) → f w ≡ 0 → sum f (replicate n w) ≡ 0
  sum-replicate f zero w e = refl
  sum-replicate f (suc n) w e = omega (arith, sum-replicate f n w e, e)

  pub sum-replicate_one :
      (f : Worker A → ℕ) (n : ℕ) (w : Worker A) → f w ≡ 1 → sum f (replicate n w) ≡ n
  sum-replicate_one f zero w e = refl
  sum-replicate_one f (suc n) w e = omega (arith, sum-replicate_one f n w e, e)

  -- Whether a worker can go on, has returned, or is about to sleep.
  abbrev pub alert : Worker A → ℕ
  alert waiting = 0
  alert returned = 0
  alert _ = 1

  abbrev pub gone : Worker A → ℕ
  gone returned = 1
  gone _ = 0

  abbrev pub parks : Worker A → ℕ
  parks parking = 1
  parks _ = 0

  pub each_counted :
      (ws : List (Worker A)) → sum alert ws + (sum waits ws + sum gone ws) ≡ length ws
  each_counted [] = refl
  each_counted (testing ∷ ws) = omega (arith, each_counted ws)
  each_counted (locking ∷ ws) = omega (arith, each_counted ws)
  each_counted (checking ∷ ws) = omega (arith, each_counted ws)
  each_counted (passed ∷ ws) = omega (arith, each_counted ws)
  each_counted (parking ∷ ws) = omega (arith, each_counted ws)
  each_counted (waiting ∷ ws) = omega (arith, each_counted ws)
  each_counted (returned ∷ ws) = omega (arith, each_counted ws)
  each_counted (working x ∷ ws) = omega (arith, each_counted ws)

  pub parks-holds : (w : Worker A) → parks w ≤ holds w
  parks-holds passed = omega arith
  parks-holds testing = omega arith
  parks-holds locking = omega arith
  parks-holds checking = omega arith
  parks-holds parking = omega arith
  parks-holds waiting = omega arith
  parks-holds returned = omega arith
  parks-holds (working x) = omega arith

  pub alert-woken : (ws : List (Worker A)) → sum alert ws ≤ sum alert (map woken ws)
  alert-woken [] = omega arith
  alert-woken (testing ∷ ws) = omega (arith, alert-woken ws)
  alert-woken (locking ∷ ws) = omega (arith, alert-woken ws)
  alert-woken (checking ∷ ws) = omega (arith, alert-woken ws)
  alert-woken (passed ∷ ws) = omega (arith, alert-woken ws)
  alert-woken (parking ∷ ws) = omega (arith, alert-woken ws)
  alert-woken (waiting ∷ ws) = omega (arith, alert-woken ws)
  alert-woken (returned ∷ ws) = omega (arith, alert-woken ws)
  alert-woken (working x ∷ ws) = omega (arith, alert-woken ws)

  pub length-replicate : (n : ℕ) (w : Worker A) → length (replicate n w) ≡ n
  length-replicate zero w = refl
  length-replicate (suc n) w = ap suc (length-replicate n w)
