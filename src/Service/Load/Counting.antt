-- ===== src/Service/Load/Counting.antt =====
-- The loops `for (int i = t; i < num_orders; i += num_threads)` of the threads t (src/main.cpp)
-- share out the numbers below `num_orders`.
use velocore.Base.{
  ℕ, zero, suc, ◌+◌, ◌≤◌, ◌<◌, ◌≡◌, refl, List, [], ◌∷◌, ◌++◌, arith, ltb, if◌then◌else◌, ap,
}
use velocore.Service.Load.{
  Pc, head, drawn, made, added, completed, reporting, updating, finished, spawn,
}

-- A sum of natural numbers over the threads.
abbrev pub tally {ℓ} : {A : Type ℓ} → (A → ℕ) → List A → ℕ
tally w [] = 0
tally w (p ∷ ps) = w p + tally w ps

pub tally-mid {ℓ} :
    {A : Type ℓ} (w : A → ℕ) (ahead : List A) (p : A) (behind : List A)
    → tally w (ahead ++ p ∷ behind) ≡ w p + tally w (ahead ++ behind)
tally-mid w [] p behind = refl
tally-mid w (q ∷ ahead) p behind = omega (arith, tally-mid w ahead p behind)

-- The rounds that a loop still makes from `i` on.
abbrev rounds_within : (num_orders num_threads fuel i : ℕ) → ℕ
rounds_within num_orders num_threads zero i = 0
rounds_within num_orders num_threads (suc fuel) i =
    let rest = rounds_within num_orders num_threads fuel (i + num_threads) in
    if ltb i num_orders then suc rest else 0

unfoldable pub rounds_from : (num_orders num_threads i : ℕ) → ℕ
rounds_from num_orders num_threads i = rounds_within num_orders num_threads num_orders i

module _ (num_orders num_threads : ℕ) (some_thread : 0 < num_threads) where
  rounds_within-same :
      (f g i : ℕ)
      → num_orders ≤ i + f
      → num_orders ≤ i + g
      → rounds_within num_orders num_threads f i ≡ rounds_within num_orders num_threads g i
  rounds_within-same zero zero i h k = refl
  rounds_within-same zero (suc g) i h k = ground arith
  rounds_within-same (suc f) zero i h k = ground arith
  rounds_within-same (suc f) (suc g) i h k =
      rw (rounds_within-same f g (i + num_threads) (omega arith) (omega arith))

  pub rounds_from-within :
      (i : ℕ)
      → i < num_orders
      → rounds_from num_orders num_threads i
        ≡ suc (rounds_from num_orders num_threads (i + num_threads))
  unfolding rounds_from
  rounds_from-within i h = unroll num_orders (omega arith) (omega arith)
    where
      unroll :
          (fuel : ℕ)
          → 0 < fuel
          → num_orders ≤ i + fuel
          → rounds_within num_orders num_threads fuel i
            ≡ suc (rounds_within num_orders num_threads num_orders (i + num_threads))
      unroll zero k l = absurd (omega arith)
      unroll (suc fuel) k l = ground (arith, rounds_within-same fuel num_orders (i + num_threads))

  rounds_within-past :
      (fuel i : ℕ) → num_orders ≤ i → rounds_within num_orders num_threads fuel i ≡ 0
  rounds_within-past zero i h = refl
  rounds_within-past (suc fuel) i h = ground arith

  pub rounds_from-past : (i : ℕ) → num_orders ≤ i → rounds_from num_orders num_threads i ≡ 0
  unfolding rounds_from
  rounds_from-past i h = rounds_within-past num_orders i h

module _ (num_orders num_threads : ℕ) where
  abbrev left_at : ℕ → ℕ
  left_at i = rounds_from num_orders num_threads i

  -- The orders that a thread has yet to hand to the matching engine.
  abbrev pub to_submit : {D : Type 0} → Pc D → ℕ
  to_submit (head i) = left_at i
  to_submit (drawn i id) = left_at i
  to_submit (made i order) = left_at i
  to_submit (added i trades) = left_at (i + num_threads)
  to_submit (completed i trades) = left_at (i + num_threads)
  to_submit (reporting i trades) = left_at (i + num_threads)
  to_submit (updating i trade trades stage) = left_at (i + num_threads)
  to_submit finished = 0

  -- Those that it has yet to count as completed.
  abbrev pub to_complete : {D : Type 0} → Pc D → ℕ
  to_complete (added i trades) = left_at i
  to_complete p = to_submit p

module _ (num_orders num_threads : ℕ) (some_thread : 0 < num_threads) (D : Type 0) where
  abbrev spawned : ℕ → ℕ → ℕ
  spawned n t = tally (to_complete num_orders num_threads) (spawn {D = D} n t)

  -- The window of threads, moved by one.
  spawned-shift :
      (n t : ℕ)
      → spawned n t + rounds_from num_orders num_threads (t + n)
        ≡ rounds_from num_orders num_threads t + spawned n (t + 1)
  unfolding spawn
  spawned-shift zero t =
      let same : t + 0 ≡ t = omega arith in
      omega (arith, ap (rounds_from num_orders num_threads) same)
  spawned-shift (suc n) t =
      let same : t + suc n ≡ t + 1 + n = omega arith in
      omega (arith, spawned-shift n (t + 1), ap (rounds_from num_orders num_threads) same)

  spawned-past : (n t : ℕ) → num_orders ≤ t → spawned n t ≡ 0
  unfolding spawn
  spawned-past zero t h = refl
  spawned-past (suc n) t h = ground (
    arith,
    rounds_from-past num_orders num_threads some_thread t h,
    spawned-past n (t + 1) (omega arith),
  )

  spawned_from : (left t : ℕ) → num_orders ≡ t + left → spawned num_threads t ≡ left
  spawned_from zero t e = spawned-past num_threads t (omega arith)
  spawned_from (suc left) t e = omega (
    arith,
    spawned-shift num_threads t,
    rounds_from-within num_orders num_threads some_thread t (omega arith),
    spawned_from left (t + 1) (omega arith),
  )

  -- Together the loops make as many rounds as there are orders.
  pub spawn-to_complete : spawned num_threads 0 ≡ num_orders
  spawn-to_complete = spawned_from num_orders 0 (omega arith)
