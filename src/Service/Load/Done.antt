-- ===== src/Service/Load/Done.antt =====
-- Every way in which the threads of `POST /test/concurrency` (src/main.cpp) can take turns comes to
-- an end, with all the orders counted.
use velocore.Base.{
  ℕ, ◌+◌, ◌*◌, Option, none, some, ◌<◌, ◌≡◌, ◌⊎◌, inl, inr, refl, sym, ap, List, [], ◌∷◌, ◌++◌,
  arith, length, All, All-mid, subst,
}
use native.Mathlib.Decide.{dec_lt}
use velocore.Double.{Double, IsIeee}
use velocore.Trade.{Trade, TradeStatistics}
use velocore.Trade.Accesses.{Stage, left, touch}
use velocore.Service.Load.{
  Load, Pc, head, drawn, made, added, completed, reporting, updating, finished, Move, ends, draws,
  makes, adds, completes, counts, reports, touches, goes_on, resumed, Step, picks,
}
use velocore.Service.Load.Counting.{
  tally, tally-mid, to_submit, rounds_from-within, rounds_from-past,
}
use velocore.Service.Load.Kept.{IsReady}

module _ {D : Type 0} where
  abbrev pub AreFinished : List (Pc D) → Type 0
  AreFinished ps = All (λ p. p ≡ finished) ps

module _ {D : Type 0} ⦃d : Double D⦄ (clock : ℕ → ℕ) (num_orders num_threads : ℕ)
    (Q : Load D → Type 0) where
  -- Whichever thread makes each step, all threads finish after finitely many of them, and then `Q`
  -- holds; and before that some thread can make a step.
  pub data Eventually : Load D → List (Pc D) → Type 0 where
    done : (m : Load D) (ps : List (Pc D)) → AreFinished ps → Q m → Eventually m ps
    goes :
        (m : Load D) (ps : List (Pc D)) (m₁ : Load D) (ps₁ : List (Pc D))
        → Step clock num_orders num_threads m ps m₁ ps₁
        → ((m' : Load D) (ps' : List (Pc D))
            → Step clock num_orders num_threads m ps m' ps'
            → Eventually m' ps')
        → Eventually m ps

module _ {D : Type 0} where
  -- The steps of a thread up to the next order, and those after it.
  abbrev pub busy : Pc D → ℕ
  busy (head i) = 2
  busy (drawn i id) = 1
  busy (made i order) = 0
  busy (added i trades) = 5 + 16 * length trades
  busy (completed i trades) = 4 + 16 * length trades
  busy (reporting i trades) = 3 + 16 * length trades
  busy (updating i trade trades stage) = 3 + left stage + 16 * length trades
  busy finished = 0

module _ {D : Type 0} ⦃d : Double D⦄ (ieee : IsIeee D) (clock : ℕ → ℕ) (num_orders num_threads : ℕ)
    (some_thread : 0 < num_threads) where
  abbrev pub submits : Pc D → ℕ
  submits p = to_submit num_orders num_threads p

  touch-lowers :
      (i : ℕ) (trade : Trade D) (trades : List (Trade D)) (stage : Stage D) (s : TradeStatistics D)
      → busy (resumed i trade trades (touch stage trade s).1) < busy (updating i trade trades stage)
  unfolding touch
  touch-lowers i trade trades stage s = ground arith

  -- A move hands an order over, or comes closer to doing so.
  Move-lowers :
      (m : Load D) (p : Pc D) (m' : Load D) (p' : Pc D)
      → Move clock num_orders num_threads m p m' p'
      → IsReady ieee num_orders num_threads p
      → (submits p' < submits p) ⊎ ((submits p' ≡ submits p) × (busy p' < busy p))
  Move-lowers m _ _ _ (ends i past) ready =
      inr (sym (rounds_from-past num_orders num_threads some_thread i past), omega arith)
  Move-lowers m _ _ _ (draws i below) ready = inr (refl, omega arith)
  Move-lowers m _ _ _ (makes i id) ready = inr (refl, omega arith)
  Move-lowers m _ _ _ (adds i order) ready =
      inl (omega (arith, rounds_from-within num_orders num_threads some_thread i ready.0))
  Move-lowers m _ _ _ (completes i trades) ready = inr (refl, omega arith)
  Move-lowers m _ _ _ (counts i trades) ready = inr (refl, omega arith)
  Move-lowers m _ _ _ (reports i trade trades) ready = inr (refl, omega arith)
  Move-lowers m _ _ _ (touches i trade trades stage) ready = inr (
    resumed_submits (touch stage trade m.service.stats).1,
    touch-lowers i trade trades stage m.service.stats,
  )
    where
      resumed_submits :
          (o : Option (Stage D))
          → submits (resumed i trade trades o) ≡ submits (updating i trade trades stage)
      resumed_submits none = refl
      resumed_submits (some stage') = refl
  Move-lowers m _ _ _ (goes_on i) ready = inr (refl, omega arith)

  pub Step-lowers :
      (m : Load D) (ps : List (Pc D)) (m' : Load D) (ps' : List (Pc D))
      → Step clock num_orders num_threads m ps m' ps'
      → All (IsReady ieee num_orders num_threads) ps
      → (tally submits ps' < tally submits ps)
        ⊎ ((tally submits ps' ≡ tally submits ps) × (tally busy ps' < tally busy ps))
  Step-lowers m _ _ _ (picks ahead p behind m' p' move) ready =
      elim (Move-lowers m p m' p' move (All-mid _ ahead p behind ready)) [
        | inl fewer ↦
            inl (omega (arith, tally-mid submits ahead p behind, tally-mid submits ahead p' behind))
        | inr (same, closer) ↦ inr (
          omega (arith, same, tally-mid submits ahead p behind, tally-mid submits ahead p' behind),
          omega (arith, tally-mid busy ahead p behind, tally-mid busy ahead p' behind),
        )
      ]

  -- A thread that has not finished can move.
  has_turn :
      (m : Load D) (p : Pc D)
      → (p ≡ finished) ⊎ ((m' : Load D) × (p' : Pc D) × Move clock num_orders num_threads m p m' p')
  has_turn m (head i) = elim (dec_lt i num_orders) [
    | yes below ↦ inr (_, _, draws i below)
    | no past ↦ inr (_, _, ends i (omega arith))
  ]
  has_turn m (drawn i id) = inr (_, _, makes i id)
  has_turn m (made i order) = inr (_, _, adds i order)
  has_turn m (added i trades) = inr (_, _, completes i trades)
  has_turn m (completed i trades) = inr (_, _, counts i trades)
  has_turn m (reporting i []) = inr (_, _, goes_on i)
  has_turn m (reporting i (t ∷ ts)) = inr (_, _, reports i t ts)
  has_turn m (updating i t ts stage) = inr (_, _, touches i t ts stage)
  has_turn m finished = inl refl

  -- A thread of the list that can move, with where it stands.
  pub record Mover (m : Load D) (ps : List (Pc D)) : Type 0 where
    pub ahead : List (Pc D)
    pub p : Pc D
    pub behind : List (Pc D)
    pub m' : Load D
    pub p' : Pc D
    pub at : ps ≡ ahead ++ p ∷ behind
    pub move : Move clock num_orders num_threads m p m' p'

  pub find_turn : (m : Load D) (ps : List (Pc D)) → AreFinished ps ⊎ Mover m ps
  find_turn m [] = inl tt
  find_turn m (p ∷ ps) = elim (has_turn m p) [
    | inr (m', p', move) ↦
        inr (record { ahead = []; p = p; behind = ps; m' = m'; p' = p'; at = refl; move = move })
    | inl over ↦ elim (find_turn m ps) [
      | inl rest ↦ inl (over, rest)
      | inr mover ↦ inr (record {
        ahead = p ∷ mover.ahead;
        p = mover.p;
        behind = mover.behind;
        m' = mover.m';
        p' = mover.p';
        at = ap (◌∷◌ p) mover.at;
        move = mover.move;
      })
    ]
  ]

  pub Mover-Step :
      (m : Load D) (ps : List (Pc D)) (mover : Mover m ps)
      → Step clock num_orders num_threads m ps mover.m' (mover.ahead ++ mover.p' ∷ mover.behind)
  Mover-Step m ps mover =
      subst
        (λ qs.
          Step clock num_orders num_threads m qs mover.m' (mover.ahead ++ mover.p' ∷ mover.behind))
        (sym mover.at) (picks mover.ahead mover.p mover.behind mover.m' mover.p' mover.move)
