-- ===== src/Service/Load/Running.antt =====
-- The invariant of the threads of `POST /test/concurrency` (src/main.cpp), over every interleaving.
use velocore.Base.{
  ℕ, ◌<◌, ◌≡◌, refl, sym, ap, ◌∙◌, List, ◌∷◌, ◌++◌, pos, ◌+ℤ◌, +ℤ_zero, wrap32, pos-add, length,
  length-append, All, All-append, All-append_left, All-append_right, All-mid,
}
use mathlib.Core.List.{append_assoc}
use velocore.Double.{Double, IsIeee}
use velocore.Trade.{Trade}
use velocore.OrderBook.Engine.Valid.{IsBook}
use velocore.Service.Load.{
  Load, Pc, Move, Step, picks, Steps, stay, next, ends, draws, makes, adds, completes, counts,
  reports, touches, goes_on,
}
use velocore.Service.Load.Balance.{Balanced, Carries-Balanced}
use velocore.Service.Load.Kept.{AreInts, log_of, to_add, to_tell, IsReady, Kept, Move-Kept}

module _ {ℓ κ} {A : Type ℓ} (P : A → Type κ) where
  All-behind :
      (ahead : List A) (p : A) (behind : List A) → All P (ahead ++ p ∷ behind) → All P behind
  All-behind ahead p behind h = (All-append_right P ahead (p ∷ behind) h).1

  -- One element is exchanged for another.
  All-exchange :
      (ahead : List A) (p p' : A) (behind : List A)
      → All P (ahead ++ p ∷ behind)
      → P p'
      → All P (ahead ++ p' ∷ behind)
  All-exchange ahead p p' behind h k =
      All-append P ahead (p' ∷ behind) (All-append_left P ahead (p ∷ behind) h)
        (k, All-behind ahead p behind h)

module _ {D : Type 0} ⦃d : Double D⦄ (ieee : IsIeee D) (num_orders num_threads : ℕ)
    (old : List (Trade D)) where
  -- `old` is the log from before the test. Each counter, with what the threads still hold, is the
  -- total that it counts.
  pub record Running (m : Load D) (ps : List (Pc D)) : Type 0 where
    pub new : List (Trade D)
    pub log : log_of m ≡ old ++ new
    pub orders : Balanced (to_add num_orders num_threads) m.completed_orders ps (pos num_orders)
    pub told : Balanced to_tell m.total_trades ps (pos (length new))
    pub ints : AreInts m
    pub book : IsBook ieee m.service.order_book
    pub ready : All (IsReady ieee num_orders num_threads) ps

  Kept-Running :
      (m : Load D) (ahead : List (Pc D)) (p : Pc D) (behind : List (Pc D)) (m' : Load D) (p' : Pc D)
      → Kept ieee num_orders num_threads m p m' p'
      → Running m (ahead ++ p ∷ behind)
      → Running m' (ahead ++ p' ∷ behind)
  Kept-Running m ahead p behind m' p' k r = record {
    new = r.new ++ k.fresh;
    log = k.log ∙ ap (λ ts. ts ++ k.fresh) r.log ∙ append_assoc old r.new k.fresh;
    orders =
        Carries-Balanced (to_add num_orders num_threads) ahead p behind p' m.completed_orders
          m'.completed_orders (pos num_orders) (pos 0) k.orders r.orders
        ∙ ap wrap32 (+ℤ_zero (pos num_orders));
    told =
        Carries-Balanced to_tell ahead p behind p' m.total_trades m'.total_trades
          (pos (length r.new)) (pos (length k.fresh)) k.told r.told
        ∙ ap wrap32 (grown r.new);
    ints = k.ints;
    book = k.book;
    ready = All-exchange _ ahead p p' behind r.ready k.ready;
  }
    where
      grown :
          (ts : List (Trade D))
          → pos (length ts) +ℤ pos (length k.fresh) ≡ pos (length (ts ++ k.fresh))
      grown ts = pos-add (length ts) (length k.fresh) ∙ ap pos (sym (length-append ts k.fresh))

  pub Step-Running :
      (clock : ℕ → ℕ) (m : Load D) (ps : List (Pc D)) (m' : Load D) (ps' : List (Pc D))
      → 0 < num_threads
      → Step clock num_orders num_threads m ps m' ps'
      → Running m ps
      → Running m' ps'
  Step-Running clock m _ _ _ some_thread (picks ahead p behind m' p' move) r =
      Kept-Running m ahead p behind m' p'
        (Move-Kept ieee clock num_orders num_threads some_thread m p m' p' move r.ints r.book
          (All-mid _ ahead p behind r.ready))
        r

  pub Steps-Running :
      (clock : ℕ → ℕ) (m : Load D) (ps : List (Pc D)) (m' : Load D) (ps' : List (Pc D))
      → 0 < num_threads
      → Steps clock num_orders num_threads m ps m' ps'
      → Running m ps
      → Running m' ps'
  Steps-Running clock _ _ _ _ some_thread (stay m ps) r = r
  Steps-Running clock _ _ _ _ some_thread (next m ps m₁ ps₁ m₂ ps₂ s ss) r =
      Steps-Running clock m₁ ps₁ m₂ ps₂ some_thread ss
        (Step-Running clock m ps m₁ ps₁ some_thread s r)

module _ {D : Type 0} ⦃d : Double D⦄ (clock : ℕ → ℕ) (num_orders num_threads : ℕ) where
  -- The threads leave the ticks alone.
  Move-ticks :
      (m : Load D) (p : Pc D) (m' : Load D) (p' : Pc D)
      → Move clock num_orders num_threads m p m' p'
      → m'.service.latest_ticks ≡ m.service.latest_ticks
  Move-ticks m _ _ _ (ends i past) = refl
  Move-ticks m _ _ _ (draws i below) = refl
  Move-ticks m _ _ _ (makes i id) = refl
  Move-ticks m _ _ _ (adds i order) = refl
  Move-ticks m _ _ _ (completes i trades) = refl
  Move-ticks m _ _ _ (counts i trades) = refl
  Move-ticks m _ _ _ (reports i trade trades) = refl
  Move-ticks m _ _ _ (touches i trade trades stage) = refl
  Move-ticks m _ _ _ (goes_on i) = refl

  pub Steps-ticks :
      (m : Load D) (ps : List (Pc D)) (m' : Load D) (ps' : List (Pc D))
      → Steps clock num_orders num_threads m ps m' ps'
      → m'.service.latest_ticks ≡ m.service.latest_ticks
  Steps-ticks _ _ _ _ (stay m ps) = refl
  Steps-ticks _ _ _ _ (next m _ m₁ ps₁ m₂ ps₂ (picks ahead p behind _ p' move) ss) =
      Steps-ticks m₁ ps₁ m₂ ps₂ ss ∙ Move-ticks m p m₁ p' move
