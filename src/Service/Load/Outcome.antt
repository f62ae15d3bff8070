-- ===== src/Service/Load/Outcome.antt =====
-- What `POST /test/concurrency` (src/main.cpp) has done when its threads have been joined.
use velocore.Base.{
  ℕ, zero, suc, ◌+◌, ◌<◌, ◌≡◌, inl, inr, refl, sym, ap, ◌∙◌, List, [], ◌++◌, arith, String, ℤ, pos,
  pos_part, ◌<ℤ◌, ◌≤ℤ◌, ◌+ℤ◌, wrap32, wrap32-eq_self, IsInt, int_laws, negsuc, length, All, subst,
}
use mathlib.Core.List.{append-nil}
use native.Mathlib.Nat.{le_refl}
use velocore.Double.{Double, IsIeee}
use velocore.Json.{Reader}
use velocore.Trade.{Trade}
use velocore.Service.{Service}
use velocore.OrderBook.Engine.Valid.{IsBook}
use velocore.Service.Load.{Load, Pc, Steps, spawn, open_load}
use velocore.Service.Load.Request.{LoadRequest, opened, test_concurrency, opened-bounds}
use velocore.Service.Load.Counting.{tally, to_complete, spawn-to_complete}
use velocore.Service.Load.Kept.{log_of, to_add, to_tell, IsReady}
use velocore.Service.Load.Weights.{Balanced-finished, weigh-pos, Balanced-spawn}
use velocore.Service.Load.Running.{Running, Step-Running, Steps-Running}
use velocore.Service.Load.Done.{
  AreFinished, Eventually, done, goes, busy, submits, Step-lowers, find_turn, Mover-Step,
}

module _ {D : Type 0} ⦃d : Double D⦄ (ieee : IsIeee D) where
  -- The handler's counters are right, and so is the book. `old` is the log from before the test.
  abbrev pub IsCompleted : ℤ → List (Trade D) → Load D → Type 0
  IsCompleted num_orders old m =
      (m.completed_orders ≡ num_orders)
      × ((new : List (Trade D)) × (log_of m ≡ old ++ new)
          × (m.total_trades ≡ wrap32 (pos (length new))))
      × IsBook ieee m.service.order_book

  module _ (num_orders num_threads : ℕ) where
    spawn-IsReady : (n t : ℕ) → All (IsReady ieee num_orders num_threads) (spawn n t)
    unfolding spawn
    spawn-IsReady zero t = tt
    spawn-IsReady (suc n) t = (tt, spawn-IsReady n (t + 1))

    open-Running :
        (s : Service D)
        → 0 < num_threads
        → IsBook ieee s.order_book
        → Running ieee num_orders num_threads s.order_book.trade_log
            (open_load s)
            (spawn num_threads 0)
    unfolding open_load
    open-Running s some_thread book = record {
      new = [];
      log = sym (append-nil _);
      orders =
          ap (λ x. wrap32 (pos 0 +ℤ x))
            (weigh-pos (to_complete num_orders num_threads) (spawn num_threads 0)
              ∙ ap pos (spawn-to_complete num_orders num_threads some_thread D))
          ∙ ap wrap32 (omega int_laws);
      told =
          Balanced-spawn to_tell num_threads (pos 0) (pos 0) (λ i. refl)
            (sym (wrap32-eq_self (pos 0) (omega arith)));
      ints = ((omega arith, omega arith), (omega arith, omega arith));
      book = book;
      ready = spawn-IsReady num_threads 0;
    }

    Running-IsCompleted :
        (old : List (Trade D)) (m : Load D) (ps : List (Pc D))
        → IsInt (pos num_orders)
        → AreFinished ps
        → Running ieee num_orders num_threads old m ps
        → IsCompleted (pos num_orders) old m
    Running-IsCompleted old m ps h over r =
        let (int₁, int₂) = r.ints in
        (
          Balanced-finished (to_add num_orders num_threads) ps _ _ refl over int₁ r.orders
              ∙ wrap32-eq_self (pos num_orders) h,
          (r.new, r.log, Balanced-finished to_tell ps _ _ refl over int₂ r.told),
          r.book,
        )

    module _ (clock : ℕ → ℕ) (some_thread : 0 < num_threads) (few : IsInt (pos num_orders))
        (old : List (Trade D)) where
      abbrev Ends : Load D → List (Pc D) → Type 0
      Ends m ps = Eventually clock num_orders num_threads (IsCompleted (pos num_orders) old) m ps

      all_end :
          (a b : ℕ) (m : Load D) (ps : List (Pc D))
          → tally (submits ieee clock num_orders num_threads some_thread) ps < a
          → tally busy ps < b
          → Running ieee num_orders num_threads old m ps
          → Ends m ps
      all_end zero b m ps h k r = absurd (omega arith)
      all_end (suc a) zero m ps h k r = absurd (omega arith)
      all_end (suc a) (suc b) m ps h k r =
          elim (find_turn ieee clock num_orders num_threads some_thread m ps) [
            | inl over ↦ done m ps over (Running-IsCompleted old m ps few over r)
            | inr mover ↦
                goes m ps _ _ (Mover-Step ieee clock num_orders num_threads some_thread m ps mover)
                  λ m' ps' step.
                    let r' =
                      Step-Running ieee num_orders num_threads old clock m ps m' ps' some_thread
                        step r in
                    elim (Step-lowers ieee clock num_orders num_threads some_thread m ps m' ps' step
                      r.ready) [
                        | inl fewer ↦
                            all_end a (suc (tally busy ps')) m' ps' (omega arith) (omega arith) r'
                        | inr (same, closer) ↦
                            all_end (suc a) b m' ps' (omega arith) (omega arith) r'
                      ]
          ]

in_range : (n : ℤ) → pos 1 ≤ℤ n → n ≤ℤ pos 1000 → IsInt (pos (pos_part n)) × (pos (pos_part n) ≡ n)
in_range (pos n) low high = ((omega arith, omega arith), refl)
in_range (negsuc n) low high = absurd (omega arith)

-- The numbers of a test, as the loops count.
abbrev pub num_orders_of : LoadRequest → ℕ
num_orders_of q = pos_part q.num_orders

abbrev pub num_threads_of : LoadRequest → ℕ
num_threads_of q = pos_part q.num_threads

module _ {D : Type 0} ⦃d : Double D⦄ (ieee : IsIeee D) (clock : ℕ → ℕ) where
  -- The threads of a test on a service.
  abbrev pub Completes : LoadRequest → Service D → Type 0
  Completes q s =
      Eventually clock (num_orders_of q) (num_threads_of q)
        (IsCompleted ieee q.num_orders s.order_book.trade_log) (open_load s)
        (spawn (num_threads_of q) 0)

  -- A test with at least one thread, on a service whose book satisfies its invariant, ends however its
  -- threads take turns: as long as one has not finished some thread can move, and after finitely many
  -- moves all have finished. Then `completed_orders` is the number of orders of the request,
  -- `total_trades` is the number of trades that were added to the log, reduced to the range of an
  -- `int`, and the book satisfies its invariant again. Of the statistics nothing is said.
  pub test_concurrency-Completes :
      {J : Type 0} (r : Reader J D) (body : String) (q : LoadRequest) (s : Service D)
      → test_concurrency r body ≡ opened q
      → pos 0 <ℤ q.num_threads
      → IsBook ieee s.order_book
      → Completes q s
  test_concurrency-Completes r body q s e some_thread v =
      let (low, high) = opened-bounds r body q e in
      let n = num_orders_of q in
      let threads = num_threads_of q in
      let started : 0 < threads = omega arith in
      let (few, same) = in_range q.num_orders low high in
      subst
        (λ number.
          Eventually clock n threads (IsCompleted ieee number s.order_book.trade_log) (open_load s)
            (spawn threads 0))
        same
        (all_end ieee n threads clock started few s.order_book.trade_log _ _ (open_load s)
          (spawn threads 0) (le_refl _) (le_refl _) (open-Running ieee n threads s started v))

  -- What the threads leave, from any of their moves.
  pub Steps-IsBook :
      {J : Type 0} (r : Reader J D) (body : String) (q : LoadRequest) (s : Service D) (m : Load D)
      (ps : List (Pc D))
      → test_concurrency {D = D} r body ≡ opened q
      → pos 0 <ℤ q.num_threads
      → IsBook ieee s.order_book
      → Steps clock
          (num_orders_of q)
          (num_threads_of q)
          (open_load s)
          (spawn (num_threads_of q) 0)
          m
          ps
      → AreFinished ps
      → IsBook ieee m.service.order_book
  Steps-IsBook r body q s m ps e some_thread v steps over =
      let (low, high) = opened-bounds r body q e in
      let started : 0 < num_threads_of q = omega arith in
      let r' =
        Steps-Running ieee (num_orders_of q) (num_threads_of q) s.order_book.trade_log clock
          (open_load s) (spawn (num_threads_of q) 0) m ps started steps
          (open-Running ieee (num_orders_of q) (num_threads_of q) s started v) in
      (Running-IsCompleted ieee (num_orders_of q) (num_threads_of q) s.order_book.trade_log m ps
        (in_range q.num_orders low high).0 over r').2
