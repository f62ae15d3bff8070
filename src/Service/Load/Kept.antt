-- ===== src/Service/Load/Kept.antt =====
-- What one access of one worker of `POST /test/concurrency` (src/main.cpp) keeps in balance.
use velocore.Base.{
  ℕ, suc, ◌+◌, ◌<◌, ◌≡◌, refl, sym, ap, ◌∙◌, inl, List, [], ◌∷◌, ◌++◌, ℤ, pos, ◌+ℤ◌, +ℤ_zero, add32,
  wrap32, wrap32-IsInt, IsInt, int_laws, length, Option, none, some,
}
use mathlib.Core.List.{append-nil}
use velocore.Double.{Double, IsIeee}
use velocore.Trade.{Trade}
use velocore.Trade.Accesses.{Stage, touch}
use velocore.OrderBook.Engine.Valid.{IsIncoming, IsBook}
use velocore.OrderBook.Engine.History.{add_order-IsBook}
use velocore.OrderBook.Engine.Trades.{add_order-Reported}
use velocore.Service.Load.{
  Load, Pc, head, drawn, made, added, completed, reporting, updating, finished, with_stats,
  load_order, price_of, Move, ends, draws, makes, adds, completes, counts, reports, touches,
  resumed, goes_on,
}
use velocore.Service.Load.Counting.{to_complete, rounds_from, rounds_from-within, rounds_from-past}
use velocore.Service.Load.Balance.{Carries, add32-carries}

module _ {D : Type 0} where
  -- The trades that a thread has yet to add to the handler's counter.
  abbrev pub untold : Pc D → List (Trade D)
  untold (added i trades) = trades
  untold (completed i trades) = trades
  untold p = []

  abbrev pub to_tell : Pc D → ℤ
  to_tell p = pos (length (untold p))

  abbrev pub log_of : Load D → List (Trade D)
  log_of m = m.service.order_book.trade_log

  abbrev pub to_add : (num_orders num_threads : ℕ) → Pc D → ℤ
  to_add num_orders num_threads p = pos (to_complete num_orders num_threads p)

  -- The two counters are of type `int`.
  abbrev pub AreInts : Load D → Type 0
  AreInts m = IsInt m.completed_orders × IsInt m.total_trades

module _ {D : Type 0} ⦃d : Double D⦄ (ieee : IsIeee D) (num_orders num_threads : ℕ) where
  -- An order that is on its way is one of the test, and an acceptable one.
  abbrev pub IsReady : Pc D → Type 0
  IsReady (drawn i id) = i < num_orders
  IsReady (made i order) = (i < num_orders) × IsIncoming ieee order
  IsReady (added i trades) = i < num_orders
  IsReady p = Unit

  pub record Kept (m : Load D) (p : Pc D) (m' : Load D) (p' : Pc D) : Type 0 where
    pub fresh : List (Trade D)
    pub log : log_of m' ≡ log_of m ++ fresh
    pub orders :
        Carries (to_add num_orders num_threads) m.completed_orders p m'.completed_orders p' (pos 0)
    pub told : Carries to_tell m.total_trades p m'.total_trades p' (pos (length fresh))
    pub ints : AreInts m'
    pub book : IsBook ieee m'.service.order_book
    pub ready : IsReady p'

  unfoldable load_order-IsIncoming : (i id time : ℕ) → IsIncoming ieee (load_order i id time)
  unfolding load_order price_of
  load_order-IsIncoming i id time = record {
    number = λ e. ieee.sum_number _ _;
    live = λ h. inl (refl, refl);
  }

-- A counter that stays, with a weight that stays.
stays : (c x : ℤ) → wrap32 (c +ℤ x) ≡ wrap32 (c +ℤ x +ℤ pos 0)
stays c x = ap wrap32 (sym (+ℤ_zero (c +ℤ x)))

-- A weight that comes in.
comes : (c x : ℤ) → wrap32 (c +ℤ x) ≡ wrap32 (c +ℤ pos 0 +ℤ x)
comes c x = ap wrap32 (omega int_laws)

-- All that was held is in the counter.
hands_over : (c x : ℤ) → wrap32 (add32 c x +ℤ pos 0) ≡ wrap32 (c +ℤ x +ℤ pos 0)
hands_over c x = add32-carries c x (pos 0) ∙ ap wrap32 (omega int_laws)

-- One more in the counter is one less to hold.
one_less : (c : ℤ) (n : ℕ) → wrap32 (add32 c (pos 1) +ℤ pos n) ≡ wrap32 (c +ℤ pos (suc n) +ℤ pos 0)
one_less c n = add32-carries c (pos 1) (pos n) ∙ ap (λ x. wrap32 (c +ℤ x +ℤ pos 0)) (omega int_laws)

module _ {D : Type 0} ⦃d : Double D⦄ (ieee : IsIeee D) (clock : ℕ → ℕ) (num_orders num_threads : ℕ)
    (some_thread : 0 < num_threads) where
  abbrev KeptMove : Load D → Pc D → Load D → Pc D → Type 0
  KeptMove m p m' p' = Kept ieee num_orders num_threads m p m' p'

  abbrev left_at : ℕ → ℕ
  left_at i = rounds_from num_orders num_threads i

  -- A move that leaves the log and the counters alone.
  quiet :
      (m : Load D) (p : Pc D) (m' : Load D) (p' : Pc D)
      → m'.service.order_book ≡ m.service.order_book
      → m'.completed_orders ≡ m.completed_orders
      → m'.total_trades ≡ m.total_trades
      → to_complete num_orders num_threads p' ≡ to_complete num_orders num_threads p
      → untold p' ≡ untold p
      → AreInts m
      → IsBook ieee m.service.order_book
      → IsReady ieee num_orders num_threads p'
      → KeptMove m p m' p'
  quiet m p m' p' eb ec et w u ints book ready = record {
    fresh = [];
    log = ap (λ b. b.trade_log) eb ∙ sym (append-nil (log_of m));
    orders = rw (ec, w) (stays _ _);
    told = rw (et, u) (stays _ _);
    ints = rw (ec, et) ints;
    book = rw eb book;
    ready = ready;
  }

  pub Move-Kept :
      (m : Load D) (p : Pc D) (m' : Load D) (p' : Pc D)
      → Move clock num_orders num_threads m p m' p'
      → AreInts m
      → IsBook ieee m.service.order_book
      → IsReady ieee num_orders num_threads p
      → KeptMove m p m' p'
  Move-Kept m _ _ _ (ends i past) ints book ready =
      quiet m (head i) m finished refl refl refl
        (sym (rounds_from-past num_orders num_threads some_thread i past)) refl ints book tt
  Move-Kept m _ _ _ (draws i below) ints book ready =
      quiet m (head i) _ (drawn i _) refl refl refl refl refl ints book below
  Move-Kept m _ _ _ (makes i id) ints book below =
      quiet m (drawn i id) _ (made i _) refl refl refl refl refl ints book
        (below, load_order-IsIncoming ieee num_orders num_threads i id _)
  Move-Kept m _ _ _ (adds i order) ints book (below, incoming) = record {
    fresh = _;
    log = (add_order-Reported ieee clock order m.service.order_book m.service.world book).2;
    orders = stays _ _;
    told = comes _ _;
    ints = ints;
    book = add_order-IsBook ieee clock order m.service.order_book m.service.world incoming book;
    ready = below;
  }
  Move-Kept m _ _ _ (completes i trades) ints book below = record {
    fresh = [];
    log = sym (append-nil (log_of m));
    orders =
        rw (rounds_from-within num_orders num_threads some_thread i below)
          (one_less m.completed_orders (left_at (i + num_threads)));
    told = stays _ _;
    ints = (wrap32-IsInt _, ints.1);
    book = book;
    ready = tt;
  }
  Move-Kept m _ _ _ (counts i trades) ints book ready = record {
    fresh = [];
    log = sym (append-nil (log_of m));
    orders = stays _ _;
    told = hands_over m.total_trades (pos (length trades));
    ints = (ints.0, wrap32-IsInt _);
    book = book;
    ready = tt;
  }
  Move-Kept m _ _ _ (reports i trade trades) ints book ready =
      quiet m (reporting i (trade ∷ trades)) m _ refl refl refl refl refl ints book tt
  Move-Kept m _ _ _ (touches i trade trades stage) ints book ready =
      next (touch stage trade m.service.stats).1
    where
      m' : Load D
      m' = with_stats (touch stage trade m.service.stats).0 m

      next :
          (o : Option (Stage D))
          → KeptMove m (updating i trade trades stage) m' (resumed i trade trades o)
      next none =
          quiet m (updating i trade trades stage) m' (reporting i trades) refl refl refl refl refl
            ints book tt
      next (some stage') =
          quiet m (updating i trade trades stage) m' (updating i trade trades stage') refl refl refl
            refl refl ints book tt
  Move-Kept m _ _ _ (goes_on i) ints book ready =
      quiet m (reporting i []) m (head (i + num_threads)) refl refl refl refl refl ints book tt
