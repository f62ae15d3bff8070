-- ===== src/Trade/Totals.antt =====
-- `TradeStatistics` after a sequence of trades (src/models/impl/Trade.cpp).
use velocore.Base.{
  refl, +ℤ_comm, +ℤ_assoc, ◌++◌, ◌≤◌, ◌≡◌, sym, ap, ◌∙◌, false, List, [], ◌∷◌, map, arith, ℤ, pos,
  ◌+ℤ◌, IsInt, wrap32, wrap32-add_assoc, wrap32-IsInt, pos-suc, wrap32-eq_self, sum, +ℤ_zero,
  length, All,
}
use velocore.Double.{Double, IsIeee}
use velocore.Trade.{Trade, TradeStatistics, update, update_all, no_trades}

module _ {D : Type 0} where
  abbrev pub quantities : List (Trade D) → List ℤ
  quantities = map λ t. t.quantity

  pub sum-quantities_append :
      (xs ys : List (Trade D))
      → sum (quantities (xs ++ ys)) ≡ sum (quantities xs) +ℤ sum (quantities ys)
  sum-quantities_append [] ys = sym (+ℤ_comm (pos 0) _ ∙ +ℤ_zero _)
  sum-quantities_append (x ∷ xs) ys =
      rw
        (
          sum-quantities_append xs ys,
          +ℤ_assoc x.quantity (sum (quantities xs)) (sum (quantities ys)),
        )
        refl

module _ {D : Type 0} ⦃d : Double D⦄ where
  -- After any trades the two `int` counters hold the number of trades and the traded volume, added to
  -- what they held before and reduced to the range of an `int`.
  pub update_all_totals :
      (s : TradeStatistics D) (ts : List (Trade D))
      → IsInt s.total_trades
      → IsInt s.total_volume
      → ((update_all s ts).total_trades ≡ wrap32 (s.total_trades +ℤ pos (length ts)))
        × ((update_all s ts).total_volume ≡ wrap32 (s.total_volume +ℤ sum (quantities ts)))
  unfolding update_all update
  update_all_totals s [] h k = (
    rw (+ℤ_zero s.total_trades) (sym (wrap32-eq_self _ h)),
    rw (+ℤ_zero s.total_volume) (sym (wrap32-eq_self _ k)),
  )
  update_all_totals s (t ∷ ts) h k =
      let later = update_all_totals (update s t) ts (wrap32-IsInt _) (wrap32-IsInt _) in
      (
        later.0
            ∙ wrap32-add_assoc s.total_trades (pos 1) (pos (length ts))
            ∙ ap (λ n. wrap32 (s.total_trades +ℤ n)) (pos-suc (length ts)),
        later.1 ∙ wrap32-add_assoc s.total_volume t.quantity (sum (quantities ts)),
      )

  module _ (ieee : IsIeee D) where
    open ieee use {is_nan, rank, lt-eq-ltb, max_value_number, lowest_number}

    abbrev pub Spans : TradeStatistics D → List (Trade D) → Type 0
    Spans s ts =
        (is_nan s.min_price ≡ false)
        × (is_nan s.max_price ≡ false)
        × All (λ t. (rank s.min_price ≤ rank t.price) × (rank t.price ≤ rank s.max_price)) ts

    abbrev pub NotNan : Trade D → Type 0
    NotNan t = is_nan t.price ≡ false

    -- One trade more: the span grows to hold it.
    update-Spans :
        (s : TradeStatistics D) (t : Trade D)
        → NotNan t
        → Spans s []
        → Spans (update s t) (t ∷ [])
          × (rank (update s t).min_price ≤ rank s.min_price)
          × (rank s.max_price ≤ rank (update s t).max_price)
    unfolding update
    update-Spans s t n h =
        ground (arith, lt-eq-ltb t.price s.min_price, lt-eq-ltb s.max_price t.price)

    update_all-Spans_from :
        (s : TradeStatistics D) (ts : List (Trade D))
        → All NotNan ts
        → Spans s []
        → Spans (update_all s ts) ts
          × (rank (update_all s ts).min_price ≤ rank s.min_price)
          × (rank s.max_price ≤ rank (update_all s ts).max_price)
    unfolding update_all
    update_all-Spans_from s [] n h = (h, omega arith, omega arith)
    update_all-Spans_from s (t ∷ ts) n h =
        let first = update-Spans s t n.0 h in
        let rest = update_all-Spans_from (update s t) ts n.1 (first.0.0, first.0.1, tt) in
        ground arith

    -- From the empty statistics, after trades whose prices are numbers, every one of the prices lies
    -- between `min_price` and `max_price`, and neither of the two is NaN.
    pub update_all-Spans :
        (ts : List (Trade D)) → All NotNan ts → Spans (update_all no_trades ts) ts
    unfolding no_trades
    update_all-Spans ts n =
        (update_all-Spans_from no_trades ts n (max_value_number, lowest_number, tt)).0
