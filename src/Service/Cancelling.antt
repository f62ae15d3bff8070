-- ===== src/Service/Cancelling.antt =====
-- What `POST /orders/<id>/cancel` of src/main.cpp tells its client.
use velocore.Base.{
  ℕ, ◌≡◌, All-mid, ◌≢◌, ◌⊎◌, refl, inl, inr, List, none, some, ℤ, All, Option-cases, subst,
}
use mathlib.Core.Option
use velocore.Order.{Order}
use velocore.OrderBook.Levels.{Level, entries, cancel_in}
use velocore.OrderBook.Levels.Cancelled.{Cancels, cancel_in-Cancels}
use velocore.OrderBook.Engine.{OrderBook, cancel_order}
use velocore.Service.{Service, to_uint64}
use velocore.Service.Orders.{cancel_route}

module _ {D : Type 0} where
  abbrev Absent : ℕ → List (Level D) → Type 0
  Absent id ls = All (λ e. e.1.id ≢ id) (entries ls)

  -- No resting order has the id.
  abbrev pub IsAbsent : ℕ → OrderBook D → Type 0
  IsAbsent id b = Absent id b.buy_book × Absent id b.sell_book

  Cancels-present :
      (id : ℕ) (queue left : List (D × Order D))
      → Cancels id queue (some left)
      → ¬ All (λ e. e.1.id ≢ id) queue
  Cancels-present id queue left (ahead, hit, behind, p, q, m, k) h =
      All-mid (λ e. e.1.id ≢ id) ahead hit behind (subst (All (λ e. e.1.id ≢ id)) p h) m

  cancel_in-some :
      (id : ℕ) (ls left : List (Level D)) → cancel_in id ls ≡ some left → ¬ Absent id ls
  cancel_in-some id ls left e =
      Cancels-present id (entries ls) (entries left)
        (subst (λ r. Cancels id (entries ls) (Option.map entries r)) e (cancel_in-Cancels id ls))

  cancel_in-none : (id : ℕ) (ls : List (Level D)) → cancel_in id ls ≡ none → Absent id ls
  cancel_in-none id ls e =
      subst (λ r. Cancels id (entries ls) (Option.map entries r)) e (cancel_in-Cancels id ls)

  -- The response is 404 exactly if no resting order of either side has the id, read as an unsigned
  -- number of 64 bits; the state is then unchanged. Otherwise the response is 200.
  pub cancel_route_cases :
      (id : ℤ) (s : Service D)
      → let (s', r) = cancel_route id s in
        ((r.code ≡ 404) × IsAbsent (to_uint64 id) s.order_book × (s' ≡ s))
        ⊎ ((r.code ≡ 200) × ¬ IsAbsent (to_uint64 id) s.order_book)
  unfolding cancel_route cancel_order
  cancel_route_cases order_id s =
      let id = to_uint64 order_id in
      elim (Option-cases (cancel_in id s.order_book.buy_book)) [
        | inr (bids, e) ↦
            rw (e, cancel_route, cancel_order)
              (inr (refl, λ h. cancel_in-some id s.order_book.buy_book bids e h.0))
        | inl e ↦ elim (Option-cases (cancel_in id s.order_book.sell_book)) [
          | inr (asks, f) ↦
              rw (e, f, cancel_route, cancel_order)
                (inr (refl, λ h. cancel_in-some id s.order_book.sell_book asks f h.1))
          | inl f ↦
              rw (e, f, cancel_route, cancel_order)
                (inl (
                  refl,
                  (
                    cancel_in-none id s.order_book.buy_book e,
                    cancel_in-none id s.order_book.sell_book f,
                  ),
                  refl,
                ))
        ]
      ]
