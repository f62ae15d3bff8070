-- ===== src/OrderBook/Levels/Cancelled.antt =====
-- Which order `cancelOrder` takes off a side of the book (src/models/impl/OrderBook.cpp), on the
-- orders of the side in the order in which they are served.
use velocore.Base.{
  ℕ, ◌≡◌, ◌≢◌, refl, sym, ap, ◌∙◌, inl, inr, List, [], ◌∷◌, ◌++◌, none, some, Option, arith, All,
  All-append, Option-cases, Bool-cases, ◌==◌,
}
use mathlib.Core.List.{append_assoc}
use mathlib.Core.Option
use velocore.Order.{Order}
use velocore.OrderBook.Levels.{Level, keep_level, remove_order, cancel_in, at_price, entries}

module _ {D : Type 0} where
  -- No order of the id, or the first one of it with what stands before and behind it.
  abbrev pub Cancels : ℕ → List (D × Order D) → Option (List (D × Order D)) → Type 0
  Cancels id queue none = All (λ e. e.1.id ≢ id) queue
  Cancels id queue (some left) =
      (ahead : List (D × Order D)) × (hit : D × Order D) × (behind : List (D × Order D)) × (queue
        ≡ ahead ++ hit ∷ behind)
      × (left ≡ ahead ++ behind)
      × (hit.1.id ≡ id)
      × All (λ e. e.1.id ≢ id) ahead

  Cancels-cons :
      (id : ℕ) (e : D × Order D) (queue : List (D × Order D)) (r : Option (List (D × Order D)))
      → e.1.id ≢ id
      → Cancels id queue r
      → Cancels id (e ∷ queue) (Option.map (◌∷◌ e) r)
  Cancels-cons id e queue none h c = (h, c)
  Cancels-cons id e queue (some left) h (ahead, hit, behind, p, q, m, k) =
      (e ∷ ahead, hit, behind, ap (◌∷◌ e) p, ap (◌∷◌ e) q, m, (h, k))

  Cancels-prepend :
      (id : ℕ) (es queue : List (D × Order D)) (r : Option (List (D × Order D)))
      → All (λ e. e.1.id ≢ id) es
      → Cancels id queue r
      → Cancels id (es ++ queue) (Option.map (◌++◌ es) r)
  Cancels-prepend id es queue none h c = All-append _ es queue h c
  Cancels-prepend id es queue (some left) h (ahead, hit, behind, p, q, m, k) = (
    es ++ ahead,
    hit,
    behind,
    ap (◌++◌ es) p ∙ sym (append_assoc es ahead (hit ∷ behind)),
    ap (◌++◌ es) q ∙ sym (append_assoc es ahead behind),
    m,
    All-append _ es ahead h k,
  )

  map-at_price :
      (p : D) (o : Order D) (r : Option (List (Order D)))
      → Option.map (at_price p) (Option.map (◌∷◌ o) r)
        ≡ Option.map (◌∷◌ (p, o)) (Option.map (at_price p) r)
  map-at_price p o none = refl
  map-at_price p o (some os) = refl

  remove_order-Cancels :
      (id : ℕ) (p : D) (os : List (Order D))
      → Cancels id (at_price p os) (Option.map (at_price p) (remove_order id os))
  unfolding remove_order
  remove_order-Cancels id p [] = tt
  remove_order-Cancels id p (o ∷ os) = elim (Bool-cases (o.id == id)) [
    | inl hit ↦ rw hit ([], (p, o), at_price p os, refl, refl, ground arith, tt)
    | inr miss ↦
        rw (miss, map-at_price p o (remove_order id os))
          (Cancels-cons id (p, o) (at_price p os) _ (ground arith) (remove_order-Cancels id p os))
  ]

  entries-keep_level :
      (p : D) (os : List (Order D)) (ls : List (Level D))
      → entries (keep_level p os ls) ≡ at_price p os ++ entries ls
  entries-keep_level p [] ls = refl
  entries-keep_level p (o ∷ os) ls = refl

  -- What a cancellation in the first queues leaves, with the later ones behind it.
  Cancels-append :
      (id : ℕ) (es queue left : List (D × Order D))
      → Cancels id es (some left)
      → Cancels id (es ++ queue) (some (left ++ queue))
  Cancels-append id es queue left (ahead, hit, behind, p, q, m, k) = (
    ahead,
    hit,
    behind ++ queue,
    ap (λ xs. xs ++ queue) p ∙ append_assoc ahead (hit ∷ behind) queue,
    ap (λ xs. xs ++ queue) q ∙ append_assoc ahead behind queue,
    m,
    k,
  )

  map-entries :
      (l : Level D) (r : Option (List (Level D)))
      → Option.map entries (Option.map (◌∷◌ l) r)
        ≡ Option.map (◌++◌ (at_price l.price l.orders)) (Option.map entries r)
  map-entries l none = refl
  map-entries l (some ls) = refl

  -- A cancellation takes exactly the first order of the id off the side and leaves all others, in
  -- their order; it finds none exactly if no order of the side has the id.
  pub cancel_in-Cancels :
      (id : ℕ) (ls : List (Level D))
      → Cancels id (entries ls) (Option.map entries (cancel_in id ls))
  unfolding cancel_in
  cancel_in-Cancels id [] = tt
  cancel_in-Cancels id (l ∷ ls) =
      let here = remove_order-Cancels id l.price l.orders in
      elim (Option-cases (remove_order id l.orders)) [
        | inl e ↦
            let missed : Cancels id (at_price l.price l.orders) none = rw e at here in
            rw (e, cancel_in, map-entries l (cancel_in id ls))
              (Cancels-prepend id (at_price l.price l.orders) (entries ls) _ missed
                (cancel_in-Cancels id ls))
        | inr (os, e) ↦
            let found : Cancels id (at_price l.price l.orders) (some (at_price l.price os)) =
              rw e at here in
            rw (e, cancel_in, entries-keep_level l.price os ls)
              (Cancels-append id (at_price l.price l.orders) (entries ls) (at_price l.price os)
                found)
      ]
