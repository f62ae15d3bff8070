-- ===== src/OrderBook/Abstract/Insertion.antt =====
-- The insertion into a map of queues (`addToBook`, src/models/impl/OrderBook.cpp) as an insertion into
-- one queue, and the removal likewise.
use velocore.Base.{
  ℕ, ◌≡◌, ◌≢◌, refl, sym, ap, ◌∙◌, inl, inr, true, false, List, [], ◌∷◌, ◌++◌, Option, none, some,
  arith, All,
}
use mathlib.Core.Option
use mathlib.Core.List.{append_assoc}
use velocore.Double.{Double, IsIeee}
use velocore.Types.{Side}
use velocore.Order.{Order}
use velocore.Order.Priority.{Better}
use velocore.OrderBook.Levels.{Level, push_back, before, at_price, entries, cancel_in}
use velocore.OrderBook.Levels.Valid.{IsSide, IsLevel, before_cases}
use velocore.OrderBook.Levels.Cancelled.{Cancels, cancel_in-Cancels}
use velocore.OrderBook.Engine.Sides.{at_price-append}
use velocore.OrderBook.Engine.Valid.{before_each}
use velocore.OrderBook.Abstract.{without, enqueue}

module _ {D : Type 0} where
  Cancels-without :
      (id : ℕ) (queue : List (D × Order D)) (r : Option (List (D × Order D)))
      → Cancels id queue r
      → without id queue ≡ r
  unfolding without
  Cancels-without id [] none h = refl
  Cancels-without id (e ∷ queue) none h = ground (arith, Cancels-without id queue none h.1)
  Cancels-without id queue (some left) (ahead, hit, behind, p, q, m, k) = rw (p, q) (found ahead k)
    where
      found :
          (ahead : List (D × Order D))
          → All (λ e. e.1.id ≢ id) ahead
          → without id (ahead ++ hit ∷ behind) ≡ some (ahead ++ behind)
      found [] k = ground arith
      found (e ∷ ahead) k = ground (arith, found ahead k.1)

  -- A cancellation on a side of the book is one on its queue.
  pub cancel_in-without :
      (id : ℕ) (ls : List (Level D))
      → without id (entries ls) ≡ Option.map entries (cancel_in id ls)
  cancel_in-without id ls = Cancels-without id (entries ls) _ (cancel_in-Cancels id ls)

module _ {D : Type 0} ⦃d : Double D⦄ where
  enqueue-behind :
      (side : Side) (p q : D) (o : Order D) (os : List (Order D)) (queue : List (D × Order D))
      → before side p q ≡ false
      → before side q p ≡ true
      → enqueue side p o (at_price q os ++ queue) ≡ at_price q os ++ enqueue side p o queue
  unfolding enqueue
  enqueue-behind side p q o [] queue e f = refl
  enqueue-behind side p q o (x ∷ os) queue e f = rw (e, f, enqueue-behind side p q o os queue e f)

  enqueue-among :
      (side : Side) (q : D) (o : Order D) (os : List (Order D)) (queue : List (D × Order D))
      → before side q q ≡ false
      → enqueue side q o (at_price q os ++ queue) ≡ at_price q os ++ enqueue side q o queue
  unfolding enqueue
  enqueue-among side q o [] queue e = refl
  enqueue-among side q o (x ∷ os) queue e = rw (e, enqueue-among side q o os queue e)

  enqueue-last : (side : Side) (p : D) (o : Order D) → enqueue side p o [] ≡ (p, o) ∷ []
  unfolding enqueue
  enqueue-last side p o = refl

  -- An order of the same price as a level goes behind the level's orders.
  enqueue-level :
      (side : Side) (p q : D) (o : Order D) (os : List (Order D)) (queue : List (D × Order D))
      → os ≢ []
      → before side p q ≡ false
      → before side q p ≡ false
      → before side q q ≡ false
      → enqueue side q o queue ≡ (q, o) ∷ queue
      → enqueue side p o (at_price q os ++ queue) ≡ at_price q (os ++ o ∷ []) ++ queue
  unfolding enqueue
  enqueue-level side p q o [] queue k e f g h = absurd (k refl)
  enqueue-level side p q o (x ∷ os) queue k e f g h =
      rw (e, f, enqueue-among side q o os queue g, h, at_price-append q os o)
        (ap (◌∷◌ (q, x)) (sym (append_assoc (at_price q os) ((q, o) ∷ []) queue)))

module _ {D : Type 0} ⦃d : Double D⦄ (ieee : IsIeee D) where
  open ieee use {is_nan, rank, lt-eq-ltb}

  before_self : (side : Side) (p : D) → is_nan p ≡ false → before side p p ≡ false
  before_self Side.buy p h = ground (arith, lt-eq-ltb p p)
  before_self Side.sell p h = ground (arith, lt-eq-ltb p p)

  Better-before :
      (side : Side) (p q : D)
      → is_nan p ≡ false
      → is_nan q ≡ false
      → Better ieee side p q
      → before side p q ≡ true
  Better-before Side.buy p q h k e = ground (arith, lt-eq-ltb q p)
  Better-before Side.sell p q h k e = ground (arith, lt-eq-ltb p q)

  enqueue-front :
      (side : Side) (p : D) (o : Order D) (ls : List (Level D))
      → is_nan p ≡ false
      → All (IsLevel ieee side) ls
      → All (λ l. Better ieee side p l.price) ls
      → enqueue side p o (entries ls) ≡ (p, o) ∷ entries ls
  unfolding enqueue
  enqueue-front side p o [] h v b = refl
  enqueue-front side p o (l ∷ ls) h v b = first l.orders v.0.has_orders
    where
      first :
          (os : List (Order D))
          → os ≢ []
          → enqueue side p o (at_price l.price os ++ entries ls)
            ≡ (p, o) ∷ at_price l.price os ++ entries ls
      first [] k = absurd (k refl)
      first (x ∷ os) k = rw (Better-before side p l.price h v.0.number b.0)

  -- The place of a new order is the end of the queue of its price.
  pub push_back-enqueue :
      (side : Side) (o : Order D) (ls : List (Level D))
      → is_nan o.price ≡ false
      → IsSide ieee side ls
      → entries (push_back side o.price o ls) ≡ enqueue side o.price o (entries ls)
  unfolding push_back
  push_back-enqueue side o [] h v = sym (enqueue-last side o.price o)
  push_back-enqueue side o (l ∷ ls) h v =
      elim (before_cases ieee side o.price l.price h v.0.0.number) [
        | inl (e, better) ↦ rw e (
            sym (
              enqueue-front side o.price o (l ∷ ls) h v.0
                (before_each ieee side o.price l ls better v.1)))
        | inr (inl (e, f, worse)) ↦
            rw (e, f)
              (ap (λ queue. at_price l.price l.orders ++ queue)
                  (push_back-enqueue side o ls h (v.0.1, v.1.1))
                ∙ sym (enqueue-behind side o.price l.price o l.orders (entries ls) e f))
        | inr (inr (e, f, same)) ↦
            rw (e, f)
              (sym (
                enqueue-level side o.price l.price o l.orders (entries ls) v.0.0.has_orders e f
                  (before_self side l.price v.0.0.number)
                  (enqueue-front side l.price o ls v.0.0.number v.0.1 v.1.0)))
      ]
