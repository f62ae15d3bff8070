-- ===== src/Order/Priority.antt =====
-- `operator<` on orders (src/models/impl/Order.cpp): price-time priority.
use velocore.Base.{◌<◌, ◌≡◌, ◌↔◌, ◌⊎◌, true, false, arith}
use velocore.Double.{Double, IsIeee}
use velocore.Types.{Side}
use velocore.Order.{Order, order_lt}

module _ {D : Type 0} ⦃d : Double D⦄ (ieee : IsIeee D) where
  open ieee use {is_nan, rank, lt-eq-ltb, eq-eq-beq}

  -- One price is better than another for a side: higher for a buyer, lower for a seller.
  abbrev pub Better : Side → D → D → Type 0
  Better Side.buy p q = rank q < rank p
  Better Side.sell p q = rank p < rank q

  -- Price-time priority among the orders of one side.
  abbrev pub Precedes : Order D → Order D → Type 0
  Precedes a b =
      Better a.side a.price b.price ⊎ ((rank a.price ≡ rank b.price) × (a.timestamp < b.timestamp))

  -- Of two orders of one side whose prices are numbers, `operator<` puts the one of the better price
  -- first, and of two of the same price the one of the earlier timestamp.
  pub order_lt_iff :
      (a b : Order D)
      → is_nan a.price ≡ false
      → is_nan b.price ≡ false
      → a.side ≡ b.side
      → (order_lt a b ≡ true) ↔ Precedes a b
  unfolding order_lt
  order_lt_iff a b na nb same =
      ground
        (arith, lt-eq-ltb a.price b.price, lt-eq-ltb b.price a.price, eq-eq-beq a.price b.price)

  -- Among orders whose prices are numbers, `operator<` is a strict weak order: it is irreflexive
  -- and transitive, and what it puts before an order it puts before or after any third one.
  pub order_lt_strict_weak :
      (a b c : Order D)
      → is_nan a.price ≡ false
      → is_nan b.price ≡ false
      → is_nan c.price ≡ false
      → (order_lt a a ≡ false)
        × (order_lt a b ≡ true → order_lt b c ≡ true → order_lt a c ≡ true)
        × (order_lt a c ≡ true → (order_lt a b ≡ true) ⊎ (order_lt b c ≡ true))
  unfolding order_lt
  order_lt_strict_weak a b c na nb nc = ground (
    arith,
    lt-eq-ltb a.price b.price,
    lt-eq-ltb b.price a.price,
    lt-eq-ltb b.price c.price,
    lt-eq-ltb c.price b.price,
    lt-eq-ltb a.price c.price,
    lt-eq-ltb c.price a.price,
    eq-eq-beq a.price a.price,
    eq-eq-beq a.price b.price,
    eq-eq-beq b.price c.price,
    eq-eq-beq a.price c.price,
  )
