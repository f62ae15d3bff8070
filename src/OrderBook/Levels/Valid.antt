-- ===== src/OrderBook/Levels/Valid.antt =====
-- What one side of the book keeps: no empty level, the levels in the order of the comparator, and in
-- each level only live limit orders of that side and price.
use velocore.Base.{
  ◌≡◌, ◌≢◌, ◌∙◌, inl, inr, ◌⊎◌, true, false, List, [], ◌∷◌, ◌++◌, arith, pos, ◌<ℤ◌, All, All-append,
  All-imp, Bool-cases,
}
use velocore.Double.{Double, IsIeee}
use velocore.Types.{Side, OrderType, OrderStatus}
use velocore.Order.{Order}
use velocore.Order.Priority.{Better}
use velocore.OrderBook.Levels.{Level, level, push_back, before}

-- An order that can still trade: as it came, or with a part of its quantity left.
abbrev pub IsLive : {D : Type 0} → Order D → Type 0
IsLive o =
    ((o.status ≡ OrderStatus.active) × (o.remaining_quantity ≡ o.quantity))
    ⊎ ((o.status ≡ OrderStatus.partially_filled) × (o.remaining_quantity <ℤ o.quantity))

append-ne-nil {ℓ} : {A : Type ℓ} (xs : List A) (x : A) → xs ++ x ∷ [] ≢ []
append-ne-nil [] x e = cc
append-ne-nil (y ∷ xs) x e = cc

module _ {D : Type 0} ⦃d : Double D⦄ where
  -- What holds of every price of a side, and of a new one, holds after an insertion.
  pub push_back-prices {κ} :
      (Q : D → Type κ) (side : Side) (p : D) (o : Order D) (ls : List (Level D))
      → Q p
      → All (λ l. Q l.price) ls
      → All (λ l. Q l.price) (push_back side p o ls)
  unfolding push_back
  push_back-prices Q side p o [] h k = (h, tt)
  push_back-prices Q side p o (l ∷ ls) h k = elim (Bool-cases (before side p l.price)) [
    | inl e ↦ rw e (h, k)
    | inr e ↦ elim (Bool-cases (before side l.price p)) [
      | inl f ↦ rw (e, f) (k.0, push_back-prices Q side p o ls h k.1)
      | inr f ↦ rw (e, f) k
    ]
  ]

module _ {D : Type 0} ⦃d : Double D⦄ (ieee : IsIeee D) where
  open ieee use {is_nan, rank, lt-eq-ltb}

  pub record IsResting (side : Side) (price : D) (o : Order D) : Type 0 where
    pub same_side : o.side ≡ side
    pub is_limit_order : o.type ≡ OrderType.limit
    pub number : is_nan o.price ≡ false
    pub same_price : rank o.price ≡ rank price
    pub wanted : pos 0 <ℤ o.remaining_quantity
    pub live : IsLive o

  pub record IsLevel (side : Side) (l : Level D) : Type 0 where
    pub number : is_nan l.price ≡ false
    pub has_orders : l.orders ≢ []
    pub resting : All (IsResting side l.price) l.orders

  -- Strictly falling prices for bids, strictly rising ones for asks.
  abbrev pub IsSorted : Side → List (Level D) → Type 0
  IsSorted side [] = Unit
  IsSorted side (l ∷ ls) = All (λ m. Better ieee side l.price m.price) ls × IsSorted side ls

  abbrev pub IsSide : Side → List (Level D) → Type 0
  IsSide side ls = All (IsLevel side) ls × IsSorted side ls

  pub Better-trans :
      (side : Side) (p q r : D) → Better ieee side p q → Better ieee side q r → Better ieee side p r
  Better-trans Side.buy p q r h k = omega arith
  Better-trans Side.sell p q r h k = omega arith

  -- What the comparator says of two prices that are numbers.
  pub before_cases :
      (side : Side) (p q : D)
      → is_nan p ≡ false
      → is_nan q ≡ false
      → ((before side p q ≡ true) × Better ieee side p q)
        ⊎ ((before side p q ≡ false) × (before side q p ≡ true) × Better ieee side q p)
        ⊎ ((before side p q ≡ false) × (before side q p ≡ false) × (rank p ≡ rank q))
  before_cases Side.buy p q h k = ground (arith, lt-eq-ltb p q, lt-eq-ltb q p)
  before_cases Side.sell p q h k = ground (arith, lt-eq-ltb p q, lt-eq-ltb q p)

  level-IsLevel :
      (side : Side) (o : Order D) → IsResting side o.price o → IsLevel side (level o.price (o ∷ []))
  level-IsLevel side o h = record { number = h.number; has_orders = λ e. cc; resting = (h, tt) }

  -- A resting order rests as well at a price of the same rank.
  IsResting-same :
      (side : Side) (p q : D) (o : Order D)
      → rank p ≡ rank q
      → IsResting side p o
      → IsResting side q o
  IsResting-same side p q o e h = record {
    same_side = h.same_side;
    is_limit_order = h.is_limit_order;
    number = h.number;
    same_price = h.same_price ∙ e;
    wanted = h.wanted;
    live = h.live;
  }

  append-IsLevel :
      (side : Side) (l : Level D) (o : Order D)
      → IsLevel side l
      → IsResting side l.price o
      → IsLevel side (level l.price (l.orders ++ o ∷ []))
  append-IsLevel side l o h k = record {
    number = h.number;
    has_orders = append-ne-nil l.orders o;
    resting = All-append (IsResting side l.price) l.orders (o ∷ []) h.resting (k, tt);
  }

  -- A resting order goes to the end of the queue of its price, in a new level if there is none.
  pub push_back-IsSide :
      (side : Side) (o : Order D) (ls : List (Level D))
      → IsResting side o.price o
      → IsSide side ls
      → IsSide side (push_back side o.price o ls)
  unfolding push_back
  push_back-IsSide side o [] h k = ((level-IsLevel side o h, tt), (tt, tt))
  push_back-IsSide side o (l ∷ ls) h k =
      elim (before_cases side o.price l.price h.number k.0.0.number) [
        | inl (e, better) ↦ rw e (
          (level-IsLevel side o h, k.0),
          (
            (better, All-imp _ _ ls (λ m. Better-trans side o.price l.price m.price better) k.1.0),
            k.1,
          ),
        )
        | inr (inl (e, f, worse)) ↦
            let rest = push_back-IsSide side o ls h (k.0.1, k.1.1) in
            rw (e, f)
              (
                (k.0.0, rest.0),
                (push_back-prices (Better ieee side l.price) side o.price o ls worse k.1.0, rest.1),
              )
        | inr (inr (e, f, same)) ↦
            rw (e, f)
              (
                (
                  append-IsLevel side l o k.0.0 (IsResting-same side o.price l.price o same h),
                  k.0.1,
                ),
                k.1,
              )
      ]
