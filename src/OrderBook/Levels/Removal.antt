-- ===== src/OrderBook/Levels/Removal.antt =====
-- Taking orders off a side of the book: what is left is a side of the book again.
use velocore.Base.{
  ℕ, ◌≡◌, inl, inr, ◌⊎◌, List, [], ◌∷◌, none, some, arith, All, Option-cases, Bool-cases, ◌==◌,
  subst,
}
use velocore.Double.{Double, IsIeee}
use velocore.Types.{Side}
use velocore.Order.{Order}
use velocore.Order.Priority.{Better}
use velocore.OrderBook.Levels.{Level, level, keep_level, remove_order, cancel_in}
use velocore.OrderBook.Levels.Valid.{IsResting, IsSide}

module _ {D : Type 0} where
  pub keep_level-prices {κ} :
      (Q : D → Type κ) (p : D) (os : List (Order D)) (ls : List (Level D))
      → Q p
      → All (λ l. Q l.price) ls
      → All (λ l. Q l.price) (keep_level p os ls)
  keep_level-prices Q p [] ls h k = k
  keep_level-prices Q p (o ∷ os) ls h k = (h, k)

  pub remove_order-All {κ} :
      (P : Order D → Type κ) (id : ℕ) (os os' : List (Order D))
      → remove_order id os ≡ some os'
      → All P os
      → All P os'
  unfolding remove_order
  remove_order-All P id [] os' e h = cc
  remove_order-All P id (o ∷ os) os' e h = elim (Bool-cases (o.id == id)) [
    | inl hit ↦ subst (All P) {x = os} (ground arith) h.1
    | inr miss ↦ elim (Option-cases (remove_order id os)) [
      | inl none_left ↦ absurd (ground arith)
      | inr (rest, r) ↦
          let k : All P (o ∷ rest) = (h.0, remove_order-All P id os rest r h.1) in
          subst (All P) {x = o ∷ rest} (ground arith) k
    ]
  ]

  -- A successful `cancel_in` opened: it takes the order from the first level, or goes on.
  cancel_in_cases :
      (id : ℕ) (l : Level D) (ls ls' : List (Level D))
      → cancel_in id (l ∷ ls) ≡ some ls'
      → ((os : List (Order D)) × (remove_order id l.orders ≡ some os)
          × (ls' ≡ keep_level l.price os ls))
        ⊎ ((rest : List (Level D)) × (remove_order id l.orders ≡ none)
            × (cancel_in id ls ≡ some rest)
            × (ls' ≡ l ∷ rest))
  unfolding cancel_in
  cancel_in_cases id l ls ls' e = elim (Option-cases (remove_order id l.orders)) [
    | inr (os, r) ↦ inl (os, r, ground arith)
    | inl r ↦ elim (Option-cases (cancel_in id ls)) [
      | inl c ↦ absurd (ground arith)
      | inr (rest, c) ↦ inr (rest, r, c, ground arith)
    ]
  ]

  pub cancel_in-prices {κ} :
      (Q : D → Type κ) (id : ℕ) (ls ls' : List (Level D))
      → cancel_in id ls ≡ some ls'
      → All (λ l. Q l.price) ls
      → All (λ l. Q l.price) ls'
  unfolding cancel_in
  cancel_in-prices Q id [] ls' e h = cc
  cancel_in-prices Q id (l ∷ ls) ls' e h = elim (cancel_in_cases id l ls ls' e) [
    | inl (os, _, eq) ↦ rw eq (keep_level-prices Q l.price os ls h.0 h.1)
    | inr (rest, _, c, eq) ↦ rw eq (h.0, cancel_in-prices Q id ls rest c h.1)
  ]

module _ {D : Type 0} ⦃d : Double D⦄ (ieee : IsIeee D) where
  pub keep_level-IsSide :
      (side : Side) (p : D) (os os' : List (Order D)) (ls : List (Level D))
      → IsSide ieee side (level p os ∷ ls)
      → All (IsResting ieee side p) os'
      → IsSide ieee side (keep_level p os' ls)
  keep_level-IsSide side p os [] ls h k = (h.0.1, h.1.1)
  keep_level-IsSide side p os (x ∷ os') ls h k =
      ((record { number = h.0.0.number; has_orders = λ e. cc; resting = k }, h.0.1), h.1)

  -- A cancellation leaves a side of the book as one.
  pub cancel_in-IsSide :
      (side : Side) (id : ℕ) (ls ls' : List (Level D))
      → cancel_in id ls ≡ some ls'
      → IsSide ieee side ls
      → IsSide ieee side ls'
  unfolding cancel_in
  cancel_in-IsSide side id [] ls' e h = cc
  cancel_in-IsSide side id (l ∷ ls) ls' e h = elim (cancel_in_cases id l ls ls' e) [
    | inl (os, r, eq) ↦ rw eq (
        keep_level-IsSide side l.price l.orders os ls h
          (remove_order-All _ id l.orders os r h.0.0.resting))
    | inr (rest, _, c, eq) ↦
        let k = cancel_in-IsSide side id ls rest c (h.0.1, h.1.1) in
        rw eq ((h.0.0, k.0), (cancel_in-prices (Better ieee side l.price) id ls rest c h.1.0, k.1))
  ]
