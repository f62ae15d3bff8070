-- ===== src/Order/Lifecycle.antt =====
-- `Order::fill` and `Order::cancel` (src/models/impl/Order.cpp): quantities and statuses.
use velocore.Base.{
  ◌≡◌, ◌≢◌, ◌↔◌, ok, arith, ℤ, pos, ◌-ℤ◌, ◌≤ℤ◌, ◌<ℤ◌, ◌+ℤ◌, -ℤ_parts, sub-add_cancel, sub-sub,
  eq_of_parts, eqb_ℤ, if◌then◌else◌,
}
use velocore.Types.{OrderStatus}
use velocore.Order.{Order, fill, cancel, filled_quantity}

-- What the status says of the quantities, in an order of a positive quantity.
abbrev pub StatusSays : OrderStatus → ℤ → ℤ → Type 0
StatusSays OrderStatus.active quantity left = left ≡ quantity
StatusSays OrderStatus.partially_filled quantity left = (pos 0 <ℤ left) × (left <ℤ quantity)
StatusSays OrderStatus.filled quantity left = left ≡ pos 0
StatusSays OrderStatus.cancelled quantity left = (pos 0 <ℤ left) × (left ≤ℤ quantity)

module _ {D : Type 0} where
  -- An order whose quantity, remaining quantity and status agree.
  pub record IsConsistent (o : Order D) : Type 0 where
    pub positive : pos 0 <ℤ o.quantity
    pub remaining_nonneg : pos 0 ≤ℤ o.remaining_quantity
    pub remaining-le : o.remaining_quantity ≤ℤ o.quantity
    pub says : StatusSays o.status o.quantity o.remaining_quantity

  -- `fill` succeeds exactly for a quantity from 1 to the remaining one.
  pub fill_iff :
      (o : Order D) (q : ℤ)
      → ((o' : Order D) × (fill o q ≡ ok o')) ↔ ((pos 0 <ℤ q) × (q ≤ℤ o.remaining_quantity))
  unfolding fill
  fill_iff o q = (
    λ (o', e). ground arith,
    λ h. (
      record o {
        remaining_quantity = o.remaining_quantity -ℤ q;
        status =
            if eqb_ℤ (o.remaining_quantity -ℤ q) (pos 0)
            then OrderStatus.filled
            else OrderStatus.partially_filled;
      },
      ground arith,
    ),
  )

  -- A successful `fill` moves the quantity from remaining to filled, sets the status to filled or
  -- partially filled as the rest is zero or not, and changes nothing else.
  pub fill_effect :
      (o o' : Order D) (q : ℤ)
      → fill o q ≡ ok o'
      → (o'.remaining_quantity +ℤ q ≡ o.remaining_quantity)
        × (filled_quantity o' ≡ filled_quantity o +ℤ q)
        × ((o'.status ≡ OrderStatus.filled) ↔ (o'.remaining_quantity ≡ pos 0))
        × ((o'.status ≡ OrderStatus.partially_filled) ↔ (o'.remaining_quantity ≢ pos 0))
        × (o' ≡ record o { remaining_quantity = o'.remaining_quantity; status = o'.status })
  unfolding fill filled_quantity
  fill_effect o o' q e = ground (
    arith,
    -ℤ_parts o.remaining_quantity q,
    sub-add_cancel o.remaining_quantity q,
    sub-sub o.quantity o.remaining_quantity q,
    eq_of_parts (o.remaining_quantity -ℤ q) (pos 0),
  )

  -- A successful `fill` of a consistent order leaves a consistent order: its status still says what
  -- is left of its quantity.
  pub fill-IsConsistent :
      (o o' : Order D) (q : ℤ) → IsConsistent o → fill o q ≡ ok o' → IsConsistent o'
  unfolding fill
  fill-IsConsistent o o' q v e =
      ground
        (arith, -ℤ_parts o.remaining_quantity q, eq_of_parts (o.remaining_quantity -ℤ q) (pos 0))

  -- `cancel` of a consistent order leaves a consistent order, of whatever status it was.
  pub cancel-IsConsistent : (o : Order D) → IsConsistent o → IsConsistent (cancel o)
  unfolding cancel
  cancel-IsConsistent o v = ground arith
