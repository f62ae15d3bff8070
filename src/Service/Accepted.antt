-- ===== src/Service/Accepted.antt =====
-- `POST /orders` of src/main.cpp: which bodies are accepted, and what a refusal leaves.
use text.Mathlib.TextEquality.{eq_iff}
use velocore.Base.{
  ℕ, ◌≡◌, ◌≢◌, ◌↔◌, ◌⊎◌, refl, inl, inr, Bool, false, none, some, String, Result, ok, throws, ◌>>=◌,
  ℤ, pos, ◌<ℤ◌, wrap32, arith, Result-cases, Option-cases,
}
use velocore.Double.{Double}
use velocore.World.{World}
use velocore.Types.{Side, OrderType, OrderStatus, side_from_string, order_type_from_string}
use velocore.Order.{Order, order_from_json, new_order}
use velocore.Json.{Reader}
use velocore.Service.{Service, validate_order}
use velocore.Service.Orders.{Request, read_request, accept, submit, post_orders}

module _ {D : Type 0} ⦃d : Double D⦄ where
  -- An order passes the checks exactly if its quantity is positive, its symbol is not empty, and its
  -- price, if it is a limit order, is not zero or less.
  validate_order_iff :
      (symbol : String) (side : Side) (type : OrderType) (price : D) (quantity : ℤ)
      → (validate_order symbol side type price quantity ≡ none) ↔ (
          (pos 0 <ℤ quantity)
          × (type ≡ OrderType.limit → d.le price d.nought ≡ false)
          × (symbol ≢ ""))
  unfolding validate_order
  validate_order_iff symbol side OrderType.limit price quantity = ground (arith, eq_iff symbol "")
  validate_order_iff symbol side OrderType.market price quantity = ground (arith, eq_iff symbol "")

  -- What an accepted order is like: new, of a positive quantity, with a symbol, and at a price that is
  -- not zero or less if it is a limit order.
  pub record IsAccepted (o : Order D) : Type 0 where
    pub positive : pos 0 <ℤ o.quantity
    pub whole : o.remaining_quantity ≡ o.quantity
    pub active : o.status ≡ OrderStatus.active
    pub named : o.symbol ≢ ""
    pub priced : o.type ≡ OrderType.limit → d.le o.price d.nought ≡ false

module _ {D : Type 0} where
  -- The order that `from_json` makes has the members that the handler has checked.
  abbrev Matches : Request D → Order D → Type 0
  Matches q o =
      (o.symbol ≡ q.symbol)
      × (o.type ≡ q.type)
      × (o.price ≡ q.price)
      × (o.quantity ≡ q.quantity)
      × (o.remaining_quantity ≡ o.quantity)
      × (o.status ≡ OrderStatus.active)

module _ {J D : Type 0} ⦃d : Double D⦄ (r : Reader J D) (clock : ℕ → ℕ) where
  -- The handler and `from_json` read the same members.
  same_results :
      (w w' : World) (q : Request D) (o : Order D) (client_id : Result ℕ) (symbol : Result String)
      (side : Result Side) (type : Result OrderType) (price : Result D) (quantity : Result ℤ)
      → (symbol >>= λ symbol. side >>= λ side. type >>= λ type. price >>= λ price.
          quantity >>= λ quantity. ok (record {
            symbol = symbol;
            side = side;
            type = type;
            price = price;
            quantity = wrap32 quantity;
          }))
        ≡ ok q
      → (client_id >>= λ id. symbol >>= λ symbol. side >>= λ side. type >>= λ type.
          price >>= λ price. quantity >>= λ quantity.
          ok (new_order clock id symbol side type price (wrap32 quantity) w))
        ≡ ok (o, w')
      → Matches q o × (price ≡ ok o.price)
  unfolding new_order
  same_results w w' q o (ok i) (ok s) (ok d) (ok t) (ok p) (ok n) e f = ground arith
  same_results w w' q o (throws m) s d t p n e f = ground arith
  same_results w w' q o (ok i) (throws m) d t p n e f = ground arith
  same_results w w' q o (ok i) (ok s) (throws m) t p n e f = ground arith
  same_results w w' q o (ok i) (ok s) (ok d) (throws m) p n e f = ground arith
  same_results w w' q o (ok i) (ok s) (ok d) (ok t) (throws m) n e f = ground arith
  same_results w w' q o (ok i) (ok s) (ok d) (ok t) (ok p) (throws m) e f = ground arith

  same_members :
      (body : J) (w w' : World) (q : Request D) (o : Order D)
      → read_request ⦃r = r⦄ body ≡ ok q
      → order_from_json ⦃r = r⦄ clock body w ≡ ok (o, w')
      → Matches q o × ((r.at body "price" >>= r.as_double) ≡ ok o.price)
  unfolding read_request order_from_json
  same_members body w w' q o e f =
      same_results w w' q o (r.at body "client_id" >>= r.as_uint) (r.at body "symbol" >>= r.as_text)
        (r.at body "side" >>= r.as_text >>= side_from_string)
        (r.at body "type" >>= r.as_text >>= order_type_from_string)
        (r.at body "price" >>= r.as_double) (r.at body "quantity" >>= r.as_int) e f

  -- What `accept` makes is accepted, and its price is the one that the body holds.
  accept-parts :
      (body : J) (w w' : World) (o : Order D)
      → accept r clock body w ≡ ok (o, w')
      → IsAccepted o × ((r.at body "price" >>= r.as_double) ≡ ok o.price)
  unfolding accept
  accept-parts body w w' o e = elim (Result-cases (read_request ⦃r = r⦄ body)) [
    | inr (m, f) ↦
        let failed : ◌≡◌ {A = Result (Order D × World)} (throws m) (ok (o, w')) =
          rw (f, accept) at e in
        ground arith
    | inl (q, f) ↦ elim (Option-cases (validate_order q.symbol q.side q.type q.price q.quantity)) [
      | inr (m, g) ↦
          let failed : ◌≡◌ {A = Result (Order D × World)} (throws m) (ok (o, w')) =
            rw (f, g, accept) at e in
          ground arith
      | inl g ↦
          let made : order_from_json ⦃r = r⦄ clock body w ≡ ok (o, w') = rw (f, g, accept) at e in
          let (same, price) = same_members body w w' q o f made in
          let valid = (validate_order_iff q.symbol q.side q.type q.price q.quantity).0 g in
          let accepted : IsAccepted o = record {
            positive = rw same.3 valid.0;
            whole = same.4;
            active = same.5;
            named = rw same.0 valid.2;
            priced = rw (same.1, same.2) valid.1;
          } in
          (accepted, price)
    ]
  ]

  pub accept-IsAccepted :
      (body : J) (w w' : World) (o : Order D) → accept r clock body w ≡ ok (o, w') → IsAccepted o
  accept-IsAccepted body w w' o e = (accept-parts body w w' o e).0

  -- A price that is read as a number is one.
  pub accept-number :
      (is_nan : D → Bool)
      → ((j : J) (x : D) → r.as_double j ≡ ok x → is_nan x ≡ false)
      → (body : J) (w w' : World) (o : Order D) → accept r clock body w ≡ ok (o, w')
      → is_nan o.price ≡ false
  accept-number is_nan reads body w w' o e =
      let price = (accept-parts body w w' o e).1 in
      elim (Result-cases (r.at body "price")) [
        | inl (j, f) ↦ reads j o.price (rw f at price)
        | inr (m, f) ↦
            let failed : ◌≡◌ {A = Result D} (throws m) (ok o.price) = rw f at price in ground arith
      ]

  -- Every body gets one of two answers. Either the answer is 400 and nothing has changed; or it is
  -- 201, the body is JSON and makes an order that passes the checks, and the state is the one that
  -- submitting this order leaves.
  pub post_orders_cases :
      (body : String) (s : Service D)
      → let (s', answer) = post_orders r clock body s in
        ((answer.code ≡ 400) × (s' ≡ s))
        ⊎ ((answer.code ≡ 201)
            × ((parsed : J) × (o : Order D) × (w : World) × (r.load body ≡ some parsed)
                × (accept r clock parsed s.world ≡ ok (o, w))
                × IsAccepted o
                × (s' ≡ (submit clock o w s).0)))
  unfolding post_orders
  post_orders_cases body s = elim (Option-cases (r.load body)) [
    | inl e ↦ rw (e, post_orders) (inl (refl, refl))
    | inr (parsed, e) ↦ elim (Result-cases (accept r clock parsed s.world)) [
      | inr (m, f) ↦ rw (e, f, post_orders) (inl (refl, refl))
      | inl ((o, w), f) ↦
          rw (e, f, post_orders)
            (inr (refl, (parsed, o, w, refl, f, accept-IsAccepted parsed s.world w o f, refl)))
    ]
  ]
