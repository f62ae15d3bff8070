-- ===== src/Service/Load/Request.antt =====
-- The handler of `POST /test/concurrency` (src/main.cpp) around its threads: what it reads, and what
-- it answers when all have been joined.
use velocore.Base.{
  [], ◌∷◌, none, some, String, Result, ok, throws, ◌>>=◌, ◌||◌, ℤ, pos, wrap32, leb_ℤ, ltb_ℤ, ◌≡◌,
  ◌⊎◌, inl, inr, refl, sym, ◌≤ℤ◌, ◌<ℤ◌, arith, Option-cases, Result-cases, Bool-cases,
  if◌then◌else◌,
}
use velocore.Double.{Double}
use velocore.Trade.{statistics_to_json}
use velocore.Json.{text, int, number, obj, Reader}
use velocore.OrderBook.Queries.{get_book_snapshot}
use velocore.Service.{Response, response, plain, json}
use velocore.Service.Orders.{error_json}
use velocore.Service.Load.{Load}

-- The two numbers of the body.
pub record LoadRequest : Type 0 where
  pub num_orders : ℤ
  pub num_threads : ℤ

-- A response at once, or a test to run.
pub data Opening (D : Type 0) : Type 0 where
  refused : Response D → Opening D
  opened : LoadRequest → Opening D

module _ {J D : Type 0} (r : Reader J D) where
  -- Four threads if the body does not say.
  unfoldable pub read_load : J → Result LoadRequest
  read_load body = do
    orders ← r.at body "num_orders" >>= r.as_int
    threads ←
        (if r.has body "num_threads" then r.at body "num_threads" >>= r.as_int else ok (pos 4))
    ok (record { num_orders = wrap32 orders; num_threads = wrap32 threads })

  -- The number of threads is not checked.
  check_load : Result LoadRequest → Opening D
  check_load (throws e) = refused (response 500 (json (error_json e)))
  check_load (ok q) =
      if leb_ℤ q.num_orders (pos 0) || ltb_ℤ (pos 1000) q.num_orders
      then refused (response 400 (plain "num_orders must be between 1 and 1000"))
      else opened q

  -- The handler up to the loop that makes the threads.
  unfoldable pub test_concurrency : String → Opening D
  unfolding read_load check_load
  test_concurrency body = elim (r.load body) [
    | none ↦ refused (response 400 (plain "Invalid JSON"))
    | some parsed ↦ check_load (read_load parsed)
  ]

module _ {D : Type 0} ⦃d : Double D⦄ where
  -- The response when all threads have been joined, after that many milliseconds.
  unfoldable pub load_response : LoadRequest → ℤ → Load D → Response D
  unfolding get_book_snapshot statistics_to_json
  load_response q duration m = response 200 (
      json (
        obj (
          ("status", text "completed")
          ∷ ("orders_submitted", int m.completed_orders)
          ∷ ("trades_generated", int m.total_trades)
          ∷ ("duration_ms", int (wrap32 duration))
          ∷ ("threads_used", int q.num_threads)
          ∷ (
            "orders_per_second",
            number (
                d.div (d.mul (d.of_int m.completed_orders) (d.of_int (pos 1000)))
                  (d.of_int duration)),
          )
          ∷ ("final_book_state", get_book_snapshot 3 m.service.order_book)
          ∷ ("final_statistics", statistics_to_json m.service.stats)
          ∷ [])))

module _ {J D : Type 0} (r : Reader J D) where
  -- A number of orders that is out of range.
  abbrev pub OutOfRange : LoadRequest → Type 0
  OutOfRange q = (q.num_orders ≤ℤ pos 0) ⊎ (pos 1000 <ℤ q.num_orders)

  abbrev pub Unfit : String → Type 0
  Unfit body =
      (r.load body ≡ none)
      ⊎ ((parsed : J) × (q : LoadRequest) × (r.load body ≡ some parsed)
          × (read_load r parsed ≡ ok q)
          × OutOfRange q)

  abbrev pub Unreadable : String → Type 0
  Unreadable body =
      (parsed : J) × (e : String) × (r.load body ≡ some parsed) × (read_load r parsed ≡ throws e)

  abbrev pub Fit : String → LoadRequest → Type 0
  Fit body q =
      (parsed : J) × (r.load body ≡ some parsed)
      × (read_load r parsed ≡ ok q)
      × (pos 1 ≤ℤ q.num_orders)
      × (q.num_orders ≤ℤ pos 1000)

  check_load_cases :
      (q : LoadRequest)
      → ((answer : Response D) × (check_load r (ok q) ≡ refused answer)
          × (answer.code ≡ 400)
          × OutOfRange q)
        ⊎ ((check_load {D = D} r (ok q) ≡ opened q)
            × (pos 1 ≤ℤ q.num_orders)
            × (q.num_orders ≤ℤ pos 1000))
  unfolding check_load
  check_load_cases q =
      elim (Bool-cases (leb_ℤ q.num_orders (pos 0) || ltb_ℤ (pos 1000) q.num_orders)) [
        | inl bad ↦ rw bad (inl (_, refl, refl, ground arith))
        | inr good ↦ rw good (inr (refl, ground arith, ground arith))
      ]

  -- A test is refused with 400 if the body is no JSON or the number of orders is not from 1 to 1000,
  -- and with 500 if an access throws; otherwise it runs. The number of threads plays no part in it.
  pub test_concurrency_cases :
      (body : String)
      → ((answer : Response D) × (test_concurrency r body ≡ refused answer)
          × (answer.code ≡ 400)
          × Unfit body)
        ⊎ ((answer : Response D) × (test_concurrency r body ≡ refused answer)
            × (answer.code ≡ 500)
            × Unreadable body)
        ⊎ ((q : LoadRequest) × (test_concurrency r body ≡ opened q) × Fit body q)
  unfolding test_concurrency check_load
  test_concurrency_cases body = elim (Option-cases (r.load body)) [
    | inl e ↦ rw (e, test_concurrency) (inl (_, refl, refl, inl refl))
    | inr (parsed, e) ↦ elim (Result-cases (read_load r parsed)) [
      | inr (m, f) ↦ rw (e, f, test_concurrency) (inr (inl (_, refl, refl, (parsed, m, refl, f))))
      | inl (q, f) ↦ elim (check_load_cases q) [
        | inl (answer, g, code, out) ↦
            rw (e, f, test_concurrency) (inl (answer, g, code, inr (parsed, q, refl, f, out)))
        | inr (g, low, high) ↦
            rw (e, f, test_concurrency) (inr (inr (q, g, (parsed, refl, f, low, high))))
      ]
    ]
  ]

  -- A test that runs has a number of orders in range.
  pub opened-bounds :
      (body : String) (q : LoadRequest)
      → test_concurrency {D = D} r body ≡ opened q
      → (pos 1 ≤ℤ q.num_orders) × (q.num_orders ≤ℤ pos 1000)
  opened-bounds body q e = elim (test_concurrency_cases body) [
    | inl (answer, f, code, why) ↦ absurd cc
    | inr (inl (answer, f, code, why)) ↦ absurd cc
    | inr (inr (q', f, (parsed, loads, reads, low, high))) ↦
        let same : q' ≡ q = cc in rw (sym same) (low, high)
  ]
