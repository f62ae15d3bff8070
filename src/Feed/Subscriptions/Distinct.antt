-- ===== src/Feed/Subscriptions/Distinct.antt =====
-- The subscriptions of src/MarketDataFeed.cpp: no symbol is kept twice, and an acknowledgement sets
-- exactly the symbols that it names.
use text.Mathlib.TextEquality.{eq_iff}
use text.Mathlib.Text.{◌==◌ as str_eq}
use velocore.Base.{
  ◌≡◌, refl, Bool, false, not, ◌&&◌, ◌||◌, List, [], ◌∷◌, ◌++◌, Option, none, some, String, arith,
}
use velocore.Feed.{Feed, MarketSubscription}
use velocore.Feed.Subscriptions.{
  holds, insert, erase, is_pending, remove_pending, subscribe, unsubscribe, JsonReader, insert_all,
  insert_text, insert_items, collect, process_subscription_ack,
}

abbrev pub Distinct : List String → Type 0
Distinct [] = Unit
Distinct (s ∷ ss) = (holds s ss ≡ false) × Distinct ss

-- No two pending subscriptions are of one symbol, and none is of a symbol that is subscribed to.
abbrev pub IsPendingOf : List String → List MarketSubscription → Type 0
IsPendingOf ss [] = Unit
IsPendingOf ss (p ∷ ps) =
    (holds p.symbol ss ≡ false) × (is_pending p.symbol ps ≡ false) × IsPendingOf ss ps

module _ {D : Type 0} where
  abbrev pub IsSubscribed : Feed D → Type 0
  IsSubscribed f =
      Distinct f.subscribed_symbols × IsPendingOf f.subscribed_symbols f.pending_subscriptions

holds-append :
    (t s : String) (ss : List String) → holds t (ss ++ s ∷ []) ≡ (holds t ss || str_eq s t)
holds-append t s [] = ground arith
holds-append t s (x ∷ ss) = ground (arith, holds-append t s ss)

holds-insert :
    (t s : String) (ss : List String) → holds t (insert s ss) ≡ (holds t ss || str_eq s t)
holds-insert t s ss = ground (arith, holds-append t s ss, eq_iff s t)

append-Distinct :
    (s : String) (ss : List String) → holds s ss ≡ false → Distinct ss → Distinct (ss ++ s ∷ [])
append-Distinct s [] h v = ground arith
append-Distinct s (x ∷ ss) h v =
    ground (arith, holds-append x s ss, eq_iff s x, eq_iff x s, append-Distinct s ss)

insert-Distinct : (s : String) (ss : List String) → Distinct ss → Distinct (insert s ss)
insert-Distinct s ss v = ground (arith, append-Distinct s ss)

holds-erase :
    (t s : String) (ss : List String) → holds t (erase s ss) ≡ (holds t ss && not (str_eq s t))
holds-erase t s [] = refl
holds-erase t s (x ∷ ss) = ground (arith, holds-erase t s ss, eq_iff x s, eq_iff x t, eq_iff s t)

erase-Distinct : (s : String) (ss : List String) → Distinct ss → Distinct (erase s ss)
erase-Distinct s [] v = tt
erase-Distinct s (x ∷ ss) v = ground (arith, erase-Distinct s ss v.1, holds-erase x s ss)

is_pending-append :
    (t : String) (ps : List MarketSubscription) (p : MarketSubscription)
    → is_pending t (ps ++ p ∷ []) ≡ (is_pending t ps || str_eq p.symbol t)
is_pending-append t [] p = ground arith
is_pending-append t (x ∷ ps) p = ground (arith, is_pending-append t ps p)

append-IsPendingOf :
    (ss : List String) (ps : List MarketSubscription) (p : MarketSubscription)
    → holds p.symbol ss ≡ false
    → is_pending p.symbol ps ≡ false
    → IsPendingOf ss ps
    → IsPendingOf ss (ps ++ p ∷ [])
append-IsPendingOf ss [] p h k v = ground arith
append-IsPendingOf ss (x ∷ ps) p h k v = ground (
  arith,
  is_pending-append x.symbol ps p,
  eq_iff p.symbol x.symbol,
  eq_iff x.symbol p.symbol,
  append-IsPendingOf ss ps p h,
)

is_pending-remove :
    (t s : String) (ps : List MarketSubscription)
    → is_pending t ps ≡ false
    → is_pending t (remove_pending s ps) ≡ false
is_pending-remove t s [] h = refl
is_pending-remove t s (x ∷ ps) h = ground (arith, is_pending-remove t s ps)

remove-IsPendingOf :
    (s : String) (ss : List String) (ps : List MarketSubscription)
    → IsPendingOf ss ps
    → IsPendingOf (erase s ss) (remove_pending s ps)
remove-IsPendingOf s ss [] v = tt
remove-IsPendingOf s ss (x ∷ ps) v =
    ground (
      arith,
      remove-IsPendingOf s ss ps,
      holds-erase x.symbol s ss,
      is_pending-remove x.symbol s ps,
    )

module _ {D : Type 0} where
  pub subscribe-IsSubscribed :
      (symbol : String) (trades quotes bars : Bool) (f : Feed D)
      → IsSubscribed f
      → IsSubscribed (subscribe symbol trades quotes bars f)
  unfolding subscribe
  subscribe-IsSubscribed symbol trades quotes bars f v = ground (
    arith,
    append-IsPendingOf f.subscribed_symbols f.pending_subscriptions
        (record { symbol = symbol; trades = trades; quotes = quotes; bars = bars }),
  )

  pub unsubscribe-IsSubscribed :
      (symbol : String) (f : Feed D) → IsSubscribed f → IsSubscribed (unsubscribe symbol f)
  unfolding unsubscribe
  unsubscribe-IsSubscribed symbol f v = ground (
    arith,
    erase-Distinct symbol f.subscribed_symbols,
    remove-IsPendingOf symbol f.subscribed_symbols f.pending_subscriptions,
  )

module _ {J D : Type 0} (r : JsonReader J D) where
  -- Whether a channel of a message names a symbol.
  abbrev is_text : Option String → String → Bool
  is_text none symbol = false
  is_text (some s) symbol = str_eq s symbol

  abbrev named_by : List J → String → Bool
  named_by [] symbol = false
  named_by (j ∷ js) symbol = is_text (r.text_of j) symbol || named_by js symbol

  abbrev named_in : Option (List J) → String → Bool
  named_in none symbol = false
  named_in (some js) symbol = named_by js symbol

  abbrev pub in_channel : J → String → String → Bool
  in_channel message symbol key =
      r.contains message key && named_in (r.items (r.member message key)) symbol

  insert_text-Distinct :
      (o : Option String) (ss : List String) → Distinct ss → Distinct (insert_text o ss)
  insert_text-Distinct none ss v = v
  insert_text-Distinct (some s) ss v = insert-Distinct s ss v

  holds-insert_text :
      (symbol : String) (o : Option String) (ss : List String)
      → holds symbol (insert_text o ss) ≡ (holds symbol ss || is_text o symbol)
  holds-insert_text symbol none ss = ground arith
  holds-insert_text symbol (some s) ss = holds-insert symbol s ss

  insert_all-Distinct :
      (js : List J) (ss : List String) → Distinct ss → Distinct (insert_all r js ss)
  insert_all-Distinct [] ss v = v
  insert_all-Distinct (j ∷ js) ss v =
      insert_all-Distinct js (insert_text (r.text_of j) ss)
        (insert_text-Distinct (r.text_of j) ss v)

  holds-insert_all :
      (symbol : String) (js : List J) (ss : List String)
      → holds symbol (insert_all r js ss) ≡ (holds symbol ss || named_by js symbol)
  holds-insert_all symbol [] ss = ground arith
  holds-insert_all symbol (j ∷ js) ss = ground (
    arith,
    holds-insert_all symbol js (insert_text (r.text_of j) ss),
    holds-insert_text symbol (r.text_of j) ss,
  )

  insert_items-Distinct :
      (o : Option (List J)) (ss : List String) → Distinct ss → Distinct (insert_items r o ss)
  insert_items-Distinct none ss v = v
  insert_items-Distinct (some js) ss v = insert_all-Distinct js ss v

  holds-insert_items :
      (symbol : String) (o : Option (List J)) (ss : List String)
      → holds symbol (insert_items r o ss) ≡ (holds symbol ss || named_in o symbol)
  holds-insert_items symbol none ss = ground arith
  holds-insert_items symbol (some js) ss = holds-insert_all symbol js ss

  holds-collect :
      (message : J) (symbol key : String) (ss : List String)
      → holds symbol (collect r message key ss) ≡ (holds symbol ss || in_channel message symbol key)
  unfolding collect
  holds-collect message symbol key ss =
      ground (arith, holds-insert_items symbol (r.items (r.member message key)) ss)

  collect-Distinct :
      (message : J) (key : String) (ss : List String)
      → Distinct ss
      → Distinct (collect r message key ss)
  unfolding collect
  collect-Distinct message key ss v =
      ground (arith, insert_items-Distinct (r.items (r.member message key)) ss)

  -- After an acknowledgement exactly those symbols are subscribed to that one of the five channels of
  -- the message names, whatever was subscribed to before, and nothing is pending.
  pub process_subscription_ack_lem :
      (message : J) (f : Feed D) (symbol : String)
      → (holds symbol (process_subscription_ack r message f).subscribed_symbols ≡ (
          in_channel message symbol "trades"
          || in_channel message symbol "quotes"
          || in_channel message symbol "bars"
          || in_channel message symbol "dailyBars"
          || in_channel message symbol "updatedBars"))
        × ((process_subscription_ack r message f).pending_subscriptions ≡ [])
  unfolding process_subscription_ack
  process_subscription_ack_lem message f symbol =
      let s1 = collect r message "trades" [] in
      let s2 = collect r message "quotes" s1 in
      let s3 = collect r message "bars" s2 in
      let s4 = collect r message "dailyBars" s3 in
      (
        ground (
          arith,
          holds-collect message symbol "trades" [],
          holds-collect message symbol "quotes" s1,
          holds-collect message symbol "bars" s2,
          holds-collect message symbol "dailyBars" s3,
          holds-collect message symbol "updatedBars" s4,
        ),
        refl,
      )

  pub process_subscription_ack-IsSubscribed :
      (message : J) (f : Feed D) → IsSubscribed (process_subscription_ack r message f)
  unfolding process_subscription_ack
  process_subscription_ack-IsSubscribed message f = (
    collect-Distinct message "updatedBars" _ (
        collect-Distinct message "dailyBars" _ (
          collect-Distinct message "bars" _
            (collect-Distinct message "quotes" _ (collect-Distinct message "trades" [] tt)))),
    tt,
  )
