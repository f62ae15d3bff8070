-- ===== src/Program/Told.antt =====
-- The ticks that the feed of src/main.cpp has told, step by step.
use velocore.Base.{
  ◌≡◌, refl, sym, ap, ◌∙◌, Bool, List, [], ◌∷◌, ◌++◌, Option, none, some, String, arith, drop,
  drop-append, length, if◌then◌else◌,
}
use mathlib.Core.List.{append-nil}
use text.Mathlib.Text.{◌==◌ as str_eq}
use velocore.Tick.{MarketTick}
use velocore.Service.Ticks.{last_of}
use velocore.Feed.{Feed, Effect, posts, send_subscription}
use velocore.Feed.Subscriptions.{subscribe}
use velocore.Feed.Session.Stopped.{told_ticks, told_ticks-append}
use velocore.Program.{told_since}

module _ {D : Type 0} where
  pub last_of-append :
      (symbol : String) (ts us : List (MarketTick D)) (old : Option (MarketTick D))
      → last_of symbol (ts ++ us) old ≡ last_of symbol us (last_of symbol ts old)
  last_of-append symbol [] us old = refl
  last_of-append symbol (t ∷ ts) us old =
      last_of-append symbol ts us (if str_eq t.symbol symbol then some t else old)

  -- A step of the feed tells what it adds.
  pub told_since-appended :
      (f g : Feed D) (fresh : List (Effect D))
      → g.effects ≡ f.effects ++ fresh
      → told_ticks g.effects ≡ told_ticks f.effects ++ told_since f g
  told_since-appended f g fresh e =
      let told = ap told_ticks e ∙ told_ticks-append f.effects fresh in
      told
      ∙ ap (λ ts. told_ticks f.effects ++ ts)
          (sym (
            ap (drop (length (told_ticks f.effects))) told
            ∙ drop-append (told_ticks f.effects) (told_ticks fresh)))

  pub subscribe-told :
      (symbol : String) (t q b : Bool) (f : Feed D)
      → told_ticks (subscribe symbol t q b f).effects ≡ told_ticks f.effects
  unfolding subscribe
  subscribe-told symbol t q b f = ground (
    arith,
    told_ticks-append f.effects (posts send_subscription ∷ []),
    append-nil (told_ticks f.effects),
  )

  -- All the ticks that the feed has told, none if there is no feed.
  abbrev pub told_by : Option (Feed D) → List (MarketTick D)
  told_by none = []
  told_by (some f) = told_ticks f.effects
