-- ===== src/Program/Ends.antt =====
-- The start and the end of `main` (src/main.cpp).
use velocore.Base.{
  ◌≡◌, ◌≢◌, ◌↔◌, ◌⊎◌, refl, ap, ◌∙◌, inl, inr, true, false, ◌||◌, not, Option, none, some, String,
  ok, arith, Result-cases,
}
use velocore.Double.{Double}
use velocore.World.{World}
use velocore.Json.{Reader}
use velocore.Config.{configure, defaults}
use velocore.Config.Ready.{complete, configure_iff}
use velocore.Service.{response, plain}
use velocore.Service.Market.{market_subscribe}
use velocore.Feed.{Feed}
use velocore.Program.{boot, make_feed, start_new_feed, shutdown}

module _ {D : Type 0} where
  -- A feed that runs, with its three callbacks.
  abbrev pub IsUp : Feed D → Type 0
  IsUp f =
      (f.running ≡ true)
      × (f.tick_callback ≡ true)
      × (f.connection_callback ≡ true)
      × (f.error_callback ≡ true)

  made-IsUp :
      (w : World)
      → (f : Feed D) × (make_feed (ok tt) w ≡ some f) × IsUp f × (shutdown (some f) ≡ true)
  unfolding make_feed start_new_feed shutdown
  made-IsUp w = (_, refl, (refl, refl, refl, refl), refl)

  -- The program ends regularly exactly if there is no feed, or it is running, or it has no thread. So
  -- it does not for a feed that has given up.
  pub shutdown_iff :
      (f : Feed D) → (shutdown (some f) ≡ true) ↔ (f.running || not f.has_thread ≡ true)
  unfolding shutdown
  shutdown_iff f = ground arith

module _ {J D : Type 0} ⦃d : Double D⦄ (r : Reader J D) where
  -- There are two ways to start. Either the configuration is complete: there is a feed, it runs and
  -- has its three callbacks, and the program can end regularly at once. Or it is not: there is no feed,
  -- and every request to subscribe is answered with 400.
  pub boot_cases :
      (env : String → Option String) (w feed_world : World)
      → let p = boot {D = D} env w feed_world in
        ((complete env defaults ≡ true)
          × ((f : Feed D) × (p.feed ≡ some f) × IsUp f × (shutdown p.feed ≡ true)))
        ⊎ ((complete env defaults ≡ false)
            × (p.feed ≡ none)
            × ((body : String)
                → market_subscribe r body p.feed
                  ≡ (none, response 400 (plain "Market data feed not initialized"))))
  unfolding boot make_feed market_subscribe
  boot_cases env w feed_world = elim (Result-cases (configure env defaults).1) [
    | inl (u, e) ↦
        let (f, made, up, ends) = made-IsUp {D = D} feed_world in
        rw (e, make_feed)
          (inl ((configure_iff env defaults).0 e, (f, made, up, ap shutdown made ∙ ends)))
    | inr (m, e) ↦
        let failed : complete env defaults ≢ true =
          λ c. let fine = (configure_iff env defaults).1 c in cc in
        rw (e, make_feed) (inr (ground arith, refl, λ body. refl))
  ]
