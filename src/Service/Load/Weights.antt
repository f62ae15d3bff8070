-- ===== src/Service/Load/Weights.antt =====
-- The counters of `POST /test/concurrency` (src/main.cpp) before the first move and after the last.
use velocore.Base.{
  ℕ, zero, suc, ◌+◌, ◌≡◌, refl, sym, ap, ◌∙◌, List, [], ◌∷◌, ℤ, pos, ◌+ℤ◌, +ℤ_zero, wrap32,
  wrap32-add, wrap32-eq_self, pos-add, IsInt,
}
use velocore.Service.Load.{Pc, head, finished, spawn}
use velocore.Service.Load.Counting.{tally}
use velocore.Service.Load.Balance.{weigh, Balanced}
use velocore.Service.Load.Done.{AreFinished}

module _ {D : Type 0} where
  -- Threads that have finished hold nothing.
  weigh-finished :
      (w : Pc D → ℤ) (ps : List (Pc D)) → w finished ≡ pos 0 → AreFinished ps → weigh w ps ≡ pos 0
  weigh-finished w [] e h = refl
  weigh-finished w (p ∷ ps) e (over, rest) =
      rw (over, e, weigh-finished w ps e rest) (+ℤ_zero (pos 0))

  pub Balanced-finished :
      (w : Pc D → ℤ) (ps : List (Pc D)) (counter total : ℤ)
      → w finished ≡ pos 0
      → AreFinished ps
      → IsInt counter
      → Balanced w counter ps total
      → counter ≡ wrap32 total
  Balanced-finished w ps counter total e h k b =
      sym (wrap32-eq_self counter k)
      ∙ ap wrap32 (sym (+ℤ_zero counter))
      ∙ ap (λ x. wrap32 (counter +ℤ x)) (sym (weigh-finished w ps e h))
      ∙ b

  pub weigh-pos : (w : Pc D → ℕ) (ps : List (Pc D)) → weigh (λ p. pos (w p)) ps ≡ pos (tally w ps)
  weigh-pos w [] = refl
  weigh-pos w (p ∷ ps) = rw (weigh-pos w ps) (pos-add (w p) (tally w ps))

  -- Threads that begin hold no trades.
  weigh-spawn :
      (w : Pc D → ℤ) (n t : ℕ) → ((i : ℕ) → w (head i) ≡ pos 0) → weigh w (spawn n t) ≡ pos 0
  unfolding spawn
  weigh-spawn w zero t e = refl
  weigh-spawn w (suc n) t e = rw (e t, weigh-spawn w n (t + 1) e) (+ℤ_zero (pos 0))

  pub Balanced-spawn :
      (w : Pc D → ℤ) (n : ℕ) (counter total : ℤ)
      → ((i : ℕ) → w (head i) ≡ pos 0)
      → counter ≡ wrap32 total
      → Balanced w counter (spawn n 0) total
  Balanced-spawn w n counter total e c =
      rw (weigh-spawn w n 0 e, c) (wrap32-add total (pos 0) ∙ ap wrap32 (+ℤ_zero total))
