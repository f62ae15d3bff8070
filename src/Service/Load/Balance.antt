-- ===== src/Service/Load/Balance.antt =====
-- The shared counters of `POST /test/concurrency` (src/main.cpp) against what the threads still hold.
use velocore.Base.{
  ◌≡◌, refl, sym, ap, ◌∙◌, List, [], ◌∷◌, ◌++◌, ℤ, pos, ◌+ℤ◌, +ℤ_assoc, add32, wrap32, wrap32-add,
  int_laws,
}

-- A sum of integers over the threads.
abbrev pub weigh {ℓ} : {A : Type ℓ} → (A → ℤ) → List A → ℤ
weigh w [] = pos 0
weigh w (p ∷ ps) = w p +ℤ weigh w ps

module _ {ℓ} {A : Type ℓ} (w : A → ℤ) where
  weigh-mid :
      (ahead : List A) (p : A) (behind : List A)
      → weigh w (ahead ++ p ∷ behind) ≡ w p +ℤ weigh w (ahead ++ behind)
  weigh-mid [] p behind = refl
  weigh-mid (q ∷ ahead) p behind = rw (weigh-mid ahead p behind) (omega int_laws)

  -- What an `int` counter says and what the threads still hold make up a total.
  abbrev pub Balanced : ℤ → List A → ℤ → Type 0
  Balanced counter ps total = wrap32 (counter +ℤ weigh w ps) ≡ wrap32 total

  -- A move of one thread that brings in `fresh`.
  abbrev pub Carries : ℤ → A → ℤ → A → ℤ → Type 0
  Carries counter p counter' p' fresh = wrap32 (counter' +ℤ w p') ≡ wrap32 (counter +ℤ w p +ℤ fresh)

  -- The rest of the threads stays out of it.
  add_rest : (a b rest : ℤ) → wrap32 a ≡ wrap32 b → wrap32 (a +ℤ rest) ≡ wrap32 (b +ℤ rest)
  add_rest a b rest e = sym (wrap32-add a rest) ∙ ap (λ x. wrap32 (x +ℤ rest)) e ∙ wrap32-add b rest

  pub Carries-Balanced :
      (ahead : List A) (p : A) (behind : List A) (p' : A) (counter counter' total fresh : ℤ)
      → Carries counter p counter' p' fresh
      → Balanced counter (ahead ++ p ∷ behind) total
      → Balanced counter' (ahead ++ p' ∷ behind) (total +ℤ fresh)
  Carries-Balanced ahead p behind p' counter counter' total fresh c b =
      let rest = weigh w (ahead ++ behind) in
      let before : counter' +ℤ weigh w (ahead ++ p' ∷ behind) ≡ counter' +ℤ w p' +ℤ rest =
        rw (weigh-mid ahead p' behind) (sym (+ℤ_assoc counter' (w p') rest)) in
      let after : counter +ℤ w p +ℤ fresh +ℤ rest
          ≡ counter +ℤ weigh w (ahead ++ p ∷ behind) +ℤ fresh =
        rw (weigh-mid ahead p behind) (omega int_laws) in
      ap wrap32 before
      ∙ add_rest (counter' +ℤ w p') (counter +ℤ w p +ℤ fresh) rest c
      ∙ ap wrap32 after
      ∙ add_rest (counter +ℤ weigh w (ahead ++ p ∷ behind)) total fresh b

-- A thread that hands `x` over to the counter brings in nothing.
pub add32-carries :
    (counter x y : ℤ) → wrap32 (add32 counter x +ℤ y) ≡ wrap32 (counter +ℤ (x +ℤ y) +ℤ pos 0)
add32-carries counter x y = wrap32-add (counter +ℤ x) y ∙ ap wrap32 (omega int_laws)
