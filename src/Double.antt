-- ===== src/Double.antt =====
-- What the code does with a `double`: its constants, comparisons and arithmetic, as an interface.
-- The prices and amounts of every module are of any type with these operations.
use velocore.Base.{
  ℕ, ◌+◌, ◌-◌, ◌*◌, ◌/◌, ◌≡◌, refl, Bool, true, false, not, ◌&&◌, Option, none, some, arith, ltb,
  leb, ◌==◌, ℤ, pos, negsuc,
}

-- `a > b` is `lt b a`, `a >= b` is `le b a`, `a != b` is `not (eq a b)`.
pub record Double (D : Type 0) : Type 0 where
  pub nought : D
  pub lt : D → D → Bool
  pub le : D → D → Bool
  pub eq : D → D → Bool
  pub add : D → D → D
  pub sub : D → D → D
  pub mul : D → D → D
  pub div : D → D → D
  pub of_int : ℤ → D
  pub max_value : D
  pub lowest : D

-- IEEE 754: a comparison with NaN fails, and all other values stand in one order, which is given
-- here by a rank (0.0 and -0.0 have the same one).
pub record IsIeee (D : Type 0) ⦃d : Double D⦄ : Type 0 where
  pub is_nan : D → Bool
  pub rank : D → ℕ
  pub lt-eq-ltb : (x y : D) → d.lt x y ≡ (not (is_nan x) && not (is_nan y) && ltb (rank x) (rank y))
  pub le-eq-leb : (x y : D) → d.le x y ≡ (not (is_nan x) && not (is_nan y) && leb (rank x) (rank y))
  pub eq-eq-beq : (x y : D) → d.eq x y ≡ (not (is_nan x) && not (is_nan y) && rank x == rank y)
  pub nought_number : is_nan d.nought ≡ false
  pub max_value_number : is_nan d.max_value ≡ false
  pub lowest_number : is_nan d.lowest ≡ false
  pub sum_number : (m n : ℕ) → is_nan (d.add (d.of_int (pos m)) (d.of_int (pos n))) ≡ false

-- The laws can be met: whole cents, with `none` for NaN.
abbrev pub Cents : Type 0
Cents = Option ℕ

abbrev pub compare_cents : (ℕ → ℕ → Bool) → Cents → Cents → Bool
compare_cents f (some a) (some b) = f a b
compare_cents f _ _ = false

abbrev pub combine_cents : (ℕ → ℕ → ℕ) → Cents → Cents → Cents
combine_cents f (some a) (some b) = some (f a b)
combine_cents f _ _ = none

abbrev pub cents_of_int : ℤ → Cents
cents_of_int (pos n) = some n
cents_of_int (negsuc n) = none

instance abbrev pub cents_double : Double Cents
cents_double = record {
  nought = some 0;
  lt = compare_cents ltb;
  le = compare_cents leb;
  eq = compare_cents ◌==◌;
  add = combine_cents ◌+◌;
  sub = combine_cents ◌-◌;
  mul = combine_cents ◌*◌;
  div = combine_cents ◌/◌;
  of_int = cents_of_int;
  max_value = some 1_000_000_000;
  lowest = some 0;
}

abbrev pub cents_is_nan : Cents → Bool
cents_is_nan none = true
cents_is_nan (some _) = false

abbrev pub cents_rank : Cents → ℕ
cents_rank none = 0
cents_rank (some n) = n

pub cents_lt_lem :
    (x y : Cents)
    → cents_double.lt x y
      ≡ (not (cents_is_nan x) && not (cents_is_nan y) && ltb (cents_rank x) (cents_rank y))
cents_lt_lem x y = ground arith

pub cents_le_lem :
    (x y : Cents)
    → cents_double.le x y
      ≡ (not (cents_is_nan x) && not (cents_is_nan y) && leb (cents_rank x) (cents_rank y))
cents_le_lem x y = ground arith

pub cents_eq_lem :
    (x y : Cents)
    → cents_double.eq x y
      ≡ (not (cents_is_nan x) && not (cents_is_nan y) && cents_rank x == cents_rank y)
cents_eq_lem x y = ground arith

abbrev pub Cents-IsIeee : IsIeee Cents
Cents-IsIeee = record {
  is_nan = cents_is_nan;
  rank = cents_rank;
  lt-eq-ltb = cents_lt_lem;
  le-eq-leb = cents_le_lem;
  eq-eq-beq = cents_eq_lem;
  nought_number = refl;
  max_value_number = refl;
  lowest_number = refl;
  sum_number = λ m n. refl;
}
