-- ===== src/Json.antt =====
-- The JSON values that the program builds with `crow::json::wvalue`: the initializer lists that it
-- writes, as trees. How crow prints them is not modelled.
use velocore.Base.{
  ℕ, ◌-◌, ◌/◌, ◌^◌, Bool, List, [], ◌∷◌, Option, String, Result, ℤ, pos, negsuc, ltb, if◌then◌else◌,
}

mutual
  pub data Json (D : Type 0) : Type 0 where
    text : String → Json D
    int : ℤ → Json D
    number : D → Json D
    bool : Bool → Json D
    array : Items D → Json D
    object : Fields D → Json D

  pub data Items (D : Type 0) : Type 0 where
    nil : Items D
    cons : Json D → Items D → Items D

  pub data Fields (D : Type 0) : Type 0 where
    end : Fields D
    field : String → Json D → Fields D → Fields D

abbrev items {ℓ} : {A : Type ℓ} {D : Type 0} → (A → Json D) → List A → Items D
items f [] = nil
items f (x ∷ xs) = cons (f x) (items f xs)

abbrev fields : {D : Type 0} → List (String × Json D) → Fields D
fields [] = end
fields ((key, j) ∷ rest) = field key j (fields rest)

-- `crow::json::wvalue{{"key", value}, …}`.
abbrev pub obj : {D : Type 0} → List (String × Json D) → Json D
obj members = object (fields members)

-- A list that is filled by a loop of `push_back(f(x))`.
abbrev pub arr {ℓ} : {A : Type ℓ} {D : Type 0} → (A → Json D) → List A → Json D
arr f xs = array (items f xs)

-- `static_cast<int64_t>` of a `uint64_t`.
abbrev pub to_int64 : ℕ → ℤ
to_int64 n = if ltb n (2 ^ 63) then pos n else negsuc (2 ^ 64 - n - 1)

-- A time point counts nanoseconds: `duration_cast<milliseconds>(t.time_since_epoch()).count()`.
abbrev pub millis : ℕ → ℤ
millis t = pos (t / 1_000_000)

-- What the program reads from a request body by `crow::json::rvalue`: each access may throw.
-- `J` is the type of parsed values, which crow implements.
pub record Reader (J D : Type 0) : Type 0 where
  pub load : String → Option J
  pub has : J → String → Bool
  pub at : J → String → Result J
  pub as_text : J → Result String
  pub as_uint : J → Result ℕ
  pub as_int : J → Result ℤ
  pub as_double : J → Result D
  pub as_bool : J → Result Bool
