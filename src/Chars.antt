-- ===== src/Chars.antt =====
-- The texts that the code walks through, as the lists of their characters' codes, and `std::stoi`,
-- which src/Config.h and src/main.cpp call.
use Prim.Native.Char.{code}
use Prim.Native.String.{◌++◌ as concat}
use velocore.Base.{
  true, false, ℕ, zero, suc, ◌/◌, ◌%◌, ◌+◌, ◌-◌, ◌*◌, ◌^◌, Bool, ◌||◌, ◌&&◌, not, List, [], ◌∷◌,
  String, Result, ok, throws, ℤ, pos, negsuc, ltb, leb, ◌==◌, if◌then◌else◌,
}

abbrev pub codes : String → List ℕ
codes String.[] = []
codes (String.◌∷◌ c s) = code c ∷ codes s

-- `isspace` and `isdigit` in the C locale.
abbrev pub is_space : ℕ → Bool
is_space c = c == 32 || (leb 9 c && leb c 13)

abbrev pub is_digit : ℕ → Bool
is_digit c = leb b'0' c && leb c b'9'

-- The digits at the front of a text, read as a number after the ones before them.
abbrev digits : ℕ → List ℕ → ℕ
digits n [] = n
digits n (c ∷ cs) = if is_digit c then digits (10 * n + (c - b'0')) cs else n

abbrev starts_with_digit : List ℕ → Bool
starts_with_digit [] = false
starts_with_digit (c ∷ cs) = is_digit c

abbrev signed : Bool → List ℕ → Result ℤ
signed negative cs =
    let n = digits 0 cs in
    if not (starts_with_digit cs)
    then throws "stoi"
    else if negative
    then (if leb n (2 ^ 31) then ok (neg_pos n) else throws "stoi")
    else if ltb n (2 ^ 31)
    then ok (pos n)
    else throws "stoi"
  where
    neg_pos : ℕ → ℤ
    neg_pos n = if n == 0 then pos 0 else negsuc (n - 1)

-- Spaces, a sign, and digits; what follows them is ignored.
abbrev pub stoi_codes : List ℕ → Result ℤ
stoi_codes [] = throws "stoi"
stoi_codes (c ∷ cs) =
    if is_space c
    then stoi_codes cs
    else if c == b'-'
    then signed true cs
    else if c == b'+'
    then signed false cs
    else signed false (c ∷ cs)

unfoldable pub stoi : String → Result ℤ
stoi s = stoi_codes (codes s)

-- `std::to_string` of an `int`, which has at most 10 digits.
abbrev digit : ℕ → String
digit n =
    if n == 0
    then "0"
    else if n == 1
    then "1"
    else if n == 2
    then "2"
    else if n == 3
    then "3"
    else if n == 4
    then "4"
    else if n == 5
    then "5"
    else if n == 6
    then "6"
    else if n == 7
    then "7"
    else if n == 8
    then "8"
    else "9"

abbrev decimal : ℕ → ℕ → String
decimal zero n = ""
decimal (suc fuel) n =
    let rest = decimal fuel (n / 10) in if ltb n 10 then digit n else concat rest (digit (n % 10))

unfoldable pub to_string : ℤ → String
to_string (pos n) = decimal 10 n
to_string (negsuc n) = concat "-" (decimal 10 (n + 1))
