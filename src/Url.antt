-- ===== src/Url.antt =====
-- `MarketDataFeed::parseWebSocketURL` of src/MarketDataFeed.cpp, on the codes of a text.
pub mod RoundTrip
use mathlib.Core.Option
use velocore.Base.{
  ℕ, Bool, true, false, not, List, [], ◌∷◌, ◌++◌, Option, none, some, String, ◌==◌, if◌then◌else◌,
}
use velocore.Chars.{codes}

-- The four out-parameters.
pub record Url : Type 0 where
  pub host : List ℕ
  pub port : List ℕ
  pub path : List ℕ
  pub is_secure : Bool

-- `s.find(prefix) == 0`, with `s.substr` of the prefix's length.
abbrev pub strip_prefix : List ℕ → List ℕ → Option (List ℕ)
strip_prefix [] s = some s
strip_prefix (p ∷ ps) [] = none
strip_prefix (p ∷ ps) (c ∷ s) = if p == c then strip_prefix ps s else none

-- `s.find(c)`: the texts before the character and from it on.
abbrev pub split_at : ℕ → List ℕ → Option (List ℕ × List ℕ)
split_at c [] = none
split_at c (x ∷ s) =
    if x == c then some ([], x ∷ s) else Option.map (λ (a, b). (x ∷ a, b)) (split_at c s)

-- `s.substr(1)` of a text that is not empty.
abbrev pub behind : List ℕ → List ℕ
behind [] = []
behind (x ∷ s) = s

-- `host:port`, or a host alone, which leaves the default port.
unfoldable pub parse_host_port : List ℕ → List ℕ → List ℕ × List ℕ
parse_host_port default_port host_port = elim (split_at b':' host_port) [
  | some (h, p) ↦ (h, behind p)
  | none ↦ (host_port, default_port)
]

-- What follows the scheme. Without a path the whole of it is the host.
unfoldable pub parse_remainder : Bool → List ℕ → List ℕ → Url
unfolding parse_host_port
parse_remainder is_secure default_port remainder = elim (split_at b'/' remainder) [
  | some (host_port, path) ↦
      let (h, p) = parse_host_port default_port host_port in
      record { host = h; port = p; path = path; is_secure = is_secure }
  | none ↦ record { host = remainder; port = default_port; path = codes "/"; is_secure = is_secure }
]

-- `!host.empty()`, with the out-parameters.
abbrev pub checked : Url → Bool × Url
checked u = (elim u.host [ [] ↦ false | _ ↦ true ], u)

-- The answer and the out-parameters; a text without the scheme leaves the host as it was passed.
unfoldable pub parse_web_socket_url : List ℕ → List ℕ → Bool × Url
unfolding parse_remainder
parse_web_socket_url host url = elim (strip_prefix (codes "wss://") url) [
  | some remainder ↦ checked (parse_remainder true (codes "443") remainder)
  | none ↦ elim (strip_prefix (codes "ws://") url) [
    | some remainder ↦ checked (parse_remainder false (codes "80") remainder)
    | none ↦ (false, record { host = host; port = codes "443"; path = codes "/"; is_secure = true })
  ]
]
