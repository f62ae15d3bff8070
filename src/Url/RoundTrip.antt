-- ===== src/Url/RoundTrip.antt =====
-- Which texts `parseWebSocketURL` (src/MarketDataFeed.cpp) takes apart, and how.
use velocore.Base.{
  ℕ, ◌≡◌, ◌≢◌, refl, ap, Bool, true, false, List, [], ◌∷◌, ◌++◌, Option, none, some, arith, All,
  inl, inr, ◌⊎◌, ◌∙◌,
}
use velocore.Chars.{codes}
use velocore.Url.{Url, split_at, parse_host_port, parse_remainder, parse_web_socket_url, checked}

abbrev pub Lacks : ℕ → List ℕ → Type 0
Lacks c = All λ x. x ≢ c

split_at-absent : (c : ℕ) (s : List ℕ) → Lacks c s → split_at c s ≡ none
split_at-absent c [] h = refl
split_at-absent c (x ∷ s) h = ground (arith, split_at-absent c s h.1)

split_at-append : (c : ℕ) (s t : List ℕ) → Lacks c s → split_at c (s ++ c ∷ t) ≡ some (s, c ∷ t)
split_at-append c [] t h = ground arith
split_at-append c (x ∷ s) t h = ground (arith, split_at-append c s t h.1)

abbrev pub scheme : Bool → List ℕ
scheme true = codes "wss://"
scheme false = codes "ws://"

abbrev pub default_port : Bool → List ℕ
default_port true = codes "443"
default_port false = codes "80"

-- An authority as it is written, with its port if there is one.
abbrev pub authority : List ℕ → Option (List ℕ) → List ℕ
authority host none = host
authority host (some port) = host ++ b':' ∷ port

abbrev pub port_of : Bool → Option (List ℕ) → List ℕ
port_of is_secure none = default_port is_secure
port_of is_secure (some port) = port

parse_authority :
    (is_secure : Bool) (host : List ℕ) (port : Option (List ℕ))
    → Lacks b':' host
    → parse_host_port (default_port is_secure) (authority host port)
      ≡ (host, port_of is_secure port)
unfolding parse_host_port
parse_authority is_secure host none h = rw (split_at-absent b':' host h, parse_host_port) refl
parse_authority is_secure host (some port) h =
    rw (split_at-append b':' host port h, parse_host_port) refl

-- The scheme is recognised and decides the default port.
parse_scheme :
    (old : List ℕ) (is_secure : Bool) (remainder : List ℕ)
    → parse_web_socket_url old (scheme is_secure ++ remainder)
      ≡ checked (parse_remainder is_secure (default_port is_secure) remainder)
unfolding parse_web_socket_url
parse_scheme old true remainder = refl
parse_scheme old false remainder = refl

List-cases : (s : List ℕ) → (s ≡ []) ⊎ ((x : ℕ) × (t : List ℕ) × (s ≡ x ∷ t))
List-cases [] = inl refl
List-cases (x ∷ t) = inr (x, t, refl)

checked-host : (u : Url) → u.host ≢ [] → checked u ≡ (true, u)
checked-host u h = elim (List-cases u.host) [
  | inl e ↦ absurd (h e)
  | inr (x, s, e) ↦ ground (arith, e)
]

-- A URL with a path is read back as it was written: the host, the port or the scheme's default one,
-- the path, and whether it is secure. The host is not empty and has no colon and no slash, and the
-- port has no slash.
pub parse_web_socket_url_written :
    (old : List ℕ) (is_secure : Bool) (host : List ℕ) (port : Option (List ℕ)) (rest : List ℕ)
    → host ≢ []
    → Lacks b':' host
    → Lacks b'/' (authority host port)
    → parse_web_socket_url old (scheme is_secure ++ (authority host port ++ b'/' ∷ rest)) ≡ (
      true,
      record {
        host = host;
        port = port_of is_secure port;
        path = b'/' ∷ rest;
        is_secure = is_secure;
      },
    )
unfolding parse_web_socket_url parse_remainder
parse_web_socket_url_written old is_secure host port rest h k l =
    parse_scheme old is_secure _
    ∙ ap checked (
        rw
          (
            split_at-append b'/' (authority host port) rest l,
            parse_remainder,
            parse_authority is_secure host port k,
          )
          refl)
    ∙ checked-host _ h

-- A URL without a path: everything behind the scheme is the host, a port included, and the port is
-- the default one.
pub parse_web_socket_url_bare :
    (old : List ℕ) (is_secure : Bool) (host : List ℕ)
    → host ≢ []
    → Lacks b'/' host
    → parse_web_socket_url old (scheme is_secure ++ host) ≡ (
      true,
      record {
        host = host;
        port = default_port is_secure;
        path = codes "/";
        is_secure = is_secure;
      },
    )
unfolding parse_web_socket_url parse_remainder
parse_web_socket_url_bare old is_secure host h l =
    parse_scheme old is_secure host
    ∙ ap checked (rw (split_at-absent b'/' host l, parse_remainder) refl)
    ∙ checked-host _ h
