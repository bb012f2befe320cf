-- ===== src/Tests/Unit/World.antt =====
-- The parameters of the model for the unit tests: functions that read the URIs, the addresses, the
-- header names, the queries and the patterns that occur in those tests.
use palisade.Prelude.{
  ℕ, zero, suc, ◌*◌, ◌+◌, ◌-◌, Bool, true, false, ◌&&◌, not, ◌==◌, leb, Option, none, some, List,
  [], ◌∷◌, ◌++◌, map, Except, ok, err, if◌then◌else◌, length,
}
use palisade.Text.{
  Str, codes, is_empty, all, any, split, is_ascii_graphic, to_ascii_lowercase, parse_u64,
}
use palisade.Http.{Http}
use palisade.Net.{Net}
use palisade.Config.Runtime.{RegexLib}
use palisade.RateLimit.{Governor}
use palisade.Proxy.Crates.{Crates}
use palisade.Tests.World

unfoldable pub before : ℕ → Str → Str
before c [] = []
before c (x ∷ s) = let rest = before c s in if x == c then [] else x ∷ rest

-- What stands after the first `c`.
unfoldable pub after : ℕ → Str → Str
after c [] = []
after c (x ∷ s) = let rest = after c s in if x == c then s else rest

unfoldable pub drop_while_slash : Str → Str
drop_while_slash [] = []
drop_while_slash (x ∷ s) = let rest = drop_while_slash s in if x == b'/' then rest else x ∷ s

unfoldable pub is_token : ℕ → Bool
is_token c = is_ascii_graphic c && not (any (λ d. c == d) (codes "(),/:;<=>?@[]{}"))

-- An absolute URI: its scheme, its authority, and its path with its query.
unfoldable pub parse_uri : Str → Except Str (Str × Str × Str)
unfolding before after drop_while_slash
parse_uri s =
    let rest = drop_while_slash (after b':' s) in
    let path = after b'/' rest in
    if all is_ascii_graphic s && not (is_empty s)
    then ok (before b':' s, before b'/' rest, b'/' ∷ path)
    else err (codes "invalid uri")

abbrev query : Str → Option Str
query path = if any (λ c. c == b'?') path then some (after b'?' path) else none

abbrev pub http : Http
http = record World.http {
  name_from_bytes = λ s.
      if all is_token s && not (is_empty s)
      then ok (to_ascii_lowercase s)
      else err (codes "invalid name");
  parse_uri = parse_uri;
  path = λ u. before b'?' u.2;
  query = λ u. query u.2;
}

-- An IPv4 address and a port.
unfoldable pub is_socket_addr : List Str → Bool
is_socket_addr (ip ∷ port ∷ []) =
    not (is_empty ip) && (elim (parse_u64 port) [ none ↦ false | some n ↦ leb n 65535 ])
is_socket_addr _ = false

abbrev pub net : Net
net = record World.net {
  parse_addr = λ s. if is_socket_addr (split b':' s) then ok s else err (codes "invalid address");
  ip = before b':';
}

unfoldable pub escape : Str → Str
escape [] = []
escape (c ∷ s) =
    let rest = escape s in
    if any (λ d. c == d) (codes ".+*?()|[]{}^$#&-~") then b'\\' ∷ c ∷ rest else c ∷ rest

-- The literal text in front of the first group of a pattern.
unfoldable pub literal : Str → Str
literal [] = []
literal (c ∷ []) = c ∷ []
literal (c ∷ d ∷ s) =
    if c == b'('
    then []
    else elim (c == b'\\') [ true ↦ d ∷ literal s | false ↦ c ∷ literal (d ∷ s) ]

unfoldable pub value_follows : Str → Str → Bool
value_follows s [] = not (is_empty (before b'&' s))
value_follows [] (p ∷ ps) = false
value_follows (c ∷ s) (p ∷ ps) = (c == p) && value_follows s ps

-- Each `literal` that a value follows is replaced with it, the value ending at `&`. The number is 0
-- outside of a match, 1 in its value, and above it by what is left of the literal.
unfoldable pub replace_values : Str → Str → ℕ → Str → Str
replace_values lit by n [] = []
replace_values lit by zero (c ∷ s) = elim (value_follows (c ∷ s) lit) [
  | true ↦ by ++ replace_values lit by (length lit) s
  | false ↦ c ∷ replace_values lit by 0 s
]
replace_values lit by (suc zero) (c ∷ s) = elim (c == b'&') [
  | true ↦ c ∷ replace_values lit by 0 s
  | false ↦ replace_values lit by 1 s
]
replace_values lit by (suc (suc n)) (c ∷ s) = replace_values lit by (suc n) s

abbrev pub regex : RegexLib
regex = record {
  Regex = Str;
  escape = escape;
  compile = λ p. ok (literal p);
  replace_all = λ lit text by. replace_values lit by 0 text;
}

abbrev governor : Governor net
governor = record {
  Limiter = World.governor.Limiter;
  dashmap = World.governor.dashmap;
  check_key = World.governor.check_key;
  retain = World.governor.retain;
  len = World.governor.len;
}

abbrev hex_digit : ℕ → ℕ
hex_digit c = if leb c b'9' then c - b'0' else if leb c b'F' then c - b'A' + 10 else c - b'a' + 10

unfoldable pub percent_decode : Str → Str
percent_decode (x ∷ y ∷ z ∷ s) = elim (x == b'%') [
  | true ↦ (hex_digit y * 16 + hex_digit z) ∷ percent_decode s
  | false ↦ x ∷ percent_decode (y ∷ z ∷ s)
]
percent_decode s = s

abbrev pub crates : Crates
crates = record World.crates {
  http = http;
  net = net;
  regex = regex;
  governor = governor;
  parse_query = λ q.
      map (λ pair. (percent_decode (before b'=' pair), percent_decode (after b'=' pair)))
        (split b'&' q);
}
