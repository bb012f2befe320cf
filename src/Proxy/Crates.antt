-- ===== src/Proxy/Crates.antt =====
-- The code outside the repository that a request meets, as one parameter.
use palisade.Prelude.{ℕ, ◌≤◌, ◌≡◌, List, Except, ok, length}
use palisade.Text.{Str}
use palisade.Http.{Http, HttpLaws}
use palisade.Net.{Net, NetLaws}
use palisade.Config.Runtime.{RegexLib}
use palisade.RateLimit.{Governor}

pub record Crates : Type 1 where
  pub http : Http
  pub net : Net
  pub regex : RegexLib
  pub governor : Governor net
  -- `form_urlencoded::parse`: the decoded pairs of a query, in order.
  pub parse_query : Str → List (Str × Str)
  -- `hyper::body::Incoming`, and `Limited::new(body, limit).collect()` with the text of its error.
  pub Incoming : Type 0
  pub collect_limited : Incoming → (limit : ℕ) → Except Str (List ℕ)
  -- `String::from_utf8_lossy`
  pub from_utf8_lossy : List ℕ → Str

pub record CratesLaws (c : Crates) : Type 0 where
  pub http_laws : HttpLaws c.http
  pub net_laws : NetLaws c.net
  -- What `Limited` lets through fits its limit.
  pub length-collect_limited :
      (b : c.Incoming) (limit : ℕ) (bytes : List ℕ)
      → c.collect_limited b limit ≡ ok bytes
      → length bytes ≤ limit
