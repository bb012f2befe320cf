-- ===== src/Proxy/Admitted.antt =====
-- What a request that `begin_request` sends has been checked for.
use palisade.Prelude.{ℕ, ◌≤◌, ◌≡◌, false, Option, none, some, [], ◌⊎◌}
use palisade.Text.{codes, any}
use palisade.Headers.{content_length}
use palisade.Config.Runtime.{or_default}
use palisade.Proxy.Crates.{Crates, CratesLaws}
use palisade.Proxy.Screen.{Request, Runtime}
use palisade.Proxy.Policy.{has_blocked_key}

-- A declared length is at most the limit.
abbrev pub IsWithin : Option ℕ → ℕ → Type 0
IsWithin none limit = Unit
IsWithin (some n) limit = n ≤ limit

module _ (c : Crates) (l : CratesLaws c) where
  open c use {http.{HeaderMap, get_all, name_from_static, contains_key, query}}

  module _ {B : Type 0} (config : Runtime c) (req : Request c B) where
    -- What the checks between the limiter and the balancer have found.
    pub record IsScreened : Type 0 where
      pub framing :
          (get_all req.headers (name_from_static (codes "content-length")) ≡ [])
          ⊎ (get_all req.headers (name_from_static (codes "transfer-encoding")) ≡ [])
      pub length : IsWithin (content_length c.http req.headers) config.max_body_size
      pub headers : any (contains_key req.headers) config.blocked_headers ≡ false
      pub params :
          any
            (has_blocked_key c config.blocked_params)
            (c.parse_query (or_default [] (query req.uri)))
          ≡ false
