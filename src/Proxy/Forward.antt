-- ===== src/Proxy/Forward.antt =====
-- `rewrite_uri`, and the request that `handle_request` sends to the backend.
use palisade.Prelude.{ℕ, ◌^◌, ◌-◌, Bool, ◌++◌, min, ok, ◌>>=◌, ok_or, map_err}
use palisade.Text.{codes}
use palisade.Error.{Result, invalid_upstream, internal}
use palisade.Headers.{remove_all, strip_hop_by_hop, inject_forwarding_headers, rewrite_host}
use palisade.Config.Runtime.{or_default}
use palisade.Proxy.Crates.{Crates}
use palisade.Proxy.Screen.{Request, Runtime, http_11}

-- `http_body_util::Limited`: a body that fails past its limit.
pub record Limited (B : Type 0) : Type 0 where
  pub inner : B
  pub limit : ℕ

-- `usize::MAX`, on a 64-bit machine
abbrev pub usize_max : ℕ
usize_max = 2 ^ 64 - 1

module _ (c : Crates) where
  open c use {
    http.{Uri, HeaderMap, Authority, authority, scheme, path_and_query, build_uri},
    net.{SocketAddr},
  }

  unfoldable pub rewrite_uri : Uri → Uri → Result Uri
  rewrite_uri original upstream = do
    a ← ok_or (invalid_upstream (codes "upstream has no authority")) (authority upstream)
    s ← ok_or (invalid_upstream (codes "upstream has no scheme")) (scheme upstream)
    map_err (λ e. internal (codes "failed to build upstream URI: " ++ e))
        (build_uri s a (or_default (codes "/") (path_and_query original)))

  -- The headers of the forwarded request.
  unfoldable pub forward_headers : Runtime c → HeaderMap → SocketAddr → Bool → Authority → HeaderMap
  forward_headers config m client_addr client_tls a =
      remove_all c.http
        (rewrite_host c.http
          (inject_forwarding_headers c.http c.net (strip_hop_by_hop c.http m) client_addr client_tls
            config.trust_forwarded_headers)
          a)
        config.blocked_headers

  -- From `rewrite_uri` to `Request::from_parts`.
  unfoldable pub prepare :
      {B : Type 0}
      → Runtime c
      → Request c B
      → Uri
      → SocketAddr
      → Bool
      → Result (Request c (Limited B))
  unfolding rewrite_uri forward_headers
  prepare config req upstream client_addr client_tls = do
    uri ← rewrite_uri req.uri upstream
    a ← ok_or (invalid_upstream (codes "upstream has no authority")) (authority upstream)
    ok (record {
      method = req.method;
      uri = uri;
      version = http_11;
      headers = forward_headers config req.headers client_addr client_tls a;
      body = record { inner = req.body; limit = min config.max_body_size usize_max };
    })
