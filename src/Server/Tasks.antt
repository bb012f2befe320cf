-- ===== src/Server/Tasks.antt =====
-- The health checker and the rate limiter's cleanup: what one tick of each does.
use palisade.Prelude.{ℕ, ◌&&◌, leb, Bool, List, [], ◌∷◌, ◌++◌, ok, err, if◌then◌else◌, ltb}
use palisade.Text.{Str, codes}
use palisade.Http.{Http}
use palisade.Net.{Net}
use palisade.Upstream.{UpstreamState, record_success, record_failure}
use palisade.Config.Runtime.{map_or}
use palisade.RateLimit.{Governor, retain_recent, tracked_ip_count}

-- `tokio::time::timeout(timeout, client.get(uri)).await`
pub data Probe : Type 0 where
  answered : (status : ℕ) → Probe
  failed : Probe
  timed_out : Probe

-- `StatusCode::is_success`
abbrev pub is_success : ℕ → Bool
is_success status = leb 200 status && ltb status 300

module _ (h : Http) where
  -- The address that is probed.
  unfoldable pub probe_text : Str → h.Uri → Str
  probe_text path uri =
      map_or (codes "http") h.scheme_text (h.scheme uri)
      ++ (codes "://" ++ (map_or (codes "localhost") h.authority_text (h.authority uri) ++ path))

  unfoldable pub probed :
      (failure_threshold healthy_threshold now : ℕ) → Probe → UpstreamState h → UpstreamState h
  probed ft ht now (answered status) b =
      if is_success status then (record_success ht b).0 else (record_failure now ft b).0
  probed ft ht now failed b = (record_failure now ft b).0
  probed ft ht now timed_out b = (record_failure now ft b).0

  -- One tick over the pool. `get` is the client, with the time at which its answer is there.
  unfoldable pub health_tick :
      (failure_threshold healthy_threshold : ℕ)
      → Str
      → (h.Uri → Probe × ℕ)
      → List (UpstreamState h)
      → List (UpstreamState h)
  unfolding probed probe_text
  health_tick ft ht path get [] = []
  health_tick ft ht path get (b ∷ bs) =
      (elim (h.parse_uri (probe_text path b.uri)) [
        | err e ↦ b
        | ok uri ↦ probed ft ht (get uri).1 (get uri).0 b
      ])
      ∷ health_tick ft ht path get bs

-- One tick of the cleanup: the limiter, and the two counts that it compares.
unfoldable pub cleanup_tick : {n : Net} (g : Governor n) → g.Limiter → ℕ → g.Limiter × ℕ × ℕ
unfolding retain_recent tracked_ip_count
cleanup_tick g limiter now =
    let limiter' = retain_recent g limiter now in
    (limiter', tracked_ip_count g limiter, tracked_ip_count g limiter')
