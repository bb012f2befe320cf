-- ===== src/Proxy/Client.antt =====
-- `build_client` and `build_https_client`: how the clients for the backends are set up.
use palisade.Prelude.{ℕ, some}
use palisade.Duration.{Duration}
use palisade.Tls.{Rustls, build_https_connector}
use palisade.Proxy.Crates.{Crates}
use palisade.Proxy.Screen.{Runtime}

-- `hyper_util::client::legacy::Client` and its builder, over the connectors.
pub record Clients (t : Rustls) : Type 1 where
  pub Builder : Type 0
  pub builder : Builder
  pub pool_idle_timeout : Builder → Duration → Builder
  pub pool_max_idle_per_host : Builder → ℕ → Builder
  pub HttpClient : Type 0
  pub build_http : Builder → t.HttpConnector → HttpClient
  pub HttpsClient : Type 0
  pub build_https : Builder → t.HttpsConnector → HttpsClient

module _ (c : Crates) (t : Rustls) (k : Clients t) where
  open k use {
    builder, pool_idle_timeout, pool_max_idle_per_host, HttpClient, build_http, HttpsClient,
    build_https,
  }

  unfoldable pub build_client : Runtime c → HttpClient
  build_client config =
      build_http
        (pool_max_idle_per_host (pool_idle_timeout builder config.pool_idle_timeout)
          config.pool_max_idle_per_host)
        (t.set_connect_timeout t.connector_new (some config.connect_timeout))

  unfoldable pub build_https_client : Runtime c → HttpsClient
  unfolding build_https_connector
  build_https_client config =
      build_https
        (pool_max_idle_per_host (pool_idle_timeout builder config.pool_idle_timeout)
          config.pool_max_idle_per_host)
        (build_https_connector t config.connect_timeout)
