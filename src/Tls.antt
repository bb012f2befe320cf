-- ===== src/Tls.antt =====
-- src/tls.rs: the acceptor for client connections and the connector for upstream ones. The `rustls`,
-- `hyper_rustls` and `hyper_util` crates and the reading of PEM files are the parameter `Rustls`.
use palisade.Prelude.{
  Bool, false, Option, some, List, [], ◌∷◌, ◌++◌, Except, ok, ◌>>=◌, map_err, collect,
}
use palisade.Text.{Str, codes}
use palisade.Duration.{Duration}
use palisade.Error.{Result, tls}
use palisade.Config.Schema.{TlsConfig}

pub record Rustls : Type 1 where
  pub CertificateDer : Type 0
  pub PrivateKeyDer : Type 0
  pub ServerConfig : Type 0
  pub TlsAcceptor : Type 0
  -- `pem_file_iter` and `from_pem_file`, with the texts of their errors.
  pub pem_file_iter : Str → Except Str (List (Except Str CertificateDer))
  pub from_pem_file : Str → Except Str PrivateKeyDer
  -- `ServerConfig::builder().with_no_client_auth().with_single_cert(…)`
  pub with_single_cert : List CertificateDer → PrivateKeyDer → Except Str ServerConfig
  pub set_alpn_protocols : ServerConfig → List Str → ServerConfig
  pub acceptor_from : ServerConfig → TlsAcceptor
  -- `HttpConnector`, and the HTTPS connector around it.
  pub HttpConnector : Type 0
  pub connector_new : HttpConnector
  pub set_connect_timeout : HttpConnector → Option Duration → HttpConnector
  pub enforce_http : HttpConnector → Bool → HttpConnector
  pub RootCertStore : Type 0
  pub server_roots : RootCertStore
  pub ClientConfig : Type 0
  pub with_root_certificates : RootCertStore → ClientConfig
  pub HttpsConnector : Type 0
  -- `HttpsConnectorBuilder`, for both schemes and all versions.
  pub wrap_connector : ClientConfig → HttpConnector → HttpsConnector

module _ (t : Rustls) where
  open t use {
    CertificateDer, PrivateKeyDer, TlsAcceptor, HttpsConnector, pem_file_iter, from_pem_file,
    with_single_cert, set_alpn_protocols, acceptor_from, connector_new, set_connect_timeout,
    enforce_http, server_roots, with_root_certificates, wrap_connector,
  }

  unfoldable pub load_certs : Str → Result (List CertificateDer)
  load_certs path = do
    certs ←
        map_err (λ e. tls (codes "failed to open cert file " ++ (path ++ (codes ": " ++ e))))
          (pem_file_iter path)
    map_err (λ e. tls (codes "failed to parse certificates from " ++ (path ++ (codes ": " ++ e))))
        (collect (λ r. r) certs)

  unfoldable pub load_private_key : Str → Result PrivateKeyDer
  load_private_key path =
      map_err (λ e. tls (codes "failed to load private key from " ++ (path ++ (codes ": " ++ e))))
        (from_pem_file path)

  unfoldable pub build_tls_acceptor : TlsConfig → Result TlsAcceptor
  unfolding load_certs load_private_key
  build_tls_acceptor config = do
    certs ← load_certs config.cert_path
    key ← load_private_key config.key_path
    server_config ←
        map_err (λ e. tls (codes "failed to build TLS server config: " ++ e))
          (with_single_cert certs key)
    ok (acceptor_from (set_alpn_protocols server_config (codes "h2" ∷ codes "http/1.1" ∷ [])))

  unfoldable pub build_https_connector : Duration → HttpsConnector
  build_https_connector connect_timeout =
      wrap_connector (with_root_certificates server_roots)
        (enforce_http (set_connect_timeout connector_new (some connect_timeout)) false)
