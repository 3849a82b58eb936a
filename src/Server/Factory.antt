-- ===== src/Server/Factory.antt =====
-- server/factory.go and server/server.go: the servers that are built from the configuration, and how
-- each of them listens. `parse` is json.Unmarshal into a configType, or its error; `env` is os.Getenv.
pub mod Ports
use front_basicrum_go.Base.{
  Bytes, List, [], ◌∷◌, ◌++◌, Bool, true, false, not, ◌&&◌, ◌||◌, Option, none, some, is_empty, eqb,
  codes, if◌then◌else◌, length, ltb,
}

pub record Config : Type 0 where
  pub port : Bytes
  pub ssl : Bool
  pub ssl_type : Bytes
  pub ssl_file_cert_file : Bytes
  pub ssl_file_key_file : Bytes
  pub domain : Bytes
  pub token : Bytes

pub record AcmeClient : Type 0 where
  pub directory_url : Bytes
  pub insecure_skip_verify : Bool

-- The tls.Config of an autocert.Manager; `none` is its default client.
pub record TlsConfig : Type 0 where
  pub allowed_host : Bytes
  pub client : Option AcmeClient

-- The service and the backup, which all servers share, are left out.
pub record Server : Type 0 where
  pub port : Bytes
  pub cert_file : Bytes
  pub key_file : Bytes
  pub tls_config : Option TlsConfig
  pub private_api_token : Bytes

abbrev pub default_http_port : Bytes
default_http_port = codes "80"

abbrev pub default_https_port : Bytes
default_https_port = codes "443"

abbrev pub ssl_type_file : Bytes
ssl_type_file = codes "FILE"

abbrev pub ssl_type_lets_encrypt : Bytes
ssl_type_lets_encrypt = codes "LETS_ENCRYPT"

unfoldable pub with_http : Bytes → Server → Server
with_http port s = record s { port = port }

unfoldable pub with_ssl : Bytes → Bytes → Bytes → Server → Server
with_ssl port cert_file key_file s = record s {
  port = port;
  cert_file = cert_file;
  key_file = key_file;
}

unfoldable pub with_tls_config : Bytes → TlsConfig → Server → Server
with_tls_config port tls_config s = record s { port = port; tls_config = some tls_config }

apply_options : List (Server → Server) → Server → Server
apply_options [] s = s
apply_options (o ∷ os) s = apply_options os (o s)

unfoldable pub new : Bytes → List (Server → Server) → Server
unfolding apply_options
new private_api_token options = apply_options options (record {
  port = [];
  cert_file = [];
  key_file = [];
  tls_config = none;
  private_api_token = private_api_token;
})

-- What Serve does: ListenAndServeTLS or ListenAndServe on the address.
pub data Listen : Type 0 where
  listen_and_serve_tls : Bytes → Bytes → Bytes → Option TlsConfig → Listen
  listen_and_serve : Bytes → Listen

has_tls : Option TlsConfig → Bool
has_tls none = false
has_tls (some c) = true

unfoldable pub serve : Server → Listen
unfolding has_tls
serve s =
    if not (is_empty s.cert_file) || (not (is_empty s.key_file) || has_tls s.tls_config)
    then listen_and_serve_tls (b':' ∷ s.port) s.cert_file s.key_file s.tls_config
    else listen_and_serve (b':' ∷ s.port)

unfoldable pub default_value : Bytes → Bytes → Bytes
default_value value otherwise = if is_empty value then otherwise else value

unfoldable pub make_acme_client : (Bytes → Bytes) → Option AcmeClient
make_acme_client env =
    let url = env (codes "TEST_DIRECTORY_URL") in
    if is_empty url
    then none
    else some (record {
      directory_url = url;
      insecure_skip_verify = eqb (env (codes "TEST_INSECURE_SKIP_VERIFYy")) (codes "true");
    })

unfoldable pub make_lets_encrypt_tls_config : (Bytes → Bytes) → Bytes → TlsConfig
make_lets_encrypt_tls_config env allowed_host = record {
  allowed_host = allowed_host;
  client = make_acme_client env;
}

-- The servers, or the text of the error.
pub data Built : Type 0 where
  servers : List Server → Built
  error : Bytes → Built

-- The result of json.Unmarshal.
pub data Parsed : Type 0 where
  config : Config → Parsed
  invalid : Bytes → Parsed

-- Build behind the parsing.
unfoldable pub build_config : (Bytes → Bytes) → Config → Built
build_config env c =
    let http_port = default_value c.port default_http_port in
    let https_port = default_value c.port default_https_port in
    let http_server = new c.token (with_http http_port ∷ []) in
    if not c.ssl
    then servers (http_server ∷ [])
    else if eqb c.ssl_type ssl_type_lets_encrypt
    then servers (
        new c.token
          (with_tls_config default_https_port (make_lets_encrypt_tls_config env c.domain) ∷ [])
        ∷ http_server
        ∷ [])
    else if eqb c.ssl_type ssl_type_file
    then servers (
        new c.token (with_ssl https_port c.ssl_file_cert_file c.ssl_file_key_file ∷ [])
        ∷ http_server
        ∷ [])
    else error (codes "unsupported SSL type[" ++ (c.ssl_type ++ codes "]"))

unfoldable pub build : (Bytes → Parsed) → (Bytes → Bytes) → Bytes → Built
build parse env json_config =
    if ltb (length json_config) 2
    then error (codes "server missing config")
    else elim (parse json_config) [
      | invalid e ↦ error (codes "server failed to parse config: " ++ e)
      | config c ↦ build_config env c
    ]
