-- ===== src/Dao/Redis/Options.antt =====
-- dao/redis/redis.go: Open, and the options that it makes of the configuration. A time.Duration is its
-- nanoseconds. `unmarshal` is json.Unmarshal, `load_pair` the error of tls.LoadX509KeyPair, `parse_url`
-- redis.ParseClusterURL or redis.ParseURL, or its error, and `ping` the error of Ping.
use front_basicrum_go.Base.{
  Bytes, List, [], ◌∷◌, ◌++◌, Bool, true, false, Option, none, some, codes, is_empty, length, ltb,
  if◌then◌else◌, ◌≡◌, arith, ◌⊎◌,
}
use front_basicrum_go.Base.Decimal.{ℤ, pos, negsuc, mul_int64}
use front_basicrum_go.Dao.Addresses.{Value, address, addresses, wrong, read_addresses}
use front_basicrum_go.Dao.Redis.{Adapter}

pub record Config : Type 0 where
  pub uri : Bytes
  pub network : Bytes
  pub addresses : Value
  pub client_name : Bytes
  pub protocol : ℤ
  pub username : Bytes
  pub password : Bytes
  pub db : ℤ
  pub max_retries : ℤ
  pub min_retry_backoff : ℤ
  pub max_retry_backoff : ℤ
  pub dial_timeout : ℤ
  pub read_timeout : ℤ
  pub write_timeout : ℤ
  pub context_timeout_enabled : Bool
  pub pool_fifo : Bool
  pub pool_size : ℤ
  pub pool_timeout : ℤ
  pub min_idle_conns : ℤ
  pub max_idle_conns : ℤ
  pub max_active_conns : ℤ
  pub conn_max_idle_time : ℤ
  pub conn_max_lifetime : ℤ
  pub disable_indentity : Bool
  pub connect_cluster : Bool
  pub use_tls : Bool
  pub tls_cert_file : Bytes
  pub tls_private_key : Bytes
  pub insecure_skip_verify : Bool

-- A tls.Config, with the files of its certificate.
pub record TlsConfig : Type 0 where
  pub insecure_skip_verify : Bool
  pub certificate : Option (Bytes × Bytes)

-- redis.UniversalOptions; a field that the code does not set is its zero value.
pub record UniversalOptions : Type 0 where
  pub addrs : List Bytes
  pub client_name : Bytes
  pub db : ℤ
  pub max_redirects : ℤ
  pub protocol : ℤ
  pub username : Bytes
  pub password : Bytes
  pub max_retries : ℤ
  pub min_retry_backoff : ℤ
  pub max_retry_backoff : ℤ
  pub dial_timeout : ℤ
  pub read_timeout : ℤ
  pub write_timeout : ℤ
  pub context_timeout_enabled : Bool
  pub pool_fifo : Bool
  pub pool_size : ℤ
  pub pool_timeout : ℤ
  pub min_idle_conns : ℤ
  pub max_idle_conns : ℤ
  pub max_active_conns : ℤ
  pub conn_max_idle_time : ℤ
  pub conn_max_lifetime : ℤ
  pub tls_config : Option TlsConfig
  pub disable_indentity : Bool

-- redis.Options or redis.ClusterOptions as a URL gives them; the first has one address.
pub record UrlOptions : Type 0 where
  pub addrs : List Bytes
  pub client_name : Bytes
  pub db : ℤ
  pub protocol : ℤ
  pub username : Bytes
  pub password : Bytes
  pub max_retries : ℤ
  pub min_retry_backoff : ℤ
  pub max_retry_backoff : ℤ
  pub dial_timeout : ℤ
  pub read_timeout : ℤ
  pub write_timeout : ℤ
  pub context_timeout_enabled : Bool
  pub pool_fifo : Bool
  pub pool_size : ℤ
  pub pool_timeout : ℤ
  pub min_idle_conns : ℤ
  pub max_idle_conns : ℤ
  pub max_active_conns : ℤ
  pub conn_max_idle_time : ℤ
  pub conn_max_lifetime : ℤ
  pub tls_config : Option TlsConfig

unfoldable pub cluster_options_to_universal : UrlOptions → UniversalOptions
cluster_options_to_universal v = record {
  addrs = v.addrs;
  client_name = v.client_name;
  db = pos 0;
  max_redirects = pos 0;
  protocol = v.protocol;
  username = v.username;
  password = v.password;
  max_retries = v.max_retries;
  min_retry_backoff = v.min_retry_backoff;
  max_retry_backoff = v.max_retry_backoff;
  dial_timeout = v.dial_timeout;
  read_timeout = v.read_timeout;
  write_timeout = v.write_timeout;
  context_timeout_enabled = v.context_timeout_enabled;
  pool_fifo = v.pool_fifo;
  pool_size = v.pool_size;
  pool_timeout = v.pool_timeout;
  min_idle_conns = v.min_idle_conns;
  max_idle_conns = v.max_idle_conns;
  max_active_conns = v.max_active_conns;
  conn_max_idle_time = v.conn_max_idle_time;
  conn_max_lifetime = v.conn_max_lifetime;
  tls_config = none;
  disable_indentity = false;
}

-- `time.Duration(d) * time.Second`
abbrev pub seconds : ℤ → ℤ
seconds d = mul_int64 d (pos 1000000000)

unfoldable pub options_of : List Bytes → Option TlsConfig → Config → UniversalOptions
options_of addrs tls_config c = record {
  addrs = addrs;
  client_name = c.client_name;
  db = pos 0;
  max_redirects = c.max_retries;
  protocol = c.protocol;
  username = c.username;
  password = c.password;
  max_retries = c.max_retries;
  min_retry_backoff = seconds c.min_retry_backoff;
  max_retry_backoff = seconds c.max_retry_backoff;
  dial_timeout = seconds c.dial_timeout;
  read_timeout = seconds c.read_timeout;
  write_timeout = seconds c.write_timeout;
  context_timeout_enabled = c.context_timeout_enabled;
  pool_fifo = c.pool_fifo;
  pool_size = c.pool_size;
  pool_timeout = seconds c.pool_timeout;
  min_idle_conns = c.min_idle_conns;
  max_idle_conns = c.max_idle_conns;
  max_active_conns = c.max_active_conns;
  conn_max_idle_time = seconds c.conn_max_idle_time;
  conn_max_lifetime = seconds c.conn_max_lifetime;
  tls_config = tls_config;
  disable_indentity = c.disable_indentity;
}

-- A value or the text of an error.
pub data Made (A : Type 0) : Type 0 where
  made : A → Made A
  failed : Bytes → Made A

pub data Parsed : Type 0 where
  config : Config → Parsed
  invalid : Bytes → Parsed

module _ (load_pair : Bytes → Bytes → Option Bytes)
    (parse_url : Bool → Bytes → Made UrlOptions) where
  unfoldable pub tls_of : Config → Made (Option TlsConfig)
  tls_of c =
      if c.use_tls
      then (if is_empty c.tls_cert_file
          then made
              (some (record { insecure_skip_verify = c.insecure_skip_verify; certificate = none }))
          else elim (load_pair c.tls_cert_file c.tls_private_key) [
            | some e ↦ failed e
            | none ↦ made (
                some (record {
                  insecure_skip_verify = c.insecure_skip_verify;
                  certificate = some (c.tls_cert_file, c.tls_private_key);
                }))
          ])
      else made none

  -- A URI replaces all options.
  with_uri : Config → UniversalOptions → Made UniversalOptions
  with_uri c opts = if is_empty c.uri then made opts else elim (parse_url c.connect_cluster c.uri) [
    | failed e ↦ failed e
    | made v ↦ made (cluster_options_to_universal v)
  ]

  with_addresses : Config → List Bytes → Made UniversalOptions
  with_addresses c addrs = elim (tls_of c) [
    | failed e ↦ failed e
    | made tls ↦ with_uri c (options_of addrs tls c)
  ]

  -- The options with which Open connects.
  unfoldable pub make_options : Config → Made UniversalOptions
  unfolding with_uri with_addresses
  make_options c = elim (read_addresses (codes "redis") (codes "localhost:6379") c.addresses) [
    | wrong e ↦ failed e
    | address h ↦ with_addresses c (h ∷ [])
    | addresses hs ↦ with_addresses c hs
  ]

  -- The connection stays where Ping fails.
  unfoldable pub open_adapter :
      (Bytes → Parsed)
      → (UniversalOptions → Option Bytes)
      → Bytes
      → Adapter
      → Option Bytes × Adapter
  open_adapter unmarshal ping json_config a =
      if a.conn
      then (some (codes "adapter redis is already connected"), a)
      else if ltb (length json_config) 2
      then (some (codes "adapter redis missing config"), a)
      else elim (unmarshal json_config) [
        | invalid e ↦ (some (codes "adapter redis failed to parse config: " ++ e), a)
        | config c ↦ elim (make_options c) [
          | failed e ↦ (some e, a)
          | made opts ↦ elim (ping opts) [
            | some e ↦ (some e, record a { conn = true })
            | none ↦ (none, record a { conn = true; version = negsuc 0 })
          ]
        ]
      ]

  -- The options that Open makes name database 0, whatever the configuration says. Without a URI their
  -- TLS is the one of the configuration; with a URI they have none.
  pub make_options_lem :
      (c : Config) (opts : UniversalOptions)
      → make_options c ≡ made opts
      → (opts.db ≡ pos 0)
        × (((is_empty c.uri ≡ true) × (tls_of c ≡ made opts.tls_config))
            ⊎ ((is_empty c.uri ≡ false) × (opts.tls_config ≡ none)))
  unfolding make_options with_uri with_addresses options_of cluster_options_to_universal
  make_options_lem c opts h = ground arith
