-- ===== src/Server/Factory/Ports.antt =====
-- The servers of a configuration: their ports, their token, and which of them encrypt.
use front_basicrum_go.Base.{
  ℕ, ◌+◌, Bytes, List, [], ◌∷◌, Bool, true, false, not, ◌&&◌, ◌||◌, is_empty, eqb, eqb_iff, codes,
  ◌≡◌, refl, arith, if◌then◌else◌,
}
use front_basicrum_go.Server.Factory.{
  Config, Server, listen_and_serve_tls, listen_and_serve, serve, servers, config, invalid, Parsed,
  default_https_port, default_http_port, ssl_type_lets_encrypt, new, with_http, with_ssl,
  with_tls_config, default_value, build_config, build,
}

-- Two of the servers have the same port.
abbrev pub has_port : Bytes → List Server → Bool
has_port p [] = false
has_port p (s ∷ l) = eqb s.port p || has_port p l

abbrev pub shares_port : List Server → Bool
shares_port [] = false
shares_port (s ∷ l) = has_port s.port l || shares_port l

-- The configurations that ask for two servers on one port: certificate files with a port, whichever it
-- is, and Let's Encrypt with the port of its own server.
unfoldable pub asks_twice : Config → Bool
asks_twice c =
    c.ssl
    && (if eqb c.ssl_type ssl_type_lets_encrypt
        then eqb c.port default_https_port
        else not (is_empty c.port))

other_ports : eqb default_http_port default_https_port ≡ false
unfolding eqb codes
other_ports = refl

empty_port : eqb [] default_https_port ≡ false
unfolding eqb codes
empty_port = refl

-- How many of the servers encrypt.
abbrev pub encrypting : List Server → ℕ
encrypting [] = 0
encrypting (s ∷ l) = elim (serve s) [
  | listen_and_serve_tls address cert key t ↦ encrypting l + 1
  | listen_and_serve address ↦ encrypting l
]

abbrev pub has_token : Bytes → List Server → Bool
has_token t [] = true
has_token t (s ∷ l) = eqb s.private_api_token t && has_token t l

-- A configuration that encrypts: with Let's Encrypt, or with a certificate or a key file.
unfoldable pub asks_tls : Config → Bool
asks_tls c =
    c.ssl
    && (eqb c.ssl_type ssl_type_lets_encrypt
        || (not (is_empty c.ssl_file_cert_file) || not (is_empty c.ssl_file_key_file)))

module _ (env : Bytes → Bytes) (c : Config) where
  config-shares_port :
      (l : List Server) → build_config env c ≡ servers l → shares_port l ≡ asks_twice c
  unfolding build_config new with_http with_ssl with_tls_config default_value asks_twice
  config-shares_port l h = ground (
    arith,
    other_ports,
    empty_port,
    eqb_iff c.port default_https_port,
    eqb_iff default_https_port c.port,
    eqb_iff default_https_port default_http_port,
    eqb_iff default_http_port default_https_port,
    eqb_iff c.port c.port,
    eqb_iff default_https_port default_https_port,
  )

  config-encrypting :
      (l : List Server)
      → build_config env c ≡ servers l
      → encrypting l ≡ (if asks_tls c then 1 else 0)
  unfolding build_config new with_http with_ssl with_tls_config default_value asks_tls serve
  config-encrypting l h = ground arith

  config-has_token : (l : List Server) → build_config env c ≡ servers l → has_token c.token l ≡ true
  unfolding build_config new with_http with_ssl with_tls_config
  config-has_token l h = ground (arith, eqb_iff c.token c.token)

module _ (parse : Bytes → Parsed) (env : Bytes → Bytes) (json_config : Bytes) (l : List Server)
    (h : build parse env json_config ≡ servers l) where
  parsed :
      (p : Parsed)
      → parse json_config ≡ p
      → (c : Config) × (p ≡ config c) × (build_config env c ≡ servers l)
  unfolding build
  parsed (config c) e = (c, refl, ground arith)
  parsed (invalid x) e = let no_servers : ⊥ = ground arith in absurd no_servers

  -- Where Build succeeds, two of its servers have the same port exactly when SSL is on and the
  -- configuration asks for files and sets any port, or asks for Let's Encrypt and sets 443.
  pub build-shares_port :
      (c : Config) × (parse json_config ≡ config c) × (shares_port l ≡ asks_twice c)
  build-shares_port =
      let (c, p, b) = parsed (parse json_config) refl in (c, p, config-shares_port env c l b)

  -- Where Build succeeds, every server has the token of the configuration; one of them encrypts if
  -- SSL is on and the configuration asks for Let's Encrypt or names a certificate or key file, and
  -- none does otherwise.
  pub build-encrypting :
      (c : Config) × (parse json_config ≡ config c)
      × (has_token c.token l ≡ true)
      × (encrypting l ≡ (if asks_tls c then 1 else 0))
  build-encrypting =
      let (c, p, b) = parsed (parse json_config) refl in
      (c, p, config-has_token env c l b, config-encrypting env c l b)
