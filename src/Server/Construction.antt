-- ===== src/Server/Construction.antt =====
-- source/Server.cpp and source/AsyncServer.cpp: the constructors, up to the first accept, and the
-- settings that a connection of source/Connection.cpp copies. What the operating system and the TLS
-- library answer is a parameter; `false` stands for the exception that the call throws.
use smartmet_server.Base.{
  List, ℕ, Bool, Option, [], is_empty, is_some, none, some, not, ◌==◌, ◌%◌, ◌^◌, ◌∷◌, if◌then◌else◌,
  true, false,
}
use smartmet_server.Utility.Files.{Password, PasswordError, refused, password, read_password}
use smartmet_server.Server.Configuration.{
  read_memory_log, MemoryLog, Config, read_max_header_size, KeepAlive, read_max_connections,
  read_limits, read_keep_alive,
}
use smartmet_server.Text.{Bytes, codes}
use smartmet_server.Limits.{Limits, value_or}
use smartmet_server.Connection.State.{Settings}

pub record PoolOptions : Type 0 where
  pub min_size : ℕ
  pub max_requeue_size : ℕ

pub record Options : Type 0 where
  pub encryption_enabled : Bool
  pub encryption_password : Bytes
  pub encryption_password_file : Bytes
  pub encryption_certificate_file : Bytes
  pub encryption_private_key_file : Bytes
  pub admin_pool : PoolOptions
  pub slow_pool : PoolOptions
  pub fast_pool : PoolOptions
  pub compress : Bool
  pub compress_limit : ℕ
  pub max_request_size : ℕ
  pub timeout : ℕ
  pub log_requests : Bool
  pub port : ℕ
  pub config : Config

pub record Environment : Type 1 where
  pub Filter : Type 0
  -- the content of a file, if it can be opened
  pub file : Bytes → Option Bytes
  pub use_certificate_chain_file : Bytes → Bool
  pub use_private_key_file : Bytes → Bool
  pub open_acceptor : Bool
  pub bind : ℕ → Bool
  pub listen : Bool
  pub local_port : ℕ
  -- the soft limit of RLIMIT_NOFILE, if there is one
  pub descriptor_limit : Option ℕ
  pub lower : Bytes → Bytes
  -- IPFilter::fromConfig: `none` where it throws, `some none` for the null pointer
  pub filter_from_config : Config → Option (Option Filter)
  pub filter_of : List Bytes → Filter

pub data SetupError : Type 0 where
  bad_password : PasswordError → SetupError
  bad_certificate bad_private_key cannot_open_acceptor cannot_bind cannot_listen : SetupError
  bad_memory_log_field bad_trusted_proxies : SetupError

pub data Outcome {ℓ} (A : Type ℓ) : Type ℓ where
  ok : A → Outcome A
  throws : SetupError → Outcome A

infixl 5 ◌>>=◌ ◌>>◌
abbrev pub ◌>>=◌ {ℓ κ} : {A : Type ℓ} {B : Type κ} → Outcome A → (A → Outcome B) → Outcome B
ok a >>= f = f a
throws e >>= f = throws e

abbrev pub ◌>>◌ {ℓ} : {B : Type ℓ} → Outcome (Unit {0}) → Outcome B → Outcome B
m >> k = m >>= λ _. k

abbrev pub require : Bool → SetupError → Outcome (Unit {0})
require true e = ok tt
require false e = throws e

abbrev pub password_of : Password → Outcome Bytes
password_of (password s) = ok s
password_of (refused e) = throws (bad_password e)

abbrev pub ok_or {ℓ} : {A : Type ℓ} → SetupError → Option A → Outcome A
ok_or e none = throws e
ok_or e (some a) = ok a

pub record Setup (F : Type 0) : Type 0 where
  pub options : Options
  pub encryption_password : Bytes
  pub keep_alive : KeepAlive
  pub max_connections : ℕ
  pub max_header_size : ℕ
  pub limits : Limits
  pub memory_log : MemoryLog
  pub trusted_proxies : F
  -- the warning about the proxies that are trusted by default
  pub warned : Bool

module _ (env : Environment) where
  open env use {
    Filter, file, use_certificate_chain_file, use_private_key_file, open_acceptor, bind, listen,
    local_port, descriptor_limit, lower, filter_from_config, filter_of,
  }

  -- The TLS context; the password is read from its file if one is named.
  unfoldable pub set_up_encryption : Options → Outcome Bytes
  set_up_encryption o = if not o.encryption_enabled then ok o.encryption_password else do
    word ←
        if is_empty o.encryption_password_file
        then ok o.encryption_password
        else password_of (read_password (file o.encryption_password_file))
    require (use_certificate_chain_file o.encryption_certificate_file) bad_certificate
    require (use_private_key_file o.encryption_private_key_file) bad_private_key
    ok word

  -- The listening socket; the result is the options' port, which is the system's choice if it was 0.
  unfoldable pub set_up_acceptor : Options → Outcome ℕ
  set_up_acceptor o = do
    require open_acceptor cannot_open_acceptor
    require (bind (o.port % 2 ^ 16)) cannot_bind
    require listen cannot_listen
    ok (if o.port == 0 then local_port else o.port)

  abbrev pub private_networks : List Bytes
  private_networks =
      codes "127.0.0.0/8"
      ∷ codes "::1"
      ∷ codes "10.0.0.0/8"
      ∷ codes "172.16.0.0/12"
      ∷ codes "192.168.0.0/16"
      ∷ codes "fc00::/7"
      ∷ []

  unfoldable pub construct : Options → Outcome (Setup Filter)
  construct o = do
    word ← set_up_encryption o
    bound ← set_up_acceptor o
    memory ← ok_or bad_memory_log_field (read_memory_log o.config)
    filter ← ok_or bad_trusted_proxies (filter_from_config o.config)
    ok (record {
      options = record o { port = bound };
      encryption_password = word;
      keep_alive = read_keep_alive o.config;
      max_connections = read_max_connections descriptor_limit o.config;
      max_header_size = read_max_header_size o.config;
      limits = read_limits lower o.config;
      memory_log = memory;
      trusted_proxies = value_or filter (filter_of private_networks);
      warned = not (is_some filter);
    })

-- The options of the reactor that a connection reads.
pub record ReactorOptions : Type 0 where
  pub stale_while_revalidate : ℕ
  pub stale_if_error : ℕ
  pub content_codings : List Bytes

-- What startAccept hands to a new connection, and what its constructors copy from the server.
unfoldable pub connection_settings : {F : Type 0} → Setup F → ReactorOptions → Settings
connection_settings s r = record {
  encryption_enabled = s.options.encryption_enabled;
  can_gzip_response = s.options.compress;
  compress_limit = s.options.compress_limit;
  max_request_size = s.options.max_request_size;
  timeout = s.options.timeout;
  dump_requests = s.options.log_requests;
  keep_alive_enabled = s.keep_alive.enabled;
  keep_alive_timeout = s.keep_alive.timeout;
  max_keep_alive_requests = s.keep_alive.max_requests;
  max_header_size = s.max_header_size;
  stale_while_revalidate = r.stale_while_revalidate;
  stale_if_error = r.stale_if_error;
  content_codings = r.content_codings;
  limits = s.limits;
}
