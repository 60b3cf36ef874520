-- ===== src/Server/Readiness.antt =====
-- source/Server.cpp: when the constructor returns, and what the server that it makes satisfies.
use smartmet_server.Base.{
  List, [], Option, not, ℕ, is_some, Bool, false, none, some, arith, is_empty, true, refl, ◌⊎◌, ◌^◌,
  ◌≡◌, ◌<◌, ◌≤◌, ◌%◌, ◌&&◌, ◌||◌, ◌∷◌, ◌==◌, if◌then◌else◌,
}
use smartmet_server.Server.Configuration.{
  all_strings, read_memory_log, read_keep_alive, Config, read_max_connections,
}
use smartmet_server.Utility.Files.{Password, refused, password, read_password}
use smartmet_server.Server.Construction.{
  Outcome, Environment, ok, set_up_acceptor, construct, Options, set_up_encryption, Setup, throws,
  ok_or, bad_trusted_proxies, bad_memory_log_field, ◌>>=◌,
}
use smartmet_server.Server.Accept.{default_max_connections}
use smartmet_server.Text.{Bytes, codes}
use smartmet_server.Server.PluginLimits.{non_negative}

abbrev pub is_ok {ℓ} : {A : Type ℓ} → Outcome A → Bool
is_ok (ok a) = true
is_ok (throws e) = false

abbrev pub is_password : Password → Bool
is_password (password s) = true
is_password (refused e) = false

-- Each element of the array is a string.
abbrev pub all_some {ℓ} : {A : Type ℓ} → List (Option A) → Bool
all_some [] = true
all_some (none ∷ es) = false
all_some (some a ∷ es) = all_some es

all_strings-is_some : (es : List (Option Bytes)) → is_some (all_strings es) ≡ all_some es
unfolding all_strings
all_strings-is_some [] = refl
all_strings-is_some (none ∷ es) = refl
all_strings-is_some (some s ∷ es) = ground (arith, all_strings-is_some es)

-- A chain that returns has run its first step.
bind-ok {ℓ κ} :
    {A : Type ℓ} {B : Type κ} (m : Outcome A) (f : A → Outcome B) (b : B)
    → (m >>= f) ≡ ok b
    → (a : A) × (m ≡ ok a) × (f a ≡ ok b)
bind-ok (ok a) f b h = (a, refl, h)
bind-ok (throws e) f b h = absurd (cc h)

module _ (env : Environment) where
  abbrev pub encryption_ready : Options → Bool
  encryption_ready o =
      not o.encryption_enabled
      || ((is_empty o.encryption_password_file
            || is_password (read_password (env.file o.encryption_password_file)))
          && (env.use_certificate_chain_file o.encryption_certificate_file
              && env.use_private_key_file o.encryption_private_key_file))

  abbrev pub acceptor_ready : Options → Bool
  acceptor_ready o = env.open_acceptor && (env.bind (o.port % 2 ^ 16) && env.listen)

  abbrev pub memory_log_ready : Config → Bool
  memory_log_ready c =
      not (c.exists (codes "logmemoryfields"))
      || all_some (c.lookup_strings (codes "logmemoryfields"))

  set_up_encryption-is_ok : (o : Options) → is_ok (set_up_encryption env o) ≡ encryption_ready o
  unfolding set_up_encryption
  set_up_encryption-is_ok o = ground arith

  set_up_acceptor-is_ok : (o : Options) → is_ok (set_up_acceptor env o) ≡ acceptor_ready o
  unfolding set_up_acceptor
  set_up_acceptor-is_ok o = ground arith

  read_memory_log-is_some : (c : Config) → is_some (read_memory_log c) ≡ memory_log_ready c
  unfolding read_memory_log
  read_memory_log-is_some c =
      ground (arith, all_strings-is_some (c.lookup_strings (codes "logmemoryfields")))

  -- The constructor returns exactly when the password can be read, the certificate and the key are
  -- accepted (all three only if encryption is enabled), the socket opens, binds and listens, the fields
  -- of the memory log are strings, and the trusted proxies are valid. Otherwise it throws.
  pub construct-is_ok :
      (o : Options)
      → is_ok (construct env o) ≡ (
          encryption_ready o
          && (acceptor_ready o
              && (memory_log_ready o.config && is_some (env.filter_from_config o.config))))
  unfolding construct
  construct-is_ok o =
      ground (
        arith,
        set_up_encryption-is_ok o,
        set_up_acceptor-is_ok o,
        read_memory_log-is_some o.config,
      )

  read_keep_alive-timeout : (c : Config) → 0 < (read_keep_alive c).timeout
  unfolding read_keep_alive
  read_keep_alive-timeout c = ground arith

  default_max_connections-bound : (l : Option ℕ) → 64 ≤ default_max_connections l
  unfolding default_max_connections
  default_max_connections-bound none = omega arith
  default_max_connections-bound (some soft) = omega arith

  read_max_connections-bound :
      (l : Option ℕ) (c : Config)
      → (64 ≤ read_max_connections l c)
        ⊎ (some (read_max_connections l c) ≡ non_negative (c.lookup_int (codes "maxconnections")))
  unfolding read_max_connections
  read_max_connections-bound l c = ground (arith, default_max_connections-bound l)

  set_up_acceptor-port :
      (o : Options) (n : ℕ)
      → set_up_acceptor env o ≡ ok n
      → n ≡ (if o.port == 0 then env.local_port else o.port)
  unfolding set_up_acceptor
  set_up_acceptor-port o n h = ground arith

  -- A server that was constructed waits a positive time for the next request of a connection, allows at
  -- least 64 connections or as many as the configuration says, and has the port of the options, or the
  -- system's if that was 0.
  pub construct-bounds :
      (o : Options) (s : Setup env.Filter)
      → construct env o ≡ ok s
      → (0 < s.keep_alive.timeout)
        × ((64 ≤ s.max_connections)
            ⊎ (some s.max_connections
                ≡ non_negative (o.config.lookup_int (codes "maxconnections"))))
        × (s.options.port ≡ (if o.port == 0 then env.local_port else o.port))
  unfolding construct
  construct-bounds o s h =
      let (word, e1, h1) = bind-ok (set_up_encryption env o) _ s h in
      let (bound, e2, h2) = bind-ok (set_up_acceptor env o) _ s h1 in
      let (memory, e3, h3) =
        bind-ok (ok_or bad_memory_log_field (read_memory_log o.config)) _ s h2 in
      let (filter, e4, h4) =
        bind-ok (ok_or bad_trusted_proxies (env.filter_from_config o.config)) _ s h3 in
      ground (
        arith,
        h4,
        read_keep_alive-timeout o.config,
        read_max_connections-bound env.descriptor_limit o.config,
        set_up_acceptor-port o bound e2,
      )
