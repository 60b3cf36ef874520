-- ===== src/Limits.antt =====
-- source/Server.cpp: getRequestTimeout and getCancelOnDisconnect, and the settings that they read.
use smartmet_server.Base.{ℕ, Bool, List, [], ◌∷◌, Option, none, some, if◌then◌else◌}
use smartmet_server.Text.{Bytes, same_bytes}

-- std::map by name: the keys are the plugins' names in lower case.
unfoldable pub lookup {ℓ} : {A : Type ℓ} → Bytes → List (Bytes × A) → Option A
unfolding same_bytes
lookup k [] = none
lookup k ((j, v) ∷ m) = if same_bytes j k then some v else lookup k m

pub record Limits : Type 0 where
  pub request_timeout : ℕ
  pub plugin_request_timeouts : List (Bytes × ℕ)
  pub cancel_on_disconnect : Bool
  pub plugin_cancel_on_disconnect : List (Bytes × Bool)

abbrev pub value_or {ℓ} : {A : Type ℓ} → Option A → A → A
value_or none d = d
value_or (some a) d = a

unfoldable pub get_request_timeout : (Bytes → Bytes) → Limits → Bytes → ℕ
unfolding lookup
get_request_timeout lower s plugin =
    value_or (lookup (lower plugin) s.plugin_request_timeouts) s.request_timeout

unfoldable pub get_cancel_on_disconnect : (Bytes → Bytes) → Limits → Bytes → Bool
unfolding lookup
get_cancel_on_disconnect lower s plugin =
    value_or (lookup (lower plugin) s.plugin_cancel_on_disconnect) s.cancel_on_disconnect
