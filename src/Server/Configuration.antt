-- ===== src/Server/Configuration.antt =====
-- source/Server.cpp: the part of the constructor that reads the configuration. libconfig is a
-- parameter: a setting that is missing or has another type gives `none`, where lookupValue gives false.
use smartmet_server.Base.{
  List, Bool, ℕ, true, if◌then◌else◌, Option, none, not, ltb, false, [], some, ◌∷◌,
}
use smartmet_server.Text.{Bytes, codes, same_bytes}
use smartmet_server.Limits.{Limits, value_or}
use smartmet_server.Server.Accept.{default_max_connections}

-- The values of an `int` setting.
pub data ℤ : Type 0 where
  pos negsuc : ℕ → ℤ

-- A member of the group "plugins", by its place in the group.
pub record PluginSetting : Type 0 where
  pub name : Bytes
  pub is_group : Bool
  pub request_timeout : Option ℤ
  pub cancel_on_disconnect : Option Bool

pub record Config : Type 0 where
  pub exists : Bytes → Bool
  pub lookup_int : Bytes → Option ℤ
  pub lookup_unsigned : Bytes → Option ℕ
  pub lookup_bool : Bytes → Option Bool
  -- the elements of an array; `none` for an element that is no string, whose conversion throws
  pub lookup_strings : Bytes → List (Option Bytes)
  -- the members of "plugins", if there is such a group
  pub plugins : Option (List PluginSetting)

-- `if (lookupValue(name, v) && v >= 0) member = v;`
abbrev pub unless_negative : Option ℤ → ℕ → ℕ
unless_negative none d = d
unless_negative (some (pos n)) d = n
unless_negative (some (negsuc n)) d = d

-- `if (lookupValue(name, v) && v > 0) member = v;`
abbrev pub if_positive : Option ℤ → ℕ → ℕ
if_positive none d = d
if_positive (some (pos n)) d = if ltb 0 n then n else d
if_positive (some (negsuc n)) d = d

pub record KeepAlive : Type 0 where
  pub enabled : Bool
  pub timeout : ℕ
  pub max_requests : ℕ

-- The initial values of the members in include/Server.h.
abbrev pub default_keep_alive : KeepAlive
default_keep_alive = record { enabled = true; timeout = 30; max_requests = 1000 }

unfoldable pub read_keep_alive : Config → KeepAlive
read_keep_alive c =
    if c.exists (codes "keepalive")
    then record {
      enabled = value_or (c.lookup_bool (codes "keepalive.enabled")) default_keep_alive.enabled;
      timeout = if_positive (c.lookup_int (codes "keepalive.timeout")) default_keep_alive.timeout;
      max_requests =
          unless_negative (c.lookup_int (codes "keepalive.maxrequests"))
            default_keep_alive.max_requests;
    }
    else default_keep_alive

unfoldable pub read_max_connections : Option ℕ → Config → ℕ
read_max_connections soft_limit c =
    unless_negative (c.lookup_int (codes "maxconnections")) (default_max_connections soft_limit)

unfoldable pub read_max_header_size : Config → ℕ
read_max_header_size c = unless_negative (c.lookup_int (codes "maxheadersize")) 16384

-- `map[name] = value`
unfoldable pub assign {ℓ} : {A : Type ℓ} → Bytes → A → List (Bytes × A) → List (Bytes × A)
assign k v [] = (k, v) ∷ []
assign k v ((j, u) ∷ m) =
    let rest = assign k v m in if same_bytes j k then (j, v) ∷ m else (j, u) ∷ rest

abbrev pub assign_timeout : Bytes → Option ℤ → List (Bytes × ℕ) → List (Bytes × ℕ)
assign_timeout name none m = m
assign_timeout name (some (pos n)) m = assign name n m
assign_timeout name (some (negsuc n)) m = m

abbrev pub assign_cancel : Bytes → Option Bool → List (Bytes × Bool) → List (Bytes × Bool)
assign_cancel name none m = m
assign_cancel name (some b) m = assign name b m

-- One round of the loop over the plugins.
unfoldable pub read_plugin : (Bytes → Bytes) → PluginSetting → Limits → Limits
read_plugin lower p s = if not p.is_group then s else record s {
  plugin_request_timeouts =
      assign_timeout (lower p.name) p.request_timeout s.plugin_request_timeouts;
  plugin_cancel_on_disconnect =
      assign_cancel (lower p.name) p.cancel_on_disconnect s.plugin_cancel_on_disconnect;
}

unfoldable pub read_plugins : (Bytes → Bytes) → List PluginSetting → Limits → Limits
read_plugins lower [] s = s
read_plugins lower (p ∷ ps) s = read_plugins lower ps (read_plugin lower p s)

abbrev pub all_of : Option (List PluginSetting) → List PluginSetting
all_of none = []
all_of (some ps) = ps

-- The limits that hold for every plugin.
abbrev pub general_limits : Config → Limits
general_limits c = record {
  request_timeout = unless_negative (c.lookup_int (codes "request_timeout")) 0;
  plugin_request_timeouts = [];
  cancel_on_disconnect = value_or (c.lookup_bool (codes "cancel_on_disconnect")) false;
  plugin_cancel_on_disconnect = [];
}

unfoldable pub read_limits : (Bytes → Bytes) → Config → Limits
read_limits lower c = read_plugins lower (all_of c.plugins) (general_limits c)

-- The conversions of the array's elements, of which the first that is no string throws.
unfoldable pub all_strings : List (Option Bytes) → Option (List Bytes)
all_strings [] = some []
all_strings (none ∷ es) = none
all_strings (some s ∷ es) = elim (all_strings es) [ none ↦ none | some l ↦ some (s ∷ l) ]

pub record MemoryLog : Type 0 where
  pub period : ℕ
  pub fields : List Bytes

unfoldable pub read_memory_log : Config → Option MemoryLog
unfolding all_strings
read_memory_log c =
    let period =
      if c.exists (codes "logmemoryuse")
      then value_or (c.lookup_unsigned (codes "logmemoryuse")) 0
      else 0 in
    if c.exists (codes "logmemoryfields")
    then elim (all_strings (c.lookup_strings (codes "logmemoryfields"))) [
      | none ↦ none
      | some l ↦ some (record { period = period; fields = l })
    ]
    else some (record { period = period; fields = codes "RssAnon" ∷ codes "RssFile" ∷ [] })
