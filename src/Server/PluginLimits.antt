-- ===== src/Server/PluginLimits.antt =====
-- source/Server.cpp: the plugin's limits that the constructor reads from the configuration, as
-- getRequestTimeout and getCancelOnDisconnect answer them.
use smartmet_server.Server.Configuration.{
  read_plugins, PluginSetting, assign_timeout, assign, ℤ, pos, assign_cancel, negsuc, read_plugin,
  read_limits, all_of, Config, unless_negative, general_limits,
}
use smartmet_server.Limits.{lookup, Limits, value_or, get_request_timeout, get_cancel_on_disconnect}
use smartmet_server.Base.{
  Option, some, inr, none, [], refl, Bool-cases, Bool, ℕ, inl, arith, List, ◌∷◌, ◌&&◌, ◌≡◌,
  if◌then◌else◌, sym, ap, false, ◌∙◌,
}
use smartmet_server.Text.{Bytes, same_bytes, same_bytes-eq, codes}

-- A key of a std::map has one value, the last that was assigned.
pub lookup-assign {ℓ} :
    {A : Type ℓ} (i k : Bytes) (v : A) (m : List (Bytes × A))
    → lookup i (assign k v m) ≡ (if same_bytes k i then some v else lookup i m)
unfolding lookup assign
lookup-assign i k v [] = ground arith
lookup-assign i k v ((j, u) ∷ m) = elim (Bool-cases (same_bytes j k)) [
  | inl same ↦ let e = same_bytes-eq j k same in ground (arith, e, same)
  | inr other ↦ elim (Bool-cases (same_bytes k i)) [
    | inl here ↦ let e = same_bytes-eq k i here in ground (arith, lookup-assign i k v m, e, here)
    | inr gone ↦ ground (arith, lookup-assign i k v m)
  ]
]

abbrev pub if_none {ℓ} : {A : Type ℓ} → Option A → Option A → Option A
if_none none d = d
if_none (some a) d = some a

-- The value of the last group that has the name, ignoring case, and a value.
unfoldable pub last_setting {ℓ} :
    {A : Type ℓ}
    → (Bytes → Bytes)
    → (PluginSetting → Option A)
    → Bytes
    → List PluginSetting
    → Option A
last_setting lower value k [] = none
last_setting lower value k (p ∷ ps) =
    if_none (last_setting lower value k ps)
      (if p.is_group && same_bytes (lower p.name) k then value p else none)

abbrev pub non_negative : Option ℤ → Option ℕ
non_negative none = none
non_negative (some (pos n)) = some n
non_negative (some (negsuc n)) = none

abbrev pub timeout_setting : PluginSetting → Option ℕ
timeout_setting p = non_negative p.request_timeout

abbrev pub cancel_setting : PluginSetting → Option Bool
cancel_setting p = p.cancel_on_disconnect

assign_timeout-lookup :
    (i k : Bytes) (t : Option ℤ) (m : List (Bytes × ℕ))
    → lookup i (assign_timeout k t m)
      ≡ (if same_bytes k i then if_none (non_negative t) (lookup i m) else lookup i m)
assign_timeout-lookup i k none m = ground arith
assign_timeout-lookup i k (some (pos n)) m = lookup-assign i k n m
assign_timeout-lookup i k (some (negsuc n)) m = ground arith

assign_cancel-lookup :
    (i k : Bytes) (t : Option Bool) (m : List (Bytes × Bool))
    → lookup i (assign_cancel k t m)
      ≡ (if same_bytes k i then if_none t (lookup i m) else lookup i m)
assign_cancel-lookup i k none m = ground arith
assign_cancel-lookup i k (some b) m = lookup-assign i k b m

pub if_none_assoc {ℓ} :
    {A : Type ℓ} (a b c : Option A) → if_none (if_none a b) c ≡ if_none a (if_none b c)
if_none_assoc none b c = refl
if_none_assoc (some a) b c = refl

pub value_or-if_none {ℓ} :
    {A : Type ℓ} (o : Option A) (d : A) → value_or (if_none o none) d ≡ value_or o d
value_or-if_none none d = refl
value_or-if_none (some a) d = refl

module _ (lower : Bytes → Bytes) where
  -- The value that one member of the group has for the plugin.
  abbrev own_setting {ℓ} :
      {A : Type ℓ} → (PluginSetting → Option A) → Bytes → PluginSetting → Option A
  own_setting value k p = if p.is_group && same_bytes (lower p.name) k then value p else none

  read_plugin-timeouts :
      (k : Bytes) (p : PluginSetting) (s : Limits)
      → lookup k (read_plugin lower p s).plugin_request_timeouts
        ≡ if_none (own_setting timeout_setting k p) (lookup k s.plugin_request_timeouts)
  unfolding read_plugin
  read_plugin-timeouts k p s =
      ground
        (arith, assign_timeout-lookup k (lower p.name) p.request_timeout s.plugin_request_timeouts)

  read_plugin-cancels :
      (k : Bytes) (p : PluginSetting) (s : Limits)
      → lookup k (read_plugin lower p s).plugin_cancel_on_disconnect
        ≡ if_none (own_setting cancel_setting k p) (lookup k s.plugin_cancel_on_disconnect)
  unfolding read_plugin
  read_plugin-cancels k p s = ground (
    arith,
    assign_cancel-lookup k (lower p.name) p.cancel_on_disconnect s.plugin_cancel_on_disconnect,
  )

  read_plugins-timeouts :
      (k : Bytes) (ps : List PluginSetting) (s : Limits)
      → lookup k (read_plugins lower ps s).plugin_request_timeouts
        ≡ if_none (last_setting lower timeout_setting k ps) (lookup k s.plugin_request_timeouts)
  unfolding read_plugins last_setting
  read_plugins-timeouts k [] s = refl
  read_plugins-timeouts k (p ∷ ps) s =
      let later = last_setting lower timeout_setting k ps in
      read_plugins-timeouts k ps (read_plugin lower p s)
      ∙ ap (if_none later) (read_plugin-timeouts k p s)
      ∙ sym (
          if_none_assoc later (own_setting timeout_setting k p)
            (lookup k s.plugin_request_timeouts))

  read_plugins-cancels :
      (k : Bytes) (ps : List PluginSetting) (s : Limits)
      → lookup k (read_plugins lower ps s).plugin_cancel_on_disconnect
        ≡ if_none (last_setting lower cancel_setting k ps) (lookup k s.plugin_cancel_on_disconnect)
  unfolding read_plugins last_setting
  read_plugins-cancels k [] s = refl
  read_plugins-cancels k (p ∷ ps) s =
      let later = last_setting lower cancel_setting k ps in
      read_plugins-cancels k ps (read_plugin lower p s)
      ∙ ap (if_none later) (read_plugin-cancels k p s)
      ∙ sym (
          if_none_assoc later (own_setting cancel_setting k p)
            (lookup k s.plugin_cancel_on_disconnect))

  read_plugins-globals :
      (ps : List PluginSetting) (s : Limits)
      → ((read_plugins lower ps s).request_timeout ≡ s.request_timeout)
        × ((read_plugins lower ps s).cancel_on_disconnect ≡ s.cancel_on_disconnect)
  unfolding read_plugins read_plugin
  read_plugins-globals [] s = (refl, refl)
  read_plugins-globals (p ∷ ps) s = ground (arith, read_plugins-globals ps (read_plugin lower p s))

  unless_negative-value_or :
      (t : Option ℤ) (d : ℕ) → unless_negative t d ≡ value_or (non_negative t) d
  unless_negative-value_or none d = refl
  unless_negative-value_or (some (pos n)) d = refl
  unless_negative-value_or (some (negsuc n)) d = refl

  -- The limits of a plugin after the configuration is read: the last group of "plugins" whose name is
  -- the plugin's, ignoring case, and that has a request_timeout that is not negative gives the time
  -- limit, and the last one with a cancel_on_disconnect gives that; without one, the general setting
  -- does if it is there and, for the limit, not negative, and else there is no limit and no
  -- cancellation.
  pub read_limits-of_plugin :
      (c : Config) (plugin : Bytes)
      → let ps = all_of c.plugins in
        (get_request_timeout lower (read_limits lower c) plugin
          ≡ value_or
              (last_setting lower timeout_setting (lower plugin) ps)
              (value_or (non_negative (c.lookup_int (codes "request_timeout"))) 0))
        × (get_cancel_on_disconnect lower (read_limits lower c) plugin
            ≡ value_or
                (last_setting lower cancel_setting (lower plugin) ps)
                (value_or (c.lookup_bool (codes "cancel_on_disconnect")) false))
  unfolding get_request_timeout get_cancel_on_disconnect read_limits lookup
  read_limits-of_plugin c plugin =
      let ps = all_of c.plugins in
      let k = lower plugin in
      let general = c.lookup_int (codes "request_timeout") in
      let start = general_limits c in
      let (timeout, cancel) = read_plugins-globals ps start in
      let times = last_setting lower timeout_setting k ps in
      let cancels = last_setting lower cancel_setting k ps in
      (
        rw (read_plugins-timeouts k ps start, timeout)
            (value_or-if_none times (unless_negative general 0)
              ∙ ap (value_or times) (unless_negative-value_or general 0)),
        rw (read_plugins-cancels k ps start, cancel)
            (value_or-if_none cancels
              (value_or (c.lookup_bool (codes "cancel_on_disconnect")) false)),
      )
