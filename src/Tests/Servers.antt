-- ===== src/Tests/Servers.antt =====
-- The properties of the server object at concrete inputs.
use smartmet_server.Server.Shutdown.{
  IsLawful, await_workers, finishes, constructed, all_busy, begins, starts, tears_down,
  run_sections-IsLawful, await_workers-bound, run_sections,
}
use smartmet_server.Server.Configuration.{
  Config, negsuc, default_keep_alive, PluginSetting, read_limits, pos,
}
use smartmet_server.Server.MemoryStatus.{memory_line, jemalloc_stats, get_lines}
use smartmet_server.Server.Construction.{
  PoolOptions, Setup, Environment, Options, construct, private_networks,
}
use smartmet_server.Server.PluginLimits.{last_setting, read_limits-of_plugin}
use smartmet_server.Server.Accept.{Server}
use smartmet_server.Base.{
  ℕ, List, arith, true, false, [], some, none, refl, leb, ◌⊎◌, ◌-◌, ◌≤◌, ◌∷◌, ◌+◌, ◌≡◌,
  if◌then◌else◌,
}
use smartmet_server.Text.{same_bytes, codes, Bytes, ascii_lower}
use smartmet_server.Server.MemoryTimer.{
  start_logging, timer_run, expires, timer_run-until_shutdown, new_timer, shuts_down,
}
use smartmet_server.Limits.{get_request_timeout, get_cancel_on_disconnect}
use smartmet_server.Server.MemoryFields.{
  memory_line-fields, field_values, last_value, split_at_colon,
}
use smartmet_server.Server.Workers.{
  WorkerEvent, worker_run, leaves, await_workers-empty, creates, no_workers, publishes,
}
use smartmet_server.World.{success}
use smartmet_server.Server.Readiness.{construct-is_ok, is_ok}
use smartmet_server.Utility.Elements.{trim_left}

abbrev pub idle_server : Server
idle_server = record {
  shutdown_requested = false;
  max_connections = 2;
  connection_count = 0;
  limit_reported = false;
  open_connections = 0;
  reports = 0;
  rejected = 0;
  accepting = true;
}

run_sections-IsLawful_example :
    IsLawful
      (run_sections
        (begins ∷ starts ∷ tears_down ∷ begins ∷ tears_down ∷ finishes ∷ starts ∷ finishes ∷ [])
        constructed).calls
run_sections-IsLawful_example =
    run_sections-IsLawful
      (begins ∷ starts ∷ tears_down ∷ begins ∷ tears_down ∷ finishes ∷ starts ∷ finishes ∷ [])

await_workers-bound_example :
    let n = await_workers (λ i. 3 - i) in
    (n ≤ 2000) × ((3 - n ≡ 0) ⊎ (n ≡ 2000)) × (all_busy (λ i. 3 - i) n ≡ true)
await_workers-bound_example = await_workers-bound (λ i. 3 - i)

abbrev pub wms_settings : List PluginSetting
wms_settings =
    record {
      name = codes "WMS";
      is_group = true;
      request_timeout = some (pos 7);
      cancel_on_disconnect = none;
    }
    ∷ record {
      name = codes "wms";
      is_group = true;
      request_timeout = some (negsuc 0);
      cancel_on_disconnect = some true;
    }
    ∷ []

abbrev pub small_config : Config
small_config = record {
  exists = λ k. same_bytes k (codes "plugins");
  lookup_int = λ k. if same_bytes k (codes "request_timeout") then some (pos 30) else none;
  lookup_unsigned = λ k. none;
  lookup_bool = λ k. none;
  lookup_strings = λ k. [];
  plugins = some wms_settings;
}

read_limits-of_plugin_example :
    (get_request_timeout ascii_lower (read_limits ascii_lower small_config) (codes "Wms") ≡ 7)
    × (get_cancel_on_disconnect ascii_lower (read_limits ascii_lower small_config) (codes "Wms")
        ≡ true)
unfolding last_setting ascii_lower same_bytes
read_limits-of_plugin_example = read_limits-of_plugin ascii_lower small_config (codes "Wms")

abbrev pub small_environment : Environment
small_environment = record {
  Filter = List Bytes;
  file = λ name. none;
  use_certificate_chain_file = λ name. true;
  use_private_key_file = λ name. true;
  open_acceptor = true;
  bind = λ port. leb 1024 port;
  listen = true;
  local_port = 40000;
  descriptor_limit = some 1024;
  lower = ascii_lower;
  filter_from_config = λ c. some none;
  filter_of = λ networks. networks;
}

abbrev pub pool_options : PoolOptions
pool_options = record { min_size = 1; max_requeue_size = 10 }

abbrev pub small_options : Options
small_options = record {
  encryption_enabled = false;
  encryption_password = [];
  encryption_password_file = [];
  encryption_certificate_file = [];
  encryption_private_key_file = [];
  admin_pool = pool_options;
  slow_pool = pool_options;
  fast_pool = pool_options;
  compress = true;
  compress_limit = 1000;
  max_request_size = 131072;
  timeout = 60;
  log_requests = false;
  port = 8080;
  config = small_config;
}

construct-is_ok_example : is_ok (construct small_environment small_options) ≡ true
unfolding same_bytes
construct-is_ok_example = construct-is_ok small_environment small_options

abbrev small_setup : Setup (List Bytes)
small_setup = record {
  options = small_options;
  encryption_password = [];
  keep_alive = default_keep_alive;
  max_connections = 768;
  max_header_size = 16384;
  limits = read_limits ascii_lower small_config;
  memory_log = record { period = 0; fields = codes "RssAnon" ∷ codes "RssFile" ∷ [] };
  trusted_proxies = private_networks small_environment;
  warned = true;
}

memory_line-fields_example :
    memory_line none
      (some (codes "Name:\tsmartmetd\nRssAnon:\t  12 kB\n"))
      (codes "RssAnon" ∷ codes "Typo" ∷ [])
    ≡ some (codes "Memory: RssAnon=12 kB Typo=\n")
unfolding field_values last_value get_lines split_at_colon trim_left same_bytes jemalloc_stats
memory_line-fields_example =
    memory_line-fields none (codes "Name:\tsmartmetd\nRssAnon:\t  12 kB\n")
      (codes "RssAnon" ∷ codes "Typo" ∷ [])

timer_run-until_shutdown_example :
    let s = start_logging (new_timer 5) in
    let t =
      timer_run
        (expires success (some (codes "a")) ∷ shuts_down ∷ expires success (some (codes "b")) ∷ [])
        s in
    (t.lines ≡ codes "a" ∷ [])
    × (t.waiting ≤ 1)
    × (t.started ≡ (timer_run (expires success (some (codes "a")) ∷ []) s).started)
    × ((timer_run (expires success (some (codes "a")) ∷ []) s).waiting ≡ 1)
timer_run-until_shutdown_example =
    timer_run-until_shutdown 5 (expires success (some (codes "a")) ∷ [])
      (expires success (some (codes "b")) ∷ []) (omega arith) refl

abbrev two_workers : ℕ → List WorkerEvent
two_workers i = publishes ∷ creates ∷ creates ∷ leaves ∷ leaves ∷ []

await_workers-empty_example :
    let at = λ (i : ℕ). worker_run 2 (two_workers i) no_workers in
    let last = await_workers (λ i. (at i).running_workers) in
    (((at last).inside + (at last).to_create ≡ 0)
      × (((at last).published ≡ false) ⊎ ((worker_run 2 (leaves ∷ []) (at last)).inside ≡ 0)))
    ⊎ (last ≡ 2000)
await_workers-empty_example = await_workers-empty 2 two_workers (leaves ∷ []) (omega arith)
