-- ===== src/Connection/State.antt =====
-- include/Connection.h and include/AsyncConnection.h: the fields of a connection, and the calls that
-- every handler makes. The trace of effects has the newest first.
use smartmet_server.Base.{ℕ, ◌+◌, ◌%◌, ◌^◌, Bool, false, List, [], ◌∷◌, if◌then◌else◌}
use smartmet_server.Text.{Bytes}
use smartmet_server.Limits.{Limits}
use smartmet_server.World.{
  World, Effect, Version, http_1_0, Channel, tls, plain, ErrorCode, success, close_socket, arms,
  async_read, report_error, report_info,
}

-- What the constructor copies from the server, and the options of the reactor.
pub record Settings : Type 0 where
  pub encryption_enabled : Bool
  pub can_gzip_response : Bool
  pub compress_limit : ℕ
  pub max_request_size : ℕ
  pub timeout : ℕ
  pub dump_requests : Bool
  pub keep_alive_enabled : Bool
  pub keep_alive_timeout : ℕ
  pub max_keep_alive_requests : ℕ
  pub max_header_size : ℕ
  pub stale_while_revalidate : ℕ
  pub stale_if_error : ℕ
  pub content_codings : List Bytes
  pub limits : Limits

pub record Conn (w : World) : Type 0 where
  pub settings : Settings
  pub open settings use *
  pub timer_generation : ℕ
  pub buffer : Bytes
  pub request : w.Request
  pub response : w.Response
  pub received_bytes : ℕ
  pub response_string : Bytes
  pub pending_headers : Bytes
  pub request_count : ℕ
  pub keep_alive : Bool
  pub response_version : Version
  pub idle : Bool
  pub counted : Bool
  pub has_timed_out : Bool
  pub query_is_fast : Bool
  pub admin_query : Bool
  pub final_status : ErrorCode
  pub sent_bytes : ℕ
  pub total_streamed_bytes : ℕ
  pub backend_notified : Bool
  pub head_request : Bool
  pub expect_handled : Bool
  pub declared_content_length : ℕ
  pub prematurely_disconnected : Bool
  pub log : List (Effect w.View)

-- A connection object before anything was accepted: the constructor's initial values.
abbrev pub create : (w : World) → Settings → Conn w
create w s = record {
  settings = s;
  timer_generation = 0;
  buffer = [];
  request = w.new_request;
  response = w.new_response;
  received_bytes = 0;
  response_string = [];
  pending_headers = [];
  request_count = 0;
  keep_alive = false;
  response_version = http_1_0;
  idle = false;
  counted = false;
  has_timed_out = false;
  query_is_fast = false;
  admin_query = false;
  final_status = success;
  sent_bytes = 0;
  total_streamed_bytes = 0;
  backend_notified = false;
  head_request = false;
  expect_handled = false;
  declared_content_length = 0;
  prematurely_disconnected = false;
  log = [];
}

-- The generation is a uint64_t.
abbrev pub next_generation : ℕ → ℕ
next_generation g = (g + 1) % 2 ^ 64

module _ {w : World} where
  abbrev pub emit : Effect w.View → Conn w → Conn w
  emit e c = record c { log = e ∷ c.log }

  abbrev pub channel : Conn w → Channel
  channel c = if c.encryption_enabled then tls else plain

  abbrev pub info : Bytes → Conn w → Conn w
  info m c = emit (report_info m) c

  abbrev pub error : Bytes → Conn w → Conn w
  error m c = emit (report_error m) c

  abbrev pub drop_keep_alive : Conn w → Conn w
  drop_keep_alive c = record c { keep_alive = false }

  unfoldable pub close : Conn w → Conn w
  close c = emit close_socket c

  unfoldable pub start_read : Conn w → Conn w
  start_read c = emit (async_read (channel c)) c

  unfoldable pub arm_timer : ℕ → Conn w → Conn w
  arm_timer seconds c =
      let g = next_generation c.timer_generation in
      emit (arms seconds g) (record c { timer_generation = g })
