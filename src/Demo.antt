-- ===== src/Demo.antt =====
-- A small world for the witnesses: messages as association lists, a parser that takes whole buffers,
-- sockets that accept every byte. It stands for the libraries at concrete inputs only.
use smartmet_server.Base.{
  [], List, ℕ, true, false, Option, length, some, Bool, none, suc, ◌≡◌, ◌∷◌, ◌-◌, if◌then◌else◌,
  arith, ap, sym, refl, ◌∙◌,
}
use smartmet_server.Text.{
  same_name, Bytes, codes, contains, starts_with, to_string, ascii_lower, digits, same_bytes,
  same_bytes-eq, same_bytes_refl,
}
use smartmet_server.Connection.State.{create, Settings, Conn}
use smartmet_server.World.{
  Status, World, shutdown, Version, StreamerStatus, expectation_failed, not_implemented,
  bad_request, success, request_entity_too_large, complete, high_load, incomplete, http_1_0,
  request_header_fields_too_large, failed, not_found, streaming, service_unavailable,
  request_timeout, not_modified, Parsed, HeaderLaws, RequestLaws, http_1_1, VersionLaws,
}

abbrev pub Headers : Type 0
Headers = List (Bytes × Bytes)

unfoldable pub find_header : Headers → Bytes → Option Bytes
unfolding same_name
find_header [] j = none
find_header ((k, v) ∷ hs) j = if same_name k j then some v else find_header hs j

unfoldable pub remove_name : Headers → Bytes → Headers
unfolding same_name
remove_name [] k = []
remove_name ((j, v) ∷ hs) k = if same_name k j then remove_name hs k else (j, v) ∷ remove_name hs k

pub record DemoRequest : Type 0 where
  pub headers : Headers
  pub version : Bytes
  pub ip : Bytes
  pub is_head : Bool

pub record DemoResponse : Type 0 where
  pub headers : Headers
  pub status : ℕ
  pub version : Version
  pub content : Bytes
  pub chunked : Bool
  pub backend : Bytes
  pub streamed : StreamerStatus

abbrev pub blank_request : DemoRequest
blank_request = record { headers = []; version = codes "1.1"; ip = []; is_head = false }

abbrev pub blank_response : DemoResponse
blank_response = record {
  headers = [];
  status = 200;
  version = http_1_0;
  content = codes "data";
  chunked = false;
  backend = codes "backend1";
  streamed = streaming;
}

abbrev pub demo_code : Status → ℕ
demo_code bad_request = 400
demo_code not_found = 404
demo_code request_timeout = 408
demo_code request_entity_too_large = 413
demo_code expectation_failed = 417
demo_code request_header_fields_too_large = 431
demo_code not_implemented = 501
demo_code service_unavailable = 503
demo_code not_modified = 304
demo_code high_load = 1234
demo_code shutdown = 3210

-- "bad" is no request, "GET" is a whole one, and the rest is incomplete.
abbrev pub demo_parse : Bytes → Parsed DemoRequest
demo_parse b =
    if starts_with (codes "bad") b
    then failed
    else if starts_with (codes "GET") b
    then complete blank_request 3
    else incomplete

abbrev pub demo_digit : Bytes → Option ℕ
demo_digit [] = none
demo_digit (c ∷ s) = some (c - b'0')

abbrev pub demo : World
demo = record {
  Request = DemoRequest;
  Response = DemoResponse;
  View = Unit {0};
  new_request = blank_request;
  parse_one_request = demo_parse;
  request_header = λ q j. find_header q.headers j;
  set_request_header = λ q k v. record q { headers = (k, v) ∷ remove_name q.headers k };
  remove_request_header = λ q k. record q { headers = remove_name q.headers k };
  request_version = λ q. q.version;
  is_head = λ q. q.is_head;
  set_method_get = λ q. q;
  method_string = λ q. codes "GET";
  resource = λ q. codes "/";
  client_ip = λ q. q.ip;
  set_client_ip = λ q a. record q { ip = a };
  parameter = λ q k. none;
  uri = λ q. codes "/";
  request_content_length = λ q. 0;
  request_content = λ q. [];
  new_response = blank_response;
  stock_options_response = blank_response;
  header = λ r j. find_header r.headers j;
  set_header = λ r k v. record r { headers = (k, v) ∷ remove_name r.headers k };
  remove_header = λ r k. record r { headers = remove_name r.headers k };
  status_code = demo_code;
  set_status = λ r n. record r { status = n };
  get_status = λ r. r.status;
  set_version = λ r v. record r { version = v };
  content_length = λ r. length r.content;
  get_content = λ log r. (r.content, r);
  set_content = λ r s. record r { content = s };
  has_stream_content = λ r. r.chunked;
  is_chunked = λ r. r.chunked;
  contains_ignoring_case = contains;
  is_gateway = λ r. false;
  streaming_status = λ log r. r.streamed;
  headers_to_string = λ r. some (codes "HTTP/1.1 200 OK\r\n\r\n");
  headers_to_buffer = λ r. codes "HTTP/1.1 200 OK\r\n\r\n";
  content_to_buffer = λ r. r.content;
  originating_backend = λ r. r.backend;
  backend_port = λ r. 8080;
  run_stream_completion = λ r n. r;
  select_coding = λ q cs. codes "gzip";
  supported_codings = codes "gzip" ∷ [];
  zstd = λ s. s;
  gzip = λ s. s;
  content_coded_etag = λ etag coding. etag;
  not_modified_etag = λ q etag. etag;
  handler_view = λ q. some tt;
  is_catch_no_match = λ v. false;
  is_admin_query = λ v q. false;
  query_is_fast = λ v q. true;
  plugin_name = λ v. codes "plugin";
  is_load_high = λ log. false;
  handle =
      λ log token v q r. record { request = q; response = r; succeeded = true; interrupted = none };
  admin_pool_size = 1;
  slow_pool_size = 1;
  accepts = λ log pool task. true;
  remote_endpoint = λ log. some (codes "10.0.0.1");
  write = λ log bytes. success;
  error_message = λ e. codes "error";
  error_value = λ e. 1;
  reason_text = λ r. codes "cancelled";
  elapsed = λ log. codes "1.0";
  shutdown_requested = λ log m. false;
  resolve_client_ip = λ peer forwarded. peer;
  lower = ascii_lower;
  stoul = demo_digit;
  to_hex = λ n. digits (suc n) 16 n [];
  number = to_string;
  universal_time = λ log. record {
    weekday = 1;
    day = 2;
    month = 3;
    year = 2026;
    hours = 4;
    minutes = 5;
    seconds = 6;
  };
  build_stamp = codes "now";
}

abbrev pub demo_settings : Settings
demo_settings = record {
  encryption_enabled = false;
  can_gzip_response = true;
  compress_limit = 1000;
  max_request_size = 100;
  timeout = 60;
  dump_requests = false;
  keep_alive_enabled = true;
  keep_alive_timeout = 30;
  max_keep_alive_requests = 10;
  max_header_size = 50;
  stale_while_revalidate = 60;
  stale_if_error = 0;
  content_codings = [];
  limits = record {
    request_timeout = 20;
    plugin_request_timeouts = [];
    cancel_on_disconnect = false;
    plugin_cancel_on_disconnect = [];
  };
}

abbrev pub fresh : Conn demo
fresh = create demo demo_settings

same_name_trans : (k i j : Bytes) → same_name k i ≡ true → same_name i j ≡ same_name k j
unfolding same_name
same_name_trans k i j h =
    ap (λ x. same_bytes x (ascii_lower j)) (sym (same_bytes-eq (ascii_lower k) (ascii_lower i) h))

same_name-common :
    (k i j : Bytes) → same_name i j ≡ true → same_name k j ≡ true → same_name k i ≡ true
unfolding same_name
same_name-common k i j p q =
    let e : ascii_lower i ≡ ascii_lower k =
      same_bytes-eq (ascii_lower i) (ascii_lower j) p
      ∙ sym (same_bytes-eq (ascii_lower k) (ascii_lower j) q) in
    rw e (same_bytes_refl (ascii_lower k))

find_header-remove_name :
    (hs : Headers) (k j : Bytes)
    → find_header (remove_name hs k) j ≡ (if same_name k j then none else find_header hs j)
unfolding find_header remove_name
find_header-remove_name [] k j = ground arith
find_header-remove_name ((i, v) ∷ hs) k j =
    ground (arith, same_name_trans k i j, same_name-common k i j, find_header-remove_name hs k j)

find_header-set :
    (hs : Headers) (k v j : Bytes)
    → find_header ((k, v) ∷ remove_name hs k) j
      ≡ (if same_name k j then some v else find_header hs j)
unfolding find_header
find_header-set hs k v j = ground (arith, find_header-remove_name hs k j)

-- The demo's headers have the documented behaviour.
pub demo_laws : HeaderLaws demo
demo_laws = record {
  header-set_header = λ r k v j. find_header-set r.headers k v j;
  header-remove_header = λ r k j. find_header-remove_name r.headers k j;
  header-set_version = λ r v j. refl;
  header-set_content = λ r s j. refl;
  is_chunked-set_header = λ r k v. refl;
  lower_lem = λ s. refl;
}

-- The version of a response's status line.
abbrev pub demo_version : DemoResponse → Version
demo_version r = if r.chunked then http_1_1 else r.version

pub demo_versions : VersionLaws demo demo_version
demo_versions = record {
  version-set_version = λ r v h. ground arith;
  version-set_header = λ r k v. refl;
  version-remove_header = λ r k. refl;
  version-is_chunked = λ r h. ground arith;
}

pub demo_request_laws : RequestLaws demo
demo_request_laws = record {
  request_header-set_method_get = λ q j. refl;
  request_header-set = λ q k v j. find_header-set q.headers k v j;
  request_header-remove = λ q k j. find_header-remove_name q.headers k j;
}
