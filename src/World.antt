-- ===== src/World.antt =====
-- What the server calls and does not implement: the HTTP messages, the reactor, the thread pools and
-- the IP filter of smartmet-library-spine, the helpers of smartmet-library-macgyver, the sockets and
-- error codes of boost::asio, and the compressors of boost::iostreams. All of it is a parameter: a
-- record of functions. What may differ from call to call (a write's outcome, a full task queue, the
-- shutdown flag, a stream's progress) is a function of the trace of effects so far, hence arbitrary.
use smartmet_server.Base.{ℕ, ◌≡◌, Bool, true, List, Option, none, some, if◌then◌else◌, false}
use smartmet_server.Text.{Bytes, same_name, ascii_lower}

-- boost::system::error_code, by the values that the code tells apart.
pub data ErrorCode : Type 0 where
  success eof operation_aborted : ErrorCode
  failure : ℕ → ErrorCode

abbrev pub is_error : ErrorCode → Bool
is_error success = Bool.false
is_error eof = true
is_error operation_aborted = true
is_error (failure n) = true

-- The statuses of Spine::HTTP::Status that the code names.
pub data Status : Type 0 where
  bad_request not_found request_timeout request_entity_too_large : Status
  request_header_fields_too_large expectation_failed service_unavailable : Status
  not_implemented not_modified high_load shutdown : Status

-- ContentStreamer::StreamerStatus: OK, EXIT_OK and any other.
pub data StreamerStatus : Type 0 where
  streaming exit_ok : StreamerStatus
  exit_other : ℕ → StreamerStatus

-- The reply versions "1.0" and "1.1".
pub data Version : Type 0 where
  http_1_0 http_1_1 : Version

-- itsSocket when encryption is enabled, socket() otherwise.
pub data Channel : Type 0 where
  tls plain : Channel

pub data Pool : Type 0 where
  admin slow fast : Pool

pub data Task (V : Type 0) : Type 0 where
  completed_read : V → Task V
  next_chunk next_chunked_chunk : Task V

-- The handler that an asynchronous write calls when it is done.
pub data Writer : Type 0 where
  stream_reply chunked_reply final_chunk regular_reply : Writer

-- Where the shutdown flag is read.
pub data Moment : Type 0 where
  at_read at_negotiation at_finish : Moment

-- Fmi::CancellationToken::Reason.
pub data Reason : Type 0 where
  disconnected timed_out : Reason

-- What a handler does to the outside, one constructor for each kind of call. `arms` has the seconds
-- and the generation that the wait is stamped with.
pub data Effect (V : Type 0) : Type 0 where
  async_read disconnect_listen handshake : Channel → Effect V
  async_write : Channel → Writer → Bytes → Effect V
  sync_write : Channel → Bytes → Effect V
  close_socket cancel_socket cancel_timer post_read disable_nagle : Effect V
  arms : ℕ → ℕ → Effect V
  schedule : Pool → Task V → Effect V
  started_hook : Bytes → Effect V
  finished_hook : Bytes → ErrorCode → Effect V
  backend_finished : Bytes → ℕ → StreamerStatus → Effect V
  stream_completed : ℕ → Effect V
  report_error report_info : Bytes → Effect V

-- What parseOneRequest returns.
pub data Parsed (R : Type 0) : Type 0 where
  complete : R → ℕ → Parsed R
  failed incomplete : Parsed R

-- The universal time as makeDateString reads it.
pub record UtcTime : Type 0 where
  pub weekday : ℕ
  pub day : ℕ
  pub month : ℕ
  pub year : ℕ
  pub hours : ℕ
  pub minutes : ℕ
  pub seconds : ℕ

-- The token of Fmi: a deadline in seconds from now, and whether the disconnect probe is set.
pub record CancellationToken : Type 0 where
  pub deadline : Option ℕ
  pub probed : Bool

-- What HandlerView::handle leaves behind under the token.
pub record Handled (Q R : Type 0) : Type 0 where
  pub request : Q
  pub response : R
  pub succeeded : Bool
  pub interrupted : Option Reason

pub record World : Type 1 where
  pub Request : Type 0
  pub Response : Type 0
  pub View : Type 0
  -- Spine::HTTP::Request
  pub new_request : Request
  pub parse_one_request : Bytes → Parsed Request
  pub request_header : Request → Bytes → Option Bytes
  pub set_request_header : Request → Bytes → Bytes → Request
  pub remove_request_header : Request → Bytes → Request
  pub request_version : Request → Bytes
  pub is_head : Request → Bool
  pub set_method_get : Request → Request
  pub method_string : Request → Bytes
  pub resource : Request → Bytes
  pub client_ip : Request → Bytes
  pub set_client_ip : Request → Bytes → Request
  pub parameter : Request → Bytes → Option Bytes
  pub uri : Request → Bytes
  pub request_content_length : Request → ℕ
  pub request_content : Request → Bytes
  -- Spine::HTTP::Response
  pub new_response : Response
  pub stock_options_response : Response
  pub header : Response → Bytes → Option Bytes
  pub set_header : Response → Bytes → Bytes → Response
  pub remove_header : Response → Bytes → Response
  pub status_code : Status → ℕ
  pub set_status : Response → ℕ → Response
  pub get_status : Response → ℕ
  pub set_version : Response → Version → Response
  pub content_length : Response → ℕ
  pub get_content : List (Effect View) → Response → Bytes × Response
  pub set_content : Response → Bytes → Response
  pub has_stream_content : Response → Bool
  pub is_chunked : Response → Bool
  pub contains_ignoring_case : Bytes → Bytes → Bool  -- boost::algorithm::icontains
  pub is_gateway : Response → Bool
  pub streaming_status : List (Effect View) → Response → StreamerStatus
  -- `none` is the runtime_error of a response with no status
  pub headers_to_string : Response → Option Bytes
  pub headers_to_buffer : Response → Bytes
  pub content_to_buffer : Response → Bytes
  pub originating_backend : Response → Bytes
  pub backend_port : Response → ℕ
  pub run_stream_completion : Response → ℕ → Response
  -- content codings
  pub select_coding : Request → List Bytes → Bytes
  pub supported_codings : List Bytes
  pub zstd : Bytes → Bytes
  pub gzip : Bytes → Bytes
  pub content_coded_etag : Bytes → Bytes → Bytes
  pub not_modified_etag : Request → Bytes → Bytes
  -- Spine::Reactor, Spine::HandlerView and the thread pools
  pub handler_view : Request → Option View
  pub is_catch_no_match : View → Bool
  pub is_admin_query : View → Request → Bool
  pub query_is_fast : View → Request → Bool
  pub plugin_name : View → Bytes
  pub is_load_high : List (Effect View) → Bool
  pub handle :
      List (Effect View) → CancellationToken → View → Request → Response → Handled Request Response
  pub admin_pool_size : ℕ
  pub slow_pool_size : ℕ
  pub accepts : List (Effect View) → Pool → Task View → Bool
  -- sockets; `none` where remote_endpoint throws
  pub remote_endpoint : List (Effect View) → Option Bytes
  pub write : List (Effect View) → Bytes → ErrorCode
  pub error_message : ErrorCode → Bytes
  pub error_value : ErrorCode → ℕ
  pub reason_text : Reason → Bytes
  pub elapsed : List (Effect View) → Bytes
  pub shutdown_requested : List (Effect View) → Moment → Bool
  -- the IP filter with the trusted proxies, given the peer and X-Forwarded-For
  pub resolve_client_ip : Bytes → Option Bytes → Bytes
  -- Fmi
  pub lower : Bytes → Bytes
  pub stoul : Bytes → Option ℕ
  pub to_hex : ℕ → Bytes  -- Fmi::to_string("%x", n)
  pub number : ℕ → Bytes  -- Fmi::to_string
  pub universal_time : List (Effect View) → UtcTime
  pub build_stamp : Bytes

-- The documented behaviour of Spine::HTTP::Response's header map: the names ignore case, a header
-- that is set is found, one that is removed is not, and no other header changes; the other setters
-- leave the headers alone, and Fmi::ascii_tolower_copy lowers the ASCII letters.
pub record HeaderLaws (w : World) : Type 0 where
  pub header-set_header :
      (r : w.Response) (k v j : Bytes)
      → w.header (w.set_header r k v) j ≡ (if same_name k j then some v else w.header r j)
  pub header-remove_header :
      (r : w.Response) (k j : Bytes)
      → w.header (w.remove_header r k) j ≡ (if same_name k j then none else w.header r j)
  pub header-set_version :
      (r : w.Response) (v : Version) (j : Bytes) → w.header (w.set_version r v) j ≡ w.header r j
  pub header-set_content :
      (r : w.Response) (s j : Bytes) → w.header (w.set_content r s) j ≡ w.header r j
  pub is_chunked-set_header :
      (r : w.Response) (k v : Bytes) → w.is_chunked (w.set_header r k v) ≡ w.is_chunked r
  pub lower_lem : (s : Bytes) → w.lower s ≡ ascii_lower s

-- The documented behaviour of the version that Spine::HTTP::Response writes into its status line:
-- setVersion sets it on a response that is not chunked, and the headers leave it alone; and a chunked response is HTTP/1.1, which Spine
-- forces when a stream of unknown length is set as the content.
pub record VersionLaws (w : World) (version : w.Response → Version) : Type 0 where
  pub version-set_version :
      (r : w.Response) (v : Version) → w.is_chunked r ≡ false → version (w.set_version r v) ≡ v
  pub version-set_header : (r : w.Response) (k v : Bytes) → version (w.set_header r k v) ≡ version r
  pub version-remove_header :
      (r : w.Response) (k : Bytes) → version (w.remove_header r k) ≡ version r
  pub version-is_chunked : (r : w.Response) → w.is_chunked r ≡ true → version r ≡ http_1_1

-- The same of Spine::HTTP::Request's headers.
pub record RequestLaws (w : World) : Type 0 where
  pub request_header-set_method_get :
      (q : w.Request) (j : Bytes) → w.request_header (w.set_method_get q) j ≡ w.request_header q j
  pub request_header-set :
      (q : w.Request) (k v j : Bytes)
      → w.request_header (w.set_request_header q k v) j
        ≡ (if same_name k j then some v else w.request_header q j)
  pub request_header-remove :
      (q : w.Request) (k j : Bytes)
      → w.request_header (w.remove_request_header q k) j
        ≡ (if same_name k j then none else w.request_header q j)
