-- ===== src/Connection/Headers.antt =====
-- source/AsyncConnection.cpp: setServerHeaders with setConnectionHeaders and appendStaleDirectives,
-- evaluateKeepAlive, statusHasNoBody and stripHopByHopHeaders.
use smartmet_server.Base.{
  ℕ, ◌+◌, ◌-◌, ◌%◌, ◌^◌, Bool, true, false, not, ◌&&◌, ◌||◌, List, [], ◌∷◌, ◌++◌, Option, none,
  some, ltb, leb, ◌==◌, if◌then◌else◌, is_empty, holds,
}
use smartmet_server.Text.{Bytes, codes, contains, to_string}
use smartmet_server.World.{World, Version, http_1_0, http_1_1, at_negotiation}
use smartmet_server.Utility.Tokens.{has_header_token, listed}
use smartmet_server.Utility.Files.{make_date_string}
use smartmet_server.Connection.State.{Conn, drop_keep_alive}

unfoldable pub status_has_no_body : ℕ → Bool
status_has_no_body code = (leb 100 code && ltb code 200) || code == 204 || code == 304

abbrev pub is_http_1_1 : Version → Bool
is_http_1_1 http_1_0 = false
is_http_1_1 http_1_1 = true

-- `a - b` in std::size_t.
abbrev pub sub_size : ℕ → ℕ → ℕ
sub_size a b = (a + 2 ^ 64 - b) % 2 ^ 64

abbrev pub hop_by_hop : List Bytes
hop_by_hop =
    codes "Connection"
    ∷ codes "Keep-Alive"
    ∷ codes "Proxy-Connection"
    ∷ codes "Proxy-Authenticate"
    ∷ codes "Proxy-Authorization"
    ∷ codes "TE"
    ∷ codes "Trailer"
    ∷ []

abbrev pub listed_in : Option Bytes → List Bytes
listed_in none = []
listed_in (some v) = listed v

module _ (w : World) where
  open w use {Request, Response, header, set_header, contains_ignoring_case, remove_request_header}

  unfoldable pub vary_value : Response → Option Bytes
  vary_value r = elim (header r (codes "Vary")) [
    | none ↦ some (codes "Accept-Encoding")
    | some v ↦
        if is_empty v
        then some (codes "Accept-Encoding")
        else if contains_ignoring_case v (codes "Accept-Encoding")
        then none
        else some (v ++ codes ", Accept-Encoding")
  ]

  unfoldable pub set_vary : Response → Response
  set_vary r = elim (vary_value r) [ none ↦ r | some v ↦ set_header r (codes "Vary") v ]

  unfoldable pub remove_all : List Bytes → Request → Request
  remove_all [] q = q
  remove_all (n ∷ ns) q = remove_all ns (remove_request_header q n)

module _ {w : World} where
  open w use {
    Request, Response, header, set_header, remove_header, is_chunked, set_version, lower, number,
    universal_time, build_stamp, request_header, shutdown_requested,
  }

  abbrev pub on_response : (Response → Response) → Conn w → Conn w
  on_response f c = record c { response = f c.response }

  -- The first half of setConnectionHeaders: the version, and what ends the persistence.
  unfoldable pub settle_version : Conn w → Conn w
  settle_version c =
      if is_chunked c.response
      then if is_http_1_1 c.response_version then c else drop_keep_alive c
      else on_response (λ r. set_version r c.response_version) c

  unfoldable pub honour_veto : Conn w → Conn w
  honour_veto c =
      if holds (header c.response (codes "Connection"))
        (λ v. has_header_token lower v (codes "close"))
      then drop_keep_alive c
      else c

  unfoldable pub keep_alive_value : Conn w → Bytes
  keep_alive_value c =
      let value = codes "timeout=" ++ number c.keep_alive_timeout in
      if ltb 0 c.max_keep_alive_requests
      then value ++ codes ", max=" ++ number (sub_size c.max_keep_alive_requests c.request_count)
      else value

  unfoldable pub announce : Conn w → Conn w
  announce c =
      if not c.keep_alive
      then on_response
          (λ r.
            remove_header (set_header r (codes "Connection") (codes "close")) (codes "Keep-Alive"))
          c
      else if is_http_1_1 c.response_version
      then on_response
          (λ r. remove_header (remove_header r (codes "Connection")) (codes "Keep-Alive")) c
      else on_response
          (λ r.
            set_header (set_header r (codes "Connection") (codes "keep-alive")) (codes "Keep-Alive")
              (keep_alive_value c))
          c

  unfoldable pub set_connection_headers : Conn w → Conn w
  unfolding settle_version honour_veto announce
  set_connection_headers c = announce (honour_veto (settle_version c))

  unfoldable pub stale_value : Conn w → Bytes → Bytes
  stale_value c cc =
      let updated =
        if ltb 0 c.stale_while_revalidate
        then cc ++ codes ", stale-while-revalidate=" ++ to_string c.stale_while_revalidate
        else cc in
      if ltb 0 c.stale_if_error
      then updated ++ codes ", stale-if-error=" ++ to_string c.stale_if_error
      else updated

  unfoldable pub append_stale_directives : Conn w → Conn w
  append_stale_directives c = elim (header c.response (codes "Cache-Control")) [
    | none ↦ c
    | some cc ↦
        if (ltb 0 c.stale_while_revalidate || ltb 0 c.stale_if_error)
          && contains cc (codes "max-age")
          && not (contains cc (codes "stale-"))
        then on_response (λ r. set_header r (codes "Cache-Control") (stale_value c cc)) c
        else c
  ]

  -- The headers that do not depend on the connection.
  unfoldable pub stamped : Conn w → Conn w
  stamped c =
      let date = make_date_string (universal_time c.log) in
      let server = codes "SmartMet Server (" ++ build_stamp ++ codes ")" in
      record c {
        response =
            set_header (set_vary w (set_header c.response (codes "Server") server)) (codes "Date")
              date;
      }

  unfoldable pub set_server_headers : Conn w → Conn w
  set_server_headers c = append_stale_directives (set_connection_headers (stamped c))

  -- The `const` method: it only decides.
  unfoldable pub evaluate_keep_alive : Conn w → Bool
  evaluate_keep_alive c =
      if not c.keep_alive_enabled
      then false
      else if shutdown_requested c.log at_negotiation
      then false
      else if ltb 0 c.max_keep_alive_requests && leb c.max_keep_alive_requests c.request_count
      then false
      else if is_http_1_1 c.response_version
      then not (
          holds (request_header c.request (codes "Connection"))
            (λ v. has_header_token lower v (codes "close")))
      else elim (request_header c.request (codes "Connection")) [
        | some v ↦ has_header_token lower v (codes "keep-alive")
        | none ↦
            holds (request_header c.request (codes "Proxy-Connection"))
              (λ v. has_header_token lower v (codes "keep-alive"))
      ]

  unfoldable pub strip_hop_by_hop_headers : Conn w → Conn w
  strip_hop_by_hop_headers c =
      let named = listed_in (request_header c.request (codes "Connection")) in
      record c { request = remove_all w named (remove_all w hop_by_hop c.request) }
