-- ===== src/Connection/Announcement.antt =====
-- setConnectionHeaders against the way a client reads a reply (RFC 9112 9.3): 1.1 persists unless told
-- to close, 1.0 only if told to keep alive.
use smartmet_server.World.{World, HeaderLaws, http_1_0, http_1_1, Version, VersionLaws}
use smartmet_server.Utility.Tokens.{has_header_token, has_token_from, list_element}
use smartmet_server.Text.{
  Bytes, ascii_lower, codes, same_name, find_char, find_first_not_blank, same_bytes,
  find_last_not_blank,
}
use smartmet_server.Base.{
  arith, not, holds, some, Bool, none, Option, ◌≡◌, if◌then◌else◌, true, refl, inl, Option-cases,
  inr, false, ◌&&◌, ◌∙◌,
}
use smartmet_server.Connection.Headers.{
  announce, is_http_1_1, set_connection_headers, append_stale_directives, keep_alive_value,
  set_server_headers, stale_value, honour_veto, stamped, settle_version,
}
use smartmet_server.Connection.State.{Conn}

unfoldable pub client_persists : Version → Option Bytes → Bool
client_persists http_1_1 h = not (holds h (λ v. has_header_token ascii_lower v (codes "close")))
client_persists http_1_0 h = holds h (λ v. has_header_token ascii_lower v (codes "keep-alive"))

abbrev pub connection : Bytes
connection = codes "Connection"

token_tests :
    (has_header_token ascii_lower (codes "close") (codes "close") ≡ true)
    × (has_header_token ascii_lower (codes "close") (codes "keep-alive") ≡ false)
    × (has_header_token ascii_lower (codes "keep-alive") (codes "keep-alive") ≡ true)
unfolding has_header_token ascii_lower has_token_from list_element find_first_not_blank find_char
    find_last_not_blank same_bytes
token_tests = (refl, refl, refl)

module _ {w : World} where
  -- Chunks to an HTTP/1.0 client, and the plugin's "Connection: close", end the persistence.
  abbrev pub negotiated : Conn w → Bool
  negotiated c =
      c.keep_alive
      && not (w.is_chunked c.response && not (is_http_1_1 c.response_version))
      && not
          (holds (w.header c.response connection) (λ v. has_header_token w.lower v (codes "close")))

module _ {w : World} (laws : HeaderLaws w) where
  open laws use {header-set_header, header-remove_header, header-set_version}

  announce-keep_alive : (c : Conn w) → (announce c).keep_alive ≡ c.keep_alive
  unfolding announce
  announce-keep_alive c = ground arith

  announce-header :
      (c : Conn w)
      → w.header (announce c).response connection ≡ (
          if not c.keep_alive
          then some (codes "close")
          else if is_http_1_1 c.response_version
          then none
          else some (codes "keep-alive"))
  unfolding announce same_name
  announce-header c =
      let r = c.response in
      let stop = w.set_header r connection (codes "close") in
      let keep = w.set_header r connection (codes "keep-alive") in
      let kept = keep_alive_value c in
      ground (
        arith,
        header-remove_header stop (codes "Keep-Alive") connection,
        header-set_header r connection (codes "close") connection,
        header-remove_header (w.remove_header r connection) (codes "Keep-Alive") connection,
        header-remove_header r connection connection,
        header-set_header keep (codes "Keep-Alive") kept connection,
        header-set_header r connection (codes "keep-alive") connection,
      )

  -- The connection stays persistent exactly if the request negotiated it, the reply is not chunked to
  -- an HTTP/1.0 client, and the plugin did not set "Connection: close".
  pub set_connection_headers-keep_alive :
      (c : Conn w) → (set_connection_headers c).keep_alive ≡ negotiated c
  unfolding set_connection_headers
  set_connection_headers-keep_alive c =
      ground (arith, header-set_version c.response c.response_version connection)

  set_connection_headers_lem :
      (c : Conn w) → set_connection_headers c ≡ announce (honour_veto (settle_version c))
  unfolding set_connection_headers
  set_connection_headers_lem c = refl

  append_stale_directives-keep_alive :
      (c : Conn w) → (append_stale_directives c).keep_alive ≡ c.keep_alive
  unfolding append_stale_directives
  append_stale_directives-keep_alive c = ground arith

  append_stale_directives-header :
      (c : Conn w)
      → w.header (append_stale_directives c).response connection ≡ w.header c.response connection
  unfolding append_stale_directives same_name
  append_stale_directives-header c =
      elim (Option-cases (w.header c.response (codes "Cache-Control"))) [
        | inl e ↦ rw (e, append_stale_directives)
        | inr (cc, e) ↦
            rw (e, append_stale_directives)
              (ground (
                arith,
                header-set_header c.response (codes "Cache-Control") (stale_value c cc) connection,
              ))
      ]

  module _ (version : w.Response → Version) (versions : VersionLaws w version) where
    open versions use {
      version-set_version, version-set_header, version-remove_header, version-is_chunked,
    }

    announce-version : (c : Conn w) → version (announce c).response ≡ version c.response
    unfolding announce
    announce-version c =
        let r = c.response in
        let stop = w.set_header r connection (codes "close") in
        let keep = w.set_header r connection (codes "keep-alive") in
        ground (
          arith,
          version-remove_header stop (codes "Keep-Alive"),
          version-set_header r connection (codes "close"),
          version-remove_header (w.remove_header r connection) (codes "Keep-Alive"),
          version-remove_header r connection,
          version-set_header keep (codes "Keep-Alive") (keep_alive_value c),
          version-set_header r connection (codes "keep-alive"),
        )

    append_stale_directives-version :
        (c : Conn w) → version (append_stale_directives c).response ≡ version c.response
    unfolding append_stale_directives
    append_stale_directives-version c =
        elim (Option-cases (w.header c.response (codes "Cache-Control"))) [
          | inl e ↦ rw (e, append_stale_directives)
          | inr (cc, e) ↦
              rw (e, append_stale_directives)
                (ground
                  (arith, version-set_header c.response (codes "Cache-Control") (stale_value c cc)))
        ]

    -- Where the connection is kept, the status line has the version of the request.
    settled-response :
        (c : Conn w)
        → let d = honour_veto (settle_version c) in
          (d.keep_alive ≡ true) → version d.response ≡ d.response_version
    unfolding honour_veto settle_version
    settled-response c k =
        ground
          (arith, version-is_chunked c.response, version-set_version c.response c.response_version)

    -- A reply that says "close" is read so in either version.
    announce-client :
        (c : Conn w) (v : Version)
        → (c.keep_alive ≡ true → v ≡ c.response_version)
        → client_persists v (w.header (announce c).response connection) ≡ (announce c).keep_alive
    unfolding client_persists
    announce-client c http_1_0 h =
        ground (arith, token_tests, h, announce-header c, announce-keep_alive c)
    announce-client c http_1_1 h =
        ground (arith, token_tests, h, announce-header c, announce-keep_alive c)

    set_connection_headers-client :
        (c : Conn w)
        → client_persists
            (version (set_connection_headers c).response)
            (w.header (set_connection_headers c).response connection)
          ≡ (set_connection_headers c).keep_alive
    set_connection_headers-client c =
        let d = honour_veto (settle_version c) in
        rw (set_connection_headers_lem c) (
          announce-client d (version (announce d).response)
            (λ k. announce-version d ∙ settled-response c k))

    -- After setServerHeaders the client reads from the version in the reply's status line and from its
    -- Connection header exactly what the server decided: it may reuse the connection if and only if
    -- itsKeepAlive is set.
    pub set_server_headers-agrees :
        (c : Conn w)
        → let d = set_server_headers c in
          client_persists (version d.response) (w.header d.response connection) ≡ d.keep_alive
    unfolding set_server_headers stamped
    set_server_headers-agrees c =
        let d = set_connection_headers (stamped c) in
        rw
          (
            append_stale_directives-header d,
            append_stale_directives-keep_alive d,
            append_stale_directives-version d,
          )
          (set_connection_headers-client (stamped c))
