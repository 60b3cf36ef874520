-- ===== src/Connection/Framing.antt =====
-- How a reply's body is framed: the headers of a regular reply, and the end of a streamed one.
use smartmet_server.World.{
  World, StreamerStatus, HeaderLaws, exit_other, async_write, close_socket, Effect, sync_write,
}
use smartmet_server.Connection.Regular.{
  notify_backend_finished, finalize_stream_logging, compressed, framed, unframed,
}
use smartmet_server.Connection.Reply.{finish_response}
use smartmet_server.Connection.Awaiting.{awaits}
use smartmet_server.Connection.Stream.{
  end_stream, chunked_by_status, flush_pending_headers, abort_chunked, get_next_chunked_chunk,
}
use smartmet_server.Connection.State.{Conn, close}
use smartmet_server.Base.{
  false, arith, ◌≡◌, ◌≢◌, List, some, ℕ, none, [], ◌||◌, ◌&&◌, ◌∷◌, if◌then◌else◌, Bool, is_empty,
}
use smartmet_server.Connection.Timeout.{newest}
use smartmet_server.Text.{Bytes, ascii_lower, codes, to_string, same_name}
use smartmet_server.Utility.Coding.{select_content_encoding}
use smartmet_server.Connection.Headers.{status_has_no_body, on_response}

-- The bytes that each write of a trace was given, newest first.
abbrev pub all_writes : {V : Type 0} → List (Effect V) → List Bytes
all_writes [] = []
all_writes (async_write ch k b ∷ log) = b ∷ all_writes log
all_writes (sync_write ch b ∷ log) = b ∷ all_writes log
all_writes (_ ∷ log) = all_writes log

module _ {w : World} where
  -- A streamed reply that did not deliver the announced length is the last on its connection.
  pub end_stream_mismatch :
      (s : StreamerStatus) (c : Conn w)
      → c.total_streamed_bytes ≢ c.declared_content_length
      → ((end_stream s c).keep_alive ≡ false) × (awaits (end_stream s c).log ≡ false)
  unfolding end_stream finalize_stream_logging notify_backend_finished finish_response awaits
  end_stream_mismatch s c h = ground arith

  -- A chunked stream that fails is left without its last chunk: nothing is written any more, at once or
  -- later, but the pending headers if there are any; the persistence is off and the socket is closed.
  pub get_next_chunked_chunk_fails :
      (n : ℕ) (c : Conn w)
      → w.streaming_status c.log c.response ≡ exit_other n
      → let d = get_next_chunked_chunk c in
        (newest d.log ≡ some close_socket)
        × (d.keep_alive ≡ false)
        × (all_writes d.log ≡ (
            if is_empty c.pending_headers
            then all_writes c.log
            else c.pending_headers ∷ all_writes c.log))
  unfolding chunked_by_status abort_chunked flush_pending_headers finalize_stream_logging
      notify_backend_finished close get_next_chunked_chunk
  get_next_chunked_chunk_fails n c e = rw (e, get_next_chunked_chunk) (ground arith)

  -- The backend hooks hear of one response at most once.
  pub notify_backend_finished_twice :
      (s t : StreamerStatus) (c : Conn w)
      → notify_backend_finished t (notify_backend_finished s c) ≡ notify_backend_finished s c
  unfolding notify_backend_finished
  notify_backend_finished_twice s t c = ground arith

  -- A response that the plugin or the backend has coded already is sent as it is.
  pub compressed_once :
      (c : Conn w) (v : Bytes)
      → w.header c.response (codes "Content-Encoding") ≡ some v
      → compressed c ≡ c
  unfolding compressed select_content_encoding
  compressed_once c v e = ground arith

  -- A reply that has no body: by its status, or to HEAD of a chunked resource.
  abbrev pub is_bodiless : Conn w → Bool
  is_bodiless c =
      status_has_no_body (w.get_status c.response) || (c.head_request && w.is_chunked c.response)

module _ {w : World} (laws : HeaderLaws w) where
  open laws use {header-set_header, header-remove_header, header-set_content}

  unframed-header :
      (c : Conn w)
      → (w.header (unframed c).response (codes "Content-Length") ≡ none)
        × (w.header (unframed c).response (codes "Transfer-Encoding") ≡ none)
  unfolding same_name ascii_lower
  unframed-header c =
      let r = c.response in
      let r' = w.remove_header r (codes "Content-Length") in
      ground (
        arith,
        header-remove_header r' (codes "Transfer-Encoding") (codes "Content-Length"),
        header-remove_header r (codes "Content-Length") (codes "Content-Length"),
        header-remove_header r' (codes "Transfer-Encoding") (codes "Transfer-Encoding"),
      )

  -- The header section of a regular reply frames its body: a reply without a body, by its status or to
  -- HEAD of a chunked resource, has neither framing header; any other has the length of the content as
  -- its Content-Length, and its Transfer-Encoding as it was.
  pub framed-header :
      (c : Conn w)
      → (w.header (framed c).response (codes "Content-Length")
          ≡ (if is_bodiless c then none else some (to_string (w.content_length c.response))))
        × (w.header (framed c).response (codes "Transfer-Encoding")
            ≡ (if is_bodiless c then none else w.header c.response (codes "Transfer-Encoding")))
  unfolding framed same_name ascii_lower
  framed-header c =
      let n = to_string (w.content_length c.response) in
      ground (
        arith,
        unframed-header c,
        unframed-header (on_response (λ r. w.set_content r []) c),
        header-set_header c.response (codes "Content-Length") n (codes "Content-Length"),
        header-set_header c.response (codes "Content-Length") n (codes "Transfer-Encoding"),
      )
