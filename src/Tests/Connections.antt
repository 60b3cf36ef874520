-- ===== src/Tests/Connections.antt =====
-- The properties of the connection at concrete inputs, in the small world of Demo.
use smartmet_server.Connection.State.{Conn, channel}
use smartmet_server.Connection.Regular.{
  ensure_status, write_regular_reply, start_regular_reply, compressed, name_variant,
  complete_regular, framed,
}
use smartmet_server.Connection.Timer.{on_expiry}
use smartmet_server.Connection.Headers.{set_server_headers, status_has_no_body}
use smartmet_server.Demo.{
  find_header, blank_response, fresh, demo, demo_laws, demo_version, demo_versions,
}
use smartmet_server.Text.{codes, to_string}
use smartmet_server.Connection.Stream.{get_next_chunked_chunk}
use smartmet_server.Connection.Timeout.{newest, on_expiry_closes, timeout_response}
use smartmet_server.Base.{
  refl, some, length, none, arith, true, false, [], ◌∷◌, ◌≡◌, ◌++◌, if◌then◌else◌,
}
use smartmet_server.Connection.Announcement.{client_persists, set_server_headers-agrees, connection}
use smartmet_server.World.{success, close_socket, exit_other, sync_write}
use smartmet_server.Connection.Framing.{
  all_writes, framed-header, get_next_chunked_chunk_fails, is_bodiless,
}
use smartmet_server.Connection.Delivery.{
  prepared, taken, run_writes, run_writes-whole_reply, whole_reply,
}
use smartmet_server.Utility.Coding.{select_content_encoding}

set_server_headers-agrees_example :
    client_persists
      (demo_version (set_server_headers fresh).response)
      (demo.header (set_server_headers fresh).response connection)
    ≡ (set_server_headers fresh).keep_alive
set_server_headers-agrees_example =
    set_server_headers-agrees demo_laws demo_version demo_versions fresh

on_expiry_closes_example :
    let d = on_expiry fresh.timer_generation fresh in
    let r = timeout_response fresh in
    (d.has_timed_out ≡ true)
    × (d.log
        ≡ close_socket
          ∷ sync_write (channel fresh) r.content
          ∷ sync_write (channel fresh) (demo.headers_to_buffer r)
          ∷ fresh.log)
on_expiry_closes_example = on_expiry_closes fresh

abbrev broken : Conn demo
broken = record fresh {
  keep_alive = true;
  response = record blank_response { streamed = exit_other 1 };
}

get_next_chunked_chunk_fails_example :
    let d = get_next_chunked_chunk broken in
    (newest d.log ≡ some close_socket)
    × (d.keep_alive ≡ false)
    × (all_writes d.log ≡ all_writes broken.log)
get_next_chunked_chunk_fails_example = get_next_chunked_chunk_fails 1 broken refl

framed-header_example :
    (demo.header (framed fresh).response (codes "Content-Length")
      ≡ (if is_bodiless fresh then none else some (to_string (demo.content_length fresh.response))))
    × (demo.header (framed fresh).response (codes "Transfer-Encoding") ≡ (
        if is_bodiless fresh then none else demo.header fresh.response (codes "Transfer-Encoding")))
framed-header_example = framed-header demo_laws fresh

run_writes-whole_reply_example :
    let d = (run_writes (2 ∷ 10 ∷ []) (start_regular_reply fresh)).0 in
    ((run_writes (2 ∷ 10 ∷ []) (start_regular_reply fresh)).1 ++ taken d 11
      ≡ whole_reply (prepared fresh))
    × (write_regular_reply success 11 d
        ≡ complete_regular (record d {
          final_status = success;
          sent_bytes = length (whole_reply (prepared fresh));
        }))
unfolding ensure_status framed status_has_no_body name_variant find_header compressed
    select_content_encoding
run_writes-whole_reply_example =
    run_writes-whole_reply fresh (2 ∷ 10 ∷ []) 11 refl (omega arith) refl
