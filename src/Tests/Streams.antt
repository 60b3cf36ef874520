-- ===== src/Tests/Streams.antt =====
-- The properties of the streamed replies at concrete inputs.
use smartmet_server.Connection.Streaming.{run_chunks, Script}
use smartmet_server.Connection.Chunks.{decode_chunks}
use smartmet_server.World.{World, stream_reply, exit_ok, streaming}
use smartmet_server.Base.{
  ℕ, List, true, take, is_empty, some, [], refl, length, drop, ◌≡◌, ◌+◌, ◌&&◌, ◌==◌, ◌++◌, ◌∷◌,
  if◌then◌else◌, arith,
}
use smartmet_server.Connection.ChunkedReply.{chunks_run, chunks_run-decodes, last_run}
use smartmet_server.Text.{Bytes, codes, digit, digits}
use smartmet_server.Demo.{demo_settings, blank_response, demo}
use smartmet_server.Connection.Stream.{complete_chunked, get_next_chunk, chunk}
use smartmet_server.Connection.LengthReply.{stream_run-bytes}
use smartmet_server.Connection.State.{create, Conn}
use smartmet_server.Connection.Reply.{finish_response}
use smartmet_server.Utility.Hex.{convert_to_hex}

-- A streamer that yields its content in pieces of three bytes.
abbrev streamer : World
streamer = record demo {
  streaming_status = λ log r. if is_empty r.content then exit_ok else streaming;
  get_content = λ log r. (take 3 r.content, record r { content = drop 3 r.content });
}

abbrev streams : ℕ → Conn streamer
streams length = record (create streamer demo_settings) {
  response = record blank_response { content = codes "abcde" };
  pending_headers = codes "H\r\n\r\n";
  declared_content_length = length;
  keep_alive = true;
}

abbrev contents : List Bytes
contents = codes "abc" ∷ codes "de" ∷ []

contents-Script : (n : ℕ) → Script streamer (streams n).response contents
contents-Script n = (
  λ log. refl,
  (
    refl,
    (
      record blank_response { content = codes "de" },
      (
        λ log. refl,
        (λ log. refl, (refl, (record blank_response { content = [] }, (λ log. refl, λ log. refl)))),
      ),
    ),
  ),
)

chunks_run-decodes_example :
    let run = chunks_run ((4 ∷ 9 ∷ []) ∷ (7 ∷ []) ∷ []) (streams 0) in
    let end = last_run (5 ∷ []) run.0 in
    (body : Bytes) × (d : Conn streamer) × (run.1 ++ end.1 ≡ codes "H\r\n\r\n" ++ body)
    × (decode_chunks 3 body ≡ some (codes "abcde"))
    × (end.0 ≡ complete_chunked d)
    × (d.keep_alive ≡ true)
    × (d.total_streamed_bytes ≡ 0 + 5)
unfolding chunk convert_to_hex digits digit
chunks_run-decodes_example =
    chunks_run-decodes contents ((4 ∷ 9 ∷ []) ∷ (7 ∷ []) ∷ []) (5 ∷ []) (streams 0) (λ n. refl)
      (λ log p. refl) (contents-Script 0) ((omega arith, refl), (refl, tt)) refl

stream_run-bytes_example :
    let run = run_chunks stream_reply get_next_chunk ((4 ∷ 4 ∷ []) ∷ (2 ∷ []) ∷ []) (streams 5) in
    (d : Conn streamer) × (run.1 ≡ codes "H\r\n\r\n" ++ codes "abcde")
    × (get_next_chunk run.0 ≡ finish_response d)
    × (d.keep_alive ≡ (true && (5 == 5)))
stream_run-bytes_example =
    stream_run-bytes (codes "abc") (codes "de" ∷ []) ((4 ∷ 4 ∷ []) ∷ (2 ∷ []) ∷ []) (streams 5)
      (λ log p. refl) (contents-Script 5) ((omega arith, refl), (refl, tt)) refl
