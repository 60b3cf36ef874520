-- ===== src/Connection/ChunkedReply.antt =====
-- source/AsyncConnection.cpp: the chunked reply from the first call of its getter to the last chunk.
use smartmet_server.World.{
  World, next_chunked_chunk, StreamerStatus, Pool, streaming, chunked_reply, exit_ok, final_chunk,
  Effect,
}
use smartmet_server.Connection.Pieces.{run_pieces-rest, run_pieces, sent_all, Pieces}
use smartmet_server.Connection.Regular.{notify_backend_finished, send_all}
use smartmet_server.Connection.Stream.{
  last_chunk, chunk, chunked_by_status, get_next_chunked_chunk, declared, load_chunk,
  complete_chunked, pulled_content,
}
use smartmet_server.Base.{
  is_empty, ap, suc, ℕ, arith, true, List, false, append_assoc, sym, length, [], refl, ◌++◌, some,
  ◌+◌, ◌-◌, ◌≡◌, ◌∙◌, ◌∷◌,
}
use smartmet_server.Connection.Streaming.{
  run_chunks, joined, AllPieces, headers_left, Script, IsStreamed, run_chunks-Script, loaded,
}
use smartmet_server.Connection.State.{Conn}
use smartmet_server.Connection.Chunks.{AllNonEmpty, concat, decode_chunks-chunks, decode_chunks}
use smartmet_server.Connection.Delivery.{total}
use smartmet_server.Text.{Bytes}
use smartmet_server.Utility.Hex.{WritesHex}

AllNonEmpty-Script :
    (w : World) (contents : List Bytes) (r : w.Response)
    → Script w r contents
    → AllNonEmpty contents
AllNonEmpty-Script w [] r s = tt
AllNonEmpty-Script w (x ∷ xs) r (on, (full, (r', (pull, s)))) = (full, AllNonEmpty-Script w xs r' s)

module _ {w : World} where
  get_next_chunked_chunk-loads :
      (c : Conn w) (x : Bytes) (r : w.Response)
      → w.streaming_status c.log c.response ≡ streaming
      → w.get_content c.log c.response ≡ (x, r)
      → is_empty x ≡ false
      → get_next_chunked_chunk c ≡ send_all chunked_reply (loaded (chunk w) x r c)
  unfolding get_next_chunked_chunk chunked_by_status
  get_next_chunked_chunk-loads c x r s p f =
      let full : is_empty (pulled_content c) ≡ false =
        ap (λ (y : Bytes × w.Response). is_empty y.0) p ∙ f in
      ap (λ status. chunked_by_status status c) s
      ∙ rw full refl
      ∙ ap (λ (y : Bytes × w.Response). send_all chunked_reply (loaded (chunk w) y.0 y.1 c)) p

  -- The write of the last chunk, where the streamer has ended.
  abbrev pub last_write : Conn w → Conn w
  last_write c = send_all final_chunk (load_chunk last_chunk [] (notify_backend_finished exit_ok c))

  get_next_chunked_chunk-ends :
      (c : Conn w) → Script w c.response [] → get_next_chunked_chunk c ≡ last_write c
  unfolding get_next_chunked_chunk chunked_by_status
  get_next_chunked_chunk-ends c s = rw (get_next_chunked_chunk, s c.log) refl

  notify_backend_finished-kept :
      (s : StreamerStatus) (c : Conn w)
      → let d = notify_backend_finished s c in
        (d.pending_headers ≡ c.pending_headers)
        × (d.keep_alive ≡ c.keep_alive)
        × (d.total_streamed_bytes ≡ c.total_streamed_bytes)
        × (d.declared_content_length ≡ c.declared_content_length)
  unfolding notify_backend_finished
  notify_backend_finished-kept s c = ground arith

  -- The loop over the contents of a chunked reply, and the writes of the last chunk.
  abbrev pub chunks_run : List (List ℕ) → Conn w → Conn w × Bytes
  chunks_run = run_chunks chunked_reply get_next_chunked_chunk

  abbrev pub last_run : List ℕ → Conn w → Conn w × Bytes
  last_run ns c = run_pieces final_chunk ns (get_next_chunked_chunk c)

  chunks_run-Script :
      (contents : List Bytes) (nss : List (List ℕ)) (c : Conn w)
      → ((log : List (Effect w.View)) (p : Pool) → w.accepts log p next_chunked_chunk ≡ true)
      → Script w c.response contents
      → AllPieces (chunk w) c.pending_headers nss contents
      → IsStreamed contents c (chunks_run nss c).0
        × ((chunks_run nss c).1 ++ headers_left c.pending_headers contents
            ≡ c.pending_headers ++ joined (chunk w) contents)
  chunks_run-Script contents nss c room s h =
      run_chunks-Script chunked_reply next_chunked_chunk get_next_chunked_chunk (chunk w)
        get_next_chunked_chunk-loads (λ d. refl) room contents nss c s h

  last_run-Pieces :
      (ns : List ℕ) (c : Conn w)
      → Script w c.response []
      → Pieces ns (length (c.pending_headers ++ last_chunk))
      → (d : Conn w) × ((last_run ns c).0 ≡ complete_chunked d)
        × ((last_run ns c).1 ≡ c.pending_headers ++ last_chunk)
        × (d.keep_alive ≡ c.keep_alive)
        × (d.total_streamed_bytes ≡ c.total_streamed_bytes)
  last_run-Pieces ns c s h =
      let c1 = last_write c in
      let (ph, ka, total, declared) = notify_backend_finished-kept exit_ok c in
      let all : length (c.pending_headers ++ last_chunk)
          ≡ length c1.response_string - c1.sent_bytes =
        omega (arith, ap (λ (b : Bytes). length (b ++ last_chunk)) ph) in
      let (log, ends, bytes) = run_pieces-rest final_chunk ns c1 refl (omega arith) (rw all at h) in
      let g = get_next_chunked_chunk-ends c s in
      (
        sent_all c1 log,
        rw g ends,
        rw g (bytes ∙ ap (λ b. b ++ last_chunk) ph),
        ka,
        omega (arith, total),
      )

  -- A chunked reply, whose headers wait to be sent, of a streamer that yields the contents, none of them
  -- empty, while the thread pool has room: however the socket cuts each write into pieces, the bytes
  -- that it takes are the headers and a body that a decoder of the chunked coding reads as the contents
  -- in order; then the reply ends, with the persistence that it began with and the bytes of the contents
  -- counted.
  pub chunks_run-decodes :
      (contents : List Bytes) (nss : List (List ℕ)) (ns : List ℕ)
      → (c : Conn w) → WritesHex w
      → ((log : List (Effect w.View)) (p : Pool) → w.accepts log p next_chunked_chunk ≡ true)
      → Script w c.response contents
      → AllPieces (chunk w) c.pending_headers nss contents
      → Pieces ns (length (headers_left c.pending_headers contents ++ last_chunk))
      → let run = chunks_run nss c in
        let end = last_run ns run.0 in
        (body : Bytes) × (d : Conn w) × (run.1 ++ end.1 ≡ c.pending_headers ++ body)
        × (decode_chunks (suc (length contents)) body ≡ some (concat contents))
        × (end.0 ≡ complete_chunked d)
        × (d.keep_alive ≡ c.keep_alive)
        × (d.total_streamed_bytes ≡ c.total_streamed_bytes + length (concat contents))
  chunks_run-decodes contents nss ns c hex room s h k =
      let (v, bytes) = chunks_run-Script contents nss c room s h in
      let e = (chunks_run nss c).0 in
      let (d, ends, rest, ka, total) = last_run-Pieces ns e v.at_end (rw v.headers k) in
      (
        joined (chunk w) contents ++ last_chunk,
        d,
        ap (◌++◌ (chunks_run nss c).1) (rest ∙ ap (λ b. b ++ last_chunk) v.headers)
            ∙ sym (
                append_assoc (chunks_run nss c).1 (headers_left c.pending_headers contents)
                  last_chunk)
            ∙ ap (λ b. b ++ last_chunk) bytes
            ∙ append_assoc c.pending_headers (joined (chunk w) contents) last_chunk,
        decode_chunks-chunks w hex contents (AllNonEmpty-Script w contents c.response s),
        ends,
        ka ∙ v.persistence,
        total ∙ v.counted_bytes,
      )
