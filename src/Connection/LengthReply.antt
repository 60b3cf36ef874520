-- ===== src/Connection/LengthReply.antt =====
-- source/AsyncConnection.cpp: the streamed reply with a Content-Length from the first call of its getter
-- to the end of the response.
use smartmet_server.World.{World, next_chunk, exit_ok, Effect, stream_reply, Pool, streaming}
use smartmet_server.Base.{
  List, inr, not, true, sym, ℕ, refl, ◌++◌, ap, is_empty, [], arith, length, false, Bool-cases, inl,
  append-nil, ◌∷◌, ◌&&◌, ◌==◌, ◌∙◌, ◌≡◌,
}
use smartmet_server.Connection.State.{Conn, drop_keep_alive}
use smartmet_server.Connection.Streaming.{
  loaded, joined, run_chunks, AllPieces, run_chunks-Script, Script,
}
use smartmet_server.Connection.Regular.{notify_backend_finished, send_all, finalize_stream_logging}
use smartmet_server.Connection.Stream.{
  pulled_content, chunk_by_status, flush_pending_headers, end_stream, get_next_chunk, mismatch,
}
use smartmet_server.Text.{Bytes}
use smartmet_server.Connection.Reply.{finish_response}
use smartmet_server.Connection.Chunks.{concat}

joined_plain : (xs : List Bytes) → joined (λ s. s) xs ≡ concat xs
joined_plain [] = refl
joined_plain (x ∷ xs) = ap (◌++◌ x) (joined_plain xs)

module _ {w : World} where
  get_next_chunk-loads :
      (c : Conn w) (x : Bytes) (r : w.Response)
      → w.streaming_status c.log c.response ≡ streaming
      → w.get_content c.log c.response ≡ (x, r)
      → is_empty x ≡ false
      → get_next_chunk c ≡ send_all stream_reply (loaded (λ s. s) x r c)
  unfolding get_next_chunk chunk_by_status
  get_next_chunk-loads c x r s p f =
      let full : is_empty (pulled_content c) ≡ false =
        ap (λ (y : Bytes × w.Response). is_empty y.0) p ∙ f in
      ap (λ status. chunk_by_status status c) s
      ∙ rw full refl
      ∙ ap (λ (y : Bytes × w.Response). send_all stream_reply (loaded (λ z. z) y.0 y.1 c)) p

  -- What ends a reply with a Content-Length, where no headers wait.
  get_next_chunk-ends :
      (c : Conn w)
      → Script w c.response []
      → c.pending_headers ≡ []
      → get_next_chunk c ≡ end_stream exit_ok c
  unfolding get_next_chunk chunk_by_status flush_pending_headers
  get_next_chunk-ends c s h = ap (λ status. chunk_by_status status c) (s c.log) ∙ rw h refl

  end_stream-persists :
      (c : Conn w)
      → (d : Conn w) × (end_stream exit_ok c ≡ finish_response d)
        × (d.keep_alive ≡ (c.keep_alive && (c.total_streamed_bytes == c.declared_content_length)))
  unfolding end_stream notify_backend_finished finalize_stream_logging
  end_stream-persists c =
      let c1 = notify_backend_finished exit_ok (finalize_stream_logging c) in
      let same : (c1.keep_alive && not (c1.total_streamed_bytes == c1.declared_content_length))
          ≡ (c.keep_alive && not (c.total_streamed_bytes == c.declared_content_length)) =
        ground arith in
      elim (Bool-cases
        (c.keep_alive && not (c.total_streamed_bytes == c.declared_content_length))) [
          | inl off ↦ (drop_keep_alive (mismatch c1), rw (same ∙ off) refl, ground arith)
          | inr on ↦ (c1, rw (same ∙ on) refl, ground arith)
        ]

  -- A reply with a Content-Length, whose headers wait to be sent, of a streamer that yields one or more
  -- contents, none of them empty, while the thread pool has room: however the socket cuts each write
  -- into pieces, the bytes that it takes are the headers and the contents in order; then the response
  -- is finished, with the persistence that it began with if the announced length is that of the
  -- contents, and without persistence otherwise.
  pub stream_run-bytes :
      (x : Bytes) (xs : List Bytes) (nss : List (List ℕ)) (c : Conn w)
      → ((log : List (Effect w.View)) (p : Pool) → w.accepts log p next_chunk ≡ true)
      → Script w c.response (x ∷ xs)
      → AllPieces (λ s. s) c.pending_headers nss (x ∷ xs)
      → c.total_streamed_bytes ≡ 0
      → let run = run_chunks stream_reply get_next_chunk nss c in
        (d : Conn w) × (run.1 ≡ c.pending_headers ++ concat (x ∷ xs))
        × (get_next_chunk run.0 ≡ finish_response d)
        × (d.keep_alive ≡ (c.keep_alive && (length (concat (x ∷ xs)) == c.declared_content_length)))
  stream_run-bytes x xs nss c room s h z =
      let (v, bytes) =
        run_chunks-Script stream_reply next_chunk get_next_chunk (λ s. s) get_next_chunk-loads
          (λ d. refl) room (x ∷ xs) nss c s h in
      let e = (run_chunks stream_reply get_next_chunk nss c).0 in
      let (d, ends, ka) = end_stream-persists e in
      let n : e.total_streamed_bytes ≡ length (concat (x ∷ xs)) = omega (arith, v.counted_bytes) in
      (
        d,
        sym (append-nil (run_chunks stream_reply get_next_chunk nss c).1)
            ∙ bytes
            ∙ ap (◌++◌ c.pending_headers) (joined_plain (x ∷ xs)),
        get_next_chunk-ends e v.at_end v.headers ∙ ends,
        rw (ka, v.persistence, n, v.declared_length) refl,
      )
