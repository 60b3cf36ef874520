-- ===== src/Connection/Streaming.antt =====
-- source/AsyncConnection.cpp: the loop of a streamed reply, from the chunk getters over the writes to the
-- next getter, for a streamer that yields given contents and a pool with room.
use smartmet_server.World.{World, streaming, Pool, Writer, Effect, Task, exit_ok, schedule}
use smartmet_server.Text.{Bytes}
use smartmet_server.Base.{
  is_empty, false, length, [], List, true, ℕ, ◌+◌, ◌≡◌, ◌++◌, ◌∷◌, arith, refl, append-nil, sym,
  ◌∙◌, ◌-◌, ap, length-append, append_assoc, map,
}
use smartmet_server.Connection.Pieces.{sent_all, Pieces, run_pieces, when_written, run_pieces-rest}
use smartmet_server.Connection.Chunks.{concat}
use smartmet_server.Connection.Stream.{load_chunk, schedule_chunk, query_pool}
use smartmet_server.Connection.Regular.{send_all}
use smartmet_server.Connection.State.{Conn, emit}

-- The contents one after the other, each framed.
abbrev pub joined : (Bytes → Bytes) → List Bytes → Bytes
joined frame xs = concat (map frame xs)

-- What the response yields: the contents, none of them empty, and then the end.
abbrev pub Script : (w : World) → w.Response → List Bytes → Type 0
Script w r [] = (log : List (Effect w.View)) → w.streaming_status log r ≡ exit_ok
Script w r (x ∷ xs) =
    ((log : List (Effect w.View)) → w.streaming_status log r ≡ streaming)
    × ((is_empty x ≡ false)
        × ((r' : w.Response) × (((log : List (Effect w.View)) → w.get_content log r ≡ (x, r'))
              × Script w r' xs)))

-- The pieces of the writes, the first of which has the headers in front.
abbrev pub AllPieces : (Bytes → Bytes) → Bytes → List (List ℕ) → List Bytes → Type 0
AllPieces frame h [] [] = Unit
AllPieces frame h [] (x ∷ xs) = ⊥
AllPieces frame h (ns ∷ nss) [] = ⊥
AllPieces frame h (ns ∷ nss) (x ∷ xs) =
    Pieces ns (length (h ++ frame x)) × AllPieces frame [] nss xs

abbrev pub headers_left : Bytes → List Bytes → Bytes
headers_left h [] = h
headers_left h (x ∷ xs) = []

headers_left-nil : (contents : List Bytes) → headers_left [] contents ≡ []
headers_left-nil [] = refl
headers_left-nil (x ∷ xs) = refl

module _ {w : World} where
  schedule_chunk-room :
      (t : Task w.View) (c : Conn w)
      → w.accepts c.log (query_pool c) t ≡ true
      → schedule_chunk t c ≡ emit (schedule (query_pool c) t) c
  unfolding schedule_chunk
  schedule_chunk-room t c h = rw h refl

  -- The rounds of the loop: the getter, and the pieces of its write.
  unfoldable pub run_chunks : Writer → (Conn w → Conn w) → List (List ℕ) → Conn w → Conn w × Bytes
  run_chunks k getter [] c = (c, [])
  run_chunks k getter (ns ∷ nss) c =
      let (d, bytes) = run_pieces k ns (getter c) in
      let (e, more) = run_chunks k getter nss d in (e, bytes ++ more)

  -- What the loop leaves: the end of the script, the count of the contents, and all else that the end
  -- of the reply reads.
  pub record IsStreamed (contents : List Bytes) (c d : Conn w) : Type 0 where
    pub at_end : Script w d.response []
    pub counted_bytes : d.total_streamed_bytes ≡ c.total_streamed_bytes + length (concat contents)
    pub headers : d.pending_headers ≡ headers_left c.pending_headers contents
    pub persistence : d.keep_alive ≡ c.keep_alive
    pub declared_length : d.declared_content_length ≡ c.declared_content_length
    pub received : d.buffer ≡ c.buffer

  abbrev pub loaded : (Bytes → Bytes) → Bytes → w.Response → Conn w → Conn w
  loaded frame x r c = load_chunk (frame x) x (record c { response = r })

  -- A kind of stream: its write handler, its task, its getter and its framing.
  module _ (k : Writer) (t : Task w.View) (getter : Conn w → Conn w) (frame : Bytes → Bytes)
      (loads : (c : Conn w) (x : Bytes) (r : w.Response)
        → w.streaming_status c.log c.response ≡ streaming
        → w.get_content c.log c.response ≡ (x, r)
        → is_empty x ≡ false
        → getter c ≡ send_all k (loaded frame x r c))
      (goes_on : (c : Conn w) → when_written k c ≡ schedule_chunk t c)
      (room : (log : List (Effect w.View)) (p : Pool) → w.accepts log p t ≡ true) where
    -- A round: the socket takes the headers, if they are still to be sent, and the framed content.
    run_round :
        (ns : List ℕ) (c : Conn w) (x : Bytes) (r : w.Response)
        → getter c ≡ send_all k (loaded frame x r c)
        → Pieces ns (length (c.pending_headers ++ frame x))
        → (log : List (Effect w.View)) × ((run_pieces k ns (getter c)).0
            ≡ schedule_chunk t (sent_all (send_all k (loaded frame x r c)) log))
          × ((run_pieces k ns (getter c)).1 ≡ c.pending_headers ++ frame x)
    run_round ns c x r g h =
        let c1 = send_all k (loaded frame x r c) in
        let all : length c1.response_string ≡ length c1.response_string - c1.sent_bytes =
          omega arith in
        let (log, ends, bytes) = run_pieces-rest k ns c1 refl (omega arith) (rw (← all) h) in
        (log, rw g (ends ∙ goes_on (sent_all c1 log)), rw g bytes)

    pub run_chunks-Script :
        (contents : List Bytes) (nss : List (List ℕ)) (c : Conn w)
        → Script w c.response contents
        → AllPieces frame c.pending_headers nss contents
        → IsStreamed contents c (run_chunks k getter nss c).0
          × ((run_chunks k getter nss c).1 ++ headers_left c.pending_headers contents
              ≡ c.pending_headers ++ joined frame contents)
    unfolding run_chunks
    run_chunks-Script [] [] c s h = (
      record {
        at_end = s;
        counted_bytes = omega arith;
        headers = refl;
        persistence = refl;
        declared_length = refl;
        received = refl;
      },
      sym (append-nil c.pending_headers),
    )
    run_chunks-Script [] (ns ∷ nss) c s h = absurd h
    run_chunks-Script (x ∷ xs) [] c s h = absurd h
    run_chunks-Script (x ∷ xs) (ns ∷ nss) c (on, (full, (r, (pull, s)))) (h, hs) =
        let g = loads c x r (on c.log) (pull c.log) full in
        let (log, ends, bytes) = run_round ns c x r g h in
        let c2 = sent_all (send_all k (loaded frame x r c)) log in
        let d = emit (schedule (query_pool c2) t) c2 in
        let e : (run_pieces k ns (getter c)).0 ≡ d =
          ends ∙ schedule_chunk-room t c2 (room log (query_pool c2)) in
        let (v, more) = run_chunks-Script xs nss d s hs in
        let tail : (run_chunks k getter nss d).1 ≡ joined frame xs =
          sym (append-nil (run_chunks k getter nss d).1)
          ∙ ap (◌++◌ (run_chunks k getter nss d).1) (sym (headers_left-nil xs))
          ∙ more in
        rw (e, bytes)
          (
            record {
              at_end = v.at_end;
              counted_bytes = omega (arith, v.counted_bytes, length-append x (concat xs));
              headers = v.headers ∙ headers_left-nil xs;
              persistence = v.persistence;
              declared_length = v.declared_length;
              received = v.received;
            },
            append-nil (c.pending_headers ++ frame x ++ (run_chunks k getter nss d).1)
                ∙ rw tail (append_assoc c.pending_headers (frame x) (joined frame xs)),
          )
