-- ===== src/Connection/Pieces.antt =====
-- source/AsyncConnection.cpp: the write handlers of the streamed replies, over a socket that takes the
-- bytes of a write in pieces.
use smartmet_server.World.{
  World, final_chunk, stream_reply, chunked_reply, Writer, success, regular_reply, Effect,
}
use smartmet_server.Base.{
  List, [], arith, drop, length, refl, ℕ, ◌∷◌, ◌-◌, ◌≡◌, ◌∙◌, ◌<◌, ◌≤◌, ◌+◌, ◌++◌, sym,
  take-append-drop, length-drop, append-nil, ltb, false, ap,
}
use smartmet_server.Connection.Stream.{
  finalize_chunked_reply, schedule_chunked_chunk_getter, write_chunked_reply, complete_chunked,
  schedule_chunk_getter, write_stream_reply,
}
use smartmet_server.Connection.Regular.{
  continue_write, write_regular_reply, complete_regular, send_rest,
}
use smartmet_server.Connection.Delivery.{pending, taken}
use smartmet_server.Connection.State.{Conn}
use smartmet_server.Text.{Bytes}
use smartmet_server.Connection.Session.{write_handler}
use smartmet_server.Utility.Segments.{drop-add, take-length}

-- The pieces that a write of `len` bytes is cut into: the last one takes what is left.
abbrev pub Pieces : List ℕ → ℕ → Type 0
Pieces [] len = ⊥
Pieces (n ∷ []) len = n ≡ len
Pieces (n ∷ m ∷ ns) len = (n < len) × Pieces (m ∷ ns) (len - n)

module _ {w : World} where
  -- What a write handler does when the socket has all bytes.
  abbrev pub when_written : Writer → Conn w → Conn w
  when_written stream_reply = schedule_chunk_getter
  when_written chunked_reply = schedule_chunked_chunk_getter
  when_written final_chunk = complete_chunked
  when_written regular_reply = complete_regular

  -- The completions of a write, and the bytes that the socket took.
  unfoldable pub run_pieces : Writer → List ℕ → Conn w → Conn w × Bytes
  run_pieces k [] c = (c, [])
  run_pieces k (n ∷ ns) c =
      let (d, bytes) = run_pieces k ns (write_handler k success n c) in (d, taken c n ++ bytes)

  write_handler-success :
      (k : Writer) (n : ℕ) (c : Conn w)
      → write_handler k success n c
        ≡ continue_write k n (when_written k) (record c { final_status = success })
  unfolding write_handler write_stream_reply write_chunked_reply finalize_chunked_reply
      write_regular_reply
  write_handler-success stream_reply n c = refl
  write_handler-success chunked_reply n c = refl
  write_handler-success final_chunk n c = refl
  write_handler-success regular_reply n c = refl

  -- The connection when all bytes are sent; the log has a write for each piece.
  abbrev pub sent_all : Conn w → List (Effect w.View) → Conn w
  sent_all c log = record c {
    final_status = success;
    sent_bytes = length c.response_string;
    log = log;
  }

  write_handler-last :
      (k : Writer) (n : ℕ) (c : Conn w)
      → c.sent_bytes + n ≡ length c.response_string
      → write_handler k success n c ≡ when_written k (sent_all c c.log)
  unfolding continue_write
  write_handler-last k n c e =
      let whole : ltb (c.sent_bytes + n) (length c.response_string) ≡ false = ground arith in
      let d = λ (m : ℕ). record c { final_status = success; sent_bytes = m } in
      write_handler-success k n c ∙ rw (continue_write, whole) (ap (λ m. when_written k (d m)) e)

  write_handler-more :
      (k : Writer) (n : ℕ) (c : Conn w)
      → c.sent_bytes + n < length c.response_string
      → write_handler k success n c
        ≡ send_rest k (record c { final_status = success; sent_bytes = c.sent_bytes + n })
  unfolding continue_write
  write_handler-more k n c h = write_handler-success k n c ∙ ground arith

  -- Whatever the pieces of a write are, the socket takes what was left of the response string, and the
  -- handler of the last one goes on.
  pub run_pieces-rest :
      (k : Writer) (ns : List ℕ) (c : Conn w)
      → pending c.log ≡ drop c.sent_bytes c.response_string
      → c.sent_bytes ≤ length c.response_string
      → Pieces ns (length c.response_string - c.sent_bytes)
      → (log : List (Effect w.View)) × ((run_pieces k ns c).0 ≡ when_written k (sent_all c log))
        × ((run_pieces k ns c).1 ≡ drop c.sent_bytes c.response_string)
  unfolding run_pieces
  run_pieces-rest k [] c q b h = absurd h
  run_pieces-rest k (n ∷ []) c q b h =
      let rest = drop c.sent_bytes c.response_string in
      let all : n ≡ length rest = h ∙ sym (length-drop c.sent_bytes c.response_string) in
      (
        c.log,
        write_handler-last k n c (omega arith),
        rw (append-nil (taken c n), q, all) (take-length rest),
      )
  run_pieces-rest k (n ∷ m ∷ ns) c q b (h, hs) =
      let c1 = send_rest k (record c { final_status = success; sent_bytes = c.sent_bytes + n }) in
      let e : length c.response_string - c.sent_bytes - n
          ≡ length c.response_string - (c.sent_bytes + n) =
        omega arith in
      let (log, ends, bytes) = run_pieces-rest k (m ∷ ns) c1 refl (omega arith) (rw (← e) hs) in
      let rest = drop c.sent_bytes c.response_string in
      (
        log,
        rw (write_handler-more k n c (omega arith)) ends,
        rw
            (
              write_handler-more k n c (omega arith),
              q,
              bytes,
              drop-add c.sent_bytes n c.response_string,
            )
            (take-append-drop n rest),
      )
