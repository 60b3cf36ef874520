-- ===== src/Connection/Delivery.antt =====
-- source/AsyncConnection.cpp: startRegularReply and its write handler, over a socket that takes as many
-- bytes of each write as it likes.
use smartmet_server.World.{World, success, regular_reply, Effect, async_write}
use smartmet_server.Base.{
  List, drop, ℕ, arith, length, sym, [], take, refl, ◌≡◌, ◌++◌, ◌<◌, ◌+◌, ◌∷◌, if◌then◌else◌, ap,
  ◌∙◌, ltb, false,
}
use smartmet_server.Connection.State.{Conn}
use smartmet_server.Utility.Segments.{take-add, drop-add, take-length}
use smartmet_server.Connection.Regular.{
  send_rest, write_regular_reply, start_regular_reply, ensure_status, continue_write, text_or,
  message, compressed, name_variant, framed, complete_regular,
}
use smartmet_server.Text.{Bytes}

abbrev pub total : List ℕ → ℕ
total [] = 0
total (n ∷ ns) = n + total ns

-- The bytes of the write that was started last.
abbrev pub pending : {V : Type 0} → List (Effect V) → Bytes
pending (async_write to k bytes ∷ log) = bytes
pending _ = []

module _ {w : World} where
  -- The bytes that the socket takes from the pending write when it takes `n`.
  abbrev pub taken : Conn w → ℕ → Bytes
  taken c n = take n (pending c.log)

  -- The pending write is what is left of the response string.
  abbrev IsPending : Conn w → Type 0
  IsPending c = pending c.log ≡ drop c.sent_bytes c.response_string

  -- The completions of the writes with the counts `ns`, and all the bytes that the socket took.
  unfoldable pub run_writes : List ℕ → Conn w → Conn w × Bytes
  run_writes [] c = (c, [])
  run_writes (n ∷ ns) c =
      let (d, bytes) = run_writes ns (write_regular_reply success n c) in (d, taken c n ++ bytes)

  -- A write that leaves bytes over sends the rest.
  write_regular_reply-partial :
      (n : ℕ) (c : Conn w)
      → c.sent_bytes + n < length c.response_string
      → write_regular_reply success n c
        ≡ send_rest regular_reply
            (record c { final_status = success; sent_bytes = c.sent_bytes + n })
  unfolding write_regular_reply continue_write
  write_regular_reply-partial n c h = ground arith

  -- The write that takes the last byte ends the reply.
  write_regular_reply-last :
      (n : ℕ) (c : Conn w) (reply : Bytes)
      → c.response_string ≡ reply
      → c.sent_bytes + n ≡ length reply
      → write_regular_reply success n c
        ≡ complete_regular (record c { final_status = success; sent_bytes = length reply })
  unfolding write_regular_reply continue_write
  write_regular_reply-last n c reply same e =
      let all : ltb (c.sent_bytes + n) (length c.response_string) ≡ false =
        grind (arith, ap length same) in
      rw all (ap (λ k. complete_regular (record c { final_status = success; sent_bytes = k })) e)

  run_writes-state :
      (ns : List ℕ) (c : Conn w)
      → c.sent_bytes + total ns < length c.response_string
      → IsPending c
      → let d = (run_writes ns c).0 in
        (d.sent_bytes ≡ c.sent_bytes + total ns)
        × (d.response_string ≡ c.response_string)
        × IsPending d
  unfolding run_writes
  run_writes-state [] c h q = (omega arith, refl, q)
  run_writes-state (n ∷ ns) c h q =
      let d =
        send_rest regular_reply
          (record c { final_status = success; sent_bytes = c.sent_bytes + n }) in
      let (sent, same, left) = run_writes-state ns d (omega arith) refl in
      rw (write_regular_reply-partial n c (omega arith)) (omega (arith, sent), same, left)

  run_writes-bytes :
      (ns : List ℕ) (c : Conn w)
      → c.sent_bytes + total ns < length c.response_string
      → IsPending c
      → (run_writes ns c).1 ≡ take (total ns) (drop c.sent_bytes c.response_string)
  unfolding run_writes
  run_writes-bytes [] c h q = refl
  run_writes-bytes (n ∷ ns) c h q =
      let d =
        send_rest regular_reply
          (record c { final_status = success; sent_bytes = c.sent_bytes + n }) in
      let s = drop c.sent_bytes c.response_string in
      let ih = run_writes-bytes ns d (omega arith) refl in
      let e : drop d.sent_bytes d.response_string ≡ drop n s =
        drop-add c.sent_bytes n c.response_string in
      rw (write_regular_reply-partial n c (omega arith), q, ih, e) (sym (take-add n (total ns) s))

  run_writes-pieces :
      (ns : List ℕ) (n : ℕ) (c : Conn w)
      → c.sent_bytes ≡ 0
      → 0 < n
      → total ns + n ≡ length c.response_string
      → IsPending c
      → (run_writes ns c).1 ++ taken (run_writes ns c).0 n ≡ c.response_string
  run_writes-pieces ns n c z p e q =
      let s = c.response_string in
      let lt : c.sent_bytes + total ns < length s = omega arith in
      let (sent, same, left) = run_writes-state ns c lt q in
      let from : pending (run_writes ns c).0.log ≡ drop (total ns) s =
        rw (left, same, sent, z) (ap (λ k. drop k s) (omega arith)) in
      let first : (run_writes ns c).1 ≡ take (total ns) s =
        run_writes-bytes ns c lt q ∙ ap (λ k. take (total ns) (drop k s)) z in
      rw (first, from) (sym (take-add (total ns) n s) ∙ ap (λ k. take k s) e ∙ take-length s)

  -- The bytes that belong to a regular reply: the header section, and the content unless the request
  -- was HEAD.
  abbrev pub whole_reply : Conn w → Bytes
  whole_reply c =
      let headers = text_or (w.headers_to_string c.response) in
      if c.head_request then headers else headers ++ (w.get_content c.log c.response).0

  -- The connection that startRegularReply frames and serialises.
  abbrev pub prepared : Conn w → Conn w
  prepared c = ensure_status (framed (name_variant (compressed c)))

  start_regular_reply-state :
      (c : Conn w)
      → ((start_regular_reply c).response_string ≡ whole_reply (prepared c))
        × ((start_regular_reply c).sent_bytes ≡ (prepared c).sent_bytes)
  unfolding start_regular_reply message
  start_regular_reply-state c = ground arith

  start_regular_reply-pending :
      (c : Conn w) → pending (start_regular_reply c).log ≡ (start_regular_reply c).response_string
  unfolding start_regular_reply
  start_regular_reply-pending c = refl

  prepared-sent_bytes : (c : Conn w) → (prepared c).sent_bytes ≡ c.sent_bytes
  unfolding ensure_status framed name_variant compressed
  prepared-sent_bytes c = ground arith

  start_regular_reply-IsPending :
      (c : Conn w) → c.sent_bytes ≡ 0 → IsPending (start_regular_reply c)
  start_regular_reply-IsPending c z =
      rw ((start_regular_reply-state c).1 ∙ prepared-sent_bytes c ∙ z)
        (start_regular_reply-pending c)

  -- A regular reply starts with no bytes counted as sent, and the socket cuts its writes into pieces.
  -- When the counts of the pieces add up to the reply's length and the last piece is not empty, the
  -- bytes that the socket took are, in order, the header section and, unless the request was HEAD, the
  -- content; and the completion of the last piece ends the reply.
  pub run_writes-whole_reply :
      (c : Conn w) (ns : List ℕ) (n : ℕ)
      → c.sent_bytes ≡ 0
      → 0 < n
      → total ns + n ≡ length (whole_reply (prepared c))
      → let d = (run_writes ns (start_regular_reply c)).0 in
        ((run_writes ns (start_regular_reply c)).1 ++ taken d n ≡ whole_reply (prepared c))
        × (write_regular_reply success n d
            ≡ complete_regular (record d {
              final_status = success;
              sent_bytes = length (whole_reply (prepared c));
            }))
  run_writes-whole_reply c ns n z p e =
      let (text, unsent) = start_regular_reply-state c in
      let start = start_regular_reply c in
      let z' : start.sent_bytes ≡ 0 = unsent ∙ prepared-sent_bytes c ∙ z in
      let e' : total ns + n ≡ length start.response_string = e ∙ ap length (sym text) in
      let q : IsPending start = start_regular_reply-IsPending c z in
      let (sent, same, left) = run_writes-state ns start (omega arith) q in
      (
        run_writes-pieces ns n start z' p e' q ∙ text,
        write_regular_reply-last n (run_writes ns start).0 (whole_reply (prepared c)) (same ∙ text)
            (omega arith),
      )
