-- ===== src/Connection/Expectation.antt =====
-- source/AsyncConnection.cpp: handleIncompleteRequest on a request whose head has arrived whole while
-- its body is on its way, against the lines of the head.
use smartmet_server.Text.{Bytes, contains, codes}
use smartmet_server.World.{World, is_error, expectation_failed}
use smartmet_server.Connection.State.{Conn, start_read, drop_keep_alive}
use smartmet_server.Utility.HeadLines.{no_cr, first_match-blank_line, wire, AllHeaderLines}
use smartmet_server.Utility.Head.{peek_request_head, RawRequestHead}
use smartmet_server.Base.{
  is_empty, arith, false, not, [], true, List, ap, ◌≡◌, ◌++◌, ◌∷◌, ◌∙◌, ◌||◌, if◌then◌else◌,
}
use smartmet_server.Connection.Request.{
  answer_continue, handle_incomplete_request, unmet, handle_expect_continue, answer_expect,
}
use smartmet_server.Utility.TokenSpec.{has_header_token-elements, any_matches}
use smartmet_server.Utility.Tokens.{negotiate_version}
use smartmet_server.Utility.HeadVersion.{after_last}
use smartmet_server.Connection.Headers.{is_http_1_1}
use smartmet_server.Utility.HeadSpec.{expect_of}
use smartmet_server.Limits.{value_or}
use smartmet_server.Utility.Elements.{elements}
use smartmet_server.Connection.Reply.{written, send_stock_reply}
use smartmet_server.Utility.HeadExpect.{peek_request_head_lem}

-- The version of a request line, and the head that its lines make.
abbrev pub line_version : Bytes → Bytes
line_version l = value_or (after_last (codes "HTTP/") l) []

abbrev pub head_lines : (Bytes → Bytes) → Bytes → List Bytes → RawRequestHead
head_lines lower l ls = record {
  is_complete = true;
  version = line_version l;
  expect = expect_of lower ls;
}

contains-blank_line :
    (l : Bytes) (ls : List Bytes) (rest : Bytes)
    → no_cr l ≡ true
    → AllHeaderLines ls
    → contains (l ++ 13 ∷ 10 ∷ wire ls rest) (codes "\r\n\r\n") ≡ true
unfolding contains
contains-blank_line l ls rest n hs = ground (arith, first_match-blank_line l ls rest n hs)

module _ {w : World} where
  -- The client is told to go on.
  abbrev pub go_ahead : Conn w → Conn w
  go_ahead c =
      let reply = codes "HTTP/1.1 100 Continue\r\n\r\n" in
      let err = w.write c.log reply in
      if is_error err
      then record (written reply c) { final_status = err; keep_alive = false }
      else start_read (written reply c)

  -- The answer to an expectation, by the elements of the header value.
  abbrev pub answer_lines : RawRequestHead → Conn w → Conn w
  answer_lines head c =
      if is_empty head.expect || not (is_http_1_1 (negotiate_version w.stoul head.version))
      then start_read c
      else if any_matches w.lower (codes "100-continue") (elements head.expect)
      then go_ahead c
      else send_stock_reply expectation_failed (drop_keep_alive (unmet head c))

  -- While the body of a request is on its way and the client has not been answered, a head that has
  -- arrived whole, of lines without a carriage return, is answered by the Expect header among its lines, and the connection remembers that
  -- it was: without one, or with a version below 1.1, the server reads on; where an element of the
  -- value is "100-continue" it writes the interim reply and reads on, but where that write fails it
  -- ends the persistence and reads no more; any other expectation is rejected with the stock reply.
  -- The limit on the header size does not apply.
  pub handle_incomplete_request-head_lines :
      (c : Conn w) (l : Bytes) (ls : List Bytes) (rest : Bytes)
      → c.buffer ≡ l ++ 13 ∷ 10 ∷ wire ls rest
      → c.expect_handled ≡ false
      → no_cr l ≡ true
      → AllHeaderLines ls
      → handle_incomplete_request c
        ≡ answer_lines (head_lines w.lower l ls) (record c { expect_handled = true })
  unfolding handle_incomplete_request handle_expect_continue answer_expect answer_continue
  handle_incomplete_request-head_lines c l ls rest b f n hs =
      let h = head_lines w.lower l ls in
      let p : peek_request_head w.lower c.buffer ≡ h =
        ap (peek_request_head w.lower) b ∙ peek_request_head_lem w.lower l ls rest n hs in
      let blank : contains c.buffer (codes "\r\n\r\n") ≡ true =
        ap (λ s. contains s (codes "\r\n\r\n")) b ∙ contains-blank_line l ls rest n hs in
      let t = has_header_token-elements w.lower h.expect (codes "100-continue") in
      rw p (ground (arith, f, blank, t))
