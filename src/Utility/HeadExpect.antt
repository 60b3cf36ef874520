-- ===== src/Utility/HeadExpect.antt =====
-- source/Utility.cpp: peekRequestHead on a complete header section, against its lines.
use smartmet_server.Base.{
  true, drop, [], ℕ, List, length, refl, arith, zero, suc, ◌+◌, ◌≡◌, ◌≤◌, ◌∷◌, ◌++◌, Option-cases,
  length-append, inl, inr, ◌∙◌, ◌==◌,
}
use smartmet_server.Utility.Head.{expect_from, peek_request_head, head_of}
use smartmet_server.Utility.HeadLines.{
  wire, AllHeaderLines, lines_length, no_cr, first_match-blank_line, first_match-crlf,
}
use smartmet_server.Text.{Bytes, find, first_index, codes}
use smartmet_server.Utility.HeadSpec.{
  drop-next_line, expect_of, find-line_end, expect_from-unnamed, expect_from-named,
}
use smartmet_server.Limits.{value_or}
use smartmet_server.Utility.HeadVersion.{version_of-line, after_last}

-- The loop over the header lines, with a round for each line.
expect_from-lines :
    (lower : Bytes → Bytes) (ls : List Bytes) (rest b : Bytes) (r end pos : ℕ)
    → AllHeaderLines ls
    → drop pos b ≡ wire ls rest
    → end + 2 ≡ pos + lines_length ls
    → length ls ≤ r
    → expect_from lower r b end pos ≡ expect_of lower ls
unfolding expect_from expect_of
expect_from-lines lower [] rest b zero end pos hs here e h = refl
expect_from-lines lower [] rest b (suc r) end pos hs here e h =
    let f = find-line_end b pos [] rest here refl in ground (arith, f, e)
expect_from-lines lower (l ∷ ls) rest b zero end pos hs here e h = absurd (omega (arith, h))
expect_from-lines lower (l ∷ ls) rest b (suc r) end pos ((n, w), hs) here e h =
    let ih =
      expect_from-lines lower ls rest b r end (pos + length l + 2) hs
        (drop-next_line b pos l (wire ls rest) here) (omega (arith, e)) (omega (arith, h)) in
    elim (Option-cases (first_index (λ c. c == b':') l)) [
      | inl q ↦
          let s = expect_from-unnamed b pos l (wire ls rest) here lower r end n in
          s (omega (arith, e)) (omega (arith, e)) q ∙ ground (arith, q, ih)
      | inr (k, q) ↦
          let s = expect_from-named b pos l (wire ls rest) here lower r end k n in
          s (omega (arith, e)) (omega (arith, e)) q ∙ ground (arith, q, ih)
    ]

length-wire : (ls : List Bytes) (rest : Bytes) → length ls ≤ length (wire ls rest)
length-wire [] rest = omega arith
length-wire (l ∷ ls) rest =
    omega (arith, length-append l (13 ∷ 10 ∷ wire ls rest), length-wire ls rest)

-- A request head that has arrived whole, a request line and header lines that are not empty, all
-- without a carriage return, is reported as complete. The version is what follows the last "HTTP/" of
-- the request line, empty where there is none; the Expect value is that of the first header line
-- named "expect", found by reading the header as a list of lines: trimmed, and empty where there is
-- no such line.
pub peek_request_head_lem :
    (lower : Bytes → Bytes) (l : Bytes) (ls : List Bytes) (rest : Bytes)
    → no_cr l ≡ true
    → AllHeaderLines ls
    → peek_request_head lower (l ++ 13 ∷ 10 ∷ wire ls rest) ≡ record {
      is_complete = true;
      version = value_or (after_last (codes "HTTP/") l) [];
      expect = expect_of lower ls;
    }
unfolding peek_request_head head_of find
peek_request_head_lem lower l ls rest n hs =
    let b = l ++ 13 ∷ 10 ∷ wire ls rest in
    let blank = first_match-blank_line l ls rest n hs in
    let eol = first_match-crlf l (wire ls rest) n in
    let size : length b ≡ length l + 2 + length (wire ls rest) =
      omega (arith, length-append l (13 ∷ 10 ∷ wire ls rest)) in
    let z : length l + 2 ≡ 0 + length l + 2 = omega arith in
    let start : drop (length l + 2) b ≡ wire ls rest =
      rw z (drop-next_line b 0 l (wire ls rest) refl) in
    let loop =
      expect_from-lines lower ls rest b (length b) (length l + lines_length ls) (length l + 2) hs
        start (omega arith) (omega (arith, size, length-wire ls rest)) in
    let v = version_of-line l (10 ∷ wire ls rest) in ground (arith, blank, eol, loop, v)
