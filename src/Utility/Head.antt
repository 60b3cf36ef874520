-- ===== src/Utility/Head.antt =====
-- source/Utility.cpp: peekRequestHead, which reads the version and the Expect header from the raw
-- socket buffer before the request is complete.
use smartmet_server.Base.{
  ℕ, zero, suc, ◌+◌, ◌-◌, Bool, true, false, [], ◌∷◌, Option, none, some, ltb, if◌then◌else◌,
  length,
}
use smartmet_server.Text.{
  Bytes, codes, substr, same_bytes, find_char, find_first_not_blank, find_last_not_blank, find,
  rfind,
}

pub record RawRequestHead : Type 0 where
  pub is_complete : Bool
  pub version : Bytes
  pub expect : Bytes

abbrev pub crlf : Bytes
crlf = 13 ∷ 10 ∷ []

-- The value behind the colon of the Expect line that ends at `line_end`; empty if it is blank.
unfoldable pub expect_value : Bytes → ℕ → ℕ → Bytes
unfolding find_first_not_blank find_last_not_blank
expect_value b colon line_end = elim (find_first_not_blank b (colon + 1)) [
  | none ↦ []
  | some first ↦
      if ltb first line_end
      then elim (find_last_not_blank b (line_end - 1)) [
        | none ↦ []
        | some last ↦ substr b first (last - first + 1)
      ]
      else []
]

-- Whether the line from `pos` to `line_end` is named "expect", given its colon.
unfoldable pub is_expect_line : (Bytes → Bytes) → Bytes → ℕ → ℕ → Option ℕ → Bool
unfolding same_bytes
is_expect_line lower b pos line_end none = false
is_expect_line lower b pos line_end (some colon) =
    if ltb colon line_end
    then same_bytes (lower (substr b pos (colon - pos))) (codes "expect")
    else false

abbrev pub colon_or : Option ℕ → ℕ
colon_or none = 0
colon_or (some c) = c

-- The loop over the header lines; each round moves `pos` behind a line end.
unfoldable pub expect_from : (Bytes → Bytes) → ℕ → Bytes → ℕ → ℕ → Bytes
unfolding expect_value is_expect_line find find_char
expect_from lower zero b end pos = []
expect_from lower (suc rounds) b end pos = elim (find b crlf pos) [
  | none ↦ []
  | some line_end ↦
      let colon = find_char b b':' pos in
      let rest = expect_from lower rounds b end (line_end + 2) in
      let value = expect_value b (colon_or colon) line_end in
      if ltb pos end
      then if ltb end line_end
        then []
        else if is_expect_line lower b pos line_end colon
        then value
        else rest
      else []
]

-- The version on the request line, which ends at `eol`.
unfoldable pub version_of : Bytes → ℕ → Bytes
unfolding rfind
version_of b eol = elim (rfind b (codes "HTTP/") eol) [
  | none ↦ []
  | some p ↦ substr b (p + 5) (eol - p - 5)
]

unfoldable pub head_of : (Bytes → Bytes) → Bytes → ℕ → Option ℕ → RawRequestHead
unfolding version_of expect_from
head_of lower b end none = record { is_complete = true; version = []; expect = [] }
head_of lower b end (some eol) = record {
  is_complete = true;
  version = version_of b eol;
  expect = expect_from lower (length b) b end (eol + 2);
}

-- Where the blank line is found, a line end is found too: the `none` of `head_of` is not reached.
unfoldable pub peek_request_head : (Bytes → Bytes) → Bytes → RawRequestHead
unfolding head_of find
peek_request_head lower b = elim (find b (codes "\r\n\r\n") 0) [
  | none ↦ record { is_complete = false; version = []; expect = [] }
  | some end ↦ head_of lower b end (find b crlf 0)
]
