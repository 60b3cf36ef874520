-- ===== src/LoadTest/Status.antt =====
-- loadtest/Tester.cpp: parseStatus. `split` with token_compress_on takes a run of separators as one,
-- and gives an empty token for what stands before a leading run and behind a trailing one.
use smartmet_server.Text.{Bytes, first_match, codes}
use smartmet_server.Base.{
  List, ℕ, some, false, take, drop, [], none, map, Bool, leb, Option, ◌==◌, ◌&&◌, ◌||◌, ◌∷◌, ◌+◌,
  if◌then◌else◌,
}

abbrev pub put_first : ℕ → List Bytes → List Bytes
put_first c [] = (c ∷ []) ∷ []
put_first c (t ∷ ts) = (c ∷ t) ∷ ts

-- The tokens; `after` says that the byte before was a separator.
unfoldable pub split_from : (ℕ → Bool) → Bool → Bytes → List Bytes
split_from p after [] = [] ∷ []
split_from p after (c ∷ s) =
    let rest = split_from p (p c) s in
    if p c then (if after then rest else [] ∷ rest) else put_first c rest

abbrev pub split_tokens : (ℕ → Bool) → Bytes → List Bytes
split_tokens p s = split_from p false s

abbrev pub is_line_end : ℕ → Bool
is_line_end c = c == 13 || c == 10

-- std::isspace in the C locale.
abbrev pub is_space : ℕ → Bool
is_space c = c == 32 || (leb 9 c && leb c 13)

abbrev pub first_token : List Bytes → Bytes
first_token [] = []
first_token (t ∷ ts) = t

abbrev pub second_token : List Bytes → Option Bytes
second_token [] = none
second_token (t ∷ []) = none
second_token (t ∷ u ∷ ts) = some u

-- replace_all of line feeds and carriage returns by blanks.
abbrev pub flatten : Bytes → Bytes
flatten = map (λ c. if is_line_end c then 32 else c)

abbrev pub blank_line : Bytes
blank_line = codes "\r\n\r\n"

-- The header section and the body; a message without a blank line is all header.
unfoldable pub split_message : Bytes → Bytes × Bytes
unfolding first_match
split_message s = elim (first_match blank_line s) [
  | none ↦ (s, [])
  | some i ↦ (take i s, drop (i + 4) s)
]

-- The status code and the body, or two empty strings if the status line has no second token. `split`
-- gives one token at least, so the test for none is not reached.
unfoldable pub parse_status : Bytes → Bytes × Bytes
unfolding split_message split_from
parse_status s =
    let (header, body) = split_message s in
    elim (second_token (split_tokens is_space (first_token (split_tokens is_line_end header)))) [
      | none ↦ ([], [])
      | some code ↦ (code, flatten body)
    ]
