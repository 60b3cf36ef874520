-- ===== src/LoadTest/StatusSpec.antt =====
-- loadtest/Tester.cpp: what parseStatus reads from an answer that a server writes.
use smartmet_server.Base.{
  List, ℕ, ◌∷◌, take, [], zero, some, length, not, ap, true, Bool, refl, drop, false, arith, suc,
  ◌≡◌, ◌<◌, ◌++◌, ◌∙◌, ◌+◌, ◌&&◌,
}
use smartmet_server.Text.{Bytes}
use smartmet_server.LoadTest.Status.{
  split_from, is_line_end, first_token, second_token, is_space, split_message, parse_status,
  flatten,
}
use smartmet_server.Utility.HeadLines.{
  wire, lines_length, no_cr, first_match-blank_line, AllHeaderLines,
}
use smartmet_server.Utility.HeadSpec.{drop-length}
use smartmet_server.Utility.Segments.{drop-add}

-- No byte passes the test.
abbrev pub none_of : (ℕ → Bool) → Bytes → Bool
none_of p [] = true
none_of p (c ∷ s) = not (p c) && none_of p s

none_of-append :
    (p : ℕ → Bool) (s t : Bytes)
    → none_of p s ≡ true
    → none_of p t ≡ true
    → none_of p (s ++ t) ≡ true
none_of-append p [] t h k = k
none_of-append p (c ∷ s) t h k = ground (arith, none_of-append p s t)

none_of-line_end : (s : Bytes) → none_of is_space s ≡ true → none_of is_line_end s ≡ true
none_of-line_end [] h = refl
none_of-line_end (c ∷ s) h = ground (arith, none_of-line_end s)

none_of-no_cr : (s : Bytes) → none_of is_line_end s ≡ true → no_cr s ≡ true
none_of-no_cr [] h = refl
none_of-no_cr (c ∷ s) h = ground (arith, none_of-no_cr s)

-- The split at the first separator.
split_from-append :
    (p : ℕ → Bool) (a : Bytes) (c : ℕ) (s : Bytes)
    → none_of p a ≡ true
    → p c ≡ true
    → split_from p false (a ++ c ∷ s) ≡ a ∷ split_from p true s
unfolding split_from
split_from-append p [] c s h k = ground (arith, k)
split_from-append p (d ∷ a) c s h k = ground (arith, split_from-append p a c s)

split_from-end :
    (p : ℕ → Bool) (a : Bytes) → none_of p a ≡ true → split_from p false (a ++ []) ≡ a ∷ []
unfolding split_from
split_from-end p [] h = refl
split_from-end p (d ∷ a) h = ground (arith, split_from-end p a)

-- A separator before a token adds nothing.
split_from-after :
    (p : ℕ → Bool) (a s : Bytes)
    → none_of p a ≡ true
    → 0 < length a
    → split_from p true (a ++ s) ≡ split_from p false (a ++ s)
unfolding split_from
split_from-after p [] s h k = absurd (omega (arith, k))
split_from-after p (d ∷ a) s h k = ground arith

take-past : (s t : Bytes) (n : ℕ) → take (length s + n) (s ++ t) ≡ s ++ take n t
take-past [] t n = ap (λ k. take k t) (omega arith)
take-past (c ∷ s) t n =
    let e : length (c ∷ s) + n ≡ suc (length s + n) = omega arith in
    rw e (ap (◌∷◌ c) (take-past s t n))

drop-past : (s t : Bytes) (n : ℕ) → drop (length s + n) (s ++ t) ≡ drop n t
drop-past s t n = drop-add (length s) n (s ++ t) ∙ ap (drop n) (drop-length s t)

-- What stands behind the blank line.
drop-wire : (ls : List Bytes) (body : Bytes) → drop (lines_length ls + 2) (wire ls body) ≡ body
drop-wire [] body = refl
drop-wire (l ∷ ls) body =
    let e : length l + 2 + lines_length ls + 2 ≡ length l + (2 + (lines_length ls + 2)) =
      omega arith in
    rw (e, drop-past l (13 ∷ 10 ∷ wire ls body) (2 + (lines_length ls + 2)))
      (drop-add 2 (lines_length ls + 2) (13 ∷ 10 ∷ wire ls body) ∙ drop-wire ls body)

-- The first line of the header section, however much of the section follows.
first_token-line :
    (s t : Bytes) (n : ℕ)
    → none_of is_line_end s ≡ true
    → first_token (split_from is_line_end false (s ++ take n (13 ∷ t))) ≡ s
first_token-line s t zero h = ap first_token (split_from-end is_line_end s h)
first_token-line s t (suc n) h =
    ap first_token (split_from-append is_line_end s 13 (take n t) h refl)

abbrev pub status_line : Bytes → Bytes → Bytes → Bytes
status_line v code reason = v ++ 32 ∷ (code ++ 32 ∷ reason)

second_token-status_line :
    (v code reason : Bytes)
    → none_of is_space v ≡ true
    → none_of is_space code ≡ true
    → 0 < length code
    → second_token (split_from is_space false (status_line v code reason)) ≡ some code
second_token-status_line v code reason hv hc k = ap second_token (
    split_from-append is_space v 32 (code ++ 32 ∷ reason) hv refl
    ∙ ap (◌∷◌ v) (
        split_from-after is_space code (32 ∷ reason) hc k
        ∙ split_from-append is_space code 32 reason hc refl))

status_line-line :
    (v code reason : Bytes)
    → none_of is_space v ≡ true
    → none_of is_space code ≡ true
    → none_of is_line_end reason ≡ true
    → none_of is_line_end (status_line v code reason) ≡ true
status_line-line v code reason hv hc hr =
    let behind = none_of-append is_line_end code (32 ∷ reason) (none_of-line_end code hc) hr in
    none_of-append is_line_end v (32 ∷ (code ++ 32 ∷ reason)) (none_of-line_end v hv) behind

split_message-wire :
    (line : Bytes) (ls : List Bytes) (body : Bytes)
    → none_of is_line_end line ≡ true
    → AllHeaderLines ls
    → split_message (line ++ 13 ∷ 10 ∷ wire ls body)
      ≡ (line ++ take (lines_length ls) (13 ∷ 10 ∷ wire ls body), body)
unfolding split_message
split_message-wire line ls body h hs =
    let t = 13 ∷ 10 ∷ wire ls body in
    let f = first_match-blank_line line ls body (none_of-no_cr line h) hs in
    let e : length line + lines_length ls + 4 ≡ length line + (2 + (lines_length ls + 2)) =
      omega arith in
    let d : drop (length line + lines_length ls + 4) (line ++ t) ≡ body =
      rw (e, drop-past line t (2 + (lines_length ls + 2)))
        (drop-add 2 (lines_length ls + 2) t ∙ drop-wire ls body) in
    ground (arith, f, d, take-past line t (lines_length ls))

-- The answer that a server writes gives its code and its body, in which blanks stand for the line
-- ends, whatever the length of the header section: a status line of a version, a code that is not
-- empty, both without white space, and a reason on one line; header lines that are not empty and
-- have no carriage return; the blank line and the body.
pub parse_status_lem :
    (v code reason : Bytes) (ls : List Bytes) (body : Bytes)
    → none_of is_space v ≡ true
    → none_of is_space code ≡ true
    → 0 < length code
    → none_of is_line_end reason ≡ true
    → AllHeaderLines ls
    → parse_status (status_line v code reason ++ 13 ∷ 10 ∷ wire ls body) ≡ (code, flatten body)
unfolding parse_status
parse_status_lem v code reason ls body hv hc k hr hs =
    let line = status_line v code reason in
    let h = status_line-line v code reason hv hc hr in
    let m = split_message-wire line ls body h hs in
    let f = first_token-line line (10 ∷ wire ls body) (lines_length ls) h in
    ground (arith, m, f, second_token-status_line v code reason hv hc k)
