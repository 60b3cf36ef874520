-- ===== src/Utility/HeadSpec.antt =====
-- source/Utility.cpp: the Expect header that peekRequestHead reads from the raw buffer, against the
-- header lines.
use smartmet_server.Utility.Head.{expect_value, crlf, is_expect_line, colon_or, expect_from}
use smartmet_server.Text.{first_index, Bytes, find_char, same_bytes, codes, find, substr}
use smartmet_server.Base.{
  ℕ, zero, drop, inl, take, length, some, suc, none, ap, length-append, List, Bool, true, [],
  Option-cases, false, inr, arith, refl, ◌∷◌, length-drop, ◌≤◌, ◌+◌, ◌++◌, ◌≡◌, ◌==◌, ◌<◌,
  if◌then◌else◌, ◌-◌, ◌∙◌,
}
use smartmet_server.Utility.Segments.{element_of, drop-add, take-length, list_element_lem}
use smartmet_server.Utility.Elements.{no_blank, trim-blank, trim}
use smartmet_server.Utility.HeadLines.{
  first_match-crlf, no_cr, first_index-append_some, first_index-append_none,
}
use smartmet_server.Limits.{value_or}
use smartmet_server.Utility.Tokens.{list_element}

-- The value of the first line named "expect", without the blanks around it.
unfoldable pub expect_of : (Bytes → Bytes) → List Bytes → Bytes
expect_of lower [] = []
expect_of lower (l ∷ ls) = elim (first_index (λ b. b == b':') l) [
  | none ↦ expect_of lower ls
  | some k ↦
      if same_bytes (lower (take k l)) (codes "expect")
      then trim (drop (suc k) l)
      else expect_of lower ls
]

pub first_index-lt : (p : ℕ → Bool) (l : Bytes) (k : ℕ) → first_index p l ≡ some k → k < length l
unfolding first_index
first_index-lt p [] k h = cc
first_index-lt p (c ∷ l) k h = elim (Option-cases (first_index p l)) [
  | inl n ↦ ground (arith, n)
  | inr (j, q) ↦ ground (arith, q, first_index-lt p l j q)
]

pub take-append : (k : ℕ) (s t : Bytes) → k ≤ length s → take k (s ++ t) ≡ take k s
take-append zero s t h = refl
take-append (suc k) [] t h = absurd (omega arith)
take-append (suc k) (c ∷ s) t h = ap (◌∷◌ c) (take-append k s t (omega arith))

pub drop-append : (k : ℕ) (s t : Bytes) → k ≤ length s → drop k (s ++ t) ≡ drop k s ++ t
drop-append zero s t h = refl
drop-append (suc k) [] t h = absurd (omega arith)
drop-append (suc k) (c ∷ s) t h = drop-append k s t (omega arith)

pub drop-length : (s t : Bytes) → drop (length s) (s ++ t) ≡ t
drop-length [] t = refl
drop-length (c ∷ s) t = drop-length s t

value_or-element_of : (s : Bytes) → value_or (element_of s) [] ≡ trim s
value_or-element_of s = elim (Option-cases (first_index no_blank s)) [
  | inl n ↦ ground (arith, n, trim-blank s n)
  | inr (i, q) ↦ ground (arith, q)
]

expect_value-element :
    (b : Bytes) (colon line_end : ℕ)
    → expect_value b colon line_end ≡ value_or (list_element b (colon + 1) line_end) []
unfolding expect_value list_element
expect_value-element b colon line_end = ground arith

-- What a round finds where the buffer goes on with a line.
module _ (b : Bytes) (pos : ℕ) (l t : Bytes) (here : drop pos b ≡ l ++ 13 ∷ 10 ∷ t) where
  fits : pos + length l + 2 ≤ length b
  fits = omega (arith, length-drop pos b, ap length here, length-append l (13 ∷ 10 ∷ t))

  pub find-line_end : no_cr l ≡ true → find b crlf pos ≡ some (pos + length l)
  unfolding find
  find-line_end n = ground (arith, fits, here, first_match-crlf l t n)

  pub drop-next_line : drop (pos + length l + 2) b ≡ t
  drop-next_line =
      let e : pos + length l + 2 ≡ pos + (length l + 2) = omega arith in
      rw (e, drop-add pos (length l + 2) b, here, drop-add (length l) 2 (l ++ 13 ∷ 10 ∷ t))
        (ap (drop 2) (drop-length l (13 ∷ 10 ∷ t)))

  after_colon :
      (k : ℕ) → k < length l → take (length l - suc k) (drop (pos + k + 1) b) ≡ drop (suc k) l
  after_colon k h =
      let e : pos + k + 1 ≡ pos + suc k = omega arith in
      let d = drop-append (suc k) l (13 ∷ 10 ∷ t) (omega arith) in
      let n : length l - suc k ≡ length (drop (suc k) l) = omega (arith, length-drop (suc k) l) in
      rw (e, drop-add pos (suc k) b, here, d, n)
        (take-append (length (drop (suc k) l)) (drop (suc k) l) (13 ∷ 10 ∷ t) (omega arith)
          ∙ take-length (drop (suc k) l))

  name-line : (k : ℕ) → k ≤ length l → substr b pos (pos + k - pos) ≡ take k l
  name-line k h =
      let e : pos + k - pos ≡ k = omega arith in rw (e, here) (take-append k l (13 ∷ 10 ∷ t) h)

  pub expect_value-line :
      (k : ℕ) → k < length l → expect_value b (pos + k) (pos + length l) ≡ trim (drop (suc k) l)
  expect_value-line k h =
      let n = length l - suc k in
      let e : pos + length l ≡ pos + k + 1 + n = omega arith in
      let s : take n (drop (pos + k + 1) b) ≡ drop (suc k) l = after_colon k h in
      expect_value-element b (pos + k) (pos + length l)
      ∙ ap (λ m. value_or (list_element b (pos + k + 1) m) []) e
      ∙ ap (λ v. value_or v []) (list_element_lem b (pos + k + 1) n (omega (arith, fits)))
      ∙ ap (λ v. value_or (element_of v) []) s
      ∙ value_or-element_of (drop (suc k) l)

  pub is_expect_line-named :
      (lower : Bytes → Bytes) (k : ℕ)
      → first_index (λ c. c == b':') l ≡ some k
      → is_expect_line lower b pos (pos + length l) (find_char b b':' pos)
        ≡ same_bytes (lower (take k l)) (codes "expect")
  unfolding is_expect_line find_char
  is_expect_line-named lower k q =
      let lt = first_index-lt (λ c. c == b':') l k q in
      let f = first_index-append_some (λ c. c == b':') l (13 ∷ 10 ∷ t) k q in
      let nm = name-line k (omega (arith, lt)) in ground (arith, here, f, lt, nm)

  pub is_expect_line-unnamed :
      (lower : Bytes → Bytes)
      → first_index (λ c. c == b':') l ≡ none
      → is_expect_line lower b pos (pos + length l) (find_char b b':' pos) ≡ false
  unfolding is_expect_line find_char
  is_expect_line-unnamed lower q =
      let f = first_index-append_none (λ c. c == b':') l (13 ∷ 10 ∷ t) q in
      elim (Option-cases (first_index (λ c. c == b':') (13 ∷ 10 ∷ t))) [
        | inl n ↦ ground (arith, here, f, n)
        | inr (j, m) ↦ ground (arith, here, f, m)
      ]

  pub colon_or-line :
      (k : ℕ) → first_index (λ c. c == b':') l ≡ some k → colon_or (find_char b b':' pos) ≡ pos + k
  unfolding find_char
  colon_or-line k q =
      let f = first_index-append_some (λ c. c == b':') l (13 ∷ 10 ∷ t) k q in
      ground (arith, here, f)

  -- A round behind the name of its line.
  pub expect_from-named :
      (lower : Bytes → Bytes) (r end k : ℕ)
      → no_cr l ≡ true
      → pos < end
      → pos + length l ≤ end
      → first_index (λ c. c == b':') l ≡ some k
      → expect_from lower (suc r) b end pos ≡ (
          if same_bytes (lower (take k l)) (codes "expect")
          then trim (drop (suc k) l)
          else expect_from lower r b end (pos + length l + 2))
  unfolding expect_from
  expect_from-named lower r end k n lt le q =
      let f = find-line_end n in
      let c = colon_or-line k q in
      let v = expect_value-line k (first_index-lt (λ c. c == b':') l k q) in
      let m = is_expect_line-named lower k q in ground (arith, f, c, v, m, lt, le)

  -- A round over a line without a name.
  pub expect_from-unnamed :
      (lower : Bytes → Bytes) (r end : ℕ)
      → no_cr l ≡ true
      → pos < end
      → pos + length l ≤ end
      → first_index (λ c. c == b':') l ≡ none
      → expect_from lower (suc r) b end pos ≡ expect_from lower r b end (pos + length l + 2)
  unfolding expect_from
  expect_from-unnamed lower r end n lt le q =
      let f = find-line_end n in
      let m = is_expect_line-unnamed lower q in ground (arith, f, m, lt, le)
