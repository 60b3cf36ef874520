-- ===== src/Utility/HeadLines.antt =====
-- The header section of a request as lines, and what the searches of peekRequestHead find in it.
use smartmet_server.Text.{first_match, Bytes, first_index, starts_with, shifted, codes}
use smartmet_server.Base.{
  List, ℕ, Bool, [], not, refl, true, none, length, some, ◌&&◌, ◌∷◌, ◌++◌, ◌≡◌, ◌==◌, ◌+◌, ◌<◌,
  Option-cases, arith, inr, inl, ap, ◌∙◌,
}
use smartmet_server.Utility.Head.{crlf}

-- No carriage return in the text.
abbrev pub no_cr : Bytes → Bool
no_cr [] = true
no_cr (c ∷ s) = not (c == 13) && no_cr s

-- A line of the header section: no carriage return, and not empty.
abbrev pub IsHeaderLine : Bytes → Type 0
IsHeaderLine l = (no_cr l ≡ true) × (0 < length l)

abbrev pub AllHeaderLines : List Bytes → Type 0
AllHeaderLines [] = Unit
AllHeaderLines (l ∷ ls) = IsHeaderLine l × AllHeaderLines ls

-- The lines with their line ends, the blank line, and what follows.
abbrev pub wire : List Bytes → Bytes → Bytes
wire [] rest = 13 ∷ 10 ∷ rest
wire (l ∷ ls) rest = l ++ 13 ∷ 10 ∷ wire ls rest

-- The bytes of the lines with their line ends.
abbrev pub lines_length : List Bytes → ℕ
lines_length [] = 0
lines_length (l ∷ ls) = length l + 2 + lines_length ls

pub first_match-crlf :
    (l t : Bytes) → no_cr l ≡ true → first_match crlf (l ++ 13 ∷ 10 ∷ t) ≡ some (length l)
unfolding first_match starts_with
first_match-crlf [] t h = refl
first_match-crlf (c ∷ l) t h = ground (arith, first_match-crlf l t)

pub first_index-append_some :
    (p : ℕ → Bool) (l t : Bytes) (k : ℕ)
    → first_index p l ≡ some k
    → first_index p (l ++ t) ≡ some k
unfolding first_index
first_index-append_some p [] t k h = cc
first_index-append_some p (c ∷ l) t k h = elim (Option-cases (first_index p l)) [
  | inl n ↦ ground (arith, n)
  | inr (j, q) ↦ ground (arith, q, first_index-append_some p l t j q)
]

pub first_index-append_none :
    (p : ℕ → Bool) (l t : Bytes)
    → first_index p l ≡ none
    → first_index p (l ++ t) ≡ shifted (length l) (first_index p t)
unfolding first_index
first_index-append_none p [] t h = ground arith
first_index-append_none p (c ∷ l) t h = elim (Option-cases (first_index p l)) [
  | inl n ↦ ground (arith, n, first_index-append_none p l t n)
  | inr (j, q) ↦ ground (arith, q)
]

first_match-skip :
    (l t : Bytes) (n : ℕ)
    → no_cr l ≡ true
    → first_match (codes "\r\n\r\n") (13 ∷ 10 ∷ t) ≡ some n
    → first_match (codes "\r\n\r\n") (l ++ 13 ∷ 10 ∷ t) ≡ some (length l + n)
unfolding first_match starts_with
first_match-skip [] t n h e = e ∙ ap some (omega arith)
first_match-skip (c ∷ l) t n h e = ground (arith, first_match-skip l t n)

first_match-wire :
    (ls : List Bytes) (rest : Bytes)
    → AllHeaderLines ls
    → first_match (codes "\r\n\r\n") (13 ∷ 10 ∷ wire ls rest) ≡ some (lines_length ls)
unfolding first_match starts_with
first_match-wire [] rest hs = refl
first_match-wire ([] ∷ ls) rest ((n, h), hs) = absurd (omega (arith, h))
first_match-wire ((c ∷ l) ∷ ls) rest ((n, h), hs) = ground (
  arith,
  n,
  first_match-skip (c ∷ l) (wire ls rest) (lines_length ls) n (first_match-wire ls rest hs),
)

-- The first blank line of the message ends the header lines.
pub first_match-blank_line :
    (l : Bytes) (ls : List Bytes) (rest : Bytes)
    → no_cr l ≡ true
    → AllHeaderLines ls
    → first_match (codes "\r\n\r\n") (l ++ 13 ∷ 10 ∷ wire ls rest)
      ≡ some (length l + lines_length ls)
first_match-blank_line l ls rest h hs =
    first_match-skip l (wire ls rest) (lines_length ls) h (first_match-wire ls rest hs)
