-- ===== src/Utility/HeadVersion.antt =====
-- source/Utility.cpp: the version that peekRequestHead reads from the raw buffer, against the request
-- line.
use smartmet_server.Text.{starts_with, Bytes, codes, last_match, rfind, substr}
use smartmet_server.Base.{
  arith, [], ℕ, refl, some, drop, length, true, none, Option, ◌≡◌, ◌+◌, ◌++◌, ◌≤◌, ◌∷◌,
  if◌then◌else◌, Option-cases, suc, inr, Bool-cases, inl, length-drop, ◌-◌, ◌∙◌,
}
use smartmet_server.Utility.HeadLines.{no_cr}
use smartmet_server.Utility.Head.{version_of}
use smartmet_server.Utility.HeadSpec.{drop-append, take-append}
use smartmet_server.Utility.Segments.{take-length}
use smartmet_server.Limits.{value_or}

-- What follows the last occurrence of a text.
unfoldable pub after_last : Bytes → Bytes → Option Bytes
after_last p [] = none
after_last p (c ∷ s) = elim (after_last p s) [
  | some v ↦ some v
  | none ↦ if starts_with p (c ∷ s) then some (drop (length p) (c ∷ s)) else none
]

-- A text without a carriage return does not reach over one.
starts_with-append :
    (p s t : Bytes) → no_cr p ≡ true → starts_with p (s ++ 13 ∷ t) ≡ starts_with p s
unfolding starts_with
starts_with-append [] s t n = refl
starts_with-append (a ∷ p) [] t n = ground (arith, n)
starts_with-append (a ∷ p) (c ∷ s) t n = ground (arith, n, starts_with-append p s t)

starts_with-length : (p s : Bytes) → starts_with p s ≡ true → length p ≤ length s
unfolding starts_with
starts_with-length [] s h = omega arith
starts_with-length (a ∷ p) [] h = cc
starts_with-length (a ∷ p) (c ∷ s) h = ground (arith, starts_with-length p s)

-- The last occurrence that ends before the carriage return.
module _ (t : Bytes) where
  last_match-none :
      (l : Bytes)
      → after_last (codes "HTTP/") l ≡ none
      → last_match (length l) (codes "HTTP/") (l ++ 13 ∷ t) ≡ none
  unfolding last_match after_last starts_with
  last_match-none [] h = refl
  last_match-none (c ∷ l) h = elim (Option-cases (after_last (codes "HTTP/") l)) [
    | inl n ↦
        let e = starts_with-append (codes "HTTP/") (c ∷ l) t refl in
        ground (arith, n, e, last_match-none l n)
    | inr (u, q) ↦ absurd (ground (arith, q))
  ]

  last_match-some :
      (l v : Bytes)
      → after_last (codes "HTTP/") l ≡ some v
      → (i : ℕ) × (last_match (length l) (codes "HTTP/") (l ++ 13 ∷ t) ≡ some i)
        × (i + 5 ≤ length l)
        × (v ≡ drop (i + 5) l)
  unfolding last_match after_last
  last_match-some [] v h = absurd (cc)
  last_match-some (c ∷ l) v h = elim (Option-cases (after_last (codes "HTTP/") l)) [
    | inl n ↦ elim (Bool-cases (starts_with (codes "HTTP/") (c ∷ l))) [
      | inl y ↦
          let e = starts_with-append (codes "HTTP/") (c ∷ l) t refl in
          let b = starts_with-length (codes "HTTP/") (c ∷ l) y in
          (0, ground (arith, e, y, last_match-none l n), b, ground (arith, n, y))
      | inr y ↦ absurd (ground (arith, n, y))
    ]
    | inr (u, q) ↦
        let (i, m, b, e) = last_match-some l u q in
        (suc i, ground (arith, m), omega (arith, b), ground (arith, q, e))
  ]

-- The version that is read from a line which a carriage return ends.
pub version_of-line :
    (l t : Bytes) → version_of (l ++ 13 ∷ t) (length l) ≡ value_or (after_last (codes "HTTP/") l) []
unfolding version_of rfind
version_of-line l t = elim (Option-cases (after_last (codes "HTTP/") l)) [
  | inl n ↦ ground (arith, n, last_match-none t l n)
  | inr (v, q) ↦
      let (i, m, b, e) = last_match-some t l v q in
      let d = drop-append (i + 5) l (13 ∷ t) b in
      let k : length l - i - 5 ≡ length (drop (i + 5) l) = omega (arith, length-drop (i + 5) l) in
      let a = take-append (length (drop (i + 5) l)) (drop (i + 5) l) (13 ∷ t) (omega arith) in
      let s : substr (l ++ 13 ∷ t) (i + 5) (length l - i - 5) ≡ drop (i + 5) l =
        rw (d, k) (a ∙ take-length (drop (i + 5) l)) in
      ground (arith, m, q, e, s)
]
