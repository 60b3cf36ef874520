-- ===== src/Utility/TokenSpec.antt =====
-- source/Utility.cpp, hasHeaderToken, and source/AsyncConnection.cpp, the loop of
-- stripHopByHopHeaders, against the elements of the header value.
use smartmet_server.Utility.Tokens.{
  has_header_token, listed, has_token_from, listed_from, or_size, push_back, list_element,
}
use smartmet_server.Base.{
  ℕ, inl, map, ◌∷◌, ap, Option-cases, List, arith, is_empty, take, zero, Bool, some, none, inr,
  drop, [], length, false, refl, suc, length-drop, ◌||◌, ◌≡◌, ◌<◌, ◌+◌, ◌∙◌, ◌-◌, ◌≤◌, ◌==◌,
  if◌then◌else◌,
}
use smartmet_server.Utility.Elements.{
  elements, parts, trim-positions, is_empty-take, trim-blank, non_empty, last_index-bound,
  first_index-last_index, trim, no_blank,
}
use smartmet_server.Text.{Bytes, first_index, same_bytes, find_char}
use smartmet_server.Utility.Segments.{list_element_lem, element_of, drop-add, take-length}

abbrev is_comma : ℕ → Bool
is_comma b = b == b','

parts-none : (s : Bytes) → first_index is_comma s ≡ none → parts s ≡ s ∷ []
unfolding first_index parts
parts-none [] e = refl
parts-none (c ∷ s) e = elim (Option-cases (first_index is_comma s)) [
  | inl n ↦ ground (arith, n, parts-none s n)
  | inr (k, q) ↦ absurd (ground (arith, q))
]

parts-some :
    (s : Bytes) (k : ℕ)
    → first_index is_comma s ≡ some k
    → (parts s ≡ take k s ∷ parts (drop (suc k) s)) × (k < length s)
unfolding first_index parts
parts-some [] k e = absurd (cc)
parts-some (c ∷ s) k e = elim (Option-cases (first_index is_comma s)) [
  | inl n ↦ ground (arith, n)
  | inr (j, q) ↦ ground (arith, q, parts-some s j q)
]

trim-ne-empty : (s : Bytes) (i : ℕ) → first_index no_blank s ≡ some i → is_empty (trim s) ≡ false
trim-ne-empty s i p =
    let (l, q, il) = first_index-last_index s i p in
    rw (trim-positions s i l p q il)
      (is_empty-take (drop i s) (l - i) (omega (arith, last_index-bound s l q, length-drop i s)))

push_back-element :
    (s : Bytes) (rest : List Bytes)
    → push_back (element_of s) rest ≡ (if is_empty (trim s) then rest else trim s ∷ rest)
push_back-element s rest = elim (Option-cases (first_index no_blank s)) [
  | inl n ↦ ground (arith, n, trim-blank s n)
  | inr (i, p) ↦ ground (arith, p, trim-ne-empty s i p)
]

listed_from_past : (r : ℕ) (v : Bytes) (pos : ℕ) → length v < pos → listed_from r v pos ≡ []
unfolding listed_from
listed_from_past zero v pos h = refl
listed_from_past (suc r) v pos h = ground arith

elements-parts :
    (s p : Bytes) (ps : List Bytes)
    → parts s ≡ p ∷ ps
    → elements s
      ≡ (if is_empty (trim p) then non_empty (map trim ps) else trim p ∷ non_empty (map trim ps))
unfolding elements non_empty
elements-parts s p ps e = rw e

-- One round of the loop, with and without a comma ahead.
round_last :
    (r : ℕ) (v : Bytes) (pos : ℕ)
    → pos ≤ length v
    → first_index is_comma (drop pos v) ≡ none
    → listed_from (suc r) v pos ≡ elements (drop pos v)
unfolding listed_from find_char non_empty
round_last r v pos h n =
    let s = drop pos v in
    let e : length v ≡ pos + length s = omega (arith, length-drop pos v) in
    let x : list_element v pos (length v) ≡ element_of s =
      rw e (list_element_lem v pos (length s) (omega arith) ∙ ap element_of (take-length s)) in
    ground (
      arith,
      n,
      x,
      listed_from_past r v (length v + 1) (omega arith),
      push_back-element s [],
      elements-parts s s [] (parts-none s n),
    )

round_comma :
    (r : ℕ) (v : Bytes) (pos k : ℕ)
    → pos ≤ length v
    → first_index is_comma (drop pos v) ≡ some k
    → listed_from r v (pos + k + 1) ≡ elements (drop (suc k) (drop pos v))
    → listed_from (suc r) v pos ≡ elements (drop pos v)
unfolding listed_from find_char elements
round_comma r v pos k h p ih =
    let s = drop pos v in
    let (split, lt) = parts-some s k p in
    let b : pos + k ≤ length v = omega (arith, lt, length-drop pos v) in
    ground (
      arith,
      p,
      ih,
      list_element_lem v pos k b,
      push_back-element (take k s) (listed_from r v (pos + k + 1)),
      elements-parts s (take k s) (parts (drop (suc k) s)) split,
    )

listed_from-elements :
    (r : ℕ) (v : Bytes) (pos : ℕ)
    → pos ≤ length v
    → length v < r + pos
    → listed_from r v pos ≡ elements (drop pos v)
listed_from-elements zero v pos h b = absurd (omega arith)
listed_from-elements (suc r) v pos h b = elim (Option-cases (first_index is_comma (drop pos v))) [
  | inl n ↦ round_last r v pos h n
  | inr (k, p) ↦
      let lt = (parts-some (drop pos v) k p).1 in
      let in_range : pos + k + 1 ≤ length v = omega (arith, lt, length-drop pos v) in
      let e : pos + k + 1 ≡ pos + suc k = omega arith in
      round_comma r v pos k h p (
        listed_from-elements r v (pos + k + 1) in_range (omega arith)
        ∙ ap elements (ap (λ n. drop n v) e ∙ drop-add pos (suc k) v))
]

-- The names that stripHopByHopHeaders collects are the elements of the Connection header.
pub listed-elements : (v : Bytes) → listed v ≡ elements v
unfolding listed
listed-elements v = listed_from-elements (length v + 2) v 0 (omega arith) (omega arith)

unfoldable pub any_matches : (Bytes → Bytes) → Bytes → List Bytes → Bool
any_matches lower t [] = false
any_matches lower t (e ∷ es) = same_bytes (lower e) t || any_matches lower t es

has_token_from-listed :
    (lower : Bytes → Bytes) (r : ℕ) (v t : Bytes) (pos : ℕ)
    → has_token_from lower r v t pos ≡ any_matches lower t (listed_from r v pos)
unfolding has_token_from listed_from any_matches
has_token_from-listed lower zero v t pos = refl
has_token_from-listed lower (suc r) v t pos =
    ground (arith, has_token_from-listed lower r v t (or_size v (find_char v b',' pos) + 1))

-- hasHeaderToken answers whether one of the comma separated elements of the value, trimmed of blanks,
-- is the token in lower case, for every value and every token.
pub has_header_token-elements :
    (lower : Bytes → Bytes) (v t : Bytes)
    → has_header_token lower v t ≡ any_matches lower t (elements v)
unfolding has_header_token listed
has_header_token-elements lower v t =
    has_token_from-listed lower (length v + 2) v t 0 ∙ ap (any_matches lower t) (listed-elements v)
