-- ===== src/Utility/Segments.antt =====
-- source/Utility.cpp: one element of the loop of hasHeaderToken, by positions in the whole value, and
-- by its own bytes.
use smartmet_server.Base.{
  ℕ, [], refl, take, Option-cases, inl, zero, some, sym, none, Bool-cases, ltb, inr, arith,
  length-take, drop, suc, ◌∷◌, ap, Option, length, ◌<◌, ◌≤◌, ◌-◌, ◌+◌, ◌≡◌, ◌++◌,
}
use smartmet_server.Text.{
  Bytes, find_last_not_blank, last_index, first_index, find_first_not_blank, substr,
}
use smartmet_server.Utility.Tokens.{list_element}
use smartmet_server.Utility.Elements.{
  trim, last_index-append, last_index-bound, first_index-take, first_index-take-none,
  first_index-last_index, trim-positions, no_blank,
}

pub take-nil : (n : ℕ) → take {A = ℕ} n [] ≡ []
take-nil zero = refl
take-nil (suc n) = refl

pub drop-nil : (n : ℕ) → drop {A = ℕ} n [] ≡ []
drop-nil zero = refl
drop-nil (suc n) = refl

pub take-take : (m k : ℕ) (s : Bytes) → m ≤ k → take m (take k s) ≡ take m s
take-take zero k s h = refl
take-take (suc m) zero s h = absurd (omega arith)
take-take (suc m) (suc k) [] h = refl
take-take (suc m) (suc k) (c ∷ s) h = ap (◌∷◌ c) (take-take m k s (omega arith))

pub take-add : (n k : ℕ) (v : Bytes) → take (n + k) v ≡ take n v ++ take k (drop n v)
take-add zero k v = ground arith
take-add (suc n) k [] = rw (take-nil (suc n + k), take-nil k)
take-add (suc n) k (c ∷ v) =
    let e : suc n + k ≡ suc (n + k) = omega arith in rw e (ap (◌∷◌ c) (take-add n k v))

pub take-length : (s : Bytes) → take (length s) s ≡ s
take-length [] = refl
take-length (c ∷ s) = ap (◌∷◌ c) (take-length s)

pub drop-add : (n i : ℕ) (v : Bytes) → drop (n + i) v ≡ drop i (drop n v)
drop-add zero i v = ground arith
drop-add (suc n) i [] = rw (drop-nil (suc n + i), drop-nil i)
drop-add (suc n) i (c ∷ v) = let e : suc n + i ≡ suc (n + i) = omega arith in rw e (drop-add n i v)

pub take-drop-take :
    (m i k : ℕ) (s : Bytes) → m + i ≤ k → take m (drop i (take k s)) ≡ take m (drop i s)
take-drop-take m zero k s h = take-take m k s (omega arith)
take-drop-take m (suc i) zero s h = absurd (omega arith)
take-drop-take m (suc i) (suc k) [] h = refl
take-drop-take m (suc i) (suc k) (c ∷ s) h = take-drop-take m i k s (omega arith)

-- The trimmed element as the loops see it.
abbrev pub element_of : Bytes → Option Bytes
element_of s = elim (first_index no_blank s) [ none ↦ none | some i ↦ some (trim s) ]

pub list_element-blank :
    (v : Bytes) (pos end : ℕ)
    → first_index no_blank (drop pos v) ≡ none
    → list_element v pos end ≡ none
unfolding list_element find_first_not_blank
list_element-blank v pos end n = ground (arith, n)

pub find_last-segment :
    (v : Bytes) (pos k l : ℕ)
    → pos + k ≤ length v
    → 0 < k
    → last_index no_blank (take k (drop pos v)) ≡ some l
    → find_last_not_blank v (pos + k - 1) ≡ some (pos + l)
unfolding find_last_not_blank
find_last-segment v pos k l h h0 q =
    let e : suc (pos + k - 1) ≡ pos + k = omega arith in
    let n : length (take pos v) ≡ pos = omega (arith, length-take pos v) in
    rw (e, take-add pos k v, last_index-append (take pos v) (take k (drop pos v)) l q, n)

pub substr-trim :
    (v : Bytes) (pos k i l : ℕ)
    → first_index no_blank (take k (drop pos v)) ≡ some i
    → last_index no_blank (take k (drop pos v)) ≡ some l
    → i ≤ l
    → l < k
    → substr v (pos + i) (pos + l - (pos + i) + 1) ≡ trim (take k (drop pos v))
substr-trim v pos k i l p q h lk =
    let e : pos + l - (pos + i) + 1 ≡ suc (l - i) = omega arith in
    rw (e, drop-add pos i v, trim-positions (take k (drop pos v)) i l p q h)
      (sym (take-drop-take (suc (l - i)) i k (drop pos v) (omega arith)))

pub list_element-some :
    (v : Bytes) (pos k i : ℕ)
    → pos + k ≤ length v
    → i < k
    → first_index no_blank (drop pos v) ≡ some i
    → list_element v pos (pos + k) ≡ some (trim (take k (drop pos v)))
unfolding list_element find_first_not_blank
list_element-some v pos k i h ik p =
    let seg = take k (drop pos v) in
    let p' : first_index no_blank seg ≡ some i =
      ground (arith, first_index-take k (drop pos v) i p) in
    let (l, q, il) = first_index-last_index seg i p' in
    let lk : l < k = omega (arith, last_index-bound seg l q, length-take k (drop pos v)) in
    ground
      (arith, p, find_last-segment v pos k l h (omega arith) q, substr-trim v pos k i l p' q il lk)

-- The element from `pos` to `pos + k` is what is left of its bytes behind the trimming.
pub list_element_lem :
    (v : Bytes) (pos k : ℕ)
    → pos + k ≤ length v
    → list_element v pos (pos + k) ≡ element_of (take k (drop pos v))
unfolding list_element find_first_not_blank
list_element_lem v pos k h = elim (Option-cases (first_index no_blank (drop pos v))) [
  | inl n ↦
      ground (arith, list_element-blank v pos (pos + k) n, first_index-take-none k (drop pos v) n)
  | inr (i, p) ↦ elim (Bool-cases (ltb i k)) [
    | inl y ↦
        let ik : i < k = ground arith in
        ground (arith, first_index-take k (drop pos v) i p, list_element-some v pos k i h ik p)
    | inr n ↦ ground (arith, p, first_index-take k (drop pos v) i p)
  ]
]
