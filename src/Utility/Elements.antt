-- ===== src/Utility/Elements.antt =====
-- The elements of a comma separated header value, by recursion on its bytes, against the loops of
-- hasHeaderToken and stripHopByHopHeaders.
use smartmet_server.Text.{last_index, Bytes, is_blank, first_index}
use smartmet_server.Base.{
  ℕ, List, Bool, suc, length, is_empty, take, true, false, inl, map, inr, [], Option-cases, some,
  ◌&&◌, ◌<◌, ◌≡◌, ◌==◌, ◌∷◌, if◌then◌else◌, Option, arith, none, refl, drop, ltb, zero, ◌++◌, ◌≤◌,
  ◌-◌, ◌+◌,
}

abbrev pub push_byte : ℕ → List Bytes → List Bytes
push_byte c [] = (c ∷ []) ∷ []
push_byte c (p ∷ ps) = (c ∷ p) ∷ ps

-- The parts between commas, at least one.
unfoldable pub parts : Bytes → List Bytes
parts [] = [] ∷ []
parts (c ∷ s) = if c == b',' then [] ∷ parts s else push_byte c (parts s)

unfoldable pub trim_left : Bytes → Bytes
trim_left [] = []
trim_left (c ∷ s) = if is_blank c then trim_left s else c ∷ s

unfoldable pub trim_right : Bytes → Bytes
trim_right [] = []
trim_right (c ∷ s) = let r = trim_right s in if is_blank c && is_empty r then [] else c ∷ r

unfoldable pub trim : Bytes → Bytes
trim s = trim_right (trim_left s)

unfoldable pub non_empty : List Bytes → List Bytes
non_empty [] = []
non_empty (p ∷ ps) = if is_empty p then non_empty ps else p ∷ non_empty ps

-- The elements that a recipient reads from the value.
unfoldable pub elements : Bytes → List Bytes
elements v = non_empty (map trim (parts v))

abbrev pub no_blank : ℕ → Bool
no_blank b = if is_blank b then false else true

-- The bytes up to a position, and those from one.
abbrev pub upto : Option ℕ → Bytes → Bytes
upto none s = []
upto (some l) s = take (suc l) s

pub last_index-bound : (s : Bytes) (l : ℕ) → last_index no_blank s ≡ some l → l < length s
unfolding last_index
last_index-bound [] l e = cc
last_index-bound (c ∷ s) l e = elim (Option-cases (last_index no_blank s)) [
  | inl n ↦ ground (arith, n)
  | inr (i, q) ↦ ground (arith, q, last_index-bound s i q)
]

pub is_empty-take : (s : Bytes) (i : ℕ) → 0 < length s → is_empty (take (suc i) s) ≡ false
is_empty-take [] i h = absurd (omega arith)
is_empty-take (c ∷ s) i h = refl

pub trim_right-upto : (s : Bytes) → trim_right s ≡ upto (last_index no_blank s) s
unfolding last_index trim_right
trim_right-upto [] = refl
trim_right-upto (c ∷ s) = elim (Option-cases (last_index no_blank s)) [
  | inl n ↦ ground (arith, n, trim_right-upto s)
  | inr (i, q) ↦
      let b = last_index-bound s i q in
      ground (arith, q, trim_right-upto s, is_empty-take s i (omega (arith, b)))
]

pub trim_left-first :
    (s : Bytes) → trim_left s ≡ elim (first_index no_blank s) [ none ↦ [] | some i ↦ drop i s ]
unfolding first_index trim_left
trim_left-first [] = refl
trim_left-first (c ∷ s) = ground (arith, trim_left-first s)

pub first_index-last_index :
    (s : Bytes) (i : ℕ)
    → first_index no_blank s ≡ some i
    → (l : ℕ) × (last_index no_blank s ≡ some l) × (i ≤ l)
unfolding first_index last_index
first_index-last_index [] i e = absurd (cc)
first_index-last_index (c ∷ s) i e = elim (Option-cases (first_index no_blank s)) [
  | inl n ↦ elim (Option-cases (last_index no_blank s)) [
    | inl m ↦ (0, ground (arith, n, m), ground (arith, n, m))
    | inr (l, q) ↦ (suc l, ground (arith, q), ground (arith, n, q))
  ]
  | inr (j, p) ↦
      let (l, q, b) = first_index-last_index s j p in
      (suc l, ground (arith, q), ground (arith, p, q, b))
]

pub last_index-drop :
    (i : ℕ) (s : Bytes) (l : ℕ)
    → last_index no_blank s ≡ some l
    → i ≤ l
    → last_index no_blank (drop i s) ≡ some (l - i)
unfolding last_index
last_index-drop zero s l e h = ground (arith, e)
last_index-drop (suc i) [] l e h = cc
last_index-drop (suc i) (c ∷ s) l e h = elim (Option-cases (last_index no_blank s)) [
  | inl n ↦ absurd (ground (arith, n))
  | inr (j, q) ↦ ground (arith, q, last_index-drop i s j q)
]

-- The trimmed text by the positions of its first and its last byte that is not blank.
pub trim-positions :
    (s : Bytes) (i l : ℕ)
    → first_index no_blank s ≡ some i
    → last_index no_blank s ≡ some l
    → i ≤ l
    → trim s ≡ take (suc (l - i)) (drop i s)
unfolding trim
trim-positions s i l p q h =
    ground (arith, trim_left-first s, trim_right-upto (drop i s), last_index-drop i s l q h)

pub trim-blank : (s : Bytes) → first_index no_blank s ≡ none → trim s ≡ []
unfolding trim trim_right
trim-blank s n = ground (arith, trim_left-first s)

pub first_index-take :
    (k : ℕ) (s : Bytes) (i : ℕ)
    → first_index no_blank s ≡ some i
    → first_index no_blank (take k s) ≡ (if ltb i k then some i else none)
unfolding first_index
first_index-take zero s i e = ground arith
first_index-take (suc k) [] i e = cc
first_index-take (suc k) (c ∷ s) i e = elim (Option-cases (first_index no_blank s)) [
  | inl n ↦ ground (arith, n)
  | inr (j, q) ↦ ground (arith, q, first_index-take k s j q)
]

pub first_index-take-none :
    (k : ℕ) (s : Bytes) → first_index no_blank s ≡ none → first_index no_blank (take k s) ≡ none
unfolding first_index
first_index-take-none zero s e = refl
first_index-take-none (suc k) [] e = refl
first_index-take-none (suc k) (c ∷ s) e = ground (arith, first_index-take-none k s)

pub last_index-append :
    (p q : Bytes) (l : ℕ)
    → last_index no_blank q ≡ some l
    → last_index no_blank (p ++ q) ≡ some (length p + l)
unfolding last_index
last_index-append [] q l e = ground (arith, e)
last_index-append (c ∷ p) q l e = ground (arith, last_index-append p q l e)
