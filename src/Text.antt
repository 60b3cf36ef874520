-- ===== src/Text.antt =====
-- Byte strings, and the operations of std::string that source/Utility.cpp and
-- source/AsyncConnection.cpp use. `npos` is `none`.
use Prim.Native.Char.{code}
use Prim.Native.String.{String}
use smartmet_server.Base.{
  ℕ, zero, suc, ◌+◌, ◌-◌, ◌/◌, ◌%◌, Bool, true, false, ◌&&◌, ◌||◌, List, [], ◌∷◌, map, Option, none,
  some, ltb, leb, ◌==◌, if◌then◌else◌, take, drop, length, arith, refl, ◌≡◌,
}

abbrev pub Bytes : Type 0
Bytes = List ℕ

-- The code points of a literal: its bytes, since the literals are ASCII.
abbrev pub codes : String → Bytes
codes String.[] = []
codes (String.◌∷◌ c s) = code c ∷ codes s

-- `operator==` of two strings.
unfoldable pub same_bytes : Bytes → Bytes → Bool
same_bytes [] [] = true
same_bytes [] (b ∷ t) = false
same_bytes (a ∷ s) [] = false
same_bytes (a ∷ s) (b ∷ t) = a == b && same_bytes s t

pub same_bytes-eq : (a b : Bytes) → same_bytes a b ≡ true → a ≡ b
unfolding same_bytes
same_bytes-eq [] [] h = refl
same_bytes-eq [] (b ∷ t) h = cc
same_bytes-eq (a ∷ s) [] h = cc
same_bytes-eq (a ∷ s) (b ∷ t) h = ground (arith, same_bytes-eq s t)

pub same_bytes_refl : (a : Bytes) → same_bytes a a ≡ true
unfolding same_bytes
same_bytes_refl [] = refl
same_bytes_refl (a ∷ s) = ground (arith, same_bytes_refl s)

-- The tests that `find`, `find_first_not_of(" \t")` and the like apply to a byte.
abbrev pub is_blank : ℕ → Bool
is_blank c = c == b' ' || c == b'\t'

abbrev pub shifted : ℕ → Option ℕ → Option ℕ
shifted n none = none
shifted n (some i) = some (n + i)

abbrev pub next : Option ℕ → Option ℕ
next none = none
next (some i) = some (suc i)

-- The position of the first byte that passes a test.
unfoldable pub first_index : (ℕ → Bool) → Bytes → Option ℕ
first_index p [] = none
first_index p (c ∷ s) = if p c then some 0 else next (first_index p s)

-- The position of the last byte that passes a test.
unfoldable pub last_index : (ℕ → Bool) → Bytes → Option ℕ
last_index p [] = none
last_index p (c ∷ s) = elim (last_index p s) [
  | some i ↦ some (suc i)
  | none ↦ if p c then some 0 else none
]

-- `s.find(c, pos)`.
unfoldable pub find_char : Bytes → ℕ → ℕ → Option ℕ
unfolding first_index
find_char s c pos = shifted pos (first_index (λ b. b == c) (drop pos s))

-- `s.find_first_not_of(" \t", pos)`.
unfoldable pub find_first_not_blank : Bytes → ℕ → Option ℕ
unfolding first_index
find_first_not_blank s pos =
    shifted pos (first_index (λ b. if is_blank b then false else true) (drop pos s))

-- `s.find_last_not_of(" \t", pos)`.
unfoldable pub find_last_not_blank : Bytes → ℕ → Option ℕ
unfolding last_index
find_last_not_blank s pos = last_index (λ b. if is_blank b then false else true) (take (suc pos) s)

-- `s.substr(pos, n)` for a `pos` within the string.
abbrev pub substr : Bytes → ℕ → ℕ → Bytes
substr s pos n = take n (drop pos s)

unfoldable pub starts_with : Bytes → Bytes → Bool
starts_with [] s = true
starts_with (a ∷ p) [] = false
starts_with (a ∷ p) (b ∷ s) = a == b && starts_with p s

-- The first, and the last, position at which a text begins.
unfoldable pub first_match : Bytes → Bytes → Option ℕ
unfolding starts_with
first_match p [] = if starts_with p [] then some 0 else none
first_match p (c ∷ s) = if starts_with p (c ∷ s) then some 0 else next (first_match p s)

unfoldable pub last_match : ℕ → Bytes → Bytes → Option ℕ
unfolding starts_with
last_match zero p s = if starts_with p s then some 0 else none
last_match (suc n) p [] = if starts_with p [] then some 0 else none
last_match (suc n) p (c ∷ s) = elim (last_match n p s) [
  | some i ↦ some (suc i)
  | none ↦ if starts_with p (c ∷ s) then some 0 else none
]

-- `s.find(p, pos)`.
unfoldable pub find : Bytes → Bytes → ℕ → Option ℕ
unfolding first_match
find s p pos = if ltb (length s) pos then none else shifted pos (first_match p (drop pos s))

-- `s.rfind(p, pos)`.
unfoldable pub rfind : Bytes → Bytes → ℕ → Option ℕ
unfolding last_match
rfind s p pos = last_match pos p s

-- `s.find(p) != npos`.
unfoldable pub contains : Bytes → Bytes → Bool
unfolding first_match
contains s p = elim (first_match p s) [ none ↦ false | some i ↦ true ]

-- The digits of a number in a base of at most 16, as `%x` and `std::to_string` write them; a number
-- has fewer digits than the fuel.
unfoldable pub digit : ℕ → ℕ
digit d = if ltb d 10 then b'0' + d else b'a' + (d - 10)

unfoldable pub digits : ℕ → ℕ → ℕ → Bytes → Bytes
unfolding digit
digits zero base n out = out
digits (suc f) base n out =
    let out' = digit (n % base) ∷ out in
    let rest = digits f base (n / base) out' in if ltb n base then out' else rest

-- `std::to_string(n)`.
unfoldable pub to_string : ℕ → Bytes
unfolding digits
to_string n = digits (suc n) 10 n []

-- `std::tolower` on ASCII.
abbrev pub lower_byte : ℕ → ℕ
lower_byte c = if leb b'A' c && leb c b'Z' then c + 32 else c

unfoldable pub ascii_lower : Bytes → Bytes
ascii_lower s = map lower_byte s

-- Field names are compared without regard to case.
unfoldable pub same_name : Bytes → Bytes → Bool
unfolding same_bytes ascii_lower
same_name a b = same_bytes (ascii_lower a) (ascii_lower b)
