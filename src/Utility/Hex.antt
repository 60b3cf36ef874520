-- ===== src/Utility/Hex.antt =====
-- source/Utility.cpp: convertToHex, and the reading of a hexadecimal number.
use smartmet_server.Base.{
  ℕ, zero, suc, Bool, true, false, ◌&&◌, [], ◌∷◌, Option, none, some, ltb, leb, ◌≡◌, ◌<◌, ◌+◌, ◌-◌,
  ◌*◌, ◌/◌, ◌%◌, if◌then◌else◌, is_empty, arith, refl, not, ◌==◌, ap, ◌∙◌,
}
use smartmet_server.Text.{Bytes, digits, digit}
use smartmet_server.World.{World}

unfoldable pub convert_to_hex : World → ℕ → Bytes
convert_to_hex w n = w.to_hex n

-- What Fmi::to_string writes for "%x": the digits of the number in base 16.
abbrev pub WritesHex : World → Type 0
WritesHex w = (n : ℕ) → w.to_hex n ≡ digits (suc n) 16 n []

-- A hexadecimal digit in lower case, and its value.
abbrev is_hex : ℕ → Bool
is_hex c = if ltb c b'a' then leb b'0' c && leb c b'9' else leb c b'f'

abbrev value : ℕ → ℕ
value c = if ltb c b'a' then c - b'0' else c - b'a' + 10

abbrev read_hex : ℕ → Bytes → Option ℕ
read_hex n [] = some n
read_hex n (c ∷ s) = let rest = read_hex (n * 16 + value c) s in if is_hex c then rest else none

-- The number that hexadecimal digits denote; at least one is required.
abbrev pub from_hex : Bytes → Option ℕ
from_hex [] = none
from_hex (c ∷ s) = read_hex 0 (c ∷ s)

abbrev pub has_no_cr : Bytes → Bool
has_no_cr [] = true
has_no_cr (c ∷ s) = not (c == 13) && has_no_cr s

digit-is_hex : (d : ℕ) → d < 16 → is_hex (digit d) ≡ true
unfolding digit
digit-is_hex d h = ground arith

value-digit : (d : ℕ) → d < 16 → value (digit d) ≡ d
unfolding digit
value-digit d h = ground arith

digit-no_cr : (d : ℕ) → (digit d == 13) ≡ false
unfolding digit
digit-no_cr d = ground arith

read_hex-digit : (n d : ℕ) (s : Bytes) → d < 16 → read_hex n (digit d ∷ s) ≡ read_hex (n * 16 + d) s
read_hex-digit n d s h = rw (digit-is_hex d h, value-digit d h) refl

read_hex-digits : (f n : ℕ) (s : Bytes) → n < f → read_hex 0 (digits f 16 n s) ≡ read_hex n s
unfolding digits
read_hex-digits zero n s h = absurd (omega arith)
read_hex-digits (suc f) n s h =
    let first : read_hex 0 (digit (n % 16) ∷ s) ≡ read_hex (0 * 16 + n % 16) s =
      read_hex-digit 0 (n % 16) s (omega arith) in
    let next : read_hex (n / 16) (digit (n % 16) ∷ s) ≡ read_hex (n / 16 * 16 + n % 16) s =
      read_hex-digit (n / 16) (n % 16) s (omega arith) in
    let whole : n / 16 * 16 + n % 16 ≡ n = omega arith in
    let last : 0 * 16 + n % 16 ≡ n % 16 = omega arith in
    ground (
      arith,
      read_hex-digits f (n / 16) (digit (n % 16) ∷ s),
      first,
      next,
      ap (λ k. read_hex k s) whole,
      ap (λ k. read_hex k s) last,
    )

digits-is_empty_cons : (f n c : ℕ) (s : Bytes) → is_empty (digits f 16 n (c ∷ s)) ≡ false
unfolding digits
digits-is_empty_cons zero n c s = refl
digits-is_empty_cons (suc f) n c s =
    ground (arith, digits-is_empty_cons f (n / 16) (digit (n % 16)) (c ∷ s))

digits-is_empty : (f n : ℕ) (s : Bytes) → is_empty (digits (suc f) 16 n s) ≡ false
unfolding digits
digits-is_empty f n s = ground (arith, digits-is_empty_cons f (n / 16) (digit (n % 16)) s)

digits-no_cr : (f n : ℕ) (s : Bytes) → has_no_cr s ≡ true → has_no_cr (digits f 16 n s) ≡ true
unfolding digits
digits-no_cr zero n s h = h
digits-no_cr (suc f) n s h =
    ground (arith, digits-no_cr f (n / 16) (digit (n % 16) ∷ s), digit-no_cr (n % 16))

pub convert_to_hex-no_cr :
    (w : World) → WritesHex w → (n : ℕ) → has_no_cr (convert_to_hex w n) ≡ true
unfolding convert_to_hex
convert_to_hex-no_cr w hex n = rw (hex n) (digits-no_cr (suc n) n [] refl)

from_hex-read : (s : Bytes) → is_empty s ≡ false → from_hex s ≡ read_hex 0 s
from_hex-read [] h = ground arith
from_hex-read (c ∷ s) h = refl

-- The number that convertToHex writes is read back.
pub convert_to_hex-from_hex :
    (w : World) → WritesHex w → (n : ℕ) → from_hex (convert_to_hex w n) ≡ some n
unfolding convert_to_hex
convert_to_hex-from_hex w hex n = rw (hex n) (
    from_hex-read (digits (suc n) 16 n []) (digits-is_empty n n [])
    ∙ read_hex-digits (suc n) n [] (omega arith))
