-- ===== src/Utility/Tokens.antt =====
-- source/Utility.cpp: hasHeaderToken and negotiateVersion. The loop of hasHeaderToken cuts the value
-- at its commas; AsyncConnection::stripHopByHopHeaders has the same loop, which collects the parts.
use smartmet_server.Base.{
  ℕ, zero, suc, ◌+◌, ◌-◌, Bool, true, false, ◌&&◌, ◌||◌, List, [], ◌∷◌, Option, none, some, ltb,
  leb, ◌==◌, if◌then◌else◌, length, drop, holds,
}
use smartmet_server.Text.{
  Bytes, substr, same_bytes, find_char, find_first_not_blank, find_last_not_blank,
}
use smartmet_server.World.{Version, http_1_0, http_1_1}

-- `end = value.find(',', pos)`, or the size.
abbrev pub or_size : Bytes → Option ℕ → ℕ
or_size v none = length v
or_size v (some e) = e

-- The trimmed element between `pos` and `end`, if it has a byte that is not blank. That byte makes
-- `find_last_not_of` succeed, so its `none` is not reached.
unfoldable pub list_element : Bytes → ℕ → ℕ → Option Bytes
list_element v pos end = elim (find_first_not_blank v pos) [
  | none ↦ none
  | some first ↦
      if ltb first end
      then elim (find_last_not_blank v (end - 1)) [
        | none ↦ none
        | some last ↦ some (substr v first (last - first + 1))
      ]
      else none
]

-- The rounds left bound the loop; `pos` passes the size after one round for each comma and one more.
unfoldable pub has_token_from : (Bytes → Bytes) → ℕ → Bytes → Bytes → ℕ → Bool
has_token_from lower zero v t pos = false
has_token_from lower (suc rounds) v t pos =
    let end = or_size v (find_char v b',' pos) in
    let rest = has_token_from lower rounds v t (end + 1) in
    let found = holds (list_element v pos end) (λ e. same_bytes (lower e) t) in
    let here = if found then true else rest in if ltb (length v) pos then false else here

unfoldable pub has_header_token : (Bytes → Bytes) → Bytes → Bytes → Bool
has_header_token lower v t = has_token_from lower (length v + 2) v t 0

abbrev pub push_back : Option Bytes → List Bytes → List Bytes
push_back none l = l
push_back (some e) l = e ∷ l

-- The loop of stripHopByHopHeaders over the Connection header's value.
unfoldable pub listed_from : ℕ → Bytes → ℕ → List Bytes
listed_from zero v pos = []
listed_from (suc rounds) v pos =
    let end = or_size v (find_char v b',' pos) in
    let rest = listed_from rounds v (end + 1) in
    let here = push_back (list_element v pos end) rest in if ltb (length v) pos then [] else here

unfoldable pub listed : Bytes → List Bytes
listed v = listed_from (length v + 2) v 0

abbrev pub newer : Option ℕ → Option ℕ → Version
newer none minor = http_1_0
newer (some major) none = http_1_0
newer (some major) (some minor) =
    if ltb 1 major || (major == 1 && leb 1 minor) then http_1_1 else http_1_0

-- `stoul` throws where it gives `none`, and the catch falls through to "1.0".
unfoldable pub negotiate_version : (Bytes → Option ℕ) → Bytes → Version
negotiate_version stoul v = elim (find_char v b'.' 0) [
  | none ↦ http_1_0
  | some dot ↦ newer (stoul (substr v 0 dot)) (stoul (drop (dot + 1) v))
]
