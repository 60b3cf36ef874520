-- ===== src/Connection/Chunks.antt =====
-- source/AsyncConnection.cpp: the chunked coding that getNextChunkedChunk and finalizeChunkedReply write,
-- against a decoder of RFC 9112 7.1 without extensions and trailers.
use smartmet_server.World.{World}
use smartmet_server.Text.{Bytes, codes}
use smartmet_server.Base.{
  ℕ, Option, List, drop, length, refl, ap, not, zero, suc, take, map, some, true, [], false, ◌∷◌,
  arith, none, is_empty, ◌++◌, ◌≡◌, ◌==◌, if◌then◌else◌, append_assoc, ◌∙◌,
}
use smartmet_server.Connection.Stream.{chunk, last_chunk}
use smartmet_server.Utility.Hex.{
  from_hex, convert_to_hex-from_hex, convert_to_hex, has_no_cr, WritesHex, convert_to_hex-no_cr,
}

-- The text before the first CR LF, and what follows; a lone CR is refused.
abbrev after_lf : Bytes → Option Bytes
after_lf [] = none
after_lf (c ∷ s) = if c == 10 then some s else none

abbrev ends_here : Option Bytes → Option (Bytes × Bytes)
ends_here none = none
ends_here (some t) = some ([], t)

abbrev goes_further : ℕ → Option (Bytes × Bytes) → Option (Bytes × Bytes)
goes_further c none = none
goes_further c (some (l, t)) = some (c ∷ l, t)

unfoldable split_line : Bytes → Option (Bytes × Bytes)
split_line [] = none
split_line (c ∷ s) =
    let rest = split_line s in if c == 13 then ends_here (after_lf s) else goes_further c rest

abbrev put_before : Bytes → Option Bytes → Option Bytes
put_before s none = none
put_before s (some t) = some (s ++ t)

-- The content of a chunked body, on as many rounds as it has chunks.
unfoldable pub decode_chunks : ℕ → Bytes → Option Bytes
unfolding split_line
decode_chunks zero s = none
decode_chunks (suc rounds) s = elim (split_line s) [
  | none ↦ none
  | some (size, t) ↦ elim (from_hex size) [
    | none ↦ none
    | some n ↦ elim (split_line (drop n t)) [
      | none ↦ none
      | some (gap, u) ↦
          let rest = decode_chunks rounds u in
          if not (is_empty gap)
          then none
          else if n == 0
          then some []
          else put_before (take n t) rest
    ]
  ]
]

split_line-crlf : (l t : Bytes) → has_no_cr l ≡ true → split_line (l ++ 13 ∷ 10 ∷ t) ≡ some (l, t)
unfolding split_line
split_line-crlf [] t h = refl
split_line-crlf (c ∷ l) t h = grind (arith, split_line-crlf l t)

drop-length-append : (s t : Bytes) → drop (length s) (s ++ t) ≡ t
drop-length-append [] t = refl
drop-length-append (c ∷ s) t = drop-length-append s t

take-length-append : (s t : Bytes) → take (length s) (s ++ t) ≡ s
take-length-append [] t = refl
take-length-append (c ∷ s) t = ap (◌∷◌ c) (take-length-append s t)

abbrev pub concat : List Bytes → Bytes
concat [] = []
concat (s ∷ ss) = s ++ concat ss

abbrev pub AllNonEmpty : List Bytes → Type 0
AllNonEmpty [] = Unit
AllNonEmpty (s ∷ ss) = (is_empty s ≡ false) × AllNonEmpty ss

chunk-append :
    (w : World) (s t : Bytes)
    → chunk w s ++ t ≡ convert_to_hex w (length s) ++ 13 ∷ 10 ∷ (s ++ 13 ∷ 10 ∷ t)
unfolding chunk
chunk-append w s t =
    let h = convert_to_hex w (length s) in
    append_assoc (h ++ codes "\r\n" ++ s) (codes "\r\n") t
    ∙ append_assoc (h ++ codes "\r\n") s (codes "\r\n" ++ t)
    ∙ append_assoc h (codes "\r\n") (s ++ 13 ∷ 10 ∷ t)

decode_chunks-chunk :
    (w : World)
    → WritesHex w
    → (rounds : ℕ) (s t : Bytes) → is_empty s ≡ false
    → decode_chunks (suc rounds) (chunk w s ++ t) ≡ put_before s (decode_chunks rounds t)
unfolding decode_chunks
decode_chunks-chunk w hex rounds s t h =
    let size : (length s == 0) ≡ false = ground arith in
    rw
      (
        chunk-append w s t,
        decode_chunks,
        split_line-crlf (convert_to_hex w (length s)) (s ++ 13 ∷ 10 ∷ t)
            (convert_to_hex-no_cr w hex (length s)),
        convert_to_hex-from_hex w hex (length s),
        drop-length-append s (13 ∷ 10 ∷ t),
        take-length-append s (13 ∷ 10 ∷ t),
        size,
      )
      refl

-- The chunked body of any contents, none of them empty, with the last chunk behind them decodes to
-- the contents in order.
pub decode_chunks-chunks :
    (w : World)
    → WritesHex w
    → (contents : List Bytes) → AllNonEmpty contents
    → decode_chunks (suc (length contents)) (concat (map (chunk w) contents) ++ last_chunk)
      ≡ some (concat contents)
unfolding decode_chunks split_line
decode_chunks-chunks w hex [] h = refl
decode_chunks-chunks w hex (s ∷ ss) (h, hs) =
    ap (decode_chunks (suc (suc (length ss))))
      (append_assoc (chunk w s) (concat (map (chunk w) ss)) last_chunk)
    ∙ decode_chunks-chunk w hex (suc (length ss)) s (concat (map (chunk w) ss) ++ last_chunk) h
    ∙ ap (put_before s) (decode_chunks-chunks w hex ss hs)
