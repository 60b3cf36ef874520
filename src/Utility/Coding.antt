-- ===== src/Utility/Coding.antt =====
-- source/Utility.cpp: select_content_encoding and compress_response. The codings themselves and
-- their negotiation are the libraries'.
use smartmet_server.Base.{
  ℕ, Bool, false, ◌||◌, List, [], ◌∷◌, none, some, ltb, if◌then◌else◌, is_empty, is_some, holds,
}
use smartmet_server.Text.{Bytes, codes, same_bytes, contains}
use smartmet_server.World.{Effect, World}

-- The loop over the media types that do not compress.
unfoldable pub names_one_of : Bytes → List Bytes → Bool
unfolding contains
names_one_of v [] = false
names_one_of v (m ∷ ms) = contains v m || names_one_of v ms

abbrev pub non_compressable_mimes : List Bytes
non_compressable_mimes = codes "image/png" ∷ codes "image/webp" ∷ codes "application/pdf" ∷ []

module _ (w : World) where
  open w use {
    Request, Response, View, header, parameter, content_length, select_coding, supported_codings,
    get_content, set_content, set_header, zstd, gzip, content_coded_etag,
  }

  -- The empty text stands for no coding.
  unfoldable pub select_content_encoding : Request → Response → ℕ → List Bytes → Bytes
  unfolding names_one_of same_bytes
  select_content_encoding q r limit codings =
      if is_some (header r (codes "Content-Encoding"))
      then []
      else if holds (header r (codes "Content-Type")) (λ t. names_one_of t non_compressable_mimes)
      then []
      else if holds (parameter q (codes "gzip")) (λ g. same_bytes g (codes "1"))
      then codes "gzip"
      else if ltb (content_length r) limit
      then []
      else select_coding q (if is_empty codings then supported_codings else codings)

  mark_etag : Bytes → Response → Response
  mark_etag coding r = elim (header r (codes "ETag")) [
    | none ↦ r
    | some etag ↦ set_header r (codes "ETag") (content_coded_etag etag coding)
  ]

  unfoldable pub compress_response : List (Effect View) → Response → Bytes → Response
  unfolding mark_etag same_bytes
  compress_response log r coding =
      let (content, r') = get_content log r in
      let output = if same_bytes coding (codes "zstd") then zstd content else gzip content in
      mark_etag coding (set_header (set_content r' output) (codes "Content-Encoding") coding)
