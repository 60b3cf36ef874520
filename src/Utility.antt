-- ===== src/Utility.antt =====
-- source/Utility.cpp: header tokens, version negotiation, the raw request head, content codings, and
-- the small text helpers. The loops over a header value are in Tokens, the raw head in Head.
pub mod Tokens
pub mod Head
pub mod Coding
pub mod Files
pub mod Hex
pub mod Elements
pub mod Segments
pub mod TokenSpec
pub mod FirstLine
pub mod HeadLines
pub mod HeadSpec
pub mod HeadVersion
pub mod HeadExpect
