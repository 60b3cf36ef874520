-- ===== src/Connection/Negotiation.antt =====
-- The persistence that a request leads to (handleParsedRequest with evaluateKeepAlive of
-- source/AsyncConnection.cpp, negotiateVersion and hasHeaderToken of source/Utility.cpp), against the
-- rules for a client's wish, read from the version's numbers and the elements of its headers.
use smartmet_server.Utility.Tokens.{negotiate_version, has_header_token}
use smartmet_server.Base.{
  ℕ, ltb, none, length, Option, ◌∷◌, ap, leb, [], drop, refl, Bool, some, arith, take, ◌++◌, ◌+◌,
  ◌≡◌, ◌==◌, ◌||◌, ◌&&◌, if◌then◌else◌, suc, is_some, holds, not, ◌∙◌, Option-cases, inl, inr,
}
use smartmet_server.Text.{Bytes, find_char, first_index, codes}
use smartmet_server.World.{http_1_1, http_1_0, World, at_negotiation}
use smartmet_server.Connection.Headers.{evaluate_keep_alive, is_http_1_1}
use smartmet_server.Connection.Request.{negotiate}
use smartmet_server.Utility.TokenSpec.{any_matches, has_header_token-elements}
use smartmet_server.Utility.Elements.{elements}
use smartmet_server.Connection.State.{Conn}

-- A version text `major.minor`, cut at its first dot.
first_dot :
    (m n : Bytes)
    → first_index (λ b. b == b'.') m ≡ none
    → find_char (m ++ b'.' ∷ n) b'.' 0 ≡ some (length m)
unfolding find_char first_index
first_dot [] n h = ground arith
first_dot (c ∷ m) n h = ground (arith, first_dot m n)

before_dot : (m n : Bytes) → take (length m) (m ++ b'.' ∷ n) ≡ m
before_dot [] n = refl
before_dot (c ∷ m) n = ap (◌∷◌ c) (before_dot m n)

after_dot : (m n : Bytes) → drop (length m + 1) (m ++ b'.' ∷ n) ≡ n
after_dot m n = let e : length m + 1 ≡ suc (length m) = omega arith in rw e (after_suc m)
  where
    after_suc : (m : Bytes) → drop (suc (length m)) (m ++ b'.' ∷ n) ≡ n
    after_suc [] = refl
    after_suc (c ∷ m) = after_suc m

-- A client that speaks HTTP/1.1 or newer.
abbrev pub at_least_1_1 : ℕ → ℕ → Bool
at_least_1_1 major minor = ltb 1 major || (major == 1 && leb 1 minor)

negotiate_version-numbers :
    (stoul : Bytes → Option ℕ) (m n : Bytes) (major minor : ℕ)
    → first_index (λ b. b == b'.') m ≡ none
    → stoul m ≡ some major
    → stoul n ≡ some minor
    → negotiate_version stoul (m ++ b'.' ∷ n)
      ≡ (if at_least_1_1 major minor then http_1_1 else http_1_0)
unfolding negotiate_version
negotiate_version-numbers stoul m n major minor h p q =
    ground (arith, first_dot m n h, ap stoul (before_dot m n), ap stoul (after_dot m n), p, q)

-- Whether a header is there and lists the token.
abbrev pub lists : (Bytes → Bytes) → Bytes → Option Bytes → Bool
lists lower t v = holds v (λ x. any_matches lower t (elements x))

lists-holds :
    (lower : Bytes → Bytes) (t : Bytes) (v : Option Bytes)
    → holds v (λ x. has_header_token lower x t) ≡ lists lower t v
lists-holds lower t none = refl
lists-holds lower t (some v) = has_header_token-elements lower v t

-- What the client asks for: a new one to go on, unless it lists "close"; an old one to end, unless it
-- lists "keep-alive", in Proxy-Connection if it has no Connection header.
abbrev pub wants_more : (w : World) → Bool → w.Request → Bool
wants_more w new q =
    let connection = w.request_header q (codes "Connection") in
    if new
    then not (lists w.lower (codes "close") connection)
    else if is_some connection
    then lists w.lower (codes "keep-alive") connection
    else lists w.lower (codes "keep-alive") (w.request_header q (codes "Proxy-Connection"))

module _ {w : World} where
  -- What the server allows for the next request of the connection.
  abbrev pub allows_more : Conn w → Bool
  allows_more c =
      c.keep_alive_enabled
      && (not (w.shutdown_requested c.log at_negotiation)
          && (c.max_keep_alive_requests == 0
              || ltb (c.request_count + 1) c.max_keep_alive_requests))

  evaluate_keep_alive-wants :
      (c : Conn w)
      → evaluate_keep_alive c ≡ (
          c.keep_alive_enabled
          && (not (w.shutdown_requested c.log at_negotiation)
              && ((c.max_keep_alive_requests == 0 || ltb c.request_count c.max_keep_alive_requests)
                  && wants_more w (is_http_1_1 c.response_version) c.request)))
  unfolding evaluate_keep_alive
  evaluate_keep_alive-wants c =
      elim (Option-cases (w.request_header c.request (codes "Connection"))) [
        | inl n ↦ ground (
          arith,
          n,
          lists-holds w.lower (codes "keep-alive")
              (w.request_header c.request (codes "Proxy-Connection")),
        )
        | inr (v, e) ↦ ground (
          arith,
          e,
          has_header_token-elements w.lower v (codes "close"),
          has_header_token-elements w.lower v (codes "keep-alive"),
        )
      ]

  -- For a request with a version `major.minor`: the reply's version is 1.1 if the client speaks 1.1 or
  -- newer and 1.0 otherwise, and the connection persists exactly if the server allows another request
  -- after this one and the client wants one, by the elements of its headers.
  pub negotiate_lem :
      (c : Conn w) (m n : Bytes) (major minor : ℕ)
      → w.request_version c.request ≡ m ++ b'.' ∷ n
      → first_index (λ b. b == b'.') m ≡ none
      → w.stoul m ≡ some major
      → w.stoul n ≡ some minor
      → ((negotiate c).response_version ≡ (if at_least_1_1 major minor then http_1_1 else http_1_0))
        × ((negotiate c).keep_alive
            ≡ (allows_more c && wants_more w (at_least_1_1 major minor) c.request))
  unfolding negotiate
  negotiate_lem c m n major minor e h p q =
      let v =
        ap (negotiate_version w.stoul) e
        ∙ negotiate_version-numbers w.stoul m n major minor h p q in
      ground (
        arith,
        v,
        evaluate_keep_alive-wants (record c {
          request_count = c.request_count + 1;
          response_version = negotiate_version w.stoul (w.request_version c.request);
        }),
      )
