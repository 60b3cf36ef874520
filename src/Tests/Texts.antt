-- ===== src/Tests/Texts.antt =====
-- The properties of the text helpers at concrete inputs.
use smartmet_server.Utility.Files.{read_password, cannot_open, refused, password}
use smartmet_server.Utility.Tokens.{has_header_token}
use smartmet_server.Base.{some, refl, none, ◌≡◌, true, [], arith, ◌∷◌, ◌++◌}
use smartmet_server.Utility.TokenSpec.{any_matches, has_header_token-elements}
use smartmet_server.Text.{ascii_lower, codes}
use smartmet_server.Utility.FirstLine.{read_password-line}
use smartmet_server.Utility.Elements.{elements}
use smartmet_server.Utility.Head.{peek_request_head}
use smartmet_server.Utility.HeadLines.{wire}
use smartmet_server.Utility.HeadSpec.{expect_of}
use smartmet_server.Utility.HeadExpect.{peek_request_head_lem}
use smartmet_server.Limits.{value_or}
use smartmet_server.Utility.HeadVersion.{after_last}

has_header_token-elements_example :
    has_header_token ascii_lower (codes "Foo, Close") (codes "close")
    ≡ any_matches ascii_lower (codes "close") (elements (codes "Foo, Close"))
has_header_token-elements_example =
    has_header_token-elements ascii_lower (codes "Foo, Close") (codes "close")

read_password-line_example :
    (read_password (some (codes "pass\nmore")) ≡ password (codes "pass"))
    × (read_password (some (codes "pass")) ≡ password (codes "pass"))
    × (read_password none ≡ refused cannot_open)
read_password-line_example =
    read_password-line (codes "pass") (codes "more") (refl, (refl, (refl, (refl, tt))))

peek_request_head_lem_example :
    peek_request_head ascii_lower
      (codes "PUT / HTTP/1.1" ++ 13 ∷ 10 ∷ wire (codes "Host: a" ∷ codes "Expect:  x " ∷ []) [])
    ≡ record {
      is_complete = true;
      version = value_or (after_last (codes "HTTP/") (codes "PUT / HTTP/1.1")) [];
      expect = expect_of ascii_lower (codes "Host: a" ∷ codes "Expect:  x " ∷ []);
    }
peek_request_head_lem_example =
    peek_request_head_lem ascii_lower (codes "PUT / HTTP/1.1")
      (codes "Host: a" ∷ codes "Expect:  x " ∷ []) [] refl
      ((refl, omega arith), ((refl, omega arith), tt))
