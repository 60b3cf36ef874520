-- ===== src/Utility/FirstLine.antt =====
-- source/Utility.cpp: readPassword, by the shape of the file.
use smartmet_server.Utility.Files.{
  get_line, read_password, password, cannot_read, cannot_open, refused,
}
use smartmet_server.Text.{Bytes}
use smartmet_server.Base.{
  [], is_empty, some, false, refl, true, arith, none, ◌==◌, ◌∷◌, ◌≡◌, ◌++◌, if◌then◌else◌,
}

-- No newline in the text.
abbrev pub IsLine : Bytes → Type 0
IsLine [] = Unit
IsLine (c ∷ s) = (c == 10 ≡ false) × IsLine s

get_line-newline : (line rest : Bytes) → IsLine line → get_line (line ++ 10 ∷ rest) ≡ (line, false)
unfolding get_line
get_line-newline [] rest h = refl
get_line-newline (c ∷ s) rest (h, hs) = rw (get_line-newline s rest hs, h) refl

get_line-end : (line : Bytes) → IsLine line → get_line line ≡ (line, true)
unfolding get_line
get_line-end [] h = refl
get_line-end (c ∷ s) (h, hs) = rw (get_line-end s hs, h) refl

-- The password is the first line of the file, whatever follows and whether or not a newline ends the
-- line; an empty file and a file that cannot be opened are errors. A file whose first line is empty
-- gives the empty password.
pub read_password-line :
    (line rest : Bytes)
    → IsLine line
    → (read_password (some (line ++ 10 ∷ rest)) ≡ password line)
      × (read_password (some line) ≡ (if is_empty line then refused cannot_read else password line))
      × (read_password none ≡ refused cannot_open)
unfolding read_password
read_password-line line rest h =
    (grind (arith, get_line-newline line rest h), grind (arith, get_line-end line h), refl)
