-- ===== src/Utility/Files.antt =====
-- source/Utility.cpp: makeDateString, dumpRequest and readPassword.
use smartmet_server.Base.{
  ℕ, zero, suc, Bool, true, false, ◌&&◌, List, [], ◌∷◌, ◌++◌, Option, none, some, min, ltb, ◌==◌,
  if◌then◌else◌, is_empty, take,
}
use smartmet_server.Text.{Bytes, codes, to_string}
use smartmet_server.World.{World, UtcTime}

abbrev weekdays : List Bytes
weekdays =
    codes "Sun"
    ∷ codes "Mon"
    ∷ codes "Tue"
    ∷ codes "Wed"
    ∷ codes "Thu"
    ∷ codes "Fri"
    ∷ codes "Sat"
    ∷ codes "Sun"
    ∷ []

abbrev months : List Bytes
months =
    []
    ∷ codes "Jan"
    ∷ codes "Feb"
    ∷ codes "Mar"
    ∷ codes "Apr"
    ∷ codes "May"
    ∷ codes "Jun"
    ∷ codes "Jul"
    ∷ codes "Aug"
    ∷ codes "Sep"
    ∷ codes "Oct"
    ∷ codes "Nov"
    ∷ codes "Dec"
    ∷ []

-- An index within the array; out of it the source's behaviour is undefined, and the model's empty.
abbrev pub entry : List Bytes → ℕ → Bytes
entry [] i = []
entry (x ∷ xs) zero = x
entry (x ∷ xs) (suc i) = entry xs i

-- `%02ld` of a number that is not negative.
two_digits : ℕ → Bytes
unfolding to_string
two_digits n = if ltb n 10 then b'0' ∷ to_string n else to_string n

unfoldable pub make_date_string : UtcTime → Bytes
unfolding two_digits to_string
make_date_string t =
    entry weekdays t.weekday
    ++ codes ", "
    ++ two_digits t.day
    ++ codes " "
    ++ entry months t.month
    ++ codes " "
    ++ to_string t.year
    ++ codes " "
    ++ two_digits t.hours
    ++ codes ":"
    ++ two_digits t.minutes
    ++ codes ":"
    ++ two_digits t.seconds
    ++ codes " GMT"

-- The text of the request with the first 25 bytes of its content.
unfoldable pub dump_request : (w : World) → w.Request → Bytes
dump_request w q =
    let head = codes "Received request: " ++ w.uri q ++ codes " (" ++ w.client_ip q ++ codes ")" in
    if ltb 0 (w.request_content_length q)
    then head ++ take (min 25 (w.request_content_length q)) (w.request_content q) ++ codes "\n"
    else head

pub data PasswordError : Type 0 where
  cannot_open cannot_read : PasswordError

pub data Password : Type 0 where
  password : Bytes → Password
  refused : PasswordError → Password

-- `std::getline`: the bytes before the first newline, and whether the end of the file was met.
unfoldable pub get_line : Bytes → Bytes × Bool
get_line [] = ([], true)
get_line (c ∷ s) =
    let (line, at_end) = get_line s in if c == 10 then ([], false) else (c ∷ line, at_end)

-- The file's content, or `none` if it cannot be opened.
unfoldable pub read_password : Option Bytes → Password
unfolding get_line
read_password none = refused cannot_open
read_password (some file) =
    let (line, at_end) = get_line file in
    if is_empty line && at_end then refused cannot_read else password line
