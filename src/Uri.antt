-- ===== src/Uri.antt =====
-- `encodeURIComponent`, by which the analysis page puts a search into a URL
-- (web/static/js/main.js). `none` is the exception on a lone surrogate.
pub mod Laws
use yulong.Prelude.{
  ℕ, ◌+◌, ◌-◌, ◌*◌, ◌/◌, ◌%◌, Bool, ◌&&◌, ◌||◌, List, [], ◌∷◌, ◌++◌, Option, none, some, leb, ltb,
  ◌==◌, if◌then◌else◌,
}
use yulong.Text.{JsString}

-- `A-Z a-z 0-9 - _ . ! ~ * ' ( )`
unfoldable pub is_unreserved : ℕ → Bool
is_unreserved c =
    leb b'A' c && leb c b'Z'
    || leb b'a' c && leb c b'z'
    || leb b'0' c && leb c b'9'
    || c == b'-'
    || c == b'_'
    || c == b'.'
    || c == b'!'
    || c == b'~'
    || c == b'*'
    || c == 39
    || c == b'('
    || c == b')'

-- A digit of a byte, in upper case.
unfoldable pub hex_digit : ℕ → ℕ
hex_digit n = if ltb n 10 then b'0' + n else b'A' + (n - 10)

unfoldable pub percent : ℕ → JsString
unfolding hex_digit
percent byte = b'%' ∷ hex_digit (byte / 16 % 16) ∷ hex_digit (byte % 16) ∷ []

-- The bytes of a code point in UTF-8.
unfoldable pub encode_point : ℕ → JsString
unfolding percent
encode_point p =
    if ltb p 0x80
    then percent p
    else if ltb p 0x800
    then percent (0xc0 + p / 64) ++ percent (0x80 + p % 64)
    else if ltb p 0x10000
    then percent (0xe0 + p / 4096) ++ (percent (0x80 + p / 64 % 64) ++ percent (0x80 + p % 64))
    else percent (0xf0 + p / 262144)
      ++ (percent (0x80 + p / 4096 % 64)
          ++ (percent (0x80 + p / 64 % 64) ++ percent (0x80 + p % 64)))

abbrev pub is_high : ℕ → Bool
is_high c = leb 0xd800 c && leb c 0xdbff

abbrev pub is_low : ℕ → Bool
is_low c = leb 0xdc00 c && leb c 0xdfff

-- The code point of a surrogate pair.
abbrev pub pair_point : ℕ → ℕ → ℕ
pair_point c d = 0x10000 + (c - 0xd800) * 0x400 + (d - 0xdc00)

abbrev pub before_rest : JsString → Option JsString → Option JsString
before_rest s none = none
before_rest s (some t) = some (s ++ t)

unfoldable pub encode_uri_component : JsString → Option JsString
unfolding is_unreserved encode_point
encode_uri_component [] = some []
encode_uri_component (c ∷ []) =
    if is_unreserved c
    then some (c ∷ [])
    else if is_high c || is_low c
    then none
    else some (encode_point c)
encode_uri_component (c ∷ d ∷ s) =
    let single = encode_uri_component (d ∷ s) in
    let pair = encode_uri_component s in
    if is_unreserved c
    then before_rest (c ∷ []) single
    else if is_low c
    then none
    else if is_high c
    then if is_low d then before_rest (encode_point (pair_point c d)) pair else none
    else before_rest (encode_point c) single
