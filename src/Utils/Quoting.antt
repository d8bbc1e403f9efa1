-- ===== src/Utils/Quoting.antt =====
-- `unquote_unreserved` and `requote_uri`. `int(chunk, 16)` is exact on Latin-1: beyond it Python also
-- reads other decimal digits. `quote` encodes a code point in UTF-8, as `urllib.parse.quote` does.
pub mod Safety
use chrome_client.Base.{
  ℕ, ◌+◌, ◌-◌, ◌*◌, ◌/◌, ◌%◌, Option, none, some, List, [], ◌∷◌, ◌++◌, Bool, true, false, ◌&&◌,
  ◌||◌, ◌==◌, leb, ltb, contains, ℕ_eq, if◌then◌else◌,
}
use chrome_client.Base.Text.{Text, codes, is_space, split_all}

unfoldable pub is_alphanumeric : ℕ → Bool
is_alphanumeric c =
    (leb b'0' c && leb c b'9') || (leb b'A' c && leb c b'Z') || (leb b'a' c && leb c b'z')

-- `UNRESERVED_SET`
unfoldable pub is_unreserved : ℕ → Bool
unfolding is_alphanumeric ℕ_eq
is_unreserved c = is_alphanumeric c || contains (codes "-._~") c

unfoldable pub hex_value : ℕ → Option ℕ
hex_value c =
    if leb b'0' c && leb c b'9'
    then some (c - b'0')
    else if leb b'A' c && leb c b'F'
    then some (c - b'A' + 10)
    else if leb b'a' c && leb c b'f'
    then some (c - b'a' + 10)
    else none

-- What `int(chunk, 16)` reads in two characters.
pub data Escape : Type 0 where
  code : ℕ → Escape
  negative : Escape
  invalid : Escape

unfoldable pub signed : ℕ → Option ℕ → Escape
unfolding is_space ℕ_eq
signed sign none = invalid
signed sign (some b) =
    if sign == b'+' || is_space sign
    then code b
    else if sign == b'-'
    then (if b == 0 then code 0 else negative)
    else invalid

unfoldable pub two_digits : ℕ → ℕ → Option ℕ → Option ℕ → Escape
unfolding signed is_space ℕ_eq
two_digits c d (some a) (some b) = code (a * 16 + b)
two_digits c d (some a) none = if is_space d then code a else invalid
two_digits c d none b = signed c b

unfoldable pub read_escape : ℕ → ℕ → Escape
unfolding two_digits hex_value
read_escape c d = two_digits c d (hex_value c) (hex_value d)

pub data Unquoted : Type 0 where
  unquoted : Text → Unquoted
  invalid_url : Unquoted
  value_error : Unquoted

-- A part in front of what follows it. The parts are read from the left, so an exception of the part
-- itself comes before one of a later part.
unfoldable pub prefix_part : Text → Unquoted → Unquoted
prefix_part part (unquoted rest) = unquoted (part ++ rest)
prefix_part part e = e

-- `chr` raises `ValueError` for a negative code.
unfoldable pub join_escape : ℕ → ℕ → Text → Escape → Unquoted → Unquoted
unfolding prefix_part is_unreserved
join_escape c d part invalid rest = invalid_url
join_escape c d part negative rest = value_error
join_escape c d part (code n) rest =
    if is_unreserved n then prefix_part (n ∷ part) rest else prefix_part (b'%' ∷ c ∷ d ∷ part) rest

unfoldable pub join_part : Text → Unquoted → Unquoted
unfolding join_escape read_escape prefix_part
join_part [] rest = prefix_part (b'%' ∷ []) rest
join_part (c ∷ []) rest = prefix_part (b'%' ∷ c ∷ []) rest
join_part (c ∷ d ∷ part) rest = join_escape c d part (read_escape c d) rest

unfoldable pub join_parts : List Text → Unquoted
unfolding join_part
join_parts [] = unquoted []
join_parts (part ∷ parts) = join_part part (join_parts parts)

unfoldable pub unquote_first : List Text → Unquoted
unfolding join_parts prefix_part
unquote_first [] = unquoted []
unquote_first (part ∷ parts) = prefix_part part (join_parts parts)

unfoldable pub unquote_unreserved : Text → Unquoted
unfolding unquote_first split_all
unquote_unreserved uri = unquote_first (split_all b'%' uri)

-- The bytes of a code point in UTF-8.
unfoldable pub utf8 : ℕ → List ℕ
utf8 c =
    if ltb c 0x80
    then c ∷ []
    else if ltb c 0x800
    then (0xC0 + c / 0x40) ∷ (0x80 + c % 0x40) ∷ []
    else if ltb c 0x10000
    then (0xE0 + c / 0x1000) ∷ (0x80 + c / 0x40 % 0x40) ∷ (0x80 + c % 0x40) ∷ []
    else (0xF0 + c / 0x40000 % 8)
      ∷ (0x80 + c / 0x1000 % 0x40)
      ∷ (0x80 + c / 0x40 % 0x40)
      ∷ (0x80 + c % 0x40)
      ∷ []

unfoldable pub hex_digit : ℕ → ℕ
hex_digit n = if ltb n 10 then b'0' + n else b'A' + (n - 10)

unfoldable pub escape_bytes : List ℕ → Text
unfolding hex_digit
escape_bytes [] = []
escape_bytes (b ∷ bytes) = b'%' ∷ hex_digit (b / 16 % 16) ∷ hex_digit (b % 16) ∷ escape_bytes bytes

-- `quote(text, safe)`
unfoldable pub quote : Text → Text → Text
unfolding is_unreserved escape_bytes utf8 ℕ_eq
quote safe [] = []
quote safe (c ∷ s) =
    let rest = quote safe s in
    if is_unreserved c || contains safe c then c ∷ rest else escape_bytes (utf8 c) ++ rest

abbrev pub safe_with_percent : Text
safe_with_percent = codes "!#$%&'()*+,/:;=?@[]~"

abbrev pub safe_without_percent : Text
safe_without_percent = codes "!#$&'()*+,/:;=?@[]~"

-- `none` is the `ValueError` of `chr`, which `requote_uri` does not catch.
unfoldable pub requote : Text → Unquoted → Option Text
unfolding quote
requote uri (unquoted text) = some (quote safe_with_percent text)
requote uri invalid_url = some (quote safe_without_percent uri)
requote uri value_error = none

unfoldable pub requote_uri : Text → Option Text
unfolding requote unquote_unreserved
requote_uri uri = requote uri (unquote_unreserved uri)
