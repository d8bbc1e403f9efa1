-- ===== src/Utils/Values.antt =====
-- `check_header_validity`, and the parameters of `Content-Type`.
use chrome_client.Base.{
  ℕ, Option, none, some, List, [], ◌∷◌, ◌++◌, Bool, true, false, ◌||◌, ◌≡◌, ◌↔◌, refl, ap, ◌∙◌,
  contains, ℕ_eq, if◌then◌else◌, arith,
}
use chrome_client.Base.Dict.{Dict, lookup, insert}
use chrome_client.Base.Text.{
  Text, codes, lower, strip, strip_by, strip_start, is_space, split_all, split_once, lower_code,
  text_eq, starts_with,
}
use chrome_client.Base.Splitting.{Lacks, Lacks-append, split_all-cut, split_all_last}

-- Names and values are text; bytes are decoded first, which is not modelled.
unfoldable pub breaks_out : Text → Bool
unfolding ℕ_eq
breaks_out text = contains text 10 || contains text 13 || contains text 0

-- `false` is `InvalidHeader`.
unfoldable pub valid_part : Option Text → Bool
unfolding breaks_out
valid_part none = false
valid_part (some text) = if breaks_out text then false else true

unfoldable pub check_header_validity : Option Text → Option Text → Bool
unfolding valid_part
check_header_validity name value = if valid_part name then valid_part value else false

-- The value of a parameter: `none` is the `True` of a parameter without an equals sign.
abbrev pub Parameters : Type 0
Parameters = Dict Text (Option Text)

unfoldable pub is_blank : Text → Bool
is_blank [] = true
is_blank (c ∷ s) = false

unfoldable pub add_parameter : Text → Text × Option Text → Parameters → Parameters
unfolding strip lower is_blank text_eq
add_parameter token (name, some value) params =
    insert (lower (strip name)) (some (strip value)) params
add_parameter token (name, none) params =
    if is_blank (strip token) then params else insert (lower (strip token)) none params

unfoldable pub add_parameters : List Text → Parameters → Parameters
unfolding add_parameter split_once
add_parameters [] params = params
add_parameters (token ∷ tokens) params =
    add_parameters tokens (add_parameter token (split_once b'=' token) params)

unfoldable pub parse_tokens : List Text → Text × Parameters
unfolding strip add_parameters
parse_tokens [] = ([], [])
parse_tokens (content_type ∷ tokens) = (strip content_type, add_parameters tokens [])

-- `_parse_content_type_header`
unfoldable pub parse_content_type_header : Text → Text × Parameters
unfolding parse_tokens split_all
parse_content_type_header header = parse_tokens (split_all b';' header)

-- `needle in text`
unfoldable pub has_text : Text → Text → Bool
unfolding starts_with
has_text needle [] = starts_with [] needle
has_text needle (c ∷ s) = if starts_with (c ∷ s) needle then true else has_text needle s

pub data Encoding : Type 0 where
  encoding : Text → Encoding
  no_encoding : Encoding
  attribute_error : Encoding

-- A flag has no `strip`: `attribute_error`.
unfoldable pub charset_of : Text → Option (Option Text) → Encoding
unfolding strip_by has_text ℕ_eq
charset_of content_type (some (some charset)) = encoding (strip_by (contains (codes "'\"")) charset)
charset_of content_type (some none) = attribute_error
charset_of content_type none =
    if has_text (codes "application/json") content_type
    then encoding (codes "utf-8")
    else no_encoding

unfoldable pub encoding_of : Text × Parameters → Encoding
unfolding charset_of text_eq
encoding_of (content_type, params) = charset_of content_type (lookup (codes "charset") params)

-- `get_encoding_from_headers`, for the value of `Content-Type`, if there is one.
unfoldable pub get_encoding_from_headers : Option Text → Encoding
unfolding encoding_of parse_content_type_header
get_encoding_from_headers none = no_encoding
get_encoding_from_headers (some []) = no_encoding
get_encoding_from_headers (some (c ∷ s)) = encoding_of (parse_content_type_header (c ∷ s))

not_within : (c : ℕ) (s : Text) → contains s c ≡ false → Lacks c s
not_within c [] h = tt
not_within c (d ∷ s) h = (ground (arith, h), not_within c s (ground (arith, h)))

within : (c : ℕ) (s : Text) → Lacks c s → contains s c ≡ false
within c [] h = refl
within c (d ∷ s) (h, hs) = ground (arith, h, within c s hs)

-- No line feed, carriage return or NUL.
abbrev pub IsOneLine : Text → Type 0
IsOneLine s = Lacks 10 s × Lacks 13 s × Lacks 0 s

breaks_out-IsOneLine : (s : Text) → (breaks_out s ≡ false) ↔ IsOneLine s
unfolding breaks_out
breaks_out-IsOneLine s = (
  (λ h. (
    not_within 10 s (ground (arith, h)),
    not_within 13 s (ground (arith, h)),
    not_within 0 s (ground (arith, h)),
  )),
  (λ (a, b, c). ground (arith, within 10 s a, within 13 s b, within 0 s c)),
)

-- A part that is there and is one line.
abbrev pub IsGiven : Option Text → Type 0
IsGiven none = ⊥
IsGiven (some text) = IsOneLine text

valid_part-IsGiven : (part : Option Text) → (valid_part part ≡ true) ↔ IsGiven part
unfolding valid_part
valid_part-IsGiven none = (λ h. cc h, λ h. absurd h)
valid_part-IsGiven (some text) = (
  (λ h. (breaks_out-IsOneLine text).0 (ground (arith, h))),
  (λ h. ground (arith, (breaks_out-IsOneLine text).1 h)),
)

-- A header is accepted exactly if it has a name and a value, and neither holds a line feed, a carriage
-- return or a NUL.
pub check_header_validity_iff :
    (name value : Option Text)
    → (check_header_validity name value ≡ true) ↔ (IsGiven name × IsGiven value)
unfolding check_header_validity
check_header_validity_iff name value = (
  (λ h. (
    (valid_part-IsGiven name).0 (ground (arith, h)),
    (valid_part-IsGiven value).0 (ground (arith, h)),
  )),
  (λ (a, b). ground (arith, (valid_part-IsGiven name).1 a, (valid_part-IsGiven value).1 b)),
)

-- The type and one parameter.
parse_two :
    (content_type token : Text)
    → Lacks b';' content_type
    → Lacks b';' token
    → parse_content_type_header (content_type ++ b';' ∷ token)
      ≡ (strip content_type, add_parameter token (split_once b'=' token) [])
unfolding parse_content_type_header parse_tokens add_parameters
parse_two content_type token h k =
    rw (split_all-cut b';' content_type token h, split_all_last b';' token k) refl

get_encoding :
    (s : Text)
    → is_blank s ≡ false
    → get_encoding_from_headers (some s) ≡ encoding_of (parse_content_type_header s)
unfolding get_encoding_from_headers is_blank
get_encoding [] h = absurd (cc h)
get_encoding (c ∷ s) h = refl

not_blank : (s t : Text) (c : ℕ) → is_blank (s ++ c ∷ t) ≡ false
unfolding is_blank
not_blank [] t c = refl
not_blank (d ∷ s) t c = refl

-- A `Content-Type` whose only parameter is `charset` without a value makes the lookup of the encoding
-- raise `AttributeError`, whatever the type.
pub get_encoding_from_headers-flag :
    (content_type : Text)
    → Lacks b';' content_type
    → get_encoding_from_headers (some (content_type ++ codes "; charset")) ≡ attribute_error
unfolding encoding_of charset_of add_parameter is_blank strip strip_by strip_start is_space lower
    lower_code split_once ℕ_eq text_eq lookup insert
get_encoding_from_headers-flag content_type h =
    get_encoding (content_type ++ codes "; charset")
      (not_blank content_type (codes " charset") b';')
    ∙ ap encoding_of (parse_two content_type (codes " charset") h (omega arith))
    ∙ refl

-- The encoding is the value of the one parameter `charset`, without blanks and quotes around it.
pub get_encoding_from_headers-charset :
    (content_type charset : Text)
    → Lacks b';' content_type
    → Lacks b';' charset
    → get_encoding_from_headers (some (content_type ++ (codes "; charset=" ++ charset)))
      ≡ encoding (strip_by (contains (codes "'\"")) (strip charset))
unfolding encoding_of charset_of add_parameter is_blank strip strip_by strip_start is_space lower
    lower_code split_once ℕ_eq text_eq lookup insert
get_encoding_from_headers-charset content_type charset h k =
    let token : Text = codes " charset=" ++ charset in
    get_encoding (content_type ++ b';' ∷ token) (not_blank content_type token b';')
    ∙ ap encoding_of (
        parse_two content_type token h
          (Lacks-append b';' (codes " charset=") charset (omega arith) k))
    ∙ refl
