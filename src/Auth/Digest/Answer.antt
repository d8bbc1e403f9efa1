-- ===== src/Auth/Digest/Answer.antt =====
-- The header that answers a challenge, and `handle_401`. The hash functions of `hashlib` are an
-- argument, `hash_of`, by the name of the algorithm in capitals; so are the path and query of the URL
-- and the client nonce, which is random.
use chrome_client.Base.{
  ℕ, zero, suc, ◌+◌, ◌-◌, ◌/◌, ◌%◌, Option, none, some, List, [], ◌∷◌, ◌++◌, ◌==◌, ltb, length,
  ℕ_eq, option_eq, if◌then◌else◌,
}
use chrome_client.Base.Dict.{Dict, lookup}
use chrome_client.Base.Text.{Text, codes, ends_with, join, text_eq}
use chrome_client.Models.Head.{upper}
use chrome_client.Auth.Digest.{HttpDigestAuth, parse_challenge}

unfoldable pub hex_digit : ℕ → ℕ
hex_digit n = if ltb n 10 then b'0' + n else b'a' + (n - 10)

-- The hexadecimal digits of a number below `16 ^ fuel`, in front of others.
unfoldable pub hex_digits : ℕ → ℕ → Text → Text
unfolding hex_digit ℕ_eq
hex_digits zero n digits = digits
hex_digits (suc fuel) n digits =
    let more = hex_digits fuel (n / 16) (hex_digit (n % 16) ∷ digits) in
    if n == 0 then digits else more

unfoldable pub zeros : ℕ → Text
zeros zero = []
zeros (suc n) = b'0' ∷ zeros n

-- `"%08x" % n`
unfoldable pub hex8 : ℕ → Text
unfolding hex_digits zeros
hex8 n = let digits = hex_digits n n [] in zeros (8 - length digits) ++ digits

unfoldable pub text_or : Option Text → Text → Text
text_or none default = default
text_or (some t) default = t

-- `x or default`, for a text that may be missing.
unfoldable pub nonempty_or : Option Text → Text → Text
nonempty_or none default = default
nonempty_or (some []) default = default
nonempty_or (some (c ∷ t)) default = c ∷ t

unfoldable pub nonce_of : HttpDigestAuth → Text
unfolding text_or text_eq
nonce_of a = text_or (lookup (codes "nonce") a.chal) []

unfoldable pub realm_of : HttpDigestAuth → Text
unfolding text_or text_eq
realm_of a = text_or (lookup (codes "realm") a.chal) []

unfoldable pub algorithm_of : HttpDigestAuth → Text
unfolding nonempty_or upper text_eq
algorithm_of a = upper (nonempty_or (lookup (codes "algorithm") a.chal) (codes "MD5"))

-- The use of a nonce is counted.
unfoldable pub count_nonce : Text → HttpDigestAuth → HttpDigestAuth
unfolding text_eq
count_nonce nonce a = record a {
  nonce_count = if nonce == a.last_nonce then a.nonce_count + 1 else 1;
  last_nonce = nonce;
}

-- The text whose hash is the response.
unfoldable pub digest_input : Option Text → Text → Text → Text → Text → Text → Text
digest_input none ha1 nonce nc cnonce ha2 = join (codes ":") (ha1 ∷ nonce ∷ ha2 ∷ [])
digest_input (some qop) ha1 nonce nc cnonce ha2 =
    join (codes ":") (ha1 ∷ nonce ∷ nc ∷ cnonce ∷ ha2 ∷ [])

abbrev quoted : Text → Text → Text
quoted name found = name ++ b'=' ∷ b'"' ∷ (found ++ b'"' ∷ [])

-- `if opaque`, `if chal.get("algorithm")`, `if qop`: a part is left out for an empty text too.
unfoldable pub part_if : Option Text → (Text → Text) → List Text
part_if none show = []
part_if (some []) show = []
part_if (some (c ∷ t)) show = show (c ∷ t) ∷ []

-- The parts of the header, for the handler whose nonce is counted.
unfoldable pub header_parts : (Text → Text) → Text → Text → Text → HttpDigestAuth → List Text
unfolding realm_of nonce_of algorithm_of digest_input part_if hex8 upper ends_with text_eq
header_parts hash path cnonce method a =
    let nonce = nonce_of a in
    let qop = lookup (codes "qop") a.chal in
    let nc = hex8 a.nonce_count in
    let plain = hash (join (codes ":") (a.username ∷ realm_of a ∷ a.password ∷ [])) in
    let ha2 = hash (join (codes ":") (upper method ∷ path ∷ [])) in
    let ha1 =
      if ends_with (algorithm_of a) (codes "-SESS")
      then hash (join (codes ":") (plain ∷ nonce ∷ cnonce ∷ []))
      else plain in
    (quoted (codes "username") a.username
      ∷ quoted (codes "realm") (realm_of a)
      ∷ quoted (codes "nonce") nonce
      ∷ quoted (codes "uri") path
      ∷ quoted (codes "response") (hash (digest_input qop ha1 nonce nc cnonce ha2))
      ∷ [])
    ++ (part_if (lookup (codes "opaque") a.chal) (quoted (codes "opaque"))
        ++ (part_if (lookup (codes "algorithm") a.chal) (λ t. codes "algorithm=" ++ t)
            ++ part_if qop (λ _.
              codes "qop=\"auth\", nc=" ++ (nc ++ (codes ", " ++ quoted (codes "cnonce") cnonce)))))

unfoldable pub build_with :
    Option (Text → Text) → Text → Text → Text → HttpDigestAuth → Option (Text × HttpDigestAuth)
unfolding count_nonce nonce_of header_parts
build_with none path cnonce method a = none
build_with (some hash) path cnonce method a =
    let counted = count_nonce (nonce_of a) a in
    some
      (codes "Digest " ++ join (codes ", ") (header_parts hash path cnonce method counted), counted)

unfoldable pub build_if :
    Dict Text Text → Option (Text × HttpDigestAuth) → Option (Text × HttpDigestAuth)
build_if [] built = none
build_if (entry ∷ entries) built = built

-- `build_header`; `none` is `UnsupportedFeature`, for a missing challenge or an algorithm that is not
-- known, and leaves the handler alone.
unfoldable pub build_header :
    (Text → Option (Text → Text))
    → Text
    → Text
    → Text
    → HttpDigestAuth
    → Option (Text × HttpDigestAuth)
unfolding build_if build_with algorithm_of text_eq
build_header hash_of path cnonce method a =
    build_if a.chal (build_with (hash_of (algorithm_of a)) path cnonce method a)

-- What `handle_401` does with a response: it keeps it, or sends the request again with a header, or
-- raises.
pub data Handled : Type 0 where
  kept : Handled
  retried : Text → Handled
  unsupported : Handled

unfoldable pub retry_with :
    Dict Text Text → Option (Text × HttpDigestAuth) → HttpDigestAuth → Handled × HttpDigestAuth
retry_with [] built a = (kept, a)
retry_with (entry ∷ entries) none a = (unsupported, a)
retry_with (entry ∷ entries) (some (header, b)) a = (retried header, b)

unfoldable pub handle_401 :
    (Text → Option (Text → Text))
    → Text
    → Text
    → Text
    → ℕ
    → Text
    → HttpDigestAuth
    → Handled × HttpDigestAuth
unfolding parse_challenge build_header retry_with ℕ_eq
handle_401 hash_of path cnonce method status challenge a =
    if status == 401
    then (let b = (parse_challenge challenge a).1 in
        retry_with b.chal (build_header hash_of path cnonce method b) b)
    else (kept, a)
