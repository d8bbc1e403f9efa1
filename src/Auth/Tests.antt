-- ===== src/Auth/Tests.antt =====
-- Tests of the authentication handlers, and instances of the theorems.
use chrome_client.Base.{
  List, length, ◌↔◌, ◌≡◌, ◌≢◌, refl, ap, length, Option, some, none, [], ◌∷◌, ◌++◌, ◌==◌, arith,
  if◌then◌else◌,
}
use mathlib.Core.Option
use chrome_client.Base.Dict.{lookup, insert}
use chrome_client.Models.Head.{upper}
use chrome_client.Base.Text.{Text, codes, text_eq}
use chrome_client.Auth.{sequence, type_error, build_auth, basic_auth_str}
use chrome_client.Auth.Basic.{read_credentials, read_credentials-basic_auth_str}
use chrome_client.Auth.Digest.{HttpDigestAuth, create, parse_challenge}
use chrome_client.Auth.Digest.Answer.{digest_input, hex8, nonce_of, algorithm_of}
use chrome_client.Auth.Digest.Counting.{Numbered, requests, nonce_count-requests}
use chrome_client.Auth.Digest.Response.{rfc_input, digest_input-rfc}

abbrev user : Text
user = codes "Aladdin"

abbrev secret : Text
secret = codes "open:sesame"

basic_of_user : basic_auth_str user secret ≡ some (codes "Basic QWxhZGRpbjpvcGVuOnNlc2FtZQ==")
unfolding basic_auth_str
basic_of_user = refl

basic_of_euro : basic_auth_str (0x20AC ∷ []) secret ≡ none
unfolding basic_auth_str
basic_of_euro = refl

three_items : build_auth (sequence (user ∷ secret ∷ user ∷ [])) ≡ type_error
unfolding build_auth
three_items = refl

read_credentials-basic_auth_str_example :
    Option.map read_credentials (basic_auth_str user secret) ≡ some (user, some secret)
read_credentials-basic_auth_str_example =
    read_credentials-basic_auth_str user secret ground arith ground arith ground arith

abbrev challenge : Text
challenge = codes "Digest realm=\"a, b\", nonce=n1, qop=\"auth\", stale="

abbrev asked : HttpDigestAuth
asked = record {
  username = user;
  password = secret;
  chal =
      (codes "realm", codes "a") ∷ (codes "nonce", codes "n1") ∷ (codes "qop", codes "auth") ∷ [];
  nonce_count = 7;
  last_nonce = codes "old";
}

parsed :
    (parse_challenge challenge (create user secret)).0
    ≡ (codes "realm", codes "a, b")
      ∷ (codes "nonce", codes "n1")
      ∷ (codes "qop", codes "auth")
      ∷ (codes "stale", [])
      ∷ []
unfolding parse_challenge create insert
parsed = refl

other_scheme : (parse_challenge (codes "Basic realm=x") asked).1.chal ≡ asked.chal
unfolding parse_challenge
other_scheme = refl

count_in_hex : hex8 43 ≡ codes "0000002b"
unfolding hex8
count_in_hex = refl

abbrev plain_hash : Text → Text
plain_hash t = codes "h(" ++ (t ++ codes ")")

abbrev only_md5 : Text → Option (Text → Text)
only_md5 name = if name == codes "MD5" then some plain_hash else none

md5_known : only_md5 (algorithm_of asked) ≡ some plain_hash
unfolding algorithm_of upper text_eq lookup
md5_known = refl

nonce_new : nonce_of asked ≢ asked.last_nonce
unfolding nonce_of text_eq lookup
nonce_new = λ e. omega (arith, ap length e)

offers_auth : lookup (codes "qop") asked.chal ≡ some (codes "auth")
unfolding lookup text_eq
offers_auth = refl

nonce_count-requests_example :
    (headers : List Text) × (b : HttpDigestAuth) × (requests only_md5
        (codes "/x")
        (codes "c")
        (codes "get")
        3
        asked
      ≡ some (headers, b))
    × (length headers ≡ 3)
    × Numbered only_md5 (codes "/x") (codes "c") (codes "get") 1 headers
nonce_count-requests_example =
    nonce_count-requests only_md5 (codes "/x") (codes "c") (codes "get") (codes "realm", codes "a")
      ((codes "nonce", codes "n1") ∷ (codes "qop", codes "auth") ∷ []) plain_hash b'a' (codes "uth")
      2 asked refl md5_known offers_auth nonce_new

digest_input-rfc_example :
    (digest_input (some (codes "auth")) user [] [] [] secret
      ≡ rfc_input (some (codes "auth")) user [] [] [] secret)
    ↔ (some (codes "auth") ≡ none)
digest_input-rfc_example = digest_input-rfc (some (codes "auth")) user [] [] [] secret
