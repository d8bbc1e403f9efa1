-- ===== src/Auth/Basic.antt =====
-- What a server reads in basic credentials.
use chrome_client.Base.{◌≡◌, refl, ap, ◌∙◌, Option, some, [], ◌∷◌, ◌++◌, true, arith, drop, ℕ_eq}
use mathlib.Core.Option
use chrome_client.Base.Text.{Text, split_once}
use chrome_client.Base.Splitting.{Lacks, split_once-cut}
use chrome_client.Async.State.{Bytes}
use chrome_client.Auth.{is_latin, basic_auth_str}
use chrome_client.Auth.Base64.{b64decode, IsBytes, b64decode-b64encode, strip-b64encode}

-- The credentials of a header (RFC 7617): what stands behind the scheme is decoded, and the user name
-- ends at the first colon.
unfoldable pub read_credentials : Text → Text × Option Text
unfolding b64decode split_once
read_credentials header = split_once b':' (b64decode (drop 6 header))

latin_bytes : (s : Text) → IsBytes s → is_latin s ≡ true
unfolding is_latin
latin_bytes [] h = refl
latin_bytes (c ∷ s) (h, hs) = ground (arith, latin_bytes s hs, h)

bytes_join : (s t : Bytes) → IsBytes s → IsBytes t → IsBytes (s ++ b':' ∷ t)
bytes_join [] t h k = (omega arith, k)
bytes_join (c ∷ s) t (h, hs) k = (h, bytes_join s t hs k)

-- A server reads back the user name and the password that `_basic_auth_str` encodes, if all of their
-- characters are Latin-1 and the user name has no colon; the password may have one.
pub read_credentials-basic_auth_str :
    (username password : Text)
    → IsBytes username
    → IsBytes password
    → Lacks b':' username
    → Option.map read_credentials (basic_auth_str username password)
      ≡ some (username, some password)
unfolding basic_auth_str read_credentials
read_credentials-basic_auth_str username password h k l =
    let joined = bytes_join username password h k in
    simp (latin_bytes username h, latin_bytes password k)
      (ap some (
        ap (split_once b':') (
          ap b64decode (strip-b64encode (username ++ b':' ∷ password) joined)
          ∙ b64decode-b64encode (username ++ b':' ∷ password) joined)
        ∙ split_once-cut b':' username password l))
