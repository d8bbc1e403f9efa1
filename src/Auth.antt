-- ===== src/Auth.antt =====
-- `auth.py`: basic credentials and the `auth=` argument. Credentials are text; bytes stand for
-- themselves.
pub mod Base64
pub mod Basic
pub mod Digest
mod Tests
use chrome_client.Base.{
  ℕ, Option, none, some, List, [], ◌∷◌, ◌++◌, Bool, true, false, ◌&&◌, ltb, if◌then◌else◌,
}
use chrome_client.Base.Text.{Text, codes, strip, every}
use chrome_client.Structures.Headers.{Headers, set_item}
use chrome_client.Auth.Base64.{b64encode}

-- `text.encode("latin1")`; `none` is `UnicodeEncodeError`.
unfoldable pub is_latin : Text → Bool
is_latin text = every (λ (c : ℕ). ltb c 256) text

-- `_basic_auth_str`
unfoldable pub basic_auth_str : Text → Text → Option Text
unfolding is_latin strip b64encode
basic_auth_str username password =
    if is_latin username && is_latin password
    then some (codes "Basic " ++ strip (b64encode (username ++ b':' ∷ password)))
    else none

unfoldable pub with_header : Headers → Text → Option Text → Option Headers
with_header h name none = none
with_header h name (some value) = some (set_item h name value)

-- `HTTPBasicAuth.__call__` and `HTTPProxyAuth.__call__`, on the headers of the request.
unfoldable pub apply_basic : Text → Text → Headers → Option Headers
unfolding basic_auth_str with_header
apply_basic username password h =
    with_header h (codes "Authorization") (basic_auth_str username password)

unfoldable pub apply_proxy : Text → Text → Headers → Option Headers
unfolding basic_auth_str with_header
apply_proxy username password h =
    with_header h (codes "Proxy-Authorization") (basic_auth_str username password)

-- The `auth=` argument, of which the callables are not looked into.
pub data Argument : Type 0 where
  no_auth : Argument
  callable : Argument
  sequence : List Text → Argument
  other : Argument

pub data Built : Type 0 where
  unchanged : Built
  basic : Text → Text → Built
  type_error : Built

unfoldable pub build_sequence : List Text → Built
build_sequence (username ∷ password ∷ []) = basic username password
build_sequence items = type_error

unfoldable pub build_auth : Argument → Built
unfolding build_sequence
build_auth no_auth = unchanged
build_auth callable = unchanged
build_auth (sequence items) = build_sequence items
build_auth other = type_error
