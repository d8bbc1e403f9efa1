-- ===== src/Auth/Digest.antt =====
-- `HTTPDigestAuth`: the handler, and the challenge that it reads.
pub mod Answer
pub mod Counting
pub mod Response
use chrome_client.Base.{
  ℕ, zero, suc, ◌+◌, ◌-◌, ◌/◌, ◌%◌, ◌^◌, Option, none, some, List, [], ◌∷◌, ◌++◌, Bool, true, false,
  ◌&&◌, ◌||◌, ◌==◌, leb, ltb, contains, length, take, drop, ℕ_eq, option_eq, if◌then◌else◌,
}
use chrome_client.Base.Dict.{Dict, lookup, insert}
use chrome_client.Base.Text.{Text, codes, lower, strip, starts_with, ends_with, join, text_eq}
use chrome_client.Models.Head.{upper}
use chrome_client.Utils.Quoting.{is_alphanumeric}

pub record HttpDigestAuth : Type 0 where
  pub username : Text
  pub password : Text
  pub chal : Dict Text Text
  pub nonce_count : ℕ
  pub last_nonce : Text

unfoldable pub create : Text → Text → HttpDigestAuth
create username password = record {
  username = username;
  password = password;
  chal = [];
  nonce_count = 0;
  last_nonce = [];
}

-- `\w`, exact on ASCII.
unfoldable pub is_word : ℕ → Bool
unfolding is_alphanumeric ℕ_eq
is_word c = is_alphanumeric c || c == b'_'

-- The text before the first character of a kind, and the text from it on.
unfoldable pub span : (ℕ → Bool) → Text → Text × Text
span stop [] = ([], [])
span stop (c ∷ s) =
    let (before, after) = span stop s in if stop c then ([], c ∷ s) else (c ∷ before, after)

-- `([^,]*)`
unfoldable pub bare_value : Text → Text × Text
unfolding span ℕ_eq
bare_value s = span (λ (c : ℕ). c == b',') s

-- `"([^"]*)"` or `([^,]*)`; `quoted if quoted else bare` is
-- empty for an empty quoted value.
unfoldable pub close_quote : Text → Text × Text → Text × Text
unfolding bare_value
close_quote s (quoted, []) = bare_value s
close_quote s (quoted, c ∷ rest) = (quoted, rest)

unfoldable pub read_value : Text → Text × Text
unfolding close_quote span ℕ_eq
read_value [] = ([], [])
read_value (c ∷ s) =
    if c == b'"' then close_quote (c ∷ s) (span (λ (d : ℕ). d == b'"') s) else bare_value (c ∷ s)

-- The rest of a pair behind its name: `none` if no equals sign follows.
unfoldable pub after_name : Text → Option (Text × Text)
unfolding read_value ℕ_eq
after_name [] = none
after_name (c ∷ s) = if c == b'=' then some (read_value s) else none

unfoldable pub add_pair :
    Text
    → Option (Text × Text)
    → (Dict Text Text → Text → Dict Text Text)
    → Text
    → Dict Text Text
    → Dict Text Text
unfolding strip text_eq
add_pair name none next rest pairs = next pairs rest
add_pair name (some (found, rest)) next _ pairs = next (insert name (strip found) pairs) rest

-- `pattern.findall`: a run of word characters and an equals sign start a pair; whatever else is
-- skipped. The fuel is the length of the text.
unfoldable pub find_pairs : ℕ → Dict Text Text → Text → Dict Text Text
unfolding is_word span after_name add_pair
find_pairs zero pairs s = pairs
find_pairs (suc fuel) pairs [] = pairs
find_pairs (suc fuel) pairs (c ∷ s) =
    let (name, rest) = span (λ (d : ℕ). if is_word d then false else true) (c ∷ s) in
    if is_word c
    then add_pair name (after_name rest) (find_pairs fuel) rest pairs
    else find_pairs fuel pairs s

-- `parse_challenge`: what it returns, and the handler. Another scheme leaves the challenge alone.
unfoldable pub parse_challenge : Text → HttpDigestAuth → Dict Text Text × HttpDigestAuth
unfolding starts_with lower find_pairs
parse_challenge header a =
    if starts_with (lower header) (codes "digest ")
    then (let found = find_pairs (length header) [] (drop 7 header) in
        (found, record a { chal = found }))
    else ([], a)
