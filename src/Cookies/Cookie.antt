-- ===== src/Cookies/Cookie.antt =====
-- The cookies of `http.cookiejar`, `create_cookie` and `morsel_to_cookie`.
use chrome_client.Base.{ℕ, Option, none, some, List, [], ◌∷◌, Bool, true, false}
use chrome_client.Base.Dict.{Dict}
use chrome_client.Base.Text.{Text, codes, starts_with, text_eq}

-- Times are seconds that are not negative. A value can be missing.
pub record Cookie : Type 0 where
  pub version : ℕ
  pub name : Text
  pub value : Option Text
  pub port : Option Text
  pub port_specified : Bool
  pub domain : Text
  pub domain_specified : Bool
  pub domain_initial_dot : Bool
  pub path : Text
  pub path_specified : Bool
  pub secure : Bool
  pub expires : Option ℕ
  pub discard : Bool
  pub comment : Option Text
  pub comment_url : Bool
  pub rest : Dict Text (Option Text)
  pub rfc2109 : Bool

-- A keyword argument of `create_cookie`: one that it has a default for, or another.
pub data Keyword : Type 0 where
  version : ℕ → Keyword
  port : Option Text → Keyword
  domain : Text → Keyword
  path : Text → Keyword
  secure : Bool → Keyword
  expires : Option ℕ → Keyword
  discard : Bool → Keyword
  comment : Option Text → Keyword
  comment_url : Bool → Keyword
  rest : Dict Text (Option Text) → Keyword
  rfc2109 : Bool → Keyword
  unsupported : Text → Keyword

abbrev truthy : Option Text → Bool
truthy none = false
truthy (some []) = false
truthy (some (_ ∷ _)) = true

unfoldable pub with_defaults : Text → Option Text → Cookie
with_defaults name value = record {
  version = 0;
  name = name;
  value = value;
  port = none;
  port_specified = false;
  domain = [];
  domain_specified = false;
  domain_initial_dot = false;
  path = codes "/";
  path_specified = false;
  secure = false;
  expires = none;
  discard = true;
  comment = none;
  comment_url = false;
  rest = (codes "HttpOnly", none) ∷ [];
  rfc2109 = false;
}

-- `result.update(kwargs)`; `none` is the `TypeError` of an argument that is not supported.
unfoldable pub with_keywords : List Keyword → Cookie → Option Cookie
with_keywords [] c = some c
with_keywords (version v ∷ more) c = with_keywords more (record c { version = v })
with_keywords (port v ∷ more) c = with_keywords more (record c { port = v })
with_keywords (domain v ∷ more) c = with_keywords more (record c { domain = v })
with_keywords (path v ∷ more) c = with_keywords more (record c { path = v })
with_keywords (secure v ∷ more) c = with_keywords more (record c { secure = v })
with_keywords (expires v ∷ more) c = with_keywords more (record c { expires = v })
with_keywords (discard v ∷ more) c = with_keywords more (record c { discard = v })
with_keywords (comment v ∷ more) c = with_keywords more (record c { comment = v })
with_keywords (comment_url v ∷ more) c = with_keywords more (record c { comment_url = v })
with_keywords (rest v ∷ more) c = with_keywords more (record c { rest = v })
with_keywords (rfc2109 v ∷ more) c = with_keywords more (record c { rfc2109 = v })
with_keywords (unsupported _ ∷ more) c = none

-- The four fields that follow from the others.
unfoldable pub derived : Cookie → Cookie
derived c = record c {
  port_specified = truthy c.port;
  domain_specified = truthy (some c.domain);
  domain_initial_dot = starts_with c.domain (codes ".");
  path_specified = truthy (some c.path);
}

unfoldable pub create_cookie : Text → Option Text → List Keyword → Option Cookie
create_cookie name value kwargs = elim (with_keywords kwargs (with_defaults name value)) [
  | none ↦ none
  | some c ↦ some (derived c)
]
