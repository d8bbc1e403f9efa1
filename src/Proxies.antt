-- ===== src/Proxies.antt =====
-- Which proxy a request goes through: `proxy_from_proxies` and `_effective_proxy` of `sessions.py`. The
-- parts that `urlsplit` finds in the URL, and what `resolve_proxies` and `should_bypass_proxies` of
-- utils.py answer for it, are arguments. Proxies are mappings from texts to texts or `None`.
pub mod Precedence
mod Tests
use chrome_client.Base.{
  ℕ, Option, none, some, List, [], ◌∷◌, ◌++◌, map, Bool, true, false, not, ◌&&◌, ◌==◌,
  if◌then◌else◌,
}
use chrome_client.Base.Dict.{Dict, lookup, insert}
use chrome_client.Base.Text.{Text, codes, lower, text_eq}

pub record UrlParts : Type 0 where
  pub scheme : Text
  pub hostname : Option Text

abbrev pub Mapping : Type 0
Mapping = Dict Text (Option Text)

-- `d.update(items)`
unfoldable pub update : Mapping → Mapping → Mapping
update d [] = d
update d ((k, v) ∷ items) = update (insert k v d) items

unfoldable pub lower_items : Mapping → Mapping
lower_items = map (λ (k, v). (lower k, v))

unfoldable pub proxy_scheme : Text → Text
unfolding text_eq
proxy_scheme scheme =
    if scheme == codes "ws"
    then codes "http"
    else if scheme == codes "wss"
    then codes "https"
    else scheme

abbrev with_host : Option Text → (Text → List Text) → List Text
with_host none f = []
with_host (some []) f = []
with_host (some (c ∷ host)) f = f (c ∷ host)

-- The keys that are tried, in order.
unfoldable pub candidate_keys : UrlParts → List Text
unfolding proxy_scheme
candidate_keys u =
    let scheme = lower u.scheme in
    with_host u.hostname
      (λ host. (scheme ++ codes "://" ++ host) ∷ (proxy_scheme scheme ++ codes "://" ++ host) ∷ [])
    ++ (scheme ∷ proxy_scheme scheme ∷ [])
    ++ with_host u.hostname (λ host. (codes "all://" ++ host) ∷ [])
    ++ codes "all" ∷ []

abbrev pub or_rest : Option (Option Text) → Option Text → Option Text
or_rest none rest = rest
or_rest (some v) rest = v

-- The value of the first key that is there, which may be `None`.
unfoldable pub first_present : List Text → Mapping → Option Text
first_present [] values = none
first_present (k ∷ ks) values = or_rest (lookup k values) (first_present ks values)

-- `proxy_from_proxies`
unfoldable pub proxy_from_proxies : UrlParts → Option Mapping → Option Text
proxy_from_proxies u none = none
proxy_from_proxies u (some proxies) =
    first_present (candidate_keys u) (update [] (lower_items proxies))

abbrev pub or_else : Option Text → Option Text → Option Text
or_else none other = other
or_else (some v) other = some v

-- The session's settings, and what the environment says of the URL.
pub record ProxySettings : Type 0 where
  pub proxies : Mapping
  pub proxy : Option Text
  pub trust_env : Bool
  pub bypass : Bool
  pub environment : Mapping

-- `dict(self.proxies)`, updated with the proxies of the call if there are any.
unfoldable pub merged : ProxySettings → Option Mapping → Mapping
unfolding update
merged s none = s.proxies
merged s (some proxies) = update s.proxies proxies

-- `proxy_from_proxies(url, mapping) if mapping else None`
unfoldable pub from_mapping : UrlParts → Mapping → Option Text
unfolding proxy_from_proxies
from_mapping u [] = none
from_mapping u (entry ∷ entries) = proxy_from_proxies u (some (entry ∷ entries))

unfoldable pub from_session : ProxySettings → Option Text → Option Text
from_session s none = s.proxy
from_session s (some selected) = some selected

unfoldable pub from_environment : UrlParts → ProxySettings → Option Text → Option Text
unfolding from_mapping
from_environment u s none =
    if s.trust_env && not s.bypass then from_mapping u s.environment else none
from_environment u s (some selected) = some selected

-- `_effective_proxy`
unfoldable pub effective_proxy :
    UrlParts → ProxySettings → Option Text → Option Mapping → Option Text
unfolding merged from_mapping from_session from_environment
effective_proxy u s (some proxy) proxies = some proxy
effective_proxy u s none proxies =
    from_environment u s (from_session s (from_mapping u (merged s proxies)))
