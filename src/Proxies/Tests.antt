-- ===== src/Proxies/Tests.antt =====
-- Requests with several proxies, and the theorem at one of them.
use chrome_client.Base.{
  ◌≡◌, refl, Option, none, some, [], ◌∷◌, true, false, not, ◌&&◌, if◌then◌else◌,
}
use chrome_client.Base.Dict.{lookup, lookup-nil, insert}
use chrome_client.Base.Text.{Text, codes, lower, text_eq}
use chrome_client.Proxies.{
  UrlParts, update, lower_items, candidate_keys, first_present, or_else, ProxySettings,
  effective_proxy,
}
use chrome_client.Proxies.Precedence.{IsPlain, pick, entry_of, effective_proxy-precedence}

abbrev url : UrlParts
url = record { scheme = codes "WSS"; hostname = some (codes "a") }

abbrev settings : ProxySettings
settings = record {
  proxies = (codes "https", some (codes "one")) ∷ (codes "all", some (codes "two")) ∷ [];
  proxy = some (codes "three");
  trust_env = true;
  bypass = false;
  environment = (codes "https", some (codes "four")) ∷ [];
}

-- The session's mapping comes before the session's proxy.
mapping_first : effective_proxy url settings none none ≡ some (codes "one")
unfolding effective_proxy candidate_keys lower_items lower update insert lookup text_eq
    first_present
mapping_first = refl

-- `None` for the scheme takes the session's entry away, and the session's proxy is used.
taken_away :
    effective_proxy url settings none (some ((codes "https", none) ∷ [])) ≡ some (codes "three")
unfolding effective_proxy candidate_keys lower_items lower update insert lookup text_eq
    first_present
taken_away = refl

one_key : (k : Text) (v : Option Text) → lower k ≡ k → IsPlain ((k, v) ∷ [])
one_key k v e = record { nodup = (lookup-nil k, tt); lowered = (e, tt) }

session_IsPlain : IsPlain settings.proxies
unfolding lookup lower text_eq
session_IsPlain = record { nodup = (refl, (refl, tt)); lowered = (refl, (refl, tt)) }

effective_proxy-precedence_example :
    effective_proxy url settings none (some ((codes "https", none) ∷ []))
    ≡ or_else none (
        or_else
          (pick (entry_of settings (some ((codes "https", none) ∷ []))) (candidate_keys url))
          (or_else settings.proxy (
            if settings.trust_env && not settings.bypass
            then pick (λ k. lookup k settings.environment) (candidate_keys url)
            else none)))
unfolding lower
effective_proxy-precedence_example =
    effective_proxy-precedence url settings none (some ((codes "https", none) ∷ [])) session_IsPlain
      (one_key (codes "https") none refl) (one_key (codes "https") (some (codes "four")) refl)
