-- ===== src/Cookies/Tests.antt =====
-- Runs of the jar, and its theorems at concrete cookies.
use chrome_client.Base.{◌+◌, ◌≡◌, refl, Option, none, some, [], ◌∷◌, true, false, keep, length}
use chrome_client.Base.Dict
use chrome_client.Base.Text.{Text, codes, text_eq}
use chrome_client.Cookies.Cookie.{Cookie, Keyword, create_cookie, with_keywords}
use chrome_client.Cookies.Store.{find3, cookies, put}
use chrome_client.Cookies.Store.Validity.{IsValid}
use chrome_client.Cookies.Jar.{
  Jar, empty, set_cookie, ok, unquote, quoted, bare, is_expired, clear_expired_cookies,
}
use chrome_client.Cookies.Jar.Removal.{without}
use chrome_client.Cookies.Jar.Expiry.{clear_expired_cookies-total}
use chrome_client.Cookies.Reading.{
  find_no_duplicates, multiple_domains, repeats_domain, unique_value, keys,
}
use chrome_client.Cookies.Merging.{set_cookies}
use chrome_client.Cookies.Merging.Laws.{IsClean, set_cookies-IsClean, empty-IsClean}

abbrev session_id : Cookie
session_id = record with_template {
  name = codes "sid";
  value = some (codes "\"a1\"");
  domain = codes "x.org";
  expires = some 50;
}
  where
    with_template : Cookie
    with_template = record {
      version = 0;
      name = [];
      value = none;
      port = none;
      port_specified = false;
      domain = [];
      domain_specified = true;
      domain_initial_dot = false;
      path = codes "/";
      path_specified = true;
      secure = false;
      expires = none;
      discard = true;
      comment = none;
      comment_url = false;
      rest = [];
      rfc2109 = false;
    }

abbrev other_id : Cookie
other_id = record session_id { domain = codes "y.org"; value = some (codes "b2"); expires = none }

abbrev lang : Cookie
lang = record session_id { name = codes "lang"; value = some (codes "en"); expires = none }

abbrev jar : Jar
jar = set_cookies (session_id ∷ other_id ∷ lang ∷ []) empty

jar-IsClean : IsClean jar
jar-IsClean = set_cookies-IsClean (session_id ∷ other_id ∷ lang ∷ []) empty empty-IsClean

names_listed : keys jar ≡ codes "sid" ∷ codes "lang" ∷ codes "sid" ∷ []
unfolding keys cookies set_cookies set_cookie put text_eq Dict.lookup Dict.insert
names_listed = refl

quotes_go : find_no_duplicates (codes "sid") (some (codes "x.org")) none jar ≡ ok (codes "a1")
unfolding find_no_duplicates cookies set_cookies set_cookie put text_eq Dict.lookup Dict.insert
    unquote unique_value quoted bare
quotes_go = refl

unsupported_keyword :
    create_cookie (codes "a") none (Keyword.unsupported (codes "samesite") ∷ []) ≡ none
unfolding create_cookie with_keywords
unsupported_keyword = refl

clear_expired_cookies-total_example :
    (jar' : Jar) × (clear_expired_cookies 60 jar ≡ (jar', none))
    × IsValid jar'.store
    × ((d q n : Text) → find3 jar'.store d q n ≡ without (is_expired 60) (find3 jar.store d q n))
    × (jar'.revision ≡ jar.revision + length (keep (is_expired 60) (cookies jar.store)))
clear_expired_cookies-total_example = clear_expired_cookies-total 60 jar jar-IsClean.valid

one_expires : length (keep (is_expired 60) (cookies jar.store)) ≡ 1
unfolding cookies set_cookies set_cookie put text_eq Dict.lookup Dict.insert
one_expires = refl

-- Two cookies, of two domains.
two_domains : multiple_domains (set_cookies (session_id ∷ other_id ∷ []) empty) ≡ false
unfolding multiple_domains repeats_domain cookies set_cookies set_cookie put text_eq Dict.lookup
    Dict.insert
two_domains = refl

-- Two cookies, of one domain.
one_domain : multiple_domains (set_cookies (session_id ∷ lang ∷ []) empty) ≡ true
unfolding multiple_domains repeats_domain cookies set_cookies set_cookie put text_eq Dict.lookup
    Dict.insert
one_domain = refl

abbrev settings : Dict.Dict Text (Option Text)
settings = (codes "sid", some (codes "z")) ∷ (codes "theme", some (codes "dark")) ∷ []

settings_nodup : Dict.NodupKeys settings
unfolding Dict.lookup text_eq
settings_nodup = (refl, (refl, tt))
