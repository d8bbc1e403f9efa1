-- ===== src/Sending/CookieTests.antt =====
-- Sessions whose jar and engine agree and disagree, and the theorems about their cookies.
use chrome_client.Base.{
  ℕ, ◌≡◌, ◌≢◌, ◌++◌, refl, Option, none, some, List, [], ◌∷◌, Bool, true, false, option_eq, ℕ_eq,
  ◌==◌, ==→eq, ◌+◌, if◌then◌else◌, Bool-cases, inl, inr, ap, arith,
}
use chrome_client.Base.Dict.{lookup, insert}
use chrome_client.Base.Text.{Text, codes, text_eq}
use chrome_client.Structures.Headers.{Headers, mapping, create, get_item}
use chrome_client.Structures.Headers.Consistency.{create-IsConsistent}
use chrome_client.Cookies.Cookie.{with_defaults}
use chrome_client.Cookies.Jar
use chrome_client.Cookies.Jar.{Jar}
use chrome_client.Cookies.Reading
use chrome_client.Cookies.Store.{cookies, put}
use chrome_client.Engine.Config.{EngineConfig, config_eq}
use chrome_client.Engine.Cache.{
  EngineSlot, Build, built, ok, get, get_open, build_slot, store, evict, reset_after_fork, discard,
  remove_first,
}
use chrome_client.Sending.Cookies.{
  CookiePolicy, Session, Resolution, at_generation, choose_slot, jar_of, resolve_cookies,
}
use chrome_client.Sending.Cookies.Wire.{
  wire, or_given, resolve_cookies-wire, resolve_cookies-discard, resolve_cookies-stale,
}
use chrome_client.Sending.Cookies.Generations.{IsFresh, resolve_cookies-IsFresh}

-- A policy that sends the first name of the jar to every URL.
abbrev first_of : List Text → Option Text
first_of [] = none
first_of (name ∷ names) = some (codes "cookie=" ++ name)

first_of-ne-nil : (names : List Text) → first_of names ≢ some []
first_of-ne-nil [] e = cc
first_of-ne-nil (name ∷ names) e = cc

unfoldable first_policy : CookiePolicy
unfolding Reading.keys cookies
first_policy = record {
  cookie_header = λ jar url. first_of (Reading.keys jar);
  cookie_header-empty = λ url. refl;
  cookie_header-ne-nil = λ jar url. first_of-ne-nil (Reading.keys jar);
}

abbrev config : EngineConfig
config = record {
  impersonate = none;
  proxy = none;
  verify = true;
  ca_pem = none;
  user_agent = none;
  accept_language = none;
  proxy_username = none;
  proxy_password = none;
  http_version = none;
  cache = true;
  profile_namespace = none;
  generation = 0;
}

abbrev jar_with : Text → Jar
jar_with name = Jar.set_cookie (with_defaults name none) Jar.empty

-- The engine's store has one cookie, the jar another.
abbrev slot : EngineSlot ℕ
slot = record { engine = 7; config = config; mirror = jar_with (codes "old") }

abbrev session : Session ℕ
session = record {
  generation = 0;
  cookies = jar_with (codes "new");
  engines = record {
    slots = (config, slot) ∷ [];
    order = config ∷ [];
    max = 4;
    pid = 1;
    closed = false;
  };
}

abbrev build : EngineConfig → Build ℕ
build c = built (c.generation + 10)

-- The store of the first engine has the cookie of its mirror; the others are empty.
abbrev core_of : ℕ → Text → Option Text
core_of engine url = if engine == 7 then some (codes "cookie=old") else none

new_store :
    (c : EngineConfig) (engine : ℕ) (url : Text)
    → build c ≡ built engine
    → core_of engine url ≡ none
new_store c engine url e = ground (arith, e)

held_line : (url : Text) → core_of 7 url ≡ first_policy.cookie_header slot.mirror url
unfolding first_policy Jar.set_cookie put insert lookup with_defaults ℕ_eq
held_line url = refl

abbrev plain : Headers
plain = create (mapping []) (codes "iso-8859-1")

-- After a request that discarded its cookies: the store has a cookie, the mirror none.
abbrev blind : EngineSlot ℕ
blind = record slot { mirror = Jar.empty }

kept_blind :
    (resolve_cookies build 1 first_policy false none (codes "https://a/") blind session plain).slot
    ≡ ok blind
unfolding resolve_cookies first_policy
kept_blind = refl

resolve_cookies-stale_example :
    wire build 1 core_of new_store first_policy
      (codes "https://a/")
      (ok blind)
      (resolve_cookies build 1 first_policy false none
        (codes "https://a/")
        blind
        session
        plain).headers
    ≡ some (codes "cookie=old")
unfolding ℕ_eq
resolve_cookies-stale_example =
    resolve_cookies-stale build 1 core_of new_store first_policy (codes "https://a/")
      (codes "cookie=old") blind blind session plain none
      (first_policy.cookie_header-empty (codes "https://a/")) refl kept_blind

abbrev renewed : EngineSlot ℕ
renewed = record { engine = 11; config = record config { generation = 1 }; mirror = Jar.empty }

session_IsFresh : IsFresh session
unfolding lookup
session_IsFresh key later = elim (Bool-cases (key == config)) [
  | inl same ↦
      let e : key ≡ config = ==→eq key config same in
      absurd (omega (arith, ap (λ (k : EngineConfig). k.generation) e))
  | inr other ↦ simp other refl
]

resolved :
    (resolve_cookies build 1 first_policy false none (codes "https://a/") slot session plain).slot
    ≡ ok renewed
unfolding resolve_cookies first_policy Jar.set_cookie put insert lookup with_defaults get get_open
    reset_after_fork ℕ_eq build_slot store
resolved = refl

discarded :
    (resolve_cookies build 1 first_policy true none (codes "https://a/") slot session plain).slot
    ≡ ok renewed
unfolding resolve_cookies get get_open lookup reset_after_fork ℕ_eq build_slot store discard evict
    insert remove_first
discarded = refl

abbrev after : Resolution ℕ
after = resolve_cookies build 1 first_policy false none (codes "https://a/") slot session plain

resolve_cookies-wire_example :
    wire build 1 core_of new_store first_policy (codes "https://a/") (ok renewed) after.headers
    ≡ or_given
        (first_policy.cookie_header (jar_of none session) (codes "https://a/"))
        (get_item plain (codes "Cookie"))
resolve_cookies-wire_example =
    resolve_cookies-wire build 1 core_of new_store first_policy (codes "https://a/") slot session
      plain (create-IsConsistent (mapping []) (codes "iso-8859-1"))
      (session_IsFresh (at_generation 1 config) (omega arith)) none renewed
      (held_line (codes "https://a/")) resolved

resolve_cookies-discard_example :
    wire build 1 core_of new_store first_policy
      (codes "https://a/")
      (ok renewed)
      (resolve_cookies build 1 first_policy true none
        (codes "https://a/")
        slot
        session
        plain).headers
    ≡ none
resolve_cookies-discard_example =
    resolve_cookies-discard build 1 core_of new_store first_policy (codes "https://a/") slot session
      plain (create-IsConsistent (mapping []) (codes "iso-8859-1"))
      (session_IsFresh (at_generation 1 config) (omega arith)) none renewed discarded

resolve_cookies-IsFresh_example :
    IsFresh (choose_slot build 1 config session).1
    × ((discard : Bool) (jar : Option Jar) (url : Text) (slot : EngineSlot ℕ) (h : Headers)
        → IsFresh (resolve_cookies build 1 first_policy discard jar url slot session h).session)
resolve_cookies-IsFresh_example =
    resolve_cookies-IsFresh build 1 first_policy config session session_IsFresh
