-- ===== src/Sending/Cookies.antt =====
-- `_resolve_cookies`: which engine sends a request, and with which `Cookie` header. The policy of
-- `http.cookiejar` that picks the cookies of a URL is a parameter; that the lookup of a header also
-- drops expired cookies from the jar is left out. Two slots are one object if they have one
-- configuration.
pub mod Wire
pub mod Generations
use chrome_client.Base.{
  ℕ, suc, ◌≡◌, ◌≢◌, Option, none, some, List, [], ◌∷◌, Bool, true, false, ◌==◌, option_eq,
  if◌then◌else◌,
}
use chrome_client.Base.Text.{Text, codes, text_eq}
use chrome_client.Structures.Headers.{Headers, set_item}
use chrome_client.Cookies.Jar
use chrome_client.Cookies.Jar.{Jar}
use chrome_client.Engine.Config.{EngineConfig, config_eq}
use chrome_client.Engine.Cache.{EngineSlot, EngineCache, Build, Result, ok, err, get, discard}
use chrome_client.Sending.Redirects.{pop}

-- `RequestsCookieJar.cookie_header`, and what is documented of it: an empty jar has no header, and a
-- header has at least one cookie.
pub record CookiePolicy : Type 0 where
  pub cookie_header : Jar → Text → Option Text
  pub cookie_header-empty : (url : Text) → cookie_header Jar.empty url ≡ none
  pub cookie_header-ne-nil : (jar : Jar) (url : Text) → cookie_header jar url ≢ some []

-- The fields of a session that cookies depend on.
pub record Session (E : Type 0) : Type 0 where
  pub generation : ℕ
  pub cookies : Jar
  pub engines : EngineCache E

-- What `_resolve_cookies` leaves: the slot or an error, the session, and the headers to send.
pub record Resolution (E : Type 0) : Type 0 where
  pub slot : Result (EngineSlot E)
  pub session : Session E
  pub headers : Headers

-- `slot.config.replace(generation=...)`
abbrev pub at_generation : ℕ → EngineConfig → EngineConfig
at_generation generation config = record config { generation = generation }

-- `if desired: prepared.headers["Cookie"] = desired`
unfoldable pub with_desired : Option Text → Headers → Headers
with_desired none h = h
with_desired (some []) h = h
with_desired (some (c ∷ line)) h = set_item h (codes "Cookie") (c ∷ line)

-- `prepared._cookies if prepared._cookies is not None else self.cookies`
abbrev pub jar_of : {E : Type 0} → Option Jar → Session E → Jar
jar_of none s = s.cookies
jar_of (some jar) s = jar

-- What `discard` raises is raised.
unfoldable pub after_discard :
    {E : Type 0} → Result (Unit {0}) → EngineSlot E → Result (EngineSlot E)
after_discard (ok _) replacement = ok replacement
after_discard (err e) replacement = err e

module _ {E : Type 0} (build : EngineConfig → Build E) (pid : ℕ) where
  -- `_slot`, for the configuration of a request but for its generation.
  unfoldable pub choose_slot : EngineConfig → Session E → Result (EngineSlot E) × Session E
  choose_slot config s =
      let found = get build pid (at_generation s.generation config) s.engines in
      (found.0, record s { engines = found.1 })

  -- A structurally identical engine with an empty store.
  unfoldable pub renew : EngineSlot E → Session E → Result (EngineSlot E) × Session E
  renew slot s =
      let generation = suc s.generation in
      let made = get build pid (at_generation generation slot.config) s.engines in
      (made.0, record s { generation = generation; engines = made.1 })

  unfoldable pub send_desired :
      Option Text → Headers → Result (EngineSlot E) × Session E → Resolution E
  unfolding with_desired
  send_desired desired h (ok slot, s) = record {
    slot = ok slot;
    session = s;
    headers = with_desired desired h;
  }
  send_desired desired h (err e, s) = record { slot = err e; session = s; headers = h }

  -- By the header that the engine's store would send.
  unfoldable pub reconcile :
      EngineSlot E → Session E → Headers → Option Text → Option Text → Resolution E
  unfolding renew send_desired with_desired option_eq text_eq
  reconcile slot s h desired none = record {
    slot = ok slot;
    session = s;
    headers = with_desired desired h;
  }
  reconcile slot s h desired (some line) =
      if desired == some line
      then record { slot = ok slot; session = s; headers = pop h (codes "Cookie") }
      else send_desired desired h (renew slot s)

  -- The superseded slot leaves the cache.
  unfoldable pub supersede :
      EngineSlot E → Headers → Result (EngineSlot E) × Session E → Resolution E
  unfolding config_eq after_discard
  supersede slot h (err e, s) = record { slot = err e; session = s; headers = h }
  supersede slot h (ok replacement, s) =
      if replacement.config == slot.config
      then record { slot = ok replacement; session = s; headers = h }
      else let dropped = discard slot.config s.engines in
        record {
          slot = after_discard dropped.0 replacement;
          session = record s { engines = dropped.1 };
          headers = h;
        }

  module _ (policy : CookiePolicy) where
    open policy use {cookie_header}

    unfoldable pub resolve_cookies :
        Bool → Option Jar → Text → EngineSlot E → Session E → Headers → Resolution E
    unfolding reconcile supersede renew
    resolve_cookies true jar url slot s h = supersede slot (pop h (codes "Cookie")) (renew slot s)
    resolve_cookies false jar url slot s h =
        reconcile slot s h (cookie_header (jar_of jar s) url) (cookie_header slot.mirror url)
