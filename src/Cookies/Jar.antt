-- ===== src/Cookies/Jar.antt =====
-- `RequestsCookieJar`: the store of cookielib with a revision. The policy and the lock are not
-- modelled. Errors are values; `KeyError` from cookielib's own `clear` is one too.
pub mod Removal
pub mod Expiry
pub mod Quotes
use mathlib.Core.Option
use chrome_client.Base.{
  ℕ, ◌+◌, Option, none, some, List, [], ◌∷◌, ◌++◌, map, Bool, true, false, not, ◌==◌, ◌&&◌, ◌||◌,
  leb, ℕ_eq, if◌then◌else◌,
}
use chrome_client.Base.Dict.{Dict, insert}
use chrome_client.Base.Text.{Text, codes, starts_with, ends_with, strip_by, text_eq}
use chrome_client.Cookies.Cookie.{Cookie, Keyword, create_cookie}
use chrome_client.Cookies.Store.{Store, put, clear_name, clear_path, clear_domain, cookies}

pub record Jar : Type 0 where
  pub store : Store
  pub revision : ℕ

abbrev pub empty : Jar
empty = record { store = []; revision = 0 }

pub data Error : Type 0 where
  key_error value_error type_error conflict : Error

pub data Result {ℓ} (A : Type ℓ) : Type ℓ where
  ok : A → Result A
  err : Error → Result A

-- `value.replace('\\"', "")`
remove_escaped : Text → Text
unfolding ℕ_eq
remove_escaped [] = []
remove_escaped (c ∷ []) = c ∷ []
remove_escaped (c ∷ (d ∷ s)) =
    let short = remove_escaped s in
    let long = remove_escaped (d ∷ s) in if c == 0x5C && d == 0x22 then short else c ∷ long

unfoldable pub quoted : Text → Bool
unfolding starts_with ends_with
quoted v = starts_with v (0x22 ∷ []) && ends_with v (0x22 ∷ [])

unfoldable pub bare : Text → Text
unfolding remove_escaped strip_by ℕ_eq
bare v = strip_by (λ c. c == 0x22) (remove_escaped v)

-- A value in double quotes loses them, and the escaped quotes inside.
unfoldable pub unquote : Option Text → Option Text
unquote none = none
unquote (some v) = if quoted v then some (bare v) else some v

unfoldable pub set_cookie : Cookie → Jar → Jar
set_cookie c jar = record {
  store = put (record c { value = unquote c.value }) jar.store;
  revision = jar.revision + 1;
}

-- `cookielib.CookieJar.clear`
clear_store : Option Text → Option Text → Option Text → Store → Result Store
clear_store none none none s = ok []
clear_store (some d) (some p) (some n) s = elim (clear_name d p n s) [
  | none ↦ err key_error
  | some s' ↦ ok s'
]
clear_store (some d) (some p) none s = elim (clear_path d p s) [
  | none ↦ err key_error
  | some s' ↦ ok s'
]
clear_store (some d) none none s = elim (clear_domain d s) [
  | none ↦ err key_error
  | some s' ↦ ok s'
]
clear_store _ _ _ s = err value_error

-- The revision is raised before the store is touched, so a failure leaves it raised.
unfoldable pub clear : Option Text → Option Text → Option Text → Jar → Jar × Option Error
unfolding clear_store
clear domain path name jar = elim (clear_store domain path name jar.store) [
  | ok s ↦ (record { store = s; revision = jar.revision + 1 }, none)
  | err e ↦ (record jar { revision = jar.revision + 1 }, some e)
]

-- A step that raises ends the loop.
abbrev pub next : Jar × Option Error → (Jar → Jar × Option Error) → Jar × Option Error
next (jar, none) rest = rest jar
next (jar, some e) rest = (jar, some e)

-- The loop of cookielib's `clear_expired_cookies` and `clear_session_cookies`: it calls `self.clear`,
-- which is the method of this class.
unfoldable pub clear_each : (Cookie → Bool) → List Cookie → Jar → Jar × Option Error
clear_each p [] jar = (jar, none)
clear_each p (c ∷ cs) jar =
    let skipped = clear_each p cs jar in
    if p c
    then next (clear (some c.domain) (some c.path) (some c.name) jar) (clear_each p cs)
    else skipped

-- `cookie.is_expired(now)`
abbrev pub is_expired : ℕ → Cookie → Bool
is_expired now c = elim c.expires [ none ↦ false | some t ↦ leb t now ]

unfoldable pub clear_expired_cookies : ℕ → Jar → Jar × Option Error
clear_expired_cookies now jar = clear_each (is_expired now) (cookies jar.store) jar

unfoldable pub clear_session_cookies : Jar → Jar × Option Error
clear_session_cookies jar =
    clear_each (λ c. c.discard) (cookies jar.store) (record jar { revision = jar.revision + 1 })

-- `filter is None or field == filter`
abbrev pub allows : Option Text → Text → Bool
allows none field = true
allows (some wanted) field = field == wanted

-- The three tests that lookups and removals by name make of each cookie.
abbrev pub selects : Text → Option Text → Option Text → Cookie → Bool
selects name domain path c = c.name == name && allows domain c.domain && allows path c.path

-- The loop of `remove_cookie_by_name`, with the `removed` flag. It clears by cookielib's own method,
-- so the revision stays; `none` is that method's `KeyError`.
unfoldable pub remove_selected :
    (Cookie → Bool) → List Cookie → Store × Bool → Option (Store × Bool)
remove_selected p [] (s, removed) = some (s, removed)
remove_selected p (c ∷ cs) (s, removed) =
    let skipped = remove_selected p cs (s, removed) in
    if p c
    then elim (clear_name c.domain c.path c.name s) [
      | none ↦ none
      | some s' ↦ remove_selected p cs (s', true)
    ]
    else skipped

unfoldable pub remove_cookie_by_name : Text → Option Text → Option Text → Jar → Option (Jar × Bool)
remove_cookie_by_name name domain path jar =
    elim (remove_selected (selects name domain path) (cookies jar.store) (jar.store, false)) [
      | none ↦ none
      | some (s, removed) ↦ some (
        record { store = s; revision = if removed then jar.revision + 1 else jar.revision },
        removed,
      )
    ]

-- `del jar[name]`
unfoldable pub del_item : Text → Jar → Result Jar
del_item name jar = elim (remove_cookie_by_name name none none jar) [
  | none ↦ err key_error
  | some (jar', removed) ↦ if removed then ok jar' else err key_error
]

-- `kwargs.get("domain")`, `kwargs.get("path")`
abbrev domain_of : List Keyword → Option Text
domain_of [] = none
domain_of (Keyword.domain d ∷ kwargs) = some d
domain_of (_ ∷ kwargs) = domain_of kwargs

abbrev path_of : List Keyword → Option Text
path_of [] = none
path_of (Keyword.path p ∷ kwargs) = some p
path_of (_ ∷ kwargs) = path_of kwargs

-- `jar.set(name, value, **kwargs)`; a missing value removes. A `Morsel` is not modelled.
unfoldable pub set : Text → Option Text → List Keyword → Jar → Result Jar
set name none kwargs jar =
    elim (remove_cookie_by_name name (domain_of kwargs) (path_of kwargs) jar) [
      | none ↦ err key_error
      | some (jar', _) ↦ ok jar'
    ]
set name (some value) kwargs jar = elim (create_cookie name (some value) kwargs) [
  | none ↦ err type_error
  | some c ↦ ok (set_cookie c jar)
]
