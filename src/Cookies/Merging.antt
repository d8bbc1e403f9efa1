-- ===== src/Cookies/Merging.antt =====
-- Writing many cookies: `update`, `copy`, the module's `cookiejar_from_dict` and `merge_cookies`,
-- and the mirror of `Set-Cookie` lines. Reading the lines is cookielib's, and enters as the list of
-- the cookies that it extracts.
pub mod Laws
use chrome_client.Base.{
  Option, none, some, List, [], ◌∷◌, ◌++◌, map, Bool, true, false, ◌==◌, contains, if◌then◌else◌,
}
use chrome_client.Base.Dict.{Dict, insert}
use chrome_client.Base.Text.{Text, text_eq}
use chrome_client.Cookies.Cookie.{Cookie, with_defaults, derived}
use chrome_client.Cookies.Store.{cookies}
use chrome_client.Cookies.Jar.{Jar, empty, Result, ok, err, set_cookie, set}
use chrome_client.Cookies.Reading.{keys}

unfoldable pub set_cookies : List Cookie → Jar → Jar
set_cookies [] jar = jar
set_cookies (c ∷ cs) jar = set_cookies cs (set_cookie c jar)

set_items : List (Text × Option Text) → Jar → Result Jar
set_items [] jar = ok jar
set_items ((name, value) ∷ items) jar = elim (set name value [] jar) [
  | ok jar' ↦ set_items items jar'
  | err e ↦ err e
]

-- What `update` accepts: another jar, or the items of a mapping or of an iterable of pairs.
pub data Other : Type 0 where
  nothing : Other
  from_jar : Jar → Other
  from_items : List (Text × Option Text) → Other

unfoldable pub update : Other → List (Text × Option Text) → Jar → Result Jar
unfolding set_items
update nothing kwargs jar = set_items kwargs jar
update (from_jar other) kwargs jar = set_items kwargs (set_cookies (cookies other.store) jar)
update (from_items items) kwargs jar = elim (set_items items jar) [
  | ok jar' ↦ set_items kwargs jar'
  | err e ↦ err e
]

-- `copy` is `update` of an empty jar from another jar.
unfoldable pub copy : Jar → Jar
copy jar = set_cookies (cookies jar.store) empty

-- `create_cookie(name, value)`, which cannot fail with no keywords.
unfoldable pub plain_cookie : Text → Option Text → Cookie
plain_cookie name value = derived (with_defaults name value)

-- The loop of `cookiejar_from_dict`: names in `kept` are left alone.
unfoldable pub set_missing : List Text → Dict Text (Option Text) → Jar → Jar
set_missing kept [] jar = jar
set_missing kept ((name, value) ∷ items) jar =
    set_missing kept items
      (if contains kept name then jar else set_cookie (plain_cookie name value) jar)

unfoldable pub cookiejar_from_dict : Option (Dict Text (Option Text)) → Option Jar → Bool → Jar
cookiejar_from_dict none none overwrite = empty
cookiejar_from_dict none (some jar) overwrite = jar
cookiejar_from_dict (some items) none overwrite = set_missing [] items empty
cookiejar_from_dict (some items) (some jar) overwrite =
    set_missing (if overwrite then [] else keys jar) items jar

unfoldable pub dict_from_cookiejar : Jar → Dict Text (Option Text)
dict_from_cookiejar jar = dict_loop (cookies jar.store) []
  where
    dict_loop : List Cookie → Dict Text (Option Text) → Dict Text (Option Text)
    dict_loop [] d = d
    dict_loop (c ∷ cs) d = dict_loop cs (insert c.name c.value d)

-- What `merge_cookies` merges in.
pub data Merged : Type 0 where
  from_dict : Dict Text (Option Text) → Merged
  from_cookiejar : Jar → Merged

unfoldable pub merge_cookies : Jar → Merged → Jar
merge_cookies jar (from_dict items) = cookiejar_from_dict (some items) (some jar) false
merge_cookies jar (from_cookiejar other) = set_cookies (cookies other.store) jar

-- `absorb_set_cookie`: the jar afterwards and the fresh jar of what was received. `extracted` is what
-- cookielib reads from the lines, in order; with no lines it is empty.
unfoldable pub absorb_set_cookie : List Cookie → Jar → Jar × Jar
absorb_set_cookie extracted jar =
    let received = set_cookies extracted empty in
    (set_cookies (cookies received.store) jar, received)
