-- ===== src/Cookies/Store.antt =====
-- The store of `http.cookiejar.CookieJar`: cookies by domain, path and name, in insertion order at
-- each level. (Before Python 3.11 the iteration sorts each level.)
pub mod Laws
pub mod Validity
use mathlib.Core.List.{flat_map}
use chrome_client.Base.{
  ℕ, Option, none, some, List, [], ◌∷◌, ◌++◌, Bool, true, false, ◌==◌, if◌then◌else◌,
}
use chrome_client.Base.Dict.{Dict, lookup, insert, erase, values}
use chrome_client.Base.Text.{Text, text_eq}
use chrome_client.Cookies.Cookie.{Cookie}

abbrev pub Names : Type 0
Names = Dict Text Cookie

abbrev pub Paths : Type 0
Paths = Dict Text Names

abbrev pub Store : Type 0
Store = Dict Text Paths

abbrev pub or_empty {ℓ} : {V : Type ℓ} → Option (Dict Text V) → Dict Text V
or_empty none = []
or_empty (some d) = d

-- `self._cookies[domain][path][name]`
unfoldable pub find3 : Store → Text → Text → Text → Option Cookie
find3 s domain path name = lookup name (or_empty (lookup path (or_empty (lookup domain s))))

-- `CookieJar.set_cookie`
unfoldable pub put : Cookie → Store → Store
put c s =
    let paths = or_empty (lookup c.domain s) in
    let names = or_empty (lookup c.path paths) in
    insert c.domain (insert c.path (insert c.name c names) paths) s

-- `del self._cookies[domain][path][name]`; `none` is a `KeyError`.
unfoldable pub clear_name : Text → Text → Text → Store → Option Store
clear_name domain path name s = elim (lookup domain s) [
  | none ↦ none
  | some paths ↦ elim (lookup path paths) [
    | none ↦ none
    | some names ↦ elim (lookup name names) [
      | none ↦ none
      | some _ ↦ some (insert domain (insert path (erase name names) paths) s)
    ]
  ]
]

unfoldable pub clear_path : Text → Text → Store → Option Store
clear_path domain path s = elim (lookup domain s) [
  | none ↦ none
  | some paths ↦ elim (lookup path paths) [
    | none ↦ none
    | some _ ↦ some (insert domain (erase path paths) s)
  ]
]

unfoldable pub clear_domain : Text → Store → Option Store
clear_domain domain s = elim (lookup domain s) [ none ↦ none | some _ ↦ some (erase domain s) ]

-- `iter(jar)`
unfoldable pub in_paths : Paths → List Cookie
in_paths [] = []
in_paths ((_, names) ∷ paths) = values names ++ in_paths paths

unfoldable pub cookies : Store → List Cookie
unfolding in_paths
cookies [] = []
cookies ((_, paths) ∷ s) = in_paths paths ++ cookies s
