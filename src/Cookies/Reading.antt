-- ===== src/Cookies/Reading.antt =====
-- The reading half of `RequestsCookieJar`. `iter(jar)` is the list of its cookies.
pub mod Laws
use chrome_client.Base.{
  Option, none, some, List, [], ◌∷◌, ◌++◌, map, Bool, true, false, ◌==◌, ◌&&◌, contains,
  if◌then◌else◌, keep,
}
use chrome_client.Base.Dict.{Dict, insert}
use chrome_client.Base.Text.{Text, text_eq}
use chrome_client.Cookies.Cookie.{Cookie}
use chrome_client.Cookies.Store.{cookies}
use chrome_client.Cookies.Jar.{Jar, Error, key_error, conflict, Result, ok, err, selects, allows}

unfoldable pub keys : Jar → List Text
keys jar = map (λ (c : Cookie). c.name) (cookies jar.store)

unfoldable pub values : Jar → List (Option Text)
values jar = map (λ (c : Cookie). c.value) (cookies jar.store)

unfoldable pub items : Jar → List (Text × Option Text)
items jar = map (λ (c : Cookie). (c.name, c.value)) (cookies jar.store)

-- The loop of `list_domains` and `list_paths`.
unfoldable pub collect_new : (Cookie → Text) → List Cookie → List Text → List Text
collect_new field [] found = found
collect_new field (c ∷ cs) found =
    collect_new field cs (if contains found (field c) then found else found ++ field c ∷ [])

unfoldable pub list_domains : Jar → List Text
list_domains jar = collect_new (λ c. c.domain) (cookies jar.store) []

unfoldable pub list_paths : Jar → List Text
list_paths jar = collect_new (λ c. c.path) (cookies jar.store) []

-- The loop of `multiple_domains`.
unfoldable pub repeats_domain : List Cookie → List Text → Bool
repeats_domain [] seen = false
repeats_domain (c ∷ cs) seen =
    let rest = repeats_domain cs (seen ++ c.domain ∷ []) in
    if contains seen c.domain then true else rest

unfoldable pub multiple_domains : Jar → Bool
multiple_domains jar = repeats_domain (cookies jar.store) []

dict_loop :
    Option Text → Option Text → List Cookie → Dict Text (Option Text) → Dict Text (Option Text)
dict_loop domain path [] result = result
dict_loop domain path (c ∷ cs) result =
    dict_loop domain path cs (
      if allows domain c.domain && allows path c.path then insert c.name c.value result else result)

unfoldable pub get_dict : Option Text → Option Text → Jar → Dict Text (Option Text)
unfolding dict_loop
get_dict domain path jar = dict_loop domain path (cookies jar.store) []

unfoldable pub first_value : (Cookie → Bool) → List Cookie → Result (Option Text)
first_value p [] = err key_error
first_value p (c ∷ cs) = let rest = first_value p cs in if p c then ok c.value else rest

-- `_find`
unfoldable pub find : Text → Option Text → Option Text → Jar → Result (Option Text)
find name domain path jar = first_value (selects name domain path) (cookies jar.store)

-- The loop of `_find_no_duplicates`, with the value found so far.
unfoldable pub unique_value : (Cookie → Bool) → List Cookie → Option Text → Result Text
unique_value p [] none = err key_error
unique_value p [] (some v) = ok v
unique_value p (c ∷ cs) found =
    let skipped = unique_value p cs found in
    let taken = unique_value p cs c.value in
    if p c then elim found [ none ↦ taken | some _ ↦ err conflict ] else skipped

unfoldable pub find_no_duplicates : Text → Option Text → Option Text → Jar → Result Text
find_no_duplicates name domain path jar =
    unique_value (selects name domain path) (cookies jar.store) none

unfoldable pub get_item : Text → Jar → Result Text
get_item name jar = find_no_duplicates name none none jar

-- `name in jar`: only a `KeyError` is caught.
unfoldable pub contains_name : Text → Jar → Result Bool
contains_name name jar = elim (get_item name jar) [
  | ok _ ↦ ok true
  | err e ↦ elim e [ Error.key_error ↦ ok false | other ↦ err other ]
]

-- `jar.get(name, default, domain, path)`
unfoldable pub get : Text → Option Text → Option Text → Option Text → Jar → Result (Option Text)
get name default domain path jar = elim (find_no_duplicates name domain path jar) [
  | ok v ↦ ok (some v)
  | err e ↦ elim e [ Error.key_error ↦ ok default | other ↦ err other ]
]
