-- ===== src/Cookies/Reading/Laws.antt =====
-- What lookups by name answer, and what the listings contain.
use chrome_client.Base.{
  ◌+◌, ◌≡◌, refl, ◌∙◌, ap, Option, none, some, List, [], ◌∷◌, ◌++◌, map, Bool, false, ◌||◌,
  if◌then◌else◌, arith, keep, inl, inr, Bool-cases, contains,
}
use chrome_client.Base.Text.{Text, text_eq}
use chrome_client.Cookies.Cookie.{Cookie}
use chrome_client.Cookies.Store.{find3, put, cookies}
use chrome_client.Cookies.Store.Laws.{at_key, find3-put}
use chrome_client.Cookies.Store.Validity.{IsValid, put-IsValid, to_list, keep-cookies}
use chrome_client.Cookies.Jar.{
  Jar, key_error, conflict, Result, ok, err, selects, unquote, set_cookie,
}
use chrome_client.Cookies.Reading.{
  collect_new, list_domains, repeats_domain, multiple_domains, unique_value, find_no_duplicates,
}

-- The answer for the values of the selected cookies, in iteration order: a value that is missing
-- counts for nothing as long as no other was found.
abbrev pub verdict : List (Option Text) → Result Text
verdict [] = err key_error
verdict (none ∷ vs) = verdict vs
verdict (some v ∷ []) = ok v
verdict (some v ∷ (_ ∷ _)) = err conflict

abbrev pub value : Cookie → Option Text
value c = c.value

unique_value_found :
    (p : Cookie → Bool) (l : List Cookie) (v : Text)
    → unique_value p l (some v) ≡ verdict (some v ∷ map value (keep p l))
unfolding unique_value
unique_value_found p [] v = refl
unique_value_found p (c ∷ cs) v = ground (arith, unique_value_found p cs v)

taken :
    (p : Cookie → Bool) (l : List Cookie) (o : Option Text)
    → unique_value p l none ≡ verdict (map value (keep p l))
    → unique_value p l o ≡ verdict (o ∷ map value (keep p l))
taken p l none ih = ih
taken p l (some v) ih = unique_value_found p l v

unique_value-eq-verdict :
    (p : Cookie → Bool) (l : List Cookie) → unique_value p l none ≡ verdict (map value (keep p l))
unfolding unique_value
unique_value-eq-verdict p [] = refl
unique_value-eq-verdict p (c ∷ cs) =
    let ih = unique_value-eq-verdict p cs in ground (arith, ih, taken p cs c.value ih)

-- A lookup answers by the values of the cookies that its name and filters select: a `KeyError` for
-- none, the value if one has a value, and a conflict if another cookie follows one that has a value.
pub find_no_duplicates-eq-verdict :
    (name : Text) (domain path : Option Text) (jar : Jar)
    → find_no_duplicates name domain path jar
      ≡ verdict (map value (keep (selects name domain path) (cookies jar.store)))
unfolding find_no_duplicates
find_no_duplicates-eq-verdict name domain path jar = unique_value-eq-verdict _ (cookies jar.store)

selects-at_key :
    (d p n : Text) (l : List Cookie) → keep (selects n (some d) (some p)) l ≡ keep (at_key d p n) l
selects-at_key d p n [] = refl
selects-at_key d p n (c ∷ cs) = ground (arith, selects-at_key d p n cs)

-- With both filters a lookup answers by the one place that they name, and cannot conflict.
pub find_no_duplicates-place :
    (n d p : Text) (jar : Jar)
    → IsValid jar.store
    → find_no_duplicates n (some d) (some p) jar
      ≡ verdict (map value (to_list (find3 jar.store d p n)))
find_no_duplicates-place n d p jar v =
    find_no_duplicates-eq-verdict n (some d) (some p) jar
    ∙ ap (λ (l : List Cookie). verdict (map value l))
        (selects-at_key d p n (cookies jar.store) ∙ keep-cookies d p n jar.store v)

-- Setting a cookie keeps the store valid, raises the revision by one, and makes the value, without
-- its quotes, what a lookup of its place answers. Any other place answers as before.
pub find_no_duplicates-set_cookie :
    (c : Cookie) (jar : Jar) (n d p : Text)
    → IsValid jar.store
    → IsValid (set_cookie c jar).store
      × ((set_cookie c jar).revision ≡ jar.revision + 1)
      × (find_no_duplicates n (some d) (some p) (set_cookie c jar) ≡ (
          if at_key d p n c
          then verdict (unquote c.value ∷ [])
          else find_no_duplicates n (some d) (some p) jar))
unfolding set_cookie
find_no_duplicates-set_cookie c jar n d p v =
    let c' : Cookie = record c { value = unquote c.value } in
    let v' = put-IsValid c' jar.store v in
    (
      v',
      refl,
      ground (
        arith,
        find_no_duplicates-place n d p
            (record { store = put c' jar.store; revision = jar.revision + 1 }) v',
        find_no_duplicates-place n d p jar v,
        find3-put c' jar.store d p n,
      ),
    )

-- No element of the list occurs again behind it.
abbrev pub Once : List Text → Type 0
Once [] = Unit
Once (x ∷ xs) = (contains xs x ≡ false) × Once xs

contains-append :
    (xs ys : List Text) (a : Text) → contains (xs ++ ys) a ≡ (contains xs a || contains ys a)
contains-append [] ys a = refl
contains-append (x ∷ xs) ys a = ground (arith, contains-append xs ys a)

Once-concat : (xs : List Text) (a : Text) → Once xs → contains xs a ≡ false → Once (xs ++ a ∷ [])
Once-concat [] a o h = (refl, tt)
Once-concat (x ∷ xs) a (f, o) h = ground (arith, Once-concat xs a o, contains-append xs (a ∷ []) x)

contains-collect_new :
    (field : Cookie → Text) (cs : List Cookie) (found : List Text) (a : Text)
    → contains (collect_new field cs found) a ≡ (contains found a || contains (map field cs) a)
unfolding collect_new
contains-collect_new field [] found a = ground arith
contains-collect_new field (c ∷ cs) found a = ground (
  arith,
  contains-collect_new field cs found a,
  contains-collect_new field cs (found ++ field c ∷ []) a,
  contains-append found (field c ∷ []) a,
)

collect_new-Once :
    (field : Cookie → Text) (cs : List Cookie) (found : List Text)
    → Once found
    → Once (collect_new field cs found)
unfolding collect_new
collect_new-Once field [] found o = o
collect_new-Once field (c ∷ cs) found o = elim (Bool-cases (contains found (field c))) [
  | inl old ↦ rw old (collect_new-Once field cs found o)
  | inr new ↦ rw new (collect_new-Once field cs _ (Once-concat found (field c) o new))
]

-- The domains are listed once each, and they are the domains of the cookies.
pub list_domains_exact :
    (jar : Jar)
    → Once (list_domains jar)
      × ((d : Text)
          → contains (list_domains jar) d
            ≡ contains (map (λ (c : Cookie). c.domain) (cookies jar.store)) d)
unfolding list_domains
list_domains_exact jar = (
  collect_new-Once _ (cookies jar.store) [] tt,
  λ d. contains-collect_new _ (cookies jar.store) [] d,
)

abbrev pub repeated : List Text → Bool
repeated [] = false
repeated (x ∷ xs) = contains xs x || repeated xs

abbrev meets : List Text → List Text → Bool
meets seen [] = false
meets seen (x ∷ xs) = contains seen x || meets seen xs

meets-concat :
    (seen xs : List Text) (a : Text) → meets (seen ++ a ∷ []) xs ≡ (contains xs a || meets seen xs)
meets-concat seen [] a = refl
meets-concat seen (x ∷ xs) a =
    ground (arith, contains-append seen (a ∷ []) x, meets-concat seen xs a)

meets-nil : (xs : List Text) → meets [] xs ≡ false
meets-nil [] = refl
meets-nil (x ∷ xs) = meets-nil xs

repeats_domain-eq :
    (cs : List Cookie) (seen : List Text)
    → repeats_domain cs seen
      ≡ (let ds = map (λ (c : Cookie). c.domain) cs in meets seen ds || repeated ds)
unfolding repeats_domain
repeats_domain-eq [] seen = refl
repeats_domain-eq (c ∷ cs) seen = ground (
  arith,
  repeats_domain-eq cs (seen ++ c.domain ∷ []),
  meets-concat seen (map (λ (c : Cookie). c.domain) cs) c.domain,
)

-- `multiple_domains` tells whether some domain has two cookies; how many domains there are plays no
-- part.
pub multiple_domains-eq-repeated :
    (jar : Jar)
    → multiple_domains jar ≡ repeated (map (λ (c : Cookie). c.domain) (cookies jar.store))
unfolding multiple_domains
multiple_domains-eq-repeated jar =
    let ds = map (λ (c : Cookie). c.domain) (cookies jar.store) in
    repeats_domain-eq (cookies jar.store) [] ∙ ap (λ b. b || repeated ds) (meets-nil ds)
