-- ===== src/Cookies/Merging/Laws.antt =====
-- A copy answers like its jar, merging a dict overrides no name, and what is absorbed is found.
use mathlib.Core.Option
use chrome_client.Base.{
  ◌≡◌, refl, ◌∙◌, ap, Option, none, some, List, [], ◌∷◌, Bool, true, false, not, ◌&&◌, ◌==◌,
  if◌then◌else◌, arith, keep, contains,
}
use chrome_client.Base.Dict.{Dict, lookup, NodupKeys, lookup-nil, lookup-cons}
use chrome_client.Base.Text.{Text, codes, text_eq}
use chrome_client.Cookies.Cookie.{Cookie, with_defaults, derived}
use chrome_client.Cookies.Store.{Names, Paths, find3, cookies}
use chrome_client.Cookies.Store.Laws.{at_key, find3-put}
use chrome_client.Cookies.Store.Validity.{IsValid, put-IsValid, to_list, keep-cookies}
use chrome_client.Cookies.Jar.{Jar, empty, unquote, set_cookie}
use chrome_client.Cookies.Merging.{
  set_cookies, copy, absorb_set_cookie, set_missing, plain_cookie, merge_cookies, from_dict,
  cookiejar_from_dict,
}
use chrome_client.Cookies.Reading.{keys}
use chrome_client.Cookies.Jar.Quotes.{unquote_idem}

abbrev pub unquoted : Cookie → Cookie
unquoted c = record c { value = unquote c.value }

-- The last cookie of the list at a place, without its quotes, or what was there before.
abbrev pub last_at : Text → Text → Text → List Cookie → Option Cookie → Option Cookie
last_at d p n [] old = old
last_at d p n (c ∷ cs) old = last_at d p n cs (if at_key d p n c then some (unquoted c) else old)

pub set_cookies-IsValid :
    (cs : List Cookie) (jar : Jar) → IsValid jar.store → IsValid (set_cookies cs jar).store
unfolding set_cookies set_cookie
set_cookies-IsValid [] jar v = v
set_cookies-IsValid (c ∷ cs) jar v =
    set_cookies-IsValid cs (set_cookie c jar) (put-IsValid (unquoted c) jar.store v)

find3-set_cookies :
    (cs : List Cookie) (jar : Jar) (d p n : Text)
    → find3 (set_cookies cs jar).store d p n ≡ last_at d p n cs (find3 jar.store d p n)
unfolding set_cookies set_cookie
find3-set_cookies [] jar d p n = refl
find3-set_cookies (c ∷ cs) jar d p n =
    find3-set_cookies cs (set_cookie c jar) d p n
    ∙ ap (last_at d p n cs) (find3-put (unquoted c) jar.store d p n)

abbrev last_of : List Cookie → Option Cookie → Option Cookie
last_of [] old = old
last_of (c ∷ cs) old = last_of cs (some (unquoted c))

last_at-keep :
    (d p n : Text) (cs : List Cookie) (old : Option Cookie)
    → last_at d p n cs old ≡ last_of (keep (at_key d p n) cs) old
last_at-keep d p n [] old = refl
last_at-keep d p n (c ∷ cs) old =
    ground (arith, last_at-keep d p n cs old, last_at-keep d p n cs (some (unquoted c)))

-- The cookie of another jar, without its quotes, or what was there.
abbrev pub prefer : Option Cookie → Option Cookie → Option Cookie
prefer none old = old
prefer (some c) old = some (record c { value = unquote c.value })

last_of-to_list : (o old : Option Cookie) → last_of (to_list o) old ≡ prefer o old
last_of-to_list none old = refl
last_of-to_list (some c) old = refl

-- Merging the cookies of a valid jar: each of its places overrides, every other place stays.
pub find3-set_cookies_of :
    (other jar : Jar) (d p n : Text)
    → IsValid other.store
    → find3 (set_cookies (cookies other.store) jar).store d p n
      ≡ prefer (find3 other.store d p n) (find3 jar.store d p n)
find3-set_cookies_of other jar d p n v =
    let old = find3 jar.store d p n in
    find3-set_cookies (cookies other.store) jar d p n
    ∙ last_at-keep d p n (cookies other.store) old
    ∙ ap (λ (l : List Cookie). last_of l old) (keep-cookies d p n other.store v)
    ∙ last_of-to_list (find3 other.store d p n) old

-- No stored value still has the quotes that `set_cookie` takes off.
pub record IsClean (jar : Jar) : Type 0 where
  pub valid : IsValid jar.store
  pub clean :
      (d p n : Text) (c : Cookie) → find3 jar.store d p n ≡ some c → unquote c.value ≡ c.value

pub set_cookie-IsClean : (c : Cookie) (jar : Jar) → IsClean jar → IsClean (set_cookie c jar)
unfolding set_cookie
set_cookie-IsClean c jar h = record {
  valid = put-IsValid (unquoted c) jar.store h.valid;
  clean = λ d p n b e.
      ground (arith, find3-put (unquoted c) jar.store d p n, h.clean d p n b, unquote_idem c.value);
}

pub set_cookies-IsClean :
    (cs : List Cookie) (jar : Jar) → IsClean jar → IsClean (set_cookies cs jar)
unfolding set_cookies
set_cookies-IsClean [] jar h = h
set_cookies-IsClean (c ∷ cs) jar h = set_cookies-IsClean cs _ (set_cookie-IsClean c jar h)

find3-nil : (d p n : Text) → find3 [] d p n ≡ none
unfolding find3
find3-nil d p n =
    ground (arith, lookup-nil {V = Paths} d, lookup-nil {V = Names} p, lookup-nil {V = Cookie} n)

pub empty-IsClean : IsClean empty
empty-IsClean = record {
  valid = record { fit = tt; nodup = tt };
  clean = λ d p n c e. ground (arith, find3-nil d p n);
}

unquoted_clean : (c : Cookie) → unquote c.value ≡ c.value → unquoted c ≡ c
unquoted_clean c e = ap (λ v. record c { value = v }) e

-- A copy is clean and has the same cookie, or none, at every place.
pub find3-copy :
    (jar : Jar)
    → IsClean jar
    → IsClean (copy jar) × ((d p n : Text) → find3 (copy jar).store d p n ≡ find3 jar.store d p n)
unfolding copy
find3-copy jar h = (
  set_cookies-IsClean (cookies jar.store) empty empty-IsClean,
  λ d p n. find3-set_cookies_of jar empty d p n h.valid ∙ same d p n (find3 jar.store d p n) refl,
)
  where
    same :
        (d p n : Text) (o : Option Cookie)
        → find3 jar.store d p n ≡ o
        → prefer (find3 jar.store d p n) (find3 empty.store d p n) ≡ find3 jar.store d p n
    same d p n none e = rw e (find3-nil d p n)
    same d p n (some c) e = rw e (ap some (unquoted_clean c (h.clean d p n c e)))

unquoted_idem : (c : Cookie) → unquoted (unquoted c) ≡ unquoted c
unquoted_idem c = unquoted_clean (unquoted c) (unquote_idem c.value)

prefer-last_at :
    (d p n : Text) (cs : List Cookie) (o old cur : Option Cookie)
    → prefer o old ≡ cur
    → prefer (last_at d p n cs o) old ≡ last_at d p n cs cur
prefer-last_at d p n [] o old cur h = h
prefer-last_at d p n (c ∷ cs) o old cur h = prefer-last_at d p n cs _ old _ (step (at_key d p n c))
  where
    step :
        (b : Bool)
        → prefer (if b then some (unquoted c) else o) old ≡ (if b then some (unquoted c) else cur)
    step true = ap some (unquoted_idem c)
    step false = h

-- Absorbing cookies leaves at each place the last one that was extracted for it, without its quotes,
-- or what was there.
pub find3-absorb_set_cookie :
    (extracted : List Cookie) (jar : Jar) (d p n : Text)
    → find3 (absorb_set_cookie extracted jar).0.store d p n
      ≡ last_at d p n extracted (find3 jar.store d p n)
unfolding absorb_set_cookie
find3-absorb_set_cookie extracted jar d p n =
    let received : Jar = set_cookies extracted empty in
    let old = find3 jar.store d p n in
    find3-set_cookies_of received jar d p n
      (set_cookies-IsClean extracted empty empty-IsClean).valid
    ∙ ap (λ o. prefer o old) (find3-set_cookies extracted empty d p n)
    ∙ prefer-last_at d p n extracted (find3 empty.store d p n) old old
        (ap (λ o. prefer o old) (find3-nil d p n))

-- What a dict puts at a place: cookies of no domain under the root path, for names that are not kept.
abbrev pub from_items :
    List Text → Text → Text → Text → Dict Text (Option Text) → Option Cookie → Option Cookie
from_items kept d p n items old =
    if [] == d && codes "/" == p && not (contains kept n)
    then prefer (Option.map (plain_cookie n) (lookup n items)) old
    else old

find3-set_plain :
    (name : Text) (value : Option Text) (jar : Jar) (d p n : Text)
    → find3 (set_cookie (plain_cookie name value) jar).store d p n ≡ (
        if [] == d && codes "/" == p && name == n
        then some (unquoted (plain_cookie name value))
        else find3 jar.store d p n)
unfolding set_cookie plain_cookie with_defaults derived
find3-set_plain name value jar d p n =
    find3-put (unquoted (plain_cookie name value)) jar.store d p n

find3-set_missing :
    (kept : List Text) (items : Dict Text (Option Text)) (jar : Jar) (d p n : Text)
    → NodupKeys items
    → find3 (set_missing kept items jar).store d p n
      ≡ from_items kept d p n items (find3 jar.store d p n)
unfolding set_missing
find3-set_missing kept [] jar d p n u = rw lookup-nil (ground arith)
find3-set_missing kept ((name, value) ∷ items) jar d p n (fresh, u) = ground (
  arith,
  find3-set_missing kept items jar d p n u,
  find3-set_missing kept items (set_cookie (plain_cookie name value) jar) d p n u,
  find3-set_plain name value jar d p n,
  lookup-cons n name value items,
)

-- Merging a dict adds, for each name that the jar has no cookie of, one of no domain under the root
-- path; every other place stays, all those of the jar's own names among them.
pub find3-merge_cookies :
    (jar : Jar) (items : Dict Text (Option Text)) (d p n : Text)
    → NodupKeys items
    → find3 (merge_cookies jar (from_dict items)).store d p n
      ≡ from_items (keys jar) d p n items (find3 jar.store d p n)
unfolding merge_cookies cookiejar_from_dict
find3-merge_cookies jar items d p n u = find3-set_missing (keys jar) items jar d p n u
