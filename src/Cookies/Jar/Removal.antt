-- ===== src/Cookies/Jar/Removal.antt =====
-- Removal by name takes out exactly the selected cookies, and cannot fail on a valid store.
use mathlib.Core.List.{append_assoc}
use chrome_client.Base.{
  ◌+◌, ◌≡◌, refl, sym, ◌∙◌, ap, Option, none, some, List, [], ◌∷◌, ◌++◌, inl, inr, Bool-cases, Bool,
  true, false, ◌&&◌, ◌||◌, if◌then◌else◌, arith, keep, keep-append, All,
}
use chrome_client.Base.Text.{Text, text_eq}
use chrome_client.Cookies.Cookie.{Cookie}
use chrome_client.Cookies.Store.{Store, find3, clear_name, cookies}
use chrome_client.Cookies.Store.Laws.{at_key, find3-clear_name, clear_name-total}
use chrome_client.Cookies.Store.Validity.{IsValid, clear_name-IsValid, to_list, keep-cookies}
use chrome_client.Cookies.Jar.{Jar, remove_selected, remove_cookie_by_name, selects}

abbrev pub Found : Store → Cookie → Type 0
Found s c = find3 s c.domain c.path c.name ≡ some c

-- No later cookie has the place of an earlier one.
abbrev pub Distinct : List Cookie → Type 0
Distinct [] = Unit
Distinct (c ∷ cs) = (keep (at_key c.domain c.path c.name) cs ≡ []) × Distinct cs

singleton_split {ℓ} :
    {A : Type ℓ} (xs : List A) (a : A) (ys : List A) (o : Option A)
    → xs ++ a ∷ ys ≡ to_list o
    → (o ≡ some a) × (ys ≡ [])
singleton_split [] a ys none h = cc
singleton_split [] a ys (some b) h = ground arith
singleton_split (x ∷ xs) a ys none h = cc
singleton_split (x ∷ []) a ys (some b) h = cc
singleton_split (x ∷ (y ∷ xs)) a ys (some b) h = cc

keep_self :
    (c : Cookie) (cs : List Cookie)
    → keep (at_key c.domain c.path c.name) (c ∷ cs) ≡ c ∷ keep (at_key c.domain c.path c.name) cs
keep_self c cs = ground arith

split_at :
    (s : Store) (before : List Cookie) (c : Cookie) (cs : List Cookie)
    → ((d p n : Text) → keep (at_key d p n) (before ++ c ∷ cs) ≡ to_list (find3 s d p n))
    → Found s c × (keep (at_key c.domain c.path c.name) cs ≡ [])
split_at s before c cs h =
    singleton_split (keep (at_key c.domain c.path c.name) before) c _
      (find3 s c.domain c.path c.name)
      (ap (λ (l : List Cookie). keep (at_key c.domain c.path c.name) before ++ l)
          (sym (keep_self c cs))
        ∙ sym (keep-append _ before (c ∷ cs))
        ∙ h c.domain c.path c.name)

-- What the iteration of a valid store gives: cookies that are found at their places, each once.
pub iteration_facts :
    (s : Store) (before l : List Cookie)
    → ((d p n : Text) → keep (at_key d p n) (before ++ l) ≡ to_list (find3 s d p n))
    → All (Found s) l × Distinct l
iteration_facts s before [] h = (tt, tt)
iteration_facts s before (c ∷ cs) h =
    let here = split_at s before c cs h in
    let rest =
      iteration_facts s (before ++ c ∷ []) cs
        (λ d p n. ap (keep (at_key d p n)) (append_assoc before (c ∷ []) cs) ∙ h d p n) in
    ((here.0, rest.0), (here.1, rest.1))

-- Some selected cookie of the list has this place.
abbrev pub gone : (Cookie → Bool) → Text → Text → Text → List Cookie → Bool
gone p domain path name [] = false
gone p domain path name (c ∷ cs) = (p c && at_key domain path name c) || gone p domain path name cs

abbrev pub any : (Cookie → Bool) → List Cookie → Bool
any p [] = false
any p (c ∷ cs) = p c || any p cs

gone-keep :
    (p : Cookie → Bool) (d q n : Text) (l : List Cookie)
    → gone p d q n l ≡ any p (keep (at_key d q n) l)
gone-keep p d q n [] = refl
gone-keep p d q n (c ∷ cs) = ground (arith, gone-keep p d q n cs)

-- Clearing one cookie leaves the others of the list where they are.
pub Found-clear :
    (s s' : Store) (c : Cookie) (cs : List Cookie)
    → clear_name c.domain c.path c.name s ≡ some s'
    → keep (at_key c.domain c.path c.name) cs ≡ []
    → All (Found s) cs
    → All (Found s') cs
Found-clear s s' c [] e k h = tt
Found-clear s s' c (b ∷ cs) e k (f, h) = (
  ground (arith, find3-clear_name s s' c.domain c.path c.name b.domain b.path b.name e),
  Found-clear s s' c cs e (ground arith) h,
)

abbrev Removed : (Cookie → Bool) → List Cookie → Store → Bool → Type 0
Removed p l s r =
    (s' : Store) × (remove_selected p l (s, r) ≡ some (s', r || any p l))
    × IsValid s'
    × ((d q n : Text) → find3 s' d q n ≡ (if gone p d q n l then none else find3 s d q n))

Removed-skip :
    (p : Cookie → Bool) (c : Cookie) (l : List Cookie) (s : Store) (r : Bool)
    → p c ≡ false
    → Removed p l s r
    → Removed p (c ∷ l) s r
unfolding remove_selected
Removed-skip p c l s r e (s', run, v, look) =
    (s', ground arith, v, λ d q n. ground (arith, look d q n))

Removed-clear :
    (p : Cookie → Bool) (c : Cookie) (l : List Cookie) (s s1 : Store) (r : Bool)
    → p c ≡ true
    → clear_name c.domain c.path c.name s ≡ some s1
    → Removed p l s1 true
    → Removed p (c ∷ l) s r
unfolding remove_selected
Removed-clear p c l s s1 r e cl (s', run, v, look) = (
  s',
  ground arith,
  v,
  λ d q n. ground (arith, look d q n, find3-clear_name s s1 c.domain c.path c.name d q n cl),
)

remove_selected-total :
    (p : Cookie → Bool) (l : List Cookie) (s : Store) (r : Bool)
    → IsValid s
    → All (Found s) l
    → Distinct l
    → Removed p l s r
unfolding remove_selected
remove_selected-total p [] s r v f d = (s, ground arith, v, λ d q n. refl)
remove_selected-total p (c ∷ l) s r v (fc, f) (k, d) = elim (Bool-cases (p c)) [
  | inl yes' ↦
      let (s1, cl) = clear_name-total s c.domain c.path c.name c fc in
      Removed-clear p c l s s1 r yes' cl (
        remove_selected-total p l s1 true (clear_name-IsValid c.domain c.path c.name s s1 cl v)
          (Found-clear s s1 c l cl k f) d)
  | inr no' ↦ Removed-skip p c l s r no' (remove_selected-total p l s r v f d)
]

-- The entry of a place after the removal: gone if it was selected.
abbrev pub without : (Cookie → Bool) → Option Cookie → Option Cookie
without p none = none
without p (some c) = if p c then none else some c

abbrev pub some_selected : (Cookie → Bool) → List Cookie → Bool
some_selected p l = any p l

pub gone-find3 :
    (p : Cookie → Bool) (s : Store) (d q n : Text)
    → IsValid s
    → (if gone p d q n (cookies s) then none else find3 s d q n) ≡ without p (find3 s d q n)
gone-find3 p s d q n v = ground (arith, gone-keep p d q n (cookies s), keep-cookies d q n s v)

-- On a jar with a valid store, removal by name succeeds. Each place keeps its cookie exactly if the
-- name and the filters do not select it, and the result and the revision tell whether any was.
pub remove_cookie_by_name-total :
    (name : Text) (domain path : Option Text) (jar : Jar)
    → IsValid jar.store
    → (jar' : Jar) × (remove_cookie_by_name name domain path jar
        ≡ some (jar', some_selected (selects name domain path) (cookies jar.store)))
      × IsValid jar'.store
      × ((d q n : Text)
          → find3 jar'.store d q n ≡ without (selects name domain path) (find3 jar.store d q n))
      × (jar'.revision ≡ (
          if some_selected (selects name domain path) (cookies jar.store)
          then jar.revision + 1
          else jar.revision))
unfolding remove_cookie_by_name
remove_cookie_by_name-total name domain path jar v =
    let p : Cookie → Bool = selects name domain path in
    let (f, d) =
      iteration_facts jar.store [] (cookies jar.store) (λ d q n. keep-cookies d q n jar.store v) in
    let (s', run, v', look) = remove_selected-total p (cookies jar.store) jar.store false v f d in
    (
      record {
        store = s';
        revision = if some_selected p (cookies jar.store) then jar.revision + 1 else jar.revision;
      },
      rw (run, remove_cookie_by_name),
      v',
      λ d q n. look d q n ∙ gone-find3 p jar.store d q n v,
      refl,
    )
