-- ===== src/Cookies/Jar/Expiry.antt =====
-- `clear_expired_cookies` and `clear_session_cookies`: what goes, and what happens to the revision.
use chrome_client.Base.{
  ℕ, ◌+◌, ◌≡◌, refl, ◌∙◌, none, some, List, [], ◌∷◌, inl, inr, Bool-cases, Bool, true, false,
  if◌then◌else◌, arith, keep, length, All,
}
use chrome_client.Base.Text.{Text, text_eq}
use chrome_client.Cookies.Cookie.{Cookie}
use chrome_client.Cookies.Store.{Store, find3, clear_name, cookies}
use chrome_client.Cookies.Store.Laws.{find3-clear_name, clear_name-total}
use chrome_client.Cookies.Store.Validity.{IsValid, clear_name-IsValid, keep-cookies}
use chrome_client.Cookies.Jar.{Jar, clear, clear_each, is_expired, clear_expired_cookies}
use chrome_client.Cookies.Jar.Removal.{
  Found, Distinct, iteration_facts, Found-clear, gone, gone-find3, without,
}

-- The jar after clearing the selected cookies of the list, one by one.
abbrev Cleared : (Cookie → Bool) → List Cookie → Jar → Type 0
Cleared p l jar =
    (jar' : Jar) × (clear_each p l jar ≡ (jar', none))
    × IsValid jar'.store
    × ((d q n : Text)
        → find3 jar'.store d q n ≡ (if gone p d q n l then none else find3 jar.store d q n))
    × (jar'.revision ≡ jar.revision + length (keep p l))

clear-place :
    (jar : Jar) (s : Store) (d q n : Text)
    → clear_name d q n jar.store ≡ some s
    → clear (some d) (some q) (some n) jar
      ≡ (record { store = s; revision = jar.revision + 1 }, none)
unfolding clear
clear-place jar s d q n e = rw (e, clear)

Cleared-skip :
    (p : Cookie → Bool) (c : Cookie) (l : List Cookie) (jar : Jar)
    → p c ≡ false
    → Cleared p l jar
    → Cleared p (c ∷ l) jar
unfolding clear_each
Cleared-skip p c l jar e (jar', run, v, look, count) =
    (jar', ground arith, v, λ d q n. ground (arith, look d q n), ground arith)

Cleared-clear :
    (p : Cookie → Bool) (c : Cookie) (l : List Cookie) (jar : Jar) (s : Store)
    → p c ≡ true
    → clear_name c.domain c.path c.name jar.store ≡ some s
    → Cleared p l (record { store = s; revision = jar.revision + 1 })
    → Cleared p (c ∷ l) jar
unfolding clear_each
Cleared-clear p c l jar s e cl (jar', run, v, look, count) = (
  jar',
  rw (e, clear-place jar s c.domain c.path c.name cl) run,
  v,
  λ d q n. ground (arith, look d q n, find3-clear_name jar.store s c.domain c.path c.name d q n cl),
  ground arith,
)

clear_each-total :
    (p : Cookie → Bool) (l : List Cookie) (jar : Jar)
    → IsValid jar.store
    → All (Found jar.store) l
    → Distinct l
    → Cleared p l jar
unfolding clear_each
clear_each-total p [] jar v f d = (jar, refl, v, λ d q n. refl, omega arith)
clear_each-total p (c ∷ l) jar v (fc, f) (k, d) = elim (Bool-cases (p c)) [
  | inl picked ↦
      let (s, cl) = clear_name-total jar.store c.domain c.path c.name c fc in
      Cleared-clear p c l jar s picked cl (
        clear_each-total p l (record { store = s; revision = jar.revision + 1 })
          (clear_name-IsValid c.domain c.path c.name jar.store s cl v)
          (Found-clear jar.store s c l cl k f) d)
  | inr kept ↦ Cleared-skip p c l jar kept (clear_each-total p l jar v f d)
]

-- On a valid jar the removal of expired cookies succeeds and takes out exactly those whose time has
-- come, but it raises the revision once for each of them.
pub clear_expired_cookies-total :
    (now : ℕ) (jar : Jar)
    → IsValid jar.store
    → (jar' : Jar) × (clear_expired_cookies now jar ≡ (jar', none))
      × IsValid jar'.store
      × ((d q n : Text) → find3 jar'.store d q n ≡ without (is_expired now) (find3 jar.store d q n))
      × (jar'.revision ≡ jar.revision + length (keep (is_expired now) (cookies jar.store)))
unfolding clear_expired_cookies
clear_expired_cookies-total now jar v =
    let p : Cookie → Bool = is_expired now in
    let (f, d) =
      iteration_facts jar.store [] (cookies jar.store) (λ d q n. keep-cookies d q n jar.store v) in
    let (jar', run, v', look, count) = clear_each-total p (cookies jar.store) jar v f d in
    (jar', run, v', λ d q n. look d q n ∙ gone-find3 p jar.store d q n v, count)
