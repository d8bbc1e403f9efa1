-- ===== src/Cookies/Store/Validity.antt =====
-- Each cookie stands where its own domain, path and name say, and each key is there once.
use mathlib.Core.List.{append-nil}
use chrome_client.Base.{
  ◌≡◌, refl, ◌∙◌, Option, none, some, List, [], ◌∷◌, ◌&&◌, ◌==◌, if◌then◌else◌, arith, keep,
  keep-append,
}
use chrome_client.Base.Dict.{
  lookup, insert, erase, values, NodupKeys, insert-NodupKeys, erase-NodupKeys,
}
use chrome_client.Base.Text.{Text, text_eq}
use chrome_client.Cookies.Cookie.{Cookie}
use chrome_client.Cookies.Store.{
  Names, Paths, Store, or_empty, find3, put, clear_name, in_paths, cookies,
}
use chrome_client.Cookies.Store.Laws.{at_key}

abbrev pub FitNames : Text → Text → Names → Type 0
FitNames d p [] = Unit
FitNames d p ((n, c) ∷ ns) = (c.domain ≡ d) × (c.path ≡ p) × (c.name ≡ n) × FitNames d p ns

abbrev pub FitPaths : Text → Paths → Type 0
FitPaths d [] = Unit
FitPaths d ((p, ns) ∷ ps) = FitNames d p ns × NodupKeys ns × FitPaths d ps

abbrev pub FitStore : Store → Type 0
FitStore [] = Unit
FitStore ((d, ps) ∷ s) = FitPaths d ps × NodupKeys ps × FitStore s

pub record IsValid (s : Store) : Type 0 where
  pub fit : FitStore s
  pub nodup : NodupKeys s

FitNames-insert :
    (c : Cookie) (ns : Names)
    → FitNames c.domain c.path ns
    → FitNames c.domain c.path (insert c.name c ns)
unfolding insert
FitNames-insert c [] h = (refl, refl, refl, tt)
FitNames-insert c ((n, b) ∷ ns) (x, y, z, h) = ground (arith, FitNames-insert c ns h)

FitNames-erase : (d p n : Text) (ns : Names) → FitNames d p ns → FitNames d p (erase n ns)
unfolding erase
FitNames-erase d p n [] h = tt
FitNames-erase d p n ((m, b) ∷ ns) (x, y, z, h) = ground (arith, FitNames-erase d p n ns h)

FitPaths-insert :
    (d p : Text) (ns : Names) (ps : Paths)
    → FitNames d p ns
    → NodupKeys ns
    → FitPaths d ps
    → FitPaths d (insert p ns ps)
unfolding insert
FitPaths-insert d p ns [] f u h = (f, u, tt)
FitPaths-insert d p ns ((q, ms) ∷ ps) f u (x, y, h) =
    ground (arith, FitPaths-insert d p ns ps f u h)

FitStore-insert :
    (d : Text) (ps : Paths) (s : Store)
    → FitPaths d ps
    → NodupKeys ps
    → FitStore s
    → FitStore (insert d ps s)
unfolding insert
FitStore-insert d ps [] f u h = (f, u, tt)
FitStore-insert d ps ((e, qs) ∷ s) f u (x, y, h) = ground (arith, FitStore-insert d ps s f u h)

names_at :
    (d p : Text) (ps : Paths)
    → FitPaths d ps
    → FitNames d p (or_empty (lookup p ps)) × NodupKeys (or_empty (lookup p ps))
unfolding lookup
names_at d p [] h = (tt, tt)
names_at d p ((q, ns) ∷ ps) (f, u, h) = ground (arith, names_at d p ps h)

paths_at :
    (d : Text) (s : Store)
    → FitStore s
    → FitPaths d (or_empty (lookup d s)) × NodupKeys (or_empty (lookup d s))
unfolding lookup
paths_at d [] h = (tt, tt)
paths_at d ((e, ps) ∷ s) (f, u, h) = ground (arith, paths_at d s h)

pub put-IsValid : (c : Cookie) (s : Store) → IsValid s → IsValid (put c s)
unfolding put
put-IsValid c s v =
    let (fp, up) = paths_at c.domain s v.fit in
    let (fn, un) = names_at c.domain c.path _ fp in
    record {
      fit =
          FitStore-insert c.domain _ s
            (FitPaths-insert c.domain c.path _ _ (FitNames-insert c _ fn)
              (insert-NodupKeys c.name c _ un) fp)
            (insert-NodupKeys c.path _ _ up) v.fit;
      nodup = insert-NodupKeys c.domain _ s v.nodup;
    }

pub clear_name-IsValid :
    (d p n : Text) (s s' : Store) → clear_name d p n s ≡ some s' → IsValid s → IsValid s'
unfolding clear_name
clear_name-IsValid d p n s s' e v =
    let fp : FitPaths d (or_empty (lookup d s)) = (paths_at d s v.fit).0 in
    let up : NodupKeys (or_empty (lookup d s)) = (paths_at d s v.fit).1 in
    let at = names_at d p (or_empty (lookup d s)) fp in
    let ps : Paths =
      insert p (erase n (or_empty (lookup p (or_empty (lookup d s))))) (or_empty (lookup d s)) in
    let eq : insert d ps s ≡ s' = ground arith in
    rw (← eq) (record {
      fit =
          FitStore-insert d ps s
            (FitPaths-insert d p _ _ (FitNames-erase d p n _ at.0) (erase-NodupKeys n _ at.1) fp)
            (insert-NodupKeys p _ _ up) v.fit;
      nodup = insert-NodupKeys d ps s v.nodup;
    })

abbrev pub to_list {ℓ} : {A : Type ℓ} → Option A → List A
to_list none = []
to_list (some a) = a ∷ []

keep-names :
    (d p n d' p' : Text) (ns : Names)
    → FitNames d' p' ns
    → NodupKeys ns
    → keep (at_key d p n) (values ns) ≡ (if d' == d && p' == p then to_list (lookup n ns) else [])
unfolding lookup
keep-names d p n d' p' [] h u = ground arith
keep-names d p n d' p' ((m, c) ∷ ns) (x, y, z, h) (fresh, u) =
    ground (arith, keep-names d p n d' p' ns h u)

keep-in_paths :
    (d p n d' : Text) (ps : Paths)
    → FitPaths d' ps
    → NodupKeys ps
    → keep (at_key d p n) (in_paths ps)
      ≡ (if d' == d then to_list (lookup n (or_empty (lookup p ps))) else [])
unfolding lookup in_paths
keep-in_paths d p n d' [] h u = ground arith
keep-in_paths d p n d' ((q, ns) ∷ ps) (f, v, h) (fresh, u) =
    keep-append (at_key d p n) (values ns) (in_paths ps)
    ∙ ground (
      arith,
      keep-names d p n d' q ns f v,
      keep-in_paths d p n d' ps h u,
      append-nil (to_list (lookup n ns)),
    )

keep_fit :
    (d p n : Text) (s : Store)
    → FitStore s
    → NodupKeys s
    → keep (at_key d p n) (cookies s) ≡ to_list (find3 s d p n)
unfolding lookup find3 cookies
keep_fit d p n [] f u = refl
keep_fit d p n ((e, ps) ∷ s) (f, w, h) (fresh, u) =
    keep-append (at_key d p n) (in_paths ps) (cookies s)
    ∙ ground (
      arith,
      keep-in_paths d p n e ps f w,
      keep_fit d p n s h u,
      append-nil (to_list (lookup n (or_empty (lookup p ps)))),
    )

-- The iteration meets exactly one cookie at a place that holds one, and none at any other.
pub keep-cookies :
    (d p n : Text) (s : Store)
    → IsValid s
    → keep (at_key d p n) (cookies s) ≡ to_list (find3 s d p n)
keep-cookies d p n s v = keep_fit d p n s v.fit v.nodup
