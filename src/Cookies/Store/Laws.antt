-- ===== src/Cookies/Store/Laws.antt =====
-- What a lookup by domain, path and name finds after each operation.
use chrome_client.Base.{◌≡◌, none, some, Bool, ◌&&◌, ◌==◌, if◌then◌else◌, arith}
use chrome_client.Base.Dict.{lookup, insert, erase, lookup-nil, lookup-insert, lookup-erase}
use chrome_client.Base.Text.{Text, text_eq}
use chrome_client.Cookies.Cookie.{Cookie}
use chrome_client.Cookies.Store.{Names, Store, or_empty, find3, put, clear_name}

-- A cookie is at the place of `domain`, `path` and `name`.
abbrev pub at_key : Text → Text → Text → Cookie → Bool
at_key domain path name c = c.domain == domain && c.path == path && c.name == name

-- A stored cookie replaces the one of its own place, and no other.
pub find3-put :
    (c : Cookie) (s : Store) (domain path name : Text)
    → find3 (put c s) domain path name
      ≡ (if at_key domain path name c then some c else find3 s domain path name)
unfolding find3 put
find3-put c s domain path name = ground (
  arith,
  lookup-insert domain c.domain
      (insert c.path (insert c.name c (or_empty (lookup c.path (or_empty (lookup c.domain s)))))
        (or_empty (lookup c.domain s)))
      s,
  lookup-insert path c.path
      (insert c.name c (or_empty (lookup c.path (or_empty (lookup c.domain s)))))
      (or_empty (lookup c.domain s)),
  lookup-insert name c.name c (or_empty (lookup c.path (or_empty (lookup c.domain s)))),
  lookup-nil {V = Cookie} name,
  lookup-nil {V = Names} path,
)

pub find3-clear_name :
    (s s' : Store) (d p n domain path name : Text)
    → clear_name d p n s ≡ some s'
    → find3 s' domain path name
      ≡ (if d == domain && p == path && n == name then none else find3 s domain path name)
unfolding find3 clear_name
find3-clear_name s s' d p n domain path name h = ground (
  arith,
  lookup-insert domain d
      (insert p (erase n (or_empty (lookup p (or_empty (lookup d s))))) (or_empty (lookup d s))) s,
  lookup-insert path p (erase n (or_empty (lookup p (or_empty (lookup d s)))))
      (or_empty (lookup d s)),
  lookup-erase name n (or_empty (lookup p (or_empty (lookup d s)))),
  lookup-nil {V = Cookie} name,
  lookup-nil {V = Names} path,
)

-- Clearing succeeds exactly where a cookie is.
pub clear_name-total :
    (s : Store) (d p n : Text) (c : Cookie)
    → find3 s d p n ≡ some c
    → (s' : Store) × (clear_name d p n s ≡ some s')
unfolding find3 clear_name
clear_name-total s d p n c h = (
  insert d
      (insert p (erase n (or_empty (lookup p (or_empty (lookup d s))))) (or_empty (lookup d s))) s,
  ground (arith, lookup-nil {V = Cookie} n, lookup-nil {V = Names} p),
)
