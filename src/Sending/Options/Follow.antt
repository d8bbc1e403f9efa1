-- ===== src/Sending/Options/Follow.antt =====
-- Which redirects are followed, and by whom.
use chrome_client.Base.{ℕ, ◌≡◌, Option, none, some, Bool, true, false, ◌&&◌, ◌||◌, arith}
use mathlib.Core.Path.{subst}
use mathlib.Core.Option.{some-injective}
use chrome_client.Sending.Options.{
  Defaults, SendOptions, prepare_drive, or_default, redirect_defaults, with_session_defaults, Limit,
  with_limit, limit_default, fill_transport,
}

-- A call of `request()` has its redirects followed by exactly one of the Core and Python if they are
-- allowed, and by neither if not; the limit is the call's, or else the session's, but Python never
-- follows for a call that has no limit of its own, whatever limit the session has.
pub prepare_drive-exclusive :
    (s : Defaults) (allow : Option Bool) (limit : Option ℕ)
    → let d = prepare_drive s allow limit in
      ((d.native || d.python) ≡ or_default allow s.allow_redirects)
      × ((d.native && d.python) ≡ false)
      × ((prepare_drive s allow none).python ≡ false)
      × (d.limit ≡ or_default limit s.max_redirects)
unfolding prepare_drive
prepare_drive-exclusive s none none = ground arith
prepare_drive-exclusive s (some allow) none = ground arith
prepare_drive-exclusive s none (some limit) = ground arith
prepare_drive-exclusive s (some allow) (some limit) = ground arith

abbrev pub followed : SendOptions → Bool
followed o = or_default o.native_redirects false || or_default o.python_redirects false

redirect_defaults-followed :
    (s : Defaults) (o : SendOptions) → followed (redirect_defaults s none none o) ≡ true
unfolding redirect_defaults
redirect_defaults-followed s o = ground arith

with_limit-followed :
    (l : Option (Option Limit)) (o filled : SendOptions)
    → followed o ≡ true
    → with_limit l o ≡ some filled
    → followed filled ≡ true
with_limit-followed none o filled f h = cc
with_limit-followed (some limit) o filled f h =
    subst (λ q. followed q ≡ true) (some-injective _ _ h) f

-- A direct `send()` that says nothing of who follows has its redirects followed, whether the session
-- allows them or not.
pub with_session_defaults-followed :
    (s : Defaults) (o filled : SendOptions)
    → o.native_redirects ≡ none
    → o.python_redirects ≡ none
    → with_session_defaults s o ≡ some filled
    → followed filled ≡ true
unfolding with_session_defaults
with_session_defaults-followed s o filled n p h =
    with_limit-followed (limit_default s o.max_response_bytes) _ filled
      (redirect_defaults-followed s
        (record (fill_transport s o) { native_redirects = none; python_redirects = none }))
      (simp (n, p) at h)
