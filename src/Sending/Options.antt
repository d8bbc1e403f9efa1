-- ===== src/Sending/Options.antt =====
-- Who follows redirects: the part of `_prepare_call` that decides it for `request()`, and
-- `_with_session_defaults` for a direct `send()`. Of the options the ones are kept that these read and
-- write; an option that is missing is `none`, and `max_redirects` may be there and be `None`.
pub mod Follow
use chrome_client.Base.{ℕ, Option, none, some, Bool, true, false, not, ◌&&◌, ◌||◌, ltb}

-- `DEFAULT_REDIRECT_LIMIT`
abbrev pub default_redirect_limit : ℕ
default_redirect_limit = 30

pub record Defaults : Type 0 where
  pub allow_redirects : Bool
  pub max_redirects : ℕ
  pub max_response_bytes : Option ℕ
  pub timeout : Option ℕ
  pub stream : Bool

-- `_drive_redirects_in_python`
unfoldable pub drive_redirects_in_python : Option ℕ → Bool → Bool
drive_redirects_in_python none allow = false
drive_redirects_in_python (some limit) allow = allow && ltb limit default_redirect_limit

abbrev pub or_default {ℓ} : {A : Type ℓ} → Option A → A → A
or_default none d = d
or_default (some v) d = v

-- What a call decides: whether the Core follows, whether Python does, and the limit.
pub record Drive : Type 0 where
  pub native : Bool
  pub python : Bool
  pub limit : ℕ

-- `_prepare_call`, from the `allow_redirects` and `max_redirects` of the call.
unfoldable pub prepare_drive : Defaults → Option Bool → Option ℕ → Drive
unfolding drive_redirects_in_python
prepare_drive s allow limit =
    let allowed = or_default allow s.allow_redirects in
    let python = drive_redirects_in_python limit allowed in
    record {
      native = allowed && not python;
      python = python;
      limit = or_default limit s.max_redirects;
    }

-- `max_response_bytes` as given: valid, or refused by `_validate_max_response_bytes`.
pub data Limit : Type 0 where
  valid : ℕ → Limit
  invalid : Limit

pub record SendOptions : Type 0 where
  pub max_response_bytes : Option Limit
  pub timeout : Option ℕ
  pub stream : Option Bool
  pub native_redirects : Option Bool
  pub python_redirects : Option Bool
  pub max_redirects : Option (Option ℕ)

abbrev flat : Option (Option ℕ) → Option ℕ
flat none = none
flat (some v) = v

abbrev set_default : Option (Option ℕ) → ℕ → Option (Option ℕ)
set_default none d = some (some d)
set_default (some v) d = some v

-- The redirect options, where neither was given.
unfoldable pub redirect_defaults : Defaults → Option Bool → Option Bool → SendOptions → SendOptions
unfolding drive_redirects_in_python
redirect_defaults s none none o =
    let python = drive_redirects_in_python (flat o.max_redirects) s.allow_redirects in
    record o {
      python_redirects = some python;
      native_redirects = some (not python);
      max_redirects = set_default o.max_redirects s.max_redirects;
    }
redirect_defaults s none (some p) o = o
redirect_defaults s (some n) p o = o

abbrev pub limit_default : Defaults → Option Limit → Option (Option Limit)
limit_default s none = some (elim s.max_response_bytes [ none ↦ none | some n ↦ some (valid n) ])
limit_default s (some (valid n)) = some (some (valid n))
limit_default s (some invalid) = none

abbrev pub with_limit : Option (Option Limit) → SendOptions → Option SendOptions
with_limit none o = none
with_limit (some limit) o = some (record o { max_response_bytes = limit })

-- The timeout and the stream flag.
abbrev pub fill_transport : Defaults → SendOptions → SendOptions
fill_transport s o = record o {
  timeout = elim o.timeout [ none ↦ s.timeout | some t ↦ some t ];
  stream = some (or_default o.stream s.stream);
}

-- `_with_session_defaults`; `none` is the `ValueError` of a limit that is refused.
unfoldable pub with_session_defaults : Defaults → SendOptions → Option SendOptions
unfolding redirect_defaults
with_session_defaults s o =
    with_limit (limit_default s o.max_response_bytes)
      (redirect_defaults s o.native_redirects o.python_redirects (fill_transport s o))
