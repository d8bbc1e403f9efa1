-- ===== src/Impersonation/Tests.antt =====
-- Targets, pins and overrides, and the theorems at concrete inputs.
use chrome_client.Base.{◌++◌, ◌≡◌, refl, none, some, [], ◌∷◌, true, false, ℕ_eq}
use chrome_client.Base.Dict.{Dict, lookup}
use chrome_client.Base.Text.{Text, codes, lower, strip, starts_with, text_eq}
use chrome_client.Impersonation.Versions.{http_versions, normalize_http_version}
use chrome_client.Impersonation.Profiles.{
  target, impersonate_error, value_error, aliases, unsupported_families, major_of, int_of,
  normalize_impersonate,
}
use chrome_client.Impersonation.Fingerprints.{
  Value, absent, boolean, text, sequence, validate_extra_fp, reject_fingerprint_overrides,
}

latest : normalize_impersonate (codes " Chrome ") ≡ target (codes "chrome_153")
unfolding normalize_impersonate strip lower starts_with aliases unsupported_families major_of int_of
    text_eq ℕ_eq
latest = refl

pinned : normalize_impersonate (codes "Chrome-120.0.1") ≡ target (codes "chrome_120")
unfolding normalize_impersonate strip lower starts_with aliases unsupported_families major_of int_of
    text_eq ℕ_eq
pinned = refl

too_old : normalize_impersonate (codes "chrome98") ≡ impersonate_error
unfolding normalize_impersonate strip lower starts_with aliases unsupported_families major_of int_of
    text_eq ℕ_eq
too_old = refl

not_built : normalize_impersonate (codes "firefox133") ≡ impersonate_error
unfolding normalize_impersonate strip lower starts_with aliases unsupported_families major_of int_of
    text_eq ℕ_eq
not_built = refl

-- `chrome²`: the superscript is a digit to `isdigit` and none to `int`.
superscript : normalize_impersonate (codes "chrome" ++ 0xB2 ∷ []) ≡ value_error
unfolding normalize_impersonate strip lower starts_with aliases unsupported_families major_of int_of
    text_eq ℕ_eq
superscript = refl

pin : normalize_http_version (some (codes " HTTP/2 ")) ≡ some (some (codes "v2"))
unfolding normalize_http_version http_versions lookup lower strip text_eq
pin = refl

abbrev overrides : Dict Text Value
overrides =
    (codes "header_order", sequence (codes "Host" ∷ []))
    ∷ (codes "tls_delegated_credential", text [])
    ∷ (codes "tls_grease", boolean false)
    ∷ []

accepted : validate_extra_fp (some overrides) ≡ some (sequence (codes "Host" ∷ []), absent)
unfolding validate_extra_fp lookup text_eq
accepted = refl

grease_on : validate_extra_fp (some ((codes "tls_grease", boolean true) ∷ [])) ≡ none
unfolding validate_extra_fp text_eq
grease_on = refl

first_override :
    reject_fingerprint_overrides (text []) (text (codes "1:65536")) absent ≡ some (codes "akamai")
unfolding reject_fingerprint_overrides
first_override = refl
