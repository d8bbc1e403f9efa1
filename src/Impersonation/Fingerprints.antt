-- ===== src/Impersonation/Fingerprints.antt =====
-- `validate_extra_fp` over the items of the mapping, and `reject_fingerprint_overrides`. A value is one
-- of those that the tests tell apart; Python's `==` holds between `False` and 0, and `True` and 1.
use chrome_client.Base.{
  ℕ, ◌≡◌, ◌↔◌, ◌≢◌, ◌⊎◌, ◌∙◌, sym, refl, Option, none, some, List, [], ◌∷◌, Bool, true, false, not,
  ◌&&◌, ◌||◌, ◌==◌, ℕ_eq, bool_eq, if◌then◌else◌, inl, inr, Bool-cases, arith,
}
use mathlib.Core.Option.{some-ne-none}
use chrome_client.Base.Dict.{Dict, lookup}
use chrome_client.Base.Text.{Text, codes, text_eq}

pub data Value : Type 0 where
  absent : Value
  boolean : Bool → Value
  number : ℕ → Value
  text : Text → Value
  sequence : List Text → Value

-- `value in (None, False)`
unfoldable pub is_off : Value → Bool
unfolding ℕ_eq
is_off absent = true
is_off (boolean b) = not b
is_off (number n) = n == 0
is_off (text t) = false
is_off (sequence ts) = false

abbrev is_absent : Value → Bool
is_absent absent = true
is_absent (boolean b) = false
is_absent (number n) = false
is_absent (text t) = false
is_absent (sequence ts) = false

abbrev is_empty_text : Value → Bool
is_empty_text (text []) = true
is_empty_text (text (c ∷ t)) = false
is_empty_text absent = false
is_empty_text (boolean b) = false
is_empty_text (number n) = false
is_empty_text (sequence ts) = false

unfoldable pub honoured : Text → Bool
unfolding text_eq
honoured name = name == codes "header_order" || name == codes "form_boundary"

-- `_NEUTRAL_EXTRA_FP`: for `(0, None)` and `(False, None)` the test is that of `is_off`.
unfoldable pub neutral : Text → Value → Bool
unfolding text_eq is_off
neutral name value =
    if name == codes "tls_delegated_credential"
    then is_empty_text value || is_absent value
    else (name == codes "tls_record_size_limit" || name == codes "http2_no_priority")
      && is_off value

unfoldable pub unsupported : Dict Text Value → List Text
unfolding honoured neutral is_off
unsupported [] = []
unsupported ((name, value) ∷ values) =
    let rest = unsupported values in
    if honoured name
    then rest
    else if neutral name value
    then rest
    else if is_off value
    then rest
    else name ∷ rest

abbrev or_absent : Option Value → Value
or_absent none = absent
or_absent (some v) = v

abbrev answer : Dict Text Value → List Text → Option (Value × Value)
answer values [] = some (
  or_absent (lookup (codes "header_order") values),
  or_absent (lookup (codes "form_boundary") values),
)
answer values (name ∷ names) = none

-- `validate_extra_fp`; the outer `none` is the `UnsupportedFeature`.
unfoldable pub validate_extra_fp : Option (Dict Text Value) → Option (Value × Value)
unfolding unsupported
validate_extra_fp none = some (absent, absent)
validate_extra_fp (some values) = answer values (unsupported values)

unfoldable pub truthy : Value → Bool
unfolding ℕ_eq
truthy absent = false
truthy (boolean b) = b
truthy (number n) = not (n == 0)
truthy (text []) = false
truthy (text (c ∷ t)) = true
truthy (sequence []) = false
truthy (sequence (t ∷ ts)) = true

-- `reject_fingerprint_overrides`: the first override that is refused.
unfoldable pub reject_fingerprint_overrides : Value → Value → Value → Option Text
unfolding truthy
reject_fingerprint_overrides ja3 akamai perk =
    if truthy ja3
    then some (codes "ja3")
    else if truthy akamai
    then some (codes "akamai")
    else if truthy perk
    then some (codes "perk")
    else none

-- An entry that asks for nothing the facade cannot do: one that it honours, one that is off, or an
-- empty credential.
abbrev pub Harmless : Text → Value → Type 0
Harmless name value =
    (name ≡ codes "header_order")
    ⊎ (name ≡ codes "form_boundary")
    ⊎ (value ≡ absent)
    ⊎ (value ≡ boolean false)
    ⊎ (value ≡ number 0)
    ⊎ ((name ≡ codes "tls_delegated_credential") × (value ≡ text []))

abbrev pub AllHarmless : Dict Text Value → Type 0
AllHarmless [] = Unit
AllHarmless ((name, value) ∷ values) = Harmless name value × AllHarmless values

passes : Text → Value → Bool
passes name value = honoured name || (neutral name value || is_off value)

passes-Harmless : (name : Text) (value : Value) → passes name value ≡ true → Harmless name value
unfolding passes honoured neutral is_off
passes-Harmless name absent h = inr (inr (inl refl))
passes-Harmless name (boolean b) h = ground arith
passes-Harmless name (number n) h = ground arith
passes-Harmless name (text []) h = ground arith
passes-Harmless name (text (c ∷ t)) h = ground arith
passes-Harmless name (sequence ts) h = ground arith

Harmless-passes : (name : Text) (value : Value) → Harmless name value → passes name value ≡ true
unfolding passes honoured neutral is_off
Harmless-passes name absent h = ground arith
Harmless-passes name (boolean b) h = ground arith
Harmless-passes name (number n) h = ground arith
Harmless-passes name (text []) h = ground arith
Harmless-passes name (text (c ∷ t)) h = ground arith
Harmless-passes name (sequence ts) h = ground arith

unsupported_step :
    (name : Text) (value : Value) (values : Dict Text Value)
    → unsupported ((name, value) ∷ values)
      ≡ (if passes name value then unsupported values else name ∷ unsupported values)
unfolding unsupported passes
unsupported_step name value values = ground arith

unsupported-AllHarmless : (values : Dict Text Value) → unsupported values ≡ [] → AllHarmless values
unsupported-AllHarmless [] h = tt
unsupported-AllHarmless ((name, value) ∷ values) h = elim (Bool-cases (passes name value)) [
  | inl ok ↦ (
    passes-Harmless name value ok,
    unsupported-AllHarmless values (sym (simp ok at (unsupported_step name value values)) ∙ h),
  )
  | inr bad ↦ ground (arith, unsupported_step name value values)
]

AllHarmless-unsupported : (values : Dict Text Value) → AllHarmless values → unsupported values ≡ []
unfolding unsupported
AllHarmless-unsupported [] h = refl
AllHarmless-unsupported ((name, value) ∷ values) (a, h) =
    unsupported_step name value values
    ∙ (simp (Harmless-passes name value a) (AllHarmless-unsupported values h))

answered_empty :
    (values : Dict Text Value) (names : List Text) → answer values names ≢ none → names ≡ []
answered_empty values [] h = refl
answered_empty values (n ∷ names) h = absurd (h refl)

-- Overrides are accepted exactly if every entry is a header order, a form boundary, `None`, `False`,
-- zero, or an empty delegated credential.
pub validate_extra_fp_iff :
    (values : Dict Text Value) → (validate_extra_fp (some values) ≢ none) ↔ AllHarmless values
unfolding validate_extra_fp
validate_extra_fp_iff values = (
  λ h. unsupported-AllHarmless values (answered_empty values (unsupported values) h),
  λ h e.
      let refused : answer values [] ≡ none = rw (AllHarmless-unsupported values h) at e in
      some-ne-none _ refused,
)
