-- ===== src/Impersonation/Profiles.antt =====
-- `normalize_impersonate` for a text, and `available_profiles`. Decimal digits are those of ASCII;
-- `isdigit` also takes the superscripts 1, 2 and 3 of Latin-1, which `int` refuses.
use chrome_client.Base.{
  ℕ, zero, suc, ◌+◌, ◌-◌, ◌*◌, ◌≡◌, ◌≤◌, ◌<◌, refl, ap, ◌⊎◌, Option, none, some, List, [], ◌∷◌,
  ◌++◌, Bool, true, false, ◌&&◌, ◌||◌, leb, contains, ◌==◌, ℕ_eq, option_eq, if◌then◌else◌, inl,
  inr, Bool-cases, arith, ==→eq, ==_refl,
}
use chrome_client.Base.Text.{
  Text, codes, lower, strip, starts_with, strip_start, split_once, text_eq, every, all_digits,
  is_decimal,
}
use chrome_client.Errors.Mapping.{print_code}
use chrome_client.Errors.Table.{positive}
use native.Mathlib.Decide.{dec_lt}
use mathlib.Core.Path.{subst}

abbrev pub latest_chrome : ℕ
latest_chrome = 153

abbrev pub oldest_chrome : ℕ
oldest_chrome = 99

-- `"chrome_%d" % major`
unfoldable pub profile : ℕ → Text
unfolding print_code
profile major = codes "chrome_" ++ print_code (positive major)

-- The names from a number on, so many of them.
unfoldable pub profiles_from : ℕ → ℕ → List Text
unfolding profile
profiles_from first zero = []
profiles_from first (suc n) = profile first ∷ profiles_from (first + 1) n

unfoldable pub available_profiles : List Text
unfolding profiles_from
available_profiles = profiles_from oldest_chrome (latest_chrome + 1 - oldest_chrome)

unfoldable pub aliases : List Text
aliases = codes "chrome" ∷ codes "chromium" ∷ []

unfoldable pub unsupported_families : List Text
unsupported_families =
    codes "edge"
    ∷ codes "safari"
    ∷ codes "firefox"
    ∷ codes "tor"
    ∷ codes "chrome_android"
    ∷ codes "chrome-android"
    ∷ codes "safari_ios"
    ∷ codes "okhttp"
    ∷ []

-- What the call does: a profile, `ImpersonateError`, or the `ValueError` of `int`.
pub data Target : Type 0 where
  target : Text → Target
  impersonate_error : Target
  value_error : Target

unfoldable pub value_of : ℕ → Text → ℕ
value_of n [] = n
value_of n (c ∷ s) = value_of (n * 10 + (c - b'0')) s

-- `int(s)` of digits; `none` is the `ValueError`.
unfoldable pub int_of : Text → Option ℕ
unfolding value_of ℕ_eq
int_of s = if every is_decimal s then some (value_of 0 s) else none

abbrev any_prefix : Text → List Text → Bool
any_prefix s [] = false
any_prefix s (p ∷ ps) = starts_with s p || any_prefix s ps

abbrev after : ℕ → Text → Text
after zero s = s
after (suc n) [] = []
after (suc n) (c ∷ s) = after n s

-- What follows `chrome`, without separators, up to a point.
unfoldable pub major_of : Text → Text
unfolding strip_start split_once ℕ_eq
major_of lowered = (split_once b'.' (strip_start (λ c. c == b'_' || c == b'-') (after 6 lowered))).0

unfoldable pub in_range : Option ℕ → Target
unfolding profile
in_range none = value_error
in_range (some number) =
    if leb oldest_chrome number && leb number latest_chrome
    then target (profile number)
    else impersonate_error

-- The branches: an alias, a family that is not built, a Chrome with a number, anything else.
unfoldable pub choose : Bool → Bool → Bool → Option ℕ → Text → Target
unfolding in_range
choose true family pinned number name = target (profile latest_chrome)
choose false true pinned number name = impersonate_error
choose false false true number name = in_range number
choose false false false number name = target name

unfoldable pub normalize_impersonate : Text → Target
unfolding choose
normalize_impersonate value =
    let name = strip value in
    let lowered = lower name in
    choose (contains aliases lowered) (any_prefix lowered unsupported_families)
      (starts_with lowered (codes "chrome") && all_digits (major_of lowered))
      (int_of (major_of lowered)) name

contains_first : (a : Text) (as' : List Text) → contains (a ∷ as') a ≡ true
contains_first a as' = ground (arith, ==_refl a)

contains_behind : (a b : Text) (bs : List Text) → contains bs a ≡ true → contains (b ∷ bs) a ≡ true
contains_behind a b bs h = ground (arith)

profiles_from-contains :
    (first n k : ℕ)
    → first ≤ k
    → k < first + n
    → contains (profiles_from first n) (profile k) ≡ true
unfolding profiles_from
profiles_from-contains first zero k a b = absurd (omega arith)
profiles_from-contains first (suc n) k a b = elim (dec_lt first k) [
  | yes later ↦
      contains_behind (profile k) (profile first) (profiles_from (first + 1) n)
        (profiles_from-contains (first + 1) n k (omega arith) (omega arith))
  | no same ↦
      let e : k ≡ first = omega arith in
      rw e (contains_first (profile first) (profiles_from (first + 1) n))
]

abbrev Known : Text → Text → Type 0
Known value r = (contains available_profiles r ≡ true) ⊎ (r ≡ strip value)

available :
    (k : ℕ) → oldest_chrome ≤ k → k ≤ latest_chrome → contains available_profiles (profile k) ≡ true
unfolding available_profiles
available k a b =
    profiles_from-contains oldest_chrome (latest_chrome + 1 - oldest_chrome) k a (omega arith)

in_range-Known : (value r : Text) (o : Option ℕ) → in_range o ≡ target r → Known value r
unfolding in_range
in_range-Known value r none h = cc
in_range-Known value r (some k) h = elim (Bool-cases (leb oldest_chrome k && leb k latest_chrome)) [
  | inl inside ↦
      let known = available k (ground arith) (ground arith) in
      let e : profile k ≡ r = ground (arith, simp inside at h) in
      inl (subst (λ t. contains available_profiles t ≡ true) e known)
  | inr outside ↦ ground (arith, simp outside at h)
]

choose-Known :
    (value r : Text) (alias family pinned : Bool) (number : Option ℕ)
    → choose alias family pinned number (strip value) ≡ target r
    → Known value r
unfolding choose
choose-Known value r true family pinned number h =
    let known = available latest_chrome (omega arith) (omega arith) in
    let e : profile latest_chrome ≡ r = cc in
    inl (subst (λ t. contains available_profiles t ≡ true) e known)
choose-Known value r false true pinned number h = cc
choose-Known value r false false true number h = in_range-Known value r number h
choose-Known value r false false false number h = inr (cc)

normalize_impersonate-Known :
    (value r : Text) → normalize_impersonate value ≡ target r → Known value r
unfolding normalize_impersonate
normalize_impersonate-Known value r h =
    choose-Known value r (contains aliases (lower (strip value)))
      (any_prefix (lower (strip value)) unsupported_families)
      (starts_with (lower (strip value)) (codes "chrome")
        && all_digits (major_of (lower (strip value))))
      (int_of (major_of (lower (strip value)))) h

abbrev is_target : Text → Target → Bool
is_target name (target r) = r == name
is_target name impersonate_error = false
is_target name value_error = false

is_target_lem : (name : Text) (t : Target) → is_target name t ≡ true → t ≡ target name
is_target_lem name (target r) h = ap target (==→eq r name h)
is_target_lem name impersonate_error h = cc
is_target_lem name value_error h = cc

abbrev names_itself : Text → Bool
names_itself name = is_target name (normalize_impersonate name)

abbrev all_name_themselves : List Text → Bool
all_name_themselves [] = true
all_name_themselves (name ∷ names) = names_itself name && all_name_themselves names

available_name_themselves : all_name_themselves available_profiles ≡ true
unfolding available_profiles normalize_impersonate strip lower starts_with aliases
    unsupported_families major_of int_of text_eq ℕ_eq
available_name_themselves = refl

all_name_themselves-contains :
    (names : List Text) (name : Text)
    → all_name_themselves names ≡ true
    → contains names name ≡ true
    → names_itself name ≡ true
all_name_themselves-contains [] name h c = cc
all_name_themselves-contains (n ∷ names) name h c = elim (Bool-cases (name == n)) [
  | inl same ↦ ground (arith, ==→eq name n same)
  | inr other ↦ all_name_themselves-contains names name (ground arith) (ground arith)
]

-- What a text is normalized to is an available profile, which is normalized to itself, or the text
-- itself without the space around it.
pub normalize_impersonate-stable :
    (value r : Text)
    → normalize_impersonate value ≡ target r
    → ((contains available_profiles r ≡ true) × (normalize_impersonate r ≡ target r))
      ⊎ (r ≡ strip value)
normalize_impersonate-stable value r h = elim (normalize_impersonate-Known value r h) [
  | inl known ↦ inl (
    known,
    is_target_lem r _
        (all_name_themselves-contains available_profiles r available_name_themselves known),
  )
  | inr same ↦ inr same
]
