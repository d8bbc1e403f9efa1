-- ===== src/Errors/Mapping.antt =====
-- `describe_net_error`, `name_net_error` and `map_native_error`. A message is a text; `\d` is a decimal
-- digit of ASCII.
use chrome_client.Base.{
  ℕ, zero, suc, ◌+◌, ◌-◌, ◌*◌, ◌/◌, ◌%◌, Option, none, some, List, [], ◌∷◌, ◌++◌, Bool, false, ◌&&◌,
  ◌||◌, leb, ltb, ◌==◌, if◌then◌else◌, ℕ_eq,
}
use chrome_client.Base.Dict.{lookup}
use mathlib.Core.Option
use chrome_client.Base.Text.{Text, codes, starts_with, lower}
use chrome_client.Errors.Classes.{Class, timeout, request_exception}
use chrome_client.Errors.Table.{Code, positive, negative, code_eq, net_errors, native_errors}

abbrev is_digit : ℕ → Bool
is_digit c = leb b'0' c && leb c b'9'

-- The digits at the start of a text, read behind `n`.
unfoldable pub read_digits : ℕ → Text → ℕ
read_digits n [] = n
read_digits n (c ∷ s) =
    let rest = read_digits (n * 10 + (c - b'0')) s in if is_digit c then rest else n

abbrev starts_digit : Text → Bool
starts_digit [] = false
starts_digit (c ∷ s) = is_digit c

abbrev negated : ℕ → Code
negated n = if n == 0 then positive 0 else negative n

-- `-?\d+`, and `int` of it.
unfoldable pub read_code : Text → Option Code
unfolding read_digits ℕ_eq
read_code [] = none
read_code (c ∷ s) =
    if c == b'-'
    then if starts_digit s then some (negated (read_digits 0 s)) else none
    else if is_digit c
    then some (positive (read_digits 0 (c ∷ s)))
    else none

abbrev after : ℕ → Text → Text
after zero s = s
after (suc n) [] = []
after (suc n) (c ∷ s) = after n s

-- `_NET_ERROR_PATTERN.search`, and `int` of its group.
unfoldable pub search_code : Text → Option Code
unfolding read_code starts_with
search_code [] = none
search_code (c ∷ s) =
    let rest = search_code s in
    if starts_with (c ∷ s) (codes "net error ")
    then elim (read_code (after 10 (c ∷ s))) [ some code ↦ some code | none ↦ rest ]
    else rest

unfoldable pub print_digits : ℕ → ℕ → Text → Text
print_digits zero n rest = rest
print_digits (suc fuel) n rest =
    let more = print_digits fuel (n / 10) ((b'0' + n % 10) ∷ rest) in
    if ltb n 10 then (b'0' + n) ∷ rest else more

-- `%d`; a number has no more digits than its value and one.
unfoldable pub print_code : Code → Text
unfolding print_digits
print_code (positive n) = print_digits (suc n) n []
print_code (negative n) = b'-' ∷ print_digits (suc n) n []

-- `"%s (net error %d)"`
unfoldable pub named_message : Text → Code → Text
unfolding print_code
named_message name code = name ++ codes " (net error " ++ print_code code ++ codes ")"

-- `describe_net_error`
unfoldable pub describe_net_error : Code → Option Text
describe_net_error code = Option.map (λ (name, _). name) (lookup code net_errors)

unfoldable pub rename_by : Text → Code → Option (Text × Option Class) → Text
rename_by text code none = text
rename_by text code (some (name, _)) = named_message name code

unfoldable pub rename : Text → Option Code → Text
unfolding rename_by
rename text none = text
rename text (some code) = rename_by text code (lookup code net_errors)

-- `name_net_error`
unfoldable pub name_net_error : Text → Text
unfolding rename
name_net_error text = rename text (search_code text)

-- `needle in text`
unfoldable pub occurs : Text → Text → Bool
unfolding starts_with
occurs needle [] = starts_with [] needle
occurs needle (c ∷ s) = starts_with (c ∷ s) needle || occurs needle s

-- The first category that the message names.
unfoldable pub category : Text → List (Text × Class) → Option Class
unfolding occurs
category text [] = none
category text ((needle, kind) ∷ rows) =
    let rest = category text rows in if occurs needle text then some kind else rest

-- The class that the table gives to a code, and to the code of a message.
unfoldable pub entry_class : Option (Text × Option Class) → Option Class
entry_class none = none
entry_class (some (_, kind)) = kind

unfoldable pub code_class : Option Code → Option Class
unfolding entry_class
code_class none = none
code_class (some code) = entry_class (lookup code net_errors)

unfoldable pub specific : Text → Option Class
unfolding code_class search_code
specific text = code_class (search_code text)

unfoldable pub by_wording : Text → Class
unfolding occurs lower
by_wording message =
    if occurs (codes "timeout") (lower message) || occurs (codes "timed out") (lower message)
    then timeout
    else request_exception

unfoldable pub classify : Option Class → Option Class → Text → Class
unfolding by_wording
classify (some kind) _ message = kind
classify none (some kind) message = kind
classify none none message = by_wording message

-- `map_native_error`: the class of the exception, and its message.
unfoldable pub map_native_error : Text → Class × Text
unfolding name_net_error specific category classify
map_native_error text =
    let message = name_net_error text in
    (classify (specific text) (category text native_errors) message, message)
