-- ===== src/Multipart/Params/RoundTrip.antt =====
-- A reader of form data, and what it reads in what `encode_params` writes.
use chrome_client.Base.{
  ℕ, ◌+◌, ◌*◌, ◌/◌, ◌%◌, ◌≡◌, ◌≢◌, ◌<◌, refl, sym, ap, ◌∙◌, Option, none, some, List, [], ◌∷◌, ◌++◌,
  map, Bool, true, false, ◌==◌, ℕ_eq, if◌then◌else◌, All, arith, append_assoc, Bool-cases, inl, inr,
  keep, length, length-append,
}
use chrome_client.Base.Text.{Text, codes, join, split_once, split_all}
use chrome_client.Base.Splitting.{
  Lacks, Lacks-append, split_once-cut, split_all-cut, split_all_last,
}
use chrome_client.Async.State.{Bytes}
use chrome_client.Utils.Quoting.{is_unreserved, escape_bytes, hex_value, hex_digit, is_alphanumeric}
use chrome_client.Auth.Base64.{IsBytes}
use chrome_client.Multipart.{Data, nothing, binary, text, other, bytes_of}
use chrome_client.Multipart.Params.{
  Value, single, several, key_bytes, pairs_of, items_of, quote_plus, pair_text, urlencode,
  encode_params, all_pairs,
}

abbrev or_zero : Option ℕ → ℕ
or_zero none = 0
or_zero (some n) = n

abbrev two_hex : ℕ → ℕ → ℕ
two_hex d e = or_zero (hex_value d) * 16 + or_zero (hex_value e)

abbrev plain : ℕ → ℕ
plain c = if c == b'+' then b' ' else c

-- The bytes of a quoted text.
unfoldable pub unquote_plus : Text → Bytes
unfolding hex_value ℕ_eq
unquote_plus [] = []
unquote_plus (c ∷ []) = plain c ∷ []
unquote_plus (c ∷ d ∷ []) = plain c ∷ plain d ∷ []
unquote_plus (c ∷ d ∷ e ∷ s) =
    let after = unquote_plus s in
    let later = unquote_plus (d ∷ e ∷ s) in
    if c == b'%' then two_hex d e ∷ after else plain c ∷ later

unfoldable pub read_pair : Text × Option Text → Bytes × Bytes
unfolding unquote_plus
read_pair (key, none) = (unquote_plus key, [])
read_pair (key, some value) = (unquote_plus key, unquote_plus value)

-- The pairs of form data.
unfoldable pub read_form : Text → List (Bytes × Bytes)
unfolding split_all split_once read_pair
read_form [] = []
read_form (c ∷ s) = map (λ (t : Text). read_pair (split_once b'=' t)) (split_all b'&' (c ∷ s))

hex_value-hex_digit : (n : ℕ) → n < 16 → hex_value (hex_digit n) ≡ some n
unfolding hex_value hex_digit
hex_value-hex_digit n h = ground arith

unquote_plain : (c : ℕ) (s : Text) → c ≢ b'%' → unquote_plus (c ∷ s) ≡ plain c ∷ unquote_plus s
unfolding unquote_plus
unquote_plain c [] h = refl
unquote_plain c (d ∷ []) h = refl
unquote_plain c (d ∷ e ∷ s) h = ground (arith, h)

unquote_hex :
    (b : ℕ) (s : Text) → b < 256 → unquote_plus (escape_bytes (b ∷ []) ++ s) ≡ b ∷ unquote_plus s
unfolding unquote_plus escape_bytes
unquote_hex b s h =
    rw (hex_value-hex_digit (b / 16 % 16) (omega arith), hex_value-hex_digit (b % 16) (omega arith))
      (ap (λ x. x ∷ unquote_plus s) (omega arith))

unreserved_plain :
    (b : ℕ) → is_unreserved b ≡ true → (b ≢ b'%') × (b ≢ b'+') × (b ≢ b'&') × (b ≢ b'=')
unfolding is_unreserved is_alphanumeric
unreserved_plain b h = ground (arith, h)

unquote_plus-quote_plus : (bytes : Bytes) → IsBytes bytes → unquote_plus (quote_plus bytes) ≡ bytes
unfolding quote_plus
unquote_plus-quote_plus [] h = unfold unquote_plus in refl
unquote_plus-quote_plus (b ∷ bytes) (h, hs) =
    let again = unquote_plus-quote_plus bytes hs in
    let blank = unquote_plain b'+' (quote_plus bytes) (omega arith) in
    let coded = unquote_hex b (quote_plus bytes) h in
    elim (Bool-cases (is_unreserved b)) [
      | inl e ↦
          let (percent, plus, _, _) = unreserved_plain b e in
          let kept = unquote_plain b (quote_plus bytes) percent in
          ground (arith, again, blank, kept, e, plus)
      | inr e ↦ unfold escape_bytes in ground (arith, again, blank, coded, e)
    ]

digit_plain : (n : ℕ) → n < 16 → (hex_digit n ≢ b'&') × (hex_digit n ≢ b'=')
unfolding hex_digit
digit_plain n h = ground arith

quote_plus-Lacks : (bytes : Bytes) → Lacks b'&' (quote_plus bytes) × Lacks b'=' (quote_plus bytes)
unfolding quote_plus escape_bytes
quote_plus-Lacks [] = (tt, tt)
quote_plus-Lacks (b ∷ bytes) =
    let again = quote_plus-Lacks bytes in
    let high = digit_plain (b / 16 % 16) (omega arith) in
    let low = digit_plain (b % 16) (omega arith) in
    elim (Bool-cases (is_unreserved b)) [
      | inl e ↦ let kept = unreserved_plain b e in ground (arith, again, e, kept)
      | inr e ↦ ground (arith, again, e, high, low)
    ]

pair_text-Lacks : (pair : Bytes × Bytes) → Lacks b'&' (pair_text pair)
pair_text-Lacks (key, value) =
    Lacks-append b'&' (quote_plus key) (b'=' ∷ quote_plus value) (quote_plus-Lacks key).0
      (omega arith, (quote_plus-Lacks value).0)

abbrev pub ArePairs : List (Bytes × Bytes) → Type 0
ArePairs = All (λ (pair : Bytes × Bytes). IsBytes pair.0 × IsBytes pair.1)

read_pair_text :
    (key value : Bytes)
    → IsBytes key
    → IsBytes value
    → read_pair (split_once b'=' (pair_text (key, value))) ≡ (key, value)
unfolding read_pair
read_pair_text key value h k =
    ap read_pair (split_once-cut b'=' (quote_plus key) (quote_plus value) (quote_plus-Lacks key).1)
    ∙ ap (λ x. (x, unquote_plus (quote_plus value))) (unquote_plus-quote_plus key h)
    ∙ ap (λ x. (key, x)) (unquote_plus-quote_plus value k)

split_pairs :
    (pair : Bytes × Bytes) (pairs : List (Bytes × Bytes))
    → split_all b'&' (urlencode (pair ∷ pairs)) ≡ map pair_text (pair ∷ pairs)
unfolding urlencode join
split_pairs pair [] = split_all_last b'&' (pair_text pair) (pair_text-Lacks pair)
split_pairs pair (next ∷ pairs) =
    ap (split_all b'&') (append_assoc (pair_text pair) (codes "&") (urlencode (next ∷ pairs)))
    ∙ split_all-cut b'&' (pair_text pair) (urlencode (next ∷ pairs)) (pair_text-Lacks pair)
    ∙ ap (λ x. pair_text pair ∷ x) (split_pairs next pairs)

read_pairs :
    (pairs : List (Bytes × Bytes))
    → ArePairs pairs
    → map (λ (t : Text). read_pair (split_once b'=' t)) (map pair_text pairs) ≡ pairs
read_pairs [] h = refl
read_pairs ((key, value) ∷ pairs) ((h, k), hs) =
    ap (λ x. x ∷ map (λ (t : Text). read_pair (split_once b'=' t)) (map pair_text pairs))
      (read_pair_text key value h k)
    ∙ ap (λ x. (key, value) ∷ x) (read_pairs pairs hs)

read_form_filled :
    (s : Text)
    → s ≢ []
    → read_form s ≡ map (λ (t : Text). read_pair (split_once b'=' t)) (split_all b'&' s)
unfolding read_form
read_form_filled [] h = absurd (h refl)
read_form_filled (c ∷ s) h = refl

first_length : List Text → ℕ
first_length [] = 0
first_length (t ∷ ts) = length t

urlencode_filled :
    (pair : Bytes × Bytes) (pairs : List (Bytes × Bytes)) → urlencode (pair ∷ pairs) ≢ []
unfolding split_all first_length
urlencode_filled (key, value) pairs e =
    let empty : length (quote_plus key ++ b'=' ∷ quote_plus value) ≡ 0 =
      ap first_length (sym (split_pairs (key, value) pairs) ∙ ap (split_all b'&') e) in
    omega (arith, empty, length-append (quote_plus key) (b'=' ∷ quote_plus value))

read_form-urlencode :
    (pairs : List (Bytes × Bytes)) → ArePairs pairs → read_form (urlencode pairs) ≡ pairs
read_form-urlencode [] h = unfold read_form urlencode join in refl
read_form-urlencode (pair ∷ pairs) h =
    read_form_filled (urlencode (pair ∷ pairs)) (urlencode_filled pair pairs)
    ∙ ap (map (λ (t : Text). read_pair (split_once b'=' t))) (split_pairs pair pairs)
    ∙ read_pairs (pair ∷ pairs) h

-- The items of the fields, each with its key, in their order.
abbrev pub keyed : List (Data × Value) → List (Data × Data)
keyed [] = []
keyed ((key, single item) ∷ fields) = (key, item) ∷ keyed fields
keyed ((key, several items) ∷ fields) = map (λ (item : Data). (key, item)) items ++ keyed fields

abbrev pub is_there : Data × Data → Bool
is_there (key, nothing) = false
is_there (key, item) = true

unfoldable pub encode_pair : Data × Data → Bytes × Bytes
encode_pair (key, item) = (key_bytes key, bytes_of item)

-- The pairs to send: one for each item that is not `None`.
unfoldable pub pairs_to_send : List (Data × Value) → List (Bytes × Bytes)
pairs_to_send fields = map encode_pair (keep is_there (keyed fields))

pairs_of-keyed :
    (key : Data) (items : List Data) (more : List (Data × Data))
    → pairs_of key items ++ map encode_pair (keep is_there more)
      ≡ map encode_pair (keep is_there (map (λ (item : Data). (key, item)) items ++ more))
unfolding pairs_of encode_pair
pairs_of-keyed key [] more = refl
pairs_of-keyed key (nothing ∷ items) more = pairs_of-keyed key items more
pairs_of-keyed key (binary b ∷ items) more =
    ap (λ x. (key_bytes key, bytes_of (binary b)) ∷ x) (pairs_of-keyed key items more)
pairs_of-keyed key (text t ∷ items) more =
    ap (λ x. (key_bytes key, bytes_of (text t)) ∷ x) (pairs_of-keyed key items more)
pairs_of-keyed key (other t ∷ items) more =
    ap (λ x. (key_bytes key, bytes_of (other t)) ∷ x) (pairs_of-keyed key items more)

all_pairs-eq-pairs_to_send :
    (fields : List (Data × Value)) → all_pairs fields ≡ pairs_to_send fields
unfolding all_pairs items_of pairs_to_send
all_pairs-eq-pairs_to_send [] = refl
all_pairs-eq-pairs_to_send ((key, single item) ∷ fields) =
    ap (λ x. pairs_of key (item ∷ []) ++ x) (all_pairs-eq-pairs_to_send fields)
    ∙ pairs_of-keyed key (item ∷ []) (keyed fields)
all_pairs-eq-pairs_to_send ((key, several items) ∷ fields) =
    ap (λ x. pairs_of key items ++ x) (all_pairs-eq-pairs_to_send fields)
    ∙ pairs_of-keyed key items (keyed fields)

-- A reader of form data finds in what `encode_params` writes one pair for each item of the fields that
-- is not `None`, with its key, in their order, if the bytes of both are bytes.
pub read_form-encode_params :
    (fields : List (Data × Value))
    → ArePairs (pairs_to_send fields)
    → read_form (encode_params fields) ≡ pairs_to_send fields
unfolding encode_params
read_form-encode_params fields h =
    ap (λ x. read_form (urlencode x)) (all_pairs-eq-pairs_to_send fields)
    ∙ read_form-urlencode (pairs_to_send fields) h
