-- ===== src/Multipart/Params.antt =====
-- `encode_params`: form data.
pub mod RoundTrip
use chrome_client.Base.{
  ℕ, ◌+◌, ◌*◌, ◌/◌, ◌%◌, Option, none, some, List, [], ◌∷◌, ◌++◌, map, Bool, true, false, ◌==◌,
  ◌||◌, ℕ_eq, if◌then◌else◌, All, arith, append_assoc, Bool-cases, inl, inr,
}
use chrome_client.Base.Text.{Text, codes, join, split_once, split_all}
use chrome_client.Async.State.{Bytes}
use chrome_client.Utils.Quoting.{is_unreserved, escape_bytes, hex_value}
use chrome_client.Multipart.{Data, nothing, bytes_of}

-- The value of a field: one item, or a list, a tuple or a set of items.
pub data Value : Type 0 where
  single : Data → Value
  several : List Data → Value

unfoldable pub items_of : Value → List Data
items_of (single item) = item ∷ []
items_of (several items) = items

-- A key is encoded if it is text; `urlencode` takes `str` of any other that is not bytes.
unfoldable pub key_bytes : Data → Bytes
unfolding bytes_of
key_bytes nothing = codes "None"
key_bytes key = bytes_of key

-- The pairs of one field; items that are `None` are dropped.
unfoldable pub pairs_of : Data → List Data → List (Bytes × Bytes)
unfolding bytes_of key_bytes
pairs_of key [] = []
pairs_of key (nothing ∷ items) = pairs_of key items
pairs_of key (item ∷ items) = (key_bytes key, bytes_of item) ∷ pairs_of key items

unfoldable pub all_pairs : List (Data × Value) → List (Bytes × Bytes)
unfolding items_of pairs_of
all_pairs [] = []
all_pairs ((key, value) ∷ fields) = pairs_of key (items_of value) ++ all_pairs fields

-- `quote_plus` of `urllib.parse`, on bytes.
unfoldable pub quote_plus : Bytes → Text
unfolding is_unreserved escape_bytes ℕ_eq
quote_plus [] = []
quote_plus (b ∷ bytes) =
    let rest = quote_plus bytes in
    if b == b' '
    then b'+' ∷ rest
    else if is_unreserved b
    then b ∷ rest
    else escape_bytes (b ∷ []) ++ rest

abbrev pub pair_text : Bytes × Bytes → Text
pair_text (key, value) = quote_plus key ++ b'=' ∷ quote_plus value

-- `urlencode`, of which each value is bytes.
unfoldable pub urlencode : List (Bytes × Bytes) → Text
unfolding join
urlencode pairs = join (codes "&") (map pair_text pairs)

unfoldable pub encode_params : List (Data × Value) → Text
unfolding all_pairs urlencode
encode_params fields = urlencode (all_pairs fields)
