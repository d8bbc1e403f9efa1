-- ===== src/Models/Request.antt =====
-- `PreparedRequest`: the preparation of the headers, the body and the authentication, and
-- `wire_headers`. The URL, the cookies and the hooks are left out.
pub mod Framing
pub mod Order
mod Tests
use chrome_client.Base.{
  ℕ, ◌+◌, suc, Option, none, some, List, [], ◌∷◌, ◌++◌, Bool, true, false, not, ◌&&◌, ◌||◌, ◌==◌,
  ltb, length, if◌then◌else◌,
}
use chrome_client.Base.Dict.{Dict, lookup, insert, has}
use chrome_client.Base.Text.{Text, codes, lower, text_eq}
use chrome_client.Async.State.{Bytes}
use chrome_client.Errors.Mapping.{print_digits}
use chrome_client.Models.Head.{upper}
use chrome_client.Multipart.{Data, encode_utf8}
use chrome_client.Multipart.Files.{
  Source, no_body, bytes_like, memory_view, string, collection, file, iterator,
}
use chrome_client.Multipart.Params.{Value, encode_params}
use chrome_client.Structures.Headers.{
  Headers, empty, set_item, del_item, or_unchanged, add_all, multi_items,
}

-- `stream_body` holds for a streamed body and no other.
pub data Body : Type 0 where
  missing : Body
  fixed : Bytes → Body
  streamed : Source → Body

pub record PreparedRequest : Type 0 where
  pub method : Option Text
  pub headers : Headers
  pub body : Body
  pub header_order : List Text

-- The argument of `prepare_headers`: other headers, or the items of a mapping or a sequence.
pub data Given : Type 0 where
  from_headers : Headers → Given
  from_items : List (Text × Option Text) → Given

unfoldable pub set_present : Headers → List (Text × Option Text) → Headers
set_present h [] = h
set_present h ((name, none) ∷ items) = set_present h items
set_present h ((name, some value) ∷ items) = set_present (set_item h name value) items

-- `prepare_headers`; a value that is `None` is left out, of which other headers have none.
unfoldable pub prepare_headers : Given → Headers
unfolding set_present
prepare_headers (from_headers other) = add_all (empty (codes "utf-8")) (multi_items other)
prepare_headers (from_items items) = set_present (empty (codes "utf-8")) items

abbrev pub content_length : Text
content_length = codes "Content-Length"

abbrev pub transfer_encoding : Text
transfer_encoding = codes "Transfer-Encoding"

-- `str(n)`
unfoldable pub show_number : ℕ → Text
unfolding print_digits
show_number n = print_digits (suc n) n []

-- `self.method in ("GET", "HEAD")`
unfoldable pub is_bodiless : Option Text → Bool
unfolding text_eq
is_bodiless none = false
is_bodiless (some method) = method == codes "GET" || method == codes "HEAD"

unfoldable pub frame : Option Text → Body → Headers → Headers
unfolding show_number is_bodiless text_eq
frame method (streamed source) h =
    set_item (or_unchanged h (del_item h content_length)) transfer_encoding (codes "chunked")
frame method (fixed bytes) h = set_item h content_length (show_number (length bytes))
frame method missing h =
    if is_bodiless method || has (codes "content-length") h.store
    then h
    else set_item h content_length (codes "0")

-- `prepare_content_length`
unfoldable pub prepare_content_length : PreparedRequest → PreparedRequest
unfolding frame
prepare_content_length r = record r { headers = frame r.method r.body r.headers }

-- `bool(data)`
unfoldable pub is_given : Source → Bool
is_given no_body = false
is_given (bytes_like []) = false
is_given (memory_view []) = false
is_given (string []) = false
is_given (collection []) = false
is_given source = true

-- The body that is given as `data=`, of which `fields` are the fields.
unfoldable pub body_of_data : Source → List (Data × Value) → Body × Option Text
unfolding encode_utf8 encode_params
body_of_data (file chunks) fields = (streamed (file chunks), none)
body_of_data (iterator chunks) fields = (streamed (iterator chunks), none)
body_of_data (bytes_like bytes) fields = (fixed bytes, none)
body_of_data (memory_view bytes) fields = (fixed bytes, none)
body_of_data (string s) fields = (fixed (encode_utf8 s), none)
body_of_data source fields =
    (fixed (encode_utf8 (encode_params fields)), some (codes "application/x-www-form-urlencoded"))

-- The last test of `prepare_body`, which names no `memoryview`.
unfoldable pub body_if_empty : Source → Body
body_if_empty (bytes_like bytes) = fixed []
body_if_empty (string s) = fixed []
body_if_empty source = missing

-- The body and its content type. `files` is what `encode_multipart` gives for files that are not empty,
-- and `json` what `json_body` gives for a value that is not `None`.
unfoldable pub choose_body :
    Source → List (Data × Value) → Option (Bytes × Text) → Option Bytes → Body × Option Text
unfolding is_given body_of_data body_if_empty
choose_body source fields none none =
    if is_given source then body_of_data source fields else (body_if_empty source, none)
choose_body source fields none (some json) =
    if is_given source
    then body_of_data source fields
    else (fixed json, some (codes "application/json"))
choose_body source fields (some (bytes, kind)) none = (fixed bytes, some kind)
choose_body source fields (some (bytes, kind)) (some json) =
    if is_given source
    then (fixed bytes, some kind)
    else (fixed json, some (codes "application/json"))

unfoldable pub with_content_type : Option Text → Headers → Headers
unfolding text_eq
with_content_type none h = h
with_content_type (some []) h = h
with_content_type (some (c ∷ kind)) h =
    if has (codes "content-type") h.store then h else set_item h (codes "Content-Type") (c ∷ kind)

-- `prepare_body`
unfoldable pub prepare_body :
    Source
    → List (Data × Value)
    → Option (Bytes × Text)
    → Option Bytes
    → PreparedRequest
    → PreparedRequest
unfolding choose_body prepare_content_length with_content_type
prepare_body source fields files json r =
    let (body, kind) = choose_body source fields files json in
    let framed = prepare_content_length (record r { body = body }) in
    record framed { headers = with_content_type kind framed.headers }

-- `prepare_auth`; the callable is an argument. It may change whatever it likes.
unfoldable pub prepare_auth :
    Option (PreparedRequest → PreparedRequest) → PreparedRequest → PreparedRequest
unfolding prepare_content_length
prepare_auth none r = r
prepare_auth (some auth) r = prepare_content_length (auth r)

unfoldable pub prepare_method : Option Text → Option Text
unfolding upper
prepare_method none = none
prepare_method (some method) = some (upper method)

-- The request before its body is prepared, with the order of headers that the session sets.
unfoldable pub start : Option Text → Given → List Text → PreparedRequest
unfolding prepare_method prepare_headers
start method headers order = record {
  method = prepare_method method;
  headers = prepare_headers headers;
  body = missing;
  header_order = order;
}

-- `prepare`
unfoldable pub prepare :
    Option Text
    → Given
    → List Text
    → Source
    → List (Data × Value)
    → Option (Bytes × Text)
    → Option Bytes
    → Option (PreparedRequest → PreparedRequest)
    → PreparedRequest
unfolding start prepare_body prepare_auth
prepare method headers order source fields files json auth =
    prepare_auth auth (prepare_body source fields files json (start method headers order))

-- `{name.lower(): index for index, name in enumerate(self.header_order)}`
unfoldable pub rank_names : ℕ → Dict Text ℕ → List Text → Dict Text ℕ
unfolding lower text_eq
rank_names i ranking [] = ranking
rank_names i ranking (name ∷ names) = rank_names (i + 1) (insert (lower name) i ranking) names

unfoldable pub rank_or : ℕ → Option ℕ → ℕ
rank_or fallback none = fallback
rank_or fallback (some i) = i

unfoldable pub rank_of : Dict Text ℕ → Text × Text → ℕ
unfolding rank_or lower text_eq
rank_of ranking (name, value) = rank_or (length ranking) (lookup (lower name) ranking)

module _ (rank : Text × Text → ℕ) where
  unfoldable pub insert_pair : Text × Text → List (Text × Text) → List (Text × Text)
  insert_pair p [] = p ∷ []
  insert_pair p (q ∷ pairs) =
      let rest = insert_pair p pairs in if ltb (rank q) (rank p) then q ∷ rest else p ∷ q ∷ pairs

  -- `sorted(pairs, key=rank)`, which is stable.
  unfoldable pub sorted : List (Text × Text) → List (Text × Text)
  unfolding insert_pair
  sorted [] = []
  sorted (p ∷ pairs) = insert_pair p (sorted pairs)

unfoldable pub order_pairs : List Text → List (Text × Text) → List (Text × Text)
unfolding rank_names rank_of sorted
order_pairs [] pairs = pairs
order_pairs (name ∷ names) pairs = sorted (rank_of (rank_names 0 [] (name ∷ names))) pairs

-- `wire_headers`
unfoldable pub wire_headers : PreparedRequest → List (Text × Text)
unfolding order_pairs
wire_headers r = order_pairs r.header_order (multi_items r.headers)
