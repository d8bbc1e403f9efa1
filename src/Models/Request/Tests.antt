-- ===== src/Models/Request/Tests.antt =====
-- Concrete requests, and instances of the theorems.
use chrome_client.Base.{arith, ◌≡◌, refl, Option, none, some, List, [], ◌∷◌, keep}
use chrome_client.Base.Text.{Text, codes, lower, text_eq}
use chrome_client.Base.Dict.{lookup, insert}
use chrome_client.Multipart.Files.{no_body, string, file}
use chrome_client.Multipart.{binary}
use chrome_client.Structures.Headers.{
  Headers, empty, add, set_item, multi_items, del_item, refresh, summary,
}
use chrome_client.Structures.Headers.Consistency.{set_item-IsConsistent}
use chrome_client.Models.Request.{
  PreparedRequest, from_items, missing, prepare, wire_headers, prepare_headers,
}
use chrome_client.Structures.Headers.{values_of, get_list}
use chrome_client.Models.Request.{content_length, transfer_encoding}
use chrome_client.Models.Request.Framing.{
  Unframed, LeavesFraming, same_kind, set_other, IsFramed, prepare-IsFramed,
}
use chrome_client.Models.Request.Order.{IsSorted, place, AllDiffer, named, wire_headers-IsSorted}

-- An authentication that sets a header.
abbrev bearer : PreparedRequest → PreparedRequest
bearer r = record r { headers = set_item r.headers (codes "Authorization") (codes "t") }

abbrev sent : List (Text × Option Text)
sent = (codes "content-length", some (codes "9")) ∷ (codes "X", none) ∷ []

-- A length that the caller gave is replaced.
posted :
    multi_items
      (prepare
        (some (codes "post"))
        (from_items sent)
        []
        (string (codes "hi"))
        []
        none
        none
        (some bearer)).headers
    ≡ (codes "Authorization", codes "t") ∷ (codes "Content-Length", codes "2") ∷ []
unfolding prepare multi_items set_item refresh summary lower
posted = refl

-- A length that the caller gave for a body that is not there goes out.
misframed :
    multi_items
      (prepare (some (codes "post")) (from_items sent) [] no_body [] none none none).headers
    ≡ (codes "content-length", codes "9") ∷ []
unfolding prepare multi_items set_item refresh summary lookup lower insert
misframed = refl

chunked :
    multi_items
      (prepare
        (some (codes "put"))
        (from_items sent)
        []
        (file (binary (1 ∷ []) ∷ []))
        []
        none
        none
        none).headers
    ≡ (codes "Transfer-Encoding", codes "chunked") ∷ []
unfolding prepare multi_items set_item refresh summary del_item lookup lower insert
chunked = refl

-- Headers of a caller that say nothing of the body.
abbrev other : List (Text × Option Text)
other = (codes "X", some (codes "1")) ∷ []

other-Unframed : Unframed (prepare_headers (from_items other))
unfolding prepare_headers set_item refresh summary values_of get_list lower
other-Unframed = (refl, refl)

bearer-LeavesFraming : LeavesFraming bearer
unfolding lower text_eq
bearer-LeavesFraming = record {
  consistent = λ r c. set_item-IsConsistent r.headers (codes "Authorization") (codes "t") c;
  method = λ r. refl;
  kind = λ r. same_kind r.body;
  lengths = λ r. set_other r.headers (codes "Authorization") (codes "t") content_length refl;
  encodings = λ r. set_other r.headers (codes "Authorization") (codes "t") transfer_encoding refl;
}

prepare-IsFramed_example : IsFramed (
    prepare
      (some (codes "post"))
      (from_items other)
      []
      (string (codes "hi"))
      []
      none
      none
      (some bearer))
prepare-IsFramed_example =
    prepare-IsFramed (some (codes "post")) (from_items other) [] (string (codes "hi")) [] none none
      (some bearer) other-Unframed bearer-LeavesFraming

abbrev three : Headers
three =
    add (add (add (empty (codes "utf-8")) (codes "X") (codes "1")) (codes "B") (codes "2"))
      (codes "a") (codes "3")

abbrev request : List Text → PreparedRequest
request order = record {
  method = some (codes "GET");
  headers = three;
  body = missing;
  header_order = order;
}

by_order :
    wire_headers (request (codes "A" ∷ codes "b" ∷ []))
    ≡ (codes "a", codes "3") ∷ (codes "B", codes "2") ∷ (codes "X", codes "1") ∷ []
unfolding wire_headers multi_items add refresh summary lookup insert
by_order = refl

-- A name that stands twice in the order: what the order does not name comes before what it names.
by_repeated_order :
    wire_headers (request (codes "A" ∷ codes "a" ∷ codes "b" ∷ []))
    ≡ (codes "a", codes "3") ∷ (codes "X", codes "1") ∷ (codes "B", codes "2") ∷ []
unfolding wire_headers multi_items add refresh summary lookup insert
by_repeated_order = refl

names_differ : AllDiffer (codes "A" ∷ codes "b" ∷ [])
unfolding lower
names_differ = ground arith

wire_headers-IsSorted_example :
    IsSorted
      (place (codes "A" ∷ codes "b" ∷ []))
      (wire_headers (request (codes "A" ∷ codes "b" ∷ [])))
    × ((key : Text)
        → keep (named key) (wire_headers (request (codes "A" ∷ codes "b" ∷ [])))
          ≡ keep (named key) (multi_items three))
wire_headers-IsSorted_example =
    wire_headers-IsSorted (request (codes "A" ∷ codes "b" ∷ [])) (codes "A") (codes "b" ∷ []) refl
      names_differ
