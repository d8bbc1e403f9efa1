-- ===== src/Multipart/Tests.antt =====
-- Concrete bodies, and instances of the theorems.
use chrome_client.Base.{◌≡◌, refl, none, some, List, [], ◌∷◌, ◌++◌, map, All, arith, ℕ_eq, false}
use chrome_client.Base.Text.{codes, text_eq}
use chrome_client.Base.Splitting.{Lacks}
use chrome_client.Async.State.{Bytes}
use chrome_client.Multipart.{
  Data, nothing, binary, text, Part, CurlMime, encode, lines_of, bytes_of, encode_utf8, boundary_of,
  render,
}
use chrome_client.Multipart.Files.{Handle, named, value, raised, unrewindable, encode_multipart}
use chrome_client.Multipart.Injection.{render-posed}
use chrome_client.Multipart.Params.{Value, key_bytes, quote_plus, single, several, encode_params}
use chrome_client.Multipart.Params.RoundTrip.{
  pairs_to_send, encode_pair, ArePairs, read_form, read_form-encode_params,
}
use chrome_client.Multipart.Reader.{IsPlain, read_parts, read_parts-encode, split_lines}

abbrev upload : Part
upload = record {
  name = codes "a";
  filename = some (codes "b");
  content_type = some (codes "c/d");
  content = binary (1 ∷ 13 ∷ 10 ∷ 2 ∷ []);
  headers = (text (codes "X"), text (codes "y")) ∷ [];
  content_transfer_encoding = none;
}

abbrev form : CurlMime
form = record { parts = upload ∷ []; boundary = some (codes "Q") }

abbrev written : Bytes
written =
    codes "--Q\r\nContent-Disposition: form-data; name=\"a\"; filename=\"b\"\r\n"
    ++ (codes "Content-Type: c/d\r\nX: y\r\n\r\n" ++ (1 ∷ 13 ∷ 10 ∷ 2 ∷ codes "\r\n--Q--\r\n"))

encode-form : encode form none (codes "Z") ≡ (written, codes "multipart/form-data; boundary=Q")
unfolding encode
encode-form = refl

-- The second of two files cannot be rewound.
abbrev stuck : Handle
stuck = record { read = text (codes "x"); rewinds = false; guessed = none }

stuck_file :
    encode_multipart
      (λ _. none)
      ((codes "k", value nothing ∷ []) ∷ [])
      ((codes "f", named none stuck ∷ []) ∷ [])
      none
      (codes "Z")
    ≡ raised unrewindable
unfolding encode_multipart
stuck_file = refl

abbrev fields : List (Data × Value)
fields =
    (text (codes "a b"), single (text (codes "1&2")))
    ∷ (text (codes "c"), several (nothing ∷ text (0xE9 ∷ []) ∷ []))
    ∷ []

encode_fields : encode_params fields ≡ codes "a+b=1%262&c=%C3%A9"
unfolding encode_params quote_plus
encode_fields = refl

bytes : ArePairs (pairs_to_send fields)
unfolding pairs_to_send encode_pair key_bytes
bytes = ground arith

read_form-encode_params_example : read_form (encode_params fields) ≡ pairs_to_send fields
read_form-encode_params_example = read_form-encode_params fields bytes

render-posed_example :
    render
      (record upload { name = codes "n" ++ codes "\"; filename=\"" ++ codes "f"; filename = none })
    ≡ render (record upload { name = codes "n"; filename = some (codes "f") })
render-posed_example = render-posed upload (codes "n") (codes "f")

one_line : Lacks 13 (encode_utf8 (codes "--" ++ boundary_of form none (codes "Z")))
unfolding encode_utf8 boundary_of
one_line = ground arith

plain_parts :
    All (IsPlain (encode_utf8 (codes "--" ++ boundary_of form none (codes "Z")))) form.parts
unfolding encode_utf8 boundary_of lines_of split_lines
plain_parts = ground arith

read_parts-encode_example :
    read_parts
      (encode_utf8 (codes "--" ++ boundary_of form none (codes "Z")))
      (encode form none (codes "Z")).0
    ≡ map (λ (p : Part). (lines_of p, bytes_of p.content)) form.parts
read_parts-encode_example = read_parts-encode form none (codes "Z") one_line plain_parts
