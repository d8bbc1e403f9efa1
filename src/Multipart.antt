-- ===== src/Multipart.antt =====
-- `multipart.py`: the parts of a multipart body and how they are written. Text holds no surrogates, so
-- `encode` does not fail; the encoding is the default one, UTF-8.
pub mod Files
pub mod Params
pub mod Injection
pub mod Reader
mod Tests
use chrome_client.Base.{ℕ, Option, none, some, List, [], ◌∷◌, ◌++◌, map}
use chrome_client.Base.Text.{Text, codes, join}
use chrome_client.Async.State.{Bytes}
use chrome_client.Utils.Quoting.{utf8}

-- `text.encode("utf-8")`
unfoldable pub encode_utf8 : Text → Bytes
unfolding utf8
encode_utf8 [] = []
encode_utf8 (c ∷ s) = utf8 c ++ encode_utf8 s

-- The values that `_bytes` tells apart; `other` holds what `str` gives.
pub data Data : Type 0 where
  nothing : Data
  binary : Bytes → Data
  text : Text → Data
  other : Text → Data

-- `_bytes`
unfoldable pub bytes_of : Data → Bytes
unfolding encode_utf8
bytes_of nothing = []
bytes_of (binary bytes) = bytes
bytes_of (text s) = encode_utf8 s
bytes_of (other s) = encode_utf8 s

-- `Part`. The headers are the pairs that a mapping or a sequence of pairs gives.
pub record Part : Type 0 where
  pub name : Text
  pub filename : Option Text
  pub content_type : Option Text
  pub content : Data
  pub headers : List (Data × Data)
  pub content_transfer_encoding : Option Text

unfoldable pub disposition_end : Option Text → Text
disposition_end none = []
disposition_end (some filename) = codes "; filename=\"" ++ (filename ++ codes "\"")

unfoldable pub disposition : Text → Option Text → Text
unfolding disposition_end
disposition name filename =
    codes "form-data; name=\"" ++ (name ++ (codes "\"" ++ disposition_end filename))

-- A line for a text that is neither missing nor empty.
unfoldable pub line_if : Text → Option Text → List Bytes
unfolding encode_utf8
line_if label none = []
line_if label (some []) = []
line_if label (some (c ∷ t)) = (label ++ encode_utf8 (c ∷ t)) ∷ []

unfoldable pub header_line : Data × Data → Bytes
unfolding bytes_of
header_line (name, value) = bytes_of name ++ (codes ": " ++ bytes_of value)

-- `lines` of `render`.
unfoldable pub lines_of : Part → List Bytes
unfolding encode_utf8 disposition line_if header_line
lines_of p =
    (codes "Content-Disposition: " ++ encode_utf8 (disposition p.name p.filename))
    ∷ (line_if (codes "Content-Type: ") p.content_type
        ++ (line_if (codes "Content-Transfer-Encoding: ") p.content_transfer_encoding
            ++ map header_line p.headers))

abbrev pub crlf : Bytes
crlf = 13 ∷ 10 ∷ []

-- `Part.render`
unfoldable pub render : Part → Bytes
unfolding lines_of bytes_of join
render p = join crlf (lines_of p) ++ (crlf ++ (crlf ++ (bytes_of p.content ++ crlf)))

-- `CurlMime`
pub record CurlMime : Type 0 where
  pub parts : List Part
  pub boundary : Option Text

-- `boundary or self.boundary or uuid.uuid4().hex`; the random name is an argument.
unfoldable pub or_else : Option Text → Text → Text
or_else none default = default
or_else (some []) default = default
or_else (some (c ∷ t)) default = c ∷ t

unfoldable pub boundary_of : CurlMime → Option Text → Text → Text
unfolding or_else
boundary_of mime boundary random = or_else boundary (or_else mime.boundary random)

unfoldable pub chunks_of : Bytes → List Part → Bytes
unfolding render
chunks_of marker [] = marker ++ (codes "--" ++ crlf)
chunks_of marker (p ∷ parts) = marker ++ (crlf ++ (render p ++ chunks_of marker parts))

-- `CurlMime.encode`: the body and the content type.
unfoldable pub encode : CurlMime → Option Text → Text → Bytes × Text
unfolding boundary_of chunks_of encode_utf8
encode mime boundary random =
    let b = boundary_of mime boundary random in
    (
      chunks_of (encode_utf8 (codes "--" ++ b)) mime.parts,
      codes "multipart/form-data; boundary=" ++ b,
    )
