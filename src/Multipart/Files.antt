-- ===== src/Multipart/Files.antt =====
-- `CurlMime.addpart`, `_normalize_file_entry`, `encode_multipart`, and the bodies that are not
-- multipart. What a file or an open handle gives when it is read is part of the argument;
-- `mimetypes.guess_type` is an argument, `guess`.
use chrome_client.Base.{Option, none, some, List, [], ◌∷◌, ◌++◌, Bool, true, false, if◌then◌else◌}
use chrome_client.Base.Text.{Text, codes}
use chrome_client.Async.State.{Bytes}
use chrome_client.Multipart.{
  Data, nothing, binary, bytes_of, encode_utf8, Part, CurlMime, encode, or_else,
}

-- What `addpart` takes the data from: a path with the bytes and the base name of the file, a handle
-- with what it reads and the name that `guess_filename` finds, or the data itself.
pub data Given : Type 0 where
  local_path : Text → Text → Bytes → Given
  handle : Data → Option Text → Given
  plain : Data → Given

abbrev or_guess : Option Text → Option Text → Option Text
or_guess none default = default
or_guess (some t) default = some t

unfoldable pub mime_type : (Text → Option Text) → Text → Text
unfolding or_else
mime_type guess name = or_else (guess name) (codes "application/octet-stream")

unfoldable pub add_given :
    (Text → Option Text)
    → Text
    → Option Text
    → Option Text
    → Given
    → Option Text
    → List (Data × Data)
    → Part
unfolding mime_type
add_given guess name content_type filename (local_path path base bytes) encoding headers = record {
  name = name;
  filename = or_guess filename (some base);
  content_type = or_guess content_type (some (mime_type guess path));
  content = binary bytes;
  headers = headers;
  content_transfer_encoding = encoding;
}
add_given guess name content_type filename (handle read guessed) encoding headers = record {
  name = name;
  filename = or_guess filename guessed;
  content_type = content_type;
  content = read;
  headers = headers;
  content_transfer_encoding = encoding;
}
add_given guess name content_type filename (plain found) encoding headers = record {
  name = name;
  filename = filename;
  content_type = content_type;
  content = found;
  headers = headers;
  content_transfer_encoding = encoding;
}

-- `CurlMime.addpart`
unfoldable pub addpart : CurlMime → Part → CurlMime
addpart mime part = record mime { parts = mime.parts ++ part ∷ [] }

-- `CurlMime.close`
unfoldable pub close : CurlMime → CurlMime
close mime = record mime { parts = [] }

-- The second element of a `files=` entry: an open handle, which may refuse to seek to where it is, or
-- data; with the name that `guess_filename` finds.
pub record Handle : Type 0 where
  pub read : Data
  pub rewinds : Bool
  pub guessed : Option Text

pub data Entry : Type 0 where
  bare : Handle → Entry
  named : Option Text → Handle → Entry
  typed : Option Text → Handle → Option Text → Entry
  headed : Option Text → Handle → Option Text → List (Data × Data) → Entry
  other_length : Entry

pub data Normalized : Type 0 where
  normalized : Part → Normalized
  unrewindable : Normalized
  value_error : Normalized

unfoldable pub type_of : (Text → Option Text) → Option Text → Option Text → Option Text
unfolding mime_type
type_of guess filename (some t) = some t
type_of guess none none = none
type_of guess (some name) none = some (mime_type guess name)

unfoldable pub part_of :
    (Text → Option Text)
    → Text
    → Option Text
    → Handle
    → Option Text
    → List (Data × Data)
    → Normalized
unfolding type_of
part_of guess field filename h content_type headers =
    if h.rewinds
    then normalized (record {
      name = field;
      filename = filename;
      content_type = type_of guess filename content_type;
      content = h.read;
      headers = headers;
      content_transfer_encoding = none;
    })
    else unrewindable

-- `_normalize_file_entry`
unfoldable pub normalize_file_entry : (Text → Option Text) → Text → Entry → Normalized
unfolding part_of
normalize_file_entry guess field (bare h) = part_of guess field h.guessed h none []
normalize_file_entry guess field (named filename h) = part_of guess field filename h none []
normalize_file_entry guess field (typed filename h t) = part_of guess field filename h t []
normalize_file_entry guess field (headed filename h t headers) =
    part_of guess field filename h t headers
normalize_file_entry guess field other_length = value_error

-- An item of `data=`: data, where `nothing` is `None`, or an open handle.
pub data Item : Type 0 where
  value : Data → Item
  opened : Handle → Item

-- The parts so far, or the exception.
pub data Parts : Type 0 where
  collected : List Part → Parts
  refused : Normalized → Parts

unfoldable pub add_normalized : Normalized → Parts → Parts
add_normalized (normalized part) (collected parts) = collected (part ∷ parts)
add_normalized (normalized part) (refused e) = refused e
add_normalized e later = refused e

unfoldable pub simple_part : Text → Data → Part
unfolding bytes_of
simple_part name d = record {
  name = name;
  filename = none;
  content_type = none;
  content = binary (bytes_of d);
  headers = [];
  content_transfer_encoding = none;
}

unfoldable pub add_item : (Text → Option Text) → Text → Item → Parts → Parts
unfolding add_normalized simple_part normalize_file_entry
add_item guess key (value nothing) later = later
add_item guess key (value d) later = add_normalized (normalized (simple_part key d)) later
add_item guess key (opened h) later = add_normalized (normalize_file_entry guess key (bare h)) later

unfoldable pub add_items : (Text → Option Text) → Text → List Item → Parts → Parts
unfolding add_item
add_items guess key [] later = later
add_items guess key (item ∷ items) later = add_item guess key item (add_items guess key items later)

unfoldable pub add_entries : (Text → Option Text) → Text → List Entry → Parts → Parts
unfolding add_normalized normalize_file_entry
add_entries guess field [] later = later
add_entries guess field (e ∷ entries) later =
    add_normalized (normalize_file_entry guess field e) (add_entries guess field entries later)

unfoldable pub add_files : (Text → Option Text) → List (Text × List Entry) → Parts
unfolding add_entries
add_files guess [] = collected []
add_files guess ((field, entries) ∷ files) = add_entries guess field entries (add_files guess files)

-- The parts of the fields in front of those of the files. The fields are read first, so an exception of
-- a field comes before one of a file.
unfoldable pub collect :
    (Text → Option Text) → List (Text × List Item) → List (Text × List Entry) → Parts
unfolding add_items add_files
collect guess [] files = add_files guess files
collect guess ((key, items) ∷ fields) files = add_items guess key items (collect guess fields files)

pub data Encoded : Type 0 where
  encoded : Bytes × Text → Encoded
  raised : Normalized → Encoded

unfoldable pub encode_parts : Parts → Option Text → Text → Encoded
unfolding encode
encode_parts (collected parts) boundary random =
    encoded (encode (record { parts = parts; boundary = none }) boundary random)
encode_parts (refused e) boundary random = raised e

-- `encode_multipart`; a field or an entry that is no list is a list of one, and a field that is `None`
-- is an empty list.
unfoldable pub encode_multipart :
    (Text → Option Text)
    → List (Text × List Item)
    → List (Text × List Entry)
    → Option Text
    → Text
    → Encoded
unfolding encode_parts collect
encode_multipart guess fields files boundary random =
    encode_parts (collect guess fields files) boundary random

-- The sources that `iter_body` and `is_stream_body` tell apart. A file is the successive results of
-- its `read`, an iterator its chunks.
pub data Source : Type 0 where
  no_body : Source
  bytes_like : Bytes → Source
  memory_view : Bytes → Source
  string : Text → Source
  collection : List Data → Source
  file : List Data → Source
  iterator : List Data → Source

unfoldable pub all_bytes : List Data → List Bytes
unfolding bytes_of
all_bytes [] = []
all_bytes (chunk ∷ chunks) = bytes_of chunk ∷ all_bytes chunks

-- Reading ends at the first empty chunk.
unfoldable pub until_empty : List Bytes → List Bytes
until_empty [] = []
until_empty ([] ∷ chunks) = []
until_empty ((b ∷ bytes) ∷ chunks) = (b ∷ bytes) ∷ until_empty chunks

-- `iter_body`
unfoldable pub iter_body : Source → List Bytes
unfolding all_bytes until_empty encode_utf8
iter_body no_body = []
iter_body (bytes_like bytes) = bytes ∷ []
iter_body (memory_view bytes) = bytes ∷ []
iter_body (string s) = encode_utf8 s ∷ []
iter_body (file chunks) = until_empty (all_bytes chunks)
iter_body (collection chunks) = all_bytes chunks
iter_body (iterator chunks) = all_bytes chunks

-- `is_stream_body`
unfoldable pub is_stream_body : Source → Bool
is_stream_body (file chunks) = true
is_stream_body (iterator chunks) = true
is_stream_body body = false
