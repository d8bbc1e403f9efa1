-- ===== src/Models/Head.antt =====
-- The head of a response: `parse_raw_headers`, the reason, the protocol and the status. The block is
-- text; the codec that `parse_raw_headers` decodes bytes with is not modelled. `upper` is exact on
-- ASCII, the range of a status line.
pub mod Parsing
pub mod RoundTrip
use chrome_client.Base.{
  ℕ, zero, suc, ◌-◌, Option, none, some, List, [], ◌∷◌, ◌++◌, map, Bool, true, false, not, ◌&&◌,
  ◌||◌, ◌==◌, leb, ltb, contains, ℕ_eq, if◌then◌else◌,
}
use chrome_client.Base.Dict.{Dict, lookup}
use chrome_client.Base.Text.{
  Text, codes, strip, strip_start, is_space, split_once, all_digits, text_eq,
}
use chrome_client.Structures.Headers.{Headers, empty, add}
use chrome_client.Base.Text.{extend_first}
use chrome_client.Models.Reasons.{reasons}

unfoldable pub is_break : ℕ → Bool
unfolding ℕ_eq
is_break c =
    (leb 10 c && leb c 13) || (leb 28 c && leb c 30) || c == 0x85 || c == 0x2028 || c == 0x2029

-- `str(raw).splitlines()`
unfoldable pub text_lines_from : Bool → Text → List Text
unfolding is_break extend_first ℕ_eq
text_lines_from after_return [] = []
text_lines_from after_return (c ∷ s) =
    let rest = text_lines_from (c == 13) s in
    if after_return && c == 10
    then rest
    else (if is_break c then [] ∷ rest else extend_first c rest)

unfoldable pub text_lines : Text → List Text
unfolding text_lines_from
text_lines s = text_lines_from false s

unfoldable pub is_empty : Text → Bool
is_empty [] = true
is_empty (c ∷ s) = false

unfoldable pub add_line : Headers → Text × Option Text → Headers
unfolding strip
add_line h (name, none) = h
add_line h (name, some value) = add h (strip name) (strip value)

-- One pass of the loop; `first` is the test `index == 0`.
unfoldable pub parse_line : Bool → Text × Headers → Text → Text × Headers
unfolding is_empty add_line split_once strip ℕ_eq
parse_line first (status_line, h) line =
    if is_empty (strip line)
    then (status_line, h)
    else if first && not (contains (split_once b' ' line).0 b':')
    then (strip line, h)
    else (status_line, add_line h (split_once b':' line))

unfoldable pub parse_lines : Bool → Text × Headers → List Text → Text × Headers
parse_lines first parsed [] = parsed
parse_lines first parsed (line ∷ lines) = parse_lines false (parse_line first parsed line) lines

unfoldable pub parse_raw_headers : Text → Text × Headers
unfolding parse_lines text_lines
parse_raw_headers raw = parse_lines true ([], empty (codes "utf-8")) (text_lines raw)

-- The word that stands first, and what follows it.
unfoldable pub take_word : Text → Text × Text
unfolding is_space ℕ_eq
take_word [] = ([], [])
take_word (c ∷ s) =
    let (word, rest) = take_word s in if is_space c then ([], c ∷ s) else (c ∷ word, rest)

-- `s.split(None, n)`
unfoldable pub split_words : ℕ → Text → List Text
unfolding strip_start is_space ℕ_eq take_word
split_words zero s = let t = strip_start is_space s in if is_empty t then [] else t ∷ []
split_words (suc n) s =
    let t = strip_start is_space s in
    let more = split_words n (take_word t).1 in if is_empty t then [] else (take_word t).0 ∷ more

unfoldable pub or_empty : Option Text → Text
or_empty none = []
or_empty (some reason) = reason

-- `len(parts) >= 3 and parts[1].isdigit()`
unfoldable pub reason_of : List Text → ℕ → Text
unfolding or_empty
reason_of (version ∷ status ∷ reason ∷ more) status_code =
    if all_digits status then reason else or_empty (lookup status_code reasons)
reason_of parts status_code = or_empty (lookup status_code reasons)

unfoldable pub reason_from_status_line : Text → ℕ → Text
unfolding reason_of split_words
reason_from_status_line status_line status_code = reason_of (split_words 2 status_line) status_code

unfoldable pub upper : Text → Text
upper = map (λ (c : ℕ). if leb b'a' c && leb c b'z' then c - 32 else c)

abbrev pub versions : Dict Text Text
versions =
    (codes "HTTP/1.0", codes "HTTP/1.0")
    ∷ (codes "HTTP/1.1", codes "HTTP/1.1")
    ∷ (codes "HTTP/2", codes "HTTP/2")
    ∷ (codes "HTTP/2.0", codes "HTTP/2")
    ∷ (codes "HTTP/3", codes "HTTP/3")
    ∷ (codes "HTTP/3.0", codes "HTTP/3")
    ∷ []

unfoldable pub version_of : Text → Option Text → Text
version_of token none = token
version_of token (some version) = version

-- The result of `http_version_from_status_line`: `none` is the `IndexError` of a line of spaces.
unfoldable pub version_from : List Text → Option (Option Text)
unfolding upper version_of text_eq
version_from [] = none
version_from (word ∷ words) = some (some (version_of (upper word) (lookup (upper word) versions)))

unfoldable pub http_version_from_status_line : Text → Option (Option Text)
unfolding version_from split_words is_empty
http_version_from_status_line line =
    if is_empty line then some none else version_from (split_words 1 line)

unfoldable pub witnessed : Option (Option Text) → Option (Option Text)
unfolding text_eq
witnessed (some (some token)) =
    if contains (codes "HTTP/1.0" ∷ codes "HTTP/2" ∷ codes "HTTP/3" ∷ []) token
    then some (some token)
    else some none
witnessed found = found

unfoldable pub negotiated_http_version : Text → Option (Option Text)
unfolding witnessed http_version_from_status_line
negotiated_http_version line = witnessed (http_version_from_status_line line)

-- What `raise_for_status` does.
pub data Verdict : Type 0 where
  returned client_error server_error : Verdict

unfoldable pub raise_for_status : Option ℕ → Verdict
raise_for_status none = returned
raise_for_status (some status) =
    if leb 400 status && ltb status 500
    then client_error
    else if leb 500 status && ltb status 600
    then server_error
    else returned

unfoldable pub is_ok : Verdict → Bool
is_ok returned = true
is_ok client_error = false
is_ok server_error = false

unfoldable pub ok : Option ℕ → Bool
unfolding is_ok raise_for_status
ok status = is_ok (raise_for_status status)
