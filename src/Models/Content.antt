-- ===== src/Models/Content.antt =====
-- How a `Response` holds its body: the reader that the session left, the content once it is read,
-- and the blocks that `iter_content` cuts. A reader is a `_SyncBodyReader` and what the Core still has
-- for it; iterating it is that of Async/Reader. A script is what an iteration answers: its chunks, then
-- a normal end or a failure.
pub mod Blocks
pub mod Asynchronous
pub mod Readers
pub mod Laws
use chrome_client.Base.{
  ℕ, zero, suc, ◌+◌, Option, none, some, List, [], ◌∷◌, ◌++◌, Bool, true, false, length, ltb, leb,
  ◌&&◌, ◌==◌, ℕ_eq, if◌then◌else◌, take, drop, concat,
}
use chrome_client.Async.State.{Bytes, Failure}
use chrome_client.Async.Reader.{Next, SyncReader, iterate, failure_of}

-- `CONTENT_CHUNK_SIZE`
abbrev pub content_chunk_size : ℕ
content_chunk_size = 10_240

pub record Script : Type 0 where
  pub blocks : List Bytes
  pub ending : Option Failure

-- A reader with the answers of the Core to its calls.
pub record BodyReader : Type 0 where
  pub answers : List Next
  pub state : SyncReader

-- What iterating a reader to its end answers, and the reader after it.
unfoldable pub iterated : BodyReader → Script × BodyReader
unfolding iterate failure_of
iterated b =
    let out = iterate b.answers b.state in
    (record { blocks = out.0; ending = failure_of out.1 }, record b { state = out.2 })

pub record Response : Type 0 where
  pub content : Option Bytes
  pub consumed : Bool
  pub body_reader : Option BodyReader

pub data Error : Type 0 where
  stream_consumed : Error
  value_error : Error
  read_failed : Failure → Error

pub data Result {ℓ} (A : Type ℓ) : Type ℓ where
  ok : A → Result A
  raised : Error → Result A

-- `while len(pending) >= chunk_size: yield pending[:chunk_size]; pending = pending[chunk_size:]`
unfoldable pub cut : ℕ → ℕ → Bytes → List Bytes × Bytes
cut zero n pending = ([], pending)
cut (suc fuel) n pending =
    let (blocks, rest) = cut fuel n (drop n pending) in
    if leb n (length pending) then (take n pending ∷ blocks, rest) else ([], pending)

-- `for chunk in reader: pending += chunk; …`
unfoldable pub rechunk : ℕ → Bytes → List Bytes → List Bytes × Bytes
unfolding cut
rechunk n pending [] = ([], pending)
rechunk n pending (chunk ∷ chunks) =
    let (blocks, rest) = cut (length (pending ++ chunk)) n (pending ++ chunk) in
    let (more, last) = rechunk n rest chunks in (blocks ++ more, last)

-- `if pending: yield pending`
unfoldable pub with_rest : List Bytes → Bytes → List Bytes
with_rest blocks [] = blocks
with_rest blocks (byte ∷ pending) = blocks ++ (byte ∷ pending) ∷ []

-- The failure of a reader passes through, and what was pending is lost.
unfoldable pub end_stream : List Bytes × Bytes → Option Failure → Script
unfolding with_rest
end_stream (blocks, last) none = record { blocks = with_rest blocks last; ending = none }
end_stream (blocks, last) (some e) = record { blocks = blocks; ending = some e }

unfoldable pub stream_chunks : ℕ → Script → Script
unfolding rechunk end_stream
stream_chunks n reader = end_stream (rechunk n [] reader.blocks) reader.ending

-- `(body[offset:offset + chunk_size] for offset in range(0, len(body), chunk_size))`
unfoldable pub slices : ℕ → ℕ → ℕ → Bytes → List Bytes
slices zero n offset body = []
slices (suc fuel) n offset body =
    let rest = slices fuel n (offset + n) body in
    if ltb offset (length body) then take n (drop offset body) ∷ rest else []

-- A generator that is over yields nothing more.
abbrev pub closed_reader : Script
closed_reader = record { blocks = []; ending = none }

-- `b"".join(...)`
unfoldable pub joined : Script → Result Bytes
joined script = elim script.ending [
  | none ↦ ok (concat script.blocks)
  | some e ↦ raised (read_failed e)
]

-- `Response.content`
unfoldable pub read_reader : Option BodyReader → Result Bytes
unfolding joined iterated
read_reader none = ok []
read_reader (some reader) = joined (iterated reader).0

-- A reader that raised is kept, as its iteration left it.
unfoldable pub left_behind : Option BodyReader → Option BodyReader
unfolding iterated
left_behind none = none
left_behind (some reader) = some (iterated reader).1

unfoldable pub store_content : Result Bytes → Response → Result Bytes × Response
unfolding left_behind
store_content (ok body) r =
    (ok body, record r { content = some body; body_reader = none; consumed = true })
store_content (raised e) r = (raised e, record r { body_reader = left_behind r.body_reader })

unfoldable pub take_content : Option Bytes → Response → Result Bytes × Response
unfolding read_reader store_content
take_content (some body) r = (ok body, r)
take_content none r = store_content (read_reader r.body_reader) r

unfoldable pub content : Response → Result Bytes × Response
unfolding take_content
content r = take_content r.content r

unfoldable pub slice_content : ℕ → Result Bytes × Response → Result Script × Response
unfolding slices
slice_content n (ok body, r) =
    (ok (record { blocks = slices (length body) n 0 body; ending = none }), r)
slice_content n (raised e, r) = (raised e, r)

unfoldable pub is_unread : Option Bytes → Bool
is_unread none = true
is_unread (some body) = false

-- The generator that `iter_content` returns, with what its first step does to the response.
unfoldable pub iter_sized : ℕ → Option BodyReader → Response → Result Script × Response
unfolding stream_chunks iterated slice_content content
iter_sized n (some reader) r =
    (ok (stream_chunks n (iterated reader).0), record r { body_reader = none; consumed = true })
iter_sized n none r =
    if r.consumed && is_unread r.content
    then (raised stream_consumed, r)
    else slice_content n (content r)

-- `chunk_size` is a natural number here; a negative one raises as 0 does.
unfoldable pub iter_content : Option ℕ → Response → Result Script × Response
unfolding iter_sized
iter_content none r = iter_sized content_chunk_size r.body_reader r
iter_content (some n) r = if n == 0 then (raised value_error, r) else iter_sized n r.body_reader r

-- `Response.close`; the reader's own `close(cancel=True)` ends it.
unfoldable pub close : Response → Response
close r = record r { body_reader = none; consumed = true }
