-- ===== src/Models/Raw.antt =====
-- `RawStream`, the file-like view over a body. The generator that `_chunks` keeps is what is left of
-- its blocks. `amt` is a natural number or missing; `read(-1)` is not modelled.
pub mod Flat
pub mod Filling
pub mod Holds
pub mod Refine
pub mod Streaming
use chrome_client.Base.{
  ℕ, zero, suc, Option, none, some, List, [], ◌∷◌, ◌++◌, Bool, true, false, length, ltb,
  if◌then◌else◌, take, drop, concat,
}
use chrome_client.Async.State.{Bytes, Failure}
use chrome_client.Models.Content.{
  Script, Response, Error, read_failed, Result, ok, raised, closed_reader, content_chunk_size,
  iter_content,
}
use chrome_client.Models.Content
use chrome_client.Models.Raw.Flat

pub record RawStream : Type 0 where
  pub response : Response
  pub buffer : Bytes
  pub iterator : Option Script
  pub closed : Bool

unfoldable pub create : Response → RawStream
create response = record { response = response; buffer = []; iterator = none; closed = false }

unfoldable pub keep_iterator : RawStream → Result Script × Response → Result Script × RawStream
keep_iterator r (ok s, response) = (ok s, record r { response = response; iterator = some s })
keep_iterator r (raised e, response) = (raised e, record r { response = response })

unfoldable pub chunks_of : RawStream → Option Script → Result Script × RawStream
unfolding keep_iterator
chunks_of r (some s) = (ok s, r)
chunks_of r none = keep_iterator r (iter_content (some content_chunk_size) r.response)

unfoldable pub chunks : RawStream → Result Script × RawStream
unfolding chunks_of
chunks r = chunks_of r r.iterator

-- What `while len(self._buffer) < amt` leaves: whether it raised, the buffer, and the generator.
abbrev pub Filled : Type 0
Filled = Option Failure × Bytes × Script

unfoldable pub fill : ℕ → Bytes → List Bytes → Option Failure → Filled
fill amt buffer [] ending =
    if ltb (length buffer) amt
    then (ending, buffer, closed_reader)
    else (none, buffer, record { blocks = []; ending = ending })
fill amt buffer (block ∷ blocks) ending =
    let rest = fill amt (buffer ++ block) blocks ending in
    if ltb (length buffer) amt
    then rest
    else (none, buffer, record { blocks = block ∷ blocks; ending = ending })

-- `data, self._buffer = self._buffer[:amt], self._buffer[amt:]`
unfoldable pub take_buffer : ℕ → RawStream → Result Bytes × RawStream
take_buffer amt r = (ok (take amt r.buffer), record r { buffer = drop amt r.buffer })

unfoldable pub end_fill : ℕ → RawStream → Filled → Result Bytes × RawStream
unfolding take_buffer
end_fill amt r (none, buffer, s) = take_buffer amt (record r { buffer = buffer; iterator = some s })
end_fill amt r (some e, buffer, s) =
    (raised (read_failed e), record r { buffer = buffer; iterator = some s })

unfoldable pub read_blocks : ℕ → Result Script × RawStream → Result Bytes × RawStream
unfolding fill end_fill
read_blocks amt (ok s, r) = end_fill amt r (fill amt r.buffer s.blocks s.ending)
read_blocks amt (raised e, r) = (raised e, r)

unfoldable pub read_some : ℕ → RawStream → Result Bytes × RawStream
unfolding read_blocks take_buffer chunks
read_some amt r =
    if ltb (length r.buffer) amt then read_blocks amt (chunks r) else take_buffer amt r

unfoldable pub join_chunks : Option Failure → Script → RawStream → Result Bytes × RawStream
join_chunks none s r = (
  ok (r.buffer ++ concat s.blocks),
  record r { buffer = []; iterator = some closed_reader; closed = true },
)
join_chunks (some e) s r = (raised (read_failed e), record r { iterator = some closed_reader })

unfoldable pub read_rest : Result Script × RawStream → Result Bytes × RawStream
unfolding join_chunks
read_rest (ok s, r) = join_chunks s.ending s r
read_rest (raised e, r) = (raised e, r)

unfoldable pub read_open : Option ℕ → RawStream → Result Bytes × RawStream
unfolding read_rest read_some chunks
read_open none r = read_rest (chunks r)
read_open (some amt) r = read_some amt r

unfoldable pub read : Option ℕ → RawStream → Result Bytes × RawStream
unfolding read_open
read amt r = if r.closed then (ok [], r) else read_open amt r

unfoldable pub close : RawStream → RawStream
close r = record r { closed = true; response = Content.close r.response }

-- `target[:len(data)] = data`
unfoldable pub write_into : Bytes → Result Bytes × RawStream → Result ℕ × Bytes × RawStream
write_into target (ok found, r) = (ok (length found), found ++ drop (length found) target, r)
write_into target (raised e, r) = (raised e, target, r)

unfoldable pub readinto : Bytes → RawStream → Result ℕ × Bytes × RawStream
unfolding write_into read
readinto target r = write_into target (read (some (length target)) r)

-- How `stream` ends. `spent` is this model's: the fuel gave out.
pub data End : Type 0 where
  finished : End
  failed : Error → End
  spent : End

unfoldable pub add_block : Bytes → List Bytes × End × RawStream → List Bytes × End × RawStream
add_block block (blocks, e, r) = (block ∷ blocks, e, r)

unfoldable pub stream_step :
    (RawStream → List Bytes × End × RawStream)
    → Result Bytes × RawStream
    → List Bytes × End × RawStream
unfolding add_block
stream_step next (ok [], r) = ([], finished, r)
stream_step next (ok (byte ∷ block), r) = add_block (byte ∷ block) (next r)
stream_step next (raised e, r) = ([], failed e, r)

unfoldable pub stream : ℕ → ℕ → RawStream → List Bytes × End × RawStream
unfolding read stream_step
stream zero amt r = ([], spent, r)
stream (suc fuel) amt r = stream_step (stream fuel amt) (read (some amt) r)

-- A client's calls, and what it sees of them.
unfoldable pub run : List Flat.Op → RawStream → List (Result Bytes)
unfolding read close
run [] r = []
run (Flat.read_op amt ∷ ops) r = let (reply, next) = read amt r in reply ∷ run ops next
run (Flat.close_op ∷ ops) r = run ops (close r)
