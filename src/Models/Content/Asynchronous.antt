-- ===== src/Models/Content/Asynchronous.antt =====
-- `AsyncResponse.aiter_content`, without `decode_unicode`, and `aclose`.
use chrome_client.Base.{
  ℕ, zero, suc, Option, none, some, List, [], ◌∷◌, ◌++◌, take, drop, length, leb, ◌==◌, ℕ_eq,
  if◌then◌else◌, true,
}
use chrome_client.Async.State.{Bytes, Failure}
use chrome_client.Models.Content.{Script, Response, Result, ok, content_chunk_size, iter_content}

pub record AsyncResponse : Type 0 where
  pub base : Response
  pub async_reader : Option Script

-- `chunk_size or CONTENT_CHUNK_SIZE`
unfoldable pub size_or_default : Option ℕ → ℕ
unfolding ℕ_eq
size_or_default none = content_chunk_size
size_or_default (some n) = if n == 0 then content_chunk_size else n

-- The loop over `pending` of `aiter_content`: a block is cut before it is yielded.
unfoldable pub acut : ℕ → ℕ → Bytes → List Bytes × Bytes
acut zero n pending = ([], pending)
acut (suc fuel) n pending =
    let block = take n pending in
    let (blocks, rest) = acut fuel n (drop n pending) in
    if leb n (length pending) then (block ∷ blocks, rest) else ([], pending)

-- The loop over the reader: the blocks, and what is pending at its end.
unfoldable pub arechunk : ℕ → Bytes → List Bytes → List Bytes × Bytes
unfolding acut
arechunk n pending [] = ([], pending)
arechunk n pending (chunk ∷ chunks) =
    let joined = pending ++ chunk in
    let (blocks, rest) = acut (length joined) n joined in
    let (more, last) = arechunk n rest chunks in (blocks ++ more, last)

-- A failure of the reader leaves through the `finally`; else what is pending is yielded.
unfoldable pub aend : List Bytes → Bytes → Option Failure → Script
aend blocks pending (some e) = record { blocks = blocks; ending = some e }
aend blocks [] none = record { blocks = blocks; ending = none }
aend blocks (byte ∷ pending) none = record {
  blocks = blocks ++ (byte ∷ pending) ∷ [];
  ending = none;
}

unfoldable pub astream : ℕ → Script → Script
unfolding arechunk aend
astream n reader =
    let (blocks, pending) = arechunk n [] reader.blocks in aend blocks pending reader.ending

unfoldable pub with_base : AsyncResponse → Result Script × Response → Result Script × AsyncResponse
with_base r (found, base) = (found, record r { base = base })

unfoldable pub aiter_sized : ℕ → Option Script → AsyncResponse → Result Script × AsyncResponse
unfolding astream with_base iter_content
aiter_sized n (some reader) r = (
  ok (astream n reader),
  record r { async_reader = none; base = record r.base { consumed = true } },
)
aiter_sized n none r = with_base r (iter_content (some n) r.base)

unfoldable pub aiter_content : Option ℕ → AsyncResponse → Result Script × AsyncResponse
unfolding aiter_sized size_or_default
aiter_content chunk_size r = aiter_sized (size_or_default chunk_size) r.async_reader r

-- `aclose`, whose reader's own `aclose(cancel=True)` ends it.
unfoldable pub aclose : AsyncResponse → AsyncResponse
aclose r = record r { async_reader = none; base = record r.base { consumed = true } }
