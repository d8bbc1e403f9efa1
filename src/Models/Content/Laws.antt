-- ===== src/Models/Content/Laws.antt =====
-- Reading a body twice, in each order of `content` and `iter_content`.
use chrome_client.Base.{
  zero, suc, ◌∷◌, ◌++◌, Option, Bool, length, drop, ℕ, ◌<◌, ◌≡◌, refl, sym, ap, ◌∙◌, none, some,
  List, [], ℕ_eq, arith,
}
use chrome_client.Async.State.{Bytes, Failure}
use chrome_client.Models.Content.{
  Script, Response, Result, value_error, read_failed, ok, raised, stream_chunks, read_reader,
  store_content, take_content, content, iter_sized, iter_content, BodyReader, iterated, joined,
  left_behind, cut, rechunk, with_rest, end_stream, content_chunk_size,
}
use chrome_client.Models.Content.Asynchronous.{
  AsyncResponse, size_or_default, aiter_content, aiter_sized, acut, arechunk, aend, astream,
}
use chrome_client.Models.Content.Readers.{iterated-iterated}

iter_positive :
    (n : ℕ) (r : Response) → 0 < n → iter_content (some n) r ≡ iter_sized n r.body_reader r
unfolding iter_content
iter_positive n r h = ground arith

stored : (found : Result Bytes) (r : Response) → (store_content found r).0 ≡ found
unfolding store_content
stored (ok body) r = refl
stored (raised e) r = refl

store_twice :
    (found : Result Bytes) (consumed : Bool) (b : BodyReader) (e : Failure)
    → let r : Response = record { content = none; consumed = consumed; body_reader = some b } in
      (store_content found r).0 ≡ raised (read_failed e)
      → (content (store_content found r).1).0 ≡ ok []
unfolding content take_content store_content read_reader left_behind
store_twice (ok body) consumed b e h = cc h
store_twice (raised f) consumed b e h =
    stored (joined (iterated (iterated b).1).0) _ ∙ iterated-iterated b

after_failure :
    (c : Option Bytes) (consumed : Bool) (b : Option BodyReader) (e : Failure)
    → let r : Response = record { content = c; consumed = consumed; body_reader = b } in
      (content r).0 ≡ raised (read_failed e) → (content (content r).1).0 ≡ ok []
unfolding content take_content store_content
after_failure (some body) consumed b e h = cc h
after_failure none consumed none e h = unfold read_reader in cc h
after_failure none consumed (some b) e h = store_twice (read_reader (some b)) consumed b e h

-- The failure of a reader is raised once: where `content` raises one, the next `content` is an empty
-- body, for any reader and whatever the Core answers to it.
pub content-failure :
    (r : Response) (e : Failure)
    → (content r).0 ≡ raised (read_failed e)
    → (content (content r).1).0 ≡ ok []
content-failure r e h = after_failure r.content r.consumed r.body_reader e h

acut_lem : (fuel n : ℕ) (pending : Bytes) → acut fuel n pending ≡ cut fuel n pending
unfolding acut cut
acut_lem zero n pending = refl
acut_lem (suc fuel) n pending = rw (acut_lem fuel n (drop n pending)) refl

arechunk_lem :
    (n : ℕ) (pending : Bytes) (chunks : List Bytes)
    → arechunk n pending chunks ≡ rechunk n pending chunks
unfolding arechunk rechunk
arechunk_lem n pending [] = refl
arechunk_lem n pending (chunk ∷ chunks) =
    rw
      (
        acut_lem (length (pending ++ chunk)) n (pending ++ chunk),
        arechunk_lem n (cut (length (pending ++ chunk)) n (pending ++ chunk)).1 chunks,
      )
      refl

aend_lem :
    (found : List Bytes × Bytes) (ending : Option Failure)
    → aend found.0 found.1 ending ≡ end_stream found ending
unfolding aend end_stream with_rest
aend_lem (blocks, pending) (some e) = refl
aend_lem (blocks, []) none = refl
aend_lem (blocks, byte ∷ pending) none = refl

astream-eq-stream_chunks : (n : ℕ) (s : Script) → astream n s ≡ stream_chunks n s
unfolding astream stream_chunks
astream-eq-stream_chunks n s =
    ap (λ (x : List Bytes × Bytes). aend x.0 x.1 s.ending) (arechunk_lem n [] s.blocks)
    ∙ aend_lem (rechunk n [] s.blocks) s.ending

size_positive : (n : ℕ) → 0 < n → size_or_default (some n) ≡ n
unfolding size_or_default
size_positive n h = ground arith

found : Result Script × Response → Result Script
found out = out.0

aiter_read :
    (o : Option ℕ) (n : ℕ) (r : AsyncResponse) (s : Script) (b : BodyReader)
    → r.async_reader ≡ some s
    → (iterated b).0 ≡ s
    → size_or_default o ≡ n
    → (aiter_content o r).0 ≡ ok (stream_chunks n (iterated b).0)
unfolding aiter_content aiter_sized
aiter_read o n r s b e k p =
    ap (λ (x : Option Script). (aiter_sized (size_or_default o) x r).0) e
    ∙ ap (λ m. ok (astream m s)) p
    ∙ ap ok (astream-eq-stream_chunks n s)
    ∙ ap (λ x. ok (stream_chunks n x)) (sym k)

-- Where the two readers answer the same, the loop of the asynchronous iterator yields the blocks of the
-- synchronous generator for every positive size, and for no size. For the size 0 it takes the default
-- size, where the synchronous one raises `ValueError`.
pub aiter_content-eq-iter_content :
    (n : ℕ) (r : AsyncResponse) (s : Script) (b : BodyReader)
    → 0 < n
    → r.async_reader ≡ some s
    → (iterated b).0 ≡ s
    → let sync : Response = record r.base { body_reader = some b } in
      ((aiter_content (some n) r).0 ≡ (iter_content (some n) sync).0)
      × ((aiter_content none r).0 ≡ (iter_content none sync).0)
      × ((aiter_content (some 0) r).0 ≡ (iter_content none sync).0)
      × ((iter_content (some 0) sync).0 ≡ raised value_error)
unfolding iter_content iter_sized size_or_default found
aiter_content-eq-iter_content n r s b h e k =
    let sync : Response = record r.base { body_reader = some b } in
    let whole = aiter_read none content_chunk_size r s b e k refl in
    (
      aiter_read (some n) n r s b e k (size_positive n h) ∙ sym (ap found (iter_positive n sync h)),
      whole,
      aiter_read (some 0) content_chunk_size r s b e k refl,
      refl,
    )
