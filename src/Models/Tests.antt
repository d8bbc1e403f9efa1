-- ===== src/Models/Tests.antt =====
-- Bodies, lines and heads of concrete responses, and the theorems at them.
use chrome_client.Base.{◌≡◌, refl, none, some, List, [], ◌∷◌, ◌++◌, false, ℕ_eq, arith, concat, All}
use chrome_client.Base.Text.{
  Text, codes, text_eq, strip, strip_by, strip_start, is_space, split_once,
}
use chrome_client.Base.Dict.{lookup}
use chrome_client.Async.State.{Bytes, Failure, native_error}
use chrome_client.Structures.Headers.{multi_items}
use chrome_client.Models.Content.{
  ok, raised, read_failed, value_error, cut, rechunk, with_rest, end_stream, stream_chunks, content,
  iter_content,
}
use chrome_client.Models.Content.Asynchronous.{AsyncResponse, aiter_content}
use chrome_client.Models.Content.Blocks.{IsBlocks}
use chrome_client.Models.Content.{
  Response, joined, iterated, take_content, store_content, read_reader,
}
use chrome_client.Async.Reader.{iterate, failure_of, sync_reader}
use chrome_client.Models.Content.Readers.{fresh_reader, iterated-fresh_reader}
use chrome_client.Models.Content.Laws.{content-failure, aiter_content-eq-iter_content}
use chrome_client.Models.Lines.{iter_lines, splitlines, split_from}
use chrome_client.Base.Text.{extend_first}
use chrome_client.Models.Lines.Laws.{iter_lines-eq-splitlines}
use chrome_client.Models.Raw.{create, run, stream, finished}
use chrome_client.Models.Raw.Flat.{read_op, close_op}
use chrome_client.Models.Raw.Flat
use chrome_client.Models.Raw.Refine.{streaming, whole_body, create-Holds, run-refines-Flat}
use chrome_client.Models.Raw.Streaming.{stream_finishes}
use chrome_client.Models.Head.{
  parse_raw_headers, is_empty, is_break, reason_from_status_line, reason_of, or_empty, split_words,
  take_word,
}
use chrome_client.Models.Head.Parsing.{every-IsLine}
use chrome_client.Models.Head.RoundTrip.{
  IsField, IsStatus, print_head, field_line, parse_raw_headers-print, parse_raw_headers-splits,
}

-- Five bytes in two chunks.
abbrev parts : List Bytes
parts = (1 ∷ 2 ∷ 3 ∷ []) ∷ (4 ∷ 5 ∷ []) ∷ []

abbrev reset : Failure
reset = native_error (codes "Network")

blocks_of_two :
    (stream_chunks 2 (record { blocks = parts; ending = none })).blocks
    ≡ (1 ∷ 2 ∷ []) ∷ (3 ∷ 4 ∷ []) ∷ (5 ∷ []) ∷ []
unfolding stream_chunks end_stream rechunk cut with_rest
blocks_of_two = refl

run-refines-Flat_example :
    run
      (read_op (some 4) ∷ read_op none ∷ close_op ∷ read_op (some 1) ∷ [])
      (create (streaming parts none))
    ≡ Flat.run
        (read_op (some 4) ∷ read_op none ∷ close_op ∷ read_op (some 1) ∷ [])
        (whole_body (concat parts))
run-refines-Flat_example =
    run-refines-Flat (read_op (some 4) ∷ read_op none ∷ close_op ∷ read_op (some 1) ∷ []) parts

flat_replies :
    Flat.run
      (read_op (some 4) ∷ read_op none ∷ close_op ∷ read_op (some 1) ∷ [])
      (whole_body (concat parts))
    ≡ ok (1 ∷ 2 ∷ 3 ∷ 4 ∷ []) ∷ ok (5 ∷ []) ∷ ok [] ∷ []
unfolding Flat.run Flat.read Flat.read_open Flat.read_all Flat.close
flat_replies = refl

stream_finishes_example :
    IsBlocks 2 (concat parts) (stream 6 2 (create (streaming parts none))).0
    × ((stream 6 2 (create (streaming parts none))).1 ≡ finished)
stream_finishes_example =
    stream_finishes 6 2 (create (streaming parts none)) (whole_body (concat parts)) (omega arith)
      (omega arith) refl refl (create-Holds parts)

abbrev broken_body : Response
broken_body = streaming parts (some (codes "Network"))

broken_once : (content broken_body).0 ≡ raised (read_failed reset)
unfolding content take_content store_content read_reader joined iterated iterate failure_of
    sync_reader
broken_once = refl

content-failure_example : (content (content broken_body).1).0 ≡ ok []
content-failure_example = content-failure broken_body reset broken_once

abbrev asynchronous : AsyncResponse
asynchronous = record {
  base = record { content = none; consumed = false; body_reader = none };
  async_reader = some (record { blocks = parts; ending = none });
}

aiter_content-eq-iter_content_example :
    ((aiter_content (some 2) asynchronous).0 ≡ (iter_content (some 2) (streaming parts none)).0)
    × ((aiter_content none asynchronous).0 ≡ (iter_content none (streaming parts none)).0)
    × ((aiter_content (some 0) asynchronous).0 ≡ (iter_content none (streaming parts none)).0)
    × ((iter_content (some 0) (streaming parts none)).0 ≡ raised value_error)
aiter_content-eq-iter_content_example =
    aiter_content-eq-iter_content 2 asynchronous (record { blocks = parts; ending = none })
      (fresh_reader parts none) (omega arith) refl (iterated-fresh_reader parts none)

-- A line that goes on in the next block.
abbrev text_blocks : List Bytes
text_blocks = codes "one\ntw" ∷ codes "o\n" ∷ []

iter_lines-eq-splitlines_example : iter_lines none text_blocks ≡ splitlines (concat text_blocks)
iter_lines-eq-splitlines_example = iter_lines-eq-splitlines text_blocks (omega arith)

two_lines : splitlines (concat text_blocks) ≡ codes "one" ∷ codes "two" ∷ []
unfolding splitlines split_from extend_first ℕ_eq
two_lines = refl

abbrev status_line : Text
status_line = codes "HTTP/1.1 200 Fine"

abbrev served : List (Text × Text)
served = (codes "Set-Cookie", codes "a=1") ∷ (codes "set-cookie", codes "b=2; Path=/") ∷ []

status_line-IsStatus : IsStatus status_line
unfolding is_break strip strip_by strip_start is_space is_empty split_once ℕ_eq
status_line-IsStatus = record {
  one_line = every-IsLine status_line refl;
  bare = refl;
  some_text = refl;
  no_colon = refl;
}

fine_reason : reason_from_status_line status_line 200 ≡ codes "Fine"
unfolding reason_from_status_line reason_of split_words take_word is_empty strip_start is_space ℕ_eq
fine_reason = refl

table_reason : reason_from_status_line (codes "HTTP/1.1 404") 404 ≡ codes "Not Found"
unfolding reason_from_status_line reason_of or_empty split_words take_word is_empty strip_start
    is_space ℕ_eq lookup
table_reason = refl

served-IsField : All IsField served
unfolding is_break strip strip_by strip_start is_space ℕ_eq
served-IsField = (
  record {
    name_line = every-IsLine (codes "Set-Cookie") refl;
    name_bare = refl;
    no_colon = omega arith;
    value_line = every-IsLine (codes "a=1") refl;
    value_bare = refl;
  },
  (
    record {
      name_line = every-IsLine (codes "set-cookie") refl;
      name_bare = refl;
      no_colon = omega arith;
      value_line = every-IsLine (codes "b=2; Path=/") refl;
      value_bare = refl;
    },
    tt,
  ),
)

parse_raw_headers-print_example :
    ((parse_raw_headers (print_head status_line served)).0 ≡ status_line)
    × (multi_items (parse_raw_headers (print_head status_line served)).1 ≡ served)
parse_raw_headers-print_example =
    parse_raw_headers-print status_line served status_line-IsStatus served-IsField

-- The second byte of `Å` in UTF-8 is 0x85, which ends a line.
parse_raw_headers-splits_example :
    multi_items
      (parse_raw_headers (
        print_head status_line (
          (
            codes "Set-Cookie",
            codes "a=1" ++ 0x85 ∷ field_line (codes "set-cookie", codes "b=2; Path=/"),
          )
          ∷ []))).1
    ≡ served
parse_raw_headers-splits_example =
    parse_raw_headers-splits status_line 0x85 (codes "Set-Cookie", codes "a=1")
      (codes "set-cookie", codes "b=2; Path=/") (unfold is_break ℕ_eq in refl) (omega arith)
      status_line-IsStatus served-IsField.0 served-IsField.1.0
