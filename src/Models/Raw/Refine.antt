-- ===== src/Models/Raw/Refine.antt =====
-- No client can tell a `RawStream` from one flat string of bytes.
use chrome_client.Base.{
  ℕ, ◌≡◌, refl, sym, ap, ◌∙◌, Option, none, some, List, [], ◌∷◌, ◌++◌, true, false, inl, inr,
  Bool-cases, arith, concat, ℕ_eq,
}
use chrome_client.Async.State.{Bytes}
use chrome_client.Base.Text.{Text}
use chrome_client.Models.Content.Readers.{fresh_reader, iterated-fresh_reader}
use chrome_client.Models.Content.{
  Script, Response, Result, ok, content_chunk_size, iter_content, iter_sized, stream_chunks,
  end_stream,
}
use chrome_client.Models.Content.Blocks.{stream-IsBlocks, concat-IsBlocks}
use chrome_client.Models.Raw.{
  RawStream, create, keep_iterator, chunks_of, chunks, join_chunks, read_rest, read_open, read,
  close, run,
}
use chrome_client.Models.Raw.Flat.{Flat, Op, read_op, close_op}
use chrome_client.Models.Raw.Flat
use chrome_client.Models.Raw.Holds.{Open, Holds, Agrees, chunks_lem, read_some-Agrees}

closed_Holds : (r : RawStream) (f : Flat) → r.closed ≡ true → f.closed ≡ true → Holds r f
closed_Holds r f a b = record { closed = a ∙ sym b; open_stream = λ c. absurd (cc (b, c)) }

read_rest-ok :
    (x : Result Script × RawStream) (s : Script)
    → x.0 ≡ ok s
    → s.ending ≡ none
    → read_rest x ≡ join_chunks none s x.1
unfolding read_rest join_chunks
read_rest-ok (y, r) s e h = simp (e, h) refl

flat_all :
    (f : Flat)
    → f.ending ≡ none
    → Flat.read_open none f ≡ (ok f.rest, record f { rest = []; closed = true })
unfolding Flat.read_open Flat.read_all
flat_all f h = simp h refl

read_all_Agrees :
    (r : RawStream) (f : Flat)
    → f.ending ≡ none
    → Open r f
    → Agrees (read_rest (chunks r)) (Flat.read_open none f)
unfolding join_chunks
read_all_Agrees r f h o =
    rw (read_rest-ok (chunks r) o.script o.reads (sym o.ending ∙ h), flat_all f h)
      (record {
        reply =
            ap ok (ap (λ (b : Bytes). b ++ concat o.script.blocks) (chunks_lem r).0 ∙ sym o.rest);
        holds = closed_Holds _ _ refl refl;
      })

read_open-Agrees :
    (amt : Option ℕ) (r : RawStream) (f : Flat)
    → (amt ≡ none → f.ending ≡ none)
    → r.closed ≡ f.closed
    → Open r f
    → Agrees (read_open amt r) (Flat.read_open amt f)
unfolding read_open
read_open-Agrees none r f h closed o = read_all_Agrees r f (h refl) o
read_open-Agrees (some amt) r f h closed o = read_some-Agrees amt r f closed o

read_closed : (amt : Option ℕ) (r : RawStream) → r.closed ≡ true → read amt r ≡ (ok [], r)
unfolding read
read_closed amt r h = simp h refl

flat_closed : (amt : Option ℕ) (f : Flat) → f.closed ≡ true → Flat.read amt f ≡ (ok [], f)
unfolding Flat.read
flat_closed amt f h = simp h refl

read_not_closed : (amt : Option ℕ) (r : RawStream) → r.closed ≡ false → read amt r ≡ read_open amt r
unfolding read
read_not_closed amt r h = simp h refl

flat_not_closed :
    (amt : Option ℕ) (f : Flat) → f.closed ≡ false → Flat.read amt f ≡ Flat.read_open amt f
unfolding Flat.read
flat_not_closed amt f h = simp h refl

-- Reading `amt` bytes of a stream gives what the flat string gives, be it bytes, the end, a failure,
-- or nothing after `close`, and both hold the same afterwards. Reading all of it does so if the
-- reader does not fail.
pub read-Agrees :
    (amt : Option ℕ) (r : RawStream) (f : Flat)
    → (amt ≡ none → f.ending ≡ none)
    → Holds r f
    → Agrees (read amt r) (Flat.read amt f)
read-Agrees amt r f h held = elim (Bool-cases f.closed) [
  | inl e ↦
      rw (read_closed amt r (held.closed ∙ e), flat_closed amt f e)
        (record { reply = refl; holds = held })
  | inr e ↦
      rw (read_not_closed amt r (held.closed ∙ e), flat_not_closed amt f e)
        (read_open-Agrees amt r f h held.closed (held.open_stream e))
]

flat_ending : (amt : Option ℕ) (f : Flat) → f.ending ≡ none → (Flat.read amt f).1.ending ≡ none
unfolding Flat.read Flat.read_open Flat.read_all Flat.read_last
flat_ending none f h = ground arith
flat_ending (some amt) f h = ground arith

run_refines :
    (ops : List Op) (r : RawStream) (f : Flat)
    → f.ending ≡ none
    → Holds r f
    → run ops r ≡ Flat.run ops f
unfolding run Flat.run
run_refines [] r f h held = refl
run_refines (read_op amt ∷ ops) r f h held =
    let a = read-Agrees amt r f (λ _. h) held in
    λ i.
      a.reply i ∷ run_refines ops (read amt r).1 (Flat.read amt f).1 (flat_ending amt f h) a.holds i
run_refines (close_op ∷ ops) r f h held =
    run_refines ops (close r) (Flat.close f) (unfold Flat.close in h)
      (unfold close Flat.close in closed_Holds _ _ refl refl)

-- A response that streams, before anything is read.
abbrev pub streaming : List Bytes → Option Text → Response
streaming chunks message = record {
  content = none;
  consumed = false;
  body_reader = some (fresh_reader chunks message);
}

abbrev pub whole_body : Bytes → Flat
whole_body body = record { rest = body; ending = none; closed = false }

create_chunks :
    (parts : List Bytes)
    → (chunks (create (streaming parts none))).0
      ≡ ok (stream_chunks content_chunk_size (record { blocks = parts; ending = none }))
unfolding chunks chunks_of keep_iterator create iter_content iter_sized ℕ_eq
create_chunks parts =
    ap (λ x. ok (stream_chunks content_chunk_size x)) (iterated-fresh_reader parts none)

pub create-Holds :
    (parts : List Bytes) → Holds (create (streaming parts none)) (whole_body (concat parts))
unfolding create stream_chunks end_stream
create-Holds parts = record {
  closed = refl;
  open_stream = λ _. record {
    script = stream_chunks content_chunk_size (record { blocks = parts; ending = none });
    reads = create_chunks parts;
    rest = sym (
        concat-IsBlocks content_chunk_size (concat parts) _
          (stream-IsBlocks content_chunk_size parts (omega arith)));
    ending = refl;
  };
}

-- Whatever `read` and `close` calls a client makes on `response.raw`, it is answered as by one flat
-- string of the whole body: how the Core cut the body into chunks, the blocks and the buffer do not
-- show. The reader of the body does not fail.
pub run-refines-Flat :
    (ops : List Op) (parts : List Bytes)
    → run ops (create (streaming parts none)) ≡ Flat.run ops (whole_body (concat parts))
run-refines-Flat ops parts = run_refines ops _ _ refl (create-Holds parts)
