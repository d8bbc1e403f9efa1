-- ===== src/Models/Raw/Holds.antt =====
-- A `RawStream` refines the flat string of its buffer and of the blocks to come.
use chrome_client.Base.{
  ℕ, ◌≤◌, ◌<◌, ◌≡◌, refl, sym, ap, ◌∙◌, Option, none, some, [], ◌++◌, true, false, length, ltb, inl,
  inr, Bool-cases, Option-cases, arith, take, drop, concat, length-append, take-append, drop-append,
  take_short, drop_short,
}
use mathlib.Core.Path.{subst}
use mathlib.Core.Option.{some-injective}
use native.Mathlib.Decide.{dec_lt}
use chrome_client.Async.State.{Bytes, Failure}
use chrome_client.Models.Content.{Script, Response, Result, ok, raised, read_failed}
use chrome_client.Models.Raw.{
  RawStream, keep_iterator, chunks_of, chunks, Filled, fill, take_buffer, end_fill, read_blocks,
  read_some,
}
use chrome_client.Models.Raw.Flat.{Flat, Op, read_op, close_op}
use chrome_client.Models.Raw.Flat
use chrome_client.Models.Raw.Filling.{FillLaw, fill-FillLaw}

-- An open stream holds what its buffer and its generator spell.
pub record Open (r : RawStream) (f : Flat) : Type 0 where
  pub script : Script
  pub reads : (chunks r).0 ≡ ok script
  pub rest : f.rest ≡ r.buffer ++ concat script.blocks
  pub ending : f.ending ≡ script.ending

pub record Holds (r : RawStream) (f : Flat) : Type 0 where
  pub closed : r.closed ≡ f.closed
  pub open_stream : f.closed ≡ false → Open r f

keep_iterator_lem :
    (r : RawStream) (x : Result Script × Response)
    → ((keep_iterator r x).1.buffer ≡ r.buffer) × ((keep_iterator r x).1.closed ≡ r.closed)
unfolding keep_iterator
keep_iterator_lem r (ok s, response) = (refl, refl)
keep_iterator_lem r (raised e, response) = (refl, refl)

keep_iterator-buffer :
    (r : RawStream) (b : Bytes) (x : Result Script × Response)
    → (keep_iterator (record r { buffer = b }) x).0 ≡ (keep_iterator r x).0
unfolding keep_iterator
keep_iterator-buffer r b (ok s, response) = refl
keep_iterator-buffer r b (raised e, response) = refl

chunks_of_lem :
    (r : RawStream) (o : Option Script)
    → ((chunks_of r o).1.buffer ≡ r.buffer) × ((chunks_of r o).1.closed ≡ r.closed)
unfolding chunks_of
chunks_of_lem r (some s) = (refl, refl)
chunks_of_lem r none = keep_iterator_lem r _

chunks_of-buffer :
    (r : RawStream) (b : Bytes) (o : Option Script)
    → (chunks_of (record r { buffer = b }) o).0 ≡ (chunks_of r o).0
unfolding chunks_of
chunks_of-buffer r b (some s) = refl
chunks_of-buffer r b none = keep_iterator-buffer r b _

-- `_chunks` leaves the buffer alone, and does not look at it.
pub chunks_lem :
    (r : RawStream) → ((chunks r).1.buffer ≡ r.buffer) × ((chunks r).1.closed ≡ r.closed)
unfolding chunks
chunks_lem r = chunks_of_lem r r.iterator

chunks-buffer : (r : RawStream) (b : Bytes) → (chunks (record r { buffer = b })).0 ≡ (chunks r).0
unfolding chunks
chunks-buffer r b = chunks_of-buffer r b r.iterator

pub chunks_some : (r : RawStream) (s : Script) → r.iterator ≡ some s → (chunks r).0 ≡ ok s
unfolding chunks chunks_of
chunks_some r s e = simp e refl

pub record Agrees (x : Result Bytes × RawStream) (y : Result Bytes × Flat) : Type 0 where
  pub reply : x.0 ≡ y.0
  pub holds : Holds x.1 y.1

flat_enough :
    (amt : ℕ) (f : Flat)
    → amt ≤ length f.rest
    → Flat.read_open (some amt) f ≡ (ok (take amt f.rest), record f { rest = drop amt f.rest })
unfolding Flat.read_open
flat_enough amt f h = ground arith

flat_short :
    (amt : ℕ) (f : Flat)
    → length f.rest < amt
    → Flat.read_open (some amt) f ≡ Flat.read_last f.ending f
unfolding Flat.read_open
flat_short amt f h = ground arith

flat_end :
    (f : Flat) → f.ending ≡ none → Flat.read_last f.ending f ≡ (ok f.rest, record f { rest = [] })
unfolding Flat.read_last
flat_end f h = simp h refl

flat_failed :
    (f : Flat) (e : Failure)
    → f.ending ≡ some e
    → Flat.read_last f.ending f ≡ (raised (read_failed e), record f { ending = none })
unfolding Flat.read_last
flat_failed f e h = simp h refl

-- Both streams give their first `amt` bytes.
take_Agrees :
    (amt : ℕ) (r : RawStream) (f : Flat)
    → r.closed ≡ f.closed
    → amt ≤ length r.buffer
    → Open r f
    → Agrees (take_buffer amt r) (Flat.read_open (some amt) f)
unfolding take_buffer
take_Agrees amt r f closed h o =
    rw
      (flat_enough amt f
        (omega (arith, ap length o.rest, length-append r.buffer (concat o.script.blocks))))
      (record {
        reply = ap ok (sym (ap (take amt) o.rest ∙ take-append amt r.buffer _ h));
        holds = record {
          closed = closed;
          open_stream = λ _. record {
            script = o.script;
            reads = chunks-buffer r (drop amt r.buffer) ∙ o.reads;
            rest = ap (drop amt) o.rest ∙ drop-append amt r.buffer _ h;
            ending = o.ending;
          };
        };
      })

end_fill_enough :
    (amt : ℕ) (r : RawStream) (out : Filled)
    → out.0 ≡ none
    → end_fill amt r out ≡ take_buffer amt (record r { buffer = out.1; iterator = some out.2 })
unfolding end_fill
end_fill_enough amt r (none, buffer, s) e = refl
end_fill_enough amt r (some x, buffer, s) e = absurd (cc e)

end_fill_failed :
    (amt : ℕ) (r : RawStream) (out : Filled) (e : Failure)
    → out.0 ≡ some e
    → end_fill amt r out
      ≡ (raised (read_failed e), record r { buffer = out.1; iterator = some out.2 })
unfolding end_fill
end_fill_failed amt r (none, buffer, s) e h = absurd (cc h)
end_fill_failed amt r (some x, buffer, s) e h =
    ap (λ (y : Failure). (raised (read_failed y), record r { buffer = buffer; iterator = some s }))
      (some-injective x e h)

-- The stream after a fill, with what the generator has left.
pub filled_Open :
    (r : RawStream) (s : Script) (f : Flat)
    → f.rest ≡ r.buffer ++ concat s.blocks
    → f.ending ≡ s.ending
    → r.iterator ≡ some s
    → Open r f
filled_Open r s f rest ending e = record {
  script = s;
  reads = chunks_some r s e;
  rest = rest;
  ending = ending;
}

module _ (amt : ℕ) (r : RawStream) (f : Flat) (s : Script) (closed : r.closed ≡ f.closed)
    (rest : f.rest ≡ r.buffer ++ concat s.blocks) (ending : f.ending ≡ s.ending) where
  law : FillLaw amt (r.buffer ++ concat s.blocks) s.ending (fill amt r.buffer s.blocks s.ending)
  law = fill-FillLaw amt r.buffer s.blocks s.ending

  fill_enough_Agrees :
      amt ≤ length f.rest
      → Agrees (end_fill amt r (fill amt r.buffer s.blocks s.ending)) (Flat.read_open (some amt) f)
  fill_enough_Agrees h =
      let out = fill amt r.buffer s.blocks s.ending in
      let full = law.enough (subst (λ (b : Bytes). amt ≤ length b) rest h) in
      rw (end_fill_enough amt r out full.0) (
        take_Agrees amt (record r { buffer = out.1; iterator = some out.2 }) f closed full.1
          (filled_Open _ out.2 f (rest ∙ sym law.spelt) (ending ∙ sym full.2) refl))

  -- Too little is left. Without a failure all of it is read, and the buffer is empty.
  end_Agrees :
      length f.rest < amt
      → s.ending ≡ none
      → Agrees (end_fill amt r (fill amt r.buffer s.blocks s.ending)) (Flat.read_last f.ending f)
  unfolding Flat.read_last take_buffer
  end_Agrees h e =
      let out = fill amt r.buffer s.blocks s.ending in
      let all = law.short (subst (λ (b : Bytes). length b < amt) rest h) in
      let here : out.1 ≡ f.rest = all.1 ∙ sym rest in
      let few : length out.1 ≤ amt = omega (arith, ap length here) in
      rw (end_fill_enough amt r out (all.0 ∙ e), flat_end f (ending ∙ e))
        (record {
          reply = ap ok (take_short amt out.1 few ∙ here);
          holds = record {
            closed = closed;
            open_stream = λ _.
                filled_Open _ out.2 _ (simp (drop_short amt out.1 few, all.2) refl)
                  (ending ∙ e ∙ sym all.3) refl;
          };
        })

  failed_Agrees :
      (x : Failure)
      → length f.rest < amt
      → s.ending ≡ some x
      → Agrees (end_fill amt r (fill amt r.buffer s.blocks s.ending)) (Flat.read_last f.ending f)
  unfolding Flat.read_last
  failed_Agrees x h e =
      let out = fill amt r.buffer s.blocks s.ending in
      let all = law.short (subst (λ (b : Bytes). length b < amt) rest h) in
      rw (end_fill_failed amt r out x (all.0 ∙ e), flat_failed f x (ending ∙ e))
        (record {
          reply = refl;
          holds = record {
            closed = closed;
            open_stream = λ _. filled_Open _ out.2 _ (rest ∙ sym law.spelt) (sym all.3) refl;
          };
        })

  fill-Agrees :
      Agrees (end_fill amt r (fill amt r.buffer s.blocks s.ending)) (Flat.read_open (some amt) f)
  fill-Agrees = elim (dec_lt (length f.rest) amt) [
    | no p ↦ fill_enough_Agrees (omega arith)
    | yes p ↦
        rw (flat_short amt f p) (elim (Option-cases s.ending) [
          | inl e ↦ end_Agrees p e
          | inr (x, e) ↦ failed_Agrees x p e
        ])
  ]

read_blocks-ok :
    (amt : ℕ) (x : Result Script × RawStream) (s : Script)
    → x.0 ≡ ok s
    → read_blocks amt x ≡ end_fill amt x.1 (fill amt x.1.buffer s.blocks s.ending)
unfolding read_blocks
read_blocks-ok amt (y, r) s e = simp e refl

read_some_fill :
    (amt : ℕ) (r : RawStream)
    → ltb (length r.buffer) amt ≡ true
    → read_some amt r ≡ read_blocks amt (chunks r)
unfolding read_some
read_some_fill amt r h = simp h refl

read_some_buffer :
    (amt : ℕ) (r : RawStream)
    → ltb (length r.buffer) amt ≡ false
    → read_some amt r ≡ take_buffer amt r
unfolding read_some
read_some_buffer amt r h = simp h refl

pub read_some-Agrees :
    (amt : ℕ) (r : RawStream) (f : Flat)
    → r.closed ≡ f.closed
    → Open r f
    → Agrees (read_some amt r) (Flat.read_open (some amt) f)
read_some-Agrees amt r f closed o = elim (Bool-cases (ltb (length r.buffer) amt)) [
  | inl e ↦
      let same = chunks_lem r in
      rw (read_some_fill amt r e, read_blocks-ok amt (chunks r) o.script o.reads)
        (fill-Agrees amt (chunks r).1 f o.script (same.1 ∙ closed)
          (o.rest ∙ ap (λ (b : Bytes). b ++ concat o.script.blocks) (sym same.0)) o.ending)
  | inr e ↦ rw (read_some_buffer amt r e) (take_Agrees amt r f closed (ground arith) o)
]
