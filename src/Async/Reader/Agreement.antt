-- ===== src/Async/Reader/Agreement.antt =====
-- The asynchronous path (`_AsyncState.notify`, then `_AsyncBodyReader`) against the synchronous one
-- (`_SyncBodyReader`), on the same answers of the Core.
use chrome_client.Base.{
  ℕ, suc, ◌+◌, ◌≡◌, ◌≤◌, refl, sym, ap, ◌∙◌, Option, none, some, List, [], ◌∷◌, Bool, true, false,
  length, if◌then◌else◌, arith, inl, inr, Bool-cases,
}
use chrome_client.Base.Text.{Text}
use native.Mathlib.Nat.{add-zero, zero-add, add_assoc}
use chrome_client.Async.State.{
  AsyncState, Bytes, Failure, Event, body, completed, error, batch, create, notify, poll, rearm,
  handle, handle_all, exceeds, limit_or_zero, response_too_large, native_error, fail, accept,
  on_body, on_done,
}
use chrome_client.Async.State.Soundness.{size}
use chrome_client.Async.State.Delivery.{
  fitting, bodies, exceeds-add, Delivered, notify-Delivered, handle-Delivered,
}
use chrome_client.Async.Reader.{
  Turn, async_reader, read_all, Next, chunk, end, broken, SyncReader, sync_reader, close, iterate,
  iterate_next,
}
use chrome_client.Async.Reader.Complete.{outcome, read_all-Read}

-- The same answers of the Core, as events and as a script: chunks, then the end or a failure.
abbrev pub events : List Bytes → Option Text → List Event
events [] none = completed ∷ []
events [] (some message) = error message ∷ []
events (c ∷ cs) m = body c ∷ events cs m

abbrev pub script : List Bytes → Option Text → List Next
script [] none = end ∷ []
script [] (some message) = broken message ∷ []
script (c ∷ cs) m = chunk c ∷ script cs m

abbrev pub failure_of : Option Text → Option Failure
failure_of none = none
failure_of (some message) = some (native_error message)

-- The synchronous reader, whatever it read before: it yields the chunks that fit, ends with the limit,
-- the Core's failure or the end, is closed, and has cancelled the request only for the limit.
pub record Iterated (r : SyncReader) (cs : List Bytes) (m : Option Text)
    (out : List Bytes × Turn × SyncReader) : Type 0 where
  pub chunks : out.0 ≡ fitting r.limit r.total cs
  pub last : out.1 ≡ outcome r.limit (r.total + size cs) (failure_of m)
  pub closed : out.2.closed ≡ true
  pub detached : out.2.detached ≡ true
  pub cancelled :
      out.2.cancelled ≡ (if exceeds r.limit (r.total + size cs) then true else r.cancelled)

iterate-Iterated :
    (cs : List Bytes) (m : Option Text) (r : SyncReader)
    → r.closed ≡ false
    → exceeds r.limit r.total ≡ false
    → Iterated r cs m (iterate (script cs m) r)
unfolding iterate close
iterate-Iterated [] none r o fits = simp o record {
  chunks = refl;
  last = simp (add-zero, fits) refl;
  closed = refl;
  detached = refl;
  cancelled = simp (add-zero, fits) refl;
}
iterate-Iterated [] (some message) r o fits = simp o record {
  chunks = refl;
  last = simp (add-zero, fits) refl;
  closed = refl;
  detached = refl;
  cancelled = simp (add-zero, fits) refl;
}
iterate-Iterated (c ∷ cs) m r o fits = elim (Bool-cases (exceeds r.limit (r.total + length c))) [
  | inl over ↦
      let passed = exceeds-add r.limit (r.total + length c) (size cs) over in
      simp (over, o)
        record {
          chunks = simp over refl;
          last = simp (sym (add_assoc r.total (length c) (size cs)), passed) refl;
          closed = refl;
          detached = refl;
          cancelled = simp (sym (add_assoc r.total (length c) (size cs)), passed) refl;
        }
  | inr within ↦
      let ih = iterate-Iterated cs m (record r { total = r.total + length c }) o within in
      rw (iterate_next c (script cs m) r o within) record {
        chunks = simp within (ap (λ rest. c ∷ rest) ih.chunks);
        last = simp (sym (add_assoc r.total (length c) (size cs))) ih.last;
        closed = ih.closed;
        detached = ih.detached;
        cancelled = simp (sym (add_assoc r.total (length c) (size cs))) ih.cancelled;
      }
]

-- The failure that the bytes counted so far call for.
abbrev due : Option ℕ → ℕ → Option Failure → Option Failure
due l n other = if exceeds l n then some (response_too_large (limit_or_zero l)) else other

on_body-due :
    (c : Bytes) (s : AsyncState)
    → s.failure ≡ due s.limit s.total none
    → (on_body c s).failure ≡ due s.limit (s.total + length c) none
unfolding on_body fail accept
on_body-due c s h = elim (Bool-cases (exceeds s.limit (s.total + length c))) [
  | inl over ↦ elim (Bool-cases (exceeds s.limit s.total)) [
    | inl already ↦ ground arith
    | inr first ↦ ground arith
  ]
  | inr fits ↦ elim (Bool-cases (exceeds s.limit s.total)) [
    | inl already ↦ ground (arith, exceeds-add s.limit s.total (length c) already)
    | inr first ↦ ground arith
  ]
]

handle-body : (c : Bytes) (s : AsyncState) → Delivered s (c ∷ []) (on_body c s)
unfolding handle
handle-body c s = handle-Delivered (body c) s

record Ended (s : AsyncState) (cs : List Bytes) (m : Option Text) (t : AsyncState) : Type 0 where
  done : t.done ≡ true
  failure : t.failure ≡ due s.limit (s.total + size cs) (failure_of m)

handle_all-Ended :
    (cs : List Bytes) (m : Option Text) (s : AsyncState)
    → s.closed ≡ false
    → s.failure ≡ due s.limit s.total none
    → Ended s cs m (handle_all (events cs m) s)
unfolding handle_all handle on_done fail
handle_all-Ended [] none s o h = record { done = ground arith; failure = ground arith }
handle_all-Ended [] (some message) s o h = record { done = ground arith; failure = ground arith }
handle_all-Ended (c ∷ cs) m s o h =
    let step = handle-body c s in
    let still : (on_body c s).closed ≡ false = step.closed ∙ o in
    let limit : (on_body c s).limit ≡ s.limit = step.limit in
    let due' : (on_body c s).failure ≡ due (on_body c s).limit (on_body c s).total none =
      simp (limit, step.total, add-zero) (on_body-due c s h) in
    let ih = handle_all-Ended cs m (on_body c s) still due' in
    simp still record {
      done = ih.done;
      failure = simp (limit, step.total, add-zero, add_assoc) at ih.failure;
    }

fitting-fits :
    (l : Option ℕ) (n : ℕ) (cs : List Bytes)
    → exceeds l n ≡ false
    → exceeds l (n + size (fitting l n cs)) ≡ false
fitting-fits l n [] h = rw add-zero h
fitting-fits l n (c ∷ cs) h = elim (Bool-cases (exceeds l (n + length c))) [
  | inl over ↦ simp (over, add-zero) h
  | inr fits ↦
      simp (fits, sym (add_assoc n (length c) (size (fitting l (n + length c) cs))))
        (fitting-fits l (n + length c) cs fits)
]

fitting-fitting :
    (l : Option ℕ) (n : ℕ) (cs : List Bytes) → fitting l n (fitting l n cs) ≡ fitting l n cs
fitting-fitting l n [] = refl
fitting-fitting l n (c ∷ cs) = elim (Bool-cases (exceeds l (n + length c))) [
  | inl over ↦ simp over refl
  | inr fits ↦ simp (fits, fitting-fitting l (n + length c) cs) refl
]

length-fitting : (l : Option ℕ) (n : ℕ) (cs : List Bytes) → length (fitting l n cs) ≤ length cs
length-fitting l n [] = omega arith
length-fitting l n (c ∷ cs) = ground (arith, length-fitting l (n + length c) cs)

bodies-events : (cs : List Bytes) (m : Option Text) → bodies (events cs m) ≡ cs
bodies-events [] none = refl
bodies-events [] (some message) = refl
bodies-events (c ∷ cs) m = ap (λ rest. c ∷ rest) (bodies-events cs m)

rearm_same :
    (n : ℕ) (s : AsyncState) → ((rearm n s).done ≡ s.done) × ((rearm n s).failure ≡ s.failure)
unfolding rearm
rearm_same n s = ground arith

record Arrived (l : Option ℕ) (cs : List Bytes) (m : Option Text) (t : AsyncState) : Type 0 where
  queue : t.chunks ≡ fitting l 0 cs
  done : t.done ≡ true
  failure : t.failure ≡ due l (size cs) (failure_of m)

zero-exceeds : (l : Option ℕ) → exceeds l 0 ≡ false
zero-exceeds none = refl
zero-exceeds (some k) = ground arith

notify-Arrived :
    (l : Option ℕ) (cs : List Bytes) (m : Option Text) (timeout follow : Bool)
    → Arrived l cs m (notify (batch (events cs m)) (create true l timeout follow))
unfolding create notify poll
notify-Arrived l cs m timeout follow =
    let s = create true l timeout follow in
    let d = notify-Delivered (events cs m) s refl (λ _. omega arith) in
    let e = handle_all-Ended cs m s refl (simp (zero-exceeds l) refl) in
    let same = rearm_same (length (events cs m)) (handle_all (events cs m) s) in
    record {
      queue = simp (bodies-events cs m) at (d.queue refl);
      done = same.0 ∙ e.done;
      failure = same.1 ∙ (rw zero-add at e.failure);
    }

outcome-due :
    (l : Option ℕ) (n k : ℕ) (f : Option Failure)
    → exceeds l k ≡ false
    → outcome l k (due l n f) ≡ outcome l n f
outcome-due l n k f h = elim (Bool-cases (exceeds l n)) [
  | inl over ↦ simp (h, over) refl
  | inr fits ↦ simp (h, fits) refl
]

-- A body that arrives before it is read, with the Core's end or failure behind it, reads alike on both
-- paths: the same chunks, those that the limit lets through, and the same last turn (the limit, the
-- Core's failure, or the end), with as many turns as there are chunks and one more.
pub read_all-eq-iterate :
    (l : Option ℕ) (cs : List Bytes) (m : Option Text) (timeout follow : Bool)
    → let t = notify (batch (events cs m)) (create true l timeout follow) in
      let a = read_all (suc (length cs)) (async_reader t l) in
      let b = iterate (script cs m) (sync_reader l) in
      (a.0 ≡ b.0) × (a.1 ≡ b.1) × (b.0 ≡ fitting l 0 cs)
unfolding async_reader sync_reader
read_all-eq-iterate l cs m timeout follow =
    let got = notify-Arrived l cs m timeout follow in
    let t = notify (batch (events cs m)) (create true l timeout follow) in
    let fits = zero-exceeds l in
    let a =
      read_all-Read (suc (length cs)) (fitting l 0 cs) (async_reader t l)
        (omega (arith, length-fitting l 0 cs)) got.queue refl got.done fits in
    let b = iterate-Iterated cs m (sync_reader l) refl fits in
    let chunks = a.chunks ∙ fitting-fitting l 0 cs ∙ sym b.chunks in
    let fit = fitting-fits l 0 cs fits in
    let last = rw zero-add at b.last in
    (
      chunks,
      a.last
          ∙ ap (outcome l (0 + size (fitting l 0 cs))) got.failure
          ∙ outcome-due l (size cs) _ (failure_of m) fit
          ∙ sym last,
      b.chunks,
    )
