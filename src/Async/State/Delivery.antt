-- ===== src/Async/State/Delivery.antt =====
-- What one wake-up of `_AsyncState.notify` delivers: the bodies that the limit lets through, in the
-- order in which the Core reported them.
use mathlib.Core.Path.{sym}
use native.Mathlib.Nat.{add-zero, add_assoc}
use chrome_client.Base.{
  ℕ, ◌+◌, ◌<◌, ◌≡◌, refl, sym, ◌∙◌, Option, none, some, List, [], ◌∷◌, ◌++◌, Bool, true, false,
  ◌&&◌, leb, length, if◌then◌else◌, arith, inl, inr, Bool-cases, append-nil, append_assoc,
}
use chrome_client.Async.State.Soundness.{size, size-append}
use chrome_client.Async.State.{
  Failure, AsyncState, Bytes, Event, accept, exceeds, limit_or_zero, body, response, redirect,
  completed, error, unknown, batch, response_too_large, native_error, fail, on_body, on_redirect,
  on_done, handle, handle_all, rearm, poll, notify, stream_buffer_limit,
}

-- The bodies among the events.
abbrev pub bodies : List Event → List Bytes
bodies [] = []
bodies (body chunk ∷ es) = chunk ∷ bodies es
bodies (response _ _ ∷ es) = bodies es
bodies (redirect _ _ _ ∷ es) = bodies es
bodies (completed ∷ es) = bodies es
bodies (error _ ∷ es) = bodies es
bodies (unknown ∷ es) = bodies es

-- The longest run of chunks that fits, when `n` bytes came before.
abbrev pub fitting : Option ℕ → ℕ → List Bytes → List Bytes
fitting l n [] = []
fitting l n (c ∷ cs) =
    let rest = fitting l (n + length c) cs in if exceeds l (n + length c) then [] else c ∷ rest

abbrev pub flatten : List Bytes → Bytes
flatten [] = []
flatten (c ∷ cs) = c ++ flatten cs

pub exceeds-add : (l : Option ℕ) (n m : ℕ) → exceeds l n ≡ true → exceeds l (n + m) ≡ true
exceeds-add none n m h = h
exceeds-add (some k) n m h = ground arith

-- Once the limit is passed, nothing fits.
pub fitting_over :
    (l : Option ℕ) (n : ℕ) (cs : List Bytes) → exceeds l n ≡ true → fitting l n cs ≡ []
fitting_over l n [] h = refl
fitting_over l n (c ∷ cs) h = simp (exceeds-add l n (length c) h) refl

fitting-append :
    (l : Option ℕ) (n : ℕ) (cs ds : List Bytes)
    → fitting l n (cs ++ ds) ≡ fitting l n cs ++ fitting l (n + size cs) ds
fitting-append l n [] ds = rw (add-zero n) refl
fitting-append l n (c ∷ cs) ds = elim (Bool-cases (exceeds l (n + length c))) [
  | inl over ↦
      simp
        (
          over,
          sym (add_assoc n (length c) (size cs)),
          fitting_over l (n + length c + size cs) ds (exceeds-add l (n + length c) (size cs) over),
        )
        refl
  | inr fits ↦ simp (fits, fitting-append l (n + length c) cs ds, add_assoc) refl
]

flatten-append : (cs ds : List Bytes) → flatten (cs ++ ds) ≡ flatten cs ++ flatten ds
flatten-append [] ds = refl
flatten-append (c ∷ cs) ds = simp (flatten-append cs ds, append_assoc) refl

-- What a run of events makes of the state, as far as the body is concerned.
pub record Delivered (s : AsyncState) (cs : List Bytes) (t : AsyncState) : Type 0 where
  pub closed : t.closed ≡ s.closed
  pub stream : t.stream ≡ s.stream
  pub limit : t.limit ≡ s.limit
  pub total : t.total ≡ s.total + size cs
  pub queue : s.stream ≡ true → t.chunks ≡ s.chunks ++ fitting s.limit s.total cs
  pub whole : s.stream ≡ false → t.content ≡ s.content ++ flatten (fitting s.limit s.total cs)

Delivered-trans :
    (s t u : AsyncState) (cs ds : List Bytes)
    → Delivered s cs t
    → Delivered t ds u
    → Delivered s (cs ++ ds) u
Delivered-trans s t u cs ds a b = record {
  closed = cc;
  stream = cc;
  limit = cc;
  total = omega (arith, a.total, b.total, size-append cs ds);
  queue = λ h. ground (
    arith,
    a.queue h,
    b.queue (a.stream ∙ h),
    fitting-append s.limit s.total cs ds,
    append_assoc s.chunks (fitting s.limit s.total cs) (fitting s.limit (s.total + size cs) ds),
  );
  whole = λ h. ground (
    arith,
    a.whole h,
    b.whole (a.stream ∙ h),
    fitting-append s.limit s.total cs ds,
    flatten-append (fitting s.limit s.total cs) (fitting s.limit (s.total + size cs) ds),
    append_assoc s.content (flatten (fitting s.limit s.total cs))
        (flatten (fitting s.limit (s.total + size cs) ds)),
  );
}

-- A step that leaves the body alone.
quiet :
    (s t : AsyncState)
    → t.closed ≡ s.closed
    → t.stream ≡ s.stream
    → t.limit ≡ s.limit
    → t.total ≡ s.total
    → t.chunks ≡ s.chunks
    → t.content ≡ s.content
    → Delivered s [] t
quiet s t a b c n d e = record {
  closed = a;
  stream = b;
  limit = c;
  total = n ∙ sym (add-zero s.total);
  queue = λ h. rw append-nil d;
  whole = λ h. rw append-nil e;
}

fail-quiet : (e : Failure) (cancel : Bool) (s : AsyncState) → Delivered s [] (fail e cancel s)
unfolding fail
fail-quiet e cancel s =
    quiet s _ (ground arith) (ground arith) (ground arith) (ground arith) (ground arith)
      (ground arith)

accept-Delivered :
    (c : Bytes) (s : AsyncState)
    → exceeds s.limit (s.total + length c) ≡ false
    → Delivered s (c ∷ []) (accept c (record s { total = s.total + length c }))
unfolding accept
accept-Delivered c s fits = record {
  closed = ground arith;
  stream = ground arith;
  limit = ground arith;
  total = ground arith;
  queue = λ streams. simp (streams, fits) refl;
  whole = λ w. simp (w, fits, append-nil) refl;
}

on_body-Delivered : (c : Bytes) (s : AsyncState) → Delivered s (c ∷ []) (on_body c s)
unfolding on_body
on_body-Delivered c s = elim (Bool-cases (exceeds s.limit (s.total + length c))) [
  | inl over ↦
      let t : AsyncState = record s { total = s.total + length c } in
      let q = fail-quiet (response_too_large (limit_or_zero s.limit)) true t in
      simp over record {
        closed = q.closed;
        stream = q.stream;
        limit = q.limit;
        total = omega (arith, q.total);
        queue = λ h. simp over (q.queue h);
        whole = λ h. simp over (q.whole h);
      }
  | inr fits ↦ simp fits (accept-Delivered c s fits)
]

pub handle-Delivered : (e : Event) (s : AsyncState) → Delivered s (bodies (e ∷ [])) (handle e s)
unfolding handle on_redirect on_done
handle-Delivered (body c) s = on_body-Delivered c s
handle-Delivered (response code headers) s =
    quiet s _ (ground arith) (ground arith) (ground arith) (ground arith) (ground arith)
      (ground arith)
handle-Delivered (redirect code headers url) s =
    quiet s _ (ground arith) (ground arith) (ground arith) (ground arith) (ground arith)
      (ground arith)
handle-Delivered completed s =
    quiet s _ (ground arith) (ground arith) (ground arith) (ground arith) (ground arith)
      (ground arith)
handle-Delivered (error message) s = fail-quiet (native_error message) false s
handle-Delivered unknown s = quiet s s refl refl refl refl refl refl

bodies_cons : (e : Event) (es : List Event) → bodies (e ∷ es) ≡ bodies (e ∷ []) ++ bodies es
bodies_cons (body c) es = refl
bodies_cons (response _ _) es = refl
bodies_cons (redirect _ _ _) es = refl
bodies_cons completed es = refl
bodies_cons (error _) es = refl
bodies_cons unknown es = refl

pub handle_all-Delivered :
    (es : List Event) (s : AsyncState)
    → s.closed ≡ false
    → Delivered s (bodies es) (handle_all es s)
unfolding handle_all
handle_all-Delivered [] s o = quiet s s refl refl refl refl refl refl
handle_all-Delivered (e ∷ es) s o =
    let step = handle-Delivered e s in
    let still : (handle e s).closed ≡ false = step.closed ∙ o in
    simp (still, bodies_cons e es)
      (Delivered-trans s (handle e s) _ (bodies (e ∷ [])) (bodies es) step
        (handle_all-Delivered es (handle e s) still))

rearm-quiet : (n : ℕ) (s : AsyncState) → Delivered s [] (rearm n s)
unfolding rearm
rearm-quiet n s =
    quiet s _ (ground arith) (ground arith) (ground arith) (ground arith) (ground arith)
      (ground arith)

has_room :
    (s : AsyncState)
    → (s.stream ≡ true → s.buffered < stream_buffer_limit)
    → (s.stream && leb stream_buffer_limit s.buffered) ≡ false
has_room s room = elim (Bool-cases s.stream) [
  | inl streams ↦ ground (arith, room streams)
  | inr whole ↦ simp whole refl
]

-- A wake-up of an open request whose queue has room takes the whole batch: a stream's queue grows by
-- the batch's bodies, in their order, up to the first that passes the limit, and so does the content
-- of a request that is not a stream; every body of the batch is counted.
pub notify-Delivered :
    (es : List Event) (s : AsyncState)
    → s.closed ≡ false
    → (s.stream ≡ true → s.buffered < stream_buffer_limit)
    → Delivered s (bodies es) (notify (batch es) s)
unfolding notify poll
notify-Delivered es s o room =
    let all = handle_all-Delivered es s o in
    let open' : (handle_all es s).closed ≡ false = all.closed ∙ o in
    let whole =
      Delivered-trans s _ _ (bodies es) [] all (rearm-quiet (length es) (handle_all es s)) in
    simp (o, has_room s room) (rw (append-nil (bodies es)) at whole)
