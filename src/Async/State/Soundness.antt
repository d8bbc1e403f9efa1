-- ===== src/Async/State/Soundness.antt =====
-- The accounting of the state: what holds between any two steps of the event loop.
use chrome_client.Base.{
  ℕ, ◌+◌, ◌-◌, ◌≤◌, ◌≡◌, ◌≢◌, refl, Option, none, some, List, [], ◌∷◌, ◌++◌, Bool, true, false,
  ◌&&◌, leb, length, length-append, arith, inl, inr, Bool-cases,
}
use chrome_client.Async.State.{
  AsyncState, Bytes, Event, Poll, accept, exceeds, limit_or_zero, body, response, redirect,
  completed, error, unknown, batch, poll_failed, Failure, create, fail, on_body, on_redirect,
  on_done, handle, handle_all, rearm, poll, notify, expire, resume, drain_chunks, wait, finish,
  stream_buffer_limit, response_too_large, native_error, timed_out,
}

abbrev pub size : List Bytes → ℕ
size [] = 0
size (c ∷ cs) = length c + size cs

pub size-append : (xs ys : List Bytes) → size (xs ++ ys) ≡ size xs + size ys
size-append [] ys = omega arith
size-append (x ∷ xs) ys = omega (arith, size-append xs ys)

abbrev pub Within : Option ℕ → ℕ → Type 0
Within none n = Unit
Within (some l) n = n ≤ l

pub record IsSound (s : AsyncState) : Type 0 where
  -- the counter is the size of the queue
  pub counted : s.buffered ≡ size s.chunks
  -- only a stream has a queue
  pub queued : s.stream ≡ false → s.chunks ≡ []
  -- what is held was counted, and is within the limit
  pub held : s.buffered + length s.content ≤ s.total
  pub within : Within s.limit (s.buffered + length s.content)
  -- a request that is done or closed has no deadline left
  pub settled : s.done ≡ true → s.timer ≡ false
  pub released : s.closed ≡ true → (s.timer ≡ false) × (s.chunks ≡ [])
  -- a failure ends the request
  pub ended : s.failure ≢ none → s.done ≡ true
  -- reading is held back only while the queue is full
  pub throttle : s.throttled ≡ true → s.closed ≡ false → stream_buffer_limit ≤ s.buffered

create-IsSound :
    (stream : Bool) (limit : Option ℕ) (timeout follow : Bool)
    → IsSound (create stream limit timeout follow)
unfolding create
create-IsSound stream none timeout follow = record {
  counted = refl;
  queued = λ _. refl;
  held = omega arith;
  within = tt;
  settled = λ h. cc;
  released = λ h. cc;
  ended = λ h. absurd (h refl);
  throttle = λ h. cc;
}
create-IsSound stream (some l) timeout follow = record {
  counted = refl;
  queued = λ _. refl;
  held = omega arith;
  within = omega arith;
  settled = λ h. cc;
  released = λ h. cc;
  ended = λ h. absurd (h refl);
  throttle = λ h. cc;
}

fail-IsSound :
    (e : Failure) (cancel : Bool) (s : AsyncState) → IsSound s → IsSound (fail e cancel s)
unfolding fail
fail-IsSound e cancel s v = ground arith

counted-IsSound : (n : ℕ) (s : AsyncState) → IsSound s → IsSound (record s { total = s.total + n })
counted-IsSound n s v = ground arith

accept-IsSound :
    (chunk : Bytes) (s : AsyncState)
    → IsSound s
    → s.buffered + length s.content + length chunk ≤ s.total
    → Within s.limit s.total
    → s.closed ≡ false
    → IsSound (accept chunk s)
unfolding accept
accept-IsSound chunk s v h w open' = elim (Bool-cases s.stream) [
  | inl streams ↦ rw streams (ground (arith, size-append s.chunks (chunk ∷ [])))
  | inr whole ↦ rw whole (ground (arith, length-append s.content chunk))
]

exceeds-Within : (l : Option ℕ) (n : ℕ) → exceeds l n ≡ false → Within l n
exceeds-Within none n h = tt
exceeds-Within (some l) n h = ground arith

on_body-IsSound :
    (chunk : Bytes) (s : AsyncState) → IsSound s → s.closed ≡ false → IsSound (on_body chunk s)
unfolding on_body
on_body-IsSound chunk s v open' =
    let counted = counted-IsSound (length chunk) s v in
    elim (Bool-cases (exceeds s.limit (s.total + length chunk))) [
      | inl over ↦
          simp over (fail-IsSound (response_too_large (limit_or_zero s.limit)) true _ counted)
      | inr fits ↦
          simp fits
            (accept-IsSound chunk _ counted (omega arith) (exceeds-Within s.limit _ fits) open')
    ]

on_redirect-IsSound :
    (code : ℕ) (headers url : Bytes) (s : AsyncState)
    → IsSound s
    → IsSound (on_redirect code headers url s)
unfolding on_redirect
on_redirect-IsSound code headers url s v = ground arith

on_done-IsSound : (s : AsyncState) → IsSound s → IsSound (on_done s)
unfolding on_done
on_done-IsSound s v = ground arith

handle-IsSound : (e : Event) (s : AsyncState) → IsSound s → s.closed ≡ false → IsSound (handle e s)
unfolding handle
handle-IsSound (body chunk) s v o = on_body-IsSound chunk s v o
handle-IsSound (response code headers) s v o = ground arith
handle-IsSound (redirect code headers url) s v o = on_redirect-IsSound code headers url s v
handle-IsSound completed s v o = on_done-IsSound s v
handle-IsSound (error message) s v o = fail-IsSound (native_error message) false s v
handle-IsSound unknown s v o = v

handle_all-IsSound :
    (es : List Event) (s : AsyncState) → IsSound s → s.closed ≡ false → IsSound (handle_all es s)
unfolding handle_all
handle_all-IsSound [] s v o = v
handle_all-IsSound (e ∷ es) s v o =
    let next = handle-IsSound e s v o in
    elim (Bool-cases (handle e s).closed) [
      | inl closed ↦ simp closed next
      | inr open' ↦ simp open' (handle_all-IsSound es (handle e s) next open')
    ]

rearm-IsSound : (n : ℕ) (s : AsyncState) → IsSound s → IsSound (rearm n s)
unfolding rearm
rearm-IsSound n s v = ground arith

poll-IsSound : (p : Poll) (s : AsyncState) → IsSound s → s.closed ≡ false → IsSound (poll p s)
unfolding poll
poll-IsSound (poll_failed message) s v o = fail-IsSound (native_error message) false s v
poll-IsSound (batch es) s v o = rearm-IsSound (length es) _ (handle_all-IsSound es s v o)

notify-IsSound : (p : Poll) (s : AsyncState) → IsSound s → IsSound (notify p s)
unfolding notify
notify-IsSound p s v = elim (Bool-cases s.closed) [
  | inl closed ↦ simp closed v
  | inr open' ↦ elim (Bool-cases (s.stream && leb stream_buffer_limit s.buffered)) [
    | inl full ↦ simp (open', full) (ground arith)
    | inr room ↦ simp (open', room) (poll-IsSound p s v open')
  ]
]

expire-IsSound : (s : AsyncState) → IsSound s → IsSound (expire s)
unfolding expire
expire-IsSound s v = fail-IsSound timed_out true (record s { timer = false }) (ground arith)

finish-IsSound : (cancel : Bool) (s : AsyncState) → IsSound s → IsSound (finish cancel s)
unfolding finish
finish-IsSound cancel s v = ground arith

-- The consumer takes the first chunk, and reading may go on.
take-IsSound :
    (c : Bytes) (cs : List Bytes) (s : AsyncState)
    → s.chunks ≡ c ∷ cs
    → IsSound s
    → IsSound (resume (record s { chunks = cs; buffered = s.buffered - length c }))
unfolding resume
take-IsSound c cs s e v = ground arith

drain_chunks-IsSound : (s : AsyncState) → IsSound s → IsSound (drain_chunks s).1
unfolding drain_chunks
drain_chunks-IsSound s v = ground arith

-- A step of the event loop: the Core's callback, the deadline, or the consumer.
pub data Step (s : AsyncState) : AsyncState → Type 0 where
  notified : (p : Poll) → Step s (notify p s)
  expired : s.timer ≡ true → Step s (expire s)
  took :
      (c : Bytes) (cs : List Bytes)
      → s.chunks ≡ c ∷ cs
      → Step s (resume (record s { chunks = cs; buffered = s.buffered - length c }))
  drained : Step s (drain_chunks s).1
  waited : Step s (wait s)
  finished : (cancel : Bool) → Step s (finish cancel s)

pub Step-IsSound : {s t : AsyncState} → Step s t → IsSound s → IsSound t
unfolding wait
Step-IsSound {s} (notified p) v = notify-IsSound p s v
Step-IsSound {s} (expired armed) v = expire-IsSound s v
Step-IsSound {s} (took c cs e) v = take-IsSound c cs s e v
Step-IsSound {s} drained v = drain_chunks-IsSound s v
Step-IsSound {s} waited v = ground arith
Step-IsSound {s} (finished cancel) v = finish-IsSound cancel s v

pub data Reach (s : AsyncState) : AsyncState → Type 0 where
  here : Reach s s
  next : {t u : AsyncState} → Reach s t → Step t u → Reach s u

Reach-IsSound : {s t : AsyncState} → IsSound s → Reach s t → IsSound t
Reach-IsSound v here = v
Reach-IsSound v (next r step) = Step-IsSound step (Reach-IsSound v r)

-- Whatever the Core, the deadline and the consumer do, in any order, from the start of a request: the
-- byte counter is the size of the queue, what is held stays within the limit, a request that is done
-- or closed has no deadline left, a failure ends it, and reading is held back only while the queue
-- of an open request is full.
pub create-Reach-IsSound :
    (stream : Bool) (limit : Option ℕ) (timeout follow : Bool) {t : AsyncState}
    → Reach (create stream limit timeout follow) t
    → IsSound t
create-Reach-IsSound stream limit timeout follow r =
    Reach-IsSound (create-IsSound stream limit timeout follow) r
