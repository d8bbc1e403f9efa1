-- ===== src/Async/State/Progress.antt =====
-- What the steps of a request never undo, and who is woken: an end, a first failure and a settled
-- future stay, and a step that gives a sleeping consumer something to do wakes it.
use chrome_client.Base.{
  ℕ, sym, ◌+◌, ◌≡◌, ◌≢◌, refl, ◌∙◌, none, some, List, [], ◌∷◌, Bool, true, false, ◌&&◌, ◌⊎◌, leb,
  length, arith, inl, inr, Bool-cases,
}
use chrome_client.Async.State.{
  AsyncState, Bytes, Event, Poll, Failure, accept, exceeds, limit_or_zero, body, response, redirect,
  completed, error, unknown, batch, poll_failed, response_too_large, native_error, timed_out, fail,
  on_body, on_redirect, on_done, handle, handle_all, rearm, poll, notify, resume, expire, finish,
  drain_chunks, wait, stream_buffer_limit, pending,
}
use chrome_client.Async.State.Soundness.{Step, Reach}

pub record Later (s t : AsyncState) : Type 0 where
  pub ended : s.done ≡ true → t.done ≡ true
  pub closed : s.closed ≡ true → t.closed ≡ true
  pub failure : (e : Failure) → s.failure ≡ some e → t.failure ≡ some e
  pub future : s.future ≢ pending → t.future ≡ s.future
  pub cancelled : s.cancelled ≡ true → t.cancelled ≡ true
  pub stopped : s.timer ≡ false → t.timer ≡ false

Later-refl : (s : AsyncState) → Later s s
Later-refl s = record {
  ended = λ h. h;
  closed = λ h. h;
  failure = λ e h. h;
  future = λ h. refl;
  cancelled = λ h. h;
  stopped = λ h. h;
}

Later-trans : {s t u : AsyncState} → Later s t → Later t u → Later s u
Later-trans a b = record {
  ended = λ h. b.ended (a.ended h);
  closed = λ h. b.closed (a.closed h);
  failure = λ e h. b.failure e (a.failure e h);
  future = λ h. b.future (λ p. h (sym (a.future h) ∙ p)) ∙ a.future h;
  cancelled = λ h. b.cancelled (a.cancelled h);
  stopped = λ h. b.stopped (a.stopped h);
}

fail-Later : (e : Failure) (cancel : Bool) (s : AsyncState) → Later s (fail e cancel s)
unfolding fail
fail-Later e cancel s = ground arith

counted-Later : (n : ℕ) (s : AsyncState) → Later s (record s { total = n })
counted-Later n s = ground arith

accept-Later : (c : Bytes) (s : AsyncState) → Later s (accept c s)
unfolding accept
accept-Later c s = ground arith

on_body-Later : (c : Bytes) (s : AsyncState) → Later s (on_body c s)
unfolding on_body
on_body-Later c s = elim (Bool-cases (exceeds s.limit (s.total + length c))) [
  | inl over ↦ simp over (
      Later-trans (counted-Later (s.total + length c) s)
        (fail-Later (response_too_large (limit_or_zero s.limit)) true _))
  | inr fits ↦ simp fits (Later-trans (counted-Later (s.total + length c) s) (accept-Later c _))
]

handle-Later : (e : Event) (s : AsyncState) → Later s (handle e s)
unfolding handle on_redirect on_done
handle-Later (body c) s = on_body-Later c s
handle-Later (response _ _) s = ground arith
handle-Later (redirect _ _ _) s = ground arith
handle-Later completed s = ground arith
handle-Later (error message) s = fail-Later (native_error message) false s
handle-Later unknown s = Later-refl s

handle_all-Later : (es : List Event) (s : AsyncState) → Later s (handle_all es s)
unfolding handle_all
handle_all-Later [] s = Later-refl s
handle_all-Later (e ∷ es) s = elim (Bool-cases (handle e s).closed) [
  | inl closed ↦ simp closed (handle-Later e s)
  | inr open' ↦ simp open' (Later-trans (handle-Later e s) (handle_all-Later es (handle e s)))
]

rearm-Later : (n : ℕ) (s : AsyncState) → Later s (rearm n s)
unfolding rearm
rearm-Later n s = ground arith

poll-Later : (p : Poll) (s : AsyncState) → Later s (poll p s)
unfolding poll
poll-Later (poll_failed message) s = fail-Later (native_error message) false s
poll-Later (batch es) s = Later-trans (handle_all-Later es s) (rearm-Later (length es) _)

notify-Later : (p : Poll) (s : AsyncState) → Later s (notify p s)
unfolding notify
notify-Later p s = elim (Bool-cases s.closed) [
  | inl closed ↦ simp closed (Later-refl s)
  | inr open' ↦ elim (Bool-cases (s.stream && leb stream_buffer_limit s.buffered)) [
    | inl full ↦ simp (open', full) (ground arith)
    | inr room ↦ simp (open', room) (poll-Later p s)
  ]
]

finish-Later : (cancel : Bool) (s : AsyncState) → Later s (finish cancel s)
unfolding finish
finish-Later cancel s = ground arith

unset-Later : (s : AsyncState) → Later s (record s { timer = false })
unset-Later s = ground arith

Step-Later : {s t : AsyncState} → Step s t → Later s t
unfolding expire resume drain_chunks wait
Step-Later {s} (Step.notified p) = notify-Later p s
Step-Later {s} (Step.expired armed) = Later-trans (unset-Later s) (fail-Later timed_out true _)
Step-Later {s} (Step.took c cs e) = ground arith
Step-Later {s} Step.drained = ground arith
Step-Later {s} Step.waited = ground arith
Step-Later {s} (Step.finished cancel) = finish-Later cancel s

-- Whatever happens after a state: a request that was done or closed stays so, the first failure
-- stays, a settled future keeps its value, a cancelled request stays so, and a deadline that is gone
-- is not set again.
pub Reach-Later : {s t : AsyncState} → Reach s t → Later s t
Reach-Later {s} Reach.here = Later-refl s
Reach-Later (Reach.next r step) = Later-trans (Reach-Later r) (Step-Later step)

-- Nothing for the consumer of a stream: no chunk, no failure, no end.
pub record Idle (s : AsyncState) : Type 0 where
  pub streams : s.stream ≡ true
  pub empty : s.chunks ≡ []
  pub running : s.done ≡ false
  pub sound : s.failure ≡ none
  pub open' : s.closed ≡ false

abbrev Woken : AsyncState → Type 0
Woken s = Idle s ⊎ ((s.stream ≡ true) × (s.wake ≡ true))

fail-Woken :
    (e : Failure) (cancel : Bool) (s : AsyncState) → s.stream ≡ true → Woken (fail e cancel s)
unfolding fail
fail-Woken e cancel s streams = inr (ground arith)

on_body-Woken : (c : Bytes) (s : AsyncState) → s.stream ≡ true → Woken (on_body c s)
unfolding on_body accept
on_body-Woken c s streams = elim (Bool-cases (exceeds s.limit (s.total + length c))) [
  | inl over ↦ simp over (
      fail-Woken (response_too_large (limit_or_zero s.limit)) true
        (record s { total = s.total + length c }) streams)
  | inr fits ↦ simp (fits, streams) (inr (refl, refl))
]

Woken-stream : (s : AsyncState) → Woken s → s.stream ≡ true
Woken-stream s (inl idle) = idle.streams
Woken-stream s (inr (streams, _)) = streams

handle-Woken : (e : Event) (s : AsyncState) → Woken s → Woken (handle e s)
unfolding handle on_redirect on_done
handle-Woken (body c) s w = on_body-Woken c s (Woken-stream s w)
handle-Woken (response _ _) s w = inr (ground (arith, Woken-stream s w))
handle-Woken (redirect _ _ _) s (inl idle) = ground arith
handle-Woken (redirect _ _ _) s (inr (streams, set)) = ground arith
handle-Woken completed s w = inr (ground (arith, Woken-stream s w))
handle-Woken (error message) s w = fail-Woken (native_error message) false s (Woken-stream s w)
handle-Woken unknown s w = w

handle_all-Woken : (es : List Event) (s : AsyncState) → Woken s → Woken (handle_all es s)
unfolding handle_all
handle_all-Woken [] s w = w
handle_all-Woken (e ∷ es) s w = elim (Bool-cases (handle e s).closed) [
  | inl closed ↦ simp closed (handle-Woken e s w)
  | inr open' ↦ simp open' (handle_all-Woken es (handle e s) (handle-Woken e s w))
]

rearm-Woken : (n : ℕ) (s : AsyncState) → Woken s → Woken (rearm n s)
unfolding rearm
rearm-Woken n s (inl idle) = ground arith
rearm-Woken n s (inr (streams, set)) = ground arith

poll-Woken : (p : Poll) (s : AsyncState) → Woken s → Woken (poll p s)
unfolding poll
poll-Woken (poll_failed message) s w = fail-Woken (native_error message) false s (Woken-stream s w)
poll-Woken (batch es) s w = rearm-Woken (length es) _ (handle_all-Woken es s w)

notify-Woken : (p : Poll) (s : AsyncState) → Woken s → Woken (notify p s)
unfolding notify
notify-Woken p s w = elim (Bool-cases s.closed) [
  | inl closed ↦ simp closed w
  | inr open' ↦ elim (Bool-cases (s.stream && leb stream_buffer_limit s.buffered)) [
    | inl full ↦ elim w [
      | inl idle ↦ simp (open', full) (ground arith)
      | inr set ↦ simp (open', full) (ground arith)
    ]
    | inr room ↦ simp (open', room) (poll-Woken p s w)
  ]
]

-- What may happen while the consumer sleeps: everything but its own steps.
pub data Outside (s : AsyncState) : AsyncState → Type 0 where
  quiet : Outside s s
  notified : {t : AsyncState} → (p : Poll) → Outside s t → Outside s (notify p t)
  expired : {t : AsyncState} → Outside s t → Outside s (expire t)
  finished : {t : AsyncState} → (cancel : Bool) → Outside s t → Outside s (finish cancel t)

Outside-Woken : {s t : AsyncState} → Outside s t → Woken s → Woken t
unfolding expire finish
Outside-Woken quiet w = w
Outside-Woken (notified {t} p o) w = notify-Woken p t (Outside-Woken o w)
Outside-Woken (expired {t} o) w = fail-Woken timed_out true _ (Woken-stream t (Outside-Woken o w))
Outside-Woken (finished {t} cancel o) w = elim (Bool-cases t.closed) [
  | inl closed ↦ simp closed (Outside-Woken o w)
  | inr open' ↦ inr (ground (arith, Woken-stream t (Outside-Woken o w)))
]

-- No wake-up is lost: whatever comes from outside while a stream's consumer sleeps with nothing to
-- do, either there is still nothing to do and the request is open, or the consumer was woken.
pub Idle-Outside : {s t : AsyncState} → Idle s → Outside s t → Idle t ⊎ (t.wake ≡ true)
Idle-Outside idle o = elim (Outside-Woken o (inl idle)) [
  | inl still ↦ inl still
  | inr woken ↦ inr woken.1
]
