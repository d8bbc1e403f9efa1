-- ===== src/Async/State.antt =====
-- `_AsyncState`. The Core is outside: what `poll_events` returns is an argument, and the calls on the
-- request and the loop are recorded (`cancelled`, `detached`, `scheduled`), the `RuntimeError`s of
-- `cancel` and `detach_callback` being swallowed. Bytes are numbers. Each method runs on the loop's
-- thread to its end, so it is one step.
pub mod Soundness
pub mod Delivery
pub mod Progress
use chrome_client.Base.{
  ℕ, zero, suc, ◌+◌, ◌-◌, Option, none, some, List, [], ◌∷◌, ◌++◌, Bool, true, false, not, ◌==◌,
  ◌&&◌, ltb, leb, length, ℕ_eq, if◌then◌else◌,
}
use chrome_client.Base.Text.{Text}

abbrev pub Bytes : Type 0
Bytes = List ℕ

-- `ASYNC_POLL_BATCH` and `STREAM_BUFFER_LIMIT`
abbrev pub async_poll_batch : ℕ
async_poll_batch = 64

abbrev pub stream_buffer_limit : ℕ
stream_buffer_limit = 1_048_576

pub data Failure : Type 0 where
  response_too_large : ℕ → Failure
  timed_out : Failure
  native_error : Text → Failure

pub data Future : Type 0 where
  pending resolved cancelled : Future
  failed : Failure → Future

-- An event of the Core, by its kind.
pub data Event : Type 0 where
  body : Bytes → Event
  response : ℕ → Bytes → Event
  redirect : ℕ → Bytes → Bytes → Event
  completed : Event
  error : Text → Event
  unknown : Event

-- What `poll_events` does: it returns a batch, or raises.
pub data Poll : Type 0 where
  batch : List Event → Poll
  poll_failed : Text → Poll

pub record AsyncState : Type 0 where
  pub future : Future
  pub chunks : List Bytes
  pub buffered : ℕ
  pub total : ℕ
  pub done : Bool
  pub failure : Option Failure
  pub status : ℕ
  pub raw_headers : Bytes
  pub content : Bytes
  pub stream : Bool
  pub limit : Option ℕ
  pub wake : Bool
  pub closed : Bool
  pub throttled : Bool
  pub hops : List (ℕ × Bytes × Bytes)
  pub follow : Bool
  pub timer : Bool
  pub cancelled : Bool
  pub detached : Bool
  pub scheduled : ℕ

-- `timeout` says whether a deadline was given (a deadline of zero is none).
unfoldable pub create : Bool → Option ℕ → Bool → Bool → AsyncState
create stream limit timeout follow = record {
  future = pending;
  chunks = [];
  buffered = 0;
  total = 0;
  done = false;
  failure = none;
  status = 0;
  raw_headers = [];
  content = [];
  stream = stream;
  limit = limit;
  wake = false;
  closed = false;
  throttled = false;
  hops = [];
  follow = follow;
  timer = timeout;
  cancelled = false;
  detached = false;
  scheduled = 0;
}

-- `self.wake.set()`: there is an event to set only for a stream.
abbrev pub signal : AsyncState → AsyncState
signal s = if s.stream then record s { wake = true } else s

-- `if not self.future.done()`
abbrev pub settle : Future → Future → Future
settle result pending = result
settle result other = other

abbrev pub first_failure : Option Failure → Failure → Option Failure
first_failure none e = some e
first_failure (some old) e = some old

-- `_fail`
unfoldable pub fail : Failure → Bool → AsyncState → AsyncState
fail e cancel s = signal (record s {
  failure = first_failure s.failure e;
  done = true;
  timer = false;
  cancelled = if cancel then true else s.cancelled;
  future = if s.stream then s.future else settle (failed e) s.future;
})

abbrev pub exceeds : Option ℕ → ℕ → Bool
exceeds none n = false
exceeds (some l) n = ltb l n

abbrev pub limit_or_zero : Option ℕ → ℕ
limit_or_zero none = 0
limit_or_zero (some l) = l

-- `_on_body`: a chunk within the limit is queued for a stream, and else collected.
unfoldable pub accept : Bytes → AsyncState → AsyncState
accept chunk s =
    if s.stream
    then signal (record s { chunks = s.chunks ++ chunk ∷ []; buffered = s.buffered + length chunk })
    else record s { content = s.content ++ chunk }

unfoldable pub on_body : Bytes → AsyncState → AsyncState
on_body chunk s =
    let counted : AsyncState = record s { total = s.total + length chunk } in
    if exceeds s.limit counted.total
    then fail (response_too_large (limit_or_zero s.limit)) true counted
    else accept chunk counted

-- `_on_redirect`
unfoldable pub on_redirect : ℕ → Bytes → Bytes → AsyncState → AsyncState
on_redirect code headers url s =
    if s.follow
    then record s { hops = s.hops ++ (code, headers, url) ∷ [] }
    else signal (record s {
      status = code;
      raw_headers = headers;
      done = true;
      timer = false;
      cancelled = true;
      future = settle resolved s.future;
    })

-- `_on_done`
unfoldable pub on_done : AsyncState → AsyncState
on_done s = signal (record s {
  done = true;
  timer = false;
  future = if s.stream then s.future else settle resolved s.future;
})

unfoldable pub handle : Event → AsyncState → AsyncState
handle (body chunk) s = on_body chunk s
handle (response code headers) s = signal (record s { status = code; raw_headers = headers })
handle (redirect code headers url) s = on_redirect code headers url s
handle completed s = on_done s
handle (error message) s = fail (native_error message) false s
handle unknown s = s

-- The loop over the batch, which ends early on a state that was closed.
unfoldable pub handle_all : List Event → AsyncState → AsyncState
handle_all [] s = s
handle_all (e ∷ es) s =
    let next = handle e s in let rest = handle_all es next in if next.closed then next else rest

-- A batch that is full may have left events behind, so the method schedules itself again.
unfoldable pub rearm : ℕ → AsyncState → AsyncState
unfolding ℕ_eq
rearm count s =
    if s.closed
    then s
    else if count == async_poll_batch
    then record s { scheduled = s.scheduled + 1 }
    else s

unfoldable pub poll : Poll → AsyncState → AsyncState
poll (poll_failed message) s = fail (native_error message) false s
poll (batch events) s = rearm (length events) (handle_all events s)

-- `notify`
unfoldable pub notify : Poll → AsyncState → AsyncState
notify polled s =
    if s.closed
    then s
    else if s.stream && leb stream_buffer_limit s.buffered
    then record s { throttled = true }
    else poll polled s

-- `_expire`, which the timer calls.
unfoldable pub expire : AsyncState → AsyncState
expire s = fail timed_out true (record s { timer = false })

-- `resume`
unfoldable pub resume : AsyncState → AsyncState
resume s =
    if s.throttled && ltb s.buffered stream_buffer_limit
    then record s { throttled = false; scheduled = s.scheduled + 1 }
    else s

-- `wait`, up to its await: the event is cleared, and the consumer sleeps until it is set.
unfoldable pub wait : AsyncState → AsyncState
wait s = record s { wake = false }

-- `drain_chunks`: the chunks, and the state without them.
unfoldable pub drain_chunks : AsyncState → List Bytes × AsyncState
drain_chunks s = (s.chunks, record s { chunks = []; buffered = 0; throttled = false })

-- `finish`
unfoldable pub finish : Bool → AsyncState → AsyncState
finish cancel s =
    if s.closed
    then s
    else let t : AsyncState = signal (record s {
      closed = true;
      timer = false;
      cancelled = if cancel then true else s.cancelled;
      detached = true;
      chunks = [];
      buffered = 0;
    }) in
      record t { future = settle cancelled t.future }

-- `error_is_lazy`: the body's consumer owns the failure.
unfoldable pub error_is_lazy : AsyncState → Bool
error_is_lazy s =
    s.stream
    && elim s.failure [ none ↦ false | some e ↦ elim e [ response_too_large _ ↦ true | _ ↦ false ] ]
