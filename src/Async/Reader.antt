-- ===== src/Async/Reader.antt =====
-- `_AsyncBodyReader` and `_SyncBodyReader`, the iterators over a body. The Core's `next_body` is a
-- script of what its calls answer. A turn of `__anext__` is one pass of its loop: it yields a chunk,
-- raises, stops, or waits.
pub mod Complete
pub mod Agreement
use chrome_client.Base.{
  ℕ, zero, suc, ◌+◌, ◌-◌, Option, none, some, List, [], ◌∷◌, Bool, true, false, ◌||◌, length,
  if◌then◌else◌, ◌≡◌, refl, arith,
}
use chrome_client.Async.State.{
  AsyncState, Bytes, Failure, exceeds, limit_or_zero, response_too_large, native_error, resume,
  finish, wait,
}
use chrome_client.Base.Text.{Text}

pub data Turn : Type 0 where
  yielded : Bytes → Turn
  raised : Failure → Turn
  stopped : Turn
  waiting : Turn

pub record AsyncReader : Type 0 where
  pub state : AsyncState
  pub limit : Option ℕ
  pub total : ℕ
  pub closed : Bool

unfoldable pub async_reader : AsyncState → Option ℕ → AsyncReader
async_reader s l = record { state = s; limit = l; total = 0; closed = false }

unfoldable pub aclose : Bool → AsyncReader → AsyncReader
aclose cancel r = if r.closed then r else record r { closed = true; state = finish cancel r.state }

-- A chunk that was taken from the queue.
unfoldable pub deliver : Bytes → AsyncReader → Turn × AsyncReader
deliver c r =
    let counted : AsyncReader = record r { total = r.total + length c } in
    if exceeds r.limit counted.total
    then (raised (response_too_large (limit_or_zero r.limit)), aclose true counted)
    else (yielded c, counted)

unfoldable pub on_empty : Option Failure → AsyncReader → Turn × AsyncReader
unfolding wait
on_empty (some e) r = (raised e, aclose false r)
on_empty none r =
    if r.state.done || r.closed
    then (stopped, aclose false r)
    else (waiting, record r { state = wait r.state })

unfoldable pub take_turn : List Bytes → AsyncReader → Turn × AsyncReader
take_turn [] r = on_empty r.state.failure r
take_turn (c ∷ cs) r = deliver c (record r {
  state = resume (record r.state { chunks = cs; buffered = r.state.buffered - length c });
})

unfoldable pub anext : AsyncReader → Turn × AsyncReader
unfolding take_turn
anext r = take_turn r.state.chunks r

-- `CancelledError` or `Timeout` out of the wait.
unfoldable pub interrupt : AsyncReader → AsyncReader
interrupt r = aclose true r

unfoldable pub collect :
    Turn → AsyncReader → List Bytes × Turn × AsyncReader → List Bytes × Turn × AsyncReader
collect (yielded c) r rest = (c ∷ rest.0, rest.1, rest.2)
collect (raised e) r rest = ([], raised e, r)
collect stopped r rest = ([], stopped, r)
collect waiting r rest = ([], waiting, r)

-- `async for`: the chunks, the last turn and the reader after it.
unfoldable pub read_all : ℕ → AsyncReader → List Bytes × Turn × AsyncReader
read_all zero r = ([], waiting, r)
read_all (suc fuel) r =
    let turn = anext r in let rest = read_all fuel turn.1 in collect turn.0 turn.1 rest

-- What a call of `next_body` does.
pub data Next : Type 0 where
  chunk : Bytes → Next
  end : Next
  broken : Text → Next

pub record SyncReader : Type 0 where
  pub limit : Option ℕ
  pub total : ℕ
  pub closed : Bool
  pub cancelled : Bool
  pub detached : Bool

unfoldable pub sync_reader : Option ℕ → SyncReader
sync_reader l = record { limit = l; total = 0; closed = false; cancelled = false; detached = false }

-- `_SyncBodyReader.close`
unfoldable pub close : Bool → SyncReader → SyncReader
close cancel r = if r.closed then r else record r {
  closed = true;
  cancelled = if cancel then true else r.cancelled;
  detached = true;
}

-- `_SyncBodyReader.__del__`
unfoldable pub abandon : SyncReader → SyncReader
unfolding close
abandon r = close true r

-- `_SyncBodyReader.__iter__`, against what the Core answers; a script that is over answers `None`.
unfoldable pub iterate : List Next → SyncReader → List Bytes × Turn × SyncReader
iterate [] r = ([], stopped, close false r)
iterate (end ∷ script) r = ([], stopped, close false r)
iterate (broken message ∷ script) r =
    if r.closed then ([], stopped, r) else ([], raised (native_error message), close false r)
iterate (chunk c ∷ script) r =
    let counted : SyncReader = record r { total = r.total + length c } in
    let rest = iterate script counted in
    if r.closed
    then ([], stopped, r)
    else if exceeds r.limit counted.total
    then ([], raised (response_too_large (limit_or_zero r.limit)), close true counted)
    else (c ∷ rest.0, rest.1, rest.2)

-- What a turn raises.
unfoldable pub failure_of : Turn → Option Failure
failure_of (raised e) = some e
failure_of turn = none

-- However a reader was left, it is closed once it has been iterated to the end.
pub iterate_closed : (script : List Next) (r : SyncReader) → (iterate script r).2.closed ≡ true
unfolding iterate close
iterate_closed [] r = ground arith
iterate_closed (end ∷ script) r = ground arith
iterate_closed (broken message ∷ script) r = ground arith
iterate_closed (chunk c ∷ script) r =
    ground (arith, iterate_closed script (record r { total = r.total + length c }))

-- A closed reader yields nothing.
pub iterate_again :
    (script : List Next) (r : SyncReader) → r.closed ≡ true → iterate script r ≡ ([], stopped, r)
unfolding iterate close
iterate_again [] r h = simp h refl
iterate_again (end ∷ script) r h = simp h refl
iterate_again (broken message ∷ script) r h = simp h refl
iterate_again (chunk c ∷ script) r h = simp h refl

third :
    {A : Type 0} (a b : Bool) (x y z : A)
    → a ≡ false
    → b ≡ false
    → (if a then x else if b then y else z) ≡ z
third true b x y z h k = cc
third false true x y z h k = cc
third false false x y z h k = refl

-- One more turn of an open reader within its limit.
pub iterate_next :
    (c : Bytes) (script : List Next) (r : SyncReader)
    → r.closed ≡ false
    → exceeds r.limit (r.total + length c) ≡ false
    → let rest = iterate script (record r { total = r.total + length c }) in
      iterate (chunk c ∷ script) r ≡ (c ∷ rest.0, rest.1, rest.2)
unfolding iterate
iterate_next c script r h k = third r.closed (exceeds r.limit (r.total + length c)) _ _ _ h k
