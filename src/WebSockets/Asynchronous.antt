-- ===== src/WebSockets/Asynchronous.antt =====
-- `AsyncWebSocket`. Its methods run on the loop's thread, each from one wait to the next in one
-- step. The calls on the native socket are recorded, the `RuntimeError`s of `cancel` and
-- `detach_callback` being swallowed.
pub mod Bounds
pub mod Order
pub mod Handshake
use chrome_client.Base.{
  ℕ, zero, suc, ◌+◌, ◌-◌, Option, none, some, List, [], ◌∷◌, ◌++◌, Bool, true, false, ◌||◌, ◌==◌,
  ℕ_eq, ltb, leb, length, if◌then◌else◌,
}
use chrome_client.Base.Text.{Text, codes}
use chrome_client.Async.State.{Bytes}
use chrome_client.WebSockets.{
  Kind, open_event, text_event, binary_event, error_event, closing_event, closed_event, Event,
  Outcome, returned, raised, blocked, websocket_error, websocket_closed, concurrent_recv, Meaning,
  frame, ended, raises, error_text, meaning,
}

-- `MAX_QUEUED_EVENTS` and `MAX_QUEUED_BYTES`
abbrev pub max_queued_events : ℕ
max_queued_events = 1024

abbrev pub max_queued_bytes : ℕ
max_queued_bytes = 4_194_304

pub record AsyncWebSocket : Type 0 where
  pub events : List Event
  pub queued_bytes : ℕ
  pub wake : Bool
  pub recv_active : Bool
  pub closed : Bool
  pub opened : Bool
  pub cancelled : Bool
  pub detached : Bool
  pub close_sent : Option (ℕ × Bytes)

abbrev pub create : AsyncWebSocket
create = record {
  events = [];
  queued_bytes = 0;
  wake = false;
  recv_active = false;
  closed = false;
  opened = false;
  cancelled = false;
  detached = false;
  close_sent = none;
}

-- An error event that the socket makes itself.
abbrev pub own_error : Text → Event
own_error message = record { kind = error_event; payload = []; code = none; error = some message }

abbrev pub overflow : Event
overflow = own_error (codes "WebSocket event buffer limit exceeded")

abbrev pub is_full : AsyncWebSocket → Event → Bool
is_full s e =
    leb max_queued_events (length s.events)
    || ltb max_queued_bytes (s.queued_bytes + length e.payload)

unfoldable pub enqueue : Event → AsyncWebSocket → AsyncWebSocket
enqueue e s =
    if s.closed
    then s
    else if is_full s e
    then record s {
      closed = true;
      cancelled = true;
      events = s.events ++ overflow ∷ [];
      wake = true;
    }
    else record s {
      events = s.events ++ e ∷ [];
      queued_bytes = s.queued_bytes + length e.payload;
      wake = true;
    }

unfoldable pub enqueue_all : List Event → AsyncWebSocket → AsyncWebSocket
enqueue_all [] s = s
enqueue_all (e ∷ es) s = enqueue_all es (enqueue e s)

-- What `poll_events(64)` does.
pub data Poll : Type 0 where
  batch : List Event → Poll
  poll_failed : Text → Poll

-- `_drain`, and whether it schedules itself again.
unfoldable pub drain_open : Poll → AsyncWebSocket → AsyncWebSocket × Bool
unfolding ℕ_eq
drain_open (batch es) s = (enqueue_all es s, length es == 64)
drain_open (poll_failed message) s =
    (record s { events = s.events ++ own_error message ∷ []; wake = true }, false)

unfoldable pub drain : Poll → AsyncWebSocket → AsyncWebSocket × Bool
unfolding drain_open
drain poll s = if s.closed then (s, false) else drain_open poll s

unfoldable pub interpret :
    Meaning → AsyncWebSocket → Outcome (Option (Kind × Bytes)) × AsyncWebSocket
interpret (frame kind payload) s = (returned (some (kind, payload)), s)
interpret ended s = (returned none, record s { closed = true })
interpret (raises e) s = (raised e, record s { closed = true })

-- One pass of the loop of `_next`, which holds `_recv_active`. A pass that is `blocked` waits for
-- `_wake`, and the next pass follows it.
unfoldable pub next_of :
    List Event → AsyncWebSocket → Outcome (Option (Kind × Bytes)) × AsyncWebSocket
unfolding interpret meaning
next_of [] s =
    if s.closed
    then (returned none, record s { recv_active = false })
    else (blocked, record s { wake = false })
next_of (e ∷ es) s = interpret (meaning e) (record s {
  events = es;
  queued_bytes = s.queued_bytes - length e.payload;
  recv_active = false;
})

unfoldable pub next_pass : AsyncWebSocket → Outcome (Option (Kind × Bytes)) × AsyncWebSocket
unfolding next_of
next_pass s = next_of s.events s

-- `_next` up to its first wait.
unfoldable pub next : AsyncWebSocket → Outcome (Option (Kind × Bytes)) × AsyncWebSocket
unfolding next_pass
next s =
    if s.recv_active
    then (raised concurrent_recv, s)
    else next_pass (record s { recv_active = true })

-- One pass of the loop of `_await_open`, without its deadline.
unfoldable pub await_of : List Event → AsyncWebSocket → Outcome (Unit {0}) × AsyncWebSocket
unfolding error_text
await_of [] s =
    if s.closed then (raised (websocket_closed none), s) else (blocked, record s { wake = false })
await_of (e ∷ es) s =
    let popped : AsyncWebSocket = record s { events = es } in
    let racing : Outcome (Unit {0}) × AsyncWebSocket = (returned tt, record s { opened = true }) in
    elim e.kind [
      | open_event ↦ (returned tt, record popped { opened = true })
      | text_event ↦ racing
      | binary_event ↦ racing
      | error_event ↦ (
        raised (websocket_error (error_text e.error (codes "WebSocket handshake failed"))),
        record popped { closed = true },
      )
      | closing_event ↦ (raised (websocket_closed e.code), record popped { closed = true })
      | closed_event ↦ (raised (websocket_closed e.code), record popped { closed = true })
    ]

unfoldable pub await_open : AsyncWebSocket → Outcome (Unit {0}) × AsyncWebSocket
unfolding await_of
await_open s = if s.opened then (returned tt, s) else await_of s.events s

unfoldable pub close : ℕ → Bytes → AsyncWebSocket → AsyncWebSocket
close code reason s =
    if s.closed
    then s
    else record s { closed = true; wake = true; detached = true; close_sent = some (code, reason) }

unfoldable pub terminate : AsyncWebSocket → AsyncWebSocket
terminate s = record s { closed = true; wake = true; cancelled = true }
