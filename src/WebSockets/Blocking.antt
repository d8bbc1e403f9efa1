-- ===== src/WebSockets/Blocking.antt =====
-- `WebSocket`, the blocking socket. The Core's `recv` is what its calls answer, in order; where the
-- script gives out, the call blocks, or returns `None` if the script is `over`.
use chrome_client.Base.{ℕ, Option, none, some, List, [], ◌∷◌, ◌++◌, Bool, true, if◌then◌else◌}
use chrome_client.Base.Text.{codes}
use chrome_client.Async.State.{Bytes}
use chrome_client.WebSockets.{
  Kind, open_event, text_event, binary_event, error_event, closing_event, closed_event, Event,
  Outcome, returned, raised, blocked, websocket_error, websocket_closed, Meaning, frame, ended,
  raises, error_text, meaning,
}

pub record WebSocket : Type 0 where
  pub opened : Bool
  pub closed : Bool
  pub pending : List Event
  pub script : List Event
  pub over : Bool
  pub cancelled : Bool
  pub close_sent : Option (ℕ × Bytes)

abbrev handshake_closed : WebSocket → Option ℕ → Outcome (Unit {0}) × WebSocket
handshake_closed w code = (raised (websocket_closed code), record w { closed = true })

-- The loop of `_await_open`, without its deadline, over the events that the Core reports.
unfoldable pub await_events : List Event → WebSocket → Outcome (Unit {0}) × WebSocket
unfolding error_text
await_events [] w =
    if w.over
    then handshake_closed (record w { script = [] }) none
    else (blocked, record w { script = [] })
await_events (e ∷ es) w =
    let rest = await_events es (record w { pending = w.pending ++ e ∷ [] }) in
    elim e.kind [
      | open_event ↦ (returned tt, record w { script = es; opened = true })
      | text_event ↦ rest
      | binary_event ↦ rest
      | error_event ↦ (
        raised (websocket_error (error_text e.error (codes "WebSocket handshake failed"))),
        record w { script = es; closed = true },
      )
      | closing_event ↦ handshake_closed (record w { script = es }) e.code
      | closed_event ↦ handshake_closed (record w { script = es }) e.code
    ]

unfoldable pub await_open : WebSocket → Outcome (Unit {0}) × WebSocket
unfolding await_events
await_open w = if w.opened then (returned tt, w) else await_events w.script w

unfoldable pub interpret : Meaning → WebSocket → Outcome (Option (Kind × Bytes)) × WebSocket
interpret (frame kind payload) w = (returned (some (kind, payload)), w)
interpret ended w = (returned none, record w { closed = true })
interpret (raises e) w = (raised e, record w { closed = true })

-- `self._socket.recv()`
unfoldable pub next_reported : List Event → WebSocket → Outcome (Option (Kind × Bytes)) × WebSocket
unfolding interpret meaning
next_reported [] w = if w.over then (returned none, record w { closed = true }) else (blocked, w)
next_reported (e ∷ es) w = interpret (meaning e) (record w { script = es })

unfoldable pub next_of : List Event → WebSocket → Outcome (Option (Kind × Bytes)) × WebSocket
unfolding next_reported interpret meaning
next_of [] w = next_reported w.script w
next_of (e ∷ es) w = interpret (meaning e) (record w { pending = es })

-- `_next`
unfoldable pub next : WebSocket → Outcome (Option (Kind × Bytes)) × WebSocket
unfolding next_of
next w = next_of w.pending w

unfoldable pub close : ℕ → Bytes → WebSocket → WebSocket
close code reason w =
    if w.closed then w else record w { closed = true; close_sent = some (code, reason) }

unfoldable pub terminate : WebSocket → WebSocket
terminate w = record w { closed = true; cancelled = true }
