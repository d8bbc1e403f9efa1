-- ===== src/WebSockets.antt =====
-- `websockets.py`: what the Core reports, and what both sockets make of it. An event is the tuple
-- `(kind, data, code, error)`. A text message holds the bytes that `decode("utf-8", "replace")` reads.
pub mod Receiving
pub mod Blocking
pub mod Asynchronous
pub mod Agreement
mod Tests
use chrome_client.Base.{ℕ, zero, suc, Option, none, some, List, [], ◌∷◌}
use chrome_client.Base.Text.{Text, codes}
use chrome_client.Async.State.{Bytes}
use chrome_client.Errors.Mapping.{name_net_error}

pub data Kind : Type 0 where
  open_event text_event binary_event error_event closing_event closed_event : Kind

pub record Event : Type 0 where
  pub kind : Kind
  pub payload : Bytes
  pub code : Option ℕ
  pub error : Option Text

pub data Message : Type 0 where
  text_message : Bytes → Message
  binary_message : Bytes → Message

-- What a wait for the handshake or for a message raises.
pub data Raised : Type 0 where
  websocket_error : Text → Raised
  websocket_closed : Option ℕ → Raised
  concurrent_recv : Raised

-- What one event means to `_next`: a frame, the end, or an exception. Both of the last close the
-- socket.
pub data Meaning : Type 0 where
  frame : Kind → Bytes → Meaning
  ended : Meaning
  raises : Raised → Meaning

-- `name_net_error(error) if error else default`
unfoldable pub error_text : Option Text → Text → Text
error_text none default = default
error_text (some []) default = default
error_text (some message) default = name_net_error message

unfoldable pub meaning : Event → Meaning
unfolding error_text
meaning e = elim e.kind [
  | open_event ↦ frame open_event e.payload
  | text_event ↦ frame text_event e.payload
  | binary_event ↦ frame binary_event e.payload
  | error_event ↦ raises (websocket_error (error_text e.error (codes "WebSocket failure")))
  | closing_event ↦ ended
  | closed_event ↦ raises (websocket_closed e.code)
]

-- `data.decode("utf-8", "replace") if kind == "text" else data`
unfoldable pub message_of : Kind → Bytes → Message
message_of text_event payload = text_message payload
message_of kind payload = binary_message payload

-- What a call comes to. `blocked` is a wait for the Core.
pub data Outcome {ℓ} (A : Type ℓ) : Type ℓ where
  returned : A → Outcome A
  raised : Raised → Outcome A
  blocked : Outcome A

-- How an iteration over the messages ends. `waiting` is a wait for the Core.
pub data Ending : Type 0 where
  stopped : Ending
  failed : Raised → Ending
  waiting : Ending

-- `recv` and the iteration, whose text the two sockets share, over their own `_next`.
module _ {W : Type 0} (next : W → Outcome (Option (Kind × Bytes)) × W) where
  unfoldable pub after_next :
      (W → Outcome (Option Message) × W)
      → Outcome (Option (Kind × Bytes)) × W
      → Outcome (Option Message) × W
  unfolding message_of
  after_next again (returned none, w) = (returned none, w)
  after_next again (returned (some (open_event, payload)), w) = again w
  after_next again (returned (some (kind, payload)), w) =
      (returned (some (message_of kind payload)), w)
  after_next again (raised e, w) = (raised e, w)
  after_next again (blocked, w) = (blocked, w)

  -- The fuel bounds the `open` events that it skips.
  unfoldable pub recv : ℕ → W → Outcome (Option Message) × W
  unfolding after_next
  recv zero w = (blocked, w)
  recv (suc fuel) w = after_next (recv fuel) (next w)

  unfoldable pub after_recv :
      (W → List Message × Ending) → Outcome (Option Message) × W → List Message × Ending
  after_recv more (returned none, w) = ([], stopped)
  after_recv more (returned (some message), w) =
      let (messages, ending) = more w in (message ∷ messages, ending)
  after_recv more (raised (websocket_closed code), w) = ([], stopped)
  after_recv more (raised e, w) = ([], failed e)
  after_recv more (blocked, w) = ([], waiting)

  -- `for message in socket`, and `async for`.
  unfoldable pub iterate : ℕ → ℕ → W → List Message × Ending
  unfolding after_recv recv
  iterate zero depth w = ([], waiting)
  iterate (suc fuel) depth w = after_recv (iterate fuel depth) (recv depth w)
