-- ===== src/WebSockets/Tests.antt =====
-- Sockets at concrete events.
use chrome_client.Base.{◌≡◌, refl, none, some, List, [], ◌∷◌, false, arith}
use chrome_client.Base.Text.{codes}
use chrome_client.Async.State.{Bytes}
use chrome_client.WebSockets.{
  Kind, open_event, text_event, binary_event, closed_event, Event, text_message, binary_message,
  iterate, stopped, meaning,
}
use chrome_client.WebSockets.Receiving.{spoken, speak}
use chrome_client.WebSockets.Blocking
use chrome_client.WebSockets.Asynchronous.{
  AsyncWebSocket, create, enqueue_all, await_open, batch, poll_failed,
}
use chrome_client.WebSockets.Asynchronous
use chrome_client.WebSockets.Asynchronous.Bounds.{
  Bounded, Op, drain_op, next_op, await_op, close_op, steps, steps-Bounded,
}
use chrome_client.WebSockets.Asynchronous.Handshake.{frames, await_open-frames}
use chrome_client.WebSockets.Agreement.{reporting, iterate-Agree}

abbrev event : Kind → Bytes → Event
event kind payload = record { kind = kind; payload = payload; code = none; error = none }

abbrev talk : List Event
talk =
    event text_event (1 ∷ [])
    ∷ event open_event []
    ∷ event binary_event (2 ∷ 3 ∷ [])
    ∷ record { kind = closed_event; payload = []; code = some 1000; error = some [] }
    ∷ []

heard : spoken false talk ≡ (text_message (1 ∷ []) ∷ binary_message (2 ∷ 3 ∷ []) ∷ [], stopped)
unfolding spoken speak meaning
heard = refl

iterate-Agree_example :
    (iterate Blocking.next 9 9 (reporting talk) ≡ spoken false talk)
    × (iterate Asynchronous.next 9 9 (enqueue_all talk create) ≡ spoken false talk)
iterate-Agree_example = iterate-Agree talk 9 (omega arith) (omega arith) (omega arith)

abbrev ops : List Op
ops =
    drain_op (batch talk)
    ∷ await_op
    ∷ next_op
    ∷ drain_op (poll_failed (codes "Network"))
    ∷ close_op 1000 []
    ∷ []

steps-Bounded_example : Bounded 1 (steps ops create)
steps-Bounded_example = steps-Bounded ops

abbrev early : AsyncWebSocket
early = record create { events = talk }

await_open-frames_example : frames (await_open early).1.events ≡ frames talk
await_open-frames_example = await_open-frames early
