-- ===== src/WebSockets/Asynchronous/Handshake.antt =====
-- The handshake loses no frame: what it takes from the queue is the event that it is about.
use chrome_client.Base.{
  ◌≡◌, refl, ap, ◌∙◌, List, [], ◌∷◌, ◌++◌, Bool, true, false, if◌then◌else◌, arith, append_assoc,
  Bool-cases, inl, inr,
}
use chrome_client.WebSockets.{
  Kind, open_event, text_event, binary_event, error_event, closing_event, closed_event, Event,
}
use chrome_client.WebSockets.Blocking.{WebSocket, await_events}
use chrome_client.WebSockets.Blocking
use chrome_client.WebSockets.Asynchronous.{AsyncWebSocket, await_of, await_open}

unfoldable pub is_frame : Kind → Bool
is_frame text_event = true
is_frame binary_event = true
is_frame kind = false

-- The frames among events, in their order.
abbrev pub frames : List Event → List Event
frames [] = []
frames (e ∷ es) = let rest = frames es in if is_frame e.kind then e ∷ rest else rest

await_of-frames :
    (es : List Event) (s : AsyncWebSocket)
    → s.events ≡ es
    → frames (await_of es s).1.events ≡ frames s.events
unfolding await_of is_frame
await_of-frames [] s h = ground arith
await_of-frames (e ∷ es) s h = ground (arith, h, ap frames h)

-- The handshake of the asynchronous socket keeps the queued frames and their order, however a pass of
-- it ends: a frame that arrives before the handshake's end is not lost.
pub await_open-frames : (s : AsyncWebSocket) → frames (await_open s).1.events ≡ frames s.events
unfolding await_open
await_open-frames s = elim (Bool-cases s.opened) [
  | inl e ↦ simp e refl
  | inr e ↦ simp e (await_of-frames s.events s refl)
]

frames-append : (xs ys : List Event) → frames (xs ++ ys) ≡ frames xs ++ frames ys
frames-append [] ys = refl
frames-append (x ∷ xs) ys = ground (arith, frames-append xs ys)

-- The frames that a blocking socket has, queued and to come.
abbrev pub held : WebSocket → List Event
held w = frames (w.pending ++ w.script)

skip_event :
    (e : Event) (es : List Event) (pending : List Event)
    → is_frame e.kind ≡ false
    → frames (pending ++ es) ≡ frames (pending ++ e ∷ es)
skip_event e es pending h = rw (frames-append, frames-append) (ground (arith, h))

keep_event :
    (e : Event) (es : List Event) (w : WebSocket)
    → held (await_events es (record w { pending = w.pending ++ e ∷ [] })).1
      ≡ frames ((w.pending ++ e ∷ []) ++ es)
    → held (await_events es (record w { pending = w.pending ++ e ∷ [] })).1
      ≡ frames (w.pending ++ e ∷ es)
keep_event e es w h = h ∙ ap frames (append_assoc w.pending (e ∷ []) es)

await_event :
    (e : Event) (es : List Event) (w : WebSocket) (k : Kind)
    → e.kind ≡ k
    → held (await_events es (record w { pending = w.pending ++ e ∷ [] })).1
      ≡ frames (w.pending ++ e ∷ es)
    → held (await_events (e ∷ es) w).1 ≡ frames (w.pending ++ e ∷ es)
unfolding await_events is_frame
await_event e es w text_event h kept = simp h kept
await_event e es w binary_event h kept = simp h kept
await_event e es w open_event h kept = simp h (skip_event e es w.pending (simp h refl))
await_event e es w error_event h kept = simp h (skip_event e es w.pending (simp h refl))
await_event e es w closing_event h kept = simp h (skip_event e es w.pending (simp h refl))
await_event e es w closed_event h kept = simp h (skip_event e es w.pending (simp h refl))

await_events-frames :
    (es : List Event) (w : WebSocket) → held (await_events es w).1 ≡ frames (w.pending ++ es)
await_events-frames [] w = unfold await_events in ground arith
await_events-frames (e ∷ es) w =
    await_event e es w e.kind refl
      (keep_event e es w (await_events-frames es (record w { pending = w.pending ++ e ∷ [] })))

-- The handshake of the blocking socket keeps every frame that the Core reports before it or after it,
-- in their order, however it ends.
pub await_open-held : (w : WebSocket) → held (Blocking.await_open w).1 ≡ held w
unfolding Blocking.await_open
await_open-held w = elim (Bool-cases w.opened) [
  | inl e ↦ simp e refl
  | inr e ↦ simp e (await_events-frames w.script w)
]
