-- ===== src/WebSockets/Agreement.antt =====
-- The blocking and the asynchronous socket yield the same messages from the same events.
use chrome_client.Base.{
  ℕ, ◌-◌, ◌≤◌, ◌<◌, ◌≡◌, refl, sym, ap, ◌∙◌, Option, none, List, [], ◌∷◌, ◌++◌, Bool, true, false,
  length, arith,
}
use mathlib.Core.List.{head-eq_of_cons-eq, tail-eq_of_cons-eq}
use chrome_client.Async.State.{Bytes}
use chrome_client.WebSockets.{Kind, Event, Meaning, frame, ended, raises, meaning, Outcome, iterate}
use chrome_client.WebSockets.Receiving.{Socket, answer, idle, spoken, iterate-spoken}
use chrome_client.WebSockets.Blocking.{WebSocket}
use chrome_client.WebSockets.Blocking
use chrome_client.WebSockets.Asynchronous.{
  AsyncWebSocket, max_queued_events, max_queued_bytes, create, enqueue, enqueue_all,
}
use chrome_client.WebSockets.Asynchronous
use chrome_client.WebSockets.Asynchronous.Bounds.{size}
use chrome_client.WebSockets.Asynchronous.Order.{enqueue_all_fits}

-- The events of a blocking socket: those that the handshake left, then those of the Core.
abbrev available : WebSocket → List Event
available w = w.pending ++ w.script

blocking_answer : (m : Meaning) (w : WebSocket) → (Blocking.interpret m w).0 ≡ answer m
unfolding Blocking.interpret answer
blocking_answer (frame kind payload) w = refl
blocking_answer ended w = refl
blocking_answer (raises e) w = refl

-- What `_next` does to the events that are there.
record Takes (w : WebSocket) (e : Event) (es : List Event) : Type 0 where
  rest : WebSocket
  next : Blocking.next w ≡ Blocking.interpret (meaning e) rest
  events : available rest ≡ es
  over : rest.over ≡ w.over

blocking-Takes : (w : WebSocket) (e : Event) (es : List Event) → available w ≡ e ∷ es → Takes w e es
unfolding Blocking.next Blocking.next_of Blocking.next_reported
blocking-Takes w e es h = at w.pending refl
  where
    at : (p : List Event) → w.pending ≡ p → Takes w e es
    at [] q =
        let script : w.script ≡ e ∷ es = ap (λ x. x ++ w.script) (sym q) ∙ h in
        record {
          rest = record w { script = es };
          next = ap (λ p. Blocking.next_of p w) q ∙ ap (λ s. Blocking.next_reported s w) script;
          events = ap (λ x. x ++ es) q;
          over = refl;
        }
    at (x ∷ p) q =
        let both : x ∷ (p ++ w.script) ≡ e ∷ es = ap (λ y. y ++ w.script) (sym q) ∙ h in
        record {
          rest = record w { pending = p };
          next =
              ap (λ y. Blocking.next_of y w) q
              ∙ ap (λ y. Blocking.interpret (meaning y) (record w { pending = p }))
                  (head-eq_of_cons-eq both);
          events = tail-eq_of_cons-eq both;
          over = refl;
        }

both_nil : (xs ys : List Event) → xs ++ ys ≡ [] → (xs ≡ []) × (ys ≡ [])
both_nil [] ys h = (refl, h)
both_nil (x ∷ xs) ys h = absurd (cc h)

blocking_idle : (w : WebSocket) → available w ≡ [] → (Blocking.next w).0 ≡ idle w.over
unfolding Blocking.next Blocking.next_of Blocking.next_reported idle
blocking_idle w h =
    let none_left = both_nil w.pending w.script h in
    ap (λ p. (Blocking.next_of p w).0) none_left.0
    ∙ ap (λ s. (Blocking.next_reported s w).0) none_left.1
    ∙ ground arith

blocking_socket : Socket WebSocket
unfolding Blocking.interpret
blocking_socket = record {
  next = Blocking.next;
  events = available;
  over = λ w. w.over;
  IsReady = λ _. Unit;
  next_answer = λ w e es _ h.
      let t = blocking-Takes w e es h in
      ap (λ (x : Outcome (Option (Kind × Bytes)) × WebSocket). x.0) t.next
      ∙ blocking_answer (meaning e) t.rest;
  next_rest = λ w e es kind payload _ h m.
      let t = blocking-Takes w e es h in
      let after : (Blocking.next w).1 ≡ t.rest =
        ap (λ (x : Outcome (Option (Kind × Bytes)) × WebSocket). x.1)
          (t.next ∙ ap (λ y. Blocking.interpret y t.rest) m) in
      (ap available after ∙ t.events, ap (λ (x : WebSocket). x.over) after ∙ t.over, tt);
  next_idle = λ w _ h. blocking_idle w h;
}

async_ready :
    (s : AsyncWebSocket)
    → s.recv_active ≡ false
    → Asynchronous.next s ≡ Asynchronous.next_of s.events (record s { recv_active = true })
unfolding Asynchronous.next Asynchronous.next_pass
async_ready s h = simp h refl

async_answer : (m : Meaning) (s : AsyncWebSocket) → (Asynchronous.interpret m s).0 ≡ answer m
unfolding Asynchronous.interpret answer
async_answer (frame kind payload) s = refl
async_answer ended s = refl
async_answer (raises e) s = refl

abbrev popped : AsyncWebSocket → Event → List Event → AsyncWebSocket
popped s e es = record s {
  events = es;
  queued_bytes = s.queued_bytes - length e.payload;
  recv_active = false;
}

async_takes :
    (s : AsyncWebSocket) (e : Event) (es : List Event)
    → s.recv_active ≡ false
    → s.events ≡ e ∷ es
    → Asynchronous.next s ≡ Asynchronous.interpret (meaning e) (popped s e es)
unfolding Asynchronous.next_of
async_takes s e es h f =
    async_ready s h ∙ ap (λ x. Asynchronous.next_of x (record s { recv_active = true })) f

async_idle :
    (s : AsyncWebSocket)
    → s.recv_active ≡ false
    → s.events ≡ []
    → (Asynchronous.next s).0 ≡ idle s.closed
unfolding Asynchronous.next_of idle
async_idle s h f =
    ap (λ (x : Outcome (Option (Kind × Bytes)) × AsyncWebSocket). x.0)
      (async_ready s h ∙ ap (λ x. Asynchronous.next_of x (record s { recv_active = true })) f)
    ∙ ground arith

async_socket : Socket AsyncWebSocket
unfolding Asynchronous.interpret
async_socket = record {
  next = Asynchronous.next;
  events = λ s. s.events;
  over = λ s. s.closed;
  IsReady = λ s. s.recv_active ≡ false;
  next_answer = λ s e es r h.
      ap (λ (x : Outcome (Option (Kind × Bytes)) × AsyncWebSocket). x.0) (async_takes s e es r h)
      ∙ async_answer (meaning e) (popped s e es);
  next_rest = λ s e es kind payload r h m.
      let after : (Asynchronous.next s).1 ≡ popped s e es =
        ap (λ (x : Outcome (Option (Kind × Bytes)) × AsyncWebSocket). x.1)
          (async_takes s e es r h ∙ ap (λ y. Asynchronous.interpret y (popped s e es)) m) in
      (
        ap (λ (x : AsyncWebSocket). x.events) after,
        ap (λ (x : AsyncWebSocket). x.closed) after,
        ap (λ (x : AsyncWebSocket). x.recv_active) after,
      );
  next_idle = λ s r h. async_idle s r h;
}

-- A blocking socket whose Core has these events to report, and then nothing yet.
abbrev pub reporting : List Event → WebSocket
reporting es = record {
  opened = true;
  closed = false;
  pending = [];
  script = es;
  over = false;
  cancelled = false;
  close_sent = none;
}

enqueue_recv : (e : Event) (s : AsyncWebSocket) → (enqueue e s).recv_active ≡ s.recv_active
unfolding enqueue
enqueue_recv e s = ground arith

recv_kept : (es : List Event) (s : AsyncWebSocket) → (enqueue_all es s).recv_active ≡ s.recv_active
unfolding enqueue_all
recv_kept [] s = refl
recv_kept (e ∷ es) s = recv_kept es (enqueue e s) ∙ enqueue_recv e s

-- Iterating over either socket yields the messages of the events in their order and ends as the first
-- of them that ends it says, or waits: the blocking one that the Core reports them to, and the
-- asynchronous one that queued them, if they fit into its queue.
pub iterate-Agree :
    (es : List Event) (fuel : ℕ)
    → length es ≤ max_queued_events
    → size es ≤ max_queued_bytes
    → length es < fuel
    → (iterate Blocking.next fuel fuel (reporting es) ≡ spoken false es)
      × (iterate Asynchronous.next fuel fuel (enqueue_all es create) ≡ spoken false es)
unfolding blocking_socket async_socket
iterate-Agree es fuel n b h =
    let (queued, open_still) = enqueue_all_fits es create refl (omega arith) (omega arith) in
    (
      iterate-spoken blocking_socket es fuel fuel (reporting es) tt refl h h,
      iterate-spoken async_socket es fuel fuel (enqueue_all es create) (recv_kept es create) queued
            h h
          ∙ ap (λ (o : Bool). spoken o es) open_still,
    )
