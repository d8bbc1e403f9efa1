-- ===== src/WebSockets/Asynchronous/Bounds.antt =====
-- The bounds of the queue, in every run of the socket's methods.
use chrome_client.Base.{
  ℕ, suc, ◌+◌, ◌≤◌, ◌≡◌, refl, ap, List, [], ◌∷◌, ◌++◌, true, false, ℕ_eq, length, length-append,
  arith, inl, inr, Bool-cases,
}
use mathlib.Core.Path.{subst}
use chrome_client.Base.Text.{Text}
use chrome_client.Async.State.{Bytes}
use chrome_client.WebSockets.{Event, Meaning, frame, ended, raises, meaning}
use chrome_client.WebSockets.Asynchronous.{
  AsyncWebSocket, max_queued_events, max_queued_bytes, create, own_error, overflow, enqueue,
  enqueue_all, Poll, batch, poll_failed, drain_open, drain, interpret, next_of, next_pass, next,
  await_of, await_open, close, terminate,
}

-- The bytes of the payloads.
abbrev pub size : List Event → ℕ
size [] = 0
size (e ∷ es) = length e.payload + size es

pub size-append : (xs ys : List Event) → size (xs ++ ys) ≡ size xs + size ys
size-append [] ys = omega arith
size-append (x ∷ xs) ys = omega (arith, size-append xs ys)

-- `n` counts the failed polls, whose errors are queued without a test.
pub record Bounded (n : ℕ) (s : AsyncWebSocket) : Type 0 where
  pub accounted : size s.events ≤ s.queued_bytes
  pub bytes : s.queued_bytes ≤ max_queued_bytes
  pub count : length s.events ≤ suc max_queued_events + n
  pub open_count : s.closed ≡ false → length s.events ≤ max_queued_events + n

enqueue-Bounded : (n : ℕ) (e : Event) (s : AsyncWebSocket) → Bounded n s → Bounded n (enqueue e s)
unfolding enqueue
enqueue-Bounded n e s b = ground (
  arith,
  length-append s.events (e ∷ []),
  length-append s.events (overflow ∷ []),
  size-append s.events (e ∷ []),
  size-append s.events (overflow ∷ []),
)

enqueue_all-Bounded :
    (n : ℕ) (es : List Event) (s : AsyncWebSocket) → Bounded n s → Bounded n (enqueue_all es s)
unfolding enqueue_all
enqueue_all-Bounded n [] s b = b
enqueue_all-Bounded n (e ∷ es) s b =
    enqueue_all-Bounded n es (enqueue e s) (enqueue-Bounded n e s b)

-- What a client and the Core may do.
pub data Op : Type 0 where
  drain_op : Poll → Op
  next_op : Op
  pass_op : Op
  await_op : Op
  close_op : ℕ → Bytes → Op
  terminate_op : Op

unfoldable pub step : Op → AsyncWebSocket → AsyncWebSocket
step (drain_op poll) s = (drain poll s).0
step next_op s = (next s).1
step pass_op s = (next_pass s).1
step await_op s = (await_open s).1
step (close_op code reason) s = close code reason s
step terminate_op s = terminate s

unfoldable pub steps : List Op → AsyncWebSocket → AsyncWebSocket
unfolding step
steps [] s = s
steps (op ∷ ops) s = steps ops (step op s)

abbrev pub failures : List Op → ℕ
failures [] = 0
failures (drain_op (poll_failed message) ∷ ops) = suc (failures ops)
failures (op ∷ ops) = failures ops

drain_open-Bounded :
    (n : ℕ) (es : List Event) (s : AsyncWebSocket) → Bounded n s → Bounded n (drain (batch es) s).0
unfolding drain drain_open
drain_open-Bounded n es s b = elim (Bool-cases s.closed) [
  | inl e ↦ simp e b
  | inr e ↦ simp e (enqueue_all-Bounded n es s b)
]

drain_failed-Bounded :
    (n : ℕ) (message : Text) (s : AsyncWebSocket)
    → Bounded n s
    → Bounded (suc n) (drain (poll_failed message) s).0
unfolding drain drain_open
drain_failed-Bounded n message s b = ground (
  arith,
  length-append s.events (own_error message ∷ []),
  size-append s.events (own_error message ∷ []),
)

interpret-Bounded :
    (n : ℕ) (m : Meaning) (s : AsyncWebSocket) → Bounded n s → Bounded n (interpret m s).1
unfolding interpret
interpret-Bounded n (frame kind payload) s b = b
interpret-Bounded n ended s b = ground arith
interpret-Bounded n (raises e) s b = ground arith

next_of-Bounded :
    (n : ℕ) (es : List Event) (s : AsyncWebSocket)
    → s.events ≡ es
    → Bounded n s
    → Bounded n (next_of es s).1
unfolding next_of
next_of-Bounded n [] s e b = ground arith
next_of-Bounded n (x ∷ es) s e b =
    interpret-Bounded n (meaning x) _ (ground (arith, ap length e, ap size e))

next_pass-Bounded : (n : ℕ) (s : AsyncWebSocket) → Bounded n s → Bounded n (next_pass s).1
unfolding next_pass
next_pass-Bounded n s b = next_of-Bounded n s.events s refl b

next-Bounded : (n : ℕ) (s : AsyncWebSocket) → Bounded n s → Bounded n (next s).1
unfolding next
next-Bounded n s b = elim (Bool-cases s.recv_active) [
  | inl e ↦ simp e b
  | inr e ↦ simp e (next_pass-Bounded n (record s { recv_active = true }) (ground arith))
]

await_of-Bounded :
    (n : ℕ) (es : List Event) (s : AsyncWebSocket)
    → s.events ≡ es
    → Bounded n s
    → Bounded n (await_of es s).1
unfolding await_of
await_of-Bounded n [] s e b = ground arith
await_of-Bounded n (x ∷ es) s e b = ground (arith, ap length e, ap size e)

await_open-Bounded : (n : ℕ) (s : AsyncWebSocket) → Bounded n s → Bounded n (await_open s).1
unfolding await_open
await_open-Bounded n s b = elim (Bool-cases s.opened) [
  | inl e ↦ simp e b
  | inr e ↦ simp e (await_of-Bounded n s.events s refl b)
]

Bounded-eq : {n m : ℕ} {s : AsyncWebSocket} → n ≡ m → Bounded n s → Bounded m s
Bounded-eq {s = s} e b = subst (λ (k : ℕ). Bounded k s) e b

step-Bounded :
    (n : ℕ) (op : Op) (s : AsyncWebSocket)
    → Bounded n s
    → Bounded (n + failures (op ∷ [])) (step op s)
unfolding step close terminate
step-Bounded n (drain_op (batch es)) s b = Bounded-eq (omega arith) (drain_open-Bounded n es s b)
step-Bounded n (drain_op (poll_failed message)) s b =
    Bounded-eq (omega arith) (drain_failed-Bounded n message s b)
step-Bounded n next_op s b = Bounded-eq (omega arith) (next-Bounded n s b)
step-Bounded n pass_op s b = Bounded-eq (omega arith) (next_pass-Bounded n s b)
step-Bounded n await_op s b = Bounded-eq (omega arith) (await_open-Bounded n s b)
step-Bounded n (close_op code reason) s b = ground arith
step-Bounded n terminate_op s b = ground arith

failures-cons : (op : Op) (ops : List Op) → failures (op ∷ ops) ≡ failures (op ∷ []) + failures ops
failures-cons (drain_op (batch es)) ops = omega arith
failures-cons (drain_op (poll_failed message)) ops = omega arith
failures-cons next_op ops = omega arith
failures-cons pass_op ops = omega arith
failures-cons await_op ops = omega arith
failures-cons (close_op code reason) ops = omega arith
failures-cons terminate_op ops = omega arith

run-Bounded :
    (n : ℕ) (ops : List Op) (s : AsyncWebSocket)
    → Bounded n s
    → Bounded (n + failures ops) (steps ops s)
unfolding steps
run-Bounded n [] s b = Bounded-eq (omega arith) b
run-Bounded n (op ∷ ops) s b =
    Bounded-eq (omega (arith, failures-cons op ops))
      (run-Bounded (n + failures (op ∷ [])) ops (step op s) (step-Bounded n op s b))

-- In every run of a new socket's methods, whatever the Core reports, the queue holds at most 4 MiB of
-- payload, all of it counted, and at most 1025 events and one more for each failed poll: 1024 while
-- the socket is open.
pub steps-Bounded : (ops : List Op) → Bounded (failures ops) (steps ops create)
steps-Bounded ops = Bounded-eq (omega arith) (run-Bounded 0 ops create start)
  where
    start : Bounded 0 create
    start = record {
      accounted = omega arith;
      bytes = omega arith;
      count = omega arith;
      open_count = λ _. omega arith;
    }
