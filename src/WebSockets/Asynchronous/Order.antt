-- ===== src/WebSockets/Asynchronous/Order.antt =====
-- What the queue takes of a batch: a prefix of it, in its order.
use chrome_client.Base.{
  ℕ, ◌+◌, ◌≤◌, ◌<◌, ◌≡◌, refl, sym, ap, ◌∙◌, ◌⊎◌, inl, inr, List, [], ◌∷◌, ◌++◌, true, false,
  length, length-append, append_assoc, append-nil, arith, Bool-cases,
}
use chrome_client.WebSockets.{Event}
use chrome_client.WebSockets.Asynchronous.{
  AsyncWebSocket, max_queued_events, max_queued_bytes, overflow, is_full, enqueue, enqueue_all,
}
use chrome_client.WebSockets.Asynchronous.Bounds.{size, size-append}

-- There is room for one more event, beside `n` events and `b` bytes.
abbrev pub HasRoom : ℕ → ℕ → Event → Type 0
HasRoom n b e = (n < max_queued_events) × (b + length e.payload ≤ max_queued_bytes)

enqueue_room :
    (e : Event) (s : AsyncWebSocket)
    → s.closed ≡ false
    → is_full s e ≡ false
    → enqueue e s ≡ record s {
      events = s.events ++ e ∷ [];
      queued_bytes = s.queued_bytes + length e.payload;
      wake = true;
    }
unfolding enqueue
enqueue_room e s h n = simp (h, n) refl

enqueue_full :
    (e : Event) (s : AsyncWebSocket)
    → s.closed ≡ false
    → is_full s e ≡ true
    → enqueue e s ≡ record s {
      closed = true;
      cancelled = true;
      events = s.events ++ overflow ∷ [];
      wake = true;
    }
unfolding enqueue
enqueue_full e s h n = simp (h, n) refl

enqueue_closed : (es : List Event) (s : AsyncWebSocket) → s.closed ≡ true → enqueue_all es s ≡ s
unfolding enqueue_all enqueue
enqueue_closed [] s h = refl
enqueue_closed (e ∷ es) s h = simp h (enqueue_closed es s h)

-- Everything was queued, or the queue was full before an event, and closed the socket behind an
-- error.
abbrev pub Whole : AsyncWebSocket → List Event → List Event → AsyncWebSocket → Type 0
Whole s taken dropped t =
    (dropped ≡ [])
    × (t.closed ≡ false)
    × (t.events ≡ s.events ++ taken)
    × (t.queued_bytes ≡ s.queued_bytes + size taken)

abbrev pub Overflown : AsyncWebSocket → List Event → List Event → AsyncWebSocket → Type 0
Overflown s taken dropped t =
    (e : Event) × (rest : List Event) × (dropped ≡ e ∷ rest)
    × (¬ HasRoom (length s.events + length taken) (s.queued_bytes + size taken) e)
    × (t.closed ≡ true)
    × (t.cancelled ≡ true)
    × (t.events ≡ s.events ++ (taken ++ overflow ∷ []))

pub record Queued (s : AsyncWebSocket) (es : List Event) (t : AsyncWebSocket) : Type 0 where
  pub taken : List Event
  pub dropped : List Event
  pub batch : taken ++ dropped ≡ es
  pub outcome : Whole s taken dropped t ⊎ Overflown s taken dropped t

queue_more :
    (e : Event) (es : List Event) (s u t : AsyncWebSocket)
    → u.events ≡ s.events ++ e ∷ []
    → u.queued_bytes ≡ s.queued_bytes + length e.payload
    → Queued u es t
    → Queued s (e ∷ es) t
queue_more e es s u t f b q = record {
  taken = e ∷ q.taken;
  dropped = q.dropped;
  batch = ap (λ x. e ∷ x) q.batch;
  outcome = go q.outcome;
}
  where
    moved : (xs : List Event) → u.events ++ xs ≡ s.events ++ e ∷ xs
    moved xs = ap (λ x. x ++ xs) f ∙ append_assoc s.events (e ∷ []) xs

    go :
        Whole u q.taken q.dropped t ⊎ Overflown u q.taken q.dropped t
        → Whole s (e ∷ q.taken) q.dropped t ⊎ Overflown s (e ∷ q.taken) q.dropped t
    go (inl (d, c, v, n)) = inl (d, c, v ∙ moved q.taken, omega (arith, n, b))
    go (inr (x, rest, d, full, c, k, v)) = inr (
      x,
      rest,
      d,
      (λ (room, fits).
          full (omega (arith, ap length f, length-append s.events (e ∷ [])), omega (arith, b))),
      c,
      k,
      v ∙ moved (q.taken ++ overflow ∷ []),
    )

-- An open socket queues a batch in its order. Either all of it fits, or a first part of it does, and
-- the event behind that part has no room: 1024 events are queued, or its payload exceeds 4 MiB with
-- those queued. Then the socket is closed and cancelled, and an error stands behind what was queued.
pub enqueue_all-Queued :
    (es : List Event) (s : AsyncWebSocket) → s.closed ≡ false → Queued s es (enqueue_all es s)
unfolding enqueue_all
enqueue_all-Queued [] s h = record {
  taken = [];
  dropped = [];
  batch = refl;
  outcome = inl (refl, h, sym (append-nil s.events), omega arith);
}
enqueue_all-Queued (e ∷ es) s h = elim (Bool-cases (is_full s e)) [
  | inr n ↦
      let r = enqueue_room e s h n in
      queue_more e es s (enqueue e s) _ (ap (λ (t : AsyncWebSocket). t.events) r)
        (ap (λ (t : AsyncWebSocket). t.queued_bytes) r)
        (enqueue_all-Queued es (enqueue e s) (ap (λ (t : AsyncWebSocket). t.closed) r ∙ h))
  | inl n ↦
      let r = enqueue_full e s h n in
      let done : enqueue_all es (enqueue e s) ≡ enqueue e s =
        enqueue_closed es (enqueue e s) (ap (λ (t : AsyncWebSocket). t.closed) r) in
      record {
        taken = [];
        dropped = e ∷ es;
        batch = refl;
        outcome = inr (
          e,
          es,
          refl,
          (λ room. ground (arith, n)),
          ap (λ (t : AsyncWebSocket). t.closed) (done ∙ r),
          ap (λ (t : AsyncWebSocket). t.cancelled) (done ∙ r),
          ap (λ (t : AsyncWebSocket). t.events) (done ∙ r),
        );
      }
]

-- A batch that fits is queued whole.
pub enqueue_all_fits :
    (es : List Event) (s : AsyncWebSocket)
    → s.closed ≡ false
    → length s.events + length es ≤ max_queued_events
    → s.queued_bytes + size es ≤ max_queued_bytes
    → ((enqueue_all es s).events ≡ s.events ++ es) × ((enqueue_all es s).closed ≡ false)
enqueue_all_fits es s h n b =
    let q = enqueue_all-Queued es s h in fitted q.taken q.dropped q.batch q.outcome
  where
    t : AsyncWebSocket
    t = enqueue_all es s

    fitted :
        (taken dropped : List Event)
        → taken ++ dropped ≡ es
        → Whole s taken dropped t ⊎ Overflown s taken dropped t
        → (t.events ≡ s.events ++ es) × (t.closed ≡ false)
    fitted taken dropped e (inl (d, c, v, k)) =
        (v ∙ ap (λ x. s.events ++ x) (sym (append-nil taken) ∙ ap (λ x. taken ++ x) (sym d) ∙ e), c)
    fitted taken dropped e (inr (x, rest, d, full, c, k, v)) =
        let whole : taken ++ x ∷ rest ≡ es = ap (λ y. taken ++ y) (sym d) ∙ e in
        absurd (
          full (
            omega (arith, n, ap length whole, length-append taken (x ∷ rest)),
            omega (arith, b, ap size whole, size-append taken (x ∷ rest)),
          ))
