-- ===== src/WebSockets/Receiving.antt =====
-- What an iteration over a socket yields, from the events that it has: the same for each socket whose
-- `_next` takes them in order.
use chrome_client.Base.{
  ℕ, zero, suc, ◌<◌, ◌≡◌, refl, sym, ap, ◌∙◌, Option, none, some, List, [], ◌∷◌, Bool, true, false,
  length, Option-cases, if◌then◌else◌, arith, inl, inr,
}
use chrome_client.Async.State.{Bytes}
use chrome_client.WebSockets.{
  Kind, open_event, text_event, binary_event, error_event, closing_event, closed_event, Event,
  Message, websocket_error, websocket_closed, concurrent_recv, Meaning, frame, ended, raises,
  meaning, message_of, Outcome, returned, raised, blocked, Ending, stopped, failed, waiting,
  after_next, recv, after_recv, iterate,
}

-- What `_next` answers for an event.
unfoldable pub answer : Meaning → Outcome (Option (Kind × Bytes))
answer (frame kind payload) = returned (some (kind, payload))
answer ended = returned none
answer (raises e) = raised e

unfoldable pub idle : Bool → Outcome (Option (Kind × Bytes))
idle over = if over then returned none else blocked

-- A socket, with the events that it has to give.
pub record Socket (W : Type 0) : Type 1 where
  pub next : W → Outcome (Option (Kind × Bytes)) × W
  pub events : W → List Event
  pub over : W → Bool
  pub IsReady : W → Type 0
  pub next_answer :
      (w : W) (e : Event) (es : List Event)
      → IsReady w
      → events w ≡ e ∷ es
      → (next w).0 ≡ answer (meaning e)
  pub next_rest :
      (w : W) (e : Event) (es : List Event) (kind : Kind) (payload : Bytes)
      → IsReady w
      → events w ≡ e ∷ es
      → meaning e ≡ frame kind payload
      → (events (next w).1 ≡ es) × (over (next w).1 ≡ over w) × IsReady (next w).1
  pub next_idle : (w : W) → IsReady w → events w ≡ [] → (next w).0 ≡ idle (over w)

-- What the events say, one after the other.
unfoldable pub speak : Meaning → List Message × Ending → List Message × Ending
unfolding message_of
speak (frame open_event payload) rest = rest
speak (frame kind payload) (messages, ending) = (message_of kind payload ∷ messages, ending)
speak ended rest = ([], stopped)
speak (raises (websocket_closed code)) rest = ([], stopped)
speak (raises e) rest = ([], failed e)

unfoldable pub spoken : Bool → List Event → List Message × Ending
unfolding speak
spoken over [] = ([], if over then stopped else waiting)
spoken over (e ∷ es) = speak (meaning e) (spoken over es)

-- What `recv` makes of an event: it skips it, or comes to something.
hear : Meaning → Option (Outcome (Option Message))
unfolding message_of
hear (frame open_event payload) = none
hear (frame kind payload) = some (returned (some (message_of kind payload)))
hear ended = some (returned none)
hear (raises e) = some (raised e)

skipped : (m : Meaning) → hear m ≡ none → (payload : Bytes) × (m ≡ frame open_event payload)
unfolding hear
skipped (frame open_event payload) h = (payload, refl)
skipped (frame text_event payload) h = absurd (cc h)
skipped (frame binary_event payload) h = absurd (cc h)
skipped (frame error_event payload) h = absurd (cc h)
skipped (frame closing_event payload) h = absurd (cc h)
skipped (frame closed_event payload) h = absurd (cc h)
skipped ended h = absurd (cc h)
skipped (raises e) h = absurd (cc h)

spoke :
    (m : Meaning) (message : Message)
    → hear m ≡ some (returned (some message))
    → (kind : Kind) × (payload : Bytes) × (m ≡ frame kind payload)
unfolding hear
spoke (frame kind payload) message h = (kind, payload, refl)
spoke ended message h = absurd (cc h)
spoke (raises e) message h = absurd (cc h)

module _ {W : Type 0} where
  abbrev take_heard :
      (W → Outcome (Option Message) × W)
      → W
      → Option (Outcome (Option Message))
      → Outcome (Option Message) × W
  take_heard again w none = again w
  take_heard again w (some x) = (x, w)

  after_next-hear :
      (next : W → Outcome (Option (Kind × Bytes)) × W) (again : W → Outcome (Option Message) × W)
      (m : Meaning) (w : W)
      → after_next next again (answer m, w) ≡ take_heard again w (hear m)
  unfolding after_next answer hear
  after_next-hear next again (frame open_event payload) w = refl
  after_next-hear next again (frame text_event payload) w = refl
  after_next-hear next again (frame binary_event payload) w = refl
  after_next-hear next again (frame error_event payload) w = refl
  after_next-hear next again (frame closing_event payload) w = refl
  after_next-hear next again (frame closed_event payload) w = refl
  after_next-hear next again ended w = refl
  after_next-hear next again (raises e) w = refl

  -- A rest that is the same after every event.
  abbrev constant : List Message × Ending → W → List Message × Ending
  constant rest w = rest

  abbrev heard_rest :
      (W → Outcome (Option (Kind × Bytes)) × W)
      → List Message × Ending
      → W
      → Option (Outcome (Option Message))
      → List Message × Ending
  heard_rest next rest w none = rest
  heard_rest next rest w (some x) = after_recv next (constant rest) (x, w)

  speak_answer :
      (next : W → Outcome (Option (Kind × Bytes)) × W) (m : Meaning) (rest : List Message × Ending)
      (w : W)
      → heard_rest next rest w (hear m) ≡ speak m rest
  unfolding speak hear after_recv
  speak_answer next (frame open_event payload) rest w = refl
  speak_answer next (frame text_event payload) rest w = refl
  speak_answer next (frame binary_event payload) rest w = refl
  speak_answer next (frame error_event payload) rest w = refl
  speak_answer next (frame closing_event payload) rest w = refl
  speak_answer next (frame closed_event payload) rest w = refl
  speak_answer next ended rest w = refl
  speak_answer next (raises (websocket_error text)) rest w = refl
  speak_answer next (raises (websocket_closed code)) rest w = refl
  speak_answer next (raises concurrent_recv) rest w = refl

  -- Only a message is followed by more.
  after_recv_rest :
      (next : W → Outcome (Option (Kind × Bytes)) × W) (more : W → List Message × Ending)
      (x : Outcome (Option Message)) (rest : List Message × Ending) (w : W)
      → ((message : Message) → x ≡ returned (some message) → more w ≡ rest)
      → after_recv next more (x, w) ≡ after_recv next (constant rest) (x, w)
  unfolding after_recv
  after_recv_rest next more (returned none) rest w h = refl
  after_recv_rest next more (returned (some message)) rest w h =
      ap (λ (r : List Message × Ending). (message ∷ r.0, r.1)) (h message refl)
  after_recv_rest next more (raised (websocket_error text)) rest w h = refl
  after_recv_rest next more (raised (websocket_closed code)) rest w h = refl
  after_recv_rest next more (raised concurrent_recv) rest w h = refl
  after_recv_rest next more blocked rest w h = refl

module _ {W : Type 0} (socket : Socket W) where
  open socket use {next, events, over, IsReady, next_answer, next_rest, next_idle}

  next_is :
      (w : W) (x : Outcome (Option (Kind × Bytes))) → (next w).0 ≡ x → next w ≡ (x, (next w).1)
  next_is w x e = λ i. (e i, (next w).1)

  -- `recv` at the next event.
  recv_is :
      (depth : ℕ) (w : W) (x : Outcome (Option (Kind × Bytes)))
      → (next w).0 ≡ x
      → recv next (suc depth) w ≡ after_next next (recv next depth) (x, (next w).1)
  unfolding recv
  recv_is depth w x e = ap (after_next next (recv next depth)) (next_is w x e)

  hears :
      (depth : ℕ) (w : W) (e : Event) (es : List Event)
      → IsReady w
      → events w ≡ e ∷ es
      → recv next (suc depth) w ≡ take_heard (recv next depth) (next w).1 (hear (meaning e))
  hears depth w e es r f =
      recv_is depth w _ (next_answer w e es r f)
      ∙ after_next-hear next (recv next depth) (meaning e) (next w).1

  -- Depth enough for the events that are there.
  recv_depth :
      (es : List Event) (a b : ℕ) (w : W)
      → IsReady w
      → events w ≡ es
      → length es < a
      → length es < b
      → recv next a w ≡ recv next b w
  recv_depth es zero b w r e h k = absurd (omega arith)
  recv_depth es (suc a) zero w r e h k = absurd (omega arith)
  recv_depth [] (suc a) (suc b) w r e h k =
      recv_is a w _ (next_idle w r e) ∙ unheard (over w) ∙ sym (recv_is b w _ (next_idle w r e))
    where
      unheard :
          (o : Bool)
          → after_next next (recv next a) (idle o, (next w).1)
            ≡ after_next next (recv next b) (idle o, (next w).1)
      unheard true = unfold after_next idle in refl
      unheard false = unfold after_next idle in refl
  recv_depth (e ∷ es) (suc a) (suc b) w r f h k = elim (Option-cases (hear (meaning e))) [
    | inl n ↦
        let (payload, m) = skipped (meaning e) n in
        let after = next_rest w e es open_event payload r f m in
        hears a w e es r f
        ∙ ap (take_heard (recv next a) (next w).1) n
        ∙ recv_depth es a b (next w).1 after.2 after.0 (omega arith) (omega arith)
        ∙ sym (ap (take_heard (recv next b) (next w).1) n)
        ∙ sym (hears b w e es r f)
    | inr (x, n) ↦
        hears a w e es r f
        ∙ ap (take_heard (recv next a) (next w).1) n
        ∙ sym (ap (take_heard (recv next b) (next w).1) n)
        ∙ sym (hears b w e es r f)
  ]

  iterate_is :
      (fuel depth : ℕ) (w : W) (x : Outcome (Option Message) × W)
      → recv next depth w ≡ x
      → iterate next (suc fuel) depth w ≡ after_recv next (iterate next fuel depth) x
  unfolding iterate
  iterate_is fuel depth w x e = ap (after_recv next (iterate next fuel depth)) e

  iterate_idle :
      (fuel depth : ℕ) (w : W)
      → IsReady w
      → events w ≡ []
      → iterate next (suc fuel) (suc depth) w ≡ spoken (over w) []
  unfolding spoken
  iterate_idle fuel depth w r e =
      iterate_is fuel (suc depth) w _ (recv_is depth w _ (next_idle w r e)) ∙ idled (over w)
    where
      idled :
          (o : Bool)
          → after_recv next
              (iterate next fuel (suc depth))
              (after_next next (recv next depth) (idle o, (next w).1))
            ≡ ([], if o then stopped else waiting)
      idled true = unfold after_recv after_next idle in refl
      idled false = unfold after_recv after_next idle in refl

  -- An iteration yields what the events say, in their order, and ends as they say.
  pub iterate-spoken :
      (es : List Event) (fuel depth : ℕ) (w : W)
      → IsReady w
      → events w ≡ es
      → length es < fuel
      → length es < depth
      → iterate next fuel depth w ≡ spoken (over w) es
  iterate-spoken es zero depth w r f h k = absurd (omega arith)
  iterate-spoken es (suc fuel) zero w r f h k = absurd (omega arith)
  iterate-spoken [] (suc fuel) (suc depth) w r f h k = iterate_idle fuel depth w r f
  iterate-spoken (e ∷ es) (suc fuel) (suc depth) w r f h k =
      elim (Option-cases (hear (meaning e))) [
        | inl n ↦
            let (payload, m) = skipped (meaning e) n in
            let after = next_rest w e es open_event payload r f m in
            let same : recv next (suc depth) w ≡ recv next (suc depth) (next w).1 =
              hears depth w e es r f
              ∙ ap (take_heard (recv next depth) (next w).1) n
              ∙ recv_depth es depth (suc depth) (next w).1 after.2 after.0 (omega arith)
                  (omega arith) in
            iterate_is fuel (suc depth) w _ same
            ∙ sym (iterate_is fuel (suc depth) (next w).1 _ refl)
            ∙ iterate-spoken es (suc fuel) (suc depth) (next w).1 after.2 after.0 (omega arith)
                (omega arith)
            ∙ ap (λ (o : Bool). spoken o es) after.1
            ∙ ap (heard_rest next (spoken (over w) es) (next w).1) (sym n)
            ∙ speak_answer next (meaning e) (spoken (over w) es) (next w).1
            ∙ unfold spoken in refl
        | inr (x, n) ↦
            iterate_is fuel (suc depth) w _
              (hears depth w e es r f ∙ ap (take_heard (recv next depth) (next w).1) n)
            ∙ after_recv_rest next (iterate next fuel (suc depth)) x (spoken (over w) es) (next w).1
                (λ message p.
                  let (kind, payload, m) = spoke (meaning e) message (n ∙ ap some p) in
                  let after = next_rest w e es kind payload r f m in
                  iterate-spoken es fuel (suc depth) (next w).1 after.2 after.0 (omega arith)
                    (omega arith)
                  ∙ ap (λ (o : Bool). spoken o es) after.1)
            ∙ ap (heard_rest next (spoken (over w) es) (next w).1) (sym n)
            ∙ speak_answer next (meaning e) (spoken (over w) es) (next w).1
            ∙ unfold spoken in refl
      ]
