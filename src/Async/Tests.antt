-- ===== src/Async/Tests.antt =====
-- Runs of the state and of the readers, and the theorems at concrete inputs.
use chrome_client.Base.{◌≡◌, ◌⊎◌, refl, none, some, List, [], ◌∷◌, true, false, arith, ℕ_eq}
use chrome_client.Async.State.{
  AsyncState, Bytes, Event, body, completed, response, redirect, batch, poll_failed, create, notify,
  expire, poll, rearm, handle_all, handle, fail, finish, resume, accept, on_body, on_done,
  on_redirect, response_too_large, native_error, resolved,
}
use chrome_client.Async.State.Soundness.{IsSound, Step, Reach, create-Reach-IsSound}
use chrome_client.Async.State.Delivery.{Delivered, notify-Delivered}
use chrome_client.Async.State.Progress.{Idle, Outside, Idle-Outside}
use chrome_client.Async.Reader.{
  raised, waiting, async_reader, anext, aclose, deliver, on_empty, collect, read_all, interrupt,
  chunk, end, broken, sync_reader, iterate, close,
}
use chrome_client.Async.Reader.Agreement.{events, script, read_all-eq-iterate}

abbrev ab : Bytes
ab = 97 ∷ 98 ∷ []

abbrev c : Bytes
c = 99 ∷ []

-- A stream of at most three bytes, with a deadline.
abbrev start : AsyncState
start = create true (some 3) true true

abbrev first_batch : List Event
first_batch = response 200 [] ∷ body ab ∷ body c ∷ body ab ∷ body c ∷ completed ∷ []

limited : (notify (batch first_batch) start).chunks ≡ ab ∷ c ∷ []
unfolding notify create poll rearm handle_all handle on_body fail accept on_done ℕ_eq
limited = refl

limited_failure : (notify (batch first_batch) start).failure ≡ some (response_too_large 3)
unfolding notify create poll rearm handle_all handle on_body fail accept on_done ℕ_eq
limited_failure = refl

-- A whole response resolves the future.
whole :
    (notify
      (batch (response 200 [] ∷ body ab ∷ completed ∷ []))
      (create false none true true)).future
    ≡ resolved
unfolding notify create poll rearm handle_all handle on_body fail accept on_done ℕ_eq
whole = refl

-- A hop that is not followed is the response, and cancels the request.
not_followed :
    (notify (batch (redirect 302 [] ab ∷ [])) (create false none false false)).status ≡ 302
unfolding notify create poll rearm handle_all handle on_redirect ℕ_eq
not_followed = refl

-- The first failure stays.
failed_twice : (expire (notify (poll_failed []) start)).failure ≡ some (native_error [])
unfolding expire notify create poll fail
failed_twice = refl

-- A chunk is read, and the reader waits for the next.
turns : (anext (anext (async_reader (notify (batch (body ab ∷ [])) start) (some 3))).1).0 ≡ waiting
unfolding anext deliver on_empty resume async_reader notify create poll rearm handle_all handle
    on_body accept ℕ_eq
turns = refl

-- A cancelled wait closes the state.
cancelled : (interrupt (async_reader start none)).state.cancelled ≡ true
unfolding interrupt aclose finish async_reader create
cancelled = refl

-- The synchronous reader over a limit.
over : (iterate (chunk ab ∷ chunk ab ∷ end ∷ []) (sync_reader (some 3))).0 ≡ ab ∷ []
unfolding iterate sync_reader close
over = refl

-- The Core's failure.
failing : (iterate (chunk ab ∷ broken c ∷ []) (sync_reader none)).1 ≡ raised (native_error c)
unfolding iterate sync_reader close
failing = refl

-- Reading it all, with turns to spare.
all_read :
    (read_all 9 (async_reader (notify (batch (body ab ∷ body c ∷ completed ∷ [])) start) none)).0
    ≡ ab ∷ c ∷ []
unfolding read_all collect anext deliver on_empty resume async_reader notify create poll rearm
    handle_all handle on_body accept on_done ℕ_eq aclose finish
all_read = refl

visits : Reach start (finish true (notify (batch first_batch) start))
visits = Reach.next (Reach.next Reach.here (Step.notified (batch first_batch))) (Step.finished true)

create-Reach-IsSound_example : IsSound (finish true (notify (batch first_batch) start))
create-Reach-IsSound_example = create-Reach-IsSound true (some 3) true true visits

notify-Delivered_example : Delivered start (ab ∷ c ∷ ab ∷ c ∷ []) (notify (batch first_batch) start)
unfolding create
notify-Delivered_example = notify-Delivered first_batch start refl (λ _. omega arith)

Idle-Outside_example :
    Idle (notify (batch first_batch) start) ⊎ ((notify (batch first_batch) start).wake ≡ true)
unfolding create
Idle-Outside_example =
    Idle-Outside record { streams = refl; empty = refl; running = refl; sound = refl; open' = refl }
      (Outside.notified (batch first_batch) Outside.quiet)

read_all-eq-iterate_example :
    let t = notify (batch (events (ab ∷ c ∷ ab ∷ []) none)) (create true (some 4) false true) in
    let a = read_all 4 (async_reader t (some 4)) in
    let b = iterate (script (ab ∷ c ∷ ab ∷ []) none) (sync_reader (some 4)) in
    (a.0 ≡ b.0) × (a.1 ≡ b.1) × (b.0 ≡ ab ∷ c ∷ [])
read_all-eq-iterate_example = read_all-eq-iterate (some 4) (ab ∷ c ∷ ab ∷ []) none false true
