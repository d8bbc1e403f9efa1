-- ===== src/Async/Reader/Complete.antt =====
-- Reading to the end: both readers yield the same chunks, and end alike.
use chrome_client.Base.{
  ℕ, suc, ◌+◌, ◌-◌, ◌≡◌, ◌<◌, refl, sym, ◌∙◌, Option, none, some, List, [], ◌∷◌, Bool, true, false,
  length, if◌then◌else◌, arith, inl, inr, Bool-cases, Option-cases, zero,
}
use chrome_client.Async.State.{
  AsyncState, Bytes, Failure, exceeds, limit_or_zero, response_too_large, resume, finish,
}
use native.Mathlib.Nat.{add-zero, add_assoc}
use chrome_client.Async.State.Soundness.{size}
use chrome_client.Async.State.Delivery.{fitting, exceeds-add}
use chrome_client.Async.Reader.{
  Turn, yielded, raised, stopped, AsyncReader, aclose, deliver, on_empty, anext, collect, read_all,
}

-- How reading ends: with the limit, else with the failure, else normally.
abbrev pub outcome : Option ℕ → ℕ → Option Failure → Turn
outcome l n failure =
    if exceeds l n
    then raised (response_too_large (limit_or_zero l))
    else elim failure [ none ↦ stopped | some e ↦ raised e ]

pub record Read (r : AsyncReader) (cs : List Bytes) (out : List Bytes × Turn × AsyncReader)
    : Type 0 where
  pub chunks : out.0 ≡ fitting r.limit r.total cs
  pub last : out.1 ≡ outcome r.limit (r.total + size cs) r.state.failure
  pub closed : out.2.closed ≡ true
  pub released : out.2.state.closed ≡ true

resume-failure : (s : AsyncState) → (resume s).failure ≡ s.failure
unfolding resume
resume-failure s = ground arith

resume_same :
    (s : AsyncState)
    → ((resume s).chunks ≡ s.chunks) × ((resume s).closed ≡ s.closed) × ((resume s).done ≡ s.done)
unfolding resume
resume_same s = ground arith

finish_closed : (cancel : Bool) (s : AsyncState) → (finish cancel s).closed ≡ true
unfolding finish
finish_closed cancel s = ground arith

aclose_lem :
    (cancel : Bool) (r : AsyncReader)
    → r.closed ≡ false
    → ((aclose cancel r).closed ≡ true) × ((aclose cancel r).state.closed ≡ true)
unfolding aclose
aclose_lem cancel r h = simp h (refl, finish_closed cancel r.state)

read_all_yield :
    (fuel : ℕ) (r next : AsyncReader) (c : Bytes)
    → anext r ≡ (yielded c, next)
    → read_all (suc fuel) r
      ≡ (c ∷ (read_all fuel next).0, (read_all fuel next).1, (read_all fuel next).2)
unfolding read_all collect
read_all_yield fuel r next c e = simp e refl

read_all_raise :
    (fuel : ℕ) (r next : AsyncReader) (e : Failure)
    → anext r ≡ (raised e, next)
    → read_all (suc fuel) r ≡ ([], raised e, next)
unfolding read_all collect
read_all_raise fuel r next e h = simp h refl

read_all_stop :
    (fuel : ℕ) (r next : AsyncReader)
    → anext r ≡ (stopped, next)
    → read_all (suc fuel) r ≡ ([], stopped, next)
unfolding read_all collect
read_all_stop fuel r next h = simp h refl

abbrev after_take : Bytes → List Bytes → AsyncReader → AsyncReader
after_take c cs r = record r {
  state = resume (record r.state { chunks = cs; buffered = r.state.buffered - length c });
  total = r.total + length c;
}

anext_over :
    (c : Bytes) (cs : List Bytes) (r : AsyncReader)
    → r.state.chunks ≡ c ∷ cs
    → exceeds r.limit (r.total + length c) ≡ true
    → anext r
      ≡ (raised (response_too_large (limit_or_zero r.limit)), aclose true (after_take c cs r))
unfolding anext deliver
anext_over c cs r e over = simp (e, over) refl

anext_fits :
    (c : Bytes) (cs : List Bytes) (r : AsyncReader)
    → r.state.chunks ≡ c ∷ cs
    → exceeds r.limit (r.total + length c) ≡ false
    → anext r ≡ (yielded c, after_take c cs r)
unfolding anext deliver
anext_fits c cs r e fits = simp (e, fits) refl

Read-nil :
    (fuel : ℕ) (r : AsyncReader)
    → r.state.chunks ≡ []
    → r.closed ≡ false
    → r.state.done ≡ true
    → exceeds r.limit r.total ≡ false
    → Read r [] (read_all (suc fuel) r)
unfolding anext on_empty
Read-nil fuel r e o d fits = elim (Option-cases r.state.failure) [
  | inl fine ↦
      let shut = aclose_lem false r o in
      let stops : anext r ≡ (stopped, aclose false r) = simp (e, fine, d) refl in
      rw (read_all_stop fuel r _ stops) record {
        chunks = refl;
        last = simp (add-zero, fits, fine) refl;
        closed = shut.0;
        released = shut.1;
      }
  | inr (f, failed) ↦
      let shut = aclose_lem false r o in
      let raises : anext r ≡ (raised f, aclose false r) = simp (e, failed) refl in
      rw (read_all_raise fuel r _ f raises) record {
        chunks = refl;
        last = simp (add-zero, fits, failed) refl;
        closed = shut.0;
        released = shut.1;
      }
]

pub read_all-Read :
    (fuel : ℕ) (cs : List Bytes) (r : AsyncReader)
    → length cs < fuel
    → r.state.chunks ≡ cs
    → r.closed ≡ false
    → r.state.done ≡ true
    → exceeds r.limit r.total ≡ false
    → Read r cs (read_all fuel r)
read_all-Read zero cs r f e o d fits = absurd (omega arith)
read_all-Read (suc fuel) [] r f e o d fits = Read-nil fuel r e o d fits
read_all-Read (suc fuel) (c ∷ cs) r f e o d fits =
    elim (Bool-cases (exceeds r.limit (r.total + length c))) [
      | inl over ↦
          let shut = aclose_lem true (after_take c cs r) o in
          rw (read_all_raise fuel r _ _ (anext_over c cs r e over)) record {
            chunks = simp over refl;
            last =
                simp
                  (
                    sym (add_assoc r.total (length c) (size cs)),
                    exceeds-add r.limit (r.total + length c) (size cs) over,
                  )
                  refl;
            closed = shut.0;
            released = shut.1;
          }
      | inr within ↦
          let next = after_take c cs r in
          let same =
            resume_same (record r.state { chunks = cs; buffered = r.state.buffered - length c }) in
          let ih = read_all-Read fuel cs next (omega arith) same.0 o (same.2 ∙ d) within in
          let failure =
            resume-failure
              (record r.state { chunks = cs; buffered = r.state.buffered - length c }) in
          rw (read_all_yield fuel r next c (anext_fits c cs r e within)) record {
            chunks = simp (within, ih.chunks) refl;
            last = simp (sym (add_assoc r.total (length c) (size cs))) (simp failure at ih.last);
            closed = ih.closed;
            released = ih.released;
          }
    ]
