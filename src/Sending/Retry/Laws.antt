-- ===== src/Sending/Retry/Laws.antt =====
-- What `send` does with its attempts.
use chrome_client.Base.{
  ℕ, zero, suc, ◌+◌, ◌-◌, ◌≤◌, ◌<◌, ◌≡◌, ◌⊎◌, inl, inr, refl, ap, ◌∙◌, some, List, [], ◌∷◌, Bool,
  true, false, leb, arith, Bool-cases,
}
use native.Mathlib.Decide.{dec_lt}
use chrome_client.Async.State.{response_too_large}
use chrome_client.Sending.{Outcome, got, too_large, failed}
use chrome_client.Sending.Retry.{
  RetryStrategy, sleep_for, should_retry_status, Verdict, answered, raised, ends, again, pass, Run,
  closing, advance, attempts, send,
}

-- An outcome that is tried again while attempts are left.
abbrev pub retriable : RetryStrategy → Outcome → Bool
retriable s (too_large limit) = false
retriable s (failed e) = true
retriable s (got r) = should_retry_status s r.answer.status

abbrev pub verdict_of : Outcome → Verdict
verdict_of (too_large limit) = raised (response_too_large limit)
verdict_of (failed e) = raised e
verdict_of (got r) = answered r

-- The sleeps after so many attempts, from the attempt of that number on.
abbrev pub pauses : RetryStrategy → (ℕ → ℕ) → ℕ → ℕ → List ℕ
pauses s draws zero attempt = []
pauses s draws (suc n) attempt =
    sleep_for s (draws attempt) attempt ∷ pauses s draws n (attempt + 1)

abbrev pub closes : Outcome → Bool
closes (too_large limit) = false
closes (failed e) = false
closes (got r) = true

-- The attempts of that range that had a response.
abbrev pub closings : (ℕ → Outcome) → ℕ → ℕ → List ℕ
closings world zero attempt = []
closings world (suc n) attempt =
    closing (closes (world attempt)) attempt (closings world n (attempt + 1))

-- A run from the attempt of that number on, against the limit of attempts.
pub record Settled (s : RetryStrategy) (world : ℕ → Outcome) (draws : ℕ → ℕ) (first : ℕ) (run : Run)
    : Type 0 where
  pub lower : first ≤ run.calls
  pub upper : run.calls ≤ s.count + 1
  pub retried : (k : ℕ) → first ≤ k → k < run.calls → retriable s (world k) ≡ true
  pub final : (run.calls ≡ s.count + 1) ⊎ (retriable s (world run.calls) ≡ false)
  pub verdict : run.verdict ≡ some (verdict_of (world run.calls))
  pub slept : run.slept ≡ pauses s draws (run.calls - first) first
  pub closed : run.closed ≡ closings world (run.calls - first) first

pass_last :
    (s : RetryStrategy) (attempt : ℕ) (o : Outcome)
    → (attempt ≡ s.count + 1) ⊎ (retriable s o ≡ false)
    → pass s attempt o ≡ ends (verdict_of o)
unfolding pass
pass_last s attempt (too_large limit) h = refl
pass_last s attempt (failed e) h = ground arith
pass_last s attempt (got r) h = ground arith

pass_again :
    (s : RetryStrategy) (attempt : ℕ) (o : Outcome)
    → attempt ≤ s.count
    → retriable s o ≡ true
    → pass s attempt o ≡ again (closes o)
unfolding pass
pass_again s attempt (too_large limit) h r = cc
pass_again s attempt (failed e) h r = ground arith
pass_again s attempt (got r') h r = ground arith

module _ (s : RetryStrategy) (world : ℕ → Outcome) (draws : ℕ → ℕ) where
  last-Settled :
      (fuel attempt : ℕ)
      → attempt ≤ s.count + 1
      → (attempt ≡ s.count + 1) ⊎ (retriable s (world attempt) ≡ false)
      → Settled s world draws attempt (attempts s world draws (suc fuel) attempt)
  unfolding attempts advance
  last-Settled fuel attempt h final = rw (pass_last s attempt (world attempt) final) (
      let none_left : 0 ≡ attempt - attempt = omega arith in
      record {
        lower = omega arith;
        upper = h;
        retried = λ k a b. absurd (omega arith);
        final = final;
        verdict = refl;
        slept = ap (λ n. pauses s draws n attempt) none_left;
        closed = ap (λ n. closings world n attempt) none_left;
      })

  again-Settled :
      (fuel attempt : ℕ)
      → attempt ≤ s.count
      → retriable s (world attempt) ≡ true
      → Settled s world draws (attempt + 1) (attempts s world draws fuel (attempt + 1))
      → Settled s world draws attempt (attempts s world draws (suc fuel) attempt)
  unfolding attempts advance
  again-Settled fuel attempt h retry rest = rw (pass_again s attempt (world attempt) h retry) (
      let calls = (attempts s world draws fuel (attempt + 1)).calls in
      let one_more : suc (calls - (attempt + 1)) ≡ calls - attempt = omega (arith, rest.lower) in
      record {
        lower = omega (arith, rest.lower);
        upper = rest.upper;
        retried = λ k a b. elim (dec_lt attempt k) [
          | yes later ↦ rest.retried k (omega arith) b
          | no same ↦ let e : k ≡ attempt = omega arith in rw e retry
        ];
        final = rest.final;
        verdict = rest.verdict;
        slept =
            ap (λ xs. sleep_for s (draws attempt) attempt ∷ xs) rest.slept
            ∙ ap (λ n. pauses s draws n attempt) one_more;
        closed =
            ap (λ xs. closing (closes (world attempt)) attempt xs) rest.closed
            ∙ ap (λ n. closings world n attempt) one_more;
      })

  attempts-Settled :
      (fuel attempt : ℕ)
      → attempt + fuel ≡ s.count + 2
      → 0 < fuel
      → Settled s world draws attempt (attempts s world draws fuel attempt)
  attempts-Settled zero attempt h pos = absurd (omega arith)
  attempts-Settled (suc fuel) attempt h pos = elim (Bool-cases (retriable s (world attempt))) [
    | inr final ↦ last-Settled fuel attempt (omega arith) (inr final)
    | inl retry ↦ elim (Bool-cases (leb attempt s.count)) [
      | inr last ↦ last-Settled fuel attempt (omega arith) (inl (ground arith))
      | inl left' ↦
          again-Settled fuel attempt (ground arith) retry
            (attempts-Settled fuel (attempt + 1) (omega arith) (ground arith))
    ]
  ]

  -- `send` ends within `count + 1` attempts: every attempt before the last failed or had a status to
  -- retry, and the last did not, or was the last allowed. Its outcome is what `send` gives, an error
  -- included; before each further attempt `send` sleeps as the strategy says, and closes the response.
  pub send-Settled : Settled s world draws 1 (send s world draws)
  unfolding send
  send-Settled = attempts-Settled (s.count + 1) 1 (omega arith) (omega arith)
