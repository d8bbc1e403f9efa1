-- ===== src/Sending/Retry.antt =====
-- `RetryStrategy` and the retry loop. Times are whole numbers of some unit; the draw of
-- `random.uniform(0, jitter)` before each sleep is an argument. The guards of `__init__` against
-- negative numbers have no counterpart.
pub mod Laws
use chrome_client.Base.{
  ℕ, zero, suc, ◌+◌, ◌-◌, ◌*◌, ◌^◌, Option, none, some, List, [], ◌∷◌, Bool, true, false, ◌&&◌,
  ◌||◌, ◌==◌, ltb, leb, contains, ℕ_eq, if◌then◌else◌,
}
use chrome_client.Base.Text.{Text, codes, text_eq}
use chrome_client.Async.State.{Failure, response_too_large}
use chrome_client.Sending.{Response, Outcome, got, too_large, failed}

pub record RetryStrategy : Type 0 where
  pub count : ℕ
  pub delay : ℕ
  pub jitter : ℕ
  pub exponential : Bool
  pub statuses : List ℕ

-- `codes or ()`
abbrev given : Option (List ℕ) → List ℕ
given none = []
given (some statuses) = statuses

-- `RetryStrategy(count, delay, jitter, backoff, codes)`; `none` is the `ValueError`.
unfoldable pub create : ℕ → ℕ → ℕ → Text → Option (List ℕ) → Option RetryStrategy
unfolding text_eq
create count delay jitter backoff statuses =
    if backoff == codes "linear" || backoff == codes "exponential"
    then some record {
      count = count;
      delay = delay;
      jitter = jitter;
      exponential = backoff == codes "exponential";
      statuses = given statuses;
    }
    else none

unfoldable pub sleep_for : RetryStrategy → ℕ → ℕ → ℕ
sleep_for s draw attempt =
    let delay = if s.exponential then s.delay * 2 ^ (attempt - 1) else s.delay * attempt in
    if ltb 0 s.jitter then delay + draw else delay

unfoldable pub should_retry_status : RetryStrategy → ℕ → Bool
unfolding ℕ_eq
should_retry_status s status = contains s.statuses status

pub data Verdict : Type 0 where
  answered : Response → Verdict
  raised : Failure → Verdict

-- One pass of the loop: it ends, or sleeps and tries again, closing the response if there is one.
pub data Pass : Type 0 where
  ends : Verdict → Pass
  again : Bool → Pass

unfoldable pub pass : RetryStrategy → ℕ → Outcome → Pass
pass s attempt (too_large limit) = ends (raised (response_too_large limit))
pass s attempt (failed e) = if ltb s.count attempt then ends (raised e) else again false
pass s attempt (got r) =
    if should_retry_status s r.answer.status && leb attempt s.count
    then again true
    else ends (answered r)

-- The run: what `send` ends with (`none` if the fuel is out), the number of calls, the sleeps, and the
-- attempts whose response was closed.
pub record Run : Type 0 where
  pub verdict : Option Verdict
  pub calls : ℕ
  pub slept : List ℕ
  pub closed : List ℕ

abbrev pub closing : Bool → ℕ → List ℕ → List ℕ
closing true attempt closed = attempt ∷ closed
closing false attempt closed = closed

unfoldable pub advance : Pass → ℕ → ℕ → Run → Run
advance (ends v) attempt pause rest = record {
  verdict = some v;
  calls = attempt;
  slept = [];
  closed = [];
}
advance (again closes) attempt pause rest = record rest {
  slept = pause ∷ rest.slept;
  closed = closing closes attempt rest.closed;
}

module _ (s : RetryStrategy) (world : ℕ → Outcome) (draws : ℕ → ℕ) where
  -- The loop from the attempt of that number on.
  unfoldable pub attempts : ℕ → ℕ → Run
  attempts zero attempt = record { verdict = none; calls = attempt - 1; slept = []; closed = [] }
  attempts (suc fuel) attempt =
      let rest = attempts fuel (attempt + 1) in
      advance (pass s attempt (world attempt)) attempt (sleep_for s (draws attempt) attempt) rest

  unfoldable pub send : Run
  send = attempts (s.count + 1) 1
