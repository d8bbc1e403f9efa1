-- ===== src/Sending.antt =====
-- `Session.send` and `AsyncSession.send` of `sessions.py`: retries, and redirects that Python follows.
-- One call of `_send_once` is an argument: what it answers on each call. `AsyncSession` has the same
-- two loops, with awaits in between.
pub mod Retry
pub mod Redirects
pub mod Cookies
pub mod Options
mod Tests
mod CookieTests
mod OptionTests
use chrome_client.Base.{ℕ, List, Bool, ◌&&◌, contains, ℕ_eq, ◌∷◌, []}
use chrome_client.Base.Dict.{has}
use chrome_client.Base.Text.{Text, codes, text_eq}
use chrome_client.Structures.Headers.{Headers}
use chrome_client.Async.State.{Failure}

-- A response without its history.
pub record Answer : Type 0 where
  pub status : ℕ
  pub url : Text
  pub headers : Headers

pub record Response : Type 0 where
  pub answer : Answer
  pub history : List Answer

-- What `_send_once` does: it returns, raises `ResponseTooLarge`, or any other `RequestException`.
pub data Outcome : Type 0 where
  got : Response → Outcome
  too_large : ℕ → Outcome
  failed : Failure → Outcome

-- `Response.is_redirect`
unfoldable pub is_redirect : Answer → Bool
unfolding text_eq ℕ_eq
is_redirect a =
    has (codes "location") a.headers.store && contains (301 ∷ 302 ∷ 303 ∷ 307 ∷ 308 ∷ []) a.status
