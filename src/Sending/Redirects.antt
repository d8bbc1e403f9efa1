-- ===== src/Sending/Redirects.antt =====
-- Redirects that Python follows: the request of the next hop, and the loop. `hostname` stands for
-- `urlsplit(url).hostname`, and `target base location` for `requote_uri(urljoin(base, location))`, where
-- `none` is the `ValueError` of `requote_uri`. Of
-- `PreparedRequest` the fields that `copy` only carries over (cookies, hooks, order) are left out, and
-- reading the body of a response that is followed is taken not to raise.
pub mod Hop
pub mod Bound
use chrome_client.Base.{
  ℕ, zero, suc, Option, none, some, List, [], ◌∷◌, ◌++◌, Bool, true, false, not, ◌&&◌, ◌||◌, ◌==◌,
  length, option_eq, ℕ_eq, if◌then◌else◌,
}
use chrome_client.Base.Dict.{has}
use chrome_client.Base.Text.{Text, codes, lower, text_eq}
use chrome_client.Structures.Headers.{Headers, get_item, del_item, or_unchanged}
use chrome_client.Structures.Headers
use chrome_client.Async.State.{Failure}
use chrome_client.Sending.{Answer, Response, Outcome, got, too_large, failed, is_redirect}

pub record PreparedRequest : Type 0 where
  pub method : Text
  pub url : Text
  pub headers : Headers
  pub body : Option Text
  pub stream_body : Bool

-- `rebuild_method`; each test reads the method that the tests before it left.
unfoldable pub rebuild_method : Text → ℕ → Text
unfolding text_eq ℕ_eq
rebuild_method method status =
    let a = if status == 303 && not (method == codes "HEAD") then codes "GET" else method in
    let b = if status == 302 && not (a == codes "HEAD") then codes "GET" else a in
    if status == 301 && b == codes "POST" then codes "GET" else b

-- `headers.pop(name, None)`
abbrev pub pop : Headers → Text → Headers
pop h name = or_unchanged h (del_item h name)

unfoldable pub without_body : PreparedRequest → PreparedRequest
without_body q = record q {
  body = none;
  stream_body = false;
  headers =
      pop (pop (pop q.headers (codes "Content-Length")) (codes "Content-Type"))
        (codes "Transfer-Encoding");
}

unfoldable pub drops_body : Text → ℕ → Bool
unfolding text_eq ℕ_eq
drops_body method status = method == codes "GET" || method == codes "HEAD" || status == 303

-- What following ends with, and the responses that were followed.
pub data Ending : Type 0 where
  arrived : Response → List Answer → Ending
  too_many_redirects : Response → List Answer → Ending
  no_location : List Answer → Ending
  value_error : List Answer → Ending
  response_too_large : ℕ → List Answer → Ending
  raised : Failure → List Answer → Ending

unfoldable pub resume : Outcome → List Answer → (Response → Ending) → Ending
resume (got r) history go = go r
resume (too_large limit) history go = response_too_large limit history
resume (failed e) history go = raised e history

-- What `_next_hop` returns or raises: the `KeyError` of a response with no location, or the
-- `ValueError` of a location that cannot be requoted.
pub data NextHop : Type 0 where
  hop_to : PreparedRequest → NextHop
  missing_location : NextHop
  bad_location : NextHop

unfoldable pub hop : NextHop → List Answer → (PreparedRequest → Ending) → Ending
hop missing_location history go = no_location history
hop bad_location history go = value_error history
hop (hop_to q) history go = go q

-- A hop that is a GET or a HEAD, or follows a 303, has no body.
unfoldable pub stripped : PreparedRequest → ℕ → PreparedRequest
unfolding without_body drops_body
stripped q status = if drops_body q.method status then without_body q else q

module _ (hostname : Text → Option Text) where
  -- `rebuild_auth`
  unfoldable pub rebuild_auth : PreparedRequest → Answer → PreparedRequest
  unfolding option_eq text_eq
  rebuild_auth q a =
      if has (lower (codes "Authorization")) q.headers.store
        && not (hostname a.url == hostname q.url)
      then record q { headers = pop q.headers (codes "Authorization") }
      else q

  -- The request for a URL that was found.
  unfoldable pub redirected : Answer → PreparedRequest → Text → PreparedRequest
  unfolding rebuild_method stripped
  redirected a p url =
      let q : PreparedRequest = record p {
        headers = Headers.copy p.headers;
        url = url;
        method = rebuild_method p.method a.status;
      } in
      let s = rebuild_auth (stripped q a.status) a in
      record s { headers = pop s.headers (codes "Cookie") }

  unfoldable pub redirected_to : Answer → PreparedRequest → Option Text → NextHop
  redirected_to a p none = bad_location
  redirected_to a p (some url) = hop_to (redirected a p url)

  module _ (target : Text → Text → Option Text) where
    unfoldable pub at_location : Answer → PreparedRequest → Option Text → NextHop
    unfolding redirected_to
    at_location a p none = missing_location
    at_location a p (some location) = redirected_to a p (target a.url location)

    -- `_next_hop`
    unfoldable pub next_hop : Answer → PreparedRequest → NextHop
    unfolding at_location
    next_hop a p = at_location a p (get_item a.headers (codes "location"))

    module _ (world : ℕ → PreparedRequest → Outcome) where
      -- The loop of `_follow_in_python` with `left` hops to go, that is `limit - len(history)`; `world n`
      -- is what `_send_once` answers to hop n.
      unfoldable pub follow : ℕ → List Answer → PreparedRequest → Response → Ending
      unfolding resume hop
      follow zero history p r =
          if is_redirect r.answer then too_many_redirects r history else arrived r history
      follow (suc left') history p r =
          let go = λ (q : PreparedRequest).
            resume (world (length history) q) (history ++ r.answer ∷ [])
              (λ (next : Response). follow left' (history ++ r.answer ∷ []) q next) in
          if is_redirect r.answer
          then hop (next_hop r.answer p) (history ++ r.answer ∷ []) go
          else arrived r history

-- `response.history = history + list(response.history)`, where something was followed.
unfoldable pub with_history : List Answer → Response → Response
with_history [] r = r
with_history (a ∷ history) r = record r { history = (a ∷ history) ++ r.history }
