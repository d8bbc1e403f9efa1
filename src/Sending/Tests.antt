-- ===== src/Sending/Tests.antt =====
-- Runs of the two loops, and the theorems at concrete inputs.
use chrome_client.Base.{
  ℕ, ◌≡◌, refl, Option, none, some, [], ◌∷◌, true, false, ℕ_eq, ◌==◌, if◌then◌else◌,
}
use chrome_client.Base.Dict.{lookup, insert, erase}
use chrome_client.Base.Text.{Text, codes, text_eq, lower, join}
use chrome_client.Structures.Headers.{
  Headers, Source, mapping, create, ingest, get_item, get_list, del_item, add_all, set_all,
  set_item, add, refresh, summary, multi_items, values_of,
}
use chrome_client.Structures.Headers
use chrome_client.Structures.Headers.Consistency.{create-IsConsistent}
use chrome_client.Async.State.{native_error}
use chrome_client.Sending.{Answer, Response, Outcome, got, failed, is_redirect}
use chrome_client.Sending.Retry
use chrome_client.Sending.Retry.{
  RetryStrategy, sleep_for, should_retry_status, answered, pass, advance, attempts, send,
}
use chrome_client.Sending.Retry.Laws.{Settled, send-Settled}
use chrome_client.Sending.Redirects.{
  PreparedRequest, rebuild_method, rebuild_auth, redirected, next_hop, hop_to, follow, resume, hop,
  too_many_redirects,
}
use chrome_client.Sending.Redirects.Hop.{IsHop, next_hop-IsHop}
use chrome_client.Sending.Redirects.Bound.{Bounded, follow-Bounded}

abbrev latin : Text
latin = codes "iso-8859-1"

abbrev plain : ℕ → Response
plain status = record {
  answer = record { status = status; url = codes "https://a/"; headers = Headers.empty latin };
  history = [];
}

abbrev strategy : RetryStrategy
strategy = record { count = 2; delay = 10; jitter = 5; exponential = true; statuses = 503 ∷ [] }

-- A failure, a busy server, then an answer.
abbrev flaky : ℕ → Outcome
flaky n =
    if n == 1 then failed (native_error []) else if n == 2 then got (plain 503) else got (plain 200)

run : send strategy flaky (λ n. n) ≡ record {
  verdict = some (answered (plain 200));
  calls = 3;
  slept = 11 ∷ 22 ∷ [];
  closed = 2 ∷ [];
}
unfolding send attempts pass advance sleep_for should_retry_status ℕ_eq
run = refl

-- The last attempt is given as it is.
busy : (send strategy (λ n. got (plain 503)) (λ n. 0)).verdict ≡ some (answered (plain 503))
unfolding send attempts pass advance sleep_for should_retry_status ℕ_eq
busy = refl

unknown_backoff : Retry.create 1 0 0 (codes "cubic") none ≡ none
unfolding Retry.create text_eq
unknown_backoff = refl

send-Settled_example : Settled strategy flaky (λ n. n) 1 (send strategy flaky (λ n. n))
send-Settled_example = send-Settled strategy flaky (λ n. n)

-- Hosts, and the joining of URLs, as far as these runs need them.
abbrev host : Text → Option Text
host url = some url

abbrev join_urls : Text → Text → Option Text
join_urls base location = some (location)

abbrev moved : Answer
moved = record {
  status = 302;
  url = codes "https://a/";
  headers = create (mapping ((codes "Location", codes "https://b/") ∷ [])) latin;
}

abbrev login : PreparedRequest
login = record {
  method = codes "POST";
  url = codes "https://a/";
  headers =
      create
        (mapping (
          (codes "Authorization", codes "secret")
          ∷ (codes "Cookie", codes "k=v")
          ∷ (codes "Content-Type", codes "text/plain")
          ∷ (codes "Accept", codes "any")
          ∷ []))
        latin;
  body = some (codes "hello");
  stream_body = false;
}

abbrev hop_of_login : PreparedRequest
hop_of_login = redirected host moved login (codes "https://b/")

hop_headers : multi_items hop_of_login.headers ≡ (codes "Accept", codes "any") ∷ []
unfolding redirected rebuild_auth multi_items Headers.copy create ingest add_all set_all set_item
    add refresh summary values_of del_item lookup insert erase lower text_eq
hop_headers = refl

post_becomes_get : rebuild_method (codes "POST") 302 ≡ codes "GET"
unfolding rebuild_method text_eq
post_becomes_get = refl

finds_location : next_hop host join_urls moved login ≡ hop_to hop_of_login
unfolding next_hop get_item create ingest set_all set_item refresh summary values_of lookup insert
    lower text_eq join
finds_location = refl

next_hop-IsHop_example :
    (location : Text) × (get_item moved.headers (codes "location") ≡ some location)
    × IsHop host join_urls moved login hop_of_login location
next_hop-IsHop_example =
    next_hop-IsHop host join_urls moved login hop_of_login (create-IsConsistent _ latin)
      finds_location

-- A server that redirects for ever.
follow-Bounded_example : Bounded 2 (
    follow host join_urls
      (λ n q. got record { answer = moved; history = [] })
      2
      []
      login
      record { answer = moved; history = [] })
follow-Bounded_example =
    follow-Bounded host join_urls (λ n q. got record { answer = moved; history = [] }) 2 login
      record { answer = moved; history = [] }

for_ever :
    follow host join_urls
      (λ n q. got record { answer = moved; history = [] })
      2
      []
      login
      record { answer = moved; history = [] }
    ≡ too_many_redirects record { answer = moved; history = [] } (moved ∷ moved ∷ [])
unfolding follow resume hop next_hop is_redirect get_item create ingest set_all set_item refresh
    summary values_of lookup insert lower text_eq ℕ_eq
for_ever = refl
