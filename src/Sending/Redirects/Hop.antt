-- ===== src/Sending/Redirects/Hop.antt =====
-- The request of the next hop: which headers it keeps.
use mathlib.Core.Path.{subst}
use chrome_client.Base.{
  ℕ, ◌≡◌, refl, sym, ap, ◌∙◌, Option, none, some, [], Bool, false, not, ◌&&◌, ◌||◌, ◌==◌, option_eq,
  if◌then◌else◌, arith, inl, inr, Bool-cases,
}
use chrome_client.Base.Text.{Text, codes, lower, text_eq}
use chrome_client.Structures.Headers.{
  Headers, values_of, get_item, get_list, del_item, or_unchanged,
}
use chrome_client.Structures.Headers
use chrome_client.Structures.Headers.Consistency.{IsConsistent}
use chrome_client.Structures.Headers.Updates.{
  or_unchanged-IsConsistent, values_of-or_unchanged, get_item-copy, fields-copy,
}
use chrome_client.Sending.{Answer}
use chrome_client.Sending.Redirects.{
  PreparedRequest, stripped, rebuild_method, pop, without_body, drops_body, rebuild_auth,
  redirected, redirected_to, at_location, next_hop, NextHop, hop_to, missing_location, bad_location,
}

-- Headers that agree with others but for the keys that a test names, and are consistent.
record Without (h g : Headers) (gone : Text → Bool) : Type 0 where
  valid : IsConsistent g
  values : (k : Text) → values_of k g.fields ≡ (if gone k then [] else values_of k h.fields)

pop-Without :
    (h g : Headers) (gone : Text → Bool) (name : Text)
    → Without h g gone
    → Without h (pop g name) (λ k. lower name == k || gone k)
pop-Without h g gone name w = record {
  valid = or_unchanged-IsConsistent g name w.valid;
  values = λ k. ground (arith, values_of-or_unchanged g name w.valid k, w.values k);
}

abbrev of_body : Text → Bool
of_body k =
    lower (codes "Transfer-Encoding") == k
    || (lower (codes "Content-Type") == k || lower (codes "Content-Length") == k)

-- What the next hop must not carry: cookies always, the credentials where the host changes, and what
-- describes the body where there is none any more.
abbrev pub dropped : Bool → Bool → Text → Bool
dropped bodyless elsewhere k =
    lower (codes "Cookie") == k
    || ((elsewhere && lower (codes "Authorization") == k) || (bodyless && of_body k))

copy-Without : (h : Headers) → IsConsistent h → Without h (Headers.copy h) (λ k. false)
copy-Without h c = record {
  valid = (get_item-copy h [] c).0;
  values = λ k. ap (values_of k) (fields-copy h c);
}

body-Without :
    (h : Headers) (p : PreparedRequest)
    → Without h p.headers (λ k. false)
    → Without h (without_body p).headers (λ k. of_body k)
unfolding without_body
body-Without h p w =
    let a = pop-Without h p.headers (λ k. false) (codes "Content-Length") w in
    let b = pop-Without h _ _ (codes "Content-Type") a in
    let c = pop-Without h _ _ (codes "Transfer-Encoding") b in
    record { valid = c.valid; values = λ k. ground (arith, c.values k) }

module _ (h : Headers) (p : PreparedRequest) (status : ℕ) where
  stripped-Without :
      Without h p.headers (λ k. false)
      → Without h (stripped p status).headers (λ k. drops_body p.method status && of_body k)
  unfolding stripped
  stripped-Without w = elim (Bool-cases (drops_body p.method status)) [
    | inl drops ↦ simp drops (body-Without h p w)
    | inr keeps ↦ simp keeps w
  ]

  stripped_same :
      ((stripped p status).method ≡ p.method)
      × ((stripped p status).url ≡ p.url)
      × ((stripped p status).body ≡ (if drops_body p.method status then none else p.body))
  unfolding stripped
  stripped_same = elim (Bool-cases (drops_body p.method status)) [
    | inl drops ↦ simp drops (unfold without_body in (refl, refl, refl))
    | inr keeps ↦ simp keeps (refl, refl, refl)
  ]

module _ (hostname : Text → Option Text) where
  abbrev pub elsewhere : Answer → Text → Bool
  elsewhere a url = not (hostname a.url == hostname url)

  rebuild_auth-headers :
      (p : PreparedRequest) (a : Answer)
      → (rebuild_auth hostname p a).headers
        ≡ (if elsewhere a p.url then pop p.headers (codes "Authorization") else p.headers)
  unfolding rebuild_auth del_item
  rebuild_auth-headers p a = ground arith

  rebuild_auth_same :
      (p : PreparedRequest) (a : Answer)
      → ((rebuild_auth hostname p a).method ≡ p.method)
        × ((rebuild_auth hostname p a).url ≡ p.url)
        × ((rebuild_auth hostname p a).body ≡ p.body)
  unfolding rebuild_auth
  rebuild_auth_same p a = ground arith

  auth-Without :
      (h : Headers) (p : PreparedRequest) (a : Answer) (gone : Text → Bool)
      → Without h p.headers gone
      → Without h
          (rebuild_auth hostname p a).headers
          (λ k. (elsewhere a p.url && lower (codes "Authorization") == k) || gone k)
  auth-Without h p a gone w = rw (rebuild_auth-headers p a) (elim (Bool-cases (elsewhere a p.url)) [
    | inl other ↦ simp other (pop-Without h p.headers gone (codes "Authorization") w)
    | inr same ↦ simp same w
  ])

  module _ (target : Text → Text → Option Text) where
    -- The next hop's request, from its parts.
    pub record IsHop (a : Answer) (p q : PreparedRequest) (location : Text) : Type 0 where
      pub method : q.method ≡ rebuild_method p.method a.status
      pub url : target a.url location ≡ some q.url
      pub body : q.body ≡ (if drops_body q.method a.status then none else p.body)
      pub consistent : IsConsistent q.headers
      pub kept :
          (key : Text)
          → get_list q.headers key false ≡ (
              if dropped (drops_body q.method a.status) (elsewhere a q.url) (lower key)
              then []
              else get_list p.headers key false)

    redirected-IsHop :
        (a : Answer) (p : PreparedRequest) (location url : Text)
        → IsConsistent p.headers
        → target a.url location ≡ some url
        → IsHop a p (redirected hostname a p url) location
    unfolding redirected get_list
    redirected-IsHop a p location next c found =
        let start : PreparedRequest = record p {
          headers = Headers.copy p.headers;
          url = next;
          method = rebuild_method p.method a.status;
        } in
        let mid = stripped start a.status in
        let same = stripped_same p.headers start a.status in
        let end = rebuild_auth_same mid a in
        let kept = pop-Without p.headers _ _ (codes "Cookie") (
          auth-Without p.headers mid a _
            (stripped-Without p.headers start a.status (copy-Without p.headers c))) in
        let method : (rebuild_auth hostname mid a).method ≡ start.method = end.0 ∙ same.0 in
        let url : (rebuild_auth hostname mid a).url ≡ start.url = end.1 ∙ same.1 in
        record {
          method = method;
          url = found ∙ ap some (sym url);
          body = rw method (end.2 ∙ same.2);
          consistent = kept.valid;
          kept = λ key. rw (method, end.1) (kept.values (lower key));
        }

    request_or : PreparedRequest → NextHop → PreparedRequest
    request_or default (hop_to q) = q
    request_or default missing_location = default
    request_or default bad_location = default

    from_target :
        (a : Answer) (p q : PreparedRequest) (location : Text)
        → IsConsistent p.headers
        → (o : Option Text) → target a.url location ≡ o
        → redirected_to hostname a p o ≡ hop_to q
        → IsHop a p q location
    unfolding redirected_to request_or
    from_target a p q location c none found e = cc e
    from_target a p q location c (some url) found e =
        subst (λ r. IsHop a p r location) (ap (request_or p) e)
          (redirected-IsHop a p location url c found)

    from_location :
        (a : Answer) (p q : PreparedRequest)
        → IsConsistent p.headers
        → (o : Option Text) → get_item a.headers (codes "location") ≡ o
        → at_location hostname target a p o ≡ hop_to q
        → (location : Text) × (get_item a.headers (codes "location") ≡ some location)
          × IsHop a p q location
    unfolding at_location
    from_location a p q c none there e = cc e
    from_location a p q c (some location) there e =
        (location, there, from_target a p q location c (target a.url location) refl e)

    -- The request of the next hop, where there is one, for consistent headers: its method is the rebuilt one, its URL the
    -- target of the location, and its body is gone if that method is GET or HEAD or the status is 303.
    -- It has no cookies, no credentials if the host of the response and its own host differ, and
    -- nothing that describes a body that is gone; every other header keeps its values.
    pub next_hop-IsHop :
        (a : Answer) (p q : PreparedRequest)
        → IsConsistent p.headers
        → next_hop hostname target a p ≡ hop_to q
        → (location : Text) × (get_item a.headers (codes "location") ≡ some location)
          × IsHop a p q location
    unfolding next_hop
    next_hop-IsHop a p q c e = from_location a p q c (get_item a.headers (codes "location")) refl e
