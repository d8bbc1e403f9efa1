-- ===== src/Sending/Redirects/Bound.antt =====
-- The loop ends within the limit.
use chrome_client.Base.{
  ℕ, zero, suc, ◌+◌, ◌≤◌, ◌≡◌, ◌≢◌, refl, Option, none, List, [], ◌∷◌, ◌++◌, true, false, length,
  length-append, All, All-concat, arith, inl, inr, Bool-cases, Option-cases,
}
use native.Mathlib.Nat.{zero-add}
use chrome_client.Base.Text.{Text, codes, lower, text_eq}
use chrome_client.Structures.Headers.{get_item}
use chrome_client.Sending.{Answer, Response, Outcome, got, too_large, failed, is_redirect}
use chrome_client.Sending.Redirects.{
  PreparedRequest, Ending, arrived, too_many_redirects, no_location, value_error,
  response_too_large, NextHop, hop_to, missing_location, bad_location, hop, at_location,
  redirected_to, raised, resume, next_hop, follow,
}

abbrev pub Redirects : List Answer → Type 0
Redirects = All (λ (a : Answer). is_redirect a ≡ true)

-- What following may end with, within a limit of hops.
abbrev pub Bounded : ℕ → Ending → Type 0
Bounded limit (arrived r history) =
    (is_redirect r.answer ≡ false) × Redirects history × (length history ≤ limit)
Bounded limit (too_many_redirects r history) =
    (is_redirect r.answer ≡ true) × Redirects history × (length history ≡ limit)
Bounded limit (no_location history) = ⊥
Bounded limit (value_error history) = Redirects history × (length history ≤ limit)
Bounded limit (response_too_large n history) = Redirects history × (length history ≤ limit)
Bounded limit (raised e history) = Redirects history × (length history ≤ limit)

located : (a : Answer) → is_redirect a ≡ true → get_item a.headers (codes "location") ≢ none
unfolding is_redirect get_item lower
located a h = ground arith

module _ (hostname : Text → Option Text) (target : Text → Text → Option Text) where
  next_hop_there :
      (a : Answer) (p : PreparedRequest)
      → is_redirect a ≡ true
      → next_hop hostname target a p ≢ missing_location
  unfolding next_hop at_location redirected_to
  next_hop_there a p h e = elim (Option-cases (get_item a.headers (codes "location"))) [
    | inl missing ↦ absurd (located a h missing)
    | inr (location, there) ↦ elim (Option-cases (target a.url location)) [
      | inl refused ↦ cc (simp (there, refused) at e)
      | inr (url, found) ↦ cc (simp (there, found) at e)
    ]
  ]

  module _ (world : ℕ → PreparedRequest → Outcome) where
    resume-Bounded :
        (limit : ℕ) (o : Outcome) (history : List Answer) (go : Response → Ending)
        → Redirects history
        → length history ≤ limit
        → ((r : Response) → Bounded limit (go r))
        → Bounded limit (resume o history go)
    unfolding resume
    resume-Bounded limit (got r) history go h l ok = ok r
    resume-Bounded limit (too_large n) history go h l ok = (h, l)
    resume-Bounded limit (failed e) history go h l ok = (h, l)

    hop-Bounded :
        (limit : ℕ) (next : NextHop) (history : List Answer) (go : PreparedRequest → Ending)
        → next ≢ missing_location
        → Redirects history
        → length history ≤ limit
        → ((q : PreparedRequest) → Bounded limit (go q))
        → Bounded limit (hop next history go)
    unfolding hop
    hop-Bounded limit missing_location history go n h l ok = absurd (n refl)
    hop-Bounded limit bad_location history go n h l ok = (h, l)
    hop-Bounded limit (hop_to q) history go n h l ok = ok q

    from-Bounded :
        (left' : ℕ) (history : List Answer) (p : PreparedRequest) (r : Response)
        → Redirects history
        → Bounded (length history + left') (follow hostname target world left' history p r)
    unfolding follow
    from-Bounded zero history p r h = elim (Bool-cases (is_redirect r.answer)) [
      | inl redirect ↦ simp redirect (refl, h, omega arith)
      | inr plain ↦ simp plain (refl, h, omega arith)
    ]
    from-Bounded (suc left') history p r h = elim (Bool-cases (is_redirect r.answer)) [
      | inr plain ↦ simp plain (refl, h, omega arith)
      | inl redirect ↦
          let further = history ++ r.answer ∷ [] in
          let longer = length-append history (r.answer ∷ []) in
          let sum : length further + left' ≡ length history + suc left' = omega (arith, longer) in
          let hs : Redirects further =
            All-concat (λ (a : Answer). is_redirect a ≡ true) history h redirect in
          simp redirect (
            hop-Bounded (length history + suc left') (next_hop hostname target r.answer p) further _
              (next_hop_there r.answer p redirect) hs (omega (arith, longer))
              (λ q.
                resume-Bounded (length history + suc left') (world (length history) q) further _ hs
                  (omega (arith, longer))
                  (λ next. rw sum at (from-Bounded left' further q next hs))))
    ]

    -- Following redirects from Python ends within the limit: it arrives at a response that is no
    -- redirect after at most `limit` hops, gives up exactly after `limit` hops that all were redirects
    -- on one more redirect, or stops where a hop raises, a location that cannot be requoted included; it
    -- never lacks a location.
    pub follow-Bounded :
        (limit : ℕ) (p : PreparedRequest) (r : Response)
        → Bounded limit (follow hostname target world limit [] p r)
    follow-Bounded limit p r = rw zero-add at (from-Bounded limit [] p r tt)
