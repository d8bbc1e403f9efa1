-- ===== src/Sending/Cookies/Wire.antt =====
-- What a request carries on the wire: the Core sends the cookies of its store where it has some, and
-- else the `Cookie` header that it is given. What the store of an engine sends for a URL at that time is
-- an argument, `core`; that of a new engine is empty. The mirror of a slot is what the session takes
-- the store to be.
use chrome_client.Base.{
  ℕ, suc, ◌≡◌, ◌≢◌, refl, sym, ap, ◌∙◌, Option, none, some, [], ◌∷◌, true, false, ◌==◌, ==→eq,
  ==_refl, option_eq, ℕ_eq, inl, inr, Bool-cases, arith,
}
use chrome_client.Base.Dict.{lookup, lookup-nil}
use chrome_client.Base.Text.{Text, codes, lower, join, text_eq}
use chrome_client.Structures.Headers.{Headers, values_of, get_item, get_list, set_item}
use chrome_client.Structures.Headers.Consistency.{IsConsistent, set_item-IsConsistent}
use chrome_client.Structures.Headers.Fields.{get_list-set_item}
use chrome_client.Structures.Headers.Updates.{
  get_item-get_list, or_unchanged-IsConsistent, values_of-or_unchanged, joined,
}
use chrome_client.Cookies.Jar.{Jar}
use chrome_client.Engine.Config.{EngineConfig, config_eq}
use chrome_client.Engine.Cache.{
  EngineSlot, EngineCache, Build, built, refused, Result, ok, err, reset_after_fork, get, get_open,
  build_slot, store, discard,
}
use chrome_client.Sending.Redirects.{pop}
use chrome_client.Sending.Cookies.{
  CookiePolicy, Session, at_generation, with_desired, renew, send_desired, reconcile, supersede,
  jar_of, after_discard, resolve_cookies,
}

abbrev cookie : Text
cookie = codes "Cookie"

abbrev pub or_given : Option Text → Option Text → Option Text
or_given none other = other
or_given (some line) other = some line

get_item-pop : (h : Headers) → IsConsistent h → get_item (pop h cookie) cookie ≡ none
unfolding get_list
get_item-pop h c =
    let valid = or_unchanged-IsConsistent h cookie c in
    let gone : values_of (lower cookie) (pop h cookie).fields ≡ [] =
      ground (arith, values_of-or_unchanged h cookie c (lower cookie), ==_refl (lower cookie)) in
    get_item-get_list (pop h cookie) cookie valid ∙ ap joined gone

get_item-set_cookie :
    (h : Headers) (line : Text)
    → IsConsistent h
    → get_item (set_item h cookie line) cookie ≡ some line
get_item-set_cookie h line c =
    let valid = set_item-IsConsistent h cookie line c in
    let one : get_list (set_item h cookie line) cookie false ≡ line ∷ [] =
      ground (arith, get_list-set_item h cookie line cookie, ==_refl (lower cookie)) in
    get_item-get_list (set_item h cookie line) cookie valid ∙ ap joined one ∙ unfold join in refl

with_desired-sent :
    (desired : Option Text) (h : Headers)
    → IsConsistent h
    → desired ≢ some []
    → get_item (with_desired desired h) cookie ≡ or_given desired (get_item h cookie)
unfolding with_desired
with_desired-sent none h c n = refl
with_desired-sent (some []) h c n = absurd (n refl)
with_desired-sent (some (b ∷ line)) h c n = get_item-set_cookie h (b ∷ line) c

after_discard-made :
    {E : Type 0} (dropped : Result (Unit {0})) (replacement slot : EngineSlot E)
    → after_discard dropped replacement ≡ ok slot
    → ok replacement ≡ ok slot
unfolding after_discard
after_discard-made (ok _) replacement slot h = h
after_discard-made (err e) replacement slot h = cc

module _ {E : Type 0} (build : EngineConfig → Build E) (pid : ℕ) (core : E → Text → Option Text)
    (new : (config : EngineConfig) (engine : E) (url : Text)
      → build config ≡ built engine
      → core engine url ≡ none) where
  store_line : Text → Result (EngineSlot E) → Option Text
  store_line url (ok slot) = core slot.engine url
  store_line url (err e) = none

  made-empty :
      (config : EngineConfig) (b : Build E) (c : EngineCache E) (slot : EngineSlot E) (url : Text)
      → build config ≡ b
      → (build_slot config b c).0 ≡ ok slot
      → core slot.engine url ≡ none
  unfolding build_slot store store_line
  made-empty config (refused message) c slot url made h = cc
  made-empty config (built engine) c slot url made h =
      ap (store_line url) (sym h) ∙ new config engine url made

  get_open-empty :
      (config : EngineConfig) (c : EngineCache E) (slot : EngineSlot E) (url : Text)
      → lookup config c.slots ≡ none
      → (get_open build config c).0 ≡ ok slot
      → core slot.engine url ≡ none
  unfolding get_open
  get_open-empty config c slot url absent h =
      made-empty config (build config) c slot url refl (rw (absent, get_open) at h)

  -- A configuration with no slot gets one whose store is empty.
  get-empty :
      (config : EngineConfig) (c : EngineCache E) (slot : EngineSlot E) (url : Text)
      → lookup config c.slots ≡ none
      → (get build pid config c).0 ≡ ok slot
      → core slot.engine url ≡ none
  unfolding get reset_after_fork
  get-empty config c slot url absent h = elim (Bool-cases c.closed) [
    | inl closed ↦ ground (arith, simp closed at h)
    | inr open' ↦ elim (Bool-cases (pid == c.pid)) [
      | inl same ↦ get_open-empty config c slot url absent (simp (open', same) at h)
      | inr forked ↦
          get_open-empty config (record c { slots = []; order = []; pid = pid; closed = false })
            slot url (lookup-nil {V = EngineSlot E} config) (simp (open', forked) at h)
    ]
  ]

  module _ (policy : CookiePolicy) where
    open policy use {cookie_header, cookie_header-ne-nil}

    abbrev pub wire : Text → Result (EngineSlot E) → Headers → Option Text
    wire url (ok slot) h = or_given (core slot.engine url) (get_item h cookie)
    wire url (err e) h = none

    module _ (url : Text) (slot : EngineSlot E) (s : Session E) (h : Headers) (c : IsConsistent h)
        (absent : lookup (at_generation (suc s.generation) slot.config) s.engines.slots
          ≡ none) where
      renew-wire :
          (slot' : EngineSlot E) (g : Headers)
          → (renew build pid slot s).0 ≡ ok slot'
          → wire url (ok slot') g ≡ get_item g cookie
      unfolding renew
      renew-wire slot' g e =
          let fresh =
            get-empty (at_generation (suc s.generation) slot.config) s.engines slot' url absent e in
          ap (λ line. or_given line (get_item g cookie)) fresh

      sent :
          (desired : Option Text) (made : Result (EngineSlot E) × Session E) (slot' : EngineSlot E)
          → desired ≢ some []
          → made.0 ≡ (renew build pid slot s).0
          → (send_desired build pid desired h made).slot ≡ ok slot'
          → wire url (ok slot') (send_desired build pid desired h made).headers
            ≡ or_given desired (get_item h cookie)
      unfolding send_desired
      sent desired (err e, t) slot' n m r = cc
      sent desired (ok made, t) slot' n m r =
          renew-wire slot' (with_desired desired h) (sym m ∙ r) ∙ with_desired-sent desired h c n

      reconcile-wire :
          (desired : Option Text) (slot' : EngineSlot E)
          → desired ≢ some []
          → (store : Option Text) → core slot.engine url ≡ store
          → (reconcile build pid slot s h desired store).slot ≡ ok slot'
          → wire url (ok slot') (reconcile build pid slot s h desired store).headers
            ≡ or_given desired (get_item h cookie)
      unfolding reconcile
      reconcile-wire desired slot' n none stored r =
          let same : slot ≡ slot' = cc in
          ap
            (λ (t : EngineSlot E).
              or_given (core t.engine url) (get_item (with_desired desired h) cookie))
            (sym same)
          ∙ ap (λ line. or_given line (get_item (with_desired desired h) cookie)) stored
          ∙ with_desired-sent desired h c n
      reconcile-wire desired slot' n (some line) stored r =
          elim (Bool-cases (desired == some line)) [
            | inl agree ↦
                let same : slot ≡ slot' = ground (arith, simp agree at r) in
                let e : desired ≡ some line = ==→eq desired (some line) agree in
                simp agree (
                  ap
                    (λ (t : EngineSlot E).
                      or_given (core t.engine url) (get_item (pop h cookie) cookie))
                    (sym same)
                  ∙ ap (λ l. or_given l (get_item (pop h cookie) cookie)) (stored ∙ sym e)
                  ∙ agreed desired line e)
            | inr differ ↦
                simp differ (sent desired (renew build pid slot s) slot' n refl (simp differ at r))
          ]
        where
          agreed :
              (o : Option Text) (line : Text)
              → o ≡ some line
              → or_given o (get_item (pop h cookie) cookie) ≡ or_given o (get_item h cookie)
          agreed none line e = cc
          agreed (some l) line e = refl

      supersede-made :
          (g : Headers) (made : Result (EngineSlot E) × Session E) (slot' : EngineSlot E)
          → (supersede build pid slot g made).slot ≡ ok slot'
          → (made.0 ≡ ok slot') × ((supersede build pid slot g made).headers ≡ g)
      unfolding supersede
      supersede-made g (err e, t) slot' r = cc
      supersede-made g (ok replacement, t) slot' r =
          elim (Bool-cases (replacement.config == slot.config)) [
            | inl same ↦ simp same (simp same at r, refl)
            | inr other ↦ simp other (
              after_discard-made (discard slot.config t.engines).0 replacement slot'
                  (simp other at r),
              refl,
            )
          ]

      -- Where the mirror of the engine says of the URL what the engine's own store sends, a request that
      -- is not to discard its cookies carries the cookies that the jar has for its URL, and where the
      -- jar has none the header that the caller set, if any: for consistent headers, and as long as no
      -- engine of the next generation is cached.
      pub resolve_cookies-wire :
          (jar : Option Jar) (slot' : EngineSlot E)
          → core slot.engine url ≡ cookie_header slot.mirror url
          → (resolve_cookies build pid policy false jar url slot s h).slot ≡ ok slot'
          → wire url (ok slot') (resolve_cookies build pid policy false jar url slot s h).headers
            ≡ or_given (cookie_header (jar_of jar s) url) (get_item h cookie)
      unfolding resolve_cookies
      resolve_cookies-wire jar slot' agree r =
          reconcile-wire (cookie_header (jar_of jar s) url) slot'
            (cookie_header-ne-nil (jar_of jar s) url) (cookie_header slot.mirror url) agree r

      -- A request that discards its cookies carries none, whatever the caller set and the store of the
      -- engine before held: for consistent headers, and as long as no engine of the next generation is cached.
      pub resolve_cookies-discard :
          (jar : Option Jar) (slot' : EngineSlot E)
          → (resolve_cookies build pid policy true jar url slot s h).slot ≡ ok slot'
          → wire url (ok slot') (resolve_cookies build pid policy true jar url slot s h).headers
            ≡ none
      unfolding resolve_cookies
      resolve_cookies-discard jar slot' r =
          let g = pop h cookie in
          let kept = supersede-made g (renew build pid slot s) slot' r in
          rw kept.1 (renew-wire slot' g kept.0 ∙ get_item-pop h c)

    pub resolve_cookies-stale :
        (url line : Text) (slot slot' : EngineSlot E) (s : Session E) (h : Headers)
        (jar : Option Jar)
        → cookie_header slot.mirror url ≡ none
        → core slot.engine url ≡ some line
        → (resolve_cookies build pid policy false jar url slot s h).slot ≡ ok slot'
        → wire url (ok slot') (resolve_cookies build pid policy false jar url slot s h).headers
          ≡ some line
    unfolding resolve_cookies reconcile store_line
    resolve_cookies-stale url line slot slot' s h jar blind held r =
        stale (cookie_header (jar_of jar s) url) (cookie_header slot.mirror url) blind r
      where
        stale :
            (desired store : Option Text)
            → store ≡ none
            → (reconcile build pid slot s h desired store).slot ≡ ok slot'
            → wire url (ok slot') (reconcile build pid slot s h desired store).headers ≡ some line
        stale desired (some _) n q = cc
        stale desired none n q =
            ap (λ (o : Option Text). or_given o (get_item (with_desired desired h) cookie))
              (ap (store_line url) (sym q) ∙ held)
