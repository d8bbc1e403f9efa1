-- ===== src/Sending/Cookies/Generations.antt =====
-- The generation of a session: no engine of a later generation is ever cached.
use chrome_client.Base.{
  ℕ, suc, option_eq, ◌≡◌, ◌≢◌, ◌<◌, ◌++◌, refl, ap, Option, none, some, List, [], ◌∷◌, Bool, true,
  false, ◌==◌, ℕ_eq, inl, inr, Bool-cases, Option-cases, arith,
}
use chrome_client.Base.Dict.{Dict, lookup, erase, lookup-insert, lookup-erase, lookup-nil}
use chrome_client.Base.Text.{Text, text_eq}
use chrome_client.Structures.Headers.{Headers}
use chrome_client.Cookies.Jar
use chrome_client.Cookies.Jar.{Jar}
use chrome_client.Engine.Config.{EngineConfig, config_eq}
use chrome_client.Engine.Cache.{
  EngineSlot, EngineCache, Build, built, refused, Result, ok, err, reset_after_fork, get, get_open,
  build_slot, store, evict, touch, discard,
}
use chrome_client.Sending.Cookies.{
  CookiePolicy, Session, at_generation, choose_slot, renew, send_desired, reconcile, supersede,
  jar_of, resolve_cookies,
}

module _ {E : Type 0} where
  abbrev pub Absent : EngineConfig → EngineCache E → Type 0
  Absent key c = lookup key c.slots ≡ none

  evict-Absent :
      (max : ℕ) (ks : List EngineConfig) (key : EngineConfig)
      (slots : Dict EngineConfig (EngineSlot E))
      → lookup key slots ≡ none
      → lookup key (evict max ks slots).1 ≡ none
  unfolding evict
  evict-Absent max [] key slots h = h
  evict-Absent max (k ∷ ks) key slots h =
      ground (arith, lookup-erase key k slots, evict-Absent max ks key (erase k slots))

  store-Absent :
      (config key : EngineConfig) (engine : E) (c : EngineCache E)
      → key ≢ config
      → Absent key c
      → Absent key (store config engine c).1
  unfolding store
  store-Absent config key engine c ne h = evict-Absent c.max (c.order ++ config ∷ []) key _ (
      ground (
        arith,
        lookup-insert key config (record { engine = engine; config = config; mirror = Jar.empty })
            c.slots,
      ))

  build_slot-Absent :
      (config key : EngineConfig) (b : Build E) (c : EngineCache E)
      → key ≢ config
      → Absent key c
      → Absent key (build_slot config b c).1
  unfolding build_slot
  build_slot-Absent config key (refused message) c ne h = h
  build_slot-Absent config key (built engine) c ne h = store-Absent config key engine c ne h

  touch-Absent :
      (config key : EngineConfig) (slot : EngineSlot E) (c : EngineCache E)
      → Absent key c
      → Absent key (touch config slot c).1
  unfolding touch
  touch-Absent config key slot c h = ground arith

  discard-Absent :
      (config key : EngineConfig) (c : EngineCache E)
      → Absent key c
      → Absent key (discard config c).1
  unfolding discard
  discard-Absent config key c h = ground (arith, lookup-erase key config c.slots)

  get_open-Absent :
      (build : EngineConfig → Build E) (config key : EngineConfig) (c : EngineCache E)
      → key ≢ config
      → Absent key c
      → Absent key (get_open build config c).1
  unfolding get_open
  get_open-Absent build config key c ne h = elim (Option-cases (lookup config c.slots)) [
    | inl missing ↦ rw (missing, get_open) (build_slot-Absent config key (build config) c ne h)
    | inr (slot, found) ↦ rw (found, get_open) (touch-Absent config key slot c h)
  ]

  get-Absent :
      (build : EngineConfig → Build E) (pid : ℕ) (config key : EngineConfig) (c : EngineCache E)
      → key ≢ config
      → Absent key c
      → Absent key (get build pid config c).1
  unfolding get reset_after_fork
  get-Absent build pid config key c ne h = elim (Bool-cases c.closed) [
    | inl closed ↦ simp closed h
    | inr open' ↦ elim (Bool-cases (pid == c.pid)) [
      | inl same ↦ simp (open', same) (get_open-Absent build config key c ne h)
      | inr forked ↦
          simp (open', forked)
            (get_open-Absent build config key _ ne (lookup-nil {V = EngineSlot E} key))
    ]
  ]

  -- No engine of a generation to come is cached.
  abbrev pub IsFresh : Session E → Type 0
  IsFresh s = (key : EngineConfig) → s.generation < key.generation → Absent key s.engines

  module _ (build : EngineConfig → Build E) (pid : ℕ) where
    renew-IsFresh :
        (slot : EngineSlot E) (s : Session E) → IsFresh s → IsFresh (renew build pid slot s).1
    unfolding renew
    renew-IsFresh slot s f key later =
        get-Absent build pid (at_generation (suc s.generation) slot.config) key s.engines
          (λ e. absurd (omega (arith, ap (λ (k : EngineConfig). k.generation) e)))
          (f key (omega arith))

    send_desired-session :
        (desired : Option Text) (h : Headers) (made : Result (EngineSlot E) × Session E)
        → (send_desired build pid desired h made).session ≡ made.1
    unfolding send_desired
    send_desired-session desired h (ok slot, t) = refl
    send_desired-session desired h (err e, t) = refl

    reconcile-IsFresh :
        (slot : EngineSlot E) (s : Session E) (h : Headers) (desired store : Option Text)
        → IsFresh s
        → IsFresh (reconcile build pid slot s h desired store).session
    unfolding reconcile
    reconcile-IsFresh slot s h desired none f = f
    reconcile-IsFresh slot s h desired (some line) f = elim (Bool-cases (desired == some line)) [
      | inl agree ↦ simp agree f
      | inr differ ↦ simp (differ, send_desired-session) (renew-IsFresh slot s f)
    ]

    supersede-IsFresh :
        (slot : EngineSlot E) (h : Headers) (made : Result (EngineSlot E) × Session E)
        → IsFresh made.1
        → IsFresh (supersede build pid slot h made).session
    unfolding supersede
    supersede-IsFresh slot h (err e, t) f = f
    supersede-IsFresh slot h (ok replacement, t) f =
        elim (Bool-cases (replacement.config == slot.config)) [
          | inl same ↦ simp same f
          | inr other ↦
              simp other (λ key later. discard-Absent slot.config key t.engines (f key later))
        ]

    resolved-IsFresh :
        (policy : CookiePolicy) (s : Session E)
        → IsFresh s
        → (discard : Bool) (jar : Option Jar) (url : Text) (slot : EngineSlot E) (h : Headers)
        → IsFresh (resolve_cookies build pid policy discard jar url slot s h).session
    unfolding resolve_cookies
    resolved-IsFresh policy s f true jar url slot h =
        supersede-IsFresh slot _ _ (renew-IsFresh slot s f)
    resolved-IsFresh policy s f false jar url slot h =
        reconcile-IsFresh slot s h (policy.cookie_header (jar_of jar s) url)
          (policy.cookie_header slot.mirror url) f

    -- Choosing an engine for a request of the present generation, and resolving its cookies in either
    -- way, never leaves an engine of a later generation in the cache, so the next one starts empty.
    pub resolve_cookies-IsFresh :
        (policy : CookiePolicy) (config : EngineConfig) (s : Session E)
        → IsFresh s
        → IsFresh (choose_slot build pid config s).1
          × ((discard : Bool) (jar : Option Jar) (url : Text) (slot : EngineSlot E) (h : Headers)
              → IsFresh (resolve_cookies build pid policy discard jar url slot s h).session)
    unfolding choose_slot resolve_cookies
    resolve_cookies-IsFresh policy config s f = (
      λ key later.
          get-Absent build pid (at_generation s.generation config) key s.engines
            (λ e. absurd (omega (arith, ap (λ (k : EngineConfig). k.generation) e))) (f key later),
      resolved-IsFresh policy s f,
    )
