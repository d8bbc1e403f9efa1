-- ===== src/Engine/Cache/Operations.antt =====
-- What the methods of the cache do on each branch, and that they keep it valid.
use chrome_client.Base.{
  ℕ, zero, suc, ◌≤◌, ◌<◌, ◌≡◌, ◌≢◌, refl, ◌∙◌, Option, none, some, List, [], ◌∷◌, ◌++◌, Bool, true,
  false, ◌==◌, ltb, length, ℕ_eq, if◌then◌else◌, arith, inl, inr, Bool-cases,
}
use chrome_client.Base.Dict.{Dict, lookup, insert, erase, lookup-insert, lookup-erase, lookup-nil}
use chrome_client.Base.Text.{Text}
use chrome_client.Cookies.Jar
use chrome_client.Engine.Config.{EngineConfig, config_eq}
use chrome_client.Engine.Cache.{
  store, EngineSlot, EngineCache, ok, err, Build, built, refused, session_closed, rejected,
  reset_after_fork, build_slot, get_open, get, discard, clear, close, create, at_least_one, len,
}
use chrome_client.Engine.Cache.Shape.{
  IsValid, Synced, Synced-nil, Synced-discard, without, remove_first_present,
}
use chrome_client.Engine.Cache.Recency.{
  fresh, room, store-eq, store-IsValid, touch-eq, touch-IsValid,
}

length-without-le :
    (key : EngineConfig) (ks : List EngineConfig) → length (without key ks) ≤ length ks
length-without-le key [] = omega arith
length-without-le key (k ∷ ks) = ground (arith, length-without-le key ks)

at_least_one-pos : (n : ℕ) → 0 < at_least_one n
at_least_one-pos zero = omega arith
at_least_one-pos (suc n) = omega arith

-- The key that makes room for a new one: the least recently used of a full order.
abbrev pub leaves : ℕ → List EngineConfig → EngineConfig → Bool
leaves max [] key = false
leaves max (k ∷ ks) key = if ltb (length (k ∷ ks)) max then false else key == k

module _ {E : Type 0} where
  emptied-IsValid :
      (c : EngineCache E) (pid : ℕ) (closed : Bool)
      → IsValid c
      → IsValid (record c { slots = []; order = []; pid = pid; closed = closed })
  emptied-IsValid c pid closed v = record {
    synced = Synced-nil;
    positive = v.positive;
    bounded = omega arith;
  }

  reset-IsValid : (pid : ℕ) (c : EngineCache E) → IsValid c → IsValid (reset_after_fork pid c)
  unfolding reset_after_fork
  reset-IsValid pid c v = elim (Bool-cases (pid == c.pid)) [
    | inl same ↦ rw same v
    | inr forked ↦ rw forked (emptied-IsValid c pid c.closed v)
  ]

  get_open-IsValid :
      (build : EngineConfig → Build E) (config : EngineConfig) (c : EngineCache E)
      → IsValid c
      → IsValid (get_open build config c).1
  unfolding get_open build_slot
  get_open-IsValid build config c v = split (lookup config c.slots) refl
    where
      made : (b : Build E) → lookup config c.slots ≡ none → IsValid (build_slot config b c).1
      made (refused message) e = v
      made (built engine) e = store-IsValid config engine c e v

      split :
          (o : Option (EngineSlot E))
          → lookup config c.slots ≡ o
          → IsValid (get_open build config c).1
      split none e = rw (e, get_open) (made (build config) e)
      split (some slot) e = rw (e, get_open) (touch-IsValid config slot c e v)

  get-IsValid :
      (build : EngineConfig → Build E) (pid : ℕ) (config : EngineConfig) (c : EngineCache E)
      → IsValid c
      → IsValid (get build pid config c).1
  unfolding get
  get-IsValid build pid config c v = elim (Bool-cases c.closed) [
    | inl closed ↦ simp closed v
    | inr open' ↦ simp open' (get_open-IsValid build config _ (reset-IsValid pid c v))
  ]

  discard-eq :
      (config : EngineConfig) (slot : EngineSlot E) (c : EngineCache E)
      → lookup config c.slots ≡ some slot
      → IsValid c
      → discard config c
        ≡ (ok tt, record c { slots = erase config c.slots; order = without config c.order })
  unfolding discard
  discard-eq config slot c e v = rw (
    e,
    remove_first_present config c.order v.synced.once (ground (arith, v.synced.same_keys config)),
    discard,
  )

  discard-IsValid :
      (config : EngineConfig) (c : EngineCache E) → IsValid c → IsValid (discard config c).1
  unfolding discard
  discard-IsValid config c v = split (lookup config c.slots) refl
    where
      split : (o : Option (EngineSlot E)) → lookup config c.slots ≡ o → IsValid (discard config c).1
      split none e = rw (e, discard) v
      split (some slot) e = rw (discard-eq config slot c e v) (record {
        synced =
            Synced-discard config c.order c.slots (ground (arith, v.synced.same_keys config))
              v.synced;
        positive = v.positive;
        bounded = omega (arith, v.bounded, length-without-le config c.order);
      })

  pub create-IsValid : (max_engines pid : ℕ) → IsValid (create {E = E} max_engines pid)
  unfolding create
  create-IsValid max_engines pid = record {
    synced = Synced-nil;
    positive = at_least_one-pos max_engines;
    bounded = omega arith;
  }

  -- Each method keeps a valid cache valid, whatever it returns or raises.
  pub operations-IsValid :
      (build : EngineConfig → Build E) (pid : ℕ) (config : EngineConfig) (c : EngineCache E)
      → IsValid c
      → IsValid (get build pid config c).1
        × IsValid (discard config c).1
        × IsValid (clear c)
        × IsValid (close c)
  unfolding clear close
  operations-IsValid build pid config c v = (
    get-IsValid build pid config c v,
    discard-IsValid config c v,
    emptied-IsValid c c.pid c.closed v,
    emptied-IsValid c c.pid true v,
  )

  -- A closed cache refuses every `get`, and stays as it is.
  pub get-close :
      (build : EngineConfig → Build E) (pid : ℕ) (config : EngineConfig) (c : EngineCache E)
      → (get build pid config (close c) ≡ (err session_closed, close c)) × (len (close c) ≡ 0)
  unfolding get close len
  get-close build pid config c = (refl, refl)

  get_open-eq :
      (build : EngineConfig → Build E) (config : EngineConfig) (c : EngineCache E)
      → c.closed ≡ false
      → get build c.pid config c ≡ get_open build config c
  unfolding get reset_after_fork
  get_open-eq build config c o = ground arith

  -- In the process that made the cache, a configuration with a slot gets that slot. Its key becomes
  -- the most recently used, and the slots stay as they are.
  pub get_hit :
      (build : EngineConfig → Build E) (config : EngineConfig) (slot : EngineSlot E)
      (c : EngineCache E)
      → IsValid c
      → c.closed ≡ false
      → lookup config c.slots ≡ some slot
      → get build c.pid config c
        ≡ (ok slot, record c { order = without config c.order ++ config ∷ [] })
  unfolding get_open
  get_hit build config slot c v o e =
      get_open-eq build config c o ∙ rw (e, get_open) (touch-eq config slot c e v)

  lookup-room :
      (max : ℕ) (order : List EngineConfig) (slot : EngineSlot E)
      (slots : Dict EngineConfig (EngineSlot E)) (key : EngineConfig)
      → Synced order slots
      → lookup slot.config slots ≡ none
      → lookup key (room max order (insert slot.config slot slots)) ≡ (
          if key == slot.config
          then some slot
          else if leaves max order key
          then none
          else lookup key slots)
  lookup-room max [] slot slots key s e = ground (arith, lookup-insert key slot.config slot slots)
  lookup-room max (k ∷ ks) slot slots key s e = ground (
    arith,
    s.same_keys k,
    lookup-insert key slot.config slot slots,
    lookup-erase key k (insert slot.config slot slots),
  )

  -- A configuration with no slot gets a new one, with the engine that was built and an empty mirror.
  -- From then on it is found; of the others, at most the least recently used one of a full cache is
  -- dropped.
  pub get_miss :
      (build : EngineConfig → Build E) (config : EngineConfig) (engine : E) (c : EngineCache E)
      → IsValid c
      → c.closed ≡ false
      → lookup config c.slots ≡ none
      → build config ≡ built engine
      → ((get build c.pid config c).0
          ≡ ok (record { engine = engine; config = config; mirror = Jar.empty }))
        × ((key : EngineConfig)
            → lookup key (get build c.pid config c).1.slots ≡ (
                if key == config
                then some (record { engine = engine; config = config; mirror = Jar.empty })
                else if leaves c.max c.order key
                then none
                else lookup key c.slots))
  unfolding get_open build_slot
  get_miss build config engine c v o e b =
      rw (get_open-eq build config c o, e, b, get_open, build_slot, store-eq config engine c v)
        (refl, λ key. lookup-room c.max c.order (fresh config engine) c.slots key v.synced e)

  -- An engine that the Core refuses is an error, and the cache stays as it is.
  pub get_refused :
      (build : EngineConfig → Build E) (config : EngineConfig) (message : Text) (c : EngineCache E)
      → c.closed ≡ false
      → lookup config c.slots ≡ none
      → build config ≡ refused message
      → get build c.pid config c ≡ (err (rejected message), c)
  unfolding get_open build_slot
  get_refused build config message c o e b =
      get_open-eq build config c o ∙ rw (e, b, get_open, build_slot)

  -- After a fork no slot of the parent is returned: the engine is the one that `build` gives now.
  pub get_after_fork :
      (build : EngineConfig → Build E) (pid : ℕ) (config : EngineConfig) (slot : EngineSlot E)
      (c : EngineCache E)
      → pid ≢ c.pid
      → (get build pid config c).0 ≡ ok slot
      → (build config ≡ built slot.engine) × (slot.mirror ≡ Jar.empty)
  unfolding get get_open build_slot store reset_after_fork
  get_after_fork build pid config slot c ne h = ground (arith, lookup-nil {V = EngineSlot E} config)
