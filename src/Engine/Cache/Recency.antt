-- ===== src/Engine/Cache/Recency.antt =====
-- The two ways in which `get` changes a cache: a slot that is there becomes the most recently used,
-- and a new slot may push out the least recently used one.
use chrome_client.Base.{
  ℕ, ◌≤◌, ◌<◌, ◌≡◌, ap, none, some, List, [], ◌∷◌, ◌++◌, true, ltb, length, length-append, ℕ_eq,
  if◌then◌else◌, contains, arith, inl, inr, Bool-cases,
}
use chrome_client.Base.Dict.{Dict, lookup, insert, erase}
use chrome_client.Cookies.Jar
use chrome_client.Engine.Config.{EngineConfig, config_eq}
use chrome_client.Engine.Cache.{EngineSlot, EngineCache, ok, evict, store, touch}
use chrome_client.Engine.Cache.Shape.{
  IsValid, Synced, Synced-touch, Synced-insert, Synced-pop, evict_fitting, evict_full, without,
  remove_first_present,
}

-- The order before the new key is appended.
abbrev pub order_with_room : ℕ → List EngineConfig → List EngineConfig
order_with_room max [] = []
order_with_room max (k ∷ ks) = if ltb (length (k ∷ ks)) max then k ∷ ks else ks

length-order_with_room :
    (max : ℕ) (order : List EngineConfig) (config : EngineConfig)
    → 0 < max
    → length order ≤ max
    → length (order_with_room max order ++ config ∷ []) ≤ max
length-order_with_room max [] config p b = p
length-order_with_room max (k ∷ ks) config p b = ground (arith, length-append ks (config ∷ []))

module _ {E : Type 0} where
  abbrev pub fresh : EngineConfig → E → EngineSlot E
  fresh config engine = record { engine = engine; config = config; mirror = Jar.empty }

  -- The slots after one more was stored: the least recently used key goes if there is no room.
  abbrev pub room :
      ℕ → List EngineConfig → Dict EngineConfig (EngineSlot E) → Dict EngineConfig (EngineSlot E)
  room max [] slots = slots
  room max (k ∷ ks) slots = if ltb (length (k ∷ ks)) max then slots else erase k slots

  evict-room :
      (max : ℕ) (order : List EngineConfig) (config : EngineConfig)
      (slots : Dict EngineConfig (EngineSlot E))
      → 0 < max
      → length order ≤ max
      → evict max (order ++ config ∷ []) slots
        ≡ (order_with_room max order ++ config ∷ [], room max order slots)
  evict-room max [] config slots p b = evict_fitting max (config ∷ []) slots (omega arith)
  evict-room max (k ∷ ks) config slots p b = elim (Bool-cases (ltb (length (k ∷ ks)) max)) [
    | inl fits ↦ rw fits (
        evict_fitting max (k ∷ (ks ++ config ∷ [])) slots
          (ground (arith, length-append ks (config ∷ []))))
    | inr full ↦ rw full (
        evict_full max k (ks ++ config ∷ []) slots (ground (arith, length-append ks (config ∷ []))))
  ]

  pub store-eq :
      (config : EngineConfig) (engine : E) (c : EngineCache E)
      → IsValid c
      → store config engine c ≡ (
        fresh config engine,
        record c {
          order = order_with_room c.max c.order ++ config ∷ [];
          slots = room c.max c.order (insert config (fresh config engine) c.slots);
        },
      )
  unfolding store
  store-eq config engine c v =
      ap (λ kept. (fresh config engine, record c { order = kept.0; slots = kept.1 }))
        (evict-room c.max c.order config (insert config (fresh config engine) c.slots) v.positive
          v.bounded)

  Synced-room :
      (max : ℕ) (order : List EngineConfig) (slot : EngineSlot E)
      (slots : Dict EngineConfig (EngineSlot E))
      → lookup slot.config slots ≡ none
      → Synced order slots
      → Synced
          (order_with_room max order ++ slot.config ∷ [])
          (room max order (insert slot.config slot slots))
  Synced-room max [] slot slots h s = Synced-insert slot [] slots h s
  Synced-room max (k ∷ ks) slot slots h s = elim (Bool-cases (ltb (length (k ∷ ks)) max)) [
    | inl fits ↦ rw fits (Synced-insert slot (k ∷ ks) slots h s)
    | inr full ↦
        rw full (Synced-pop k (ks ++ slot.config ∷ []) _ (Synced-insert slot (k ∷ ks) slots h s))
  ]

  pub store-IsValid :
      (config : EngineConfig) (engine : E) (c : EngineCache E)
      → lookup config c.slots ≡ none
      → IsValid c
      → IsValid (store config engine c).1
  store-IsValid config engine c h v = rw (store-eq config engine c v) (record {
    synced = Synced-room c.max c.order (fresh config engine) c.slots h v.synced;
    positive = v.positive;
    bounded = length-order_with_room c.max c.order config v.positive v.bounded;
  })

  pub touch-eq :
      (config : EngineConfig) (slot : EngineSlot E) (c : EngineCache E)
      → lookup config c.slots ≡ some slot
      → IsValid c
      → touch config slot c ≡ (ok slot, record c { order = without config c.order ++ config ∷ [] })
  unfolding touch
  touch-eq config slot c h v = rw (
    remove_first_present config c.order v.synced.once (ground (arith, v.synced.same_keys config)),
    touch,
  )

  pub touch-IsValid :
      (config : EngineConfig) (slot : EngineSlot E) (c : EngineCache E)
      → lookup config c.slots ≡ some slot
      → IsValid c
      → IsValid (touch config slot c).1
  touch-IsValid config slot c h v =
      let here : contains c.order config ≡ true = ground (arith, v.synced.same_keys config) in
      let s = Synced-touch config c.order c.slots here v.synced in
      rw (touch-eq config slot c h v) (record {
        synced = s;
        positive = v.positive;
        bounded = omega (arith, v.bounded, s.same_size, v.synced.same_size);
      })
