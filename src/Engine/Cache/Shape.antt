-- ===== src/Engine/Cache/Shape.antt =====
-- The slots and the order stay in step, and there are never more than `max` of them.
use chrome_client.Base.{
  ℕ, ◌+◌, ◌≤◌, ◌<◌, ◌≡◌, refl, none, some, List, [], ◌∷◌, ◌++◌, true, false, ◌||◌, ◌==◌, length,
  length-append, ℕ_eq, if◌then◌else◌, contains, arith,
}
use chrome_client.Base.Dict.{
  Dict, lookup, insert, erase, has, NodupKeys, lookup-insert, lookup-erase, insert-NodupKeys,
  erase-NodupKeys, length-insert,
}
use chrome_client.Base.Dict.Equality.{length-erase}
use chrome_client.Engine.Config.{EngineConfig, config_eq}
use chrome_client.Engine.Cache.{EngineSlot, EngineCache, remove_first, evict}

abbrev pub Once : List EngineConfig → Type 0
Once [] = Unit
Once (k ∷ ks) = (contains ks k ≡ false) × Once ks

-- The order lists each key of the slots once, and each slot is under its own configuration.
pub record Synced {E : Type 0} (order : List EngineConfig)
    (slots : Dict EngineConfig (EngineSlot E)) : Type 0 where
  pub once : Once order
  pub nodup : NodupKeys slots
  pub same_keys : (k : EngineConfig) → contains order k ≡ has k slots
  pub same_size : length slots ≡ length order
  pub own_key : (k : EngineConfig) (s : EngineSlot E) → lookup k slots ≡ some s → s.config ≡ k

pub record IsValid {E : Type 0} (c : EngineCache E) : Type 0 where
  pub synced : Synced c.order c.slots
  pub positive : 0 < c.max
  pub bounded : length c.order ≤ c.max

-- The order with a key taken out.
abbrev pub without : EngineConfig → List EngineConfig → List EngineConfig
without key [] = []
without key (k ∷ ks) = let rest = without key ks in if k == key then rest else k ∷ rest

without_absent :
    (key : EngineConfig) (ks : List EngineConfig) → contains ks key ≡ false → without key ks ≡ ks
without_absent key [] h = refl
without_absent key (k ∷ ks) h = ground (arith, without_absent key ks)

pub remove_first_present :
    (key : EngineConfig) (ks : List EngineConfig)
    → Once ks
    → contains ks key ≡ true
    → remove_first key ks ≡ some (without key ks)
unfolding remove_first
remove_first_present key [] o h = cc
remove_first_present key (k ∷ ks) (f, o) h =
    ground (arith, remove_first_present key ks o, without_absent k ks f)

pub contains-without :
    (key k : EngineConfig) (ks : List EngineConfig)
    → contains (without key ks) k ≡ (if k == key then false else contains ks k)
contains-without key k [] = ground arith
contains-without key k (j ∷ ks) = ground (arith, contains-without key k ks)

pub contains-concat :
    (k key : EngineConfig) (ks : List EngineConfig)
    → contains (ks ++ key ∷ []) k ≡ (k == key || contains ks k)
contains-concat k key [] = refl
contains-concat k key (j ∷ ks) = ground (arith, contains-concat k key ks)

without-Once : (key : EngineConfig) (ks : List EngineConfig) → Once ks → Once (without key ks)
without-Once key [] o = tt
without-Once key (k ∷ ks) (f, o) = ground (arith, without-Once key ks o, contains-without key k ks)

Once-concat :
    (key : EngineConfig) (ks : List EngineConfig)
    → Once ks
    → contains ks key ≡ false
    → Once (ks ++ key ∷ [])
Once-concat key [] o h = (refl, tt)
Once-concat key (k ∷ ks) (f, o) h = ground (arith, Once-concat key ks o, contains-concat k key ks)

length-without :
    (key : EngineConfig) (ks : List EngineConfig)
    → Once ks
    → length ks ≡ (if contains ks key then length (without key ks) + 1 else length (without key ks))
length-without key [] o = refl
length-without key (k ∷ ks) (f, o) = ground (arith, length-without key ks o, without_absent k ks f)

module _ {E : Type 0} where
  pub Synced-nil : Synced {E = E} [] []
  unfolding lookup
  Synced-nil = record {
    once = tt;
    nodup = tt;
    same_keys = λ k. refl;
    same_size = refl;
    own_key = λ k s e. cc;
  }

  pub Synced-touch :
      (key : EngineConfig) (order : List EngineConfig) (slots : Dict EngineConfig (EngineSlot E))
      → contains order key ≡ true
      → Synced order slots
      → Synced (without key order ++ key ∷ []) slots
  Synced-touch key order slots h s = record {
    once =
        Once-concat key (without key order) (without-Once key order s.once)
          (ground (arith, contains-without key key order));
    nodup = s.nodup;
    same_keys = λ k. ground (
      arith,
      s.same_keys k,
      contains-concat k key (without key order),
      contains-without key k order,
    );
    same_size = ground (
      arith,
      s.same_size,
      length-without key order s.once,
      length-append (without key order) (key ∷ []),
    );
    own_key = s.own_key;
  }

  pub Synced-insert :
      (slot : EngineSlot E) (order : List EngineConfig) (slots : Dict EngineConfig (EngineSlot E))
      → lookup slot.config slots ≡ none
      → Synced order slots
      → Synced (order ++ slot.config ∷ []) (insert slot.config slot slots)
  Synced-insert slot order slots h s = record {
    once = Once-concat slot.config order s.once (ground (arith, s.same_keys slot.config));
    nodup = insert-NodupKeys slot.config slot slots s.nodup;
    same_keys = λ k. ground (
      arith,
      s.same_keys k,
      contains-concat k slot.config order,
      lookup-insert k slot.config slot slots,
    );
    same_size = ground (
      arith,
      s.same_size,
      length-insert slot.config slot slots,
      length-append order (slot.config ∷ []),
    );
    own_key = λ k t e. ground (arith, s.own_key k t, lookup-insert k slot.config slot slots);
  }

  pub Synced-pop :
      (k : EngineConfig) (ks : List EngineConfig) (slots : Dict EngineConfig (EngineSlot E))
      → Synced (k ∷ ks) slots
      → Synced ks (erase k slots)
  Synced-pop k ks slots s = record {
    once = s.once.1;
    nodup = erase-NodupKeys k slots s.nodup;
    same_keys = λ j. ground (arith, s.same_keys j, lookup-erase j k slots, s.once.0);
    same_size = ground (arith, s.same_size, s.same_keys k, length-erase k slots s.nodup);
    own_key = λ j t e. ground (arith, s.own_key j t, lookup-erase j k slots);
  }

  pub Synced-discard :
      (key : EngineConfig) (order : List EngineConfig) (slots : Dict EngineConfig (EngineSlot E))
      → contains order key ≡ true
      → Synced order slots
      → Synced (without key order) (erase key slots)
  Synced-discard key order slots h s = record {
    once = without-Once key order s.once;
    nodup = erase-NodupKeys key slots s.nodup;
    same_keys =
        λ k. ground (arith, s.same_keys k, lookup-erase k key slots, contains-without key k order);
    same_size = ground (
      arith,
      s.same_size,
      s.same_keys key,
      length-erase key slots s.nodup,
      length-without key order s.once,
    );
    own_key = λ k t e. ground (arith, s.own_key k t, lookup-erase k key slots);
  }

  pub evict_fitting :
      (max : ℕ) (ks : List EngineConfig) (slots : Dict EngineConfig (EngineSlot E))
      → length ks ≤ max
      → evict max ks slots ≡ (ks, slots)
  unfolding evict
  evict_fitting max [] slots h = refl
  evict_fitting max (k ∷ ks) slots h = ground arith

  pub evict_full :
      (max : ℕ) (k : EngineConfig) (ks : List EngineConfig)
      (slots : Dict EngineConfig (EngineSlot E))
      → length (k ∷ ks) ≡ max + 1
      → evict max (k ∷ ks) slots ≡ (ks, erase k slots)
  unfolding evict
  evict_full max k ks slots h = ground (arith, evict_fitting max ks (erase k slots))
