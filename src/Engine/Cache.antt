-- ===== src/Engine/Cache.antt =====
-- `EngineCache`: slots by configuration, and their keys from the least to the most recently used.
-- Building an engine is the Core's. It enters as the function `build`, which may fail. Each method
-- runs under the lock, so it is one step. The process id is an argument.
pub mod Shape
pub mod Recency
pub mod Operations
use chrome_client.Base.{
  ℕ, zero, suc, ◌+◌, ◌-◌, Option, none, some, List, [], ◌∷◌, ◌++◌, Bool, true, false, not, ◌==◌,
  ltb, leb, length, ℕ_eq, if◌then◌else◌,
}
use chrome_client.Base.Dict.{Dict, lookup, insert, erase}
use chrome_client.Base.Text.{Text, codes}
use chrome_client.Engine.Config.{EngineConfig, config_eq}
use chrome_client.Cookies.Jar
use chrome_client.Cookies.Jar.{Jar}

pub record EngineSlot (E : Type 0) : Type 0 where
  pub engine : E
  pub config : EngineConfig
  pub mirror : Jar

pub record EngineCache (E : Type 0) : Type 0 where
  pub slots : Dict EngineConfig (EngineSlot E)
  pub order : List EngineConfig
  pub max : ℕ
  pub pid : ℕ
  pub closed : Bool

-- What a method raises: the error of a closed session, the mapped error of the Core, or the
-- `ValueError` of `list.remove`.
pub data Error : Type 0 where
  session_closed not_in_list : Error
  rejected : Text → Error

pub data Result (A : Type 0) : Type 0 where
  ok : A → Result A
  err : Error → Result A

-- What `config.build()` comes to: an engine, or the message of the error that it raises.
pub data Build (E : Type 0) : Type 0 where
  built : E → Build E
  refused : Text → Build E

-- `max(1, max_engines)`
abbrev pub at_least_one : ℕ → ℕ
at_least_one zero = 1
at_least_one (suc n) = suc n

-- `order.remove(key)`; `none` is the `ValueError`.
unfoldable pub remove_first : EngineConfig → List EngineConfig → Option (List EngineConfig)
remove_first key [] = none
remove_first key (k ∷ ks) =
    let rest = remove_first key ks in
    if k == key then some ks else elim rest [ none ↦ none | some r ↦ some (k ∷ r) ]

module _ {E : Type 0} where
  unfoldable pub create : ℕ → ℕ → EngineCache E
  create max_engines pid = record {
    slots = [];
    order = [];
    max = at_least_one max_engines;
    pid = pid;
    closed = false;
  }

  -- Engines do not survive a fork: a new process id drops them.
  unfoldable pub reset_after_fork : ℕ → EngineCache E → EngineCache E
  reset_after_fork pid c =
      if pid == c.pid then c else record c { slots = []; order = []; pid = pid }

  -- The loop that pops from the front of the order while it is too long.
  unfoldable pub evict :
      ℕ
      → List EngineConfig
      → Dict EngineConfig (EngineSlot E)
      → List EngineConfig × Dict EngineConfig (EngineSlot E)
  evict max [] slots = ([], slots)
  evict max (k ∷ ks) slots =
      let shorter = evict max ks (erase k slots) in
      if ltb max (length (k ∷ ks)) then shorter else (k ∷ ks, slots)

  unfoldable pub store : EngineConfig → E → EngineCache E → EngineSlot E × EngineCache E
  store config engine c =
      let slot : EngineSlot E = record { engine = engine; config = config; mirror = Jar.empty } in
      let kept = evict c.max (c.order ++ config ∷ []) (insert config slot c.slots) in
      (slot, record c { order = kept.0; slots = kept.1 })

  unfoldable pub touch :
      EngineConfig → EngineSlot E → EngineCache E → Result (EngineSlot E) × EngineCache E
  touch config slot c = elim (remove_first config c.order) [
    | none ↦ (err not_in_list, c)
    | some rest ↦ (ok slot, record c { order = rest ++ config ∷ [] })
  ]

  -- A configuration with no slot is built; an error of the Core leaves the cache as it was.
  unfoldable pub build_slot :
      EngineConfig → Build E → EngineCache E → Result (EngineSlot E) × EngineCache E
  build_slot config (refused message) c = (err (rejected message), c)
  build_slot config (built engine) c = let (slot, c') = store config engine c in (ok slot, c')

  unfoldable pub get_open :
      (EngineConfig → Build E)
      → EngineConfig
      → EngineCache E
      → Result (EngineSlot E) × EngineCache E
  get_open build config c = elim (lookup config c.slots) [
    | some slot ↦ touch config slot c
    | none ↦ build_slot config (build config) c
  ]

  unfoldable pub get :
      (EngineConfig → Build E)
      → ℕ
      → EngineConfig
      → EngineCache E
      → Result (EngineSlot E) × EngineCache E
  get build pid config c =
      if c.closed then (err session_closed, c) else get_open build config (reset_after_fork pid c)

  unfoldable pub discard : EngineConfig → EngineCache E → Result (Unit {0}) × EngineCache E
  discard config c = elim (lookup config c.slots) [
    | none ↦ (ok tt, c)
    | some _ ↦
        let slots = erase config c.slots in
        elim (remove_first config c.order) [
          | none ↦ (err not_in_list, record c { slots = slots })
          | some rest ↦ (ok tt, record c { slots = slots; order = rest })
        ]
  ]

  unfoldable pub clear : EngineCache E → EngineCache E
  clear c = record c { slots = []; order = [] }

  unfoldable pub close : EngineCache E → EngineCache E
  close c = record c { closed = true; slots = []; order = [] }

  unfoldable pub len : EngineCache E → ℕ
  len c = length c.slots
