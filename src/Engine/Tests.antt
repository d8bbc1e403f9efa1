-- ===== src/Engine/Tests.antt =====
-- Runs of the engine cache, and its theorems at concrete data. An engine is a number here.
use chrome_client.Base.{ℕ, ◌≡◌, refl, none, some, List, [], ◌∷◌, true, false, ℕ_eq}
use chrome_client.Base.Dict
use chrome_client.Base.Text.{codes, text_eq}
use chrome_client.Cookies.Jar
use chrome_client.Engine.Config.{EngineConfig, config_eq}
use chrome_client.Engine.Cache.{
  EngineSlot, EngineCache, Build, built, refused, create, get, get_open, build_slot, store, touch,
  remove_first, reset_after_fork, discard, clear, close, evict,
}
use chrome_client.Engine.Cache.Shape.{IsValid}
use chrome_client.Engine.Cache.Operations.{create-IsValid, operations-IsValid}

abbrev direct : EngineConfig
direct = record {
  impersonate = some (codes "chrome_153");
  proxy = none;
  verify = true;
  ca_pem = none;
  user_agent = none;
  accept_language = none;
  proxy_username = none;
  proxy_password = none;
  http_version = none;
  cache = true;
  profile_namespace = none;
  generation = 0;
}

abbrev unverified : EngineConfig
unverified = record direct { verify = false }

abbrev proxied : EngineConfig
proxied = record direct { proxy = some (codes "http://p:1") }

-- The Core refuses a second user agent beside a profile.
abbrev core : EngineConfig → Build ℕ
core c = elim c.user_agent [
  | none ↦ built c.generation
  | some _ ↦ refused (codes "ProfileConflict")
]

abbrev start : EngineCache ℕ
start = create 2 7

abbrev after : List EngineConfig → EngineCache ℕ → EngineCache ℕ
after [] c = c
after (k ∷ ks) c = after ks (get core 7 k c).1

-- The third configuration pushes out the one that was used longest ago.
lru_order :
    (after (direct ∷ unverified ∷ direct ∷ proxied ∷ []) start).order ≡ direct ∷ proxied ∷ []
unfolding get get_open build_slot store touch remove_first reset_after_fork create evict config_eq
    ℕ_eq Dict.lookup Dict.insert Dict.erase
lru_order = refl

abbrev slot_of : EngineConfig → EngineSlot ℕ
slot_of c = record { engine = c.generation; config = c; mirror = Jar.empty }

abbrev full : EngineCache ℕ
full = after (direct ∷ unverified ∷ []) start

start-IsValid : IsValid start
start-IsValid = create-IsValid 2 7

full-IsValid : IsValid full
full-IsValid =
    (operations-IsValid core 7 unverified _
      (operations-IsValid core 7 direct start start-IsValid).0).0

operations-IsValid_example :
    IsValid (get core 8 proxied full).1
    × IsValid (discard proxied full).1
    × IsValid (clear full)
    × IsValid (close full)
operations-IsValid_example = operations-IsValid core 8 proxied full full-IsValid

abbrev conflicting : EngineConfig
conflicting = record direct { user_agent = some (codes "x") }
