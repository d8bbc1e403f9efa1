-- ===== src/Engine/Config.antt =====
-- `EngineConfig`. Its key is the tuple of all its fields, so a configuration is its own key.
use chrome_client.Base.{ℕ, Option, Bool, Eq}
use chrome_client.Base.Text.{Text}
use native.Mathlib.Decide.{ℕ_discrete}

pub record EngineConfig : Type 0 where
  pub impersonate : Option Text
  pub proxy : Option Text
  pub verify : Bool
  pub ca_pem : Option Text
  pub user_agent : Option Text
  pub accept_language : Option Text
  pub proxy_username : Option Text
  pub proxy_password : Option Text
  pub http_version : Option Text
  pub cache : Bool
  pub profile_namespace : Option Text
  pub generation : ℕ

config_dec : Discrete EngineConfig
config_dec = hlevel ℕ_discrete

-- `__eq__` compares the keys, field by field.
instance unfoldable pub config_eq : Eq EngineConfig
unfolding config_dec ℕ_discrete
config_eq = record { dec = config_dec }
