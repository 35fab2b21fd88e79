-- ===== src/Config.antt =====
-- lib.rs, the configuration that the engine's file gives. Names and addresses are numbers.
use proxyengine.Base.{ℕ, Bool, Option, List}

-- netfcts::utils::Timeouts, as far as the proxy reads it: milliseconds.
pub record Timeouts : Type 0 where
  pub established : Option ℕ

pub data ProxyMode : Type 0 where
  delayed_v0 delayed : ProxyMode

pub record EngineConfig : Type 0 where
  pub timeouts : Option Timeouts
  pub port : ℕ
  pub detailed_records : Option Bool
  pub mode : Option ProxyMode

pub record TargetConfig : Type 0 where
  pub id : ℕ
  pub ip : ℕ
  pub mac : Option ℕ
  pub linux_if : Option ℕ
  pub port : ℕ

pub record Configuration : Type 0 where
  pub targets : List TargetConfig
  pub engine : EngineConfig
  pub test_size : Option ℕ
