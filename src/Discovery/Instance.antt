-- ===== src/Discovery/Instance.antt =====
-- klauthed-discovery/src/instance.rs. `new` and `base_url`, which format texts, are left out.
use rust_libraries.Prelude.{ℕ, String, Bool, string_eq}
use rust_libraries.Prelude.Map.{Map, insert}

pub record ServiceInstance : Type 0 where
  pub service_name : String
  pub instance_id : String
  pub host : String
  pub port : ℕ
  pub secure : Bool
  pub metadata : Map String String

unfoldable pub with_instance_id : ServiceInstance → String → ServiceInstance
with_instance_id i id = record i { instance_id = id }

unfoldable pub with_secure : ServiceInstance → Bool → ServiceInstance
with_secure i secure = record i { secure = secure }

unfoldable pub with_metadata : ServiceInstance → String → String → ServiceInstance
with_metadata i key value = record i { metadata = insert key value i.metadata }
