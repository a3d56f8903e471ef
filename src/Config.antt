-- ===== src/Config.antt =====
-- config/config.go, db/config.go and inbox/config.go: the configuration file.
use any_sync_coordinator.Prelude.{ℕ, String, ℤ}
use any_sync_coordinator.Outcome.{Result, ok, err}
use any_sync_coordinator.Docs.{Bytes, SpaceLimits}
use any_sync_coordinator.Coordinator.{Configuration}
use any_sync_coordinator.SpaceStatus as S

-- The sections that other libraries read.
pub record Sections : Type 1 where
  pub Account : Type 0
  pub Drpc : Type 0
  pub Metric : Type 0
  pub Yamux : Type 0
  pub Quic : Type 0
  pub Secure : Type 0

-- Mongo of db/config.go
pub record MongoConfig : Type 0 where
  pub connect : String
  pub database : String

-- Config of inbox/config.go
pub record InboxConfig : Type 0 where
  pub coll_name : String
  pub fetch_limit : ℕ

-- Config; its getters hand out its fields.
pub record Config (x : Sections) : Type 0 where
  pub account : x.Account
  pub drpc : x.Drpc
  pub metric : x.Metric
  pub network : Configuration
  pub network_store_path : String
  pub network_update_interval_sec : ℤ
  pub mongo : MongoConfig
  pub space_status : S.Config
  pub inbox : InboxConfig
  pub yamux : x.Yamux
  pub quic : x.Quic
  pub account_limits : SpaceLimits
  pub secure : x.Secure

abbrev parsed : {A : Type 0} → (Bytes → Result A) → Result Bytes → Result A
parsed unmarshal (ok bytes) = unmarshal bytes
parsed unmarshal (err e) = err e

-- NewFromFile, with os.ReadFile and yaml.Unmarshal.
unfoldable pub new_from_file :
    {x : Sections}
    → (String → Result Bytes)
    → (Bytes → Result (Config x))
    → String
    → Result (Config x)
new_from_file read_file unmarshal path = parsed unmarshal (read_file path)
