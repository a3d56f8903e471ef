-- ===== src/Keys.antt =====
-- What the coordinator uses of any-sync's util/crypto: the interface PubKey.
use any_sync_coordinator.Prelude.{String, Bool, Option, none, some}
use any_sync_coordinator.Outcome.{Result}
use any_sync_coordinator.Docs.{Bytes}

pub record Keys : Type 1 where
  pub PubKey : Type 0
  pub account : PubKey → String
  pub verify : PubKey → Bytes → Bytes → Result Bool
  pub equals : PubKey → PubKey → Bool
  pub unmarshal_public_key : Bytes → Result PubKey

-- `if identity != nil { ... = identity.Account() }`
abbrev pub account_or_empty : (k : Keys) → Option k.PubKey → String
account_or_empty k none = ""
account_or_empty k (some key) = k.account key
