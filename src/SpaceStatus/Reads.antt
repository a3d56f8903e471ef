-- ===== src/SpaceStatus/Reads.antt =====
-- The lookups of spacestatus.go: their effect on the collections and what they return.
use any_sync_coordinator.Prelude.{ℕ, String, ◌≡◌, Option, none, some, arith}
use any_sync_coordinator.Outcome.{◌>>=◌}
use any_sync_coordinator.Docs.{World}
use any_sync_coordinator.Mongo.{Mongo}
use any_sync_coordinator.Keys.{Keys}
use any_sync_coordinator.SpaceStatus.{
  Config, status, account_status_find_tx, get_space_type_tx, check_limit_tx,
}

module _ (m : Mongo) (w : World) where
  pub status-same : (i : String) → (status m i w).1 ≡ w
  unfolding status
  status-same i = ground arith

  pub account_status_find_tx-same : (i : String) (s : ℕ) → (account_status_find_tx m i s w).1 ≡ w
  unfolding account_status_find_tx
  account_status_find_tx-same i s = ground arith

  pub get_space_type_tx-same : (i : String) → (get_space_type_tx m i w).1 ≡ w
  unfolding get_space_type_tx ◌>>=◌
  get_space_type_tx-same i = ground arith

  pub check_limit_tx-same :
      (k : Keys) (conf : Config) (i : Option k.PubKey) → (check_limit_tx m k conf i w).1 ≡ w
  unfolding check_limit_tx ◌>>=◌
  check_limit_tx-same k conf none = ground arith
  check_limit_tx-same k conf (some key) = ground arith
