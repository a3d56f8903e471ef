-- ===== src/IdentityRepo/Handlers.antt =====
-- identityrepo/rpchandler.go: the calls that clients make to the repository.
use any_sync_coordinator.Prelude.{String, List, ℤ}
use any_sync_coordinator.Outcome.{Result, Action, pure, ◌>>=◌, ◌>>◌}
use any_sync_coordinator.Mongo.{Mongo}
use any_sync_coordinator.Keys.{Keys}
use any_sync_coordinator.IdentityRepo.{Kinds, Entries, Paths, push, pull, delete}

-- identityrepoproto.DataPutRequest
pub record DataPutRequest : Type 0 where
  pub identity : String
  pub data_by_kind : Kinds

-- identityrepoproto.DataDeleteRequest
pub record DataDeleteRequest : Type 0 where
  pub identity : String
  pub kinds : List String

-- identityrepoproto.DataPullRequest
pub record DataPullRequest : Type 0 where
  pub identities : List String
  pub kinds : List String

-- identityrepoproto.DataPullResponse: each identity with its data.
pub record DataPullResponse : Type 0 where
  pub data_by_identity : List (String × Kinds)

module _ (m : Mongo) (paths : Paths) (k : Keys) (pub_key : Result k.PubKey) (now : ℤ) where
  -- DataPut, with okResp
  unfoldable pub data_put : DataPutRequest → Action Entries (Unit {0})
  data_put r = do push m paths k pub_key now r.identity r.data_by_kind; pure tt

  -- DataDelete, with okResp
  unfoldable pub data_delete : DataDeleteRequest → Action Entries (Unit {0})
  data_delete r = do delete m paths k pub_key now r.identity r.kinds; pure tt

  -- DataPull
  unfoldable pub data_pull : DataPullRequest → Action Entries DataPullResponse
  data_pull r = do res ← pull m r.identities r.kinds; pure (record { data_by_identity = res })
