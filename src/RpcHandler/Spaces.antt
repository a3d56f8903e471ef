-- ===== src/RpcHandler/Spaces.antt =====
-- coordinator/rpchandler.go: the calls that hand a request to an operation of the coordinator and
-- wrap what it returns in a response, for spaces, accounts and the limits of an account.
use any_sync_coordinator.Prelude.{String, Bool, ℤ}
use any_sync_coordinator.Outcome.{Action, pure, ◌>>=◌, ◌>>◌}
use any_sync_coordinator.Docs.{Bytes, World, Limits}
use any_sync_coordinator.Mongo.{Mongo}
use any_sync_coordinator.Keys.{Keys}
use any_sync_coordinator.Coordinator.{Request, Parts}
use any_sync_coordinator.Coordinator.Deletions.{
  delete_account, revert_account_deletion, delete_space,
}
use any_sync_coordinator.Coordinator.Receipts.{space_sign, account_limits_set}
use any_sync_coordinator.Coordinator.Sharing.{make_space_shareable, make_space_unshareable}

-- coordinatorproto.SpaceDeleteRequest
pub record SpaceDeleteRequest : Type 0 where
  pub space_id : String
  pub deletion_duration : ℤ
  pub deletion_payload : Bytes
  pub deletion_payload_id : String

-- coordinatorproto.AccountDeleteRequest
pub record AccountDeleteRequest : Type 0 where
  pub deletion_payload : Bytes
  pub deletion_payload_id : String

-- coordinatorproto.SpaceSignRequest
pub record SpaceSignRequest : Type 0 where
  pub space_id : String
  pub header : Bytes
  pub force_request : Bool

-- SpaceDeleteResponse and AccountDeleteResponse of coordinatorproto
pub record DeleteResponse : Type 0 where
  pub to_be_deleted_timestamp : ℤ

-- coordinatorproto.SpaceSignResponse
pub record SpaceSignResponse (Receipt : Type 0) : Type 0 where
  pub receipt : Receipt

module _ (m : Mongo) (k : Keys) (c : Parts k.PubKey) (req : Request k.PubKey) where
  -- SpaceDelete
  unfoldable pub handle_space_delete : SpaceDeleteRequest → Action World DeleteResponse
  handle_space_delete r = do
    ts ←
        delete_space m k c req r.space_id r.deletion_duration r.deletion_payload
          r.deletion_payload_id
    pure (record { to_be_deleted_timestamp = ts })

  -- AccountDelete
  unfoldable pub handle_account_delete : AccountDeleteRequest → Action World DeleteResponse
  handle_account_delete r = do
    ts ← delete_account m k c req r.deletion_payload r.deletion_payload_id
    pure (record { to_be_deleted_timestamp = ts })

  -- AccountRevertDeletion, whose response is empty
  unfoldable pub handle_account_revert_deletion : Action World (Unit {0})
  handle_account_revert_deletion = do revert_account_deletion m k c req; pure tt

  -- SpaceSign
  unfoldable pub handle_space_sign :
      SpaceSignRequest → Action World (SpaceSignResponse c.signing.Receipt)
  handle_space_sign r = do
    receipt ← space_sign m k c req r.space_id r.header r.force_request
    pure (record { receipt = receipt })

  -- AccountLimitsSet, whose response is empty
  unfoldable pub handle_account_limits_set : Limits → Action World (Unit {0})
  handle_account_limits_set limits = do account_limits_set m k c req limits; pure tt

  -- SpaceMakeShareable, whose response is empty
  unfoldable pub handle_space_make_shareable : String → Action World (Unit {0})
  handle_space_make_shareable space_id = do make_space_shareable m k c req space_id; pure tt

  -- SpaceMakeUnshareable, whose response is empty
  unfoldable pub handle_space_make_unshareable : String → String → Action World (Unit {0})
  handle_space_make_unshareable space_id acl_head = do
    make_space_unshareable m k c req space_id acl_head
    pure tt
