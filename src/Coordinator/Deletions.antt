-- ===== src/Coordinator/Deletions.antt =====
-- coordinator/coordinator.go: the deletion of an account or of a space, and its reversal.
use any_sync_coordinator.Prelude.{ℕ, String, none, some, ℤ, pos}
use any_sync_coordinator.Outcome.{Action, lift, ◌>>=◌}
use any_sync_coordinator.Docs.{Bytes, World, StatusEntry}
use any_sync_coordinator.Docs.Status
use any_sync_coordinator.Mongo.{Mongo}
use any_sync_coordinator.Time
use any_sync_coordinator.Keys.{Keys}
use any_sync_coordinator.Coordinator.{Request, Parts, account_info}
use any_sync_coordinator.SpaceStatus.{PayloadType}
use any_sync_coordinator.SpaceStatus.Change.{change_status}
use any_sync_coordinator.SpaceStatus.Deletion as D

-- The status that StatusChange asks for: a payload asks for a deletion.
abbrev pub requested_status : Bytes → ℕ
requested_status none = Status.created
requested_status (some _) = Status.deletion_pending

module _ (m : Mongo) (k : Keys) (c : Parts k.PubKey) (req : Request k.PubKey) where
  -- AccountDelete
  unfoldable pub delete_account : Bytes → String → Action World ℤ
  delete_account payload payload_id = do
    key ← lift req.pub_key
    peer_id ← lift req.peer_id
    D.account_delete m k c.service req.now (record {
      deletion_payload = payload;
      deletion_payload_id = payload_id;
      account_info = account_info c key peer_id;
    })

  -- AccountRevertDeletion
  unfoldable pub revert_account_deletion : Action World (Unit {0})
  revert_account_deletion = do
    key ← lift req.pub_key
    peer_id ← lift req.peer_id
    D.account_revert_deletion m k (account_info c key peer_id)

  -- SpaceDelete: the duration of the request is multiplied by a minute.
  unfoldable pub delete_space : String → ℤ → Bytes → String → Action World ℤ
  delete_space space_id deletion_duration_secs payload payload_id = do
    key ← lift req.pub_key
    peer_id ← lift req.peer_id
    D.space_delete m k req.now (record {
      deletion_payload = payload;
      deletion_payload_id = payload_id;
      space_id = space_id;
      deletion_period = Time.duration deletion_duration_secs Time.minute;
      account_info = account_info c key peer_id;
    })

  -- StatusChange: the deletion period of the call is not used.
  unfoldable pub status_change : String → PayloadType → Bytes → String → Action World StatusEntry
  status_change space_id payload_type payload payload_id = do
    key ← lift req.pub_key
    peer_id ← lift req.peer_id
    change_status m k c.service req.now (record {
      deletion_payload_type = payload_type;
      deletion_payload = payload;
      deletion_payload_id = payload_id;
      identity = some key;
      deletion_timestamp = pos 0;
      to_be_deleted_timestamp = pos 0;
      status = requested_status payload;
      peer_id = peer_id;
      space_id = space_id;
      network_id = c.node_conf.configuration.network_id;
    })
