-- ===== src/Coordinator/Receipts.antt =====
-- coordinator/coordinator.go: the receipt that opens a space, its log, and the limits that the
-- payment node sets.
use any_sync_coordinator.Prelude.{
  ℕ, ◌*◌, not, String, Bool, true, false, ◌||◌, List, [], ◌∷◌, ℤ, pos,
}
use any_sync_coordinator.Outcome.{Action, ok, forbidden, lift, pure, raise_if, ◌>>=◌, ◌>>◌}
use any_sync_coordinator.Docs.{Bytes, World, ObjectId, AclEventLogEntry, Limits}
use any_sync_coordinator.Docs.EntryType
use any_sync_coordinator.Mongo.{Mongo}
use any_sync_coordinator.Time
use any_sync_coordinator.Keys.{Keys}
use any_sync_coordinator.AccountLimit.{set_limits}
use any_sync_coordinator.AclEventLog.{add_log}
use any_sync_coordinator.CoordinatorLog.{add_space_receipt}
use any_sync_coordinator.Coordinator.{Request, Parts, NodeType, payment_processing_node}
use any_sync_coordinator.SpaceStatus.Creation.{new_status}
use any_sync_coordinator.SpaceStatus.Verifier.{verify_space_header}

-- spaceReceiptValidPeriod
abbrev pub space_receipt_valid_period : ℤ
space_receipt_valid_period = pos (Time.hour * 6)

abbrev is_payment : NodeType → Bool
is_payment payment_processing_node = true
is_payment _ = false

-- slices.Contains(types, NodeTypePaymentProcessingNode)
unfoldable pub has_payment : List NodeType → Bool
has_payment [] = false
has_payment (t ∷ ts) = is_payment t || has_payment ts

-- The event of a space, without a change of its ACL.
unfoldable pub space_event : String → String → String → ℤ → ℕ → ObjectId → AclEventLogEntry
space_event space_id peer_id owner now entry_type id = record {
  id = id;
  space_id = space_id;
  peer_id = peer_id;
  owner = owner;
  timestamp = Time.unix now;
  entry_type = entry_type;
  acl_change_id = "";
}

module _ (m : Mongo) (k : Keys) (c : Parts k.PubKey) (now : ℤ) where
  -- addCoordinatorLog, with the error that it writes to the log.
  unfoldable pub add_coordinator_log :
      String → String → k.PubKey → c.signing.Receipt → Action World (Unit {0})
  add_coordinator_log space_id peer_id key receipt = do
    marshalled ← lift (c.signing.marshal_receipt receipt)
    add_space_receipt m now (record {
      signed_space_receipt = marshalled;
      space_id = space_id;
      peer_id = peer_id;
      identity = k.account key;
      timestamp = pos 0;
    })
    add_log m (space_event space_id peer_id (k.account key) now EntryType.space_receipt)

module _ (m : Mongo) (k : Keys) (c : Parts k.PubKey) (req : Request k.PubKey) where
  -- SpaceSign
  unfoldable pub space_sign : String → Bytes → Bool → Action World c.signing.Receipt
  space_sign space_id header force = do
    key ← lift req.pub_key
    peer_id ← lift req.peer_id
    lift (c.signing.validate_space_header space_id header key)
    space_type ← lift (verify_space_header k c.payloads key header)
    new_status m k c.service.conf space_id key space_type force
    receipt ← lift (c.signing.prepare_space_receipt space_id peer_id space_receipt_valid_period key)
    (λ w. (ok tt, (add_coordinator_log m k c req.now space_id peer_id key receipt w).1))
    pure receipt

  -- AccountLimitsSet: the fields of its request, with the time left to SetLimits.
  unfoldable pub account_limits_set : Limits → Action World (Unit {0})
  account_limits_set limits = do
    peer_id ← lift req.peer_id
    raise_if (not (has_payment (c.node_conf.node_types peer_id))) forbidden
    set_limits m c.file_peer req.now limits
