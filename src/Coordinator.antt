-- ===== src/Coordinator.antt =====
-- coordinator/coordinator.go: the operations behind the coordinator's calls. This file has what
-- a request carries and what the services of any-sync answer to it.
pub mod Deletions
pub mod Receipts
pub mod Acl
pub mod Sharing
pub mod Always
pub mod Written
pub mod Handover
pub mod MemberLimits
pub mod Accepted
pub mod Guards
pub mod Signed
pub mod Keeps
use any_sync_coordinator.Prelude.{ℕ, String, Bool, Option, some, List, ℤ}
use any_sync_coordinator.Prelude.Int.{◌*ℤ◌}
use any_sync_coordinator.Outcome.{Err, Result, Action}
use any_sync_coordinator.Docs.{Bytes, World, SpaceLimits, StatusEntry}
use any_sync_coordinator.Mongo.{Mongo}
use any_sync_coordinator.Time
use any_sync_coordinator.AccountLimit.{FilePeer}
use any_sync_coordinator.SpaceStatus.{AccountInfo, Service, status}
use any_sync_coordinator.SpaceStatus.Change.{days}
use any_sync_coordinator.SpaceStatus.Verifier.{Payloads}

-- nodeconf.NodeType
pub data NodeType : Type 0 where
  tree consensus file coordinator naming_node payment_processing_node : NodeType
  other : String → NodeType

pub record Node : Type 0 where
  pub peer_id : String
  pub addresses : List String
  pub types : List NodeType

-- nodeconf.Configuration
pub record Configuration : Type 0 where
  pub id : String
  pub network_id : String
  pub nodes : List Node
  pub creation_time : ℤ

pub record NodeConf : Type 0 where
  pub configuration : Configuration
  pub node_types : String → List NodeType

-- What the context of a request says of the peer, and the time at which the request is handled.
pub record Request (PubKey : Type 0) : Type 0 where
  pub pub_key : Result PubKey
  pub peer_id : Result String
  pub now : ℤ

-- consensusproto.RawRecordWithId
pub record RawRecordWithId : Type 0 where
  pub id : String
  pub payload : Bytes

-- acl.Limits
pub record AclLimits : Type 0 where
  pub read_members : ℕ
  pub write_members : ℕ

-- The answers of any-sync's ACL service in the course of one request. `is_acl_empty` is the
-- emptiness of the state that ReadState hands to its callback.
pub record AclService (PubKey : Type 0) : Type 1 where
  pub RawRecord : Type 0
  pub unmarshal_raw_record : Bytes → Result RawRecord
  pub marshal_record : RawRecordWithId → Result Bytes
  pub add_record : String → RawRecord → AclLimits → Result RawRecordWithId
  pub owner_pub_key : String → Result PubKey
  pub records_after : String → String → Result (List RawRecordWithId)
  pub has_record : String → String → Result Bool
  pub is_acl_empty : String → Result Bool

-- coordinatorproto.PrepareSpaceReceipt by space, peer, period of validity and account; the
-- receipt's encoding; and any-sync's ValidateSpaceHeader by id, header and identity.
pub record Signing (PubKey : Type 0) : Type 1 where
  pub Receipt : Type 0
  pub prepare_space_receipt : String → String → ℤ → PubKey → Result Receipt
  pub marshal_receipt : Receipt → Result Bytes
  pub validate_space_header : String → Bytes → PubKey → Result (Unit {0})

-- The parts of the coordinator that a request does not change.
pub record Parts (PubKey : Type 0) : Type 1 where
  pub node_conf : NodeConf
  pub service : Service PubKey
  pub payloads : Payloads PubKey
  pub acl : AclService PubKey
  pub signing : Signing PubKey
  pub default_limits : SpaceLimits
  pub file_peer : FilePeer

abbrev pub account_info : {PubKey : Type 0} → Parts PubKey → PubKey → String → AccountInfo PubKey
account_info c key peer_id = record {
  identity = some key;
  peer_id = peer_id;
  network_id = c.node_conf.configuration.network_id;
}

-- The deletion period that Init computes from the configuration.
unfoldable pub deletion_period : {PubKey : Type 0} → Parts PubKey → ℤ
deletion_period c = days c.service.conf.deletion_period_days
