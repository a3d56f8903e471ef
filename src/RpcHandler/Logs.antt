-- ===== src/RpcHandler/Logs.antt =====
-- coordinator/rpchandler.go: DeletionLog and AclEventLog, which serve the two logs to the nodes
-- of the network.
use any_sync_coordinator.Prelude.{
  ℕ, ◌/◌, ◌^◌, String, Bool, true, false, List, [], ◌∷◌, ◌==◌, map, if◌then◌else◌,
}
use any_sync_coordinator.Outcome.{
  forbidden, text, Action, Result, ok, err, lift, pure, raise_if, ◌>>=◌, ◌>>◌,
}
use any_sync_coordinator.Docs.{World, ObjectId, DeletionRecord, LogStatus, AclEventLogEntry}
use any_sync_coordinator.Docs.EntryType
use any_sync_coordinator.Mongo.{Mongo}
use any_sync_coordinator.Keys.{Keys}
use any_sync_coordinator.Coordinator.{Request, Parts, NodeType}
use any_sync_coordinator.DeletionLog
use any_sync_coordinator.AclEventLog

-- The time in an ObjectID: its first four of twelve bytes.
abbrev pub id_timestamp : ObjectId → ℕ
id_timestamp i = i / 2 ^ 64

-- coordinatorproto.DeletionLogRecord
pub record ApiRecord : Type 0 where
  pub id : String
  pub space_id : String
  pub file_group : String
  pub status : LogStatus
  pub acl_record_id : String
  pub timestamp : ℕ

-- coordinatorproto.AclEventLogRecordType
pub data RecordType : Type 0 where
  space_receipt space_shared space_unshared space_acl_add_record : RecordType

-- coordinatorproto.AclEventLogRecord
pub record ApiEvent : Type 0 where
  pub id : String
  pub space_id : String
  pub timestamp : ℕ
  pub type : RecordType
  pub acl_change_id : String

-- entryTypeToRecordType
unfoldable pub entry_type_to_record_type : ℕ → Result RecordType
entry_type_to_record_type et =
    if et == EntryType.space_receipt
    then ok space_receipt
    else if et == EntryType.space_shared
    then ok space_shared
    else if et == EntryType.space_unshared
    then ok space_unshared
    else if et == EntryType.space_acl_add_record
    then ok space_acl_add_record
    else err (text "unknown event log entry type")

abbrev has_no_types : List NodeType → Bool
has_no_types [] = true
has_no_types (_ ∷ _) = false

module _ (m : Mongo) where
  abbrev pub api_record : DeletionRecord → ApiRecord
  api_record r = record {
    id = m.hex r.id;
    space_id = r.space_id;
    file_group = r.file_group;
    status = r.status;
    acl_record_id = r.acl_record_id;
    timestamp = id_timestamp r.id;
  }

  abbrev api_event : AclEventLogEntry → RecordType → ApiEvent
  api_event e t = record {
    id = m.hex e.id;
    space_id = e.space_id;
    timestamp = id_timestamp e.id;
    type = t;
    acl_change_id = if e.entry_type == EntryType.space_acl_add_record then e.acl_change_id else "";
  }

  -- An event of an unknown type is skipped.
  abbrev with_event : AclEventLogEntry → Result RecordType → List ApiEvent → List ApiEvent
  with_event e (ok t) l = api_event e t ∷ l
  with_event e (err _) l = l

  -- The loop of AclEventLog.
  unfoldable pub api_events : List AclEventLogEntry → List ApiEvent
  api_events [] = []
  api_events (e ∷ es) = with_event e (entry_type_to_record_type e.entry_type) (api_events es)

  module _ (k : Keys) (c : Parts k.PubKey) (req : Request k.PubKey) where
    -- Only a node of the network may read the logs.
    unfoldable pub node_only : Action World (Unit {0})
    node_only = do
      peer_id ← lift req.peer_id
      raise_if (has_no_types (c.node_conf.node_types peer_id)) forbidden

    -- DeletionLog
    unfoldable pub read_deletion_log : String → ℕ → Action World (List ApiRecord × Bool)
    read_deletion_log after_id limit = do
      node_only
      page ← DeletionLog.get_after m after_id limit
      pure (map api_record page.0, page.1)

    -- AclEventLog
    unfoldable pub read_acl_event_log : String → String → ℕ → Action World (List ApiEvent × Bool)
    read_acl_event_log account_identity after_id limit = do
      node_only
      page ← AclEventLog.get_after m account_identity after_id limit
      pure (api_events page.0, page.1)
