-- ===== src/Coordinator/Acl.antt =====
-- coordinator/coordinator.go: the records of a space's ACL, and the change of owner that a record
-- can bring.
use any_sync_coordinator.Prelude.{String, not, List, ◌==◌, ◌=ₛ◌, if◌then◌else◌}
use any_sync_coordinator.Outcome.{
  acl_limit_exceed, space_limit_reached, space_is_deleted, space_not_shareable, Action, Result, ok,
  err, lift, pure, raise_if, ◌>>=◌, ◌>>◌,
}
use any_sync_coordinator.Docs.{Bytes, World, StatusEntry, SpaceLimits, AclEventLogEntry, ObjectId}
use any_sync_coordinator.Docs.Status
use any_sync_coordinator.Docs.EntryType
use any_sync_coordinator.Mongo.{Mongo}
use any_sync_coordinator.Keys.{Keys}
use any_sync_coordinator.AccountLimit.{get_limits_by_space}
use any_sync_coordinator.AclEventLog.{add_log}
use any_sync_coordinator.DeletionLog.{add_ownership_change}
use any_sync_coordinator.Coordinator.{Request, Parts, RawRecordWithId}
use any_sync_coordinator.Coordinator.Receipts.{space_event}
use any_sync_coordinator.SpaceStatus.{status, change_owner}

-- The error of acl.AddRecord as AclAddRecord returns it.
abbrev pub limit_reached : {A : Type 0} → Result A → Result A
limit_reached (ok a) = ok a
limit_reached (err acl_limit_exceed) = err space_limit_reached
limit_reached (err e) = err e

module _ (m : Mongo) (space_id : String) where
  -- The owner that the ACL names is written to the space and to the deletion log.
  unfoldable pub follow_owner : String → String → String → Action World (Unit {0})
  follow_owner owner old_owner record_id =
      if not (owner =ₛ old_owner)
      then (do
        change_owner m space_id owner
        add_ownership_change m space_id old_owner record_id
        pure tt)
      else pure tt

module _ (m : Mongo) (k : Keys) (c : Parts k.PubKey) (req : Request k.PubKey)
    (space_id : String) where
  unfoldable pub acl_event : String → StatusEntry → RawRecordWithId → ObjectId → AclEventLogEntry
  acl_event peer_id entry rec id =
      record (space_event space_id peer_id entry.identity req.now EntryType.space_acl_add_record
        id) { acl_change_id = rec.id }

  -- The part of AclAddRecord that follows its checks.
  unfoldable pub record_added :
      String → StatusEntry → c.acl.RawRecord → SpaceLimits → Action World RawRecordWithId
  record_added peer_id entry raw limits = do
    rec ← lift (
        limit_reached (
          c.acl.add_record space_id raw (record {
            read_members = limits.space_members_read;
            write_members = limits.space_members_write;
          })))
    add_log m (acl_event peer_id entry rec)
    owner ← lift (c.acl.owner_pub_key space_id)
    follow_owner m space_id (k.account owner) entry.identity rec.id
    pure rec

  -- AclAddRecord
  unfoldable pub acl_add_record : Bytes → Action World RawRecordWithId
  acl_add_record payload = do
    peer_id ← lift req.peer_id
    raw ← lift (c.acl.unmarshal_raw_record payload)
    entry ← status m space_id
    raise_if (not (entry.status == Status.created)) space_is_deleted
    raise_if (not entry.is_shareable) space_not_shareable
    limits ← get_limits_by_space m c.default_limits req.now space_id
    record_added peer_id entry raw limits

  -- AclGetRecords
  unfoldable pub acl_get_records : String → Action World (List RawRecordWithId)
  acl_get_records acl_head = do
    entry ← status m space_id
    raise_if (not (entry.status == Status.created)) space_is_deleted
    lift (c.acl.records_after space_id acl_head)
