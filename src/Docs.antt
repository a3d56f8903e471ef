-- ===== src/Docs.antt =====
-- The documents that the coordinator keeps in MongoDB, by the `bson` tags of the source:
-- spacestatus (StatusEntry in spacedeleter.go), deletionlog, acleventlog, accountlimit and
-- coordinatorlog.
pub mod Status
pub mod SpaceType
pub mod EntryType
use any_sync_coordinator.Prelude.{ℕ, String, Bool, Option, none, some, List, ℤ, pos}

-- A []byte; `none` is a nil slice.
abbrev pub Bytes : Type 0
Bytes = Option (List ℕ)

-- primitive.ObjectID: twelve bytes that are compared as one big-endian number.
abbrev pub ObjectId : Type 0
ObjectId = ℕ

-- A document of the collection `spaces`. The two optional fields are those that a query tells
-- apart when they are missing.
pub record SpaceDoc : Type 0 where
  pub space_id : String
  pub identity : String
  pub deletion_payload_type : ℕ
  pub deletion_payload : Bytes
  pub deletion_timestamp : ℤ
  pub to_be_deleted_timestamp : Option ℤ
  pub status : ℕ
  pub type : Option ℕ
  pub is_shareable : Bool

-- The Go struct that such a document is decoded into.
pub record StatusEntry : Type 0 where
  pub space_id : String
  pub identity : String
  pub deletion_payload_type : ℕ
  pub deletion_payload : Bytes
  pub deletion_timestamp : ℤ
  pub to_be_deleted_timestamp : ℤ
  pub status : ℕ
  pub type : ℕ
  pub is_shareable : Bool

abbrev or_zero : Option ℕ → ℕ
or_zero none = 0
or_zero (some n) = n

abbrev or_zero_ℤ : Option ℤ → ℤ
or_zero_ℤ none = pos 0
or_zero_ℤ (some n) = n

-- Decoding leaves a missing field at the zero value of its type.
abbrev pub status_entry : SpaceDoc → StatusEntry
status_entry d = record {
  space_id = d.space_id;
  identity = d.identity;
  deletion_payload_type = d.deletion_payload_type;
  deletion_payload = d.deletion_payload;
  deletion_timestamp = d.deletion_timestamp;
  to_be_deleted_timestamp = or_zero_ℤ d.to_be_deleted_timestamp;
  status = d.status;
  type = or_zero d.type;
  is_shareable = d.is_shareable;
}

-- deletionlog.Status: the numbers of coordinatorproto.DeletionLogRecordStatus.
pub data LogStatus : Type 0 where
  ok remove_prepare remove ownership_change : LogStatus

-- deletionlog.Record
pub record DeletionRecord : Type 0 where
  pub id : ObjectId
  pub space_id : String
  pub file_group : String
  pub status : LogStatus
  pub acl_record_id : String

-- acleventlog.AclEventLogEntry; the entry type is a uint8.
pub record AclEventLogEntry : Type 0 where
  pub id : ObjectId
  pub space_id : String
  pub peer_id : String
  pub owner : String
  pub timestamp : ℤ
  pub entry_type : ℕ
  pub acl_change_id : String

-- accountlimit.SpaceLimits
pub record SpaceLimits : Type 0 where
  pub space_members_read : ℕ
  pub space_members_write : ℕ
  pub shared_spaces_limit : ℕ

-- accountlimit.Limits
pub record Limits : Type 0 where
  pub identity : String
  pub reason : String
  pub file_storage_bytes : ℕ
  pub space_members_read : ℕ
  pub space_members_write : ℕ
  pub shared_spaces_limit : ℕ
  pub updated_time : ℤ

-- coordinatorlog.SpaceReceiptEntry
pub record SpaceReceiptEntry : Type 0 where
  pub signed_space_receipt : Bytes
  pub space_id : String
  pub peer_id : String
  pub identity : String
  pub timestamp : ℤ

-- The collections that the space components share: `spaces`, `deletionLog`, `aclEventLog`,
-- `accountLimit` and `log`.
pub record World : Type 0 where
  pub spaces : List SpaceDoc
  pub deletion_log : List DeletionRecord
  pub acl_event_log : List AclEventLogEntry
  pub account_limits : List Limits
  pub receipts : List SpaceReceiptEntry
