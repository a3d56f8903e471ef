-- ===== src/Tests/Logs.antt =====
-- The theorems on the two logs, at logs of three records.
use any_sync_coordinator.Prelude.{ℕ, String, [], ◌∷◌, pos}
use any_sync_coordinator.Docs.{World, DeletionRecord, LogStatus, AclEventLogEntry}
use any_sync_coordinator.Docs.EntryType
use any_sync_coordinator.SpaceStatus.Reach.{empty}

abbrev deletion : ℕ → LogStatus → DeletionRecord
deletion i s = record { id = i; space_id = "a"; file_group = "bob"; status = s; acl_record_id = "" }

abbrev event : ℕ → String → AclEventLogEntry
event i owner = record {
  id = i;
  space_id = "a";
  peer_id = "peer";
  owner = owner;
  timestamp = pos 0;
  entry_type = EntryType.space_receipt;
  acl_change_id = "";
}

abbrev pub logs : World
logs = record empty {
  deletion_log =
      deletion 3 LogStatus.remove_prepare
      ∷ deletion 5 LogStatus.ok
      ∷ deletion 9 LogStatus.remove
      ∷ [];
  acl_event_log = event 2 "bob" ∷ event 4 "eve" ∷ event 7 "bob" ∷ [];
}
