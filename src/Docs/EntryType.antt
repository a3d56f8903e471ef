-- ===== src/Docs/EntryType.antt =====
-- acleventlog.EventLogEntryType
use any_sync_coordinator.Prelude.{ℕ}

abbrev pub space_receipt : ℕ
space_receipt = 0

abbrev pub space_shared : ℕ
space_shared = 1

abbrev pub space_unshared : ℕ
space_unshared = 2

abbrev pub space_acl_add_record : ℕ
space_acl_add_record = 3
