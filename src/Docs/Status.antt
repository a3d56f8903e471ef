-- ===== src/Docs/Status.antt =====
-- spacestatus.go: SpaceStatusCreated and the others, numbered by iota.
use any_sync_coordinator.Prelude.{ℕ}

abbrev pub created : ℕ
created = 0

abbrev pub deletion_pending : ℕ
deletion_pending = 1

abbrev pub deletion_started : ℕ
deletion_started = 2

abbrev pub deleted : ℕ
deleted = 3
