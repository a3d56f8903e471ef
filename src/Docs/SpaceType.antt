-- ===== src/Docs/SpaceType.antt =====
-- spacestatus.go: SpaceType, numbered by iota.
use any_sync_coordinator.Prelude.{ℕ}

abbrev pub personal : ℕ
personal = 0

abbrev pub tech : ℕ
tech = 1

abbrev pub regular : ℕ
regular = 2

abbrev pub chat : ℕ
chat = 3

abbrev pub one_to_one : ℕ
one_to_one = 4
