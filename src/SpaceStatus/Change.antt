-- ===== src/SpaceStatus/Change.antt =====
-- spacestatus/spacestatus.go: ChangeStatus and Init.
use any_sync_coordinator.Prelude.{ℤ, ◌==◌, if◌then◌else◌}
use any_sync_coordinator.Prelude.Int.{◌*ℤ◌}
use any_sync_coordinator.Outcome.{
  unexpected, Result, ok, err, Action, pure, raise, lift, ◌>>=◌, ◌>>◌,
}
use any_sync_coordinator.Docs.{World, StatusEntry}
use any_sync_coordinator.Docs.Status
use any_sync_coordinator.Mongo.{Mongo, tx}
use any_sync_coordinator.Time
use any_sync_coordinator.Keys.{Keys}
use any_sync_coordinator.SpaceStatus.Verifier.{Payloads, verify_change}
use any_sync_coordinator.SpaceStatus.{
  StatusChange, Config, Service, set_status, set_status_tx, check_limit_tx,
}

-- `time.Duration(days*24) * time.Hour`, with int64 arithmetic throughout.
unfoldable pub days : ℤ → ℤ
unfolding Time.duration ◌*ℤ◌
days n = Time.duration (Time.wrap_int64 (n *ℤ 24)) Time.hour

-- Init: the configuration, the verifier of changes, and the deletion period.
abbrev pub init : (k : Keys) → Payloads k.PubKey → Config → Service k.PubKey
init k payloads conf = record {
  conf = conf;
  verify = verify_change k payloads;
  deletion_period = days conf.deletion_period_days;
}

module _ (m : Mongo) (k : Keys) (s : Service k.PubKey) where
  -- The body of the transaction that takes a deletion back.
  unfoldable pub restore_tx : StatusChange k.PubKey → Action World StatusEntry
  restore_tx change = do
    entry ← set_status_tx m k change Status.deletion_pending
    check_limit_tx m k s.conf change.identity
    pure entry

  unfoldable pub timed_change : ℤ → StatusChange k.PubKey → StatusChange k.PubKey
  timed_change now change = record change {
    deletion_timestamp = Time.unix now;
    to_be_deleted_timestamp = Time.unix (Time.add now s.deletion_period);
  }

  abbrev pub verified_or_unexpected : Result (Unit {0}) → Result (Unit {0})
  verified_or_unexpected (ok v) = ok v
  verified_or_unexpected (err e) = err unexpected

  unfoldable pub change_status : ℤ → StatusChange k.PubKey → Action World StatusEntry
  change_status now change =
      if change.status == Status.created
      then tx m (restore_tx change)
      else if change.status == Status.deletion_pending
      then (do
        lift (verified_or_unexpected (s.verify (timed_change now change)))
        set_status m k (timed_change now change) Status.created)
      else raise unexpected
