-- ===== src/SpaceStatus/Creation.antt =====
-- spacestatus/spacestatus.go: NewStatus.
use any_sync_coordinator.Prelude.{
  ℕ, String, Bool, false, none, some, pos, ◌==◌, ◌=ₛ◌, if◌then◌else◌,
}
use any_sync_coordinator.Outcome.{
  space_not_exists, space_is_deleted, account_is_deleted, Result, ok, err, Action, pure, raise,
  raise_if, ◌>>=◌, ◌>>◌,
}
use any_sync_coordinator.Docs.{World, SpaceDoc, StatusEntry}
use any_sync_coordinator.Docs.Status
use any_sync_coordinator.Mongo.{Mongo, tx}
use any_sync_coordinator.Keys.{Keys}
use any_sync_coordinator.SpaceStatus.{
  StatusChange, zero_change, Config, status, account_status_find_tx, set_status_tx, check_limit_tx,
}

-- insertNewSpaceOp: the document of a new space.
unfoldable pub new_space : String → String → ℕ → SpaceDoc
new_space space_id identity space_type = record {
  space_id = space_id;
  identity = identity;
  deletion_payload_type = 0;
  deletion_payload = none;
  deletion_timestamp = pos 0;
  to_be_deleted_timestamp = none;
  status = Status.created;
  type = some space_type;
  is_shareable = false;
}

module _ (k : Keys) (space_id : String) (identity : k.PubKey) where
  -- The change by which a forced request takes an existing space back.
  unfoldable pub force_change : StatusChange k.PubKey
  force_change = record (zero_change {PubKey = k.PubKey}) {
    identity = some identity;
    status = Status.created;
    space_id = space_id;
  }

module _ (m : Mongo) (k : Keys) (space_id : String) (identity : k.PubKey) where
  unfoldable pub insert_space : ℕ → Action World (Unit {0})
  insert_space space_type w =
      elim (m.insert_one SpaceDoc (λ d. d.space_id =ₛ space_id)
        (new_space space_id (k.account identity) space_type) w.spaces) [
          | ok spaces ↦ (ok tt, record w { spaces = spaces })
          | err e ↦ (err e, w)
        ]

  -- The forced change of status: its error is overwritten by the one of checkLimitTx.
  unfoldable pub force_status : ℕ → Action World (Unit {0})
  force_status old w = (ok tt, (set_status_tx m k (force_change k space_id identity) old w).1)

module _ (m : Mongo) (k : Keys) (conf : Config) (space_id : String) (identity : k.PubKey) where
  -- What NewStatus does once it has looked the space up.
  unfoldable pub new_status_from : ℕ → Bool → Result StatusEntry → Action World (Unit {0})
  new_status_from space_type force (ok entry) =
      if entry.status == Status.created
      then pure tt
      else if force
      then (do
        force_status m k space_id identity entry.status
        check_limit_tx m k conf (some identity))
      else raise space_is_deleted
  new_status_from space_type force (err space_not_exists) = do
    insert_space m k space_id identity space_type
    check_limit_tx m k conf (some identity)
  new_status_from space_type force (err e) = raise e

  unfoldable pub new_status_tx : ℕ → Bool → Action World (Unit {0})
  new_status_tx space_type force = do
    pending ← account_status_find_tx m (k.account identity) Status.deletion_pending
    raise_if pending account_is_deleted
    found ← (λ w. (ok (status m space_id w).0, w))
    new_status_from space_type force found

  unfoldable pub new_status : ℕ → Bool → Action World (Unit {0})
  new_status space_type force = tx m (new_status_tx space_type force)
