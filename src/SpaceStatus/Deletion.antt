-- ===== src/SpaceStatus/Deletion.antt =====
-- spacestatus/spacestatus.go: AccountDelete, AccountRevertDeletion and SpaceDelete.
use any_sync_coordinator.Prelude.{ℕ, String, not, ◌||◌, some, List, [], ◌∷◌, ℤ, ◌==◌, map}
use any_sync_coordinator.Outcome.{
  unexpected, space_not_exists, account_is_deleted, Result, ok, err, Action, pure, raise_if, lift,
  ◌>>=◌, ◌>>◌,
}
use any_sync_coordinator.Docs.{Bytes, World, SpaceDoc, StatusEntry, status_entry}
use any_sync_coordinator.Docs.Status
use any_sync_coordinator.Docs.SpaceType
use any_sync_coordinator.Mongo.{Mongo, tx}
use any_sync_coordinator.Time
use any_sync_coordinator.Keys.{Keys, account_or_empty}
use any_sync_coordinator.SpaceStatus.{
  StatusChange, zero_change, AccountInfo, Service, PayloadType, find_status, account_status_find_tx,
  get_space_type_tx, set_status_tx,
}

pub record AccountDeletion (PubKey : Type 0) : Type 0 where
  pub deletion_payload : Bytes
  pub deletion_payload_id : String
  pub account_info : AccountInfo PubKey

pub record SpaceDeletion (PubKey : Type 0) : Type 0 where
  pub deletion_payload : Bytes
  pub deletion_payload_id : String
  pub space_id : String
  pub deletion_period : ℤ
  pub account_info : AccountInfo PubKey

-- What AccountDelete hands to the verifier.
abbrev pub account_payload : {PubKey : Type 0} → AccountDeletion PubKey → StatusChange PubKey
account_payload {PubKey} payload = record (zero_change {PubKey = PubKey}) {
  deletion_payload_type = PayloadType.account;
  deletion_payload = payload.deletion_payload;
  deletion_payload_id = payload.deletion_payload_id;
  identity = payload.account_info.identity;
  peer_id = payload.account_info.peer_id;
  network_id = payload.account_info.network_id;
}

-- The error of a find is reported as unexpected.
abbrev found_or_unexpected : {A : Type 0} → Result A → Result A
found_or_unexpected (ok a) = ok a
found_or_unexpected (err e) = err unexpected

-- An error of getSpaceTypeTx is reported as a space that does not exist.
abbrev pub type_or_not_exists : Result ℕ → Result ℕ
type_or_not_exists (ok t) = ok t
type_or_not_exists (err e) = err space_not_exists

module _ (m : Mongo) where
  -- The entries of an account that have a status, by findStatusQuery.
  unfoldable pub find_entries : String → ℕ → Action World (List StatusEntry)
  find_entries identity status w = (
    found_or_unexpected
        (elim (m.find SpaceDoc
          (find_status (record { space_id = ""; status = some status; identity = identity }))
          w.spaces) [ ok docs ↦ ok (map status_entry docs) | err e ↦ err e ]),
    w,
  )

module _ (k : Keys) where
  unfoldable pub account_revert_change : AccountInfo k.PubKey → String → StatusChange k.PubKey
  account_revert_change payload space_id = record (zero_change {PubKey = k.PubKey}) {
    identity = payload.identity;
    peer_id = payload.peer_id;
    network_id = payload.network_id;
    status = Status.created;
    space_id = space_id;
  }

  unfoldable pub space_delete_change : ℤ → SpaceDeletion k.PubKey → StatusChange k.PubKey
  space_delete_change now payload = record {
    deletion_payload_type = PayloadType.confirm;
    deletion_payload = payload.deletion_payload;
    deletion_payload_id = payload.deletion_payload_id;
    identity = payload.account_info.identity;
    deletion_timestamp = Time.unix now;
    to_be_deleted_timestamp = Time.unix (Time.add now payload.deletion_period);
    status = Status.deletion_pending;
    peer_id = payload.account_info.peer_id;
    space_id = payload.space_id;
    network_id = payload.account_info.network_id;
  }

module _ (m : Mongo) (k : Keys) where
  -- The loops over the entries: the change of each space in turn.
  unfoldable pub set_each :
      (String → StatusChange k.PubKey) → ℕ → List StatusEntry → Action World (Unit {0})
  set_each change old [] = pure tt
  set_each change old (e ∷ es) = do
    set_status_tx m k (change e.space_id) old
    set_each change old es

  unfoldable pub account_revert_deletion_tx : AccountInfo k.PubKey → Action World (Unit {0})
  account_revert_deletion_tx payload = do
    let identity = account_or_empty k payload.identity
    found ← account_status_find_tx m identity Status.deletion_pending
    raise_if (not found) unexpected
    spaces ← find_entries m identity Status.deletion_pending
    set_each (account_revert_change k payload) Status.deletion_pending spaces

  unfoldable pub account_revert_deletion : AccountInfo k.PubKey → Action World (Unit {0})
  account_revert_deletion payload = tx m (account_revert_deletion_tx payload)

  unfoldable pub space_delete_tx : ℤ → SpaceDeletion k.PubKey → Action World (Unit {0})
  space_delete_tx now payload = do
    sp_type ← (λ w. (type_or_not_exists (get_space_type_tx m payload.space_id w).0, w))
    raise_if (sp_type == SpaceType.one_to_one || sp_type == SpaceType.tech) unexpected
    set_status_tx m k (space_delete_change k now payload) Status.created
    pure tt

  unfoldable pub space_delete : ℤ → SpaceDeletion k.PubKey → Action World ℤ
  space_delete now payload = do
    tx m (space_delete_tx now payload)
    pure (Time.unix (Time.add now payload.deletion_period))

module _ (k : Keys) (s : Service k.PubKey) where
  unfoldable pub account_delete_change :
      ℤ → AccountDeletion k.PubKey → String → StatusChange k.PubKey
  account_delete_change now payload space_id = record {
    deletion_payload_type = PayloadType.account;
    deletion_payload = payload.deletion_payload;
    deletion_payload_id = payload.deletion_payload_id;
    identity = payload.account_info.identity;
    deletion_timestamp = Time.unix now;
    to_be_deleted_timestamp = Time.unix (Time.add now s.deletion_period);
    status = Status.deletion_pending;
    peer_id = payload.account_info.peer_id;
    space_id = space_id;
    network_id = payload.account_info.network_id;
  }

module _ (m : Mongo) (k : Keys) (s : Service k.PubKey) where
  -- The body of AccountDelete's transaction.
  unfoldable pub account_delete_tx : ℤ → AccountDeletion k.PubKey → Action World (Unit {0})
  account_delete_tx now payload = do
    let identity = account_or_empty k payload.account_info.identity
    found ← account_status_find_tx m identity Status.created
    raise_if (not found) account_is_deleted
    spaces ← find_entries m identity Status.created
    set_each m k (account_delete_change k s now payload) Status.created spaces

  unfoldable pub account_delete : ℤ → AccountDeletion k.PubKey → Action World ℤ
  account_delete now payload = do
    lift (s.verify (account_payload payload))
    tx m (account_delete_tx now payload)
    pure (Time.unix (Time.add now s.deletion_period))
