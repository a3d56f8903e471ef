-- ===== src/SpaceStatus.antt =====
-- spacestatus/spacestatus.go: the status of every space, kept in the collection `spaces`. This
-- file has the types, the queries and the single changes that the operations are made of.
pub mod Deletion
pub mod Change
pub mod Creation
pub mod Sharing
pub mod Deleter
pub mod Effect
pub mod Keyed
pub mod Invariant
pub mod Reads
pub mod KeepsDeletion
pub mod KeepsUpdates
pub mod KeepsCreation
pub mod Reach
pub mod Transition
pub mod Accounts
pub mod Limits
pub mod Refusals
pub mod Refused
pub mod Succeeds
pub mod Opened
pub mod SharingLimit
pub mod Unsharing
pub mod VerifierAccepts
pub mod DeleterSafety
pub mod DeleterEntries
pub mod DeleterLiveness
pub mod AccountResults
pub mod SpaceResults
pub mod Logged
pub mod ChangeResults
pub mod AccountLoop
pub mod Verifier
use any_sync_coordinator.Prelude.{
  ℕ, String, Bool, true, false, ◌&&◌, ◌||◌, Option, none, some, List, ℤ, pos, ◌==◌, ◌=ₛ◌, ltb,
  if◌then◌else◌,
}
use any_sync_coordinator.Prelude.Int.{leb_ℤ, ltb_ℤ}
use any_sync_coordinator.Outcome.{
  Err, no_documents, driver, unexpected, space_not_exists, space_is_created, space_is_deleted,
  space_deletion_pending, space_limit_reached, nil_dereference, Result, ok, err, Action, pure,
  raise, lift, raise_if, ◌>>=◌, ◌>>◌,
}
use any_sync_coordinator.Docs.{
  Bytes, World, SpaceDoc, StatusEntry, LogStatus, ok as status_ok, remove_prepare, remove,
}
use any_sync_coordinator.Docs.Status
use any_sync_coordinator.Docs.SpaceType
use any_sync_coordinator.Mongo.{Mongo, tx}
use any_sync_coordinator.Keys.{Keys, account_or_empty}
use any_sync_coordinator.DeletionLog

-- coordinatorproto.DeletionPayloadType: a request can carry a number that has no name.
pub data PayloadType : Type 0 where
  tree confirm account : PayloadType
  unknown : ℕ → PayloadType

abbrev pub payload_type_number : PayloadType → ℕ
payload_type_number tree = 0
payload_type_number confirm = 1
payload_type_number account = 2
payload_type_number (unknown n) = n

pub record Config : Type 0 where
  pub run_seconds : ℤ
  pub deletion_period_days : ℤ
  pub space_limit : ℤ

-- StatusChange; an identity is nil in the deleter's changes.
pub record StatusChange (PubKey : Type 0) : Type 0 where
  pub deletion_payload_type : PayloadType
  pub deletion_payload : Bytes
  pub deletion_payload_id : String
  pub identity : Option PubKey
  pub deletion_timestamp : ℤ
  pub to_be_deleted_timestamp : ℤ
  pub status : ℕ
  pub peer_id : String
  pub space_id : String
  pub network_id : String

-- The change whose fields are at their zero values.
abbrev pub zero_change : {PubKey : Type 0} → StatusChange PubKey
zero_change = record {
  deletion_payload_type = tree;
  deletion_payload = none;
  deletion_payload_id = "";
  identity = none;
  deletion_timestamp = pos 0;
  to_be_deleted_timestamp = pos 0;
  status = Status.created;
  peer_id = "";
  space_id = "";
  network_id = "";
}

pub record AccountInfo (PubKey : Type 0) : Type 0 where
  pub identity : Option PubKey
  pub peer_id : String
  pub network_id : String

-- The service: its configuration, its verifier and its deletion period.
pub record Service (PubKey : Type 0) : Type 0 where
  pub conf : Config
  pub verify : StatusChange PubKey → Result (Unit {0})
  pub deletion_period : ℤ

-- findStatusQuery: a field that is empty or nil is left out of the query.
pub record FindStatusQuery : Type 0 where
  pub space_id : String
  pub status : Option ℕ
  pub identity : String

abbrev pub status_is : Option ℕ → ℕ → Bool
status_is none s = true
status_is (some want) s = s == want

unfoldable pub find_status : FindStatusQuery → SpaceDoc → Bool
find_status q d =
    (q.space_id =ₛ "" || d.space_id =ₛ q.space_id)
    && (status_is q.status d.status && (q.identity =ₛ "" || d.identity =ₛ q.identity))

abbrev pub is_tech_or_missing : Option ℕ → Bool
is_tech_or_missing none = true
is_tech_or_missing (some t) = t == SpaceType.tech

-- newTechAccountQuery
unfoldable pub tech_account_query : String → ℕ → SpaceDoc → Bool
tech_account_query identity status d =
    d.identity =ₛ identity && (is_tech_or_missing d.type && d.status == status)

unfoldable pub not_found_or_unexpected : Err → Err
not_found_or_unexpected no_documents = space_not_exists
not_found_or_unexpected _ = unexpected

unfoldable pub incorrect_status_error : ℕ → Err
incorrect_status_error status =
    if status == Status.created
    then space_is_created
    else if status == Status.deletion_pending
    then space_deletion_pending
    else space_is_deleted

-- modifyStatusOp: the update that a change makes, by its new status.
unfoldable pub modify_status_op : {PubKey : Type 0} → StatusChange PubKey → SpaceDoc → SpaceDoc
modify_status_op c d =
    if c.status == Status.deletion_pending
    then record d {
      status = c.status;
      deletion_payload = c.deletion_payload;
      deletion_payload_type = payload_type_number c.deletion_payload_type;
      deletion_timestamp = c.deletion_timestamp;
      to_be_deleted_timestamp = some c.to_be_deleted_timestamp;
    }
    else if c.status == Status.created
    then record d {
      status = c.status;
      deletion_payload = none;
      deletion_payload_type = 0;
      deletion_timestamp = pos 0;
      to_be_deleted_timestamp = some (pos 0);
    }
    else record d { status = c.status }

-- The status that setStatusTx writes to the deletion log.
unfoldable pub log_status : ℕ → Result LogStatus
log_status status =
    if status == Status.deletion_pending
    then ok remove_prepare
    else if status == Status.created
    then ok status_ok
    else if status == Status.deleted
    then ok remove
    else err unexpected

module _ (k : Keys) where
  -- The query by which modifyStatus finds the document to update.
  unfoldable pub modify_query : StatusChange k.PubKey → ℕ → SpaceDoc → Bool
  modify_query c old_status = find_status (record {
    space_id = c.space_id;
    status = some old_status;
    identity = account_or_empty k c.identity;
  })

module _ (m : Mongo) where
  -- Status
  unfoldable pub status : String → Action World StatusEntry
  status space_id w =
      elim (m.find_one SpaceDoc
        (find_status (record { space_id = space_id; status = none; identity = "" })) w.spaces) [
          | ok d ↦ (m.decode d, w)
          | err e ↦ (err (not_found_or_unexpected e), w)
        ]

  -- accountStatusFindTx: any error counts as not found.
  unfoldable pub account_status_find_tx : String → ℕ → Action World Bool
  account_status_find_tx identity status w =
      elim (m.find_one SpaceDoc (tech_account_query identity status) w.spaces) [
        | ok d ↦ (ok true, w)
        | err e ↦ (ok false, w)
      ]

  -- getSpaceTypeTx
  unfoldable pub get_space_type_tx : String → Action World ℕ
  get_space_type_tx space_id w =
      elim (m.find_one SpaceDoc
        (find_status (record { space_id = space_id; status = none; identity = "" })) w.spaces) [
          | ok d ↦ (do entry ← lift (m.decode d); pure entry.type) w
          | err e ↦ (err e, w)
        ]

  -- The error that modifyStatus returns when its update has found no document.
  abbrev pub wrong_status : Result StatusEntry → Err
  wrong_status (ok cur) = incorrect_status_error cur.status
  wrong_status (err e) = not_found_or_unexpected e

  abbrev decoded : Result StatusEntry → Result StatusEntry
  decoded (ok entry) = ok entry
  decoded (err e) = err unexpected

  -- ChangeOwner
  unfoldable pub change_owner : String → String → Action World (Unit {0})
  change_owner space_id owner_id w =
      elim (m.update_one SpaceDoc (λ d. d.space_id =ₛ space_id)
        (λ d. record d { identity = owner_id }) w.spaces) [
          | ok spaces ↦ (ok tt, record w { spaces = spaces })
          | err e ↦ (err e, w)
        ]

  module _ (k : Keys) where
    unfoldable pub modify_status : StatusChange k.PubKey → ℕ → Action World StatusEntry
    modify_status c old_status w =
        elim (m.find_one_and_update SpaceDoc (modify_query k c old_status) (modify_status_op c)
          w.spaces) [
            | ok (d, spaces) ↦ (decoded (m.decode d), record w { spaces = spaces })
            | err e ↦ (err (wrong_status (status c.space_id w).0), w)
          ]

    unfoldable pub set_status_tx : StatusChange k.PubKey → ℕ → Action World StatusEntry
    set_status_tx c old_status = do
      entry ← modify_status c old_status
      s ← lift (log_status c.status)
      DeletionLog.add m c.space_id entry.identity s
      pure entry

    unfoldable pub set_status : StatusChange k.PubKey → ℕ → Action World StatusEntry
    set_status c old_status = tx m (set_status_tx c old_status)

    -- checkLimitTx. The identity is read only if there is a limit.
    unfoldable pub check_limit_tx : Config → Option k.PubKey → Action World (Unit {0})
    check_limit_tx conf none w =
        if leb_ℤ conf.space_limit (pos 0) then (ok tt, w) else (err nil_dereference, w)
    check_limit_tx conf (some identity) w =
        if leb_ℤ conf.space_limit (pos 0)
        then (ok tt, w)
        else elim (m.count_documents SpaceDoc
            (λ d. d.identity =ₛ k.account identity && d.status == Status.created) w.spaces) [
              | ok n ↦ raise_if (ltb_ℤ conf.space_limit (pos n)) space_limit_reached w
              | err e ↦ (err e, w)
            ]
