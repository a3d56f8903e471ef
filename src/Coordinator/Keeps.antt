-- ===== src/Coordinator/Keeps.antt =====
-- The operations of coordinator.go and the invariant of the spaces and of their deletion log.
use any_sync_coordinator.Prelude.{ℕ, String, Bool, false, ◌≡◌, ◌⊎◌, ◌=ₛ◌, ℤ}
use any_sync_coordinator.Outcome.{ok}
use any_sync_coordinator.Docs.{Bytes, Limits, SpaceLimits, StatusEntry}
use any_sync_coordinator.Mongo.{Mongo, Documented, Steady}
use any_sync_coordinator.Keys.{Keys}
use any_sync_coordinator.Coordinator.{Request, Parts}
use any_sync_coordinator.Coordinator.Always.{Always, always_rules}
use any_sync_coordinator.Coordinator.Written.{
  add_log-Always, add_space_receipt-Always, set_limits-Always, status-Always,
  get_limits_by_space-Always, follow_owner-Always,
}
use any_sync_coordinator.Coordinator.Acl.{record_added, acl_add_record}
use any_sync_coordinator.Coordinator.Deletions.{
  delete_account, revert_account_deletion, delete_space, status_change,
}
use any_sync_coordinator.Coordinator.Receipts.{add_coordinator_log, space_sign, account_limits_set}
use any_sync_coordinator.Coordinator.Sharing.{
  share, make_space_shareable, unshare, make_space_unshareable,
}
use any_sync_coordinator.SpaceStatus.{PayloadType}
use any_sync_coordinator.SpaceStatus.{AccountInfo, StatusChange}
use any_sync_coordinator.SpaceStatus.Deletion.{
  AccountDeletion, SpaceDeletion, account_delete, account_revert_deletion, space_delete,
}
use any_sync_coordinator.SpaceStatus.Change.{change_status}
use any_sync_coordinator.SpaceStatus.Creation.{new_status}
use any_sync_coordinator.SpaceStatus.Sharing.{make_shareable, make_unshareable}
use any_sync_coordinator.SpaceStatus.Invariant.{IsConsistent}
use any_sync_coordinator.SpaceStatus.KeepsCreation.{new_status-IsConsistent}
use any_sync_coordinator.SpaceStatus.KeepsDeletion.{
  account_delete-IsConsistent, account_revert_deletion-IsConsistent, space_delete-IsConsistent,
  change_status-IsConsistent,
}
use any_sync_coordinator.SpaceStatus.KeepsUpdates.{
  make_shareable-IsConsistent, make_unshareable-IsConsistent,
}

-- A forced creation needs a driver that is steady.
abbrev pub IsSafe : Mongo → Bool → Type 1
IsSafe m force = (force ≡ false) ⊎ Steady m

module _ {m : Mongo} (law : Documented m) (k : Keys) (c : Parts k.PubKey)
    (req : Request k.PubKey) where
  -- The operations of the space status, as the coordinator calls them.
  account_delete-Always :
      (payload : AccountDeletion k.PubKey)
      → Always IsConsistent (account_delete m k c.service req.now payload)
  account_delete-Always payload = record {
    at = account_delete-IsConsistent law k c.service req.now payload;
  }

  account_revert_deletion-Always :
      (info : AccountInfo k.PubKey) → Always IsConsistent (account_revert_deletion m k info)
  account_revert_deletion-Always info = record {
    at = account_revert_deletion-IsConsistent law k info;
  }

  pub delete_account-Always :
      (payload : Bytes) (id : String) → Always IsConsistent (delete_account m k c req payload id)
  unfolding delete_account
  delete_account-Always payload id = search (always_rules, account_delete-Always)

  pub revert_account_deletion-Always : Always IsConsistent (revert_account_deletion m k c req)
  unfolding revert_account_deletion
  revert_account_deletion-Always = search (always_rules, account_revert_deletion-Always)

  module _ (i : String) (named : (i =ₛ "") ≡ false) where
    space_delete-Always :
        (payload : SpaceDeletion k.PubKey)
        → payload.space_id ≡ i
        → Always IsConsistent (space_delete m k req.now payload)
    space_delete-Always payload h = record {
      at = λ w. space_delete-IsConsistent law k req.now payload w (rw h named);
    }

    change_status-Always :
        (change : StatusChange k.PubKey)
        → change.space_id ≡ i
        → Always IsConsistent (change_status m k c.service req.now change)
    change_status-Always change h = record {
      at = λ w. change_status-IsConsistent law k c.service req.now change w (rw h named);
    }

    new_status-Always :
        (key : k.PubKey) (t : ℕ) (force : Bool)
        → IsSafe m force
        → Always IsConsistent (new_status m k c.service.conf i key t force)
    new_status-Always key t force safe = record {
      at = λ w h. new_status-IsConsistent law k i key c.service.conf named t force w safe h;
    }

    pub delete_space-Always :
        (secs : ℤ) (payload : Bytes) (id : String)
        → Always IsConsistent (delete_space m k c req i secs payload id)
    unfolding delete_space
    delete_space-Always secs payload id = search (always_rules, space_delete-Always)

    pub status_change-Always :
        (t : PayloadType) (payload : Bytes) (id : String)
        → Always IsConsistent (status_change m k c req i t payload id)
    unfolding status_change
    status_change-Always t payload id = search (always_rules, change_status-Always)

    add_coordinator_log-Always :
        (now : ℤ) (peer_id : String) (key : k.PubKey) (r : c.signing.Receipt)
        → Always IsConsistent (add_coordinator_log m k c now i peer_id key r)
    unfolding add_coordinator_log
    add_coordinator_log-Always now peer_id key r =
        search (always_rules, add_space_receipt-Always m now, add_log-Always m)

    -- The log of a receipt, with its error dropped.
    logged_receipt-Always :
        (peer_id : String) (key : k.PubKey) (r : c.signing.Receipt)
        → Always IsConsistent {A = Unit {0}}
            (λ w. (ok tt, (add_coordinator_log m k c req.now i peer_id key r w).1))
    logged_receipt-Always peer_id key r = record {
      at = (add_coordinator_log-Always req.now peer_id key r).at;
    }

    pub space_sign-Always :
        (header : Bytes) (force : Bool)
        → IsSafe m force
        → Always IsConsistent (space_sign m k c req i header force)
    unfolding space_sign
    space_sign-Always header force safe =
        search (always_rules, new_status-Always, logged_receipt-Always) depth 12

  pub account_limits_set-Always :
      (limits : Limits) → Always IsConsistent (account_limits_set m k c req limits)
  unfolding account_limits_set
  account_limits_set-Always limits = search (always_rules, set_limits-Always m)

  make_shareable-Always :
      (i : String) (t limit : ℕ) → Always IsConsistent (make_shareable m i t limit)
  make_shareable-Always i t limit = record { at = make_shareable-IsConsistent law i t limit }

  make_unshareable-Always : (i : String) → Always IsConsistent (make_unshareable m i)
  make_unshareable-Always i = record { at = make_unshareable-IsConsistent law i }

  module _ (i : String) where
    record_added-Always :
        (peer_id : String) (entry : StatusEntry) (raw : c.acl.RawRecord) (limits : SpaceLimits)
        → Always IsConsistent (record_added m k c req i peer_id entry raw limits)
    unfolding record_added
    record_added-Always peer_id entry raw limits =
        search (always_rules, add_log-Always m, follow_owner-Always law i)

    pub acl_add_record-Always :
        (payload : Bytes) → Always IsConsistent (acl_add_record m k c req i payload)
    unfolding acl_add_record
    acl_add_record-Always payload =
        search (always_rules, status-Always m, get_limits_by_space-Always m, record_added-Always)
          depth 12

    pub make_space_shareable-Always : Always IsConsistent (make_space_shareable m k c req i)
    unfolding make_space_shareable share
    make_space_shareable-Always =
        search
          (
            always_rules,
            status-Always m,
            get_limits_by_space-Always m,
            make_shareable-Always,
            add_log-Always m,
          )
          depth 12

    pub make_space_unshareable-Always :
        (head : String) → Always IsConsistent (make_space_unshareable m k c req i head)
    unfolding make_space_unshareable unshare
    make_space_unshareable-Always head =
        search (always_rules, status-Always m, make_unshareable-Always, add_log-Always m) depth 14
