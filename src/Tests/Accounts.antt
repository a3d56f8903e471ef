-- ===== src/Tests/Accounts.antt =====
-- The theorems on accounts, at the three spaces of the tests.
use any_sync_coordinator.Prelude.{String, ◌≡◌, refl, none, some, ◌||◌, ℤ, pos, first, if◌then◌else◌}
use any_sync_coordinator.Outcome.{ok, lift, pure, ◌>>=◌}
use any_sync_coordinator.Docs.{World, SpaceDoc}
use any_sync_coordinator.Docs.Status
use any_sync_coordinator.Mongo.{tx}
use any_sync_coordinator.Mongo.Memory.{memory, memory-Documented}
use any_sync_coordinator.Time
use any_sync_coordinator.SpaceStatus.{
  log_status, modify_status, modify_status_op, modify_query, find_status, set_status_tx,
  tech_account_query, account_status_find_tx,
}
use any_sync_coordinator.SpaceStatus.Accounts.{owned, Updates}
use any_sync_coordinator.SpaceStatus.AccountLoop.{map_doc}
use any_sync_coordinator.SpaceStatus.AccountResults.{
  pending, restored, account_delete-ok, account_revert_deletion-ok, revert-delete,
}
use any_sync_coordinator.SpaceStatus.Deletion.{
  AccountDeletion, account_payload, account_delete, account_delete_tx, account_delete_change,
  account_revert_deletion, account_revert_deletion_tx, account_revert_change, find_entries,
  set_each,
}
use any_sync_coordinator.SpaceStatus.Invariant.{IsConsistent}
use any_sync_coordinator.SpaceStatus.KeepsDeletion.{account_delete-IsConsistent}
use any_sync_coordinator.SpaceStatus.Keyed.{space_at}
use any_sync_coordinator.DeletionLog.{add, insert}
use any_sync_coordinator.Tests.{keys, service, bob, three_spaces, three_spaces-IsConsistent}

abbrev payload : AccountDeletion String
payload = record { deletion_payload = none; deletion_payload_id = "p"; account_info = bob }

abbrev now : ℤ
now = pos 5_000_000_000

deleted_at : (account_delete memory keys service now payload three_spaces).0 ≡ ok (pos 65)
unfolding account_delete account_delete_tx account_delete_change find_entries set_each set_status_tx
    log_status modify_status modify_status_op modify_query find_status tech_account_query
    account_status_find_tx add insert tx lift pure ◌>>=◌ Time.unix Time.add
deleted_at = refl

abbrev after_deletion : World
after_deletion = (account_delete memory keys service now payload three_spaces).1

after_deletion-IsConsistent : IsConsistent after_deletion
after_deletion-IsConsistent =
    account_delete-IsConsistent memory-Documented keys service now payload three_spaces
      three_spaces-IsConsistent

reverted : (account_revert_deletion memory keys bob after_deletion).0 ≡ ok tt
unfolding account_delete account_delete_tx account_delete_change find_entries set_each set_status_tx
    log_status modify_status modify_status_op modify_query find_status tech_account_query
    account_status_find_tx add insert tx lift pure ◌>>=◌ Time.unix Time.add account_revert_deletion
    account_revert_deletion_tx account_revert_change
reverted = refl

account_delete-ok_example :
    (service.verify (account_payload payload) ≡ ok tt)
    × (pos 65 ≡ Time.unix (Time.add now service.deletion_period))
    × ((d : SpaceDoc) × (first (tech_account_query "bob" Status.created) three_spaces.spaces
          ≡ some d))
    × Updates "bob" Status.created (pending service now payload) three_spaces after_deletion
account_delete-ok_example =
    account_delete-ok memory-Documented keys service now payload three_spaces (pos 65) refl
      three_spaces-IsConsistent deleted_at

account_revert_deletion-ok_example :
    ((d : SpaceDoc) × (first
          (tech_account_query "bob" Status.deletion_pending)
          after_deletion.spaces
        ≡ some d))
    × Updates "bob" Status.deletion_pending restored after_deletion
        (account_revert_deletion memory keys bob after_deletion).1
account_revert_deletion-ok_example =
    account_revert_deletion-ok memory-Documented keys bob after_deletion tt refl
      after_deletion-IsConsistent reverted

revert-delete_example :
    space_at "notes" (account_revert_deletion memory keys bob after_deletion).1.spaces
    ≡ map_doc
        (λ d.
          if owned "bob" Status.created d || owned "bob" Status.deletion_pending d
          then restored d
          else d)
        (space_at "notes" three_spaces.spaces)
revert-delete_example =
    revert-delete memory-Documented memory-Documented keys service now payload three_spaces (pos 65)
      tt refl three_spaces-IsConsistent deleted_at reverted "notes"
