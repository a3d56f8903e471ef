-- ===== src/Tests/Agreement.antt =====
-- A call for many spaces against the calls for each, and what a receipt stands for, at the spaces of
-- Calls.
use any_sync_coordinator.Prelude.{false, ◌≡◌, refl, none}
use any_sync_coordinator.Outcome.{ok, lift, pure, raise_if, ◌>>=◌}
use any_sync_coordinator.Mongo.{tx}
use any_sync_coordinator.Mongo.Memory.{memory, memory-Documented}
use any_sync_coordinator.AclEventLog.{add_log}
use any_sync_coordinator.CoordinatorLog.{add_space_receipt}
use any_sync_coordinator.Coordinator.Receipts.{space_event, space_sign, add_coordinator_log}
use any_sync_coordinator.Coordinator.Signed.{Signed, space_sign-Signed}
use any_sync_coordinator.SpaceStatus.{
  status, find_status, not_found_or_unexpected, account_status_find_tx, tech_account_query,
  check_limit_tx,
}
use any_sync_coordinator.SpaceStatus.Creation.{
  new_status, new_status_tx, new_status_from, insert_space, new_space,
}
use any_sync_coordinator.SpaceStatus.Reach.{empty}
use any_sync_coordinator.SpaceStatus.Verifier.{
  verify_space_header, verify_header_signature, header_space_type,
}
use any_sync_coordinator.Tests.{keys}
use any_sync_coordinator.Tests.Calls.{parts, request}

receipt_issued : (space_sign memory keys parts request "a" none false empty).0 ≡ ok none
unfolding space_sign add_coordinator_log add_space_receipt space_event add_log verify_space_header
    verify_header_signature header_space_type new_status new_status_tx new_status_from insert_space
    new_space account_status_find_tx tech_account_query status find_status not_found_or_unexpected
    check_limit_tx raise_if pure lift tx ◌>>=◌
receipt_issued = refl

space_sign-Signed_example :
    Signed memory-Documented keys parts request "a" refl none none empty
      (space_sign memory keys parts request "a" none false empty).1
space_sign-Signed_example =
    space_sign-Signed memory-Documented keys parts request "a" refl none none empty receipt_issued
