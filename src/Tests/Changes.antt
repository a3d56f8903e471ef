-- ===== src/Tests/Changes.antt =====
-- A space of bob is deleted, and its deletion asked for by the older call.
use any_sync_coordinator.Prelude.{String, ◌≡◌, ◌⊎◌, refl, none, some, pos}
use any_sync_coordinator.Outcome.{ok, lift, pure, raise_if, ◌>>=◌}
use any_sync_coordinator.Docs.{StatusEntry, status_entry}
use any_sync_coordinator.Docs.Status
use any_sync_coordinator.Docs.SpaceType
use any_sync_coordinator.Mongo.{tx}
use any_sync_coordinator.Mongo.Memory.{memory, memory-Documented}
use any_sync_coordinator.Time
use any_sync_coordinator.DeletionLog.{add, insert}
use any_sync_coordinator.SpaceStatus.{
  StatusChange, zero_change, find_status, log_status, modify_status, modify_status_op, modify_query,
  set_status, set_status_tx, get_space_type_tx,
}
use any_sync_coordinator.SpaceStatus.Change.{timed_change, change_status}
use any_sync_coordinator.SpaceStatus.ChangeResults.{Restored, Pended, change_status-ok}
use any_sync_coordinator.SpaceStatus.Deletion.{
  SpaceDeletion, space_delete_change, space_delete_tx, space_delete,
}
use any_sync_coordinator.SpaceStatus.SpaceResults.{SpacePending, space_delete-ok}
use any_sync_coordinator.Tests.{keys, service, space, three_spaces, three_spaces-IsConsistent}

abbrev deletion : SpaceDeletion String
deletion = record {
  deletion_payload = none;
  deletion_payload_id = "payload";
  space_id = "notes";
  deletion_period = pos 60_000_000_000;
  account_info = record { identity = some "bob"; peer_id = "peer"; network_id = "net" };
}

space_deleted : (space_delete memory keys (pos 5_000_000_000) deletion three_spaces).0 ≡ ok (pos 65)
unfolding space_delete space_delete_tx space_delete_change get_space_type_tx set_status_tx
    modify_status modify_query find_status log_status add insert raise_if pure lift tx ◌>>=◌
    Time.unix Time.add
space_deleted = refl

space_delete-ok_example :
    (pos 65 ≡ Time.unix (Time.add (pos 5_000_000_000) (pos 60_000_000_000)))
    × SpacePending memory-Documented keys
        (pos 5_000_000_000)
        deletion
        three_spaces
        (space_delete memory keys (pos 5_000_000_000) deletion three_spaces).1
space_delete-ok_example =
    space_delete-ok memory-Documented keys (pos 5_000_000_000) deletion refl three_spaces (pos 65)
      three_spaces-IsConsistent space_deleted

-- The change that StatusChange makes of a request with a payload.
abbrev asked : StatusChange String
asked = record (zero_change {PubKey = String}) {
  identity = some "bob";
  status = Status.deletion_pending;
  peer_id = "peer";
  space_id = "notes";
}

abbrev asked_entry : StatusEntry
asked_entry = status_entry (
    modify_status_op (timed_change memory keys service (pos 5_000_000_000) asked)
      (space "notes" "bob" SpaceType.regular))

change_asked :
    (change_status memory keys service (pos 5_000_000_000) asked three_spaces).0 ≡ ok asked_entry
unfolding change_status timed_change set_status set_status_tx modify_status modify_status_op
    modify_query find_status log_status add insert pure lift tx ◌>>=◌
change_asked = refl

change_status-ok_example :
    Restored memory-Documented keys service
      (pos 5_000_000_000)
      asked
      refl
      asked_entry
      three_spaces
      (change_status memory keys service (pos 5_000_000_000) asked three_spaces).1
    ⊎ Pended memory-Documented keys service
        (pos 5_000_000_000)
        asked
        refl
        asked_entry
        three_spaces
        (change_status memory keys service (pos 5_000_000_000) asked three_spaces).1
change_status-ok_example =
    change_status-ok memory-Documented keys service (pos 5_000_000_000) asked refl asked_entry
      three_spaces three_spaces-IsConsistent change_asked
