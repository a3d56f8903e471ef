-- ===== src/Tests/Deleter.antt =====
-- A run of the deleter after a hundred seconds, when the space of the tests that waits is due.
use any_sync_coordinator.Prelude.{String, ◌≡◌, pos, if◌then◌else◌}
use any_sync_coordinator.Outcome.{ok}
use any_sync_coordinator.Mongo.Memory.{memory, memory-Documented, memory-Reliable}
use any_sync_coordinator.SpaceStatus.AccountLoop.{map_doc}
use any_sync_coordinator.SpaceStatus.Deleter.{delete}
use any_sync_coordinator.SpaceStatus.DeleterSafety.{deleted, is_to_be_deleted}
use any_sync_coordinator.SpaceStatus.DeleterLiveness.{delete-Deletes}
use any_sync_coordinator.SpaceStatus.Keyed.{space_at}
use any_sync_coordinator.Tests.{keys}
use any_sync_coordinator.Tests.Spaces.{pending_notes, pending_notes-IsConsistent}

delete-Deletes_example :
    let run =
      delete memory keys
        (pos 60_000_000_000)
        (pos 100_000_000_000)
        (pos 100_000_000_000)
        pending_notes in
    (run.0 ≡ ok tt)
    × ((j : String)
        → space_at j run.1.spaces
          ≡ map_doc
              (λ d.
                if is_to_be_deleted
                  (pos 60_000_000_000)
                  (pos 100_000_000_000)
                  (pos 100_000_000_000)
                  d
                then deleted d
                else d)
              (space_at j pending_notes.spaces))
delete-Deletes_example =
    delete-Deletes memory-Documented memory-Reliable keys (pos 60_000_000_000) (pos 100_000_000_000)
      (pos 100_000_000_000) pending_notes pending_notes-IsConsistent
