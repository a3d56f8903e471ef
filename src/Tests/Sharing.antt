-- ===== src/Tests/Sharing.antt =====
-- A space of bob is taken back from sharing.
use any_sync_coordinator.Prelude.{◌≡◌, refl}
use any_sync_coordinator.Outcome.{ok, lift, pure, raise_if, ◌>>=◌}
use any_sync_coordinator.Mongo.{tx}
use any_sync_coordinator.DeletionLog.{insert}
use any_sync_coordinator.Mongo.Memory.{memory, memory-Documented}
use any_sync_coordinator.AclEventLog.{add_log}
use any_sync_coordinator.SpaceStatus.{status, find_status}
use any_sync_coordinator.SpaceStatus.Sharing.{make_unshareable, make_unshareable_tx, set_shareable}
use any_sync_coordinator.Coordinator.Receipts.{space_event}
use any_sync_coordinator.Coordinator.Sharing.{make_space_unshareable, unshare}
use any_sync_coordinator.Coordinator.Guards.{Guarded, make_space_unshareable-Guarded}
use any_sync_coordinator.Tests.{keys}
use any_sync_coordinator.Tests.Calls.{parts, request, shared_world}

taken_back :
    (make_space_unshareable memory keys parts request "notes" "head" shared_world).0 ≡ ok tt
unfolding make_space_unshareable unshare make_unshareable make_unshareable_tx set_shareable tx
    space_event status find_status insert add_log lift pure raise_if ◌>>=◌
taken_back = refl

make_space_unshareable-Guarded_example :
    Guarded memory-Documented keys parts request "notes" "head" shared_world
      (make_space_unshareable memory keys parts request "notes" "head" shared_world).1
make_space_unshareable-Guarded_example =
    make_space_unshareable-Guarded memory-Documented keys parts request "notes" "head" refl
      shared_world tt taken_back
