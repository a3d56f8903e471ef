-- ===== src/CoordinatorLog.antt =====
-- coordinatorlog/coordinatorlog.go: the log of the receipts that the coordinator has signed.
use any_sync_coordinator.Prelude.{ℤ, false}
use any_sync_coordinator.Outcome.{ok, err, Action}
use any_sync_coordinator.Docs.{World, SpaceReceiptEntry}
use any_sync_coordinator.Mongo.{Mongo}
use any_sync_coordinator.Time

module _ (m : Mongo) where
  -- SpaceReceipt. The collection gives every entry an `_id` of its own.
  unfoldable pub add_space_receipt : ℤ → SpaceReceiptEntry → Action World (Unit {0})
  add_space_receipt now entry w =
      elim (m.insert_one SpaceReceiptEntry (λ d. false) (record entry { timestamp = Time.unix now })
        w.receipts) [ ok receipts ↦ (ok tt, record w { receipts = receipts }) | err e ↦ (err e, w) ]
