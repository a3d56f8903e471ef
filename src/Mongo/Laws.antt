-- ===== src/Mongo/Laws.antt =====
-- What a transaction leaves behind.
use any_sync_coordinator.Prelude.{◌≡◌, ◌⊎◌, arith}
use any_sync_coordinator.Outcome.{ok, Action}
use any_sync_coordinator.Docs.{World}
use any_sync_coordinator.Mongo.{Mongo, Documented, tx}

module _ {m : Mongo} (law : Documented m) {A : Type 0} (f : Action World A) (w : World) where
  -- A transaction that returns a value has run its body to the same value and kept its writes.
  pub tx-ok : (a : A) → (tx m f w).0 ≡ ok a → ((f w).0 ≡ ok a) × ((tx m f w).1 ≡ (f w).1)
  unfolding tx
  tx-ok a h = ground (arith, law.start_lem w, law.abort_lem w (f w).1, law.commit_lem w (f w).1)

  -- A transaction is all or nothing, whatever its outcome: nothing is written, or the body
  -- succeeded and all of its writes are kept.
  pub tx_atomic : ((tx m f w).1 ≡ w) ⊎ ((a : A) × ((f w).0 ≡ ok a) × ((tx m f w).1 ≡ (f w).1))
  unfolding tx
  tx_atomic = ground (arith, law.start_lem w, law.abort_lem w (f w).1, law.commit_lem w (f w).1)
