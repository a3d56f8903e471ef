-- ===== src/SpaceStatus/Reach.antt =====
-- All histories of the space collections: any sequence of the operations of spacestatus, in any
-- order, each with any outcome.
use any_sync_coordinator.Prelude.{
  ℕ, String, Bool, false, ◌≡◌, ◌⊎◌, sym, subst, ◌=ₛ◌, some, [], ℤ, refl,
}
use any_sync_coordinator.Outcome.{ok}
use any_sync_coordinator.Docs.{World, SpaceDoc}
use any_sync_coordinator.Mongo.{Mongo, Documented, Steady}
use any_sync_coordinator.Keys.{Keys}
use any_sync_coordinator.SpaceStatus.{StatusChange, AccountInfo, Service, log_status, change_owner}
use any_sync_coordinator.SpaceStatus.Deletion.{
  AccountDeletion, SpaceDeletion, account_delete, account_revert_deletion, space_delete,
}
use any_sync_coordinator.SpaceStatus.Change.{change_status}
use any_sync_coordinator.SpaceStatus.Creation.{new_status}
use any_sync_coordinator.SpaceStatus.Sharing.{make_shareable, make_unshareable}
use any_sync_coordinator.SpaceStatus.Deleter.{delete}
use any_sync_coordinator.SpaceStatus.Invariant.{IsConsistent, followed, shown}
use any_sync_coordinator.SpaceStatus.Keyed.{space_at}
use any_sync_coordinator.SpaceStatus.KeepsDeletion.{
  account_delete-IsConsistent, account_revert_deletion-IsConsistent, space_delete-IsConsistent,
  change_status-IsConsistent,
}
use any_sync_coordinator.SpaceStatus.KeepsUpdates.{
  make_shareable-IsConsistent, make_unshareable-IsConsistent, change_owner-IsConsistent,
  delete-IsConsistent,
}
use any_sync_coordinator.SpaceStatus.KeepsCreation.{new_status-IsConsistent}

-- One operation, with any arguments. Space ids in requests are not empty, and a forced creation
-- meets a driver that is steady.
pub data Step (m : Mongo) (k : Keys) (s : Service k.PubKey) (w w' : World) : Type 1 where
  create :
      (i : String) (key : k.PubKey) (t : ℕ) (force : Bool)
      → (i =ₛ "") ≡ false
      → (force ≡ false) ⊎ Steady m
      → w' ≡ (new_status m k s.conf i key t force w).1
      → Step m k s w w'
  change :
      (now : ℤ) (c : StatusChange k.PubKey)
      → (c.space_id =ₛ "") ≡ false
      → w' ≡ (change_status m k s now c w).1
      → Step m k s w w'
  delete_space :
      (now : ℤ) (p : SpaceDeletion k.PubKey)
      → (p.space_id =ₛ "") ≡ false
      → w' ≡ (space_delete m k now p w).1
      → Step m k s w w'
  delete_account :
      (now : ℤ) (p : AccountDeletion k.PubKey)
      → w' ≡ (account_delete m k s now p w).1
      → Step m k s w w'
  revert_account :
      (p : AccountInfo k.PubKey) → w' ≡ (account_revert_deletion m k p w).1 → Step m k s w w'
  share : (i : String) (t limit : ℕ) → w' ≡ (make_shareable m i t limit w).1 → Step m k s w w'
  unshare : (i : String) → w' ≡ (make_unshareable m i w).1 → Step m k s w w'
  move_owner : (i o : String) → w' ≡ (change_owner m i o w).1 → Step m k s w w'
  run_deleter : (now now' : ℤ) → w' ≡ (delete m k s.deletion_period now now' w).1 → Step m k s w w'

-- Each operation of a history meets a driver of its own, so any call of any operation may fail.
pub data Reach (k : Keys) (s : Service k.PubKey) (w : World) : World → Type 1 where
  here : Reach k s w w
  next : {u v : World} (m : Mongo) → Documented m → Reach k s w u → Step m k s u v → Reach k s w v

module _ {m : Mongo} (law : Documented m) (k : Keys) (s : Service k.PubKey) where
  -- Every operation keeps the invariant.
  pub Step-IsConsistent : {w w' : World} → Step m k s w w' → IsConsistent w → IsConsistent w'
  Step-IsConsistent {w} (create i key t force named safe e) h =
      subst IsConsistent (sym e) (new_status-IsConsistent law k i key s.conf named t force w safe h)
  Step-IsConsistent {w} (change now c named e) h =
      subst IsConsistent (sym e) (change_status-IsConsistent law k s now c w named h)
  Step-IsConsistent {w} (delete_space now p named e) h =
      subst IsConsistent (sym e) (space_delete-IsConsistent law k now p w named h)
  Step-IsConsistent {w} (delete_account now p e) h =
      subst IsConsistent (sym e) (account_delete-IsConsistent law k s now p w h)
  Step-IsConsistent {w} (revert_account p e) h =
      subst IsConsistent (sym e) (account_revert_deletion-IsConsistent law k p w h)
  Step-IsConsistent {w} (share i t limit e) h =
      subst IsConsistent (sym e) (make_shareable-IsConsistent law i t limit w h)
  Step-IsConsistent {w} (unshare i e) h =
      subst IsConsistent (sym e) (make_unshareable-IsConsistent law i w h)
  Step-IsConsistent {w} (move_owner i o e) h =
      subst IsConsistent (sym e) (change_owner-IsConsistent law i o w h)
  Step-IsConsistent {w} (run_deleter now now' e) h =
      subst IsConsistent (sym e) (delete-IsConsistent law k s.deletion_period now now' w h)

module _ (k : Keys) (s : Service k.PubKey) where
  -- Whatever operations have run, in whatever order and with whatever failures of the driver, the
  -- collections satisfy the invariant if they did at the start.
  pub Reach-IsConsistent : {w w' : World} → IsConsistent w → Reach k s w w' → IsConsistent w'
  Reach-IsConsistent h here = h
  Reach-IsConsistent h (next m law r st) = Step-IsConsistent law k s st (Reach-IsConsistent h r)

-- The collections of a new database.
abbrev pub empty : World
empty = record {
  spaces = [];
  deletion_log = [];
  acl_event_log = [];
  account_limits = [];
  receipts = [];
}

pub empty-IsConsistent : IsConsistent empty
unfolding shown
empty-IsConsistent = record { keyed = tt; named = tt; agrees = λ j. refl; clean = tt }

-- Starting from an empty database, whatever operations of the space status have run, in whatever
-- order and with whatever failures of the driver: a node that follows the deletion log from its
-- start has, for every space, the status that the space has. Space ids are not empty, and a
-- forced creation meets a driver that fails neither to decode nor to insert.
pub log_follows :
    (k : Keys) (s : Service k.PubKey) {w : World}
    → Reach k s empty w
    → (j : String) (d : SpaceDoc) → space_at j w.spaces ≡ some d
    → log_status d.status ≡ ok (followed j w)
unfolding shown
log_follows k s {w} r j d e =
    subst (λ o. shown o ≡ ok (followed j w)) e
      ((Reach-IsConsistent k s empty-IsConsistent r).agrees j)
